-- ===== src/Workqueue/Tests.antt =====
-- Runs of a workqueue on machines with one and two processors, and the theorems there.
use common_project_template.Base.{
  Option, some, none, ◌==◌, if◌then◌else◌, Returns, ℕ, ◌≤◌, ◌<◌, ◌≡◌, refl, Bool, true, false, List,
  [], ◌∷◌, arith, length, times, one_if, ◌+◌,
}
use common_project_template.Workqueue.{
  Work, Workqueue, Phase, waiting, woken, created, running, init_workqueue, create_worker,
  worker_thread, wake_up, queue_work, stop_workqueue, process_one_work, prepare, look_for_work,
}
use common_project_template.Workqueue.Threads.{
  Mode, starting, ready, failed, System, mark, wakes, creates, fails, succeeds, begins, resumes,
  wakes_up, queues_and_signals, stops, unlocks, initial, Reachable, begin, step,
}
use common_project_template.Workqueue.Counts.{active, started, idle, count}
use common_project_template.Workqueue.Entries.{
  IsListed, taken, take_first, put_last, take_first-look_for_work, put_last-queue_work,
}
use common_project_template.ListHead.{Ptr, Heap, ListHead}
use common_project_template.Workqueue.Once.{runs_it, work-once}
use common_project_template.Workqueue.Prepare.{IsPrepared, nothing_held, prepare-IsPrepared}
use common_project_template.Workqueue.Reach.{
  work-attended, counters-count, destroyed-still, init-stuck,
}

-- The queue of a machine with one processor, with its counters and its list.
abbrev queue_of : (alive : Bool) (workers refs idlers : ℕ) → List Work → Workqueue
queue_of alive workers refs idlers works = record {
  alive = alive;
  nr_worker = workers;
  ref_count = refs;
  nr_max_worker = 3;
  nr_idle_worker = idlers;
  nr_max_idle_worker = 1;
  work_list = works;
}

abbrev system_of : Mode → Workqueue → List Phase → System
system_of mode wq threads = record {
  mode = mode;
  wq = wq;
  threads = threads;
  leaving = false;
  on_wq = λ work. false;
}

-- The only worker waits.
abbrev asleep : System
asleep = system_of ready (queue_of true 1 1 1 []) (waiting ∷ [])

asleep-Reachable : Reachable 1 asleep
unfolding init_workqueue create_worker worker_thread
asleep-Reachable =
    step
      (step (step begin (creates (initial 1) 0 refl))
        (succeeds (system_of (starting 0) (queue_of true 0 1 0 []) (created ∷ [])) refl))
      (begins (system_of ready (queue_of true 0 1 0 []) (created ∷ [])) [] [] refl refl)

-- A work has been queued, and the worker woken.
abbrev called : System
called = record asleep {
  wq = queue_of true 1 1 1 (7 ∷ []);
  threads = woken ∷ [];
  on_wq = mark (λ work. false) 7 true;
}

called-Reachable : Reachable 1 called
unfolding queue_work
called-Reachable = step asleep-Reachable (
    queues_and_signals asleep (queue_of true 1 1 1 (7 ∷ [])) 7 (woken ∷ []) refl refl refl
      (wakes [] []))

-- The queue has been destroyed.
abbrev destroyed : System
destroyed = system_of ready (queue_of false 0 0 0 []) []

destroyed-Reachable : Reachable 1 destroyed
unfolding stop_workqueue wake_up
destroyed-Reachable =
    step
      (step
        (step (step asleep-Reachable (stops asleep refl refl))
          (wakes_up (system_of ready (queue_of false 1 1 1 []) (waiting ∷ [])) [] [] refl))
        (resumes (system_of ready (queue_of false 1 1 1 []) (woken ∷ [])) [] [] refl refl))
      (unlocks (record destroyed { leaving = true }) refl)

-- On a machine with two processors, the second worker could not be created.
abbrev half : System
half =
    system_of (failed 1)
      (record (queue_of true 0 1 0 []) { nr_max_worker = 6; nr_max_idle_worker = 2 }) (created ∷ [])

half-Reachable : Reachable 2 half
unfolding init_workqueue create_worker
half-Reachable =
    step (step begin (creates (initial 2) 1 refl))
      (fails (record half { mode = starting 1 }) 0 refl)

-- A worker that comes back finds a work and no idle worker, and creates another one.
grown :
    process_one_work false (queue_of true 1 1 0 (7 ∷ 8 ∷ []))
    ≡ (queue_of true 1 2 0 (8 ∷ []), running 7 ∷ created ∷ [])
unfolding process_one_work
grown = refl

work-attended_example : 0 < count active called.threads
work-attended_example = work-attended 1 called (omega arith) called-Reachable (omega arith)

counters-count_example :
    (called.wq.ref_count ≡ length called.threads)
    × (called.wq.nr_worker ≡ count started called.threads)
    × (called.wq.nr_idle_worker ≡ count idle called.threads)
    × (length called.threads ≤ called.wq.nr_max_worker)
counters-count_example = counters-count 1 called (omega arith) called-Reachable

destroyed-still_example : (length destroyed.wq.work_list ≡ 0) × (destroyed ≡ destroyed)
unfolding stop_workqueue
destroyed-still_example =
    destroyed-still 1 destroyed (omega arith) destroyed-Reachable destroyed refl refl refl
      (stops destroyed refl refl)

init-stuck_example : 0 < half.wq.ref_count
init-stuck_example = init-stuck 2 half (omega arith) half-Reachable 0 refl

work-once_example :
    times 7 called.wq.work_list + count (runs_it 7) called.threads ≡ one_if (called.on_wq 7)
work-once_example = work-once 1 called 7 called-Reachable

prepare-IsPrepared_example :
    IsPrepared 1 false
      (prepare 8 1 false true nothing_held).0
      (prepare 8 1 false true nothing_held).1
prepare-IsPrepared_example = prepare-IsPrepared 8 1 false true

-- A list head at 64 with the entries of the works at 8 and 24, and the entry of another work, at 40.
abbrev linked : Ptr → Ptr → Option ListHead
linked prev next = some (record { next = next; prev = prev })

abbrev store : Heap
store a =
    if a == 64
    then linked 32 16
    else if a == 16
    then linked 64 32
    else if a == 32
    then linked 16 64
    else if a == 48
    then linked 48 48
    else none

abbrev two_works : Workqueue
two_works = queue_of true 1 1 0 (8 ∷ 24 ∷ [])

two_works-IsListed : IsListed 8 store 64 two_works.work_list
two_works-IsListed = record {
  ring = record {
    chain = ((refl, refl), ((refl, refl), (refl, refl)));
    apart = refl;
    distinct = (refl, (refl, tt));
  };
  addressed = λ work inside. ground arith;
}

take_first-look_for_work_example :
    Returns
      (λ r.
        (r.0 ≡ taken (look_for_work two_works).1)
        × IsListed 8 r.1 64 (look_for_work two_works).0.work_list)
      (take_first 8 64 store)
take_first-look_for_work_example =
    take_first-look_for_work 8 64 (omega arith) store two_works two_works-IsListed

put_last-queue_work_example :
    Returns (λ r. IsListed 8 r.1 64 (8 ∷ 24 ∷ 40 ∷ [])) (put_last 8 64 40 store)
unfolding queue_work
put_last-queue_work_example =
    put_last-queue_work 8 64 (omega arith) store two_works (queue_of true 1 1 0 (8 ∷ 24 ∷ 40 ∷ []))
      40 false false two_works-IsListed refl (_, refl) refl (omega arith)
