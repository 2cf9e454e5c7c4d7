-- ===== src/Workqueue/Once.antt =====
-- A work is on the list or with one worker thread just while it belongs to the queue.
use common_project_template.Base.{
  ℕ, ◌+◌, ◌-◌, ◌≡◌, refl, Bool, true, false, not, ◌&&◌, List, [], ◌∷◌, ◌==◌, ltb, arith, ap, ◌∙◌,
  Bool-cases, inl, inr, one_if, times, times-append,
}
use common_project_template.Workqueue.{
  Work, Workqueue, Phase, created, finishing, waiting, woken, running, list_empty, init_workqueue,
  look_for_work, wake_up, worker_thread, grow, create_worker, process_one_work, queue_work, queued,
  stop_workqueue,
}
use common_project_template.Workqueue.Threads.{
  System, mark, Step, Signalled, wakes, unheard, creates, fails, succeeds, begins, resumes, runs,
  comes_back, wakes_up, queues, queues_and_signals, stops, unlocks, among, Reachable, begin, step,
}
use common_project_template.Workqueue.Counts.{count, count-append, count-among}
use common_project_template.Workqueue.Workers.{choose}
use common_project_template.Workqueue.Queue.{queue_work-queued}

-- 1 for a thread that runs the function of a work.
abbrev pub runs_it : Work → Phase → ℕ
runs_it work (running other) = one_if (work == other)
runs_it work created = 0
runs_it work finishing = 0
runs_it work waiting = 0
runs_it work woken = 0

-- How often a work is on the list of a queue or with one of some threads.
abbrev pub held : Work → Workqueue → List Phase → ℕ
held work wq threads = times work wq.work_list + count (runs_it work) threads

module _ (work : Work) where
  -- Looking for work moves a work from the list to the thread.
  taken-held :
      (wq : Workqueue) (works : List Work)
      → held work
          (look_for_work (record wq { work_list = works })).0
          (look_for_work (record wq { work_list = works })).1
        ≡ times work works
  unfolding look_for_work
  taken-held wq (first ∷ works) = omega arith
  taken-held wq [] =
      let none = λ (r : Workqueue × List Phase). held work r.0 r.1 ≡ 0 in
      choose none (not wq.alive) (λ _. refl)
        (λ _.
          choose none (ltb wq.nr_max_idle_worker (wq.nr_idle_worker + 1)) (λ _. refl) (λ _. refl))

  look_for_work-held :
      (wq : Workqueue)
      → held work (look_for_work wq).0 (look_for_work wq).1 ≡ times work wq.work_list
  look_for_work-held wq = taken-held wq wq.work_list

  wake_up-held :
      (wq : Workqueue) → held work (wake_up wq).0 (wake_up wq).1 ≡ times work wq.work_list
  unfolding wake_up
  wake_up-held wq = look_for_work-held (record wq { nr_idle_worker = wq.nr_idle_worker - 1 })

  worker_thread-held :
      (wq : Workqueue)
      → held work (worker_thread wq).0 (worker_thread wq).1 ≡ times work wq.work_list
  unfolding worker_thread
  worker_thread-held wq =
      wake_up-held
        (record wq { nr_idle_worker = wq.nr_idle_worker + 1; nr_worker = wq.nr_worker + 1 })

  grow-held :
      (no_thread : Bool) (wq : Workqueue)
      → (times work (grow no_thread wq).0.work_list ≡ times work wq.work_list)
        × (count (runs_it work) (grow no_thread wq).1 ≡ 0)
  unfolding grow create_worker
  grow-held no_thread wq =
      let same = λ (r : Workqueue × List Phase).
        (times work r.0.work_list ≡ times work wq.work_list) × (count (runs_it work) r.1 ≡ 0) in
      choose same
        (wq.alive
          && not (list_empty wq.work_list)
          && (wq.nr_idle_worker == 0)
          && ltb wq.ref_count wq.nr_max_worker)
        (λ _. choose same no_thread (λ _. (refl, refl)) (λ _. (refl, refl))) (λ _. (refl, refl))

  process_one_work-held :
      (no_thread : Bool) (wq : Workqueue)
      → held work (process_one_work no_thread wq).0 (process_one_work no_thread wq).1
        ≡ times work wq.work_list
  unfolding process_one_work
  process_one_work-held no_thread wq =
      let (same, none) = grow-held no_thread wq in
      omega (
        arith,
        same,
        none,
        look_for_work-held (grow no_thread wq).0,
        count-append (runs_it work) (look_for_work (grow no_thread wq).0).1 (grow no_thread wq).1,
      )

  Signalled-held :
      {threads threads' : List Phase}
      → Signalled threads threads'
      → count (runs_it work) threads' ≡ count (runs_it work) threads
  Signalled-held (wakes before after) = omega (
    arith,
    count-among (runs_it work) before after (waiting ∷ []),
    count-among (runs_it work) before after (woken ∷ []),
  )
  Signalled-held (unheard threads e) = refl

  IsOnce : System → Type 0
  IsOnce s = held work s.wq s.threads ≡ one_if (s.on_wq work)

  -- A section of a thread that runs no work.
  section-IsOnce :
      (s : System) (before after here : List Phase) (wq : Workqueue) (phase : Phase)
      → IsOnce s
      → s.threads ≡ among before after (phase ∷ [])
      → runs_it work phase ≡ 0
      → held work wq here ≡ times work s.wq.work_list
      → held work wq (among before after here) ≡ one_if (s.on_wq work)
  unfolding IsOnce
  section-IsOnce s before after here wq phase once at none done = omega (
    arith,
    once,
    ap (count (runs_it work)) at,
    count-among (runs_it work) before after (phase ∷ []),
    count-among (runs_it work) before after here,
    none,
    done,
  )

  queued-times :
      (on_wq : Bool) (wq after : Workqueue) (other : Work) (signal : Bool)
      → queue_work on_wq wq other ≡ queued after signal
      → times work after.work_list ≡ times work wq.work_list + one_if (work == other)
  queued-times on_wq wq after other signal done =
      let (free, alive, same, wakes_one) = queue_work-queued on_wq wq after other signal done in
      omega (
        arith,
        ap (λ (w : Workqueue). times work w.work_list) same,
        times-append work wq.work_list (other ∷ []),
      )

  -- Queueing a work that is on no queue.
  queued-IsOnce :
      (s : System) (wq : Workqueue) (threads : List Phase) (other : Work) (signal : Bool)
      → IsOnce s
      → queue_work (s.on_wq other) s.wq other ≡ queued wq signal
      → count (runs_it work) threads ≡ count (runs_it work) s.threads
      → held work wq threads ≡ one_if (mark s.on_wq other true work)
  unfolding IsOnce
  queued-IsOnce s wq threads other signal once done same =
      let free = (queue_work-queued (s.on_wq other) s.wq wq other signal done).0 in
      let more = queued-times (s.on_wq other) s.wq wq other signal done in
      elim (Bool-cases (work == other)) [
        | inl it ↦
            let e : work ≡ other = ground arith in
            let off : s.on_wq work ≡ false = ap s.on_wq e ∙ free in
            ground (arith, once, same, more, it, off)
        | inr another ↦ ground (arith, once, same, more, another)
      ]

  Step-IsOnce : {s t : System} → Step s t → IsOnce s → IsOnce t
  unfolding IsOnce create_worker stop_workqueue
  Step-IsOnce (creates s k at) once =
      omega (arith, once, count-append (runs_it work) s.threads (created ∷ []))
  Step-IsOnce (fails s k at) once = once
  Step-IsOnce (succeeds s at) once = once
  Step-IsOnce (begins s before after at free) once =
      section-IsOnce s before after (worker_thread s.wq).1 (worker_thread s.wq).0 created once at
        refl (worker_thread-held s.wq)
  Step-IsOnce (resumes s before after at free) once =
      section-IsOnce s before after (wake_up s.wq).1 (wake_up s.wq).0 woken once at refl
        (wake_up-held s.wq)
  Step-IsOnce (comes_back s before after no_thread at free) once =
      section-IsOnce s before after (process_one_work no_thread s.wq).1
        (process_one_work no_thread s.wq).0 finishing once at refl
        (process_one_work-held no_thread s.wq)
  Step-IsOnce (wakes_up s before after at) once =
      section-IsOnce s before after (woken ∷ []) s.wq waiting once at refl (omega arith)
  Step-IsOnce (runs s before after other at) once =
      let was =
        ap (count (runs_it work)) at
        ∙ count-among (runs_it work) before after (running other ∷ []) in
      let now = count-among (runs_it work) before after (finishing ∷ []) in
      ground (arith, once, was, now)
  Step-IsOnce (queues s wq other is_ready free done) once =
      queued-IsOnce s wq s.threads other false once done refl
  Step-IsOnce (queues_and_signals s wq other threads is_ready free done woke) once =
      queued-IsOnce s wq threads other true once done (Signalled-held woke)
  Step-IsOnce (unlocks s leaves) once = once
  Step-IsOnce (stops s is_ready free) once = once

Reachable-IsOnce : (nprocs : ℕ) (s : System) (work : Work) → Reachable nprocs s → IsOnce work s
unfolding IsOnce init_workqueue
Reachable-IsOnce nprocs s work begin = refl
Reachable-IsOnce nprocs s work (step {s = r} reached next) =
    Step-IsOnce work next (Reachable-IsOnce nprocs r work reached)

-- Whatever the threads have done: a work with `work->wq` set is either on the list, once, or with
-- one worker thread that has not yet set it to NULL; and with `work->wq` NULL, on which
-- flush_work waits, it is neither on the list nor with a thread.
pub work-once :
    (nprocs : ℕ) (s : System) (work : Work)
    → Reachable nprocs s
    → times work s.wq.work_list + count (runs_it work) s.threads ≡ one_if (s.on_wq work)
unfolding IsOnce
work-once nprocs s work reached = Reachable-IsOnce nprocs s work reached
