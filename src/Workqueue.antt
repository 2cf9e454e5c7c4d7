-- ===== src/Workqueue.antt =====
-- lib/workqueue/workqueue.c and workqueue.h: a queue of works that worker threads process. Each
-- definition is the code that a thread runs while it holds `wq->lock`; a work is its address. The
-- entries of `wq->work_list` are a list, in the order of the C list.
pub mod Threads
pub mod Counts
pub mod Sections
pub mod Workers
pub mod Queue
pub mod Once
pub mod Entries
pub mod Prepare
pub mod Preserve
pub mod Reach
mod Tests
use common_project_template.Base.{
  ℕ, zero, suc, ◌+◌, ◌-◌, ◌*◌, Option, none, some, Bool, true, false, not, ◌&&◌, List, [], ◌∷◌,
  ◌++◌, ◌==◌, ltb, leb, if◌then◌else◌,
}

abbrev pub Work : Type 0
Work = ℕ

-- `struct workqueue`; the lock and the condition variable are in the steps of Workqueue/Threads and in
-- `Held`, the name is only passed on.
pub record Workqueue : Type 0 where
  pub alive : Bool
  pub nr_worker : ℕ
  pub ref_count : ℕ
  pub nr_max_worker : ℕ
  pub nr_idle_worker : ℕ
  pub nr_max_idle_worker : ℕ
  pub work_list : List Work

-- Where a worker thread stands when it does not hold the lock: it was created and has not taken the
-- lock yet, runs `work->func`, has set `work->wq` to NULL and comes back for the lock, waits for
-- the condition, or was woken from that.
pub data Phase : Type 0 where
  created finishing waiting woken : Phase
  running : Work → Phase

-- `MULTIPLE_CPUS`
abbrev pub multiple_cpus : ℕ
multiple_cpus = 3

-- What `init_workqueue` sets before it creates workers.
pub init_workqueue : (nprocs : ℕ) → Workqueue
init_workqueue nprocs = record {
  alive = true;
  nr_worker = 0;
  ref_count = 0;
  nr_max_worker = nprocs * multiple_cpus;
  nr_idle_worker = 0;
  nr_max_idle_worker = nprocs;
  work_list = [];
}

-- `WORKQUEUE_NAME_LEN`
abbrev pub workqueue_name_len : ℕ
workqueue_name_len = 40

-- Whether the lock and the condition variable of a queue are initialised.
pub record Held : Type 0 where
  pub lock : Bool
  pub cond : Bool

-- `init_workqueue` up to its loop, with the length of the name and whether pthread_mutex_init and
-- pthread_cond_init fail: the queue, or nothing where it returns -1.
pub prepare :
    (name_length nprocs : ℕ) → (mutex_fails cond_fails : Bool) → Held → Option Workqueue × Held
prepare name_length nprocs mutex_fails cond_fails held =
    if ltb workqueue_name_len (name_length + 1)
    then (none, held)
    else if mutex_fails
    then (none, held)
    else let locked = record held { lock = true } in
      if cond_fails
      then (none, record locked { lock = false })
      else (some (init_workqueue nprocs), record locked { cond = true })

-- `wq->ref_count++` and pthread_create, which may fail; the new thread, if there is one.
pub create_worker : (fails : Bool) → Workqueue → Workqueue × List Phase
create_worker fails wq =
    if fails then (wq, []) else (record wq { ref_count = wq.ref_count + 1 }, created ∷ [])

-- `worker_thread` from the test of its loop on, up to where it lets go of the lock: what becomes
-- of the thread, nothing if it exits.
pub look_for_work : Workqueue → Workqueue × List Phase
look_for_work wq =
    let exit = record wq { nr_worker = wq.nr_worker - 1; ref_count = wq.ref_count - 1 } in
    elim wq.work_list [
      | work ∷ works ↦ (record wq { work_list = works }, running work ∷ [])
      | [] ↦
          if not wq.alive
          then (exit, [])
          else if ltb wq.nr_max_idle_worker (wq.nr_idle_worker + 1)
          then (exit, [])
          else (record wq { nr_idle_worker = wq.nr_idle_worker + 1 }, waiting ∷ [])
    ]

-- From the label `wake_up` on.
pub wake_up : Workqueue → Workqueue × List Phase
unfolding look_for_work
wake_up wq = look_for_work (record wq { nr_idle_worker = wq.nr_idle_worker - 1 })

-- The start of `worker_thread`.
pub worker_thread : Workqueue → Workqueue × List Phase
unfolding wake_up
worker_thread wq =
    wake_up (record wq { nr_idle_worker = wq.nr_idle_worker + 1; nr_worker = wq.nr_worker + 1 })

abbrev pub list_empty : List Work → Bool
list_empty [] = true
list_empty (work ∷ works) = false

-- The end of `process_one_work`, which may create a worker.
pub grow : (fails : Bool) → Workqueue → Workqueue × List Phase
unfolding create_worker
grow fails wq =
    if wq.alive
      && not (list_empty wq.work_list)
      && (wq.nr_idle_worker == 0)
      && ltb wq.ref_count wq.nr_max_worker
    then create_worker fails wq
    else (wq, [])

-- That, and the loop of `worker_thread` again.
pub process_one_work : (fails : Bool) → Workqueue → Workqueue × List Phase
unfolding grow look_for_work
process_one_work fails wq =
    let (grown, extra) = grow fails wq in
    let (after, self) = look_for_work grown in (after, self ++ extra)

-- How `queue_work` ends: -1 with one of two warnings, or 0 with the new queue and whether it
-- signals the condition.
pub data Verdict : Type 0 where
  already_on dead : Verdict
  queued : Workqueue → (signal : Bool) → Verdict

-- `on_wq` says whether `work->wq` is set.
pub queue_work : (on_wq : Bool) → Workqueue → Work → Verdict
queue_work on_wq wq work =
    if on_wq
    then already_on
    else if not wq.alive
    then dead
    else queued (record wq { work_list = wq.work_list ++ (work ∷ []) }) (ltb 0 wq.nr_idle_worker)

-- The part of `destroy_workqueue` that holds the lock.
pub stop_workqueue : Workqueue → Workqueue
stop_workqueue wq = record wq { alive = false }
