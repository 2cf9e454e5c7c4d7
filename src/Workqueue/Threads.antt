-- ===== src/Workqueue/Threads.antt =====
-- The steps of the threads of a workqueue: the workers, a client that queues works, and the threads
-- that create and destroy the queue. A step is what a thread does while it holds the lock, or one
-- call without it. A worker that exits goes on holding the lock after `ref_count--`, which others
-- read without the lock, so its unlock is a step of its own.
use common_project_template.Base.{
  ℕ, suc, ◌≡◌, Bool, true, false, List, [], ◌++◌, ◌∷◌, ◌==◌, if◌then◌else◌, length,
}
use common_project_template.Workqueue.{
  Work, Workqueue, Phase, created, finishing, waiting, woken, running, init_workqueue,
  create_worker, worker_thread, wake_up, process_one_work, queued, queue_work, stop_workqueue,
}

-- Where `init_workqueue` stands: so many rounds of its loop to go, returned 0, or waits for the
-- workers that it had created when pthread_create failed.
pub data Mode : Type 0 where
  starting : (rounds : ℕ) → Mode
  ready : Mode
  failed : (workers : ℕ) → Mode

-- The queue, the worker threads that `ref_count` counts, whether another one has counted itself out and
-- still holds the lock, and whether `work->wq` is set for each work.
pub record System : Type 0 where
  pub mode : Mode
  pub wq : Workqueue
  pub threads : List Phase
  pub leaving : Bool
  pub on_wq : Work → Bool

abbrev pub mark : (Work → Bool) → Work → Bool → Work → Bool
mark on_wq work value other = if other == work then value else on_wq other

-- The threads in which one stands between `before` and `after`.
abbrev pub among : (before after : List Phase) → List Phase → List Phase
among before after here = before ++ (here ++ after)

abbrev pub all_awake : List Phase → Bool
all_awake [] = true
all_awake (waiting ∷ threads) = false
all_awake (phase ∷ threads) = all_awake threads

-- pthread_cond_signal: some waiting thread is woken, if there is one.
pub data Signalled : List Phase → List Phase → Type 0 where
  wakes :
      (before after : List Phase)
      → Signalled (among before after (waiting ∷ [])) (among before after (woken ∷ []))
  unheard : (threads : List Phase) → all_awake threads ≡ true → Signalled threads threads

abbrev pub is_gone : List Phase → Bool
is_gone [] = true
is_gone (phase ∷ threads) = false

-- A section of a worker thread: what the queue and the thread become. A thread of which nothing becomes
-- is leaving.
abbrev pub section : System → (before after : List Phase) → Workqueue × List Phase → System
section s before after (wq, here) = record s {
  wq = wq;
  threads = among before after here;
  leaving = is_gone here;
}

pub data Step : System → System → Type 0 where
  -- A round of the loop of `init_workqueue`, and its end.
  creates :
      (s : System) (k : ℕ)
      → s.mode ≡ starting (suc k)
      → Step s (record s {
        mode = starting k;
        wq = (create_worker false s.wq).0;
        threads = s.threads ++ (create_worker false s.wq).1;
      })
  fails :
      (s : System) (k : ℕ)
      → s.mode ≡ starting (suc k)
      → Step s (record s { mode = failed (length s.threads) })
  succeeds : (s : System) → s.mode ≡ starting 0 → Step s (record s { mode = ready })
  -- A worker begins, wakes up, runs the function of its work, or comes back from it.
  begins :
      (s : System) (before after : List Phase)
      → s.threads ≡ among before after (created ∷ [])
      → s.leaving ≡ false
      → Step s (section s before after (worker_thread s.wq))
  resumes :
      (s : System) (before after : List Phase)
      → s.threads ≡ among before after (woken ∷ [])
      → s.leaving ≡ false
      → Step s (section s before after (wake_up s.wq))
  runs :
      (s : System) (before after : List Phase) (work : Work)
      → s.threads ≡ among before after (running work ∷ [])
      → Step s (record s {
        threads = among before after (finishing ∷ []);
        on_wq = mark s.on_wq work false;
      })
  comes_back :
      (s : System) (before after : List Phase) (create_fails : Bool)
      → s.threads ≡ among before after (finishing ∷ [])
      → s.leaving ≡ false
      → Step s (section s before after (process_one_work create_fails s.wq))
  -- A worker that exits lets go of the lock, with its last access to the queue.
  unlocks : (s : System) → s.leaving ≡ true → Step s (record s { leaving = false })
  -- A wait may end without a signal, and the waits of `init_workqueue` and `destroy_workqueue` signal.
  wakes_up :
      (s : System) (before after : List Phase)
      → s.threads ≡ among before after (waiting ∷ [])
      → Step s (record s { threads = among before after (woken ∷ []) })
  -- The client queues a work, with or without a signal, or destroys the queue.
  queues :
      (s : System) (wq : Workqueue) (work : Work)
      → s.mode ≡ ready
      → s.leaving ≡ false
      → queue_work (s.on_wq work) s.wq work ≡ queued wq false
      → Step s (record s { wq = wq; on_wq = mark s.on_wq work true })
  queues_and_signals :
      (s : System) (wq : Workqueue) (work : Work) (threads : List Phase)
      → s.mode ≡ ready
      → s.leaving ≡ false
      → queue_work (s.on_wq work) s.wq work ≡ queued wq true
      → Signalled s.threads threads
      → Step s (record s { wq = wq; threads = threads; on_wq = mark s.on_wq work true })
  stops :
      (s : System)
      → s.mode ≡ ready
      → s.leaving ≡ false
      → Step s (record s { wq = stop_workqueue s.wq })

-- A new queue on a machine with `nprocs` processors, and what can become of it.
abbrev pub initial : (nprocs : ℕ) → System
initial nprocs = record {
  mode = starting nprocs;
  wq = init_workqueue nprocs;
  threads = [];
  leaving = false;
  on_wq = λ work. false;
}

pub data Reachable (nprocs : ℕ) : System → Type 0 where
  begin : Reachable nprocs (initial nprocs)
  step : {s t : System} → Reachable nprocs s → Step s t → Reachable nprocs t
