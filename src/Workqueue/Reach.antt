-- ===== src/Workqueue/Reach.antt =====
-- What holds of a workqueue whatever its threads do.
use common_project_template.Base.{
  true, ap, sym, false, List, [], ◌∷◌, ℕ, suc, ◌≤◌, ◌<◌, ◌≡◌, refl, arith, length,
}
use common_project_template.Workqueue.{
  init_workqueue, Phase, created, woken, finishing, waiting, running, stop_workqueue,
}
use common_project_template.Workqueue.Threads.{
  failed, Step, among, creates, fails, succeeds, begins, resumes, runs, comes_back, wakes_up,
  queues, queues_and_signals, stops, unlocks, System, Reachable, begin, step,
}
use common_project_template.Workqueue.Counts.{
  any, count-among, active, started, idle, count, count-length, active_le,
}
use common_project_template.Workqueue.Queue.{queue_work-queued}
use common_project_template.Workqueue.Preserve.{IsSound, in_mode, Step-IsSound}

Reachable-IsSound : (nprocs : ℕ) (s : System) → 0 < nprocs → Reachable nprocs s → IsSound s
unfolding init_workqueue
Reachable-IsSound nprocs s some begin = record {
  workers = refl;
  refs = refl;
  idles = refl;
  bounded = omega arith;
  some_idle = some;
  attended = λ h. absurd (omega arith);
  present = λ h. omega arith;
  early = λ h. (refl, refl, omega arith);
}
Reachable-IsSound nprocs s some (step {s = r} reached next) =
    Step-IsSound next (Reachable-IsSound nprocs r some reached)

-- Without threads, none stands anywhere.
nobody :
    (threads before after : List Phase) (phase : Phase)
    → count any threads ≡ 0
    → threads ≡ among before after (phase ∷ [])
    → ⊥
nobody threads before after phase none at =
    omega (arith, none, ap (count any) at, count-among any before after (phase ∷ []))

-- The steps from a stopped queue without threads.
still :
    (s t : System)
    → IsSound s
    → s.wq.alive ≡ false
    → s.wq.ref_count ≡ 0
    → s.leaving ≡ false
    → Step s t
    → t ≡ s
unfolding stop_workqueue
still _ _ sound dead none free (creates s k m) =
    absurd (ground (arith, dead, ((in_mode m sound).early refl).0))
still _ _ sound dead none free (fails s k m) =
    absurd (ground (arith, dead, ((in_mode m sound).early refl).0))
still _ _ sound dead none free (succeeds s m) =
    absurd (ground (arith, dead, ((in_mode m sound).early refl).0))
still _ _ sound dead none free (begins s before after at unlocked) =
    absurd (nobody s.threads before after created (omega (arith, sound.refs)) at)
still _ _ sound dead none free (resumes s before after at unlocked) =
    absurd (nobody s.threads before after woken (omega (arith, sound.refs)) at)
still _ _ sound dead none free (runs s before after work at) =
    absurd (nobody s.threads before after (running work) (omega (arith, sound.refs)) at)
still _ _ sound dead none free (comes_back s before after no_thread at unlocked) =
    absurd (nobody s.threads before after finishing (omega (arith, sound.refs)) at)
still _ _ sound dead none free (wakes_up s before after at) =
    absurd (nobody s.threads before after waiting (omega (arith, sound.refs)) at)
still _ _ sound dead none free (unlocks s leaves) = absurd (ground (arith, free, leaves))
still _ _ sound dead none free (queues s wq work m unlocked done) =
    absurd (ground (arith, dead, (queue_work-queued (s.on_wq work) s.wq wq work false done).1))
still _ _ sound dead none free (queues_and_signals s wq work threads m unlocked done woke) =
    absurd (ground (arith, dead, (queue_work-queued (s.on_wq work) s.wq wq work true done).1))
still _ _ sound dead none free (stops s m unlocked) =
    let e = sym dead in λ i. record s { wq = record s.wq { alive = e i } }

module _ (nprocs : ℕ) (s : System) (some : 0 < nprocs) (reached : Reachable nprocs s) where
  -- Whatever the threads have done, on a machine with a processor: as long as a work is on the list,
  -- there is a worker thread that is not asleep on the condition, and so comes to look for it.
  pub work-attended : 0 < length s.wq.work_list → 0 < count active s.threads
  work-attended = (Reachable-IsSound nprocs s some reached).attended

  -- Whatever the threads have done, on a machine with a processor: `ref_count` is the number of worker
  -- threads that have not counted themselves out, `nr_worker` that of those that have begun, `nr_idle_worker` that
  -- of those in or just out of a wait, and there are at most `nr_max_worker` threads.
  pub counters-count :
      (s.wq.ref_count ≡ length s.threads)
      × (s.wq.nr_worker ≡ count started s.threads)
      × (s.wq.nr_idle_worker ≡ count idle s.threads)
      × (length s.threads ≤ s.wq.nr_max_worker)
  counters-count =
      let sound = Reachable-IsSound nprocs s some reached in
      (
        omega (arith, sound.refs, count-length s.threads),
        sound.workers,
        sound.idles,
        omega (arith, sound.bounded, count-length s.threads),
      )

  -- Whatever the threads have done, on a machine with a processor: when the queue has been stopped,
  -- `ref_count` is 0, and no worker that exits holds the lock, on which destroy_workqueue waits in this
  -- order, no work is on the list, and no step changes anything: no worker, and no queue_work, comes
  -- back to the queue.
  pub destroyed-still :
      (t : System)
      → s.wq.alive ≡ false
      → s.wq.ref_count ≡ 0
      → s.leaving ≡ false
      → Step s t
      → (length s.wq.work_list ≡ 0) × (t ≡ s)
  destroyed-still t dead none free next =
      let sound = Reachable-IsSound nprocs s some reached in
      let no_active : count active s.threads ≡ 0 = omega (arith, active_le s.threads, sound.refs) in
      (ground (arith, sound.attended), still s t sound dead none free next)

  -- On a machine with a processor, whatever the threads do after pthread_create has failed and
  -- init_workqueue had created workers: `ref_count` is positive, so init_workqueue, which waits
  -- until it is 0, goes on waiting.
  pub init-stuck : (workers : ℕ) → s.mode ≡ failed (suc workers) → 0 < s.wq.ref_count
  init-stuck workers e =
      let sound = in_mode e (Reachable-IsSound nprocs s some reached) in
      let (alive, none, few) = sound.early refl in omega (arith, sound.present alive, sound.refs)
