-- ===== src/Workqueue/Prepare.antt =====
-- The errors of init_workqueue before it creates workers.
use common_project_template.Base.{
  ℕ, ◌+◌, ◌*◌, ap, [], ◌≡◌, refl, Bool, true, false, not, ◌&&◌, Option, none, some, leb, ltb,
  if◌then◌else◌, arith, Bool-cases, inl, inr,
}
use common_project_template.Workqueue.{Workqueue, Held, init_workqueue, prepare, workqueue_name_len}

-- A live queue without workers and works, with the limits of the machine.
abbrev new_queue : (nprocs : ℕ) → Workqueue
new_queue nprocs = record {
  alive = true;
  nr_worker = 0;
  ref_count = 0;
  nr_max_worker = 3 * nprocs;
  nr_idle_worker = 0;
  nr_max_idle_worker = nprocs;
  work_list = [];
}

init_workqueue-new : (nprocs : ℕ) → init_workqueue nprocs ≡ new_queue nprocs
unfolding init_workqueue
init_workqueue-new nprocs =
    let three : nprocs * 3 ≡ 3 * nprocs = omega arith in
    λ i. record (new_queue nprocs) { nr_max_worker = three i }

-- What init_workqueue has when it comes to its loop, or when it returns -1 before that.
pub record IsPrepared (nprocs : ℕ) (fine : Bool) (result : Option Workqueue) (held : Held)
    : Type 0 where
  queue : result ≡ (if fine then some (new_queue nprocs) else none)
  lock : held.lock ≡ fine
  cond : held.cond ≡ fine

failed : (nprocs : ℕ) → IsPrepared nprocs false none (record { lock = false; cond = false })
failed nprocs = record { queue = refl; lock = refl; cond = refl }

abbrev pub nothing_held : Held
nothing_held = record { lock = false; cond = false }

-- The calls after a name that is short enough.
fine_name :
    (name_length nprocs : ℕ) (mutex_fails cond_fails : Bool)
    → ltb workqueue_name_len (name_length + 1) ≡ false
    → let (result, held) = prepare name_length nprocs mutex_fails cond_fails nothing_held in
      IsPrepared nprocs (not mutex_fails && not cond_fails) result held
unfolding prepare
fine_name name_length nprocs true cond_fails fits = rw fits (failed nprocs)
fine_name name_length nprocs false true fits = rw fits (failed nprocs)
fine_name name_length nprocs false false fits =
    rw fits (record { queue = ap some (init_workqueue-new nprocs); lock = refl; cond = refl })

-- Where the name has at most 39 characters, and neither pthread_mutex_init nor pthread_cond_init fails,
-- init_workqueue comes to its loop with its lock, its condition variable and a live queue that has no
-- workers and no works, and limits of three workers and one idle worker for each processor; otherwise
-- it returns -1 with neither of the two initialised.
pub prepare-IsPrepared :
    (name_length nprocs : ℕ) (mutex_fails cond_fails : Bool)
    → let (result, held) = prepare name_length nprocs mutex_fails cond_fails nothing_held in
      IsPrepared nprocs (leb name_length 39 && not mutex_fails && not cond_fails) result held
unfolding prepare
prepare-IsPrepared name_length nprocs mutex_fails cond_fails =
    elim (Bool-cases (ltb workqueue_name_len (name_length + 1))) [
      | inl long ↦
          let short : leb name_length 39 ≡ false = ground arith in rw (long, short) (failed nprocs)
      | inr fits ↦
          let short : leb name_length 39 ≡ true = ground arith in
          rw short (fine_name name_length nprocs mutex_fails cond_fails fits)
    ]
