-- ===== src/Workqueue/Sections.antt =====
-- The sections of the worker threads keep the counters of a workqueue right.
use common_project_template.Base.{
  ℕ, suc, ◌+◌, ◌-◌, ◌≤◌, ◌<◌, ◌≡◌, refl, Bool, true, false, List, [], ◌∷◌, ltb, arith, length, ap,
  ◌⊎◌, inl, inr, Bool-cases, subst, sym,
}
use common_project_template.Workqueue.{Work, Workqueue, Phase, waiting, running, look_for_work}
use common_project_template.Workqueue.Threads.{Mode, starting, ready, failed}
use common_project_template.Workqueue.Counts.{active, started, idle, any, count}

-- The workers that `init_workqueue` will still create, and those that are there for sure.
abbrev pub pending : Mode → ℕ
pending (starting rounds) = rounds
pending ready = 0
pending (failed workers) = 0

abbrev pub at_least : Mode → ℕ
at_least (starting rounds) = 1
at_least ready = 1
at_least (failed workers) = workers

abbrev pub is_ready : Mode → Bool
is_ready ready = true
is_ready (starting rounds) = false
is_ready (failed workers) = false

-- How many threads there are, how many began, are idle, or will look for work by themselves.
pub record Tally : Type 0 where
  pub all : ℕ
  pub begun : ℕ
  pub idlers : ℕ
  pub actives : ℕ

abbrev pub plus : Tally → List Phase → Tally
plus t here = record {
  all = t.all + count any here;
  begun = t.begun + count started here;
  idlers = t.idlers + count idle here;
  actives = t.actives + count active here;
}

-- The counters are those of the threads, the limits hold, a work in the list has a thread that will
-- look for it, and before the queue is ready no work is in the list and no worker exits.
pub record IsCounted (mode : Mode) (wq : Workqueue) (t : Tally) : Type 0 where
  pub workers : wq.nr_worker ≡ t.begun
  pub refs : wq.ref_count ≡ t.all
  pub idles : wq.nr_idle_worker ≡ t.idlers
  pub bounded : t.all + pending mode ≤ wq.nr_max_worker
  pub some_idle : 0 < wq.nr_max_idle_worker
  pub attended : 0 < length wq.work_list → 0 < t.actives
  pub present : wq.alive ≡ true → at_least mode ≤ t.all + pending mode
  pub early :
      is_ready mode ≡ false
      → (wq.alive ≡ true)
        × (length wq.work_list ≡ 0)
        × (t.all + pending mode ≤ wq.nr_max_idle_worker)

-- The same, with one more thread that has begun and holds the lock.
pub record IsHeld (mode : Mode) (wq : Workqueue) (t : Tally) : Type 0 where
  pub workers : wq.nr_worker ≡ suc t.begun
  pub refs : wq.ref_count ≡ suc t.all
  pub idles : wq.nr_idle_worker ≡ t.idlers
  pub idlers_le : t.idlers ≤ t.all
  pub bounded : suc t.all + pending mode ≤ wq.nr_max_worker
  pub some_idle : 0 < wq.nr_max_idle_worker
  pub present : wq.alive ≡ true → at_least mode ≤ suc t.all + pending mode
  pub early :
      is_ready mode ≡ false
      → (wq.alive ≡ true)
        × (length wq.work_list ≡ 0)
        × (suc t.all + pending mode ≤ wq.nr_max_idle_worker)

List-cases : (xs : List Work) → (xs ≡ []) ⊎ ((x : Work) × (ys : List Work) × (xs ≡ x ∷ ys))
List-cases [] = inl refl
List-cases (x ∷ ys) = inr (x, ys, refl)

pub ready_at_least : (mode : Mode) → is_ready mode ≡ true → (at_least mode ≡ 1) × (pending mode ≡ 0)
ready_at_least ready e = (refl, refl)
ready_at_least (starting rounds) e = absurd (ground arith)
ready_at_least (failed workers) e = absurd (ground arith)

pub ready_when_queued :
    (mode : Mode) (wq : Workqueue) (t : Tally)
    → IsHeld mode wq t
    → 0 < length wq.work_list
    → is_ready mode ≡ true
ready_when_queued mode wq t held some_work = elim (Bool-cases (is_ready mode)) [
  | inl is ↦ is
  | inr early ↦ let (alive, none, few) = held.early early in absurd (omega arith)
]

module _ (mode : Mode) (wq : Workqueue) (t : Tally) (held : IsHeld mode wq t) where
  -- The thread takes a work.
  taken :
      (work : Work) (works : List Work)
      → wq.work_list ≡ work ∷ works
      → IsCounted mode (record wq { work_list = works }) (plus t (running work ∷ []))
  taken work works e =
      let some_work : 0 < length wq.work_list = ground (arith, ap length e) in
      let yes = ready_when_queued mode wq t held some_work in
      record {
        workers = omega (arith, held.workers);
        refs = omega (arith, held.refs);
        idles = omega (arith, held.idles);
        bounded = omega (arith, held.bounded);
        some_idle = held.some_idle;
        attended = λ h. omega arith;
        present = λ h. omega (arith, held.present h);
        early = λ no. absurd (ground arith);
      }

  -- The thread exits.
  gone :
      length wq.work_list ≡ 0
      → (wq.alive ≡ true → wq.nr_max_idle_worker < wq.nr_idle_worker + 1)
      → IsCounted mode
          (record wq { nr_worker = wq.nr_worker - 1; ref_count = wq.ref_count - 1 })
          (plus t [])
  gone none crowded =
      let others : wq.alive ≡ true → 0 < t.all =
        λ h. omega (arith, crowded h, held.idles, held.idlers_le, held.some_idle) in
      record {
        workers = omega (arith, held.workers);
        refs = omega (arith, held.refs);
        idles = omega (arith, held.idles);
        bounded = omega (arith, held.bounded);
        some_idle = held.some_idle;
        attended = λ h. absurd (omega arith);
        present = λ h. elim (Bool-cases (is_ready mode)) [
          | inl is ↦ let least = ready_at_least mode is in omega (arith, others h, least.0)
          | inr early ↦
              let (alive, empty, few) = held.early early in
              absurd (omega (arith, crowded h, held.idles, held.idlers_le))
        ];
        early = λ no.
            let (alive, empty, few) = held.early no in
            absurd (omega (arith, crowded alive, held.idles, held.idlers_le));
      }

  -- The thread waits.
  stays :
      length wq.work_list ≡ 0
      → IsCounted mode
          (record wq { nr_idle_worker = wq.nr_idle_worker + 1 })
          (plus t (waiting ∷ []))
  stays none = record {
    workers = omega (arith, held.workers);
    refs = omega (arith, held.refs);
    idles = omega (arith, held.idles);
    bounded = omega (arith, held.bounded);
    some_idle = held.some_idle;
    attended = λ h. absurd (omega arith);
    present = λ h. omega (arith, held.present h);
    early = λ no. let (alive, empty, few) = held.early no in (alive, none, omega arith);
  }

  by_result :
      (r : Workqueue × List Phase)
      → look_for_work wq ≡ r
      → IsCounted mode r.0 (plus t r.1)
      → IsCounted mode (look_for_work wq).0 (plus t (look_for_work wq).1)
  by_result r e counted = subst (λ q. IsCounted mode q.0 (plus t q.1)) (sym e) counted

  pub look_for_work-IsCounted : IsCounted mode (look_for_work wq).0 (plus t (look_for_work wq).1)
  unfolding look_for_work
  look_for_work-IsCounted = elim (List-cases wq.work_list) [
    | inr (work, works, e) ↦
        by_result (record wq { work_list = works }, running work ∷ []) (rw e refl)
          (taken work works e)
    | inl e ↦
        let none : length wq.work_list ≡ 0 = ap length e in
        let exit = record wq { nr_worker = wq.nr_worker - 1; ref_count = wq.ref_count - 1 } in
        elim (Bool-cases wq.alive) [
          | inr dead ↦
              by_result (exit, []) (rw (e, dead) refl) (gone none (λ h. absurd (ground arith)))
          | inl alive ↦ elim (Bool-cases (ltb wq.nr_max_idle_worker (wq.nr_idle_worker + 1))) [
            | inl crowded ↦
                by_result (exit, []) (rw (e, alive, crowded) refl) (gone none (λ h. ground arith))
            | inr room ↦
                by_result (record wq { nr_idle_worker = wq.nr_idle_worker + 1 }, waiting ∷ [])
                  (rw (e, alive, room) refl) (stays none)
          ]
        ]
  ]
