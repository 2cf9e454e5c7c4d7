-- ===== src/Workqueue/Workers.antt =====
-- From the start, a wake-up or the end of a work on, a worker thread keeps the counters of a
-- workqueue right.
use common_project_template.Base.{
  ◌+◌, ◌-◌, ◌≤◌, ◌<◌, ◌≡◌, refl, Bool, true, false, not, List, [], ◌∷◌, ◌==◌, ltb, if◌then◌else◌,
  arith, length, subst, ◌&&◌,
}
use common_project_template.Workqueue.{
  Work, Workqueue, Phase, created, finishing, woken, create_worker, look_for_work, wake_up,
  worker_thread, grow, process_one_work, list_empty,
}
use common_project_template.Workqueue.Threads.{Mode}
use common_project_template.Workqueue.Counts.{active, started, idle, any, count-append}
use common_project_template.Workqueue.Sections.{
  Tally, plus, IsCounted, IsHeld, ready_at_least, ready_when_queued, look_for_work-IsCounted,
}

-- Tallies with the same numbers are the same.
pub Tally-ext :
    {t u : Tally}
    → t.all ≡ u.all
    → t.begun ≡ u.begun
    → t.idlers ≡ u.idlers
    → t.actives ≡ u.actives
    → t ≡ u
Tally-ext a b c d = λ i. record { all = a i; begun = b i; idlers = c i; actives = d i }

pub choose :
    {A : Type 0} (P : A → Type 0) {x y : A} (test : Bool)
    → (test ≡ true → P x)
    → (test ≡ false → P y)
    → P (if test then x else y)
choose P true one other = one refl
choose P false one other = other refl

some_in_list : (works : List Work) → list_empty works ≡ false → 0 < length works
some_in_list [] e = absurd (ground arith)
some_in_list (work ∷ works) e = omega arith

module _ (mode : Mode) (wq : Workqueue) (t : Tally) (le : t.idlers ≤ t.all) where
  pub wake_up-IsCounted :
      IsCounted mode wq (plus t (woken ∷ []))
      → IsCounted mode (wake_up wq).0 (plus t (wake_up wq).1)
  unfolding wake_up
  wake_up-IsCounted counted =
      look_for_work-IsCounted mode (record wq { nr_idle_worker = wq.nr_idle_worker - 1 }) t
        (record {
          workers = omega (arith, counted.workers);
          refs = omega (arith, counted.refs);
          idles = omega (arith, counted.idles);
          idlers_le = le;
          bounded = omega (arith, counted.bounded);
          some_idle = counted.some_idle;
          present = λ h. omega (arith, counted.present h);
          early = λ h. let (alive, none, few) = counted.early h in (alive, none, omega arith);
        })

  pub worker_thread-IsCounted :
      IsCounted mode wq (plus t (created ∷ []))
      → IsCounted mode (worker_thread wq).0 (plus t (worker_thread wq).1)
  unfolding worker_thread wake_up
  worker_thread-IsCounted counted =
      look_for_work-IsCounted mode
        (record wq { nr_idle_worker = wq.nr_idle_worker + 1 - 1; nr_worker = wq.nr_worker + 1 }) t
        (record {
          workers = omega (arith, counted.workers);
          refs = omega (arith, counted.refs);
          idles = omega (arith, counted.idles);
          idlers_le = le;
          bounded = omega (arith, counted.bounded);
          some_idle = counted.some_idle;
          present = λ h. omega (arith, counted.present h);
          early = λ h. let (alive, none, few) = counted.early h in (alive, none, omega arith);
        })

  IsHeld-after_work : IsCounted mode wq (plus t (finishing ∷ [])) → IsHeld mode wq t
  IsHeld-after_work counted = record {
    workers = omega (arith, counted.workers);
    refs = omega (arith, counted.refs);
    idles = omega (arith, counted.idles);
    idlers_le = le;
    bounded = omega (arith, counted.bounded);
    some_idle = counted.some_idle;
    present = λ h. omega (arith, counted.present h);
    early = λ h. let (alive, none, few) = counted.early h in (alive, none, omega arith);
  }

  -- A worker is created only below the limit.
  grown-IsHeld :
      IsHeld mode wq t
      → 0 < length wq.work_list
      → wq.ref_count < wq.nr_max_worker
      → IsHeld mode (record wq { ref_count = wq.ref_count + 1 }) (plus t (created ∷ []))
  grown-IsHeld held some_work below =
      let is = ready_when_queued mode wq t held some_work in
      let no_more = (ready_at_least mode is).1 in
      record {
        workers = omega (arith, held.workers);
        refs = omega (arith, held.refs);
        idles = omega (arith, held.idles);
        idlers_le = omega (arith, le);
        bounded = omega (arith, held.refs, no_more);
        some_idle = held.some_idle;
        present = λ h. omega (arith, held.present h);
        early = λ h. absurd (ground arith);
      }

  same-IsHeld : IsHeld mode wq t → IsHeld mode wq (plus t [])
  same-IsHeld held =
      subst (IsHeld mode wq) (Tally-ext (omega arith) (omega arith) (omega arith) (omega arith))
        held

  grow-IsHeld :
      (fails : Bool) → IsHeld mode wq t → IsHeld mode (grow fails wq).0 (plus t (grow fails wq).1)
  unfolding grow create_worker
  grow-IsHeld fails held =
      let wanted =
        wq.alive
        && not (list_empty wq.work_list)
        && (wq.nr_idle_worker == 0)
        && ltb wq.ref_count wq.nr_max_worker in
      choose (λ (r : Workqueue × List Phase). IsHeld mode r.0 (plus t r.1)) wanted
        (λ e.
          choose (λ (r : Workqueue × List Phase). IsHeld mode r.0 (plus t r.1)) fails
            (λ _. same-IsHeld held)
            (λ _. grown-IsHeld held (some_in_list wq.work_list (ground arith)) (ground arith)))
        (λ _. same-IsHeld held)

  pub process_one_work-IsCounted :
      (fails : Bool)
      → IsCounted mode wq (plus t (finishing ∷ []))
      → IsCounted mode (process_one_work fails wq).0 (plus t (process_one_work fails wq).1)
  unfolding process_one_work
  process_one_work-IsCounted fails counted =
      let grown = grow-IsHeld fails (IsHeld-after_work counted) in
      let extra = (grow fails wq).1 in
      let self = (look_for_work (grow fails wq).0).1 in
      subst (IsCounted mode (process_one_work fails wq).0)
        (Tally-ext (omega (arith, count-append any self extra))
          (omega (arith, count-append started self extra))
          (omega (arith, count-append idle self extra))
          (omega (arith, count-append active self extra)))
        (look_for_work-IsCounted mode (grow fails wq).0 (plus t extra) grown)
