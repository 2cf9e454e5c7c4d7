-- ===== src/Workqueue/Preserve.antt =====
-- Each step of the threads of a workqueue keeps its counters right, and its works attended.
use common_project_template.Base.{
  ℕ, suc, ◌+◌, ◌≤◌, ◌<◌, ◌≡◌, refl, true, false, List, [], ◌++◌, ◌∷◌, ltb, arith, ap, ◌∙◌, subst,
  sym,
}
use common_project_template.Workqueue.{
  Work, Workqueue, Phase, waiting, woken, created, finishing, running, create_worker, wake_up,
  worker_thread, process_one_work, stop_workqueue,
}
use common_project_template.Workqueue.Threads.{
  Mode, starting, ready, failed, System, among, section, Signalled, wakes, unheard, Step, creates,
  fails, succeeds, begins, resumes, runs, comes_back, wakes_up, queues, queues_and_signals, stops,
  unlocks,
}
use common_project_template.Workqueue.Counts.{
  active, started, idle, any, count, count-among, count-length, idle_le, active_or_idle,
  awake-active, count-append,
}
use common_project_template.Workqueue.Sections.{Tally, plus, IsCounted}
use common_project_template.Workqueue.Workers.{
  Tally-ext, wake_up-IsCounted, worker_thread-IsCounted, process_one_work-IsCounted,
}
use common_project_template.Workqueue.Queue.{queue_work-queued}

abbrev pub tally : List Phase → Tally
tally threads = record {
  all = count any threads;
  begun = count started threads;
  idlers = count idle threads;
  actives = count active threads;
}

abbrev pub IsSound : System → Type 0
IsSound s = IsCounted s.mode s.wq (tally s.threads)

-- The threads around one.
abbrev beside : (before after : List Phase) → Tally
beside before after = record {
  all = count any before + count any after;
  begun = count started before + count started after;
  idlers = count idle before + count idle after;
  actives = count active before + count active after;
}

tally-among :
    (before after here : List Phase)
    → tally (among before after here) ≡ plus (beside before after) here
tally-among before after here =
    Tally-ext (count-among any before after here) (count-among started before after here)
      (count-among idle before after here) (count-among active before after here)

section-IsSound :
    (s : System) (before after here : List Phase) (r : Workqueue × List Phase)
    → s.threads ≡ among before after here
    → (IsCounted s.mode s.wq (plus (beside before after) here)
        → IsCounted s.mode r.0 (plus (beside before after) r.1))
    → IsSound s
    → IsSound (section s before after r)
section-IsSound s before after here r e keeps sound =
    subst (IsCounted s.mode r.0) (sym (tally-among before after r.1))
      (keeps (subst (IsCounted s.mode s.wq) (ap tally e ∙ tally-among before after here) sound))

module _ (mode : Mode) (wq : Workqueue) (t : Tally) where
  -- The thread moves between places that the counters do not tell apart, and is active after it.
  moved-IsCounted :
      (one two : Phase)
      → started one ≡ started two
      → idle one ≡ idle two
      → active two ≡ 1
      → IsCounted mode wq (plus t (one ∷ []))
      → IsCounted mode wq (plus t (two ∷ []))
  moved-IsCounted one two a b c counted = record {
    workers = omega (arith, counted.workers);
    refs = counted.refs;
    idles = omega (arith, counted.idles);
    bounded = counted.bounded;
    some_idle = counted.some_idle;
    attended = λ h. omega arith;
    present = counted.present;
    early = counted.early;
  }

beside_le :
    (before after : List Phase)
    → count idle before + count idle after ≤ count any before + count any after
beside_le before after = omega (arith, idle_le before, idle_le after)

-- A work is put on the list: some thread will look for it.
queued-IsSound :
    (wq : Workqueue) (work : Work) (t u : Tally)
    → wq.alive ≡ true
    → t.all ≡ u.all
    → t.begun ≡ u.begun
    → t.idlers ≡ u.idlers
    → (0 < t.all → 0 < u.actives)
    → IsCounted ready wq t
    → IsCounted ready (record wq { work_list = wq.work_list ++ (work ∷ []) }) u
queued-IsSound wq work t u alive a b c some_active counted = record {
  workers = omega (arith, counted.workers);
  refs = omega (arith, counted.refs);
  idles = omega (arith, counted.idles);
  bounded = omega (arith, counted.bounded);
  some_idle = counted.some_idle;
  attended = λ h. some_active (omega (arith, counted.present alive));
  present = λ h. omega (arith, counted.present h);
  early = λ h. absurd (ground arith);
}

module _ (wq : Workqueue) (t : Tally) where
  creates-IsCounted :
      (k : ℕ)
      → IsCounted (starting (suc k)) wq t
      → IsCounted (starting k) (record wq { ref_count = wq.ref_count + 1 }) (plus t (created ∷ []))
  creates-IsCounted k counted = record {
    workers = omega (arith, counted.workers);
    refs = omega (arith, counted.refs);
    idles = omega (arith, counted.idles);
    bounded = omega (arith, counted.bounded);
    some_idle = counted.some_idle;
    attended = λ h. omega arith;
    present = λ h. omega arith;
    early = λ h. let (alive, none, few) = counted.early h in (alive, none, omega arith);
  }

  fails-IsCounted : (k : ℕ) → IsCounted (starting (suc k)) wq t → IsCounted (failed t.all) wq t
  fails-IsCounted k counted = record {
    workers = counted.workers;
    refs = counted.refs;
    idles = counted.idles;
    bounded = omega (arith, counted.bounded);
    some_idle = counted.some_idle;
    attended = counted.attended;
    present = λ h. omega arith;
    early = λ h. let (alive, none, few) = counted.early h in (alive, none, omega arith);
  }

  succeeds-IsCounted : IsCounted (starting 0) wq t → IsCounted ready wq t
  succeeds-IsCounted counted = record {
    workers = counted.workers;
    refs = counted.refs;
    idles = counted.idles;
    bounded = counted.bounded;
    some_idle = counted.some_idle;
    attended = counted.attended;
    present = counted.present;
    early = λ h. absurd (ground arith);
  }

  stops-IsCounted : IsCounted ready wq t → IsCounted ready (record wq { alive = false }) t
  stops-IsCounted counted = record {
    workers = counted.workers;
    refs = counted.refs;
    idles = counted.idles;
    bounded = counted.bounded;
    some_idle = counted.some_idle;
    attended = counted.attended;
    present = λ h. absurd (ground arith);
    early = λ h. absurd (ground arith);
  }

pub in_mode :
    {mode new : Mode} {wq : Workqueue} {t : Tally}
    → mode ≡ new
    → IsCounted mode wq t
    → IsCounted new wq t
in_mode {wq = wq} {t = t} e counted = subst (λ mode. IsCounted mode wq t) e counted

no_signal : (wq : Workqueue) → ltb 0 wq.nr_idle_worker ≡ false → wq.nr_idle_worker ≡ 0
no_signal wq e = ground arith

-- A signal leaves a thread that will look for work, if there is any thread.
Signalled-tally :
    {threads after : List Phase}
    → Signalled threads after
    → (count any threads ≡ count any after)
      × (count started threads ≡ count started after)
      × (count idle threads ≡ count idle after)
      × (0 < count any threads → 0 < count active after)
Signalled-tally (wakes b a) = (
  omega (arith, count-among any b a (waiting ∷ []), count-among any b a (woken ∷ [])),
  omega (arith, count-among started b a (waiting ∷ []), count-among started b a (woken ∷ [])),
  omega (arith, count-among idle b a (waiting ∷ []), count-among idle b a (woken ∷ [])),
  λ h. omega (arith, count-among active b a (woken ∷ [])),
)
Signalled-tally (unheard threads awake) =
    (refl, refl, refl, λ h. omega (arith, awake-active threads awake))

pub Step-IsSound : {s t : System} → Step s t → IsSound s → IsSound t
unfolding create_worker stop_workqueue
Step-IsSound (creates s k e) sound =
    let t = tally s.threads in
    subst (IsCounted (starting k) (create_worker false s.wq).0)
      (Tally-ext (omega (arith, count-append any s.threads (created ∷ [])))
        (omega (arith, count-append started s.threads (created ∷ [])))
        (omega (arith, count-append idle s.threads (created ∷ [])))
        (omega (arith, count-append active s.threads (created ∷ []))))
      (creates-IsCounted s.wq t k (in_mode e sound))
Step-IsSound (fails s k e) sound =
    rw count-length (fails-IsCounted s.wq (tally s.threads) k (in_mode e sound))
Step-IsSound (succeeds s e) sound = succeeds-IsCounted s.wq (tally s.threads) (in_mode e sound)
Step-IsSound (begins s b a e free) sound =
    section-IsSound s b a (created ∷ []) (worker_thread s.wq) e
      (worker_thread-IsCounted s.mode s.wq (beside b a) (beside_le b a)) sound
Step-IsSound (resumes s b a e free) sound =
    section-IsSound s b a (woken ∷ []) (wake_up s.wq) e
      (wake_up-IsCounted s.mode s.wq (beside b a) (beside_le b a)) sound
Step-IsSound (runs s b a work e) sound =
    section-IsSound s b a (running work ∷ []) (s.wq, finishing ∷ []) e
      (moved-IsCounted s.mode s.wq (beside b a) (running work) finishing refl refl refl) sound
Step-IsSound (comes_back s b a f e free) sound =
    section-IsSound s b a (finishing ∷ []) (process_one_work f s.wq) e
      (process_one_work-IsCounted s.mode s.wq (beside b a) (beside_le b a) f) sound
Step-IsSound (wakes_up s b a e) sound =
    section-IsSound s b a (waiting ∷ []) (s.wq, woken ∷ []) e
      (moved-IsCounted s.mode s.wq (beside b a) waiting woken refl refl refl) sound
Step-IsSound (queues s wq work m free e) sound =
    let (fresh, alive, same, signal) = queue_work-queued (s.on_wq work) s.wq wq work false e in
    let t = tally s.threads in
    let woke : 0 < t.all → 0 < t.actives = λ h.
      omega (arith, active_or_idle s.threads, (in_mode m sound).idles, no_signal s.wq signal) in
    subst (λ q. IsCounted s.mode q t) same
      (subst (λ k. IsCounted k (record s.wq { work_list = s.wq.work_list ++ (work ∷ []) }) t)
        (sym m) (queued-IsSound s.wq work t t alive refl refl refl woke (in_mode m sound)))
Step-IsSound (queues_and_signals s wq work threads m free e sig) sound =
    let (fresh, alive, same, signal) = queue_work-queued (s.on_wq work) s.wq wq work true e in
    let t = tally s.threads in
    let u = tally threads in
    let kept = Signalled-tally sig in
    subst (λ q. IsCounted s.mode q u) same
      (subst (λ k. IsCounted k (record s.wq { work_list = s.wq.work_list ++ (work ∷ []) }) u)
        (sym m) (queued-IsSound s.wq work t u alive kept.0 kept.1 kept.2 kept.3 (in_mode m sound)))
Step-IsSound (unlocks s e) sound = sound
Step-IsSound (stops s m free) sound =
    subst (λ k. IsCounted k (record s.wq { alive = false }) (tally s.threads)) (sym m)
      (stops-IsCounted s.wq (tally s.threads) (in_mode m sound))
