-- ===== src/Workqueue/Queue.antt =====
-- The results of queue_work.
use common_project_template.Base.{
  ◌≡◌, refl, Bool, true, false, [], ◌++◌, ◌∷◌, ltb, arith, ap, ◌∙◌, inl, inr, Bool-cases, sym,
}
use common_project_template.Workqueue.{
  Work, Workqueue, Verdict, already_on, dead, queued, queue_work,
}

queue_of : Workqueue → Verdict → Workqueue
queue_of wq already_on = wq
queue_of wq dead = wq
queue_of wq (queued after signal) = after

signal_of : Verdict → Bool
signal_of already_on = false
signal_of dead = false
signal_of (queued after signal) = signal

is_queued : Verdict → Bool
is_queued already_on = false
is_queued dead = false
is_queued (queued after signal) = true

-- queue_work returns 0 just for a work that is on no queue, on a live queue.
pub queue_work-queued :
    (on_wq : Bool) (wq after : Workqueue) (work : Work) (signal : Bool)
    → queue_work on_wq wq work ≡ queued after signal
    → (on_wq ≡ false)
      × (wq.alive ≡ true)
      × (record wq { work_list = wq.work_list ++ (work ∷ []) } ≡ after)
      × (ltb 0 wq.nr_idle_worker ≡ signal)
unfolding queue_work is_queued queue_of signal_of
queue_work-queued true wq after work signal e = absurd (ground (arith, ap is_queued e))
queue_work-queued false wq after work signal e = elim (Bool-cases wq.alive) [
  | inr stopped ↦
      let e' : Verdict.dead ≡ queued after signal = rw stopped at e in
      absurd (ground (arith, ap is_queued e'))
  | inl alive ↦
      let accepted : queue_work false wq work
          ≡ queued (record wq { work_list = wq.work_list ++ (work ∷ []) })
              (ltb 0 wq.nr_idle_worker) =
        rw alive refl in
      let same = sym accepted ∙ e in (refl, alive, ap (queue_of wq) same, ap signal_of same)
]
