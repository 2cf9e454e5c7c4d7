-- ===== src/Workqueue/Entries.antt =====
-- The C list `wq->work_list` behind the list of works: the lines of queue_work, worker_thread and
-- process_one_work that go through lib/list.
use mathlib.Core.List.{map-append}
use common_project_template.Base.{
  ℕ, ◌+◌, ◌^◌, ◌<◌, ◌≡◌, refl, Option, none, some, List, [], ◌∷◌, ◌++◌, map, arith, Returns,
  returns, Returns-map, subst, has-append, not, ltb, Bool, if◌then◌else◌, ap,
}
use common_project_template.Command.{◌>>=◌, ◌>>◌, pure, Returns-then}
use common_project_template.Common.{member}
use common_project_template.ListHead.{
  Ptr, Heap, Cmd, load, list_entry, list_del_init, list_add_tail,
}
use common_project_template.ListHead
use common_project_template.ListHead.Cells.{Mapped, Mapped-of_next, load-ok}
use common_project_template.ListHead.Ring.{◌∈◌, ◌∉◌, IsRing}
use common_project_template.ListHead.Update.{
  Chain-middle, list_del_init-remove, list_add_tail-append,
}
use common_project_template.ListHead.Queries.{list_empty-is_nil}
use common_project_template.Workqueue.Workers.{choose}
use common_project_template.Workqueue.Queue.{queue_work-queued}
use common_project_template.Workqueue.{
  Work, Workqueue, Phase, running, look_for_work, queue_work, queued,
}

-- The test and the body of the loop of `worker_thread`, and the start of `process_one_work`: the first
-- work, taken off the list whose head is at `head`. `offset` is `offsetof(struct work_struct, entry)`.
pub take_first : (offset : ℕ) → (head : Ptr) → Cmd (Option Work)
unfolding load
take_first offset head = do
  empty ← ListHead.list_empty head
  if empty then pure none else do
    c ← load head
    let work = list_entry offset c.next
    list_del_init (member offset work)
    pure (some work)

-- `list_add_tail` in `queue_work`.
pub put_last : (offset : ℕ) → (head : Ptr) → Work → Cmd (Unit {0})
put_last offset head work = list_add_tail (member offset work) head

-- The C list at `head` holds these works, in their order.
pub record IsListed (offset : ℕ) (h : Heap) (head : Ptr) (works : List Work) : Type 0 where
  pub ring : IsRing h head (map (member offset) works)
  pub addressed : (work : Work) → work ∈ works → work < 2 ^ 64

-- The work that a thread has taken.
abbrev pub taken : List Phase → Option Work
taken [] = none
taken (running work ∷ threads) = some work
taken (phase ∷ threads) = none

abbrev first_work : List Work → Option Work
first_work [] = none
first_work (work ∷ works) = some work

abbrev other_works : List Work → List Work
other_works [] = []
other_works (work ∷ works) = works

-- What look_for_work takes, in terms of the list.
looks :
    (wq : Workqueue) (works : List Work)
    → let (after, here) = look_for_work (record wq { work_list = works }) in
      (taken here ≡ first_work works) × (after.work_list ≡ other_works works)
unfolding look_for_work
looks wq (work ∷ works) = (refl, refl)
looks wq [] =
    let idle = λ (r : Workqueue × List Phase). (taken r.1 ≡ none) × (r.0.work_list ≡ []) in
    choose idle (not wq.alive) (λ _. (refl, refl))
      (λ _.
        choose idle (ltb wq.nr_max_idle_worker (wq.nr_idle_worker + 1)) (λ _. (refl, refl))
          (λ _. (refl, refl)))

module _ (offset : ℕ) (head : Ptr) (small : offset < 2 ^ 64) (h : Heap) where
  take_first-first :
      (works : List Work)
      → IsListed offset h head works
      → Returns
          (λ r. (r.0 ≡ first_work works) × IsListed offset r.1 head (other_works works))
          (take_first offset head h)
  unfolding take_first
  take_first-first [] listed = rw (list_empty-is_nil h head [] listed.ring) (returns (refl, listed))
  take_first-first (work ∷ works) listed =
      let entries = map (member offset) works in
      let link = Chain-middle h head [] (member offset work ∷ entries) head listed.ring.chain in
      let (c, at) = Mapped-of_next h head link.0 in
      let e : c.next ≡ member offset work = ground arith in
      let fits : work < 2 ^ 64 = listed.addressed work (ground arith) in
      let same : list_entry offset (member offset work) ≡ work = omega arith in
      rw
        (
          list_empty-is_nil h head (member offset work ∷ entries) listed.ring,
          load-ok h head at,
          e,
          same,
        )
        (Returns-then (list_del_init-remove h (member offset work) head [] entries listed.ring)
          (λ a after (rest, alone, others). returns (
            refl,
            record {
              ring = rest;
              addressed = λ other inside. listed.addressed other (ground arith);
            },
          )))

  -- Where the C list holds the works of a queue, the lines with which a thread takes the first
  -- one end and do what look_for_work says: they take the same work, if there is one, and leave
  -- the C list with the works that it leaves.
  pub take_first-look_for_work :
      (wq : Workqueue)
      → IsListed offset h head wq.work_list
      → Returns
          (λ r.
            (r.0 ≡ taken (look_for_work wq).1)
            × IsListed offset r.1 head (look_for_work wq).0.work_list)
          (take_first offset head h)
  take_first-look_for_work wq listed =
      let (first, others) = looks wq wq.work_list in
      rw (first, others) (take_first-first wq.work_list listed)

  -- Where the C list holds the works of a queue and queue_work puts in a work, whose entry is
  -- mapped and on no place of the list, list_add_tail ends and leaves the C list with the works
  -- of the new queue.
  pub put_last-queue_work :
      (wq after : Workqueue) (work : Work) (on_wq signal : Bool)
      → IsListed offset h head wq.work_list
      → queue_work on_wq wq work ≡ queued after signal
      → Mapped h (member offset work)
      → member offset work ∉ head ∷ map (member offset) wq.work_list
      → work < 2 ^ 64
      → Returns (λ r. IsListed offset r.1 head after.work_list) (put_last offset head work h)
  unfolding put_last
  put_last-queue_work wq after work on_wq signal listed done mapped fresh fits =
      let (free, alive, same, wakes_one) = queue_work-queued on_wq wq after work signal done in
      let grown : wq.work_list ++ (work ∷ []) ≡ after.work_list =
        ap (λ (w : Workqueue). w.work_list) same in
      let images : map (member offset) (wq.work_list ++ (work ∷ []))
          ≡ map (member offset) wq.work_list ++ (member offset work ∷ []) =
        simp map-append in
      Returns-map
        (list_add_tail-append h (member offset work) head mapped (map (member offset) wq.work_list)
          listed.ring fresh)
        (λ r (ring, others). subst (IsListed offset r.1 head) grown (record {
          ring = rw images ring;
          addressed = λ other inside.
              ground
                (arith, listed.addressed other, has-append other wq.work_list (work ∷ []), inside);
        }))
