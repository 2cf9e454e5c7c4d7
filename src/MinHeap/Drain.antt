-- ===== src/MinHeap/Drain.antt =====
-- Heap sort with the operations: min_heapify_all, and then min_heap_pop until the heap is empty.
use mathlib.Core.List.{Perm}
use mathlib.Core.List.Perm
use mathlib.Core.List.{Permᴰ}
use mathlib.Core.Logic.{∥∥₁_elim}
use native.Mathlib.Nat.{ℕ_set}
use common_project_template.Base.{
  ℕ, zero, suc, ◌+◌, ◌≤◌, ◌<◌, ◌≡◌, refl, ◌∙◌, ap, Bool, false, List, [], ◌∷◌, Run, ok, arith,
  length, get_or, take, one_if, Returns, returns, Returns-map, Returns-bind, ◌>>=◌,
}
use common_project_template.MinHeap.{Callbacks, MinHeap, load, min_heap_pop, min_heapify_all}
use common_project_template.MinHeap.Slots.{length-take_le}
use common_project_template.MinHeap.Order.{IsLawful, load-ok}
use common_project_template.MinHeap.Valid.{used, IsAllocated, min_heapify_all-Holds, IsValid}
use common_project_template.MinHeap.PushPop.{Popped, pop-Popped}

module _ {A : Type 0} where
  -- The sum of a number for each element.
  abbrev pub tally : (A → ℕ) → List A → ℕ
  tally f [] = 0
  tally f (x ∷ xs) = f x + tally f xs

  tally-length : (xs : List A) → tally (λ _. 1) xs ≡ length xs
  tally-length [] = refl
  tally-length (x ∷ xs) = omega (arith, tally-length xs)

  tally-perm : (f : A → ℕ) {xs ys : List A} → Perm xs ys → tally f xs ≡ tally f ys
  tally-perm f {xs} {ys} p = ∥∥₁_elim p (ℕ_set (tally f xs) (tally f ys)) (moved f)
    where
      moved : (f : A → ℕ) {xs ys : List A} → Permᴰ xs ys → tally f xs ≡ tally f ys
      moved f Permᴰ.nil = refl
      moved f (Permᴰ.cons e rest) = omega (arith, ap f e, moved f rest)
      moved f (Permᴰ.swap e e') = omega (arith, ap f e, ap f e')
      moved f (Permᴰ.trans p q) = moved f p ∙ moved f q

module _ {A : Type 0} (func : Callbacks A) where
  -- How many elements of a list are less than `x`.
  abbrev pub below : A → List A → ℕ
  below x = tally (λ y. one_if (func.less y x))

  -- No element is less than one that comes before it.
  abbrev pub IsSorted : List A → Type 0
  IsSorted [] = Unit
  IsSorted (x ∷ xs) = (below x xs ≡ 0) × IsSorted xs

  -- The elements of so many pops, each read before its pop, and what is left.
  pub drain : ℕ → MinHeap A → Run (List A × MinHeap A)
  unfolding load min_heap_pop
  drain zero heap = ok ([], heap)
  drain (suc k) heap = do
    first ← load func heap.elements 0
    (after, warned) ← min_heap_pop func heap
    (rest, last) ← drain k after
    ok (first ∷ rest, last)

  module _ (junk : A) (law : IsLawful func) where
    below-take :
        (x : A) (k : ℕ) (a : List A)
        → k ≤ length a
        → ((i : ℕ) → i < k → func.less (get_or a i junk) x ≡ false)
        → below x (take k a) ≡ 0
    below-take x zero a big least = refl
    below-take x (suc k) [] big least = absurd (omega arith)
    below-take x (suc k) (y ∷ a) big least = ground (
      arith,
      least 0 (omega arith),
      below-take x k a (omega arith) (λ i h. least (suc i) (omega arith)),
    )

    length-used : (heap : MinHeap A) → IsValid func junk law heap → length (used heap) ≡ heap.nr
    length-used heap v =
        length-take_le heap.nr heap.elements (omega (arith, v.allocated.room, v.allocated.bounded))

    pub Popped-nr :
        (heap : MinHeap A) (r : MinHeap A × Bool)
        → IsValid func junk law heap
        → 0 < heap.nr
        → Popped func junk law heap r
        → r.0.nr + 1 ≡ heap.nr
    Popped-nr heap r v some_in popped = omega (
      arith,
      tally-perm (λ _. 1) popped.contents,
      tally-length (used r.0),
      tally-length (used heap),
      length-used r.0 popped.valid,
      length-used heap v,
    )

    -- The pops of a valid heap give its elements in order, until it is empty.
    drain-IsSorted :
        (k : ℕ) (heap : MinHeap A)
        → IsValid func junk law heap
        → heap.nr ≡ k
        → Returns (λ r. Perm r.0 (used heap) × IsSorted r.0 × (r.1.nr ≡ 0)) (drain k heap)
    unfolding drain
    drain-IsSorted zero heap v none = returns (rw none (Perm.nil), tt, none)
    drain-IsSorted (suc k) heap v some_in =
        let a = heap.elements in
        let first = get_or a 0 junk in
        let big : heap.nr ≤ length a = omega (arith, v.allocated.room, v.allocated.bounded) in
        rw (load-ok func junk a 0 (omega arith)) (
          Returns-bind (pop-Popped func junk law heap v (omega arith)) λ r popped.
            let after = r.0 in
            let fewer : after.nr ≡ k = omega (arith, Popped-nr heap r v (omega arith) popped) in
            Returns-bind (drain-IsSorted k after popped.valid fewer) λ rest (perm, sorted, empty).
              returns (
                Perm.trans (Perm.cons first perm) popped.contents,
                (
                  omega (
                    arith,
                    tally-perm (λ y. one_if (func.less y first)) perm,
                    tally-perm (λ y. one_if (func.less y first)) popped.contents,
                    below-take first heap.nr a big popped.least,
                  ),
                  sorted,
                ),
                empty,
              ))

    -- For a less that is a strict weak order, a swp that exchanges, and a memcpy that leaves an
    -- element copied onto itself: min_heapify_all of an array, of whose size no double and no
    -- offset into it overflows an int, and then as many calls of min_heap_pop as it has elements
    -- in use, take out those elements, none of them before one that is less, and leave an empty
    -- heap.
    pub heapify_drain-IsSorted :
        (heap : MinHeap A)
        → IsAllocated func heap
        → Returns
            (λ r. Perm r.0 (used heap) × IsSorted r.0 × (r.1.nr ≡ 0))
            (min_heapify_all func heap >>= λ ordered. drain ordered.nr ordered)
    heapify_drain-IsSorted heap al =
        Returns-bind (min_heapify_all-Holds func junk law heap al) λ ordered holds.
          Returns-map (drain-IsSorted ordered.nr ordered holds.valid refl)
            λ r (perm, sorted, empty). (Perm.trans perm holds.contents, sorted, empty)
