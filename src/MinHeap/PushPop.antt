-- ===== src/MinHeap/PushPop.antt =====
-- min_heap_push, min_heap_pop and min_heap_pop_push keep a valid heap of the right elements.
use mathlib.Core.List.{Perm}
use mathlib.Core.List.Perm
use common_project_template.Base.{
  ℕ, zero, suc, ◌+◌, ◌-◌, ◌≤◌, ◌<◌, ◌≡◌, refl, Bool, true, false, List, ◌∷◌, ◌==◌, leb, ok, arith,
  length, length-set, get_or, get_or-set, set, take, Returns, returns, Returns-bind, Returns-if,
  ◌∙◌, subst, sym,
}
use common_project_template.MinHeap.{
  Callbacks, MinHeap, min_heap_pop, min_heap_pop_push, min_heap_push,
}
use common_project_template.MinHeap.Slots.{
  take-set, take-set_beyond, length-take_le, get_or-take, set-perm, take-suc_perm,
}
use common_project_template.MinHeap.Order.{
  self_copied, IsLawful, parent, Fits, NotLess, IsHeap, slot-ok, load-ok, store-ok,
}
use common_project_template.MinHeap.Down.{DownInv, min_heapify-Sifted}
use common_project_template.MinHeap.Up.{UpInv, sift_up-Risen}
use common_project_template.MinHeap.Valid.{used, Fits-le, IsValid, Holds, root_least}

module _ {A : Type 0} (func : Callbacks A) (junk : A) (law : IsLawful func) where
  module _ (heap : MinHeap A) (element : A) where
    UpInv-of_append :
        IsValid func junk law heap
        → heap.nr < heap.size
        → (fits : Fits func (suc heap.nr))
        → UpInv func junk law (suc heap.nr) fits (set heap.elements heap.nr element) heap.nr
    UpInv-of_append v room fits =
        let kept = λ (c : ℕ).
          get_or-set heap.elements heap.nr c element junk (omega (arith, v.allocated.room)) in
        record {
          edges = λ c p q e. ground (arith, kept c, kept (parent c), v.order c);
          bridged = λ c p q e r. absurd (omega arith);
        }

    -- For a less that is a strict weak order, a swp that exchanges, and a memcpy that leaves an
    -- element copied onto itself: a push onto a valid heap with room adds the element, prints no
    -- warning, and keeps the heap valid.
    pub push-Holds :
        IsValid func junk law heap
        → heap.nr < heap.size
        → Returns
            (λ (after, warned).
              (warned ≡ false) × Holds func junk law heap (element ∷ used heap) after)
            (min_heap_push func heap element)
    unfolding min_heap_push
    push-Holds v room =
        let al = v.allocated in
        let fits = Fits-le func (suc heap.nr) heap.size room al.fits in
        let inside : heap.nr < length heap.elements = omega (arith, al.room) in
        let size = length-set heap.elements heap.nr element in
        let got : get_or (set heap.elements heap.nr element) heap.nr junk ≡ element =
          ground (arith, get_or-set heap.elements heap.nr heap.nr element junk) in
        let grown : heap.nr + 1 ≡ suc heap.nr = omega arith in
        let added : Perm (take (suc heap.nr) (set heap.elements heap.nr element))
            (element ∷ used heap) =
          rw (got, take-set_beyond heap.nr heap.elements heap.nr element (omega arith)) at
            (take-suc_perm junk heap.nr (set heap.elements heap.nr element)
              (omega (arith, size))) in
        Returns-if (leb heap.size heap.nr) (λ full. absurd (ground arith))
          λ _.
            rw
              (
                slot-ok func (suc heap.nr) heap.nr fits (omega arith),
                store-ok func junk heap.elements heap.nr inside element,
              )
              (Returns-bind
                (sift_up-Risen func junk law (suc heap.nr) fits (heap.nr + 1)
                  (set heap.elements heap.nr element) heap.nr (omega (arith, size)) (omega arith)
                  (omega arith) (UpInv-of_append v room fits))
                λ b (order, perm, same). returns (
                  refl,
                  record {
                    valid = record {
                      allocated = record {
                        room = omega (arith, same, size, al.room);
                        bounded = omega arith;
                        fits = al.fits;
                      };
                      order = rw grown order;
                    };
                    contents = rw grown (Perm.trans perm added);
                    size = refl;
                  },
                ))

  -- A push onto a full heap prints a warning and changes nothing.
  push-full :
      (heap : MinHeap A) (element : A)
      → heap.size ≤ heap.nr
      → min_heap_push func heap element ≡ ok (heap, true)
  unfolding min_heap_push
  push-full heap element full = let e : leb heap.size heap.nr ≡ true = ground arith in rw e

  -- A pop from an empty heap prints a warning and changes nothing.
  pop-empty : (heap : MinHeap A) → heap.nr ≡ 0 → min_heap_pop func heap ≡ ok (heap, true)
  unfolding min_heap_pop
  pop-empty heap empty = let e : (heap.nr == 0) ≡ true = ground arith in rw e

  DownInv-of_root :
      (n : ℕ) (fits : Fits func n) (a : List A) (x : A)
      → n ≤ length a
      → 0 < length a
      → IsHeap func junk n a
      → DownInv func junk law 0 n fits (set a 0 x) 0
  DownInv-of_root n fits a x big some_slot heap =
      let kept = λ (c : ℕ). get_or-set a 0 c x junk some_slot in
      record {
        edges = λ c p q r e. ground (arith, kept c, kept (parent c), heap c);
        bridged = λ c p q e r t. absurd (omega arith);
      }

  -- The last element takes the place of the root.
  pop-perm :
      (m : ℕ) (a : List A)
      → m < length a
      → Perm (get_or a 0 junk ∷ take m (set a 0 (get_or a m junk))) (take (suc m) a)
  pop-perm zero a h = Perm.symm (take-suc_perm junk 0 a h)
  pop-perm (suc m) a h =
      let last = get_or a (suc m) junk in
      let root =
        set-perm junk (take (suc m) a) 0 last
          (rw (length-take_le (suc m) a (omega arith)) (omega arith)) in
      let front : Perm (get_or a 0 junk ∷ take (suc m) (set a 0 last)) (last ∷ take (suc m) a) =
        rw (take-set (suc m) a 0 last (omega arith))
          (rw (get_or-take junk (suc m) a 0 (omega arith)) at root) in
      Perm.trans front (Perm.symm (take-suc_perm junk (suc m) a h))

  -- What a pop leaves.
  pub record Popped (before : MinHeap A) (r : MinHeap A × Bool) : Type 0 where
    pub silent : r.1 ≡ false
    pub valid : IsValid func junk law r.0
    pub contents : Perm (get_or before.elements 0 junk ∷ used r.0) (used before)
    pub least : (i : ℕ) → i < before.nr → NotLess func junk before.elements i 0
    pub size : r.0.size ≡ before.size

  -- For a less that is a strict weak order, a swp that exchanges, and a memcpy that leaves an
  -- element copied onto itself: a pop from a valid heap that is not empty takes out its first
  -- element, which no element in use was less than, prints no warning, and leaves a valid heap of
  -- the others.
  pub pop-Popped :
      (heap : MinHeap A)
      → IsValid func junk law heap
      → 0 < heap.nr
      → Returns (Popped heap) (min_heap_pop func heap)
  unfolding min_heap_pop
  pop-Popped heap v some_in =
      let al = v.allocated in
      let m = heap.nr - 1 in
      let a = heap.elements in
      let nr_is : heap.nr ≡ suc m = omega arith in
      let big : heap.nr ≤ length a = omega (arith, al.room, al.bounded) in
      let fits = Fits-le func m heap.size (omega (arith, al.bounded)) al.fits in
      let last = get_or a m junk in
      Returns-if (heap.nr == 0) (λ e. absurd (ground arith))
        λ _.
          rw
            (
              slot-ok func heap.size m al.fits (omega (arith, al.bounded)),
              load-ok func junk a m (omega arith),
              self_copied func law last (m == 0),
              store-ok func junk a 0 (omega arith) last,
            )
            (Returns-bind
              (min_heapify-Sifted func junk law 0 m fits (set a 0 last) 0
                (omega (arith, length-set a 0 last)) (omega arith) (omega arith)
                (DownInv-of_root m fits a last (omega arith) (omega arith)
                  (λ c p q r. v.order c p (omega arith) r)))
              λ b (order, perm, same). returns (record {
                silent = refl;
                valid = record {
                  allocated = record {
                    room = same ∙ (length-set a 0 last ∙ al.room);
                    bounded = omega (arith, al.bounded);
                    fits = al.fits;
                  };
                  order = order;
                };
                contents =
                    subst (λ k. Perm (get_or a 0 junk ∷ take m b) (take k a)) (sym nr_is)
                      (Perm.trans (Perm.cons (get_or a 0 junk) perm) (pop-perm m a (omega arith)));
                least = λ i p. root_least func junk law heap.nr a i v.order p;
                size = refl;
              }))

  -- For a less that is a strict weak order, a swp that exchanges, and a memcpy that leaves an
  -- element copied onto itself: a pop and push on a valid heap that is not empty puts the element
  -- in the place of the first one, which no element in use was less than, and keeps the heap
  -- valid.
  pub pop_push-Holds :
      (heap : MinHeap A) (element : A)
      → IsValid func junk law heap
      → 0 < heap.nr
      → Returns
          (λ after.
            IsValid func junk law after
            × Perm (get_or heap.elements 0 junk ∷ used after) (element ∷ used heap)
            × (after.size ≡ heap.size))
          (min_heap_pop_push func heap element)
  unfolding min_heap_pop_push
  pop_push-Holds heap element v some_in =
      let al = v.allocated in
      let a = heap.elements in
      let big : heap.nr ≤ length a = omega (arith, al.room, al.bounded) in
      let fits = Fits-le func heap.nr heap.size al.bounded al.fits in
      let changed : Perm (get_or a 0 junk ∷ take heap.nr (set a 0 element)) (element ∷ used heap) =
        rw (take-set heap.nr a 0 element some_in) (
          rw get_or-take at
            (set-perm junk (take heap.nr a) 0 element (rw length-take_le some_in))) in
      rw (store-ok func junk a 0 (omega arith) element) (
        Returns-bind
          (min_heapify-Sifted func junk law 0 heap.nr fits (set a 0 element) 0
            (omega (arith, length-set a 0 element)) (omega arith) (omega arith)
            (DownInv-of_root heap.nr fits a element big (omega arith) v.order))
          λ b (order, perm, same). returns (
            record {
              allocated = record {
                room = same ∙ (length-set a 0 element ∙ al.room);
                bounded = al.bounded;
                fits = al.fits;
              };
              order = order;
            },
            Perm.trans (Perm.cons (get_or a 0 junk) perm) changed,
            refl,
          ))
