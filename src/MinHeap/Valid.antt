-- ===== src/MinHeap/Valid.antt =====
-- Valid heaps, and min_heapify_all, which makes one.
use mathlib.Core.List.{Perm}
use mathlib.Core.List.Perm
use common_project_template.Base.{
  ℕ, zero, suc, ◌/◌, ◌≤◌, ◌<◌, ◌≡◌, refl, List, ◌==◌, arith, length, take, Bool-cases, inl, inr,
  Returns, returns, Returns-map, Returns-bind, ◌∙◌,
}
use common_project_template.MinHeap.{Callbacks, MinHeap, heapify_from, min_heapify_all}
use common_project_template.MinHeap.Order.{
  IsLawful, parent, Fits, NotLess, IsHeapFrom, IsHeap, irrefl,
}
use common_project_template.MinHeap.Down.{DownInv, Sifted, min_heapify-Sifted}

-- The elements in use.
abbrev pub used : {A : Type 0} → MinHeap A → List A
used heap = take heap.nr heap.elements

-- The array has room for `size` elements, of which `nr` are in use, and no index overflows.
pub record IsAllocated {A : Type 0} (func : Callbacks A) (heap : MinHeap A) : Type 0 where
  pub room : length heap.elements ≡ heap.size
  pub bounded : heap.nr ≤ heap.size
  pub fits : Fits func heap.size

pub Fits-le : {A : Type 0} (func : Callbacks A) (n m : ℕ) → n ≤ m → Fits func m → Fits func n
Fits-le func n m h fits = record { indices = omega (arith, fits.indices); offsets = grind arith }

module _ {A : Type 0} (func : Callbacks A) (junk : A) (law : IsLawful func) where
  -- An allocated heap that is in order.
  pub record IsValid (heap : MinHeap A) : Type 0 where
    pub allocated : IsAllocated func heap
    pub order : IsHeap func junk heap.nr heap.elements

  root_least_below :
      (k n : ℕ) (a : List A) (i : ℕ)
      → IsHeap func junk n a
      → i < k
      → i < n
      → NotLess func junk a i 0
  root_least_below zero n a i heap fuel inside = absurd (omega arith)
  root_least_below (suc k) n a i heap fuel inside = elim (Bool-cases (i == 0)) [
    | inl e ↦ let e' : i ≡ 0 = ground arith in rw e' (irrefl func law _)
    | inr e ↦
        law.weak _ _ _ (heap i (ground arith) inside (omega arith))
          (root_least_below k n a (parent i) heap (ground arith) (omega arith))
  ]

  pub root_least :
      (n : ℕ) (a : List A) (i : ℕ) → IsHeap func junk n a → i < n → NotLess func junk a i 0
  root_least n a i heap inside = root_least_below (suc i) n a i heap (omega arith) inside

  module _ (n : ℕ) (fits : Fits func n) where
    DownInv-of_IsHeapFrom :
        (a : List A) (i : ℕ) → IsHeapFrom func junk (suc i) n a → DownInv func junk law i n fits a i
    DownInv-of_IsHeapFrom a i heap = record {
      edges = λ c p q r e. heap c p q (omega arith);
      bridged = λ c p q e r t. absurd (omega arith);
    }

    heapify_from-Sifted :
        (i : ℕ) (a : List A)
        → n ≤ length a
        → i ≤ n
        → IsHeapFrom func junk (suc i) n a
        → Returns (Sifted func junk law 0 n fits a) (heapify_from func n i a)
    unfolding heapify_from
    heapify_from-Sifted zero a big small heap =
        min_heapify-Sifted func junk law 0 n fits a 0 big (omega arith) small
          (DownInv-of_IsHeapFrom a 0 heap)
    heapify_from-Sifted (suc i) a big small heap =
        Returns-bind
          (min_heapify-Sifted func junk law (suc i) n fits a (suc i) big (omega arith) small
            (DownInv-of_IsHeapFrom a (suc i) heap))
          λ b (heap', perm, same).
            Returns-map (heapify_from-Sifted i b (omega arith) (omega arith) heap')
              λ c (heap'', perm', same'). (heap'', Perm.trans perm' perm, same' ∙ same)

  -- What an operation leaves: a valid heap of the same size, with these elements in use.
  pub record Holds (before : MinHeap A) (elements : List A) (after : MinHeap A) : Type 0 where
    pub valid : IsValid after
    pub contents : Perm (used after) elements
    pub size : after.size ≡ before.size

  -- For a less that is a strict weak order, a swp that exchanges, and a memcpy that leaves an
  -- element copied onto itself: min_heapify_all orders an array, of whose size no double and no
  -- offset into it overflows an int, into a valid heap of the same elements.
  pub min_heapify_all-Holds :
      (heap : MinHeap A)
      → IsAllocated func heap
      → Returns (Holds heap (used heap)) (min_heapify_all func heap)
  unfolding min_heapify_all
  min_heapify_all-Holds heap al =
      Returns-bind
        (heapify_from-Sifted heap.nr (Fits-le func heap.nr heap.size al.bounded al.fits)
          (heap.nr / 2) heap.elements (omega (arith, al.room, al.bounded)) (omega arith)
          (λ c p q r. absurd (omega arith)))
        λ a (order, perm, same). returns (record {
          valid = record {
            allocated = record { room = same ∙ al.room; bounded = al.bounded; fits = al.fits };
            order = order;
          };
          contents = perm;
          size = refl;
        })
