-- ===== src/MinHeap/Tests.antt =====
-- Runs of the heap functions on numbers, and the theorems there.
use mathlib.Core.List.{Perm}
use common_project_template.Base.{
  ◌%◌, ◌==◌, ◌&&◌, not, ◌>>=◌, ℕ, ◌≡◌, refl, false, List, [], ◌∷◌, ltb, ok, arith, Returns,
}
use common_project_template.MinHeap.{
  Callbacks, MinHeap, min_heapify_all, min_heap_pop, min_heap_pop_push, min_heap_push,
}
use common_project_template.MinHeap.Order.{IsLawful}
use common_project_template.MinHeap.Valid.{used, IsAllocated, IsValid, Holds, min_heapify_all-Holds}
use common_project_template.MinHeap.Drain.{drain, IsSorted, heapify_drain-IsSorted}
use common_project_template.MinHeap.Replace.{pop_push-pop-push}
use common_project_template.MinHeap.PushPop.{push-Holds, Popped, pop-Popped, pop_push-Holds}

-- Four-byte numbers, as in lib/min_heap/test_min_heap.c.
abbrev numbers : Callbacks ℕ
numbers = record { elem_size = 4; less = ltb; swp = λ x y. (y, x); self_copy = ok }

numbers-IsLawful : IsLawful numbers
numbers-IsLawful = record {
  asym = λ x y h. ground arith;
  weak = λ x y z h k. ground arith;
  swaps = λ x y. refl;
  keeps = λ x. refl;
}

abbrev heap_of : List ℕ → ℕ → MinHeap ℕ
heap_of elements nr = record { elements = elements; nr = nr; size = 4 }

-- Three elements in use, and room for one more.
abbrev sample : MinHeap ℕ
sample = heap_of (1 ∷ 4 ∷ 2 ∷ 0 ∷ []) 3

abbrev mixed : MinHeap ℕ
mixed = heap_of (4 ∷ 3 ∷ 2 ∷ 1 ∷ []) 4

pushed : min_heap_push numbers sample 1 ≡ ok (heap_of (1 ∷ 1 ∷ 2 ∷ 4 ∷ []) 4, false)
unfolding min_heap_push
pushed = refl

popped : min_heap_pop numbers sample ≡ ok (heap_of (2 ∷ 4 ∷ 2 ∷ 0 ∷ []) 2, false)
unfolding min_heap_pop
popped = refl

ordered : min_heapify_all numbers mixed ≡ ok (heap_of (1 ∷ 3 ∷ 2 ∷ 4 ∷ []) 4)
unfolding min_heapify_all
ordered = refl

-- Under proper divisibility, a partial order, a push loses the heap order: 2 comes to stand below 4.
abbrev divides : Callbacks ℕ
divides = record numbers { less = λ x y. (y % x == 0) && not (x == y) }

divides_pushed :
    min_heap_push divides (heap_of (3 ∷ 2 ∷ 1 ∷ 1 ∷ []) 2) 4
    ≡ ok (heap_of (4 ∷ 2 ∷ 3 ∷ 1 ∷ []) 3, false)
unfolding min_heap_push
divides_pushed = refl

sample-IsAllocated : IsAllocated numbers sample
sample-IsAllocated = record {
  room = refl;
  bounded = omega arith;
  fits = record { indices = omega arith; offsets = omega arith };
}

sample-IsValid : IsValid numbers 0 numbers-IsLawful sample
sample-IsValid = record { allocated = sample-IsAllocated; order = λ c p q r. grind arith }

min_heapify_all-Holds_example :
    Returns (Holds numbers 0 numbers-IsLawful mixed (used mixed)) (min_heapify_all numbers mixed)
min_heapify_all-Holds_example = min_heapify_all-Holds numbers 0 numbers-IsLawful mixed (record {
  room = refl;
  bounded = omega arith;
  fits = record { indices = omega arith; offsets = omega arith };
})

push-Holds_example :
    Returns
      (λ (after, warned).
        (warned ≡ false) × Holds numbers 0 numbers-IsLawful sample (1 ∷ used sample) after)
      (min_heap_push numbers sample 1)
push-Holds_example = push-Holds numbers 0 numbers-IsLawful sample 1 sample-IsValid (omega arith)

pop-Popped_example :
    Returns (Popped numbers 0 numbers-IsLawful sample) (min_heap_pop numbers sample)
pop-Popped_example = pop-Popped numbers 0 numbers-IsLawful sample sample-IsValid (omega arith)

pop_push-Holds_example :
    Returns
      (λ after.
        IsValid numbers 0 numbers-IsLawful after
        × Perm (1 ∷ used after) (5 ∷ used sample)
        × (after.size ≡ 4))
      (min_heap_pop_push numbers sample 5)
pop_push-Holds_example =
    pop_push-Holds numbers 0 numbers-IsLawful sample 5 sample-IsValid (omega arith)

heapify_drain-IsSorted_example :
    Returns
      (λ r. Perm r.0 (used mixed) × IsSorted numbers r.0 × (r.1.nr ≡ 0))
      (min_heapify_all numbers mixed >>= λ ordered. drain numbers ordered.nr ordered)
heapify_drain-IsSorted_example = heapify_drain-IsSorted numbers 0 numbers-IsLawful mixed (record {
  room = refl;
  bounded = omega arith;
  fits = record { indices = omega arith; offsets = omega arith };
})

pop_push-pop-push_example :
    Returns
      (λ at_once.
        IsValid numbers 0 numbers-IsLawful at_once
        × Returns
            (λ after.
              IsValid numbers 0 numbers-IsLawful after.0 × Perm (used at_once) (used after.0))
            (min_heap_pop numbers sample >>= λ popped. min_heap_push numbers popped.0 5))
      (min_heap_pop_push numbers sample 5)
pop_push-pop-push_example =
    pop_push-pop-push numbers 0 numbers-IsLawful sample 5 sample-IsValid (omega arith)
