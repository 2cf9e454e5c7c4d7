-- ===== src/MinHeap.antt =====
-- lib/min_heap/min_heap.c: a binary min-heap in a caller's array, over callbacks that compare and
-- swap elements. A slot is the element at `data + i * elem_size`, with a positive element size;
-- an access outside the array, and an `int` that overflows, fault.
pub mod Slots
pub mod Order
pub mod Down
pub mod Up
pub mod Valid
pub mod PushPop
pub mod Drain
pub mod Replace
mod Tests
use common_project_template.Base.{
  ℕ, zero, suc, ◌+◌, ◌-◌, ◌*◌, ◌/◌, ◌^◌, Bool, true, false, List, ◌==◌, ltb, leb, if◌then◌else◌,
  Run, ok, fault, out_of_fuel, ◌>>=◌, or_fault, length, get_elem?, set,
}

abbrev pub int_max : ℕ
int_max = 2 ^ 31 - 1

-- `struct min_heap_callbacks`: `swp` gives the new contents of its two arguments. `self_copy` is not one of
-- them: it is what memcpy makes of an element that is its source and its destination.
pub record Callbacks (A : Type 0) : Type 0 where
  pub elem_size : ℕ
  pub less : A → A → Bool
  pub swp : A → A → A × A
  pub self_copy : A → Run A

-- `struct min_heap`: the array, how many elements are in use, and how many it can hold.
pub record MinHeap (A : Type 0) : Type 0 where
  pub elements : List A
  pub nr : ℕ
  pub size : ℕ

-- The value of an `int` expression.
pub int : ℕ → Run ℕ
int n = if leb n int_max then ok n else fault

module _ {A : Type 0} (func : Callbacks A) where
  -- The slot at `data + i * func->elem_size`; the product is an `int`.
  pub slot : ℕ → Run ℕ
  unfolding int
  slot i = int (i * func.elem_size) >>= λ _. ok i

  pub load : List A → ℕ → Run A
  load a i = or_fault (get_elem? a i)

  pub store : List A → ℕ → A → Run (List A)
  store a i x = if ltb i (length a) then ok (set a i x) else fault

  -- `func->less(data[i], data[j])`
  pub less_at : List A → ℕ → ℕ → Run Bool
  unfolding load
  less_at a i j = do x ← load a i; y ← load a j; ok (func.less x y)

  -- `func->swp(data[i], data[j])`
  pub swp_at : List A → ℕ → ℕ → Run (List A)
  unfolding load store
  swp_at a i j = do
    x ← load a i
    y ← load a j
    let (x', y') = func.swp x y
    b ← store a i x'
    store b j y'

  -- `if (func->less(i, smallest)) smallest = i;`
  pub smaller : List A → ℕ → ℕ → Run ℕ
  unfolding less_at
  smaller a i smallest = do below ← less_at a i smallest; ok (if below then i else smallest)

  -- The smallest of the slots at `pos` and below it; the left one exists.
  pub smallest_of : ℕ → List A → ℕ → (left : ℕ) → Run ℕ
  unfolding smaller slot int
  smallest_of nr a pos left = do
    left ← slot left
    parent ← slot pos
    smallest ← smaller a left parent
    r ← int (pos * 2 + 2)
    if ltb r nr then (do right ← slot r; smaller a right smallest) else ok smallest

  -- The loop of `min_heapify`.
  pub heapify_loop : (fuel nr : ℕ) → List A → ℕ → Run (List A)
  heapify_loop zero nr a pos = out_of_fuel
  heapify_loop (suc k) nr a pos = do
    l ← int (pos * 2 + 1)
    let sink : Run (List A) = do
      smallest ← smallest_of nr a pos l
      if smallest == pos then ok a else do
        b ← swp_at a smallest pos
        heapify_loop k nr b (if smallest == l then pos * 2 + 1 else pos * 2 + 2)
    if leb nr l then ok a else sink

  -- Each round goes down a level, so `nr + 1` rounds are enough.
  pub min_heapify : (nr : ℕ) → List A → ℕ → Run (List A)
  unfolding heapify_loop smallest_of swp_at
  min_heapify nr a pos = heapify_loop (nr + 1) nr a pos

  -- The loop of `min_heapify_all`, from `i` down to 0.
  pub heapify_from : (nr i : ℕ) → List A → Run (List A)
  heapify_from nr zero a = min_heapify nr a 0
  heapify_from nr (suc i) a = min_heapify nr a (suc i) >>= heapify_from nr i

  pub min_heapify_all : MinHeap A → Run (MinHeap A)
  unfolding heapify_from min_heapify
  min_heapify_all heap = do
    a ← heapify_from heap.nr (heap.nr / 2) heap.elements
    ok (record heap { elements = a })

  -- The flag of `min_heap_pop` and `min_heap_push` says that a warning was printed.
  pub min_heap_pop : MinHeap A → Run (MinHeap A × Bool)
  unfolding min_heapify slot load store
  min_heap_pop heap = if heap.nr == 0 then ok (heap, true) else do
    let nr = heap.nr - 1
    last ← slot nr
    x ← load heap.elements last
    y ← if last == 0 then func.self_copy x else ok x
    a ← store heap.elements 0 y
    b ← min_heapify nr a 0
    ok (record heap { elements = b; nr = nr }, false)

  pub min_heap_pop_push : MinHeap A → A → Run (MinHeap A)
  unfolding min_heapify store
  min_heap_pop_push heap element = do
    a ← store heap.elements 0 element
    b ← min_heapify heap.nr a 0
    ok (record heap { elements = b })

  -- The loop that sifts the child at `pos` up.
  pub sift_up : (fuel : ℕ) → List A → ℕ → Run (List A)
  sift_up zero a pos = out_of_fuel
  sift_up (suc k) a pos =
      let rise : Run (List A) = do
        child ← slot pos
        parent ← slot ((pos - 1) / 2)
        below ← less_at a parent child
        if below then ok a else do b ← swp_at a parent child; sift_up k b ((pos - 1) / 2)
      in if ltb 0 pos then rise else ok a

  pub min_heap_push : MinHeap A → A → Run (MinHeap A × Bool)
  unfolding sift_up slot store less_at swp_at
  min_heap_push heap element = if leb heap.size heap.nr then ok (heap, true) else do
    pos ← slot heap.nr
    a ← store heap.elements pos element
    b ← sift_up (pos + 1) a pos
    ok (record heap { elements = b; nr = heap.nr + 1 }, false)
