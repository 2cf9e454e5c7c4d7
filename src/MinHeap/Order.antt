-- ===== src/MinHeap/Order.antt =====
-- What the callbacks must satisfy, the heap order, and the operations on slots in these terms.
use common_project_template.Base.{
  Bool, if◌then◌else◌, ℕ, ◌-◌, ◌*◌, ◌/◌, ◌≤◌, ◌<◌, ◌≡◌, ◌⊎◌, refl, true, false, List, ltb, ok,
  arith, length, get_elem?-get_or, get_or, set, length-set, Bool-cases, inl, inr,
}
use common_project_template.MinHeap.{
  Callbacks, int_max, int, slot, load, store, less_at, swp_at, smaller,
}
use common_project_template.MinHeap.Slots.{exchanged}

-- `less` is a strict weak order, which is more than the partial order that min_heap.h asks for, `swp`
-- exchanges its arguments, and memcpy leaves an element that is copied onto itself.
pub record IsLawful {A : Type 0} (func : Callbacks A) : Type 0 where
  pub asym : (x y : A) → func.less x y ≡ true → func.less y x ≡ false
  pub weak : (x y z : A) → func.less x y ≡ false → func.less y z ≡ false → func.less x z ≡ false
  pub swaps : (x y : A) → func.swp x y ≡ (y, x)
  pub keeps : (x : A) → func.self_copy x ≡ ok x

abbrev pub parent : ℕ → ℕ
parent c = (c - 1) / 2

-- No product of a slot below `n` and no index that the loops compute overflows an `int`.
pub record Fits {A : Type 0} (func : Callbacks A) (n : ℕ) : Type 0 where
  pub indices : 2 * n ≤ int_max
  pub offsets : n * func.elem_size ≤ int_max

-- `junk` stands for what is read outside of the array; the operations never read there.
module _ {A : Type 0} (func : Callbacks A) (junk : A) where
  abbrev pub at : List A → ℕ → A
  at a i = get_or a i junk

  -- The element in slot `i` is not less than the one in slot `j`.
  abbrev pub NotLess : List A → ℕ → ℕ → Type 0
  NotLess a i j = func.less (at a i) (at a j) ≡ false

  -- Among the first `n` slots, no element is less than its parent, from parent `lo` on.
  abbrev pub IsHeapFrom : (lo n : ℕ) → List A → Type 0
  IsHeapFrom lo n a = (c : ℕ) → 0 < c → c < n → lo ≤ parent c → NotLess a c (parent c)

  abbrev pub IsHeap : (n : ℕ) → List A → Type 0
  IsHeap n a = IsHeapFrom 0 n a

module _ {A : Type 0} (func : Callbacks A) (law : IsLawful func) where
  pub self_copied : (x : A) (test : Bool) → (if test then func.self_copy x else ok x) ≡ ok x
  self_copied x true = law.keeps x
  self_copied x false = refl

  pub irrefl : (x : A) → func.less x x ≡ false
  irrefl x = elim (Bool-cases (func.less x x)) [ inl below ↦ law.asym x x below | inr e ↦ e ]

module _ {A : Type 0} (func : Callbacks A) where
  pub int-ok : (n : ℕ) → n ≤ int_max → int n ≡ ok n
  unfolding int
  int-ok n h = ground arith

  pub slot-ok : (n i : ℕ) → Fits func n → i ≤ n → slot func i ≡ ok i
  unfolding slot
  slot-ok n i fits h =
      let small : i * func.elem_size ≤ int_max = grind arith in
      rw (int-ok (i * func.elem_size) small)

  module _ (junk : A) (a : List A) (i : ℕ) (hi : i < length a) where
    pub load-ok : load func a i ≡ ok (get_or a i junk)
    unfolding load
    load-ok = rw (get_elem?-get_or a i junk hi)

    pub store-ok : (x : A) → store func a i x ≡ ok (set a i x)
    unfolding store
    store-ok x = let inside : ltb i (length a) ≡ true = ground arith in rw inside

  module _ (junk : A) (a : List A) (i j : ℕ) (hi : i < length a) (hj : j < length a) where
    pub less_at-ok : less_at func a i j ≡ ok (func.less (get_or a i junk) (get_or a j junk))
    unfolding less_at
    less_at-ok = rw (load-ok junk a i hi, load-ok junk a j hj)

    pub swp_at-ok : IsLawful func → swp_at func a i j ≡ ok (exchanged junk a i j)
    unfolding swp_at
    swp_at-ok law = rw (
      load-ok junk a i hi,
      load-ok junk a j hj,
      law.swaps (get_or a i junk) (get_or a j junk),
      store-ok junk a i hi (get_or a j junk),
      store-ok junk (set a i (get_or a j junk)) j (rw length-set hj) (get_or a i junk),
    )

    -- `smaller` picks one of its slots, and none of the two is less than the one it picks.
    pub smaller-ok :
        IsLawful func
        → (s : ℕ) × (smaller func a i j ≡ ok s)
          × ((s ≡ i) ⊎ (s ≡ j))
          × NotLess func junk a i s
          × NotLess func junk a j s
    unfolding smaller
    smaller-ok law = elim (Bool-cases (func.less (get_or a i junk) (get_or a j junk))) [
      | inl below ↦ (i, rw (less_at-ok, below), inl refl, irrefl func law _, law.asym _ _ below)
      | inr not_below ↦ (j, rw (less_at-ok, not_below), inr refl, not_below, irrefl func law _)
    ]
