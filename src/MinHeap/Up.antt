-- ===== src/MinHeap/Up.antt =====
-- The loop of min_heap_push restores the heap order above a slot whose element may be too small.
use mathlib.Core.List.{Perm}
use mathlib.Core.List.Perm
use common_project_template.Base.{
  ℕ, zero, suc, ◌≤◌, ◌<◌, ◌≡◌, ◌≢◌, refl, List, ◌==◌, ltb, arith, length, get_or, Bool-cases, inl,
  inr, take, Returns, returns, Returns-map, Returns-if, ◌∙◌, subst,
}
use common_project_template.MinHeap.{Callbacks, sift_up}
use common_project_template.MinHeap.Slots.{
  exchanged, length-exchanged, get_or-exchanged, take-exchanged_perm,
}
use common_project_template.MinHeap.Order.{
  IsLawful, parent, Fits, NotLess, IsHeap, slot-ok, less_at-ok, swp_at-ok,
}

module _ {A : Type 0} (func : Callbacks A) (junk : A) (law : IsLawful func) (n : ℕ)
    (fits : Fits func n) where
  -- Every edge is in order but the one from `i` to its parent, and the children of `i` are in
  -- order with that parent.
  pub record UpInv (a : List A) (i : ℕ) : Type 0 where
    pub edges : (c : ℕ) → 0 < c → c < n → c ≢ i → NotLess func junk a c (parent c)
    pub bridged : (c : ℕ) → 0 < c → c < n → parent c ≡ i → 0 < i → NotLess func junk a c (parent i)

  IsHeap-of_root : (a : List A) → UpInv a 0 → IsHeap func junk n a
  IsHeap-of_root a inv c p q r = inv.edges c p q (omega arith)

  IsHeap-of_above :
      (a : List A) (i : ℕ) → UpInv a i → NotLess func junk a i (parent i) → IsHeap func junk n a
  IsHeap-of_above a i inv fine c p q r = elim (Bool-cases (c == i)) [
    | inl e ↦ let e' : c ≡ i = ground arith in rw e' fine
    | inr e ↦ inv.edges c p q (ground arith)
  ]

  -- Equal elements are exchanged too: the test is that the parent is not less than the child.
  UpInv-exchanged :
      (a : List A) (i : ℕ)
      → n ≤ length a
      → UpInv a i
      → 0 < i
      → i < n
      → NotLess func junk a (parent i) i
      → UpInv (exchanged junk a (parent i) i) (parent i)
  UpInv-exchanged a i big inv pos inside above =
      let moved = get_or-exchanged junk a (parent i) i (omega arith) (omega arith) in
      record {
        edges = λ c p q e. ground (
          arith,
          moved c,
          moved (parent c),
          inv.edges c,
          inv.bridged c,
          law.weak (get_or a c junk) (get_or a (parent i) junk) (get_or a i junk),
        );
        bridged = λ c p q e r. ground (
          arith,
          moved c,
          moved (parent (parent i)),
          inv.edges c,
          inv.edges (parent i),
          law.weak (get_or a c junk) (get_or a (parent i) junk) (get_or a (parent (parent i)) junk),
        );
      }

  abbrev Risen : List A → List A → Type 0
  Risen a b = IsHeap func junk n b × Perm (take n b) (take n a) × (length b ≡ length a)

  pub sift_up-Risen :
      (k : ℕ) (a : List A) (i : ℕ)
      → n ≤ length a
      → i < n
      → i < k
      → UpInv a i
      → Returns (Risen a) (sift_up func k a i)
  unfolding sift_up
  sift_up-Risen zero a i big inside fuel inv = absurd (omega arith)
  sift_up-Risen (suc k) a i big inside fuel inv =
      Returns-if (ltb 0 i)
        (λ below_root.
          let pos : 0 < i = ground arith in
          rw
            (
              slot-ok func n i fits (omega arith),
              slot-ok func n (parent i) fits (omega arith),
              less_at-ok func junk a (parent i) i (omega arith) (omega arith),
            )
            (Returns-if (func.less (get_or a (parent i) junk) (get_or a i junk))
              (λ fine.
                returns (IsHeap-of_above a i inv (law.asym _ _ fine), Perm.refl (take n a), refl))
              λ above.
                let size = length-exchanged junk a (parent i) i in
                rw (swp_at-ok func junk a (parent i) i (omega arith) (omega arith) law) (
                  Returns-map
                    (sift_up-Risen k (exchanged junk a (parent i) i) (parent i)
                      (omega (arith, size)) (omega arith) (omega arith)
                      (UpInv-exchanged a i big inv pos inside above))
                    λ b (heap, perm, same). (
                      heap,
                      Perm.trans perm
                          (take-exchanged_perm junk n a (parent i) i (omega arith) inside big),
                      same ∙ size,
                    ))))
        λ at_root.
          returns
            (IsHeap-of_root a (subst (UpInv a) (ground arith) inv), Perm.refl (take n a), refl)
