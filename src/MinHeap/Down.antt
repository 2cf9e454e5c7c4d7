-- ===== src/MinHeap/Down.antt =====
-- min_heapify restores the heap order below a slot whose element may be too large.
use mathlib.Core.List.{Perm}
use mathlib.Core.List.Perm
use common_project_template.Base.{
  ℕ, zero, suc, ◌+◌, ◌*◌, ◌≤◌, ◌<◌, ◌≡◌, ◌⊎◌, ◌≢◌, refl, List, ◌==◌, ltb, leb, if◌then◌else◌, ok,
  arith, length, Bool-cases, inl, inr, take, Returns, returns, Returns-map, Returns-if, subst, ◌∙◌,
}
use common_project_template.MinHeap.{Callbacks, smallest_of, heapify_loop, min_heapify}
use common_project_template.MinHeap.Slots.{
  exchanged, length-exchanged, get_or-exchanged, take-exchanged_perm,
}
use common_project_template.MinHeap.Order.{
  IsLawful, parent, Fits, NotLess, IsHeapFrom, int-ok, slot-ok, swp_at-ok, smaller-ok,
}

module _ {A : Type 0} (func : Callbacks A) (junk : A) (law : IsLawful func) (lo n : ℕ)
    (fits : Fits func n) where
  -- Every edge from `lo` on is in order but those from `i` to its children, and those children
  -- are in order with the parent of `i`.
  pub record DownInv (a : List A) (i : ℕ) : Type 0 where
    pub edges :
        (c : ℕ) → 0 < c → c < n → lo ≤ parent c → parent c ≢ i → NotLess func junk a c (parent c)
    pub bridged :
        (c : ℕ)
        → 0 < c
        → c < n
        → parent c ≡ i
        → 0 < i
        → lo ≤ parent i
        → NotLess func junk a c (parent i)

  -- The slot that `min_heapify` picks: `pos` or a child, and none of these is less.
  record IsSmallest (a : List A) (pos s : ℕ) : Type 0 where
    place : (s ≡ pos) ⊎ (parent s ≡ pos)
    least : (c : ℕ) → 0 < c → c < n → parent c ≡ pos → NotLess func junk a c s
    root : NotLess func junk a pos s
    inside : s < n

  child_cases : (c pos : ℕ) → 0 < c → parent c ≡ pos → (c ≡ pos * 2 + 1) ⊎ (c ≡ pos * 2 + 2)
  child_cases c pos p e = omega arith

  smallest_of-IsSmallest :
      (a : List A) (pos : ℕ)
      → n ≤ length a
      → pos * 2 + 1 < n
      → (s : ℕ) × (smallest_of func n a pos (pos * 2 + 1) ≡ ok s) × IsSmallest a pos s
  unfolding smallest_of
  smallest_of-IsSmallest a pos big left =
      let (s, first, which, below_l, below_p) =
        smaller-ok func junk a (pos * 2 + 1) pos (omega arith) (omega arith) law in
      let at_l = slot-ok func n (pos * 2 + 1) fits (omega arith) in
      let at_pos = slot-ok func n pos fits (omega arith) in
      let right_index = int-ok func (pos * 2 + 2) (omega (arith, fits.indices)) in
      elim (Bool-cases (ltb (pos * 2 + 2) n)) [
        | inl right ↦
            let inside_r : pos * 2 + 2 < n = ground arith in
            let at_r = slot-ok func n (pos * 2 + 2) fits (omega arith) in
            let (s', second, which', below_r, below_s) =
              smaller-ok func junk a (pos * 2 + 2) s (ground arith) (ground arith) law in
            (
              s',
              rw (at_l, at_pos, first, right_index, right, at_r, second),
              record {
                place = ground arith;
                least = λ c p q e. elim (child_cases c pos p e) [
                  | inl is_left ↦ rw is_left (law.weak _ _ _ below_l below_s)
                  | inr is_right ↦ rw is_right below_r
                ];
                root = law.weak _ _ _ below_p below_s;
                inside = ground arith;
              },
            )
        | inr no_right ↦ (
          s,
          rw (at_l, at_pos, first, right_index, no_right),
          record {
            place = ground arith;
            least = λ c p q e. elim (child_cases c pos p e) [
              | inl is_left ↦ rw is_left below_l
              | inr is_right ↦ absurd (ground arith)
            ];
            root = below_p;
            inside = ground arith;
          },
        )
      ]

  -- If the picked slot is the one at hand, the order is restored.
  IsHeapFrom-of_smallest :
      (a : List A) (pos : ℕ) → DownInv a pos → IsSmallest a pos pos → IsHeapFrom func junk lo n a
  IsHeapFrom-of_smallest a pos inv here c p q r = elim (Bool-cases (parent c == pos)) [
    | inl e ↦ let e' : parent c ≡ pos = ground arith in rw e' (here.least c p q e')
    | inr e ↦ inv.edges c p q r (ground arith)
  ]

  -- No child: the order holds already.
  IsHeapFrom-of_leaf :
      (a : List A) (pos : ℕ) → DownInv a pos → n ≤ pos * 2 + 1 → IsHeapFrom func junk lo n a
  IsHeapFrom-of_leaf a pos inv leaf c p q r = inv.edges c p q r (omega arith)

  -- After the exchange with the picked child, only the edges below that child may be out of order.
  DownInv-exchanged :
      (a : List A) (pos s : ℕ)
      → n ≤ length a
      → DownInv a pos
      → IsSmallest a pos s
      → s ≢ pos
      → lo ≤ pos
      → DownInv (exchanged junk a s pos) s
  DownInv-exchanged a pos s big inv small ne above =
      let moved = get_or-exchanged junk a s pos (omega arith) (ground arith) in
      record {
        edges = λ c p q r e. ground (
          arith,
          moved c,
          moved (parent c),
          small.least c,
          small.root,
          inv.edges c,
          inv.bridged s,
        );
        bridged = λ c p q e r t. ground (arith, moved c, moved (parent s), inv.edges c);
      }

  -- The loop ends with the order restored and the same elements in use.
  abbrev pub Sifted : List A → List A → Type 0
  Sifted a b = IsHeapFrom func junk lo n b × Perm (take n b) (take n a) × (length b ≡ length a)

  heapify_loop-Sifted :
      (k : ℕ) (a : List A) (pos : ℕ)
      → n ≤ length a
      → lo ≤ pos
      → pos ≤ n
      → n < pos + k
      → DownInv a pos
      → Returns (Sifted a) (heapify_loop func k n a pos)
  unfolding heapify_loop
  heapify_loop-Sifted zero a pos big above small fuel inv = absurd (omega arith)
  heapify_loop-Sifted (suc k) a pos big above small fuel inv =
      rw (int-ok func (pos * 2 + 1) (omega (arith, fits.indices))) (
        Returns-if (leb n (pos * 2 + 1))
          (λ leaf.
            returns (IsHeapFrom-of_leaf a pos inv (ground arith), Perm.refl (take n a), refl))
          λ inner.
            let (s, ran, small) = smallest_of-IsSmallest a pos big (ground arith) in
            rw ran (
              Returns-if (s == pos)
                (λ e.
                  let here : s ≡ pos = ground arith in
                  returns (
                    IsHeapFrom-of_smallest a pos inv (subst (IsSmallest a pos) here small),
                    Perm.refl (take n a),
                    refl,
                  ))
                λ moves.
                  let ne : s ≢ pos = ground arith in
                  let next : (if s == pos * 2 + 1 then pos * 2 + 1 else pos * 2 + 2) ≡ s =
                    ground (arith, small.place, child_cases s pos) in
                  let size = length-exchanged junk a s pos in
                  let hs = small.inside in
                  let hpos : pos < n = ground arith in
                  rw (swp_at-ok func junk a s pos (omega arith) (omega arith) law, next)
                    (Returns-map
                      (heapify_loop-Sifted k (exchanged junk a s pos) s (omega (arith, size))
                        (ground arith) (omega arith) (ground (arith, small.place))
                        (DownInv-exchanged a pos s big inv small ne above))
                      λ b (heap, perm, same). (
                        heap,
                        Perm.trans perm (take-exchanged_perm junk n a s pos hs hpos big),
                        same ∙ size,
                      ))))

  pub min_heapify-Sifted :
      (a : List A) (pos : ℕ)
      → n ≤ length a
      → lo ≤ pos
      → pos ≤ n
      → DownInv a pos
      → Returns (Sifted a) (min_heapify func n a pos)
  unfolding min_heapify
  min_heapify-Sifted a pos big above small inv =
      heapify_loop-Sifted (n + 1) a pos big above small (omega arith) inv
