-- ===== src/Rbtree/Access.antt =====
-- What the accesses to a node's fields do where it is mapped: the packed pointer and colour.
use common_project_template.Base.{
  ℕ, zero, suc, ◌+◌, ◌-◌, ◌*◌, ◌/◌, ◌%◌, ◌^◌, ◌<◌, ◌≡◌, refl, true, not, ◌==◌, arith, ok, bit_and,
  bit_or, max, ◌∙◌, sym,
}
use common_project_template.Bits
use common_project_template.Bits.{bit_lt, zero-bit, bit-bit_and, bit-bit_or}
use common_project_template.Bits.Shift.{bit-ext, bit-shl, bit-shr, bit-beyond}
use common_project_template.Bits.Mask.{bit-ones, bit_and-low_mask}
use common_project_template.Rbtree.{
  Ptr, Side, State, update, with_child, field, parent_of, color_of, get_pc, put_pc, child,
  set_child, rb_parent, rb_color, rb_is_black, rb_is_red, rb_red_parent, rb_set_parent_color,
}

-- `~3` leaves a multiple of 4.
bit_and-clear : (x : ℕ) → x < 2 ^ 64 → bit_and x (2 ^ 64 - 1 - 3) ≡ x / 4 * 4
bit_and-clear x h = bit-ext _ _ λ k. rw bit-bit_and (
    ground (
      arith,
      bit-shl (2 ^ 62 - 1) 2 k,
      bit-ones 62 (k - 2),
      bit-shl (x / 2 ^ 2) 2 k,
      bit-shr x 2 (k - 2),
      bit_lt x k,
      bit-beyond 64 x k h,
    ))

-- A pointer to a node is a multiple of 8, so a colour fits beside it.
pub record IsLink (p : Ptr) : Type 0 where
  pub aligned : p % 8 ≡ 0
  pub small : p < 2 ^ 64

module _ (p : Ptr) (c : ℕ) (link : IsLink p) (bit : c < 2) where
  pub parent_of-add : parent_of (p + c) ≡ p
  unfolding parent_of
  parent_of-add =
      bit_and-clear (p + c) (omega (arith, link.aligned, link.small)) ∙ omega (arith, link.aligned)

  pub color_of-add : color_of (p + c) ≡ c
  unfolding color_of
  color_of-add = bit_and-low_mask (p + c) 1 ∙ omega (arith, link.aligned)

  low_zero : (k : ℕ) → k < 3 → Bits.bit p k ≡ 0
  low_zero zero h = omega (arith, link.aligned)
  low_zero (suc zero) h = omega (arith, link.aligned)
  low_zero (suc (suc zero)) h = omega (arith, link.aligned)
  low_zero (suc (suc (suc k))) h = absurd (omega arith)

  bit-add : (k : ℕ) → Bits.bit (p + c) k ≡ max (Bits.bit p k) (Bits.bit c k)
  bit-add zero = ground (arith, low_zero 0)
  bit-add (suc k) =
      let half : (p + c) / 2 ≡ p / 2 = omega (arith, link.aligned) in
      let none : c / 2 ≡ 0 = omega arith in rw (half, none, zero-bit) (ground arith)

  pub bit_or-color : bit_or p c ≡ p + c
  bit_or-color = bit-ext _ _ λ k. bit-bit_or p c k ∙ sym (bit-add k)

  pub bit_or-parent : bit_or c p ≡ p + c
  bit_or-parent = bit-ext _ _ λ k. bit-bit_or c p k ∙ (ground arith ∙ sym (bit-add k))

-- The accesses to a mapped node.
module _ (st : State) (p : Ptr) (mapped : st.mapped p ≡ true) where
  pub get_pc-ok : get_pc p st ≡ ok (st.parent_color p, st)
  unfolding get_pc
  get_pc-ok = rw mapped refl

  pub put_pc-ok :
      (pc : ℕ) → put_pc p pc st ≡ ok (tt, record st { parent_color = update st.parent_color p pc })
  unfolding put_pc
  put_pc-ok pc = simp mapped refl

  pub child-ok : (s : Side) → child s p st ≡ ok (field s st p, st)
  unfolding child
  child-ok s = rw mapped refl

  pub set_child-ok : (s : Side) (q : Ptr) → set_child s p q st ≡ ok (tt, with_child s p q st)
  unfolding set_child
  set_child-ok s q = simp mapped refl

  pub rb_parent-ok : rb_parent p st ≡ ok (parent_of (st.parent_color p), st)
  unfolding rb_parent
  rb_parent-ok = rw get_pc-ok refl

  pub rb_red_parent-ok : rb_red_parent p st ≡ ok (st.parent_color p, st)
  unfolding rb_red_parent
  rb_red_parent-ok = get_pc-ok

  pub rb_is_black-ok : rb_is_black p st ≡ ok (not (color_of (st.parent_color p) == 0), st)
  unfolding rb_is_black rb_color
  rb_is_black-ok = rw get_pc-ok refl

  pub rb_is_red-ok : rb_is_red p st ≡ ok (color_of (st.parent_color p) == 0, st)
  unfolding rb_is_red rb_color
  rb_is_red-ok = rw get_pc-ok refl

  pub rb_set_parent_color-ok :
      (up : Ptr) (c : ℕ)
      → rb_set_parent_color p up c st
        ≡ ok (tt, record st { parent_color = update st.parent_color p (bit_or up c) })
  unfolding rb_set_parent_color
  rb_set_parent_color-ok up c = put_pc-ok (bit_or up c)
