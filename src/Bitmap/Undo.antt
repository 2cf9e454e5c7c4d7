-- ===== src/Bitmap/Undo.antt =====
-- Setting a bit and clearing it again, and the other way.
use common_project_template.Base.{
  ℕ, suc, ◌+◌, ◌*◌, ◌/◌, ◌%◌, ◌<◌, ◌≡◌, refl, List, [], ◌∷◌, ◌==◌, ltb, if◌then◌else◌, ok, arith,
  ◌∙◌, length, get_or, Returns, returns, Returns-bind, Returns-if, Returns-map, ◌>>=◌, Bool-cases,
  inl, inr, sym,
}
use common_project_template.Bits.{bit_lt}
use common_project_template.Bits.Shift.{bit-ext, bit-beyond}
use common_project_template.Bitmap.{set_bit, clear_bit, test_and_set_bit, test_and_clear_bit}
use common_project_template.Bitmap.Words.{
  bit_at, AreWords, Changed, set_bit-Changed, clear_bit-Changed, test_and_set_bit-Changed,
  test_and_clear_bit-Changed,
}

get_or-ext :
    (xs ys : List ℕ) → length xs ≡ length ys → ((w : ℕ) → get_or xs w 0 ≡ get_or ys w 0) → xs ≡ ys
get_or-ext [] [] e same = refl
get_or-ext [] (y ∷ ys) e same = absurd (omega arith)
get_or-ext (x ∷ xs) [] e same = absurd (omega arith)
get_or-ext (x ∷ xs) (y ∷ ys) e same =
    let rest = get_or-ext xs ys (omega arith) (λ w. same (suc w)) in λ i. same 0 i ∷ rest i

-- Arrays of words with the same bits are the same.
bit_at-ext :
    (xs ys : List ℕ)
    → AreWords xs
    → AreWords ys
    → length xs ≡ length ys
    → ((i : ℕ) → bit_at xs i ≡ bit_at ys i)
    → xs ≡ ys
bit_at-ext xs ys fit_x fit_y e same = get_or-ext xs ys e λ w.
    bit-ext (get_or xs w 0) (get_or ys w 0) λ k. elim (Bool-cases (ltb k 64)) [
      | inl low ↦
          let q : (w * 64 + k) / 64 ≡ w = ground arith in
          let r : (w * 64 + k) % 64 ≡ k = ground arith in rw (q, r) at (same (w * 64 + k))
      | inr high ↦
          bit-beyond 64 (get_or xs w 0) k (fit_x w) (ground arith)
          ∙ sym (bit-beyond 64 (get_or ys w 0) k (fit_y w) (ground arith))
    ]

-- A bit that has been changed back.
restored :
    (addr mid after : List ℕ) (nr value : ℕ)
    → AreWords addr
    → Changed addr nr value mid
    → Changed mid nr (bit_at addr nr) after
    → after ≡ addr
restored addr mid after nr value words there back =
    bit_at-ext after addr back.words words (omega (arith, there.size, back.size)) λ i.
      elim (Bool-cases (i == nr)) [
        | inl here ↦ let e : i ≡ nr = ground arith in rw e (ground (arith, back.bits nr))
        | inr other ↦ ground (arith, back.bits i, there.bits i)
      ]

module _ (addr : List ℕ) (nr : ℕ) (words : AreWords addr) (inside : nr < 64 * length addr) where
  -- A bit that has been changed to what it was.
  unchanged :
      (after : List ℕ) (value : ℕ)
      → Changed addr nr value after
      → value ≡ bit_at addr nr
      → after ≡ addr
  unchanged after value changed same = bit_at-ext after addr changed.words words changed.size λ i.
      elim (Bool-cases (i == nr)) [
        | inl here ↦ let e : i ≡ nr = ground arith in rw e (ground (arith, changed.bits nr, same))
        | inr other ↦ ground (arith, changed.bits i)
      ]

  -- After a test_and_set_bit, clearing the bit if it was clear gives the array back; and after a
  -- test_and_clear_bit, setting it if it was set. The bit is inside the array.
  pub test_and_change-undo :
      Returns
        (λ after. after ≡ addr)
        (test_and_set_bit addr nr >>= λ r. if r.1 == 0 then clear_bit r.0 nr else ok r.0)
      × Returns
          (λ after. after ≡ addr)
          (test_and_clear_bit addr nr >>= λ r. if r.1 == 0 then ok r.0 else set_bit r.0 nr)
  test_and_change-undo = (
    Returns-bind (test_and_set_bit-Changed addr nr words inside) λ r done.
        Returns-if (r.1 == 0)
          (λ was.
            let clear : bit_at addr nr ≡ 0 = ground (arith, done.1, was) in
            Returns-map (clear_bit-Changed r.0 nr done.0.words (omega (arith, done.0.size, inside)))
              (λ after back. restored addr r.0 after nr 1 words done.0 (rw clear back)))
          (λ was.
            let set : 1 ≡ bit_at addr nr =
              ground (arith, done.1, was, bit_lt (get_or addr (nr / 64) 0) (nr % 64)) in
            returns (unchanged r.0 1 done.0 set)),
    Returns-bind (test_and_clear_bit-Changed addr nr words inside) λ r done.
        Returns-if (r.1 == 0)
          (λ was. returns (unchanged r.0 0 done.0 (ground (arith, done.1, was))))
          (λ was.
            let set : bit_at addr nr ≡ 1 =
              ground (arith, done.1, was, bit_lt (get_or addr (nr / 64) 0) (nr % 64)) in
            Returns-map (set_bit-Changed r.0 nr done.0.words (omega (arith, done.0.size, inside)))
              (λ after back. restored addr r.0 after nr 0 words done.0 (rw set back))),
  )
