-- ===== src/Bitmap/Words.antt =====
-- What set_bit, clear_bit, test_and_set_bit, test_and_clear_bit and test_bit do to and tell of the
-- bits of an array.
use common_project_template.Base.{
  ℕ, ◌+◌, ◌*◌, ◌/◌, ◌%◌, ◌^◌, ◌<◌, ◌≡◌, refl, List, ◌==◌, ltb, if◌then◌else◌, ok, arith, ap, ◌∙◌,
  bit_and, bit_or, length, length-set, set, get_or, get_or-set, get_elem?-get_or, Returns, returns,
  Bool-cases, inl, inr, true,
}
use common_project_template.Bits.{bit, bit_lt, bit-bit_and, bit-bit_or}
use common_project_template.Bits.Shift.{bit-shr, bit-not}
use common_project_template.Bits.Mask.{
  bit_and_lt, bit_or_lt, bit_and-low_mask, bit_and-one, bit-mask, bit_and-mask,
}
use common_project_template.Bitmap.{
  bit_mask, complement, load, store, set_bit, clear_bit, test_and_set_bit, test_and_clear_bit,
  test_bit, was_set,
}

-- The bit of an array at `i`, and whether each word fits 64 bits.
abbrev pub bit_at : List ℕ → ℕ → ℕ
bit_at addr i = bit (get_or addr (i / 64) 0) (i % 64)

abbrev pub AreWords : List ℕ → Type 0
AreWords addr = (w : ℕ) → get_or addr w 0 < 2 ^ 64

-- `after` is `addr` with the bit at `nr` changed to `value`.
pub record Changed (addr : List ℕ) (nr value : ℕ) (after : List ℕ) : Type 0 where
  pub words : AreWords after
  pub size : length after ≡ length addr
  pub bits : (i : ℕ) → bit_at after i ≡ (if i == nr then value else bit_at addr i)

pub load-ok : (addr : List ℕ) (w : ℕ) → w < length addr → load addr w ≡ ok (get_or addr w 0)
unfolding load
load-ok addr w h = rw (get_elem?-get_or addr w 0 h) refl

store-ok : (addr : List ℕ) (w word : ℕ) → w < length addr → store addr w word ≡ ok (set addr w word)
unfolding store
store-ok addr w word h = let e : ltb w (length addr) ≡ true = ground arith in rw e refl

mask_lt : (nr : ℕ) → bit_mask nr < 2 ^ 64
mask_lt nr = omega arith

module _ (addr : List ℕ) (nr : ℕ) (words : AreWords addr) (inside : nr < 64 * length addr) where
  -- A word that differs from the old one in the digit of `nr` only changes that bit.
  set-Changed :
      (word value : ℕ)
      → word < 2 ^ 64
      → ((k : ℕ)
          → k < 64
          → bit word k ≡ (if k == nr % 64 then value else bit (get_or addr (nr / 64) 0) k))
      → Changed addr nr value (set addr (nr / 64) word)
  set-Changed word value fits digits =
      let got = λ (w : ℕ). get_or-set addr (nr / 64) w word 0 (omega arith) in
      record {
        words = λ w. ground (arith, got w, words w);
        size = length-set addr (nr / 64) word;
        bits = λ i. elim (Bool-cases (nr / 64 == i / 64)) [
          | inl same ↦
              let e : i / 64 ≡ nr / 64 = ground arith in
              rw (got (i / 64), same) (ground (arith, digits (i % 64) (omega arith)))
          | inr other ↦ rw (got (i / 64), other) (ground arith)
        ];
      }

  or-Changed :
      Changed addr nr 1 (set addr (nr / 64) (bit_or (get_or addr (nr / 64) 0) (bit_mask nr)))
  or-Changed =
      let old = get_or addr (nr / 64) 0 in
      set-Changed (bit_or old (bit_mask nr)) 1
        (bit_or_lt 64 old (bit_mask nr) (words (nr / 64)) (mask_lt nr))
        λ k h.
          ground (
            arith,
            bit-bit_or old (bit_mask nr) k,
            bit-mask (nr % 64) k (omega arith),
            bit_lt old k,
          )

  and-Changed :
      Changed addr nr 0
        (set addr (nr / 64) (bit_and (get_or addr (nr / 64) 0) (complement (bit_mask nr))))
  and-Changed =
      let old = get_or addr (nr / 64) 0 in
      set-Changed (bit_and old (complement (bit_mask nr))) 0
        (bit_and_lt 64 old (complement (bit_mask nr)) (words (nr / 64)) (omega arith))
        λ k h. ground (
          arith,
          bit-bit_and old (complement (bit_mask nr)) k,
          bit-not 64 (bit_mask nr) k (mask_lt nr) h,
          bit-mask (nr % 64) k (omega arith),
          bit_lt old k,
        )

  pub set_bit-Changed : Returns (Changed addr nr 1) (set_bit addr nr)
  unfolding set_bit
  set_bit-Changed = rw (load-ok addr (nr / 64) (omega arith)) (
      rw (store-ok addr (nr / 64) (bit_or (get_or addr (nr / 64) 0) (bit_mask nr)) (omega arith))
        (returns or-Changed))

  pub clear_bit-Changed : Returns (Changed addr nr 0) (clear_bit addr nr)
  unfolding clear_bit
  clear_bit-Changed = rw (load-ok addr (nr / 64) (omega arith)) (
      rw
        (store-ok addr (nr / 64) (bit_and (get_or addr (nr / 64) 0) (complement (bit_mask nr)))
          (omega arith))
        (returns and-Changed))

  pub test_and_set_bit-Changed :
      Returns (λ r. Changed addr nr 1 r.0 × (r.1 ≡ bit_at addr nr)) (test_and_set_bit addr nr)
  unfolding test_and_set_bit was_set
  test_and_set_bit-Changed = rw (load-ok addr (nr / 64) (omega arith)) (
      rw (store-ok addr (nr / 64) (bit_or (get_or addr (nr / 64) 0) (bit_mask nr)) (omega arith))
        (returns (or-Changed, bit_and-mask (get_or addr (nr / 64) 0) (nr % 64) (omega arith))))

  pub test_and_clear_bit-Changed :
      Returns (λ r. Changed addr nr 0 r.0 × (r.1 ≡ bit_at addr nr)) (test_and_clear_bit addr nr)
  unfolding test_and_clear_bit was_set
  test_and_clear_bit-Changed = rw (load-ok addr (nr / 64) (omega arith)) (
      rw
        (store-ok addr (nr / 64) (bit_and (get_or addr (nr / 64) 0) (complement (bit_mask nr)))
          (omega arith))
        (returns (and-Changed, bit_and-mask (get_or addr (nr / 64) 0) (nr % 64) (omega arith))))

  -- set_bit sets the bit at `nr`, inside the array, and no other; clear_bit clears it.
  pub set_clear_bit-Changed :
      Returns (Changed addr nr 1) (set_bit addr nr)
      × Returns (Changed addr nr 0) (clear_bit addr nr)
  set_clear_bit-Changed = (set_bit-Changed, clear_bit-Changed)

  -- test_and_set_bit sets the bit at `nr`, inside the array, and no other, and tells what it was;
  -- test_and_clear_bit clears it.
  pub test_and_change_bit-Changed :
      Returns (λ r. Changed addr nr 1 r.0 × (r.1 ≡ bit_at addr nr)) (test_and_set_bit addr nr)
      × Returns (λ r. Changed addr nr 0 r.0 × (r.1 ≡ bit_at addr nr)) (test_and_clear_bit addr nr)
  test_and_change_bit-Changed = (test_and_set_bit-Changed, test_and_clear_bit-Changed)

  -- test_bit tells the bit at `nr`, inside the array.
  pub test_bit-bit_at : test_bit addr nr ≡ ok (bit_at addr nr)
  unfolding test_bit
  test_bit-bit_at =
      let word = get_or addr (nr / 64) 0 in
      let low : bit_and nr 63 ≡ nr % 64 = bit_and-low_mask nr 6 in
      let tail : nr % 64 + 0 ≡ nr % 64 = omega arith in
      rw (load-ok addr (nr / 64) (omega arith), low, bit_and-one)
        (ap ok (bit-shr word (nr % 64) 0 ∙ ap (bit word) tail))
