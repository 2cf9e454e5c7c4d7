-- ===== src/Bits/Mask.antt =====
-- The masks of lib/bitmap and what they leave of a 64-bit word.
use common_project_template.Base.{
  ℕ, ◌-◌, ◌*◌, ◌/◌, ◌%◌, ◌^◌, ◌<◌, ◌≡◌, refl, ltb, ◌==◌, if◌then◌else◌, arith, ap, ◌∙◌, bit_and,
  bit_or, bit_xor, Bool-cases, inl, inr,
}
use common_project_template.Bits.{bit, bit_lt, zero-bit, bit-bit_and, bit-bit_or, bit-bit_xor}
use common_project_template.Bits.Shift.{
  bit-ext, bit-shl, bit-low, bit-shr, bit-not, bit-beyond, lt_pow,
}

pub bit-ones : (m k : ℕ) → bit (2 ^ m - 1) k ≡ (if ltb k m then 1 else 0)
bit-ones m k = elim (Bool-cases (ltb k m)) [
  | inl below ↦
      let all : 2 ^ m - 1 ≡ 2 ^ m - 1 - 0 = omega arith in
      rw below (
        ap (λ (y : ℕ). bit y k) all
        ∙ bit-not m 0 k (lt_pow m 0 (λ j _. zero-bit j)) (ground arith)
        ∙ ap (λ d. 1 - d) (zero-bit k))
  | inr beyond ↦
      let small : 2 ^ m - 1 < 2 ^ m = omega (arith, lt_pow m 0 (λ j _. zero-bit j)) in
      rw beyond (bit-beyond m (2 ^ m - 1) k small (ground arith))
]

module _ (m a b : ℕ) (p : a < 2 ^ m) (q : b < 2 ^ m) where
  pub bit_and_lt : bit_and a b < 2 ^ m
  bit_and_lt =
      lt_pow m (bit_and a b)
        λ k h. rw (bit-bit_and, bit-beyond m a k p h, bit-beyond m b k q h) refl

  pub bit_or_lt : bit_or a b < 2 ^ m
  bit_or_lt =
      lt_pow m (bit_or a b) λ k h. rw (bit-bit_or, bit-beyond m a k p h, bit-beyond m b k q h) refl

  pub bit_xor_lt : bit_xor a b < 2 ^ m
  bit_xor_lt =
      lt_pow m (bit_xor a b)
        λ k h. rw (bit-bit_xor, bit-beyond m a k p h, bit-beyond m b k q h) refl

pub bit_and-low_mask : (x m : ℕ) → bit_and x (2 ^ m - 1) ≡ x % 2 ^ m
bit_and-low_mask x m =
    bit-ext _ _ λ k. rw bit-bit_and (ground (arith, bit-ones m k, bit-low x m k, bit_lt x k))

pub bit_and-one : (x : ℕ) → bit_and 1 x ≡ x % 2
bit_and-one x =
    bit-ext _ _ λ k. rw bit-bit_and (ground (arith, bit-ones 1 k, bit-low x 1 k, bit_lt x k))

-- `~63` leaves a multiple of 64.
pub bit_and-round : (x : ℕ) → x < 2 ^ 64 → bit_and x (2 ^ 64 - 64) ≡ x / 64 * 64
bit_and-round x h = bit-ext _ _ λ k. rw bit-bit_and (
    ground (
      arith,
      bit-shl (2 ^ 58 - 1) 6 k,
      bit-ones 58 (k - 6),
      bit-shl (x / 2 ^ 6) 6 k,
      bit-shr x 6 (k - 6),
      bit_lt x k,
      bit-beyond 64 x k h,
    ))

-- `1UL << m`
pub bit-mask : (m k : ℕ) → m < 64 → bit (1 * 2 ^ m % 2 ^ 64) k ≡ (if k == m then 1 else 0)
bit-mask m k h = ground (arith, bit-low (1 * 2 ^ m) 64 k, bit-shl 1 m k, bit-ones 1 (k - m))

-- `~0UL << m`
pub bit-from :
    (m k : ℕ) → k < 64 → bit ((2 ^ 64 - 1) * 2 ^ m % 2 ^ 64) k ≡ (if ltb k m then 0 else 1)
bit-from m k h =
    ground
      (arith, bit-low ((2 ^ 64 - 1) * 2 ^ m) 64 k, bit-shl (2 ^ 64 - 1) m k, bit-ones 64 (k - m))

-- `(x & (1UL << m)) != 0` is the digit at `m`.
pub bit_and-mask :
    (x m : ℕ) → m < 64 → (if bit_and x (1 * 2 ^ m % 2 ^ 64) == 0 then 0 else 1) ≡ bit x m
bit_and-mask x m h =
    let digit = λ (k : ℕ). bit-bit_and x (1 * 2 ^ m % 2 ^ 64) k in
    elim (Bool-cases (bit x m == 0)) [
      | inl unset ↦
          let e : bit_and x (1 * 2 ^ m % 2 ^ 64) ≡ 0 =
            bit-ext _ _ λ k. ground (arith, digit k, bit-mask m k h, zero-bit k) in
          rw e (ground arith)
      | inr set ↦ ground (arith, digit m, bit-mask m m h, bit_lt x m, zero-bit m, ap (λ y. bit y m))
    ]
