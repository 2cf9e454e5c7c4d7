-- ===== src/Bits.antt =====
-- The binary digits of a number, and what the operators of C on `unsigned long` do to them.
pub mod Shift
pub mod Mask
use Prim.Native.Nat.{digits, bit_and-bitwise, bit_or-bitwise, bit_xor-bitwise}
use native.Mathlib.Nat.{pow-suc, one-le-pow}
use common_project_template.Base.{
  ℕ, zero, suc, ◌+◌, ◌-◌, ◌*◌, ◌/◌, ◌%◌, ◌^◌, ◌≤◌, ◌<◌, ◌≡◌, refl, ltb, if◌then◌else◌, arith, ap,
  bit_and, bit_or, bit_xor, min, max, differ, sym, ◌∙◌,
}

-- The digit of `x` at `k`, the lowest first.
abbrev pub bit : ℕ → ℕ → ℕ
bit x zero = x % 2
bit x (suc k) = bit (x / 2) k

pub bit_lt : (x k : ℕ) → bit x k < 2
bit_lt x zero = omega arith
bit_lt x (suc k) = bit_lt (x / 2) k

pub zero-bit : (k : ℕ) → bit 0 k ≡ 0
zero-bit zero = refl
zero-bit (suc k) = zero-bit k

module _ (z : ℕ → ℕ) (f : ℕ → ℕ → ℕ) where
  -- An operation by digits, with as many rounds as its first argument has digits or more.
  bit-digits :
      ((b k : ℕ) → bit (z b) k ≡ f 0 (bit b k))
      → ((x y : ℕ) → x < 2 → y < 2 → f x y < 2)
      → (rounds a b k : ℕ) → a ≤ rounds
      → bit (digits z f rounds a b) k ≡ f (bit a k) (bit b k)
  bit-digits rest small zero zero b k h = rest b k ∙ ap (λ d. f d (bit b k)) (sym (zero-bit k))
  bit-digits rest small zero (suc a) b k h = absurd (omega arith)
  bit-digits rest small (suc n) zero b k h = rest b k ∙ ap (λ d. f d (bit b k)) (sym (zero-bit k))
  bit-digits rest small (suc n) (suc a) b zero h =
      omega (arith, small (suc a % 2) (b % 2) (omega arith) (omega arith))
  bit-digits rest small (suc n) (suc a) b (suc k) h =
      let lower = small (suc a % 2) (b % 2) (omega arith) (omega arith) in
      let upper : (digits z f n (suc a / 2) (b / 2) * 2 + f (suc a % 2) (b % 2)) / 2
          ≡ digits z f n (suc a / 2) (b / 2) =
        omega (arith, lower) in
      rw upper (bit-digits rest small n (suc a / 2) (b / 2) k (omega arith))

differ_lt : (x y : ℕ) → x < 2 → y < 2 → differ x y < 2
differ_lt zero y p q = q
differ_lt (suc zero) zero p q = p
differ_lt (suc x) (suc y) p q = differ_lt x y (omega arith) (omega arith)
differ_lt (suc (suc x)) zero p q = absurd (omega arith)

pub bit-bit_and : (a b k : ℕ) → bit (bit_and a b) k ≡ min (bit a k) (bit b k)
bit-bit_and a b k = rw bit_and-bitwise (
    bit-digits (λ _. 0) min (λ c j. zero-bit j ∙ ground arith) (λ x y p q. ground arith) a a b k
      (omega arith))

pub bit-bit_or : (a b k : ℕ) → bit (bit_or a b) k ≡ max (bit a k) (bit b k)
bit-bit_or a b k =
    rw bit_or-bitwise (
      bit-digits (λ c. c) max (λ c j. ground arith) (λ x y p q. ground arith) a a b k (omega arith))

pub bit-bit_xor : (a b k : ℕ) → bit (bit_xor a b) k ≡ differ (bit a k) (bit b k)
bit-bit_xor a b k =
    rw bit_xor-bitwise (bit-digits (λ c. c) differ (λ c j. refl) differ_lt a a b k (omega arith))
