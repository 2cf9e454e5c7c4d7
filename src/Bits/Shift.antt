-- ===== src/Bits/Shift.antt =====
-- The digits of shifted, truncated and inverted numbers.
use native.Mathlib.Nat.{two-pow-succ, pow-succ', div-div-eq-div-mul, div-add-mod, mul_comm}
use common_project_template.Base.{
  ℕ, zero, suc, ◌+◌, ◌-◌, ◌*◌, ◌/◌, ◌%◌, ◌^◌, ◌≤◌, ◌<◌, ◌≡◌, ltb, if◌then◌else◌, arith, ap, ◌∙◌,
  sym,
}
use common_project_template.Bits.{bit, zero-bit}

-- Numbers with the same digits are the same.
ext_below : (n a b : ℕ) → a ≤ n → b ≤ n → ((k : ℕ) → bit a k ≡ bit b k) → a ≡ b
ext_below zero a b p q same = omega arith
ext_below (suc n) a b p q same =
    omega
      (arith, same 0, ext_below n (a / 2) (b / 2) (omega arith) (omega arith) (λ k. same (suc k)))

pub bit-ext : (a b : ℕ) → ((k : ℕ) → bit a k ≡ bit b k) → a ≡ b
bit-ext a b same = ext_below (a + b) a b (omega arith) (omega arith) same

double : (x m : ℕ) → x * 2 ^ suc m ≡ 2 * (x * 2 ^ m)
double x m = omega (arith, ap (λ (t : ℕ). x * t) (two-pow-succ m))

pub shl-shl : (x m n : ℕ) → x * 2 ^ n * 2 ^ m ≡ x * 2 ^ (m + n)
shl-shl x zero n = ground arith
shl-shl x (suc m) n =
    let e : suc m + n ≡ suc (m + n) = omega arith in
    rw e (omega (arith, double (x * 2 ^ n) m, double x (m + n), shl-shl x m n))

pub bit-shl : (x m k : ℕ) → bit (x * 2 ^ m) k ≡ (if ltb k m then 0 else bit x (k - m))
bit-shl x zero k = ground arith
bit-shl x (suc m) zero = ground (arith, double x m)
bit-shl x (suc m) (suc k) =
    let half : x * 2 ^ suc m / 2 ≡ x * 2 ^ m = omega (arith, double x m) in
    rw half (ground (arith, bit-shl x m k))

halves : (x m : ℕ) → x / 2 ^ suc m ≡ x / 2 / 2 ^ m
halves x m = sym (rw pow-succ' (div-div-eq-div-mul x 2 (2 ^ m)))

-- A number without its low `suc m` digits.
high : (x m : ℕ) → 2 * (2 ^ m * (x / 2 / 2 ^ m)) + x % 2 ^ suc m ≡ x
high x m = omega (
  arith,
  div-add-mod x (2 ^ suc m),
  ap (λ (t : ℕ). 2 ^ suc m * t) (halves x m),
  mul_comm (2 ^ suc m) (x / 2 / 2 ^ m),
  mul_comm (2 ^ m) (x / 2 / 2 ^ m),
  double (x / 2 / 2 ^ m) m,
)

half_of_low : (x m : ℕ) → x % 2 ^ suc m / 2 ≡ x / 2 % 2 ^ m
half_of_low x m = omega (arith, high x m, div-add-mod (x / 2) (2 ^ m))

pub bit-low : (x m k : ℕ) → bit (x % 2 ^ m) k ≡ (if ltb k m then bit x k else 0)
bit-low x zero k = let e : x % 2 ^ 0 ≡ 0 = omega arith in rw e (ground (arith, zero-bit k))
bit-low x (suc m) zero = ground (arith, high x m)
bit-low x (suc m) (suc k) = rw half_of_low (ground (arith, bit-low (x / 2) m k))

pub bit-shr : (x m k : ℕ) → bit (x / 2 ^ m) k ≡ bit x (m + k)
bit-shr x zero k = ground arith
bit-shr x (suc m) k =
    let e : suc m + k ≡ suc (m + k) = omega arith in rw (halves, e) (bit-shr (x / 2) m k)

pub bit-not : (m x k : ℕ) → x < 2 ^ m → k < m → bit (2 ^ m - 1 - x) k ≡ 1 - bit x k
bit-not zero x k p q = absurd (omega arith)
bit-not (suc m) x zero p q = omega (arith, two-pow-succ m)
bit-not (suc m) x (suc k) p q =
    let half : (2 ^ suc m - 1 - x) / 2 ≡ 2 ^ m - 1 - x / 2 = omega (arith, two-pow-succ m) in
    rw half (bit-not m (x / 2) k (omega (arith, two-pow-succ m)) (omega arith))

-- A number has `m` digits just if its digits from `m` on are 0.
pub bit-beyond : (m x k : ℕ) → x < 2 ^ m → m ≤ k → bit x k ≡ 0
bit-beyond zero x k p q = ap (λ y. bit y k) (omega arith) ∙ zero-bit k
bit-beyond (suc m) x zero p q = absurd (omega arith)
bit-beyond (suc m) x (suc k) p q =
    bit-beyond m (x / 2) k (omega (arith, two-pow-succ m)) (omega arith)

pub lt_pow : (m x : ℕ) → ((k : ℕ) → m ≤ k → bit x k ≡ 0) → x < 2 ^ m
lt_pow zero x none =
    let e : x ≡ 0 = bit-ext x 0 (λ k. none k (omega arith) ∙ sym (zero-bit k)) in omega arith
lt_pow (suc m) x none =
    omega (arith, two-pow-succ m, lt_pow m (x / 2) (λ k p. none (suc k) (omega arith)))
