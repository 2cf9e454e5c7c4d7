-- ===== src/Bitmap/Ffs.antt =====
-- __ffs finds the lowest bit of a word.
use native.Mathlib.Nat.{mul_comm, div-add-mod}
use common_project_template.Base.{
  ℕ, ◌+◌, ◌-◌, ◌*◌, ◌/◌, ◌%◌, ◌^◌, ◌≤◌, ◌<◌, ◌≡◌, ◌==◌, if◌then◌else◌, arith, ap, ◌∙◌, bit_and,
  Bool-cases, inl, inr,
}
use common_project_template.Bits.{bit}
use common_project_template.Bits.Shift.{bit-shl, shl-shl}
use common_project_template.Bits.Mask.{bit_and-low_mask}
use common_project_template.Bitmap.{ffs_step, ffs}

-- `word` shifted by `num` is `w`, and has a bit below `width`.
record IsStage (w width : ℕ) (s : ℕ × ℕ) : Type 0 where
  shifted : w ≡ s.0 * 2 ^ s.1
  low : 0 < s.0 % 2 ^ width
  room : s.1 + width ≤ 64

-- The lowest bit of `w` is at `n`.
pub record IsLowest (w n : ℕ) : Type 0 where
  pub bounded : n < 64
  pub here : bit w n ≡ 1
  pub below : (k : ℕ) → k < n → bit w k ≡ 0

ffs_step-IsStage :
    (w by : ℕ)
    → ((x : ℕ) → x % 2 ^ by ≡ 0 → 0 < x % 2 ^ (by + by) → 0 < x / 2 ^ by % 2 ^ by)
    → (s : ℕ × ℕ) → IsStage w (by + by) s
    → IsStage w by (ffs_step (2 ^ by - 1) by s)
unfolding ffs_step
ffs_step-IsStage w by upper (word, num) st = elim (Bool-cases (word % 2 ^ by == 0)) [
  | inl none ↦
      let e : word % 2 ^ by ≡ 0 = ground arith in
      let half : word ≡ word / 2 ^ by * 2 ^ by =
        omega (arith, div-add-mod word (2 ^ by), mul_comm (2 ^ by) (word / 2 ^ by)) in
      rw (bit_and-low_mask, none)
        (record {
          shifted =
              st.shifted ∙ (ap (λ (x : ℕ). x * 2 ^ num) half ∙ shl-shl (word / 2 ^ by) num by);
          low = upper word e st.low;
          room = omega (arith, st.room);
        })
  | inr some_low ↦
      rw (bit_and-low_mask, some_low)
        (record { shifted = st.shifted; low = ground arith; room = omega (arith, st.room) })
]

-- The lowest bit, from a word whose lowest bit is one of the first two.
last-IsLowest :
    (w : ℕ) (s : ℕ × ℕ) → IsStage w 2 s → IsLowest w (if bit_and s.0 0x1 == 0 then s.1 + 1 else s.1)
last-IsLowest w (word, num) st =
    let digit = λ (k : ℕ). ap (λ x. bit x k) st.shifted ∙ bit-shl word num k in
    let found = st.low in
    let room = st.room in
    rw (bit_and-low_mask word 1) (elim (Bool-cases (word % 2 ^ 1 == 0)) [
      | inl even ↦ rw even (record {
        bounded = omega arith;
        here =
            let one : num + 1 - num ≡ 1 = omega arith in
            ground (arith, digit (num + 1), ap (bit word) one);
        below = λ k h.
            let zeroth : k ≡ num → bit word (k - num) ≡ word % 2 =
              λ e. let gone : k - num ≡ 0 = omega arith in ap (bit word) gone in
            ground (arith, digit k, zeroth);
      })
      | inr odd ↦ rw odd (record {
        bounded = omega arith;
        here =
            (let zeroth : num - num ≡ 0 = omega arith in
              ground (arith, digit num, ap (bit word) zeroth));
        below = λ k h. ground (arith, digit k);
      })
    ])

-- Of a word that is not 0, __ffs gives the position of the lowest bit.
pub ffs-IsLowest : (w : ℕ) → w < 2 ^ 64 → 0 < w → IsLowest w (ffs w)
unfolding ffs
ffs-IsLowest w fits some_bit =
    let s0 : IsStage w 64 (w, 0) = record {
      shifted = omega arith;
      low = omega arith;
      room = omega arith;
    } in
    let s1 = ffs_step-IsStage w 32 (λ x p q. omega arith) (w, 0) s0 in
    let s2 = ffs_step-IsStage w 16 (λ x p q. omega arith) _ s1 in
    let s3 = ffs_step-IsStage w 8 (λ x p q. omega arith) _ s2 in
    let s4 = ffs_step-IsStage w 4 (λ x p q. omega arith) _ s3 in
    let s5 = ffs_step-IsStage w 2 (λ x p q. omega arith) _ s4 in last-IsLowest w _ s5
