-- ===== src/Bitmap/Find.antt =====
-- find_next_bit and find_next_zero_bit, also on a new array.
use common_project_template.Base.{
  ℕ, zero, suc, ◌+◌, ◌-◌, ◌*◌, ◌/◌, ◌%◌, ◌^◌, ◌≤◌, ◌<◌, ◌≡◌, refl, List, Option, none, some, arith,
  ap, ◌∙◌, sym, differ, length, get_or, Returns, Returns-map,
}
use common_project_template.Bits.{bit, bit_lt, zero-bit}
use common_project_template.Bits.Mask.{bit-ones}
use common_project_template.Bitmap.{bitmap_alloc, find_next_bit, find_next_zero_bit}
use common_project_template.Bitmap.Words.{bit_at}
use common_project_template.Bitmap.Search.{IsNext, IsBitmap, find_next-IsNext}

differ-zero : (x : ℕ) → differ x 0 ≡ x
differ-zero zero = refl
differ-zero (suc x) = refl

differ-one : (x : ℕ) → x < 2 → differ x 1 ≡ 1 - x
differ-one zero h = refl
differ-one (suc zero) h = refl
differ-one (suc (suc x)) h = absurd (omega arith)

IsNext-same :
    (p q : ℕ → ℕ) (start nbits r : ℕ)
    → ((i : ℕ) → p i ≡ q i)
    → IsNext p start nbits r
    → IsNext q start nbits r
IsNext-same p q start nbits r same next = record {
  bounded = next.bounded;
  found = λ h. let (late, one) = next.found h in (late, sym (same r) ∙ one);
  skipped = λ i a b. sym (same i) ∙ next.skipped i a b;
}

module _ (addr : List ℕ) (size offset : ℕ) (map1 : IsBitmap addr size)
    (no_wrap : size + 63 < 2 ^ 64) where
  -- In an array with room for size bits, for a size of at most 2^64 - 64, find_next_bit ends and
  -- gives the first position from offset on whose bit is set, or size if none below it is.
  pub find_next_bit-IsNext :
      Returns (IsNext (bit_at addr) offset size) (find_next_bit addr size offset)
  unfolding find_next_bit
  find_next_bit-IsNext =
      Returns-map (find_next-IsNext addr none size 0 map1 tt (omega arith) offset no_wrap) λ r.
        IsNext-same _ _ offset size r
          λ i. ap (differ (bit_at addr i)) (zero-bit (i % 64)) ∙ differ-zero (bit_at addr i)

  -- In an array with room for size bits, for a size of at most 2^64 - 64, find_next_zero_bit ends
  -- and gives the first position from offset on whose bit is clear, or size if none below it is.
  pub find_next_zero_bit-IsNext :
      Returns (IsNext (λ i. 1 - bit_at addr i) offset size) (find_next_zero_bit addr size offset)
  unfolding find_next_zero_bit
  find_next_zero_bit-IsNext =
      Returns-map
        (find_next-IsNext addr none size (2 ^ 64 - 1) map1 tt (omega arith) offset no_wrap)
        λ r. IsNext-same _ _ offset size r λ i.
          ap (differ (bit_at addr i)) (bit-ones 64 (i % 64) ∙ ground arith)
          ∙ differ-one (bit_at addr i) (bit_lt (get_or addr (i / 64) 0) (i % 64))

-- What `calloc` promises: an array has the bytes asked for, all zero.
pub record IsCalloc (calloc : ℕ → Option (List ℕ)) : Type 0 where
  pub room : (bytes : ℕ) (addr : List ℕ) → calloc bytes ≡ some addr → bytes ≤ 8 * length addr
  pub zeros : (bytes : ℕ) (addr : List ℕ) → calloc bytes ≡ some addr → (w : ℕ) → get_or addr w 0 ≡ 0

-- An array that bitmap_alloc gives for up to 2 ^ 64 - 64 bits has room for them, and find_next_bit
-- finds no bit in it.
pub alloc-empty :
    (calloc : ℕ → Option (List ℕ)) (nbits start : ℕ) (addr : List ℕ)
    → IsCalloc calloc
    → nbits + 63 < 2 ^ 64
    → bitmap_alloc calloc nbits ≡ some addr
    → IsBitmap addr nbits × Returns (λ r. r ≡ nbits) (find_next_bit addr nbits start)
unfolding bitmap_alloc
alloc-empty calloc nbits start addr law no_wrap got =
    let zeros = law.zeros _ addr got in
    let whole : IsBitmap addr nbits = record {
      words = λ w. omega (arith, zeros w);
      room = omega (arith, law.room _ addr got);
    } in
    (
      whole,
      Returns-map (find_next_bit-IsNext addr nbits start whole no_wrap) λ r next.
          let clear : bit_at addr r ≡ 0 =
            ap (λ x. bit x (r % 64)) (zeros (r / 64)) ∙ zero-bit (r % 64) in
          ground (arith, next.found, clear, next.bounded),
    )
