-- ===== src/Bitmap/Search.antt =====
-- The search of _find_next_bit.
use common_project_template.Base.{
  ℕ, zero, suc, ◌+◌, ◌-◌, ◌*◌, ◌/◌, ◌%◌, ◌^◌, ◌≤◌, ◌<◌, ◌≡◌, refl, List, Option, none, some, ◌==◌,
  ltb, leb, if◌then◌else◌, arith, ap, ◌∙◌, bit_and, min, differ, length, get_or, Returns, returns,
  Returns-if, Returns-bind, Bool-cases, inl, inr, false,
}
use common_project_template.Common.{min_of, round_down}
use common_project_template.Bits.{bit, bit_lt, zero-bit, bit-bit_and, bit-bit_xor}
use common_project_template.Bits.Mask.{
  bit_and_lt, bit_xor_lt, bit_and-low_mask, bit_and-round, bit-from,
}
use common_project_template.Bitmap.{bitmap_first_word_mask, fetch, ffs, find_loop, find_next}
use common_project_template.Bitmap.Words.{bit_at, AreWords, load-ok}
use common_project_template.Bitmap.Ffs.{IsLowest, ffs-IsLowest}

-- `r` is the first position from `start` on whose digit is 1, or `nbits` if none below it is.
pub record IsNext (digit : ℕ → ℕ) (start nbits r : ℕ) : Type 0 where
  pub bounded : r ≤ nbits
  pub found : r < nbits → (start ≤ r) × (digit r ≡ 1)
  pub skipped : (i : ℕ) → start ≤ i → i < r → digit i ≡ 0

-- An array of words with room for `nbits` bits.
pub record IsBitmap (addr : List ℕ) (nbits : ℕ) : Type 0 where
  pub words : AreWords addr
  pub room : nbits ≤ 64 * length addr

abbrev pub IsBitmapOption : Option (List ℕ) → ℕ → Type 0
IsBitmapOption none nbits = Unit
IsBitmapOption (some addr) nbits = IsBitmap addr nbits

-- What is searched for: the bit of `addr1`, anded with that of `addr2`, inverted.
abbrev pub wanted : List ℕ → Option (List ℕ) → (invert : ℕ) → ℕ → ℕ
wanted addr1 none invert i = differ (bit_at addr1 i) (bit invert (i % 64))
wanted addr1 (some addr2) invert i =
    differ (min (bit_at addr1 i) (bit_at addr2 i)) (bit invert (i % 64))

module _ (addr1 : List ℕ) (nbits invert : ℕ) (map1 : IsBitmap addr1 nbits)
    (fits : invert < 2 ^ 64) where
  -- A word of the bits that are searched.
  abbrev IsFetched : Option (List ℕ) → (start : ℕ) → ℕ → Type 0
  IsFetched addr2 start word =
      (word < 2 ^ 64)
      × ((i : ℕ) → i / 64 ≡ start / 64 → bit word (i % 64) ≡ wanted addr1 addr2 invert i)

  fetch-IsFetched :
      (addr2 : Option (List ℕ)) (start : ℕ)
      → IsBitmapOption addr2 nbits
      → start < nbits
      → Returns (IsFetched addr2 start) (fetch addr1 addr2 invert start)
  unfolding fetch
  fetch-IsFetched none start u h =
      let x = get_or addr1 (start / 64) 0 in
      rw (load-ok addr1 (start / 64) (omega (arith, map1.room))) (
        returns
          (bit_xor_lt 64 x invert (map1.words (start / 64)) fits, λ i e. rw (bit-bit_xor, e) refl))
  fetch-IsFetched (some addr) start m h =
      let x = get_or addr1 (start / 64) 0 in
      let y = get_or addr (start / 64) 0 in
      rw
        (
          load-ok addr1 (start / 64) (omega (arith, map1.room)),
          load-ok addr (start / 64) (omega (arith, m.room)),
        )
        (returns (
          bit_xor_lt 64 (bit_and x y) invert
              (bit_and_lt 64 x y (map1.words (start / 64)) (m.words (start / 64))) fits,
          λ i e. rw (bit-bit_xor, bit-bit_and, e) refl,
        ))

module _ (addr1 : List ℕ) (addr2 : Option (List ℕ)) (nbits invert : ℕ) (map1 : IsBitmap addr1 nbits)
    (map2 : IsBitmapOption addr2 nbits) (fits : invert < 2 ^ 64) where
  module _ (start : ℕ) (no_wrap : nbits + 63 < 2 ^ 64) where
    -- `tmp` has the bits at `s` and behind it that are searched, the ones before `start` are 0.
    record IsAt (s tmp : ℕ) : Type 0 where
      aligned : s % 64 ≡ 0
      inside : s < nbits
      begun : start < s + 64
      word : tmp < 2 ^ 64
      digits :
          (i : ℕ)
          → i / 64 ≡ s / 64
          → bit tmp (i % 64) ≡ (if ltb i start then 0 else wanted addr1 addr2 invert i)
      skipped : (i : ℕ) → start ≤ i → i < s → wanted addr1 addr2 invert i ≡ 0

    -- Where the word is 0, no bit up to its end is searched for.
    skip_word :
        (s tmp : ℕ)
        → IsAt s tmp
        → tmp ≡ 0
        → (i : ℕ) → start ≤ i
        → i < s + 64
        → wanted addr1 addr2 invert i ≡ 0
    skip_word s tmp at blank i p q = elim (Bool-cases (ltb i s)) [
      | inl before ↦ at.skipped i p (ground arith)
      | inr here ↦
          let not_before : s ≤ i = ground arith in
          let same : i / 64 ≡ s / 64 = omega (arith, at.aligned) in
          let empty : bit tmp (i % 64) ≡ 0 = ap (λ x. bit x (i % 64)) blank ∙ zero-bit (i % 64) in
          ground (arith, at.digits i same, empty)
    ]

    hit :
        (s tmp : ℕ)
        → IsAt s tmp
        → IsLowest tmp (ffs tmp)
        → IsNext (wanted addr1 addr2 invert) start nbits (min_of ((s + ffs tmp) % 2 ^ 64) nbits)
    hit s tmp at low =
        let n = ffs tmp in
        let bounded = low.bounded in
        let inside = at.inside in
        let aligned = at.aligned in
        let whole : (s + n) % 2 ^ 64 ≡ s + n = omega arith in
        let same : (s + n) / 64 ≡ s / 64 = omega arith in
        let at_n : (s + n) % 64 ≡ n = omega arith in
        let one : bit tmp ((s + n) % 64) ≡ 1 = ap (bit tmp) at_n ∙ low.here in
        let skip : (i : ℕ) → start ≤ i → i < s + n → wanted addr1 addr2 invert i ≡ 0 = λ i p q.
          elim (Bool-cases (ltb i s)) [
            | inl before ↦ at.skipped i p (ground arith)
            | inr here ↦
                let not_before : s ≤ i = ground arith in
                let word_of_i : i / 64 ≡ s / 64 = omega arith in
                let empty = low.below (i % 64) (omega arith) in
                ground (arith, at.digits i word_of_i, empty)
          ] in
        rw whole (elim (Bool-cases (ltb (s + n) nbits)) [
          | inl below ↦ rw below (record {
            bounded = ground arith;
            found = λ h. ground (arith, at.digits (s + n) same, one);
            skipped = skip;
          })
          | inr above ↦ rw above (record {
            bounded = omega arith;
            found = λ h. absurd (omega arith);
            skipped = λ i p q. skip i p (ground arith);
          })
        ])

    find_loop-IsNext :
        (k s tmp : ℕ)
        → nbits < s + 64 * k
        → IsAt s tmp
        → Returns
            (IsNext (wanted addr1 addr2 invert) start nbits)
            (find_loop addr1 addr2 nbits invert k s tmp)
    unfolding find_loop
    find_loop-IsNext zero s tmp enough at = absurd (omega (arith, at.inside))
    find_loop-IsNext (suc k) s tmp enough at =
        let next : (s + 64) % 2 ^ 64 ≡ s + 64 = omega (arith, at.inside, at.aligned) in
        rw next (
          Returns-if (tmp == 0)
            (λ e.
              let skip = skip_word s tmp at (ground arith) in
              Returns-if (leb nbits (s + 64))
                (λ over. returns (record {
                  bounded = omega arith;
                  found = λ h. absurd (omega arith);
                  skipped = λ i p q. skip i p (ground arith);
                }))
                λ more.
                  let more_bits : s + 64 < nbits = ground arith in
                  Returns-bind
                    (fetch-IsFetched addr1 nbits invert map1 fits addr2 (s + 64) map2 more_bits)
                    λ word (small, digits). find_loop-IsNext k (s + 64) word (omega arith) (record {
                      aligned = omega (arith, at.aligned);
                      inside = more_bits;
                      begun = omega (arith, at.begun);
                      word = small;
                      digits = λ i same.
                          let late : start ≤ i = omega (arith, at.begun, at.aligned) in
                          let e : ltb i start ≡ false = ground arith in rw e (digits i same);
                      skipped = skip;
                    }))
            λ e. returns (hit s tmp at (ffs-IsLowest tmp at.word (ground arith))))

    -- The loop begins with the bits of the first word, less those before `start`.
    first_word :
        (word : ℕ)
        → start < nbits
        → word < 2 ^ 64
        → ((i : ℕ) → i / 64 ≡ start / 64 → bit word (i % 64) ≡ wanted addr1 addr2 invert i)
        → IsAt (round_down start 64) (bit_and word (bitmap_first_word_mask start))
    first_word word inside small digits =
        let down : round_down start 64 ≡ start / 64 * 64 = bit_and-round start (omega arith) in
        let low : bit_and start 63 ≡ start % 64 = bit_and-low_mask start 6 in
        rw (down, low)
          (record {
            aligned = omega arith;
            inside = omega arith;
            begun = omega arith;
            word = bit_and_lt 64 word _ small (omega arith);
            digits = λ i same.
                let here : i / 64 ≡ start / 64 = omega arith in
                ground (
                  arith,
                  bit-bit_and word ((2 ^ 64 - 1) * 2 ^ (start % 64) % 2 ^ 64) (i % 64),
                  bit-from (start % 64) (i % 64) (omega arith),
                  digits i here,
                  bit_lt word (i % 64),
                );
            skipped = λ i p q. absurd (omega arith);
          })

    -- The search gives the next bit that is searched for.
    pub find_next-IsNext :
        Returns
          (IsNext (wanted addr1 addr2 invert) start nbits)
          (find_next addr1 addr2 nbits invert start)
    unfolding find_next
    find_next-IsNext =
        Returns-if (leb nbits start)
          (λ over. returns (record {
            bounded = omega arith;
            found = λ h. absurd (omega arith);
            skipped = λ i p q. absurd (ground arith);
          }))
          λ within.
            let inside : start < nbits = ground arith in
            Returns-bind (fetch-IsFetched addr1 nbits invert map1 fits addr2 start map2 inside)
              λ word (small, digits).
                find_loop-IsNext (nbits / 64 + 1) (round_down start 64)
                  (bit_and word (bitmap_first_word_mask start))
                  (omega (arith, bit_and-round start (omega arith)))
                  (first_word word inside small digits)
