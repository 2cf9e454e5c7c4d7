-- ===== src/Bitmap.antt =====
-- lib/bitmap/bitmap.c and bitmap.h: bitmaps in arrays of `unsigned long`, which is 64 bits wide. A
-- word is a number below 2 ^ 64, an array the list of its words; an access outside it faults.
pub mod Words
pub mod Ffs
pub mod Search
pub mod Find
pub mod Undo
mod Tests
use common_project_template.Base.{
  ℕ, zero, suc, ◌+◌, ◌-◌, ◌*◌, ◌/◌, ◌%◌, ◌^◌, List, Option, none, some, ◌==◌, ltb, leb,
  if◌then◌else◌, Run, ok, fault, out_of_fuel, ◌>>=◌, or_fault, length, get_elem?, set, bit_and,
  bit_or, bit_xor,
}
use common_project_template.Common.{min_of, bits_per_long, div_round_up, round_down}

-- `1UL << (nr % BITS_PER_LONG)`, `nr / BITS_PER_LONG` and the other macros of the header.
abbrev pub bit_mask : ℕ → ℕ
bit_mask nr = 1 * 2 ^ (nr % bits_per_long) % 2 ^ 64

abbrev pub bit_word : ℕ → ℕ
bit_word nr = nr / bits_per_long

abbrev pub bitmap_first_word_mask : ℕ → ℕ
bitmap_first_word_mask start = (2 ^ 64 - 1) * 2 ^ bit_and start (bits_per_long - 1) % 2 ^ 64

abbrev pub bits_to_longs : ℕ → ℕ
bits_to_longs nr = div_round_up nr bits_per_long

-- `~word`
abbrev pub complement : ℕ → ℕ
complement word = 2 ^ 64 - 1 - word

-- One test of `__ffs`: `if ((word & mask) == 0) { num += by; word >>= by; }`.
pub ffs_step : (mask by : ℕ) → ℕ × ℕ → ℕ × ℕ
ffs_step mask by (word, num) =
    if bit_and word mask == 0 then (word / 2 ^ by, num + by) else (word, num)

-- `__ffs`; the last test adds 1 and leaves the word.
pub ffs : ℕ → ℕ
unfolding ffs_step
ffs word =
    let (word, num) =
      ffs_step 0x3 2 (
        ffs_step 0xf 4 (ffs_step 0xff 8 (ffs_step 0xffff 16 (ffs_step 0xffffffff 32 (word, 0))))) in
    if bit_and word 0x1 == 0 then num + 1 else num

pub load : List ℕ → ℕ → Run ℕ
load addr i = or_fault (get_elem? addr i)

pub store : List ℕ → ℕ → ℕ → Run (List ℕ)
store addr i word = if ltb i (length addr) then ok (set addr i word) else fault

-- The word at `start`, anded with that of `addr2` if there is one, and inverted if asked for.
pub fetch : (addr1 : List ℕ) (addr2 : Option (List ℕ)) (invert start : ℕ) → Run ℕ
unfolding load
fetch addr1 addr2 invert start = do
  tmp ← load addr1 (bit_word start)
  both ← elim addr2 [
    | none ↦ ok tmp
    | some addr ↦ load addr (bit_word start) >>= λ word. ok (bit_and tmp word)
  ]
  ok (bit_xor both invert)

module _ (addr1 : List ℕ) (addr2 : Option (List ℕ)) (nbits invert : ℕ) where
  -- The loop of `_find_next_bit`.
  pub find_loop : (fuel start tmp : ℕ) → Run ℕ
  find_loop zero start tmp = out_of_fuel
  find_loop (suc k) start tmp =
      let next = (start + bits_per_long) % 2 ^ 64 in
      let go_on : Run ℕ = fetch addr1 addr2 invert next >>= find_loop k next in
      if tmp == 0
      then (if leb nbits next then ok nbits else go_on)
      else ok (min_of ((start + ffs tmp) % 2 ^ 64) nbits)

  -- `_find_next_bit`; a round of the loop passes a word, so `nbits / 64 + 1` rounds are enough.
  pub find_next : (start : ℕ) → Run ℕ
  unfolding find_loop
  find_next start = if leb nbits start then ok nbits else do
    tmp ← fetch addr1 addr2 invert start
    find_loop (nbits / bits_per_long + 1) (round_down start bits_per_long)
        (bit_and tmp (bitmap_first_word_mask start))

pub find_next_bit : List ℕ → (size offset : ℕ) → Run ℕ
unfolding find_next
find_next_bit addr size offset = find_next addr none size 0 offset

pub find_next_zero_bit : List ℕ → (size offset : ℕ) → Run ℕ
unfolding find_next
find_next_zero_bit addr size offset = find_next addr none size (complement 0) offset

pub set_bit : List ℕ → ℕ → Run (List ℕ)
unfolding load store
set_bit addr nr = do
  word ← load addr (nr / bits_per_long)
  store addr (nr / bits_per_long) (bit_or word (bit_mask nr))

pub clear_bit : List ℕ → ℕ → Run (List ℕ)
unfolding load store
clear_bit addr nr = do
  word ← load addr (nr / bits_per_long)
  store addr (nr / bits_per_long) (bit_and word (complement (bit_mask nr)))

-- `(old & mask) != 0` as an `int`.
pub was_set : (old mask : ℕ) → ℕ
was_set old mask = if bit_and old mask == 0 then 0 else 1

pub test_and_set_bit : List ℕ → ℕ → Run (List ℕ × ℕ)
unfolding load store was_set
test_and_set_bit addr nr = do
  let mask = bit_mask nr
  old ← load addr (bit_word nr)
  after ← store addr (bit_word nr) (bit_or old mask)
  ok (after, was_set old mask)

pub test_and_clear_bit : List ℕ → ℕ → Run (List ℕ × ℕ)
unfolding load store was_set
test_and_clear_bit addr nr = do
  let mask = bit_mask nr
  old ← load addr (bit_word nr)
  after ← store addr (bit_word nr) (bit_and old (complement mask))
  ok (after, was_set old mask)

pub test_bit : List ℕ → ℕ → Run ℕ
unfolding load
test_bit addr nr = do
  word ← load addr (bit_word nr)
  ok (bit_and 1 (word / 2 ^ bit_and nr (bits_per_long - 1)))

-- `calloc` gives the words of that many bytes, all zero, or no array.
module _ (calloc : ℕ → Option (List ℕ)) where
  pub bitmap_alloc : (nbits : ℕ) → Option (List ℕ)
  bitmap_alloc nbits = calloc (bits_to_longs nbits * 8)
