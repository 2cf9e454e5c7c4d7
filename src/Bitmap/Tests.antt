-- ===== src/Bitmap/Tests.antt =====
-- Runs of the bitmap functions on small arrays, and the theorems there.
use common_project_template.Base.{
  ◌>>=◌, if◌then◌else◌, ◌==◌, ok, none, ap, subst, ◌≤◌, ◌*◌, ℕ, ◌+◌, ◌-◌, ◌/◌, ◌^◌, zero, suc, ◌≡◌,
  refl, List, [], ◌∷◌, some, Option, ok, Run, arith, length, length-replicate, get_or, replicate,
  Returns,
}
use common_project_template.Bitmap.{
  bits_to_longs, ffs, fetch, find_loop, find_next_bit, find_next_zero_bit, set_bit, clear_bit,
  test_and_set_bit, test_and_clear_bit, test_bit, bitmap_alloc,
}
use common_project_template.Bitmap.Words.{
  bit_at, AreWords, Changed, set_clear_bit-Changed, test_and_change_bit-Changed, test_bit-bit_at,
}
use common_project_template.Bitmap.Undo.{test_and_change-undo}
use common_project_template.Bitmap.Ffs.{IsLowest, ffs-IsLowest}
use common_project_template.Bitmap.Find.{
  find_next_bit-IsNext, find_next_zero_bit-IsNext, IsCalloc, alloc-empty,
}
use common_project_template.Bitmap.Search.{IsBitmap, IsNext}

-- The bits 0, 2 and 191 of 192.
abbrev sample : List ℕ
sample = 5 ∷ 0 ∷ 2 ^ 63 ∷ []

found : find_next_bit sample 192 3 ≡ ok 191
unfolding find_next_bit fetch find_loop ffs
found = refl

found_zero : find_next_zero_bit sample 192 0 ≡ ok 1
unfolding find_next_zero_bit fetch find_loop ffs
found_zero = refl

cleared : clear_bit sample 2 ≡ ok (1 ∷ 0 ∷ 2 ^ 63 ∷ [])
unfolding clear_bit
cleared = refl

outside : set_bit sample 192 ≡ Run.fault
unfolding set_bit
outside = refl

-- The number of words of nearly 2 ^ 64 bits wraps.
wrapped : bits_to_longs (2 ^ 64 - 1) ≡ 0
wrapped = refl

sample-AreWords : AreWords sample
sample-AreWords zero = omega arith
sample-AreWords (suc zero) = omega arith
sample-AreWords (suc (suc zero)) = omega arith
sample-AreWords (suc (suc (suc w))) = omega arith

sample-IsBitmap : IsBitmap sample 192
sample-IsBitmap = record { words = sample-AreWords; room = omega arith }

ffs-IsLowest_example : IsLowest 40 (ffs 40)
ffs-IsLowest_example = ffs-IsLowest 40 (omega arith) (omega arith)

set_clear_bit-Changed_example :
    Returns (Changed sample 70 1) (set_bit sample 70)
    × Returns (Changed sample 70 0) (clear_bit sample 70)
set_clear_bit-Changed_example = set_clear_bit-Changed sample 70 sample-AreWords (omega arith)

test_and_change_bit-Changed_example :
    Returns (λ r. Changed sample 70 1 r.0 × (r.1 ≡ bit_at sample 70)) (test_and_set_bit sample 70)
    × Returns
        (λ r. Changed sample 70 0 r.0 × (r.1 ≡ bit_at sample 70))
        (test_and_clear_bit sample 70)
test_and_change_bit-Changed_example =
    test_and_change_bit-Changed sample 70 sample-AreWords (omega arith)

test_and_change-undo_example :
    Returns
      (λ after. after ≡ sample)
      (test_and_set_bit sample 70 >>= λ r. if r.1 == 0 then clear_bit r.0 70 else ok r.0)
    × Returns
        (λ after. after ≡ sample)
        (test_and_clear_bit sample 70 >>= λ r. if r.1 == 0 then ok r.0 else set_bit r.0 70)
test_and_change-undo_example = test_and_change-undo sample 70 sample-AreWords (omega arith)

test_bit-bit_at_example : test_bit sample 191 ≡ ok (bit_at sample 191)
test_bit-bit_at_example = test_bit-bit_at sample 191 sample-AreWords (omega arith)

find_next_bit-IsNext_example : Returns (IsNext (bit_at sample) 3 192) (find_next_bit sample 192 3)
find_next_bit-IsNext_example = find_next_bit-IsNext sample 192 3 sample-IsBitmap (omega arith)

find_next_zero_bit-IsNext_example :
    Returns (IsNext (λ i. 1 - bit_at sample i) 0 192) (find_next_zero_bit sample 192 0)
find_next_zero_bit-IsNext_example =
    find_next_zero_bit-IsNext sample 192 0 sample-IsBitmap (omega arith)

-- An allocator with memory for everything.
abbrev ample : ℕ → Option (List ℕ)
ample bytes = some (replicate ((bytes + 7) / 8) 0)

zeros : (n w : ℕ) → get_or (replicate n (zero)) w zero ≡ zero
zeros zero w = refl
zeros (suc n) zero = refl
zeros (suc n) (suc w) = zeros n w

ample-inv :
    (bytes : ℕ) (addr : List ℕ) → ample bytes ≡ some addr → replicate ((bytes + 7) / 8) 0 ≡ addr
ample-inv bytes addr e = ap (λ (o : Option (List ℕ)). elim o [ none ↦ [] | some a ↦ a ]) e

ample-IsCalloc : IsCalloc ample
ample-IsCalloc = record {
  room = λ bytes addr e.
      subst (λ a. bytes ≤ 8 * length a) (ample-inv bytes addr e)
        (omega (arith, length-replicate {A = ℕ} ((bytes + 7) / 8) 0));
  zeros = λ bytes addr e w.
      subst (λ a. get_or a w 0 ≡ 0) (ample-inv bytes addr e) (zeros ((bytes + 7) / 8) w);
}

alloc-empty_example :
    IsBitmap (replicate 2 0) 100 × Returns (λ r. r ≡ 100) (find_next_bit (replicate 2 0) 100 7)
unfolding bitmap_alloc
alloc-empty_example = alloc-empty ample 100 7 (replicate 2 0) ample-IsCalloc (omega arith) refl
