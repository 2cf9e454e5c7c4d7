-- ===== src/ListHead/Macros.antt =====
-- The entry macros of lib/list/list.h, forwards and backwards, at an offset into a struct.
use mathlib.Core.List.{foldl, reverse-reverse}
use common_project_template.Base.{
  ℕ, ◌^◌, ◌<◌, ◌≡◌, Bool, List, [], ◌∷◌, length-reverse, arith, ok, length, reverse, Returns,
}
use common_project_template.ListHead.{
  Ptr, Heap, Cmd, entry, list_entry, forward, backward, for_each, for_each_safe,
}
use common_project_template.ListHead.Ring.{◌∈◌, IsRing}
use common_project_template.ListHead.Walk.{
  Names, for_each-foldl, forward-IsDirection, backward-IsDirection, has-reverse,
}
use common_project_template.ListHead.Prune.{pruning, Pruned, for_each_safe-Pruned}

-- The addresses of a list's cells are 64 bits wide.
abbrev pub IsAddressed : Ptr → List Ptr → Type 0
IsAddressed head xs = (a : Ptr) → a ∈ head ∷ xs → a < 2 ^ 64

entry-Names :
    (offset : ℕ) (head : Ptr) (xs : List Ptr)
    → offset < 2 ^ 64
    → IsAddressed head xs
    → Names (entry offset) head xs
entry-Names offset head xs small addressed a m = omega (arith, addressed a m)

module _ {S : Type 0} (offset : ℕ) (h : Heap) (head : Ptr) (xs : List Ptr) (s : S)
    (small : offset < 2 ^ 64) (addressed : IsAddressed head xs) (ring : IsRing h head xs) (k : ℕ)
    (fuel : length xs < k) where
  reverse-IsRing : IsRing h head (reverse (reverse xs))
  reverse-IsRing = rw reverse-reverse ring

  reverse-Names : Names (entry offset) head (reverse xs)
  reverse-Names =
      entry-Names offset head (reverse xs) small
        λ a m. addressed a (ground (arith, has-reverse a xs))

  -- `list_for_each_entry` and `list_for_each_entry_reverse`, with a body that writes no cell, see
  -- the entries of a list in order and in reverse order, once each, and end, given more rounds
  -- than there are entries.
  pub for_each-visits :
      (body : Ptr → S → Cmd S) (f : Ptr → S → S)
      → ((a : Ptr) (t : S) → a ∈ xs → body (list_entry offset a) t h ≡ ok (f a t, h))
      → (for_each forward (entry offset) head body k s h ≡ ok (foldl (λ t a. f a t) s xs, h))
        × (for_each backward (entry offset) head body k s h
            ≡ ok (foldl (λ t a. f a t) s (reverse xs), h))
  for_each-visits body f reads = (
    for_each-foldl forward (λ ys. ys) forward-IsDirection (entry offset) head h body f k xs s ring
        (entry-Names offset head xs small addressed) reads fuel,
    for_each-foldl backward reverse backward-IsDirection (entry offset) head h body f k (reverse xs)
        s reverse-IsRing reverse-Names (λ a t m. reads a t (ground (arith, has-reverse a xs)))
        (omega (arith, length-reverse xs)),
  )

  -- `list_for_each_entry_safe` and `list_for_each_entry_safe_reverse`, with a body that deletes
  -- the entries that `drop` picks, see each entry once, in order and in reverse order, and end,
  -- given more rounds than there are entries.
  -- What is left is the list of the others in their order, each deleted entry is alone, and no
  -- cell outside the list has changed.
  pub for_each_safe-prunes :
      (drop : Ptr → Bool) (f : Ptr → S → S)
      → Returns
          (Pruned (λ ys. ys) (entry offset) head drop f h [] xs s)
          (for_each_safe forward (entry offset) head (pruning (entry offset) drop f) k s h)
        × Returns
            (Pruned reverse (entry offset) head drop f h [] (reverse xs) s)
            (for_each_safe backward (entry offset) head (pruning (entry offset) drop f) k s h)
  for_each_safe-prunes drop f = (
    for_each_safe-Pruned forward (λ ys. ys) forward-IsDirection (entry offset) head drop f k h xs s
        ring (entry-Names offset head xs small addressed) fuel,
    for_each_safe-Pruned backward reverse backward-IsDirection (entry offset) head drop f k h
        (reverse xs) s reverse-IsRing reverse-Names (omega (arith, length-reverse xs)),
  )
