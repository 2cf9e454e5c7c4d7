-- ===== src/ListHead/Tests.antt =====
-- Runs of the list functions at a list of two entries, and the theorems there.
use common_project_template.Base.{
  ◌+◌, ◌≡◌, refl, Bool, true, false, Option, none, some, List, [], ◌∷◌, ◌++◌, ◌==◌, if◌then◌else◌,
  Run, ok, arith, reverse, Returns,
}
use common_project_template.ListHead.{
  Ptr, ListHead, Heap, Cmd, pure, ◌>>◌, beside, load, write, splice, set_next, set_prev, entry,
  list_entry, forward, backward, list_add, list_add_tail, list_del_init, list_is_first,
  list_is_last, for_each, for_each_safe,
}
use common_project_template.ListHead.Cells.{Mapped}
use common_project_template.ListHead.Ring.{IsRing}
use common_project_template.ListHead.Update.{
  SameOutside, list_add-cons, list_add_tail-append, list_del_init-remove,
}
use common_project_template.ListHead.Queries.{is_first_last-is_nil}
use common_project_template.ListHead.Prune.{pruning, Pruned}
use common_project_template.ListHead.Macros.{IsAddressed, for_each-visits, for_each_safe-prunes}

abbrev cell : Ptr → Ptr → Option ListHead
cell next prev = some (record { next = next; prev = prev })

-- The list of 16 and 32 with its head at 64; 48 is a cell on its own.
abbrev sample : Heap
sample a =
    if a == 64
    then cell 16 32
    else if a == 16
    then cell 32 64
    else if a == 32
    then cell 64 16
    else if a == 48
    then cell 48 48
    else none

sample-IsRing : IsRing sample 64 (16 ∷ 32 ∷ [])
sample-IsRing = record {
  chain = ((refl, refl), ((refl, refl), (refl, refl)));
  apart = refl;
  distinct = (refl, (refl, tt));
}

spare-Mapped : Mapped sample 48
spare-Mapped = (_, refl)

sample-IsAddressed : IsAddressed 64 (16 ∷ 32 ∷ [])
sample-IsAddressed a m = ground arith

-- The result of a run without its store.
abbrev result : {A : Type 0} → Run (A × Heap) → Run A
result (ok (a, h)) = ok a
result Run.fault = Run.fault
result Run.out_of_fuel = Run.out_of_fuel

abbrev collect : Ptr → List Ptr → Cmd (List Ptr)
collect pos out = pure (out ++ pos ∷ [])

-- Adding in front, then a walk over structs that hold their list at offset 8.
add_and_walk :
    result ((do list_add 48 64; for_each forward (entry 8) 64 collect 4 []) sample)
    ≡ ok (40 ∷ 8 ∷ 24 ∷ [])
unfolding for_each beside load write list_add splice set_next set_prev
add_and_walk = refl

-- A struct whose cell is not mapped cannot be added.
add_unmapped : list_add 80 64 sample ≡ Run.fault
unfolding list_add splice set_next set_prev load write
add_unmapped = refl

list_add-cons_example :
    Returns
      (λ r. IsRing r.1 64 (48 ∷ 16 ∷ 32 ∷ []) × SameOutside (48 ∷ 64 ∷ 16 ∷ 32 ∷ []) sample r.1)
      (list_add 48 64 sample)
list_add-cons_example = list_add-cons sample 48 64 spare-Mapped (16 ∷ 32 ∷ []) sample-IsRing refl

list_add_tail-append_example :
    Returns
      (λ r. IsRing r.1 64 (16 ∷ 32 ∷ 48 ∷ []) × SameOutside (48 ∷ 64 ∷ 16 ∷ 32 ∷ []) sample r.1)
      (list_add_tail 48 64 sample)
list_add_tail-append_example =
    list_add_tail-append sample 48 64 spare-Mapped (16 ∷ 32 ∷ []) sample-IsRing refl

list_del_init-remove_example :
    Returns
      (λ r. IsRing r.1 64 (16 ∷ []) × IsRing r.1 32 [] × SameOutside (64 ∷ 16 ∷ 32 ∷ []) sample r.1)
      (list_del_init 32 sample)
list_del_init-remove_example = list_del_init-remove sample 32 64 (16 ∷ []) [] sample-IsRing

is_first_last-is_nil_example :
    (list_is_first 16 64 sample ≡ ok (true, sample))
    × (list_is_last 16 64 sample ≡ ok (false, sample))
is_first_last-is_nil_example = is_first_last-is_nil sample 64 16 [] (32 ∷ []) sample-IsRing

-- The entries of a struct with its list at offset 8, collected.
for_each-visits_example :
    (for_each forward (entry 8) 64 (λ pos out. pure (pos ∷ out)) 3 [] sample
      ≡ ok (24 ∷ 8 ∷ [], sample))
    × (for_each backward (entry 8) 64 (λ pos out. pure (pos ∷ out)) 3 [] sample
        ≡ ok (8 ∷ 24 ∷ [], sample))
for_each-visits_example =
    for_each-visits 8 sample 64 (16 ∷ 32 ∷ []) [] (omega arith) sample-IsAddressed sample-IsRing 3
      (omega arith) (λ pos out. pure (pos ∷ out)) (λ a out. list_entry 8 a ∷ out) (λ a t m. refl)

abbrev first_only : Ptr → Bool
first_only pos = pos == 8

for_each_safe-prunes_example :
    Returns
      (Pruned (λ ys. ys) (entry 8) 64 first_only (λ pos n. n + pos) sample [] (16 ∷ 32 ∷ []) 0)
      (for_each_safe forward
        (entry 8)
        64
        (pruning (entry 8) first_only (λ pos n. n + pos))
        3
        0
        sample)
    × Returns
        (Pruned reverse (entry 8) 64 first_only (λ pos n. n + pos) sample [] (32 ∷ 16 ∷ []) 0)
        (for_each_safe backward
          (entry 8)
          64
          (pruning (entry 8) first_only (λ pos n. n + pos))
          3
          0
          sample)
for_each_safe-prunes_example =
    for_each_safe-prunes 8 sample 64 (16 ∷ 32 ∷ []) 0 (omega arith) sample-IsAddressed sample-IsRing
      3 (omega arith) first_only (λ pos n. n + pos)
