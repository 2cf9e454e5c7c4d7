-- ===== src/ListHead/Queries.antt =====
-- The queries of lib/list/list.c on circular lists.
use common_project_template.Base.{
  ◌≡◌, true, false, Bool, List, [], ◌∷◌, ◌++◌, ◌==◌, arith, ok, has-append,
}
use common_project_template.ListHead.{Ptr, Heap, list_is_first, list_is_last, list_empty}
use common_project_template.ListHead.Cells.{Mapped-of_next, Mapped-of_prev, load-ok}
use common_project_template.ListHead.Ring.{
  ◌∉◌, IsRing, last_from, first_to, last_from-mem, ne_of_mem,
}
use common_project_template.ListHead.Update.{Chain-middle, Chain-behind}

abbrev pub is_nil : List Ptr → Bool
is_nil [] = true
is_nil (x ∷ xs) = false

first_to-eq : (head : Ptr) (xs : List Ptr) → head ∉ xs → (first_to xs head == head) ≡ is_nil xs
first_to-eq head [] o = ground arith
first_to-eq head (x ∷ xs) o = ground arith

last_from-eq : (head : Ptr) (xs : List Ptr) → head ∉ xs → (last_from head xs == head) ≡ is_nil xs
last_from-eq head [] o = ground arith
last_from-eq head (x ∷ xs) o =
    ground (arith, ne_of_mem (last_from x xs) head (x ∷ xs) (last_from-mem x xs) o)

module _ (h : Heap) (head : Ptr) where
  -- `list_empty` says whether the list has no entries, and writes nothing.
  pub list_empty-is_nil : (xs : List Ptr) → IsRing h head xs → list_empty head h ≡ ok (is_nil xs, h)
  unfolding list_empty
  list_empty-is_nil xs ring =
      let link = Chain-middle h head [] xs head ring.chain in
      let (c, at) = Mapped-of_next h head link.0 in
      let e : (c.next == head) ≡ is_nil xs = ground (arith, first_to-eq head xs ring.apart) in
      rw (load-ok h head at, e)

  list_is_first-is_nil :
      (x : Ptr) (xs ys : List Ptr)
      → IsRing h head (xs ++ x ∷ ys)
      → list_is_first x head h ≡ ok (is_nil xs, h)
  unfolding list_is_first
  list_is_first-is_nil x xs ys ring =
      let link = Chain-middle h head xs (x ∷ ys) head ring.chain in
      let (c, at) = Mapped-of_prev h x link.1 in
      let e : (c.prev == head) ≡ is_nil xs =
        ground (arith, last_from-eq head xs (ground (arith, has-append head xs (x ∷ ys)))) in
      rw (load-ok h x at, e)

  list_is_last-is_nil :
      (x : Ptr) (xs ys : List Ptr)
      → IsRing h head (xs ++ x ∷ ys)
      → list_is_last x head h ≡ ok (is_nil ys, h)
  unfolding list_is_last
  list_is_last-is_nil x xs ys ring =
      let link = Chain-behind h head x xs ys head ring.chain in
      let (c, at) = Mapped-of_next h x link.0 in
      let e : (c.next == head) ≡ is_nil ys =
        ground (arith, first_to-eq head ys (ground (arith, has-append head xs (x ∷ ys)))) in
      rw (load-ok h x at, e)

  -- For an entry of a list, `list_is_first` says whether no entry stands before it, and `list_is_last`
  -- whether none stands behind it, and they write nothing.
  pub is_first_last-is_nil :
      (x : Ptr) (xs ys : List Ptr)
      → IsRing h head (xs ++ x ∷ ys)
      → (list_is_first x head h ≡ ok (is_nil xs, h)) × (list_is_last x head h ≡ ok (is_nil ys, h))
  is_first_last-is_nil x xs ys ring =
      (list_is_first-is_nil x xs ys ring, list_is_last-is_nil x xs ys ring)
