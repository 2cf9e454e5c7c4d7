-- ===== src/ListHead/Update.antt =====
-- list_add, list_add_tail, list_del_init and INIT_LIST_HEAD on circular lists.
use mathlib.Core.List.{append-nil}
use common_project_template.Base.{
  ◌≡◌, ◌≢◌, List, [], ◌∷◌, ◌++◌, arith, has-append, Returns, Returns-map, refl, sym,
}
use common_project_template.ListHead.{
  Ptr, Heap, init_list_head, splice, list_add, list_add_tail, list_del_init,
}
use common_project_template.ListHead.Cells.{
  Mapped, Mapped-of_next, Mapped-of_prev, Link, load-ok, init-Mapped, splice-Spliced,
  list_del_init-Unlinked,
}
use common_project_template.ListHead.Ring.{
  ◌∈◌, ◌∉◌, Distinct, Chain, IsRing, last_from, first_to, last_from-mem, first_to-mem, Chain-frame,
  Chain-splice, Chain-unlink, ne_of_mem,
}

-- `g` differs from `h` at most at the cells of `xs`.
abbrev pub SameOutside : List Ptr → Heap → Heap → Type 0
SameOutside xs h g = (a : Ptr) → a ∉ xs → g a ≡ h a

-- The two neighbours at a place of a chain.
pub Chain-middle :
    (h : Heap) (s : Ptr) (xs ys : List Ptr) (e : Ptr)
    → Chain h s (xs ++ ys) e
    → Link h (last_from s xs) (first_to ys e)
Chain-middle h s [] [] e c = c
Chain-middle h s [] (y ∷ ys) e c = c.0
Chain-middle h s (x ∷ xs) ys e c = Chain-middle h x xs ys e c.1

pub Chain-behind :
    (h : Heap) (s x : Ptr) (xs ys : List Ptr) (e : Ptr)
    → Chain h s (xs ++ x ∷ ys) e
    → Link h x (first_to ys e)
Chain-behind h s x [] ys e c = Chain-middle h x [] ys e c.1
Chain-behind h s x (y ∷ xs) ys e c = Chain-behind h y x xs ys e c.1

Distinct-insert :
    (new : Ptr) (xs ys : List Ptr)
    → Distinct (xs ++ ys)
    → new ∉ xs ++ ys
    → Distinct (xs ++ new ∷ ys)
Distinct-insert new [] ys d o = (o, d)
Distinct-insert new (x ∷ xs) ys d o = (
  ground (arith, has-append x xs ys, has-append x xs (new ∷ ys)),
  Distinct-insert new xs ys d.1 (ground arith),
)

pub Distinct-remove :
    (x : Ptr) (xs ys : List Ptr) → Distinct (xs ++ x ∷ ys) → Distinct (xs ++ ys) × (x ∉ xs ++ ys)
Distinct-remove x [] ys d = (d.1, d.0)
Distinct-remove x (y ∷ xs) ys d =
    let (rest, out) = Distinct-remove x xs ys d.1 in
    (
      (ground (arith, has-append y xs ys, has-append y xs (x ∷ ys)), rest),
      ground (arith, has-append y xs (x ∷ ys)),
    )

not-neighbour :
    (a s : Ptr) (xs ys : List Ptr) → a ∉ s ∷ xs ++ ys → (a ≢ last_from s xs) × (a ≢ first_to ys s)
not-neighbour a s xs ys o = (
  λ e. ne_of_mem _ a (s ∷ xs) (last_from-mem s xs) (ground (arith, has-append a xs ys)) (sym e),
  λ e. ne_of_mem _ a (s ∷ ys) (first_to-mem ys s) (ground (arith, has-append a xs ys)) (sym e),
)

module _ (h : Heap) (new head : Ptr) (m : Mapped h new) where
  splice-IsRing :
      (xs ys : List Ptr)
      → IsRing h head (xs ++ ys)
      → new ∉ head ∷ xs ++ ys
      → Returns
          (λ r. IsRing r.1 head (xs ++ new ∷ ys) × SameOutside (new ∷ head ∷ xs ++ ys) h r.1)
          (splice new (last_from head xs) (first_to ys head) h)
  splice-IsRing xs ys ring out =
      let p = last_from head xs in
      let q = first_to ys head in
      let link : Link h p q = Chain-middle h head xs ys head ring.chain in
      let (np, nq) = not-neighbour new head xs ys out in
      Returns-map
        (splice-Spliced h new p q (Mapped-of_next h p link.0) (Mapped-of_prev h q link.1) m np nq)
        λ r sp. (
          record {
            chain =
                Chain-splice h r.1 new head head xs ys sp ring.chain ring.apart ring.apart
                  ring.distinct (ground arith);
            apart =
                ground (arith, has-append head xs ys, has-append head xs (new ∷ ys), ring.apart);
            distinct = Distinct-insert new xs ys ring.distinct (ground arith);
          },
          λ a o.
              let (np, nq) = not-neighbour a head xs ys (ground arith) in
              sp.others a np nq (ground arith),
        )

  -- `list_add` puts a mapped cell outside the list in front of the list's entries, and writes
  -- only cells of the list and the new one.
  pub list_add-cons :
      (xs : List Ptr)
      → IsRing h head xs
      → new ∉ head ∷ xs
      → Returns
          (λ r. IsRing r.1 head (new ∷ xs) × SameOutside (new ∷ head ∷ xs) h r.1)
          (list_add new head h)
  unfolding list_add
  list_add-cons xs ring out =
      let link = Chain-middle h head [] xs head ring.chain in
      let (c, at) = Mapped-of_next h head link.0 in
      let e : c.next ≡ first_to xs head = ground arith in
      rw (load-ok h head at, e) (splice-IsRing [] xs ring out)

  -- `list_add_tail` puts a mapped cell outside the list behind the list's entries, and writes
  -- only cells of the list and the new one.
  pub list_add_tail-append :
      (xs : List Ptr)
      → IsRing h head xs
      → new ∉ head ∷ xs
      → Returns
          (λ r. IsRing r.1 head (xs ++ new ∷ []) × SameOutside (new ∷ head ∷ xs) h r.1)
          (list_add_tail new head h)
  unfolding list_add_tail
  list_add_tail-append xs ring out =
      let whole : xs ++ [] ≡ xs = append-nil xs in
      let ring' : IsRing h head (xs ++ []) = rw whole ring in
      let link = Chain-middle h head xs [] head ring'.chain in
      let (c, at) = Mapped-of_prev h head link.1 in
      let e : c.prev ≡ last_from head xs = ground arith in
      rw (load-ok h head at, e) (rw whole at (splice-IsRing xs [] ring' (rw whole out)))

-- `list_del_init` takes an entry out of its list, leaves it as the head of an empty list, and
-- writes only cells of the list.
pub list_del_init-remove :
    (h : Heap) (e head : Ptr) (xs ys : List Ptr)
    → IsRing h head (xs ++ e ∷ ys)
    → Returns
        (λ r.
          IsRing r.1 head (xs ++ ys) × IsRing r.1 e [] × SameOutside (head ∷ xs ++ e ∷ ys) h r.1)
        (list_del_init e h)
list_del_init-remove h e head xs ys ring =
    let p = last_from head xs in
    let q = first_to ys head in
    let before : Link h p e = Chain-middle h head xs (e ∷ ys) head ring.chain in
    let after : Link h e q = Chain-behind h head e xs ys head ring.chain in
    let (rest, out) = Distinct-remove e xs ys ring.distinct in
    let split = has-append head xs (e ∷ ys) in
    Returns-map (list_del_init-Unlinked h e p q before after) λ r un. (
      record {
        chain =
            Chain-unlink h r.1 e head head xs ys un ring.chain ring.apart ring.apart ring.distinct;
        apart = ground (arith, split, has-append head xs ys, ring.apart);
        distinct = rest;
      },
      record { chain = ground (arith, un.nexts e, un.prevs e); apart = refl; distinct = tt },
      λ a o.
          let (np, nq) =
            not-neighbour a head xs ys
              (ground (arith, has-append a xs ys, has-append a xs (e ∷ ys))) in
          un.others a np nq (ground (arith, has-append a xs (e ∷ ys))),
    )

-- `INIT_LIST_HEAD` makes any cell the head of an empty list.
pub init_list_head-nil :
    (h : Heap) (e : Ptr)
    → Mapped h e
    → Returns (λ r. IsRing r.1 e [] × SameOutside (e ∷ []) h r.1) (init_list_head e h)
init_list_head-nil h e m = Returns-map (init-Mapped h e m) λ r (nexts, prevs, others). (
  record { chain = ground (arith, nexts e, prevs e); apart = refl; distinct = tt },
  λ a o. others a (ground arith),
)

-- A list that shares no cell with what changed is still the same list.
pub IsRing-frame :
    (h g : Heap) (zs : List Ptr) (head : Ptr) (xs : List Ptr)
    → SameOutside zs h g
    → ((a : Ptr) → a ∈ head ∷ xs → a ∉ zs)
    → IsRing h head xs
    → IsRing g head xs
IsRing-frame h g zs head xs same apart ring = record {
  chain =
      Chain-frame h g head xs head ring.chain (λ a m. ground (arith, same a (apart a m)))
        (λ a m. ground (arith, same a (apart a m)));
  apart = ring.apart;
  distinct = ring.distinct;
}
