-- ===== src/ListHead/Ring.antt =====
-- Circular lists: the cells that the `next` pointers lead through from a head back to it, with
-- `prev` pointers that lead back.
use common_project_template.Base.{
  ◌≡◌, ◌≢◌, true, false, List, [], ◌∷◌, ◌++◌, arith, has, has-append,
}
use common_project_template.ListHead.{Ptr, Heap}
use common_project_template.ListHead.Cells.{next?, prev?, Link, Spliced, Unlinked}

infix 40 ◌∈◌ ◌∉◌
abbrev pub ◌∈◌ : Ptr → List Ptr → Type 0
a ∈ xs = has a xs ≡ true

abbrev pub ◌∉◌ : Ptr → List Ptr → Type 0
a ∉ xs = has a xs ≡ false

abbrev pub Distinct : List Ptr → Type 0
Distinct [] = Unit
Distinct (x ∷ xs) = x ∉ xs × Distinct xs

-- From `s` the pointers lead through `xs` to `e`, and back.
abbrev pub Chain : Heap → Ptr → List Ptr → Ptr → Type 0
Chain h s [] e = Link h s e
Chain h s (x ∷ xs) e = Link h s x × Chain h x xs e

-- `head` is the head of a list of the distinct entries `xs`.
pub record IsRing (h : Heap) (head : Ptr) (xs : List Ptr) : Type 0 where
  pub chain : Chain h head xs head
  pub apart : head ∉ xs
  pub distinct : Distinct xs

-- The entry before the end of a chain, and the one behind its start.
abbrev pub last_from : Ptr → List Ptr → Ptr
last_from s [] = s
last_from s (x ∷ xs) = last_from x xs

abbrev pub first_to : List Ptr → Ptr → Ptr
first_to [] e = e
first_to (y ∷ ys) e = y

pub last_from-mem : (x : Ptr) (xs : List Ptr) → last_from x xs ∈ x ∷ xs
last_from-mem x [] = ground arith
last_from-mem x (y ∷ ys) = ground (arith, last_from-mem y ys)

pub first_to-mem : (ys : List Ptr) (e : Ptr) → first_to ys e ∈ e ∷ ys
first_to-mem [] e = ground arith
first_to-mem (y ∷ ys) e = ground arith

pub ne_of_mem : (a b : Ptr) (xs : List Ptr) → a ∈ xs → b ∉ xs → a ≢ b
ne_of_mem a b xs m o e = let m' : b ∈ xs = rw e at m in cc

first_to-ne : (a : Ptr) (ys : List Ptr) (e : Ptr) → a ≢ e → a ∉ ys → a ≢ first_to ys e
first_to-ne a [] e ne o = ne
first_to-ne a (y ∷ ys) e ne o = ground arith

pub not_mem-left : (a : Ptr) (xs ys : List Ptr) → a ∉ xs ++ ys → a ∉ xs
not_mem-left a xs ys o = ground (arith, has-append a xs ys)

pub not_mem-right : (a : Ptr) (xs ys : List Ptr) → a ∉ xs ++ ys → a ∉ ys
not_mem-right a xs ys o = ground (arith, has-append a xs ys)

-- A chain survives a change that spares its pointers.
pub Chain-frame :
    (h g : Heap) (s : Ptr) (xs : List Ptr) (e : Ptr)
    → Chain h s xs e
    → ((a : Ptr) → a ∈ s ∷ xs → next? g a ≡ next? h a)
    → ((a : Ptr) → a ∈ e ∷ xs → prev? g a ≡ prev? h a)
    → Chain g s xs e
Chain-frame h g s [] e c n p = ground (arith, n s, p e)
Chain-frame h g s (x ∷ xs) e (l, c) n p = (
  ground (arith, n s, p x),
  Chain-frame h g x xs e c (λ a m. n a (ground arith)) (λ a m. p a (ground arith)),
)

module _ (h g : Heap) (new e : Ptr) where
  Chain-splice_first :
      (s : Ptr) (ys : List Ptr)
      → Spliced h new s (first_to ys e) g
      → Chain h s ys e
      → s ∉ ys
      → e ∉ ys
      → Distinct ys
      → new ∉ s ∷ e ∷ ys
      → Chain g s (new ∷ ys) e
  Chain-splice_first s [] sp c s_out e_out d n_out =
      ground (arith, sp.nexts s, sp.nexts new, sp.prevs new, sp.prevs e)
  Chain-splice_first s (y ∷ ys) sp (l, c) s_out e_out d n_out = (
    ground (arith, sp.nexts s, sp.prevs new),
    (
      ground (arith, sp.nexts new, sp.prevs y),
      Chain-frame h g y ys e c (λ a m. ground (arith, sp.nexts a))
          (λ a m. ground (arith, sp.prevs a)),
    ),
  )

  -- A new entry between two neighbours.
  pub Chain-splice :
      (s : Ptr) (xs ys : List Ptr)
      → Spliced h new (last_from s xs) (first_to ys e) g
      → Chain h s (xs ++ ys) e
      → s ∉ xs ++ ys
      → e ∉ xs ++ ys
      → Distinct (xs ++ ys)
      → new ∉ s ∷ e ∷ xs ++ ys
      → Chain g s (xs ++ new ∷ ys) e
  Chain-splice s [] ys sp c s_out e_out d n_out = Chain-splice_first s ys sp c s_out e_out d n_out
  Chain-splice s (x ∷ xs) ys sp (l, c) s_out e_out d n_out = (
    ground (
      arith,
      sp.nexts s,
      sp.prevs x,
      ne_of_mem (last_from x xs) s (x ∷ xs) (last_from-mem x xs) (not_mem-left s (x ∷ xs) ys s_out),
      first_to-ne x ys e (ground arith) (not_mem-right x xs ys d.0),
    ),
    Chain-splice x xs ys sp c d.0 (ground arith) d.1 (ground arith),
  )

module _ (h g : Heap) (x e : Ptr) where
  Chain-unlink_first :
      (s : Ptr) (ys : List Ptr)
      → Unlinked h x s (first_to ys e) g
      → Chain h s (x ∷ ys) e
      → s ∉ x ∷ ys
      → e ∉ x ∷ ys
      → Distinct (x ∷ ys)
      → Chain g s ys e
  Chain-unlink_first s [] un c s_out e_out d = ground (arith, un.nexts s, un.prevs e)
  Chain-unlink_first s (y ∷ ys) un (l, (m, c)) s_out e_out d = (
    ground (arith, un.nexts s, un.prevs y),
    Chain-frame h g y ys e c (λ a i. ground (arith, un.nexts a))
        (λ a i. ground (arith, un.prevs a)),
  )

  -- An entry less between two neighbours.
  pub Chain-unlink :
      (s : Ptr) (xs ys : List Ptr)
      → Unlinked h x (last_from s xs) (first_to ys e) g
      → Chain h s (xs ++ x ∷ ys) e
      → s ∉ xs ++ x ∷ ys
      → e ∉ xs ++ x ∷ ys
      → Distinct (xs ++ x ∷ ys)
      → Chain g s (xs ++ ys) e
  Chain-unlink s [] ys un c s_out e_out d = Chain-unlink_first s ys un c s_out e_out d
  Chain-unlink s (y ∷ xs) ys un (l, c) s_out e_out d = (
    ground (
      arith,
      un.nexts s,
      un.prevs y,
      has-append s (y ∷ xs) (x ∷ ys),
      has-append y xs (x ∷ ys),
      ne_of_mem (last_from y xs) s (y ∷ xs) (last_from-mem y xs)
          (not_mem-left s (y ∷ xs) (x ∷ ys) s_out),
      first_to-ne y ys e (ground arith) (ground (arith, has-append y xs (x ∷ ys))),
    ),
    Chain-unlink y xs ys un c d.0 (ground arith) d.1,
  )
