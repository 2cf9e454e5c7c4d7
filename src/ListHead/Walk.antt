-- ===== src/ListHead/Walk.antt =====
-- The iteration macros of lib/list/list.h on circular lists, forwards and backwards.
use mathlib.Core.List.{foldl, append_assoc, reverse-append, reverse-cons}
use common_project_template.Base.{
  ℕ, zero, suc, ◌<◌, ◌≡◌, false, Option, none, some, List, [], ◌∷◌, ◌++◌, ◌==◌, arith, refl, ok,
  ==_refl, length, reverse, has-append, ◌∙◌, has,
}
use common_project_template.ListHead.{
  Ptr, ListHead, Heap, Cmd, Cursor, forward, backward, beside, for_each, for_each_loop,
}
use common_project_template.ListHead.Cells.{load-ok}
use common_project_template.ListHead.Ring.{◌∈◌, IsRing, last_from, first_to}
use common_project_template.ListHead.Update.{Chain-middle}

abbrev pub at? : (ListHead → Ptr) → Heap → Ptr → Option Ptr
at? way h p = elim (h p) [ none ↦ none | some c ↦ some (way c) ]

-- The order in which a macro that goes by `way` meets the entries: as they stand, or from the end.
pub record IsDirection (way : ListHead → Ptr) (order : List Ptr → List Ptr) : Type 0 where
  pub leads :
      (h : Heap) (head : Ptr) (xs ys : List Ptr)
      → IsRing h head (order (xs ++ ys))
      → at? way h (last_from head xs) ≡ some (first_to ys head)
  pub keeps : (a : Ptr) (xs : List Ptr) → has a (order xs) ≡ has a xs
  pub splits :
      (x : Ptr) (xs ys : List Ptr)
      → (before after : List Ptr) × (order (xs ++ x ∷ ys) ≡ before ++ x ∷ after)
        × (order (xs ++ ys) ≡ before ++ after)

pub forward-IsDirection : IsDirection forward (λ xs. xs)
forward-IsDirection = record {
  leads = λ h head xs ys ring. (Chain-middle h head xs ys head ring.chain).0;
  keeps = λ a xs. refl;
  splits = λ x xs ys. (xs, ys, refl, refl);
}

last_from-append : (s x : Ptr) (xs : List Ptr) → last_from s (xs ++ x ∷ []) ≡ x
last_from-append s x [] = refl
last_from-append s x (y ∷ xs) = last_from-append y x xs

first_to-append : (xs : List Ptr) (x e : Ptr) → first_to (xs ++ x ∷ []) e ≡ first_to xs x
first_to-append [] x e = refl
first_to-append (y ∷ xs) x e = refl

last_from-reverse : (s : Ptr) (ys : List Ptr) → last_from s (reverse ys) ≡ first_to ys s
last_from-reverse s [] = refl
last_from-reverse s (y ∷ ys) = rw reverse-cons (last_from-append s y (reverse ys))

first_to-reverse : (xs : List Ptr) (e : Ptr) → first_to (reverse xs) e ≡ last_from e xs
first_to-reverse [] e = refl
first_to-reverse (x ∷ xs) e =
    rw reverse-cons (first_to-append (reverse xs) x e ∙ first_to-reverse xs x)

pub has-reverse : (a : Ptr) (xs : List Ptr) → has a (reverse xs) ≡ has a xs
has-reverse a [] = refl
has-reverse a (x ∷ xs) =
    rw reverse-cons (ground (arith, has-append a (reverse xs) (x ∷ []), has-reverse a xs))

pub backward-IsDirection : IsDirection backward reverse
backward-IsDirection = record {
  leads = λ h head xs ys ring.
      let link =
        Chain-middle h head (reverse ys) (reverse xs) head
          (rw (← reverse-append xs ys) ring.chain) in
      let e : at? backward h (first_to (reverse xs) head) ≡ some (last_from head (reverse ys)) =
        link.1 in
      rw (last_from-reverse head ys, first_to-reverse xs head) at e;
  keeps = has-reverse;
  splits = λ x xs ys. (
    reverse ys,
    reverse xs,
    rw (reverse-append, reverse-cons) (append_assoc (reverse ys) (x ∷ []) (reverse xs)),
    reverse-append xs ys,
  );
}

-- The cursor's two maps are inverse at the cells of a list and at its head.
abbrev pub Names : Cursor → Ptr → List Ptr → Type 0
Names cur head xs = (a : Ptr) → a ∈ head ∷ xs → cur.cell_of (cur.of_cell a) ≡ a

at?-cell :
    (way : ListHead → Ptr) (h : Heap) (p q : Ptr)
    → at? way h p ≡ some q
    → (c : ListHead) × (h p ≡ some c) × (way c ≡ q)
at?-cell way h p q e = ground arith

pub beside-ok :
    (way : ListHead → Ptr) (cur : Cursor) (h : Heap) (p q : Ptr)
    → at? way h p ≡ some q
    → beside way cur p h ≡ ok (cur.of_cell q, h)
unfolding beside
beside-ok way cur h p q e =
    let (c, there, leads) = at?-cell way h p q e in rw (load-ok h p there, leads)

module _ (way : ListHead → Ptr) (order : List Ptr → List Ptr) (dir : IsDirection way order)
    (head : Ptr) where
  -- The entry that the macro meets behind `x`.
  pub leads_on :
      (h : Heap) (done : List Ptr) (x : Ptr) (xs : List Ptr)
      → IsRing h head (order (done ++ x ∷ xs))
      → at? way h x ≡ some (first_to xs head)
  leads_on h done x xs ring =
      let regroup : (done ++ x ∷ []) ++ xs ≡ done ++ x ∷ xs = append_assoc done (x ∷ []) xs in
      let e = dir.leads h head (done ++ x ∷ []) xs (rw regroup ring) in
      rw (last_from-append head x done) at e

  pub entry-ne_head :
      (h : Heap) (done : List Ptr) (x : Ptr) (xs : List Ptr)
      → IsRing h head (order (done ++ x ∷ xs))
      → (x == head) ≡ false
  entry-ne_head h done x xs ring =
      ground (arith, dir.keeps head (done ++ x ∷ xs), has-append head done (x ∷ xs), ring.apart)

module _ {S : Type 0} (way : ListHead → Ptr) (order : List Ptr → List Ptr)
    (dir : IsDirection way order) (cur : Cursor) (head : Ptr) (h : Heap) (body : Ptr → S → Cmd S)
    (f : Ptr → S → S) where
  -- At the cells of the list the body ends, writes nothing, and does to its state what `f` does.
  abbrev pub Reads : List Ptr → Type 0
  Reads xs = (a : Ptr) (s : S) → a ∈ xs → body (cur.of_cell a) s h ≡ ok (f a s, h)

  for_each_loop-foldl :
      (k : ℕ) (done xs : List Ptr) (s : S)
      → IsRing h head (order (done ++ xs))
      → Names cur head (done ++ xs)
      → Reads xs
      → length xs < k
      → for_each_loop way cur head body k (cur.of_cell (first_to xs head)) s h
        ≡ ok (foldl (λ t a. f a t) s xs, h)
  unfolding for_each_loop
  for_each_loop-foldl zero done xs s ring names reads fuel = absurd (omega arith)
  for_each_loop-foldl (suc k) done [] s ring names reads fuel =
      rw (names head (ground arith), ==_refl head)
  for_each_loop-foldl (suc k) done (x ∷ xs) s ring names reads fuel =
      let regroup : (done ++ x ∷ []) ++ xs ≡ done ++ x ∷ xs = append_assoc done (x ∷ []) xs in
      rw
        (
          names x (ground (arith, has-append x done (x ∷ xs))),
          entry-ne_head way order dir head h done x xs ring,
          reads x s (ground arith),
          beside-ok way cur h x (first_to xs head) (leads_on way order dir head h done x xs ring),
        )
        (for_each_loop-foldl k (done ++ x ∷ []) xs (f x s) (rw regroup ring) (rw regroup names)
          (λ a t m. reads a t (ground arith)) (omega arith))

  pub for_each-foldl :
      (k : ℕ) (xs : List Ptr) (s : S)
      → IsRing h head (order xs)
      → Names cur head xs
      → Reads xs
      → length xs < k
      → for_each way cur head body k s h ≡ ok (foldl (λ t a. f a t) s xs, h)
  unfolding for_each
  for_each-foldl k xs s ring names reads fuel =
      rw (beside-ok way cur h head (first_to xs head) (dir.leads h head [] xs ring))
        (for_each_loop-foldl k [] xs s ring names reads fuel)
