-- ===== src/Rbtree/Iterate/Ends.antt =====
-- rb_first, rb_last, rb_next and rb_prev, in terms of the list of the nodes in order.
use mathlib.Core.List.{append_assoc, reverse-append, reverse-cons}
pub use common_project_template.Base.{times, times-append}
use common_project_template.Base.{
  ℕ, ◌≤◌, ◌≡◌, refl, List, [], ◌∷◌, ◌++◌, reverse, ◌==◌, arith, ok, ap, ◌∙◌, sym, subst, length,
  length-append,
}
use common_project_template.Rbtree.{Ptr, Side, left, right, other, State}
use common_project_template.Rbtree.Tree.{
  Tree, leaf, node, Place, top, under, plug, inorder, before, behind, count, one_if, one_if_self,
  size, depth, depth-plug, inorder-plug,
}
use common_project_template.Rbtree.Rep.{IsTree}
use common_project_template.Rbtree.Iterate.{rb_end, rb_first, rb_last, rb_next, rb_prev}
use common_project_template.Rbtree.Iterate.Walk.{first_of, walk, ahead, nonzero, descend-first}
use common_project_template.Rbtree.Iterate.Steps.{Located, locate, around, rb_step-around}

walk-right : (t : Tree) → walk right t ≡ inorder t
walk-right leaf = refl
walk-right (node l a c r) =
    ap (λ xs. xs ++ (a ∷ walk right r)) (walk-right l)
    ∙ ap (λ xs. inorder l ++ (a ∷ xs)) (walk-right r)

walk-left : (t : Tree) → walk left t ≡ reverse (inorder t)
walk-left leaf = refl
walk-left (node l a c r) =
    simp (walk-left l, walk-left r, reverse-append, reverse-cons, append_assoc)

ahead-right : (place : Place) → ahead right place ≡ behind place
ahead-right top = refl
ahead-right (under left a c beside up) = simp (walk-right, ahead-right up)
ahead-right (under right a c beside up) = ahead-right up

ahead-left : (place : Place) → ahead left place ≡ reverse (before place)
ahead-left top = refl
ahead-left (under left a c beside up) = ahead-left up
ahead-left (under right a c beside up) =
    simp (walk-left, ahead-left up, reverse-append, append_assoc)

pub times-inorder : (p : Ptr) (t : Tree) → times p (inorder t) ≡ count p t
times-inorder p leaf = refl
times-inorder p (node l a c r) =
    omega (arith, times-append p (inorder l) (a ∷ inorder r), times-inorder p l, times-inorder p r)

pub length-inorder : (t : Tree) → length (inorder t) ≡ size t
length-inorder leaf = refl
length-inorder (node l a c r) =
    omega (arith, length-append (inorder l) (a ∷ inorder r), length-inorder l, length-inorder r)

head_or : Ptr → List Ptr → Ptr
head_or d [] = d
head_or d (x ∷ xs) = x

tail : List Ptr → List Ptr
tail [] = []
tail (x ∷ xs) = xs

-- Around an element that occurs once, a list has one part before it and one behind it.
pub split_unique :
    (p : Ptr) (xs ys us vs : List Ptr)
    → xs ++ (p ∷ ys) ≡ us ++ (p ∷ vs)
    → times p (xs ++ (p ∷ ys)) ≤ 1
    → (xs ≡ us) × (ys ≡ vs)
unfolding head_or tail
split_unique p [] ys [] vs e once = (refl, ap tail e)
split_unique p [] ys (u ∷ us) vs e once =
    let twice : times p ys ≡ times p (us ++ (p ∷ vs)) = ap (λ zs. times p (tail zs)) e in
    absurd (omega (arith, one_if_self p, times-append p us (p ∷ vs)))
split_unique p (x ∷ xs) ys [] vs e once =
    let same : x ≡ p = ap (head_or 0) e in
    let self : one_if (p == x) ≡ 1 = rw same (one_if_self p) in
    absurd (omega (arith, one_if_self p, times-append p xs (p ∷ ys)))
split_unique p (x ∷ xs) ys (u ∷ us) vs e once =
    let (before, behind) = split_unique p xs ys us vs (ap tail e) (omega arith) in
    (λ i. ap (head_or 0) e i ∷ before i, behind)

-- The two parts of the order of a tree around one of its nodes.
pub parts :
    (st : State) (place : Place) (l : Tree) (a : Ptr) (c : ℕ) (r : Tree) (xs ys : List Ptr)
    → IsTree st (plug place (node l a c r))
    → inorder (plug place (node l a c r)) ≡ xs ++ (a ∷ ys)
    → (before place ++ inorder l ≡ xs) × (inorder r ++ behind place ≡ ys)
parts st place l a c r xs ys tree e =
    let split : (before place ++ inorder l) ++ (a ∷ (inorder r ++ behind place))
        ≡ inorder (plug place (node l a c r)) =
      simp (inorder-plug, append_assoc) in
    split_unique a (before place ++ inorder l) (inorder r ++ behind place) xs ys (split ∙ e)
      (rw (split, times-inorder) (tree.once a))

module _ (st : State) (t : Tree) (tree : IsTree st t) (fuel : ℕ) where
  pub located : (a : Ptr) (xs ys : List Ptr) → inorder t ≡ xs ++ (a ∷ ys) → Located a t
  unfolding plug
  located a xs ys e = locate a t top (
      omega (
        arith,
        sym (times-inorder a t) ∙ ap (times a) e,
        times-append a xs (a ∷ ys),
        one_if_self a,
      ))

  rb_next-first :
      (a : Ptr) (xs ys : List Ptr)
      → inorder t ≡ xs ++ (a ∷ ys)
      → depth t ≤ fuel
      → rb_next fuel a st ≡ ok (first_of ys, st)
  unfolding rb_next
  rb_next-first a xs ys e enough =
      let at = located a xs ys e in
      let here = subst (IsTree st) (sym at.is) tree in
      let order = parts st at.place at.near a at.color at.far xs ys here (ap inorder at.is ∙ e) in
      let depths = depth-plug at.place (node at.near a at.color at.far) in
      let same = ap depth at.is in
      let rest : walk right at.far ++ ahead right at.place ≡ ys =
        simp (walk-right, ahead-right, order.1) in
      rb_step-around right st at.place at.near a at.color at.far fuel (around st _ _ _ _ _ here)
        (omega arith)
      ∙ ap (λ zs. ok (first_of zs, st)) rest

  rb_prev-first :
      (a : Ptr) (xs ys : List Ptr)
      → inorder t ≡ xs ++ (a ∷ ys)
      → depth t ≤ fuel
      → rb_prev fuel a st ≡ ok (first_of (reverse xs), st)
  unfolding rb_prev
  rb_prev-first a xs ys e enough =
      let at = located a xs ys e in
      let here = subst (IsTree st) (sym at.is) tree in
      let order = parts st at.place at.near a at.color at.far xs ys here (ap inorder at.is ∙ e) in
      let depths = depth-plug at.place (node at.near a at.color at.far) in
      let same = ap depth at.is in
      let rest : walk left at.near ++ ahead left at.place
          ≡ reverse (before at.place ++ inorder at.near) =
        simp (walk-left, ahead-left, reverse-append) in
      rb_step-around left st at.place at.near a at.color at.far fuel (around st _ _ _ _ _ here)
        (omega arith)
      ∙ ap (λ zs. ok (first_of zs, st)) (rest ∙ ap reverse order.0)

-- In a store that holds a tree with its nodes in the order `xs`, `a`, `ys`, rb_next of `a` ends
-- and gives the first of `ys`, and rb_prev the last of `xs`, or NULL if there is none, and they
-- write nothing.
pub rb_steps-first :
    (st : State) (t : Tree) (fuel : ℕ) (a : Ptr) (xs ys : List Ptr)
    → IsTree st t
    → inorder t ≡ xs ++ (a ∷ ys)
    → depth t ≤ fuel
    → (rb_next fuel a st ≡ ok (first_of ys, st))
      × (rb_prev fuel a st ≡ ok (first_of (reverse xs), st))
rb_steps-first st t fuel a xs ys tree e enough =
    (rb_next-first st t tree fuel a xs ys e enough, rb_prev-first st t tree fuel a xs ys e enough)

rb_end-first :
    (s : Side) (st : State) (t : Tree) (fuel : ℕ)
    → IsTree st t
    → depth t ≤ fuel
    → rb_end (other s) fuel st ≡ ok (first_of (walk s t), st)
unfolding rb_end
rb_end-first s st leaf fuel tree enough = simp tree.root
rb_end-first s st (node l a c r) fuel tree enough =
    let here = tree.nodes.0 in
    simp (tree.root, nonzero a here.positive) (descend-first st s l a c r 0 fuel tree.nodes enough)

-- In a store that holds a tree, rb_first ends and gives its first node in order, rb_last its last one, or
-- NULL if it is empty, and they write nothing.
pub rb_ends-first :
    (st : State) (t : Tree) (fuel : ℕ)
    → IsTree st t
    → depth t ≤ fuel
    → (rb_first fuel st ≡ ok (first_of (inorder t), st))
      × (rb_last fuel st ≡ ok (first_of (reverse (inorder t)), st))
unfolding rb_first rb_last
rb_ends-first st t fuel tree enough = (
  rb_end-first right st t fuel tree enough ∙ ap (λ zs. ok (first_of zs, st)) (walk-right t),
  rb_end-first left st t fuel tree enough ∙ ap (λ zs. ok (first_of zs, st)) (walk-left t),
)
