-- ===== src/Rbtree/Iterate/Postorder.antt =====
-- The iteration in post-order, also while the nodes that it has passed are freed.
use mathlib.Core.List.{append_assoc, append-nil}
use common_project_template.Base.{
  ℕ, zero, suc, ◌+◌, ◌≤◌, ◌<◌, ◌≡◌, refl, false, List, [], ◌∷◌, ◌++◌, ◌==◌, ==_refl, arith, ok, ap,
  length, length-append, ◌∙◌, sym, subst,
}
use common_project_template.Rbtree.{Ptr, left, right, State}
use common_project_template.Rbtree.Tree.{
  Tree, leaf, node, Place, top, under, root_of, owner, count, count_place, one_if, one_if_self,
  depth, depth-left, depth-right, plug, depth-plug, size,
}
use common_project_template.Rbtree.Access.{child-ok}
use common_project_template.Rbtree.Rep.{IsNode, Rep, RepPlace, IsTree}
use common_project_template.Rbtree.Iterate.{
  rb_left_deepest_node, rb_next_postorder, rb_first_postorder,
}
use common_project_template.Rbtree.Iterate.Walk.{first_of, nonzero, rb_parent-at}
use common_project_template.Rbtree.Iterate.Steps.{locate, around}
use common_project_template.Rbtree.Iterate.Ends.{times, times-append, split_unique}

-- The nodes of a subtree, children before their parent, and those that come after a place.
abbrev pub postorder : Tree → List Ptr
postorder leaf = []
postorder (node l a c r) = postorder l ++ (postorder r ++ (a ∷ []))

abbrev pub after : Place → List Ptr
after top = []
after (under left a c beside up) = postorder beside ++ (a ∷ after up)
after (under right a c beside up) = a ∷ after up

-- What holds of the nodes that come after a place, with the subtree whose root is `hole` in it.
abbrev pub Ahead : State → (hole : Ptr) → Place → Type 0
Ahead st hole top = Unit
Ahead st hole (under left a c beside up) =
    IsNode st (owner up) a c hole (root_of beside) × Rep st a beside × Ahead st a up
Ahead st hole (under right a c beside up) =
    IsNode st (owner up) a c (root_of beside) hole × Ahead st a up

length-postorder : (t : Tree) → length (postorder t) ≡ size t
length-postorder leaf = refl
length-postorder (node l a c r) = omega (
  arith,
  length-append (postorder l) (postorder r ++ (a ∷ [])),
  length-append (postorder r) (a ∷ []),
  length-postorder l,
  length-postorder r,
)

first_of-some : (xs ys : List Ptr) → 0 < length xs → first_of (xs ++ ys) ≡ first_of xs
first_of-some [] ys h = absurd (omega arith)
first_of-some (x ∷ xs) ys h = refl

-- The first node below a node comes before those that follow.
first_of-postorder :
    (l : Tree) (a : Ptr) (c : ℕ) (r : Tree) (ys : List Ptr)
    → first_of (postorder (node l a c r) ++ ys) ≡ first_of (postorder (node l a c r))
first_of-postorder l a c r ys =
    first_of-some (postorder (node l a c r)) ys (omega (arith, length-postorder (node l a c r)))

ne_of_root : (t : Tree) (a : Ptr) → 0 < a → count a t ≡ 0 → (a == root_of t) ≡ false
ne_of_root leaf a pos out = nonzero a pos
ne_of_root (node l b c r) a pos out = ground (arith, out)

module _ (st : State) where
  pub deepest-first :
      (l : Tree) (a : Ptr) (c : ℕ) (r : Tree) (up : Ptr) (k : ℕ)
      → Rep st up (node l a c r)
      → depth (node l a c r) ≤ k
      → rb_left_deepest_node k a st ≡ ok (first_of (postorder (node l a c r)), st)
  unfolding rb_left_deepest_node
  deepest-first l a c r up zero rep h = absurd (omega arith)
  deepest-first leaf a c leaf up (suc k) (here, at_l, at_r) h =
      rw
        (
          child-ok st a here.mapped left,
          child-ok st a here.mapped right,
          here.at_left,
          here.at_right,
        )
        refl
  deepest-first leaf a c (node rl b d rr) up (suc k) (here, at_l, at_r) h =
      rw
        (
          child-ok st a here.mapped left,
          child-ok st a here.mapped right,
          here.at_left,
          here.at_right,
          nonzero b at_r.0.positive,
        )
        (deepest-first rl b d rr a k at_r (omega (arith, h, depth-right leaf a c (node rl b d rr)))
          ∙ ap (λ p. ok (p, st)) (sym (first_of-postorder rl b d rr (a ∷ []))))
  deepest-first (node ll b d lr) a c r up (suc k) (here, at_l, at_r) h =
      rw
        (
          child-ok st a here.mapped left,
          child-ok st a here.mapped right,
          here.at_left,
          nonzero b at_l.0.positive,
        )
        (deepest-first ll b d lr a k at_l (omega (arith, h, depth-left (node ll b d lr) a c r))
          ∙ ap (λ p. ok (p, st)) (sym (first_of-postorder ll b d lr (postorder r ++ (a ∷ [])))))

  -- The node after `a`, the root of a subtree that has been passed.
  pub next-after :
      (place : Place) (a : Ptr) (c : ℕ) (l r : Tree) (k : ℕ)
      → IsNode st (owner place) a c (root_of l) (root_of r)
      → Ahead st a place
      → ((p : Ptr) → one_if (p == a) + count_place p place ≤ 1)
      → depth (plug place (node l a c r)) ≤ k
      → rb_next_postorder k a st ≡ ok (first_of (after place), st)
  unfolding rb_next_postorder plug
  next-after top a c l r k here ahead once h =
      rw (nonzero a here.positive, rb_parent-at st here) refl
  next-after (under left p d leaf up) a c l r k here (over, by, ahead) once h =
      rw
        (
          nonzero a here.positive,
          rb_parent-at st here,
          nonzero p over.positive,
          child-ok st p over.mapped left,
          over.at_left,
          ==_refl a,
          child-ok st p over.mapped right,
          over.at_right,
        )
        refl
  next-after (under left p d (node bl b e br) up) a c l r k here (over, by, ahead) once h =
      rw
        (
          nonzero a here.positive,
          rb_parent-at st here,
          nonzero p over.positive,
          child-ok st p over.mapped left,
          over.at_left,
          ==_refl a,
          child-ok st p over.mapped right,
          over.at_right,
          nonzero b by.0.positive,
          first_of-postorder bl b e br (p ∷ after up),
        )
        (deepest-first bl b e br p k by (
          omega (
            arith,
            h,
            depth-plug up (node (node l a c r) p d (node bl b e br)),
            depth-right (node l a c r) p d (node bl b e br),
          )))
  next-after (under right p d beside up) a c l r k here (over, ahead) once h =
      let self = one_if_self a in
      let ne = ne_of_root beside a here.positive (omega (arith, once a)) in
      rw
        (
          nonzero a here.positive,
          rb_parent-at st here,
          nonzero p over.positive,
          child-ok st p over.mapped left,
          over.at_left,
          ne,
        )
        refl

-- In a store that holds a tree, rb_first_postorder ends and gives its first node in post-order,
-- or NULL if it is empty, and writes nothing.
pub rb_first_postorder-first :
    (st : State) (t : Tree) (fuel : ℕ)
    → IsTree st t
    → depth t ≤ fuel
    → rb_first_postorder fuel st ≡ ok (first_of (postorder t), st)
unfolding rb_first_postorder
rb_first_postorder-first st leaf fuel tree enough = simp tree.root
rb_first_postorder-first st (node l a c r) fuel tree enough =
    let here = tree.nodes.0 in
    simp (tree.root, nonzero a here.positive) (deepest-first st l a c r 0 fuel tree.nodes enough)

-- The nodes that come before a place.
abbrev prior : Place → List Ptr
prior top = []
prior (under left a c beside up) = prior up
prior (under right a c beside up) = prior up ++ postorder beside

postorder-plug :
    (up : Place) (t : Tree) → postorder (plug up t) ≡ prior up ++ (postorder t ++ after up)
unfolding plug
postorder-plug top t = sym (append-nil (postorder t))
postorder-plug (under left a c beside up) t =
    simp (postorder-plug up (node t a c beside), append_assoc)
postorder-plug (under right a c beside up) t =
    simp (postorder-plug up (node beside a c t), append_assoc)

times-postorder : (p : Ptr) (t : Tree) → times p (postorder t) ≡ count p t
times-postorder p leaf = refl
times-postorder p (node l a c r) = omega (
  arith,
  times-append p (postorder l) (postorder r ++ (a ∷ [])),
  times-append p (postorder r) (a ∷ []),
  times-postorder p l,
  times-postorder p r,
)

RepPlace-Ahead :
    (st : State) (hole : Ptr) (place : Place) → RepPlace st hole place → Ahead st hole place
RepPlace-Ahead st hole top rep = tt
RepPlace-Ahead st hole (under left a c beside up) (here, by, over) =
    (here, by, RepPlace-Ahead st a up over)
RepPlace-Ahead st hole (under right a c beside up) (here, by, over) =
    (here, RepPlace-Ahead st a up over)

-- In a store that holds a tree whose nodes in post-order, children before their parent, are `xs`,
-- `a`, `ys`, rb_next_postorder of `a` ends and gives the first of `ys`, or NULL if there is none,
-- and writes nothing.
pub rb_next_postorder-first :
    (st : State) (t : Tree) (fuel : ℕ) (a : Ptr) (xs ys : List Ptr)
    → IsTree st t
    → postorder t ≡ xs ++ (a ∷ ys)
    → depth t ≤ fuel
    → rb_next_postorder fuel a st ≡ ok (first_of ys, st)
unfolding plug
rb_next_postorder-first st t fuel a xs ys tree e enough =
    let at = locate a t top (
      omega (
        arith,
        sym (times-postorder a t) ∙ ap (times a) e,
        times-append a xs (a ∷ ys),
        one_if_self a,
      )) in
    let here = around st at.place at.near a at.color at.far (subst (IsTree st) (sym at.is) tree) in
    let split : (prior at.place ++ (postorder at.near ++ postorder at.far)) ++ (a ∷ after at.place)
        ≡ postorder (plug at.place (node at.near a at.color at.far)) =
      simp (postorder-plug, append_assoc) in
    let rest =
      split_unique a (prior at.place ++ (postorder at.near ++ postorder at.far)) (after at.place) xs
        ys (split ∙ (ap postorder at.is ∙ e)) (rw (split, at.is, times-postorder) (tree.once a)) in
    let deep = ap depth at.is in
    next-after st at.place a at.color at.near at.far fuel here.here
      (RepPlace-Ahead st a at.place here.over) here.once (omega arith)
    ∙ ap (λ zs. ok (first_of zs, st)) rest.1
