-- ===== src/Rbtree/Iterate/Walk.antt =====
-- The two loops of the iteration: down to the end of a subtree, and up to the next node.
use common_project_template.Base.{
  ℕ, zero, suc, ◌+◌, ◌≤◌, ◌<◌, ◌≡◌, refl, false, List, [], ◌∷◌, ◌++◌, ◌==◌, ==_refl, arith, ok, ap,
  ◌∙◌, sym,
}
use common_project_template.Rbtree.{Ptr, Side, left, right, other, State, parent_of, rb_parent}
use common_project_template.Rbtree.Tree.{
  Tree, leaf, node, Place, top, under, root_of, owner, count, count_place, one_if, one_if_self,
  depth, depth-left, depth-right, depth_place,
}
use common_project_template.Rbtree.Access.{child-ok, rb_parent-ok, parent_of-add}
use common_project_template.Rbtree.Rep.{IsNode, Rep, RepPlace}
use common_project_template.Rbtree.Iterate.{descend, ascend}

abbrev pub first_of : List Ptr → Ptr
first_of [] = 0
first_of (a ∷ rest) = a

-- The nodes of a subtree in order, or backwards.
abbrev pub walk : Side → Tree → List Ptr
walk s leaf = []
walk right (node l a c r) = walk right l ++ (a ∷ walk right r)
walk left (node l a c r) = walk left r ++ (a ∷ walk left l)

-- The nodes that come after a place.
abbrev pub ahead : Side → Place → List Ptr
ahead s top = []
ahead right (under left a c beside up) = a ∷ (walk right beside ++ ahead right up)
ahead right (under right a c beside up) = ahead right up
ahead left (under left a c beside up) = ahead left up
ahead left (under right a c beside up) = a ∷ (walk left beside ++ ahead left up)

first_of-append :
    (xs : List Ptr) (y : Ptr) (zs ys : List Ptr)
    → first_of ((xs ++ (y ∷ zs)) ++ ys) ≡ first_of (xs ++ (y ∷ zs))
first_of-append [] y zs ys = refl
first_of-append (x ∷ xs) y zs ys = refl

pub first_of-walk :
    (s : Side) (l : Tree) (a : Ptr) (c : ℕ) (r : Tree) (ys : List Ptr)
    → first_of (walk s (node l a c r) ++ ys) ≡ first_of (walk s (node l a c r))
first_of-walk right l a c r ys = first_of-append (walk right l) a (walk right r) ys
first_of-walk left l a c r ys = first_of-append (walk left r) a (walk left l) ys

pub nonzero : (a : Ptr) → 0 < a → (a == 0) ≡ false
nonzero a h = ground arith

module _ (st : State) where
  pub rb_parent-at : {up a l r : Ptr} {c : ℕ} → IsNode st up a c l r → rb_parent a st ≡ ok (up, st)
  rb_parent-at {up} {a} {c} here =
      rb_parent-ok st a here.mapped
      ∙ ap (λ p. ok (p, st))
          (ap parent_of here.packed ∙ parent_of-add up c here.parent_link here.bit)

  pub descend-first :
      (s : Side) (l : Tree) (a : Ptr) (c : ℕ) (r : Tree) (up : Ptr) (k : ℕ)
      → Rep st up (node l a c r)
      → depth (node l a c r) ≤ k
      → descend (other s) k a st ≡ ok (first_of (walk s (node l a c r)), st)
  unfolding descend
  descend-first s l a c r up zero rep h = absurd (omega arith)
  descend-first right leaf a c r up (suc k) (here, at_l, at_r) h =
      rw (child-ok st a here.mapped left, here.at_left) refl
  descend-first right (node ll b d lr) a c r up (suc k) (here, at_l, at_r) h =
      let below = at_l.0 in
      rw (child-ok st a here.mapped left, here.at_left, nonzero b below.positive)
        (descend-first right ll b d lr a k at_l
            (omega (arith, h, depth-left (node ll b d lr) a c r))
          ∙ ap (λ p. ok (p, st)) (sym (first_of-walk right ll b d lr (a ∷ walk right r))))
  descend-first left l a c leaf up (suc k) (here, at_l, at_r) h =
      rw (child-ok st a here.mapped right, here.at_right) refl
  descend-first left l a c (node rl b d rr) up (suc k) (here, at_l, at_r) h =
      let below = at_r.0 in
      rw (child-ok st a here.mapped right, here.at_right, nonzero b below.positive)
        (descend-first left rl b d rr a k at_r
            (omega (arith, h, depth-right l a c (node rl b d rr)))
          ∙ ap (λ p. ok (p, st)) (sym (first_of-walk left rl b d rr (a ∷ walk left l))))

  -- A node beside another place is not its child there.
  beside_ne :
      (beside : Tree) (a p : Ptr)
      → Rep st p beside
      → 0 < a
      → count a beside ≡ 0
      → (a == root_of beside) ≡ false
  beside_ne leaf a p rep pos out = nonzero a pos
  beside_ne (node l b c r) a p rep pos out = ground (arith, out)

  pub ascend-first :
      (s : Side) (place : Place) (a : Ptr) (c : ℕ) (l r : Ptr) (k : ℕ)
      → IsNode st (owner place) a c l r
      → RepPlace st a place
      → ((p : Ptr) → one_if (p == a) + count_place p place ≤ 1)
      → depth_place place < k
      → ascend s k a st ≡ ok (first_of (ahead s place), st)
  unfolding ascend
  ascend-first s place a c l r zero here over once h = absurd (omega arith)
  ascend-first s top a c l r (suc k) here over once h = rw (rb_parent-at here) refl
  ascend-first right (under left p d beside up) a c l r (suc k) here (over, by, rest) once h =
      let self = one_if_self a in
      let ne = beside_ne beside a p by here.positive (omega (arith, once a)) in
      rw
        (
          rb_parent-at here,
          nonzero p over.positive,
          child-ok st p over.mapped right,
          over.at_right,
          ne,
        )
        refl
  ascend-first right (under right p d beside up) a c l r (suc k) here (over, by, rest) once h =
      rw
        (
          rb_parent-at here,
          nonzero p over.positive,
          child-ok st p over.mapped right,
          over.at_right,
          ==_refl a,
        )
        (ascend-first right up p d (root_of beside) a k over rest (λ q. omega (arith, once q))
          (omega arith))
  ascend-first left (under right p d beside up) a c l r (suc k) here (over, by, rest) once h =
      let self = one_if_self a in
      let ne = beside_ne beside a p by here.positive (omega (arith, once a)) in
      rw
        (
          rb_parent-at here,
          nonzero p over.positive,
          child-ok st p over.mapped left,
          over.at_left,
          ne,
        )
        refl
  ascend-first left (under left p d beside up) a c l r (suc k) here (over, by, rest) once h =
      rw
        (
          rb_parent-at here,
          nonzero p over.positive,
          child-ok st p over.mapped left,
          over.at_left,
          ==_refl a,
        )
        (ascend-first left up p d a (root_of beside) k over rest (λ q. omega (arith, once q))
          (omega arith))
