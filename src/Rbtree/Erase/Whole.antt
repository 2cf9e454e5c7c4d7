-- ===== src/Rbtree/Erase/Whole.antt =====
-- rb_erase of any node of a red-black tree.
use mathlib.Core.List.{append_assoc}
use common_project_template.Base.{
  ℕ, ◌+◌, ◌≤◌, ◌≡◌, List, ◌∷◌, ◌++◌, arith, ap, ◌∙◌, sym, subst, Returns,
}
use common_project_template.Rbtree.{Ptr, left, right, State}
use common_project_template.Rbtree.Tree.{
  Tree, leaf, node, Place, under, depth, depth_place, depth-plug, inorder, before, behind,
  color_of_root,
}
use common_project_template.Rbtree.Rep.{IsTree}
use common_project_template.Rbtree.Balance.{IsBalanced, IsRbTree}
use common_project_template.Rbtree.Fork.{order_at}
use common_project_template.Rbtree.Depth.{IsEnough, depth-lt}
use common_project_template.Rbtree.Iterate.Ends.{located, parts}
use common_project_template.Rbtree.Erase.{rb_erase}
use common_project_template.Rbtree.Erase.Single.{IsWithin}
use common_project_template.Rbtree.Erase.Simple.{IsWithin-plug, erase_within}
use common_project_template.Rbtree.Erase.Spine.{
  Turn, leftmost, left-IsWithin, right-IsWithin, spine, down, before-spine, behind-spine,
  behind_spine,
}
use common_project_template.Rbtree.Erase.Next.{erase_next}
use common_project_template.Rbtree.Erase.Deep.{erase_deep}

-- The nodes of a subtree without its root.
abbrev without_root : Tree → Place → Tree → List Ptr
without_root l up r = before up ++ (inorder l ++ (inorder r ++ behind up))

order_deep :
    (zs : List Turn) (l : Tree) (s : Ptr) (c : ℕ) (x deep : Tree) (y : Ptr) (cy : ℕ) (rr : Tree)
    (up : Place)
    → s ∷ (inorder x ++ behind_spine zs) ≡ inorder deep
    → order_at
        (spine zs (down (record { at = y; color = cy; beside = rr }) (under right s c l up)))
        x
      ≡ without_root l up (node deep y cy rr)
order_deep zs l s c x deep y cy rr up order =
    simp (before-spine, behind-spine, ← order, append_assoc)

erase_at :
    (st : State) (l : Tree) (n : Ptr) (c : ℕ) (r : Tree) (up : Place) (fuel : ℕ)
    → IsWithin st (node l n c r) up
    → depth (node l n c r) + depth_place up ≤ fuel
    → Returns (λ q. IsRbTree (without_root l up r) q.1) (rb_erase fuel n st)
erase_at st l n c leaf up fuel within enough =
    erase_within left st n c l up fuel within (omega arith)
erase_at st leaf n c (node rl y cy rr) up fuel within enough =
    erase_within right st n c (node rl y cy rr) up fuel within (omega arith)
erase_at st (node ll a d lr) n c (node leaf s e x) up fuel within enough =
    subst (λ xs. Returns (λ q. IsRbTree xs q.1) (rb_erase fuel n st)) (simp append_assoc)
      (erase_next st ll a d lr n c s e x up within fuel (omega arith))
erase_at st (node ll a d lr) n c (node (node rll b e rlr) y cy rr) up fuel within enough =
    let l = node ll a d lr in
    let deep = node rll b e rlr in
    let below =
      left-IsWithin st deep y cy rr (under right n c l up)
        (right-IsWithin st l n c (node deep y cy rr) up within) in
    let lm =
      leftmost st rll b e rlr (under left y cy rr (under right n c l up)) fuel below
        (omega arith) in
    subst (λ xs. Returns (λ q. IsRbTree xs q.1) (rb_erase fuel n st))
      (order_deep lm.way l lm.s c lm.x deep y cy rr up lm.order)
      (erase_deep st ll a d lr n c deep y cy rr up fuel within lm below.rep.0.positive
        (omega arith))

-- In a store that holds a red-black tree with its nodes in the order `xs`, `n`, `ys`, rb_erase of `n`
-- ends without a fault, given more rounds than twice the logarithm of the number of nodes and one, and
-- leaves a red-black tree with the nodes `xs`, `ys`.
pub rb_erase-IsRbTree :
    (st : State) (n : Ptr) (xs ys : List Ptr) (fuel : ℕ)
    → IsRbTree (xs ++ (n ∷ ys)) st
    → IsEnough (xs ++ (n ∷ ys)) fuel
    → Returns (λ r. IsRbTree (xs ++ ys) r.1) (rb_erase fuel n st)
rb_erase-IsRbTree st n xs ys fuel held enough =
    let at = located st held.tree held.shape fuel n xs ys held.in_order in
    let shape = subst (IsTree st) (sym at.is) held.shape in
    let split =
      parts st at.place at.near n at.color at.far xs ys shape (ap inorder at.is ∙ held.in_order) in
    let depths = depth-plug at.place (node at.near n at.color at.far) in
    subst (λ zs. Returns (λ r. IsRbTree zs r.1) (rb_erase fuel n st))
      (sym (append_assoc (before at.place) (inorder at.near) (inorder at.far ++ behind at.place))
        ∙ (ap (λ us. us ++ (inorder at.far ++ behind at.place)) split.0
            ∙ ap (λ vs. xs ++ vs) split.1))
      (erase_at st at.near n at.color at.far at.place fuel
        (IsWithin-plug st (node at.near n at.color at.far) at.place shape
          (subst IsBalanced (sym at.is) held.balanced) (ap color_of_root at.is ∙ held.black_root))
        (omega (arith, depth-lt (xs ++ (n ∷ ys)) st held fuel enough, ap depth at.is, depths)))
