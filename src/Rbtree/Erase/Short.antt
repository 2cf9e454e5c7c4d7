-- ===== src/Rbtree/Erase/Short.antt =====
-- What holds before each round of ____rb_erase_color: the paths through the node are one black
-- node short.
use common_project_template.Base.{ℕ, ◌+◌, ◌≤◌, ◌<◌, ◌≡◌, arith, ◌∙◌, sym, subst, ◌==◌}
use common_project_template.Rbtree.{Ptr, Side, left, right, other, State, red, black}
use common_project_template.Rbtree.Tree.{
  Tree, Place, under, fork, root_of, owner, count, count_place, one_if, color_of_root,
}
use common_project_template.Rbtree.Rep.{Rep, RepPlace, Apart}
use common_project_template.Rbtree.Balance.{height, IsBalanced, IsBalancedAt, color_above, IsRbTree}
use common_project_template.Rbtree.Fork.{
  finish, order_at, order_at-under, fork-IsBalanced, count-fork, root_color, root_of-fork,
}
use common_project_template.Rbtree.Rotate.Nodes.{IsTurned}

pub record IsShort (st : State) (t : Tree) (place : Place) : Type 0 where
  pub rep : Rep st (owner place) t
  pub over : RepPlace st (root_of t) place
  pub apart : Apart t place
  pub balanced : IsBalanced t
  pub dark : color_of_root t ≡ black
  pub fits : IsBalancedAt (height t + 1) place

-- The sibling's place instead of the node's.
pub other_side :
    (s : Side) (st : State) (t : Tree) (g : Ptr) (d : ℕ) (w : Tree) (up : Place)
    → Rep st g t
    → RepPlace st (root_of t) (under (other s) g d w up)
    → Rep st g w × RepPlace st (root_of w) (under s g d t up)
other_side left st t g d w up rep (here, at_w, over) = (at_w, (here, rep, over))
other_side right st t g d w up rep (here, at_w, over) = (at_w, (here, rep, over))

pub order_beside :
    (s : Side) (t : Tree) (g : Ptr) (d : ℕ) (w : Tree) (up : Place)
    → order_at (under (other s) g d w up) t ≡ order_at up (fork s w g d t)
order_beside left t g d w up = order_at-under right g d w up t
order_beside right t g d w up = order_at-under left g d w up t

-- After the last rotation: `x` and `b` have the height of `t` now.
pub conclude :
    (s : Side) (st : State) (x : Tree) (p : Ptr) (b : Tree) (g : Ptr) (t : Tree) (d : ℕ)
    (up : Place)
    → IsTurned st s p g x b t d black up
    → IsBalanced x
    → IsBalanced b
    → IsBalanced t
    → color_of_root x ≡ black
    → height x ≡ height t + 1
    → height b ≡ height t
    → d < 2
    → (d ≡ red → color_above up ≡ black)
    → IsBalancedAt (height t + 1 + d) up
    → ((a : Ptr)
        → one_if (a == p) + one_if (a == g) + count a x + count a b + count a t + count_place a up
          ≤ 1)
    → IsRbTree (order_at up (fork s x p d (fork s b g black t))) st
conclude s st x p b g t d up turned bx bb bt dark_x hx hb small above fits once =
    let (bal_g, high_g) =
      fork-IsBalanced s b g black t (omega arith) hb (λ h. absurd (omega arith))
        (λ h. absurd (omega arith)) bb bt in
    let (bal, high) =
      fork-IsBalanced s x p d (fork s b g black t) small (omega (arith, high_g, hx, hb))
        (λ _. dark_x) (λ _. root_color s b g black t) bx bal_g in
    let whole = fork s x p d (fork s b g black t) in
    finish st up whole turned.nodes
      (subst (λ q. RepPlace st q up) (sym (root_of-fork s x p d (fork s b g black t))) turned.over)
      (λ a.
        omega
          (arith, once a, count-fork s a x p d (fork s b g black t), count-fork s a b g black t))
      bal (subst (λ m. IsBalancedAt m up) (omega (arith, high, hx)) fits)
      (λ h. above (sym (root_color s x p d (fork s b g black t)) ∙ h))
