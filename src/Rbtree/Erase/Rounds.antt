-- ===== src/Rbtree/Erase/Rounds.antt =====
-- The rounds of ____rb_erase_color together.
use common_project_template.Base.{
  ℕ, zero, suc, ◌+◌, ◌≡◌, refl, arith, subst, Returns, ◌==◌, ==_refl, ◌≤◌, ◌<◌, false,
}
use common_project_template.Rbtree.{Ptr, Side, left, right, State, Cmd}
use common_project_template.Rbtree.Tree.{
  Tree, leaf, node, Place, top, under, root_of, owner, depth_place, count, one_if_self,
}
use common_project_template.Rbtree.Access.{child-ok}
use common_project_template.Rbtree.Rep.{Rep}
use common_project_template.Rbtree.Frame.{beside_ne}
use common_project_template.Rbtree.Balance.{height, IsRbTree}
use common_project_template.Rbtree.Fork.{order_at}
use common_project_template.Rbtree.Insert.Fix.{flip_eq}
use common_project_template.Rbtree.Insert.Loop.{above}
use common_project_template.Rbtree.Erase.{erase_case, erase_loop}
use common_project_template.Rbtree.Erase.Short.{IsShort}
use common_project_template.Rbtree.Erase.Black.{erase_black, GoesOn}
use common_project_template.Rbtree.Erase.Red.{case-black, erase_red}

module _ (again : (node parent : Ptr) → Cmd (Unit {0})) (st : State) (t : Tree) (g : Ptr) (d : ℕ)
    (up : Place) (step : GoesOn again g d up) where
  round_left :
      (w : Tree)
      → IsShort st t (under right g d w up)
      → Returns
          (λ r. IsRbTree (order_at (under right g d w up) t) r.1)
          (erase_case again right g (root_of w) st)
  round_left leaf short = absurd (omega (arith, short.fits.1))
  round_left (node x p zero leaf) short = absurd (omega (arith, short.fits.1, short.fits.4.1))
  round_left (node x p zero (node bl z zero br)) short = absurd (omega (arith, short.fits.4.3 refl))
  round_left (node x p zero (node bl z (suc zero) br)) short =
      erase_red again st t g d x p up left bl z br short
  round_left (node x p zero (node bl z (suc (suc c)) br)) short =
      absurd (omega (arith, short.fits.4.5.0))
  round_left (node wl p (suc zero) wr) short =
      rw (case-black again right st g p (root_of wl) (root_of wr) short.over.1.0)
        (erase_black st t g d p up again step left wl wr short)
  round_left (node wl p (suc (suc c)) wr) short = absurd (omega (arith, short.fits.4.0))

  round_right :
      (w : Tree)
      → IsShort st t (under left g d w up)
      → Returns
          (λ r. IsRbTree (order_at (under left g d w up) t) r.1)
          (erase_case again left g (root_of w) st)
  round_right leaf short = absurd (omega (arith, short.fits.1))
  round_right (node leaf p zero x) short = absurd (omega (arith, short.fits.1, short.fits.4.1))
  round_right (node (node bl z zero br) p zero x) short =
      absurd (omega (arith, short.fits.4.2 refl))
  round_right (node (node bl z (suc zero) br) p zero x) short =
      erase_red again st t g d x p up right bl z br short
  round_right (node (node bl z (suc (suc c)) br) p zero x) short =
      absurd (omega (arith, short.fits.4.4.0))
  round_right (node wl p (suc zero) wr) short =
      rw (case-black again left st g p (root_of wl) (root_of wr) short.over.1.0)
        (erase_black st t g d p up again step right wr wl short)
  round_right (node wl p (suc (suc c)) wr) short = absurd (omega (arith, short.fits.4.0))

-- The siblings are different nodes.
distinct :
    (st : State) (t w : Tree) (g : Ptr)
    → Rep st g t
    → Rep st g w
    → 0 < height w
    → ((a : Ptr) → count a t + count a w ≤ 1)
    → (root_of t == root_of w) ≡ false
distinct st t leaf g at_t at_w high once = absurd (omega arith)
distinct st leaf (node wl p c wr) g at_t at_w high once = zero_ne p at_w.0.positive
  where
    zero_ne : (p : Ptr) → 0 < p → (0 == p) ≡ false
    zero_ne p pos = ground arith
distinct st (node l a c r) w g (here, at_l, at_r) at_w high once =
    flip_eq (root_of w) a
      (beside_ne st w a g at_w here.positive (omega (arith, once a, one_if_self a)))

round_start :
    (k : ℕ) (s : Side) (st : State) (t : Tree) (g : Ptr) (d : ℕ) (w : Tree) (up : Place)
    → IsShort st t (under s g d w up)
    → erase_loop (suc k) (root_of t) g st ≡ erase_case (erase_loop k) s g (root_of w) st
unfolding erase_loop
round_start k left st t g d w up short =
    let at_g = above left st (root_of t) g d w up short.over in
    simp (
      child-ok st g at_g.mapped right,
      at_g.at_far,
      distinct st t w g short.rep at_g.at_sib (omega (arith, short.fits.1))
          (λ a. omega (arith, short.apart a)),
    )
round_start k right st t g d w up short =
    let at_g = above right st (root_of t) g d w up short.over in
    simp (
      child-ok st g at_g.mapped right,
      at_g.at_near,
      ==_refl (root_of t),
      child-ok st g at_g.mapped left,
      at_g.at_far,
    )

-- Where a subtree, empty or with a black root, is one black node short in a tree that is balanced
-- otherwise, and is not the whole tree, the loop of ____rb_erase_color with a round for each level above
-- it ends and leaves a red-black tree with the nodes in the same order.
pub erase_loop-IsRbTree :
    (k : ℕ) (st : State) (t : Tree) (place : Place)
    → IsShort st t place
    → 0 < owner place
    → depth_place place ≤ k
    → Returns (λ r. IsRbTree (order_at place t) r.1) (erase_loop k (root_of t) (owner place) st)
erase_loop-IsRbTree k st t top short pos enough = absurd (omega arith)
erase_loop-IsRbTree zero st t (under s g d w up) short pos enough = absurd (omega arith)
erase_loop-IsRbTree (suc k) st t (under left g d w up) short pos enough =
    rw (round_start k left st t g d w up short) (
      round_right (erase_loop k) st t g d up
        (λ st' t' e dark short' pos'.
          subst (λ n. Returns (λ r. IsRbTree (order_at up t') r.1) (erase_loop k n (owner up) st'))
            e (erase_loop-IsRbTree k st' t' up short' pos' (omega arith)))
        w short)
erase_loop-IsRbTree (suc k) st t (under right g d w up) short pos enough =
    rw (round_start k right st t g d w up short) (
      round_left (erase_loop k) st t g d up
        (λ st' t' e dark short' pos'.
          subst (λ n. Returns (λ r. IsRbTree (order_at up t') r.1) (erase_loop k n (owner up) st'))
            e (erase_loop-IsRbTree k st' t' up short' pos' (omega arith)))
        w short)
