-- ===== src/Rbtree/Erase/Simple.antt =====
-- rb_erase of a node with at most one child.
use common_project_template.Base.{ℕ, ◌≡◌, arith, Returns, ◌≤◌}
use common_project_template.Rbtree.{Ptr, Side, left, right, State, black}
use common_project_template.Rbtree.Tree.{
  Tree, leaf, node, Place, fork, plug, depth_place, count-plug, color_of_root,
}
use common_project_template.Rbtree.Rep.{IsTree, plug-Rep}
use common_project_template.Rbtree.Balance.{IsBalanced, IsRbTree}
use common_project_template.Rbtree.Fork.{order_at}
use common_project_template.Rbtree.Insert.Link.{plug-IsBalanced-inv, dark_above}
use common_project_template.Rbtree.Erase.{rb_erase}
use common_project_template.Rbtree.Erase.Single.{IsWithin, erase_none}
use common_project_template.Rbtree.Erase.Only.{erase_only}

pub IsWithin-plug :
    (st : State) (t : Tree) (up : Place)
    → IsTree st (plug up t)
    → IsBalanced (plug up t)
    → color_of_root (plug up t) ≡ black
    → IsWithin st t up
IsWithin-plug st t up shape balanced dark =
    let (rep, over) = plug-Rep st up t shape.root shape.nodes in
    let (bal, fits, dark_t) = plug-IsBalanced-inv up t balanced dark in
    record {
      rep = rep;
      over = over;
      apart = λ a. omega (arith, count-plug a up t, shape.once a);
      balanced = bal;
      fits = fits;
      allowed = λ e. dark_above _ up fits (λ h. absurd (omega (arith, dark_t h, e)));
    }

pub erase_within :
    (s : Side) (st : State) (n : Ptr) (c : ℕ) (only : Tree) (up : Place) (fuel : ℕ)
    → IsWithin st (fork s only n c leaf) up
    → depth_place up ≤ fuel
    → Returns (λ r. IsRbTree (order_at up only) r.1) (rb_erase fuel n st)
erase_within left st n c leaf up fuel within enough = erase_none st n c up within fuel enough
erase_within right st n c leaf up fuel within enough = erase_none st n c up within fuel enough
erase_within left st n c (node l y e r) up fuel within enough =
    erase_only left st n c l y e r up fuel within
erase_within right st n c (node l y e r) up fuel within enough =
    erase_only right st n c l y e r up fuel within
