-- ===== src/Rbtree/Erase/Next.antt =====
-- Case 2 of __rb_erase_augmented: the successor is the right child of the node. And how cases 2
-- and 3 end.
use common_project_template.Base.{
  ℕ, ◌+◌, ◌≤◌, ◌<◌, ◌≡◌, refl, not, ◌==◌, if◌then◌else◌, arith, ap, ◌∙◌, subst, Returns, returns,
  Bool-cases, inl, inr,
}
use common_project_template.Command.{pure}
use common_project_template.Rbtree.{Ptr, left, right, State, red, black, color_of}
use common_project_template.Rbtree.Tree.{
  Tree, leaf, node, Place, under, root_of, owner, color_of_root, depth_place, paint,
}
use common_project_template.Rbtree.Access.{child-ok, color_of-add}
use common_project_template.Rbtree.Rep.{IsNode, Rep, RepPlace, Apart}
use common_project_template.Rbtree.Frame.{nonzero}
use common_project_template.Rbtree.Balance.{height, IsBalanced, IsBalancedAt, IsRbTree}
use common_project_template.Rbtree.Fork.{order_at, finish}
use common_project_template.Rbtree.Erase.{erase_loop, erase_full, erase_node, rb_erase}
use common_project_template.Rbtree.Erase.Short.{IsShort}
use common_project_template.Rbtree.Erase.Flip.{ending}
use common_project_template.Rbtree.Erase.Rounds.{erase_loop-IsRbTree}
use common_project_template.Rbtree.Erase.Single.{IsWithin}
use common_project_template.Rbtree.Erase.Spine.{black_of}
use common_project_template.Rbtree.Erase.Seat.{
  IsSeatable, seated, erase_replace-ok, seated-IsNode, seated-left, seated-x, seated-above,
}

-- Where a node with the colour `e` and the right subtree `x` has been taken out of a place.
pub record IsTaken (st : State) (e : ℕ) (x : Tree) (up : Place) : Type 0 where
  pub rep : Rep st (owner up) (paint black x)
  pub over : RepPlace st (root_of x) up
  pub apart : Apart x up
  pub balanced : IsBalanced x
  pub bit : e < 2
  pub flat : height x ≡ 0
  pub dark : e ≡ red → color_of_root x ≡ black
  pub fits : IsBalancedAt (0 + e) up

-- `rebalance`
abbrev pub rebalance : (e : ℕ) → Tree → Ptr → Ptr
rebalance e x parent = if root_of x == 0 then (if not (e == 0) then parent else 0) else 0

pub taken-IsRbTree :
    (st : State) (e : ℕ) (x : Tree) (up : Place) (k : ℕ)
    → IsTaken st e x up
    → depth_place up ≤ k
    → Returns
        (λ r. IsRbTree (order_at up x) r.1)
        ((if rebalance e x (owner up) == 0
            then pure tt
            else erase_loop k 0 (rebalance e x (owner up)))
          st)
taken-IsRbTree st e (node xl y c xr) up k taken enough =
    let (small, same, dark_l, dark_r, bal_l, bal_r) = taken.balanced in
    let c_red : c ≡ red = omega (arith, taken.flat) in
    let e_black = black_of e taken.bit (λ h. absurd (omega (arith, taken.dark h, c_red))) in
    rw (nonzero y taken.rep.0.positive) (
      returns (
        finish st up (node xl y black xr) taken.rep taken.over taken.apart
          (omega arith, same, (λ _. dark_l c_red), (λ _. dark_r c_red), bal_l, bal_r)
          (subst (λ m. IsBalancedAt m up) (omega (arith, e_black, taken.flat, c_red)) taken.fits)
          (λ h. absurd (omega arith))))
taken-IsRbTree st e leaf up k taken enough = elim (Bool-cases (e == 0)) [
  | inl is_red ↦ rw is_red (
      returns (
        finish st up leaf tt taken.over taken.apart tt
          (subst (λ m. IsBalancedAt m up) (ground (arith, is_red)) taken.fits)
          (λ h. absurd (omega arith))))
  | inr not_red ↦
      let e_black : e ≡ black = ground (arith, not_red, taken.bit) in
      let short : IsShort st leaf up = record {
        rep = tt;
        over = taken.over;
        apart = taken.apart;
        balanced = tt;
        dark = refl;
        fits = subst (λ m. IsBalancedAt m up) (omega (arith, e_black)) taken.fits;
      } in
      rw not_red (
        ending up st leaf 0 (erase_loop k) short
          (λ pos. erase_loop-IsRbTree k st leaf up short pos enough))
]

module _ (st : State) (ll : Tree) (l : Ptr) (lc : ℕ) (lr : Tree) (n : Ptr) (c : ℕ) (s : Ptr) (e : ℕ)
    (x : Tree) (up : Place)
    (within : IsWithin st (node (node ll l lc lr) n c (node leaf s e x)) up) where
  ready : IsSeatable st n s c e ll l lc lr x up
  ready =
      let (node_n, at_l, (node_s, nothing, at_x)) = within.rep in
      record {
        n_mapped = node_n.mapped;
        n_positive = node_n.positive;
        n_child = node_n.at_left;
        n_packed = node_n.packed;
        up_link = node_n.parent_link;
        bit = node_n.bit;
        s_mapped = node_s.mapped;
        s_positive = node_s.positive;
        s_link = node_s.link;
        s_color = ap color_of node_s.packed ∙ color_of-add n e node_s.parent_link node_s.bit;
        at_l = at_l;
        x_owner = s;
        at_x = at_x;
        over = within.over;
        once = λ a. omega (arith, within.apart a);
      }

  next-IsTaken : IsTaken (seated s ready) e x (under right s c (node ll l lc lr) up)
  next-IsTaken =
      let node_s = within.rep.2.0 in
      let (small, same, dark_l, dark_r, bal_l, (small_s, same_s, _, dark_x, _, bal_x)) =
        within.balanced in
      record {
        rep = seated-x s ready node_s.link;
        over = (
          subst (λ q. IsNode (seated s ready) (owner up) s c l q) node_s.at_right
              (seated-IsNode s ready),
          seated-left s ready,
          seated-above s ready,
        );
        apart = λ a. omega (arith, within.apart a);
        balanced = bal_x;
        bit = node_s.bit;
        flat = omega (arith, same_s);
        dark = dark_x;
        fits = (
          small,
          same,
          dark_l,
          within.allowed,
          bal_l,
          subst (λ m. IsBalancedAt (m + c) up) same within.fits,
        );
      }

  pub erase_next :
      (fuel : ℕ)
      → depth_place up < fuel
      → Returns
          (λ r. IsRbTree (order_at (under right s c (node ll l lc lr) up) x) r.1)
          (rb_erase fuel n st)
  unfolding rb_erase erase_node erase_full
  erase_next fuel enough =
      let (node_n, at_l, (node_s, nothing, at_x)) = within.rep in
      simp
        (
          child-ok st n node_n.mapped right,
          child-ok st n node_n.mapped left,
          node_n.at_left,
          node_n.at_right,
          nonzero l at_l.0.positive,
          nonzero s node_s.positive,
          child-ok st s node_s.mapped left,
          child-ok st s node_s.mapped right,
          node_s.at_left,
          node_s.at_right,
          erase_replace-ok s ready node_s.link,
        )
        (taken-IsRbTree (seated s ready) e x (under right s c (node ll l lc lr) up) fuel
          next-IsTaken (omega arith))
