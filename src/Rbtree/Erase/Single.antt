-- ===== src/Rbtree/Erase/Single.antt =====
-- Case 1 of __rb_erase_augmented: the node has at most one child, which takes its place.
use common_project_template.Base.{
  ℕ, Bool-cases, inl, inr, ◌≡◌, refl, arith, ok, ap, ◌∙◌, subst, Returns, returns, ◌==◌, ◌≤◌,
  if◌then◌else◌,
}
use common_project_template.Command.{pure}
use common_project_template.Rbtree.{Ptr, left, right, State, red, black, parent_of, color_of}
use common_project_template.Rbtree.Tree.{
  Tree, leaf, node, Place, root_of, owner, depth_place, color_of_root,
}
use common_project_template.Rbtree.Access.{child-ok, get_pc-ok, parent_of-add, color_of-add}
use common_project_template.Rbtree.Rep.{Rep, RepPlace, Apart}
use common_project_template.Rbtree.Frame.{relink, change_child-ok, RepPlace-relink}
use common_project_template.Rbtree.Balance.{height, IsBalanced, IsBalancedAt, color_above, IsRbTree}
use common_project_template.Rbtree.Fork.{order_at, finish}
use common_project_template.Rbtree.Erase.{erase_left_empty, erase_node, erase_loop, rb_erase}
use common_project_template.Rbtree.Erase.Short.{IsShort}
use common_project_template.Rbtree.Erase.Flip.{ending}
use common_project_template.Rbtree.Erase.Rounds.{erase_loop-IsRbTree}

-- A subtree of a red-black tree, in its place.
pub record IsWithin (st : State) (t : Tree) (up : Place) : Type 0 where
  pub rep : Rep st (owner up) t
  pub over : RepPlace st (root_of t) up
  pub apart : Apart t up
  pub balanced : IsBalanced t
  pub fits : IsBalancedAt (height t) up
  pub allowed : color_of_root t ≡ red → color_above up ≡ black

module _ (st : State) (n : Ptr) (c : ℕ) (up : Place)
    (within : IsWithin st (node leaf n c leaf) up) where
  -- A node without children leaves an empty place.
  unlinked : State
  unlinked = relink up 0 st

  left_empty-ok :
      erase_left_empty n 0 st
      ≡ ok (if color_of (st.parent_color n) == 0 then 0 else owner up, relink up 0 st)
  unfolding erase_left_empty
  left_empty-ok =
      let here = within.rep.0 in
      let parent : parent_of (st.parent_color n) ≡ owner up =
        ap parent_of here.packed ∙ parent_of-add (owner up) c here.parent_link here.bit in
      simp (
        get_pc-ok st n here.mapped,
        parent,
        change_child-ok st up n 0 within.over here.positive (λ a. omega (arith, within.apart a)),
      )

  empty-RepPlace : RepPlace (relink up 0 st) 0 up
  empty-RepPlace = RepPlace-relink st up n 0 within.over (λ a. omega (arith, within.apart a))

  color_n : color_of (st.parent_color n) ≡ c
  color_n =
      ap color_of within.rep.0.packed
      ∙ color_of-add (owner up) c within.rep.0.parent_link within.rep.0.bit

  none-start :
      (fuel : ℕ)
      → rb_erase fuel n st
        ≡ (if (if c == 0 then 0 else owner up) == 0
              then pure tt
              else erase_loop fuel 0 (if c == 0 then 0 else owner up))
            (relink up 0 st)
  unfolding rb_erase erase_node
  none-start fuel =
      let here = within.rep.0 in
      simp (
        child-ok st n here.mapped right,
        child-ok st n here.mapped left,
        here.at_left,
        here.at_right,
        left_empty-ok,
        color_n,
      )

  red_none : c ≡ red → IsRbTree (order_at up leaf) (relink up 0 st)
  red_none is_red =
      finish (relink up 0 st) up leaf tt empty-RepPlace (λ a. omega (arith, within.apart a)) tt
        (subst (λ m. IsBalancedAt m up) (omega (arith, is_red)) within.fits)
        (λ h. absurd (omega arith))

  black_none : c ≡ black → IsShort (relink up 0 st) leaf up
  black_none is_black = record {
    rep = tt;
    over = empty-RepPlace;
    apart = λ a. omega (arith, within.apart a);
    balanced = tt;
    dark = refl;
    fits = subst (λ m. IsBalancedAt m up) (omega (arith, is_black)) within.fits;
  }

  -- rb_erase of a node without children.
  pub erase_none :
      (fuel : ℕ)
      → depth_place up ≤ fuel
      → Returns (λ r. IsRbTree (order_at up leaf) r.1) (rb_erase fuel n st)
  erase_none fuel enough = elim (Bool-cases (c == 0)) [
    | inl is_red ↦ rw (none-start fuel, is_red) (returns (red_none (ground (arith, is_red))))
    | inr not_red ↦
        let e : c ≡ black = ground (arith, not_red, within.rep.0.bit) in
        rw (none-start fuel, not_red)
          (ending up (relink up 0 st) leaf 0 (erase_loop fuel) (black_none e)
            (λ pos. erase_loop-IsRbTree fuel (relink up 0 st) leaf up (black_none e) pos enough))
  ]
