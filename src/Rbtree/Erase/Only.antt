-- ===== src/Rbtree/Erase/Only.antt =====
-- Case 1 of __rb_erase_augmented for a node with one child, which takes its place and colour.
use common_project_template.Base.{
  ℕ, zero, suc, ◌+◌, ◌≡◌, refl, arith, ok, ◌∙◌, subst, Returns, returns, ◌==◌, ==_refl, ◌≤◌, ◌<◌,
  true,
}
use common_project_template.Rbtree.{Ptr, Side, left, right, State, red, black, parent_of}
use common_project_template.Rbtree.Tree.{
  Tree, leaf, node, Place, top, under, fork, owner, count, count_place, one_if, one_if_self,
}
use common_project_template.Rbtree.Access.{child-ok, get_pc-ok, put_pc-ok, parent_of-add, IsLink}
use common_project_template.Rbtree.Rep.{Rep, RepPlace, RepPlace-Kept, Rep-moved}
use common_project_template.Rbtree.Frame.{
  nonzero, with_pc, Kept-pc, Kept-then, Kept-relink, relink, change_child-ok, RepPlace-relink,
}
use common_project_template.Rbtree.Balance.{IsBalancedAt, IsRbTree}
use common_project_template.Rbtree.Fork.{order_at, finish, fork-IsBalanced_inv}
use common_project_template.Rbtree.Erase.{erase_left_empty, erase_right_empty, erase_node, rb_erase}
use common_project_template.Rbtree.Erase.Single.{IsWithin}

pc_relink :
    (up : Place) (y pc : ℕ) (st : State)
    → with_pc y pc (relink up y st) ≡ relink up y (with_pc y pc st)
pc_relink top y pc st = refl
pc_relink (under left a c beside up) y pc st = refl
pc_relink (under right a c beside up) y pc st = refl

module _ (st : State) (n : Ptr) (c : ℕ) (yl : Tree) (y : Ptr) (e : ℕ) (yr : Tree) (up : Place) where
  abbrev adopted : State
  adopted = relink up y (with_pc y (owner up + c) st)

  module _ (at_y : Rep st n (node yl y e yr)) (over : RepPlace st n up) (link : IsLink (owner up))
      (bit : c < 2)
      (once : (a : Ptr) → one_if (a == n) + count a (node yl y e yr) + count_place a up ≤ 1) where
    self : one_if (y == y) ≡ 1
    self = one_if_self y

    adopted-Rep : Rep adopted (owner up) (node yl y c yr)
    adopted-Rep =
        Rep-moved {st = st} {st' = adopted} (node yl y e yr) n (owner up) c
          (λ a h.
            Kept-then (Kept-pc y (owner up + c) (λ ne. ne))
              (Kept-relink a up y (omega (arith, once a))))
          (λ a. omega (arith, once a)) link bit
          (λ h.
            (Kept-relink {but = suc y} y up y (omega (arith, once y, self))).parent_color
              (ground arith)
            ∙ rw (==_refl y) refl)
          at_y

    set-RepPlace : RepPlace (with_pc y (owner up + c) st) n up
    set-RepPlace =
        RepPlace-Kept {but = y} n up (λ a h. Kept-pc y (owner up + c) (λ ne. ne))
          (omega (arith, once y, self)) refl over

    adopted-RepPlace : RepPlace adopted y up
    adopted-RepPlace =
        RepPlace-relink (with_pc y (owner up + c) st) up n y set-RepPlace
          (λ a. omega (arith, once a))

    module _ (n_in : st.mapped n ≡ true) (packed : st.parent_color n ≡ owner up + c)
        (pos : 0 < n) where
      parent_n : parent_of (owner up + c) ≡ owner up
      parent_n = parent_of-add (owner up) c link bit

      y_mapped : (relink up y st).mapped y ≡ true
      y_mapped = (Kept-relink {but = y} y up y (omega (arith, once y, self))).mapped ∙ at_y.0.mapped

      left_empty-adopts : erase_left_empty n y st ≡ ok (0, adopted)
      unfolding erase_left_empty
      left_empty-adopts = simp (
        get_pc-ok st n n_in,
        packed,
        parent_n,
        change_child-ok st up n y over pos (λ a. omega (arith, once a)),
        nonzero y at_y.0.positive,
        put_pc-ok (relink up y st) y y_mapped,
        pc_relink up y (owner up + c) st,
      )

      right_empty-adopts : erase_right_empty n y st ≡ ok (0, adopted)
      unfolding erase_right_empty
      right_empty-adopts = simp (
        get_pc-ok st n n_in,
        packed,
        put_pc-ok st y at_y.0.mapped,
        parent_n,
        change_child-ok (with_pc y (owner up + c) st) up n y set-RepPlace pos
            (λ a. omega (arith, once a)),
      )

black_of : (c e : ℕ) → c < 2 → (c ≡ red → e ≡ black) → e ≡ red → c ≡ black
black_of zero e small dark e_red = absurd (omega (arith, dark refl))
black_of (suc zero) e small dark e_red = refl
black_of (suc (suc c)) e small dark e_red = absurd (omega arith)

-- rb_erase of a node with one child.
pub erase_only :
    (s : Side) (st : State) (n : Ptr) (c : ℕ) (yl : Tree) (y : Ptr) (e : ℕ) (yr : Tree) (up : Place)
    (fuel : ℕ)
    → IsWithin st (fork s (node yl y e yr) n c leaf) up
    → Returns (λ r. IsRbTree (order_at up (node yl y e yr)) r.1) (rb_erase fuel n st)
unfolding rb_erase erase_node
erase_only left st n c yl y e yr up fuel within =
    let (here, at_l, at_r) = within.rep in
    let once : (a : Ptr) → one_if (a == n) + count a (node yl y e yr) + count_place a up ≤ 1 =
      λ a. omega (arith, within.apart a) in
    let (small, same, dark, _, (small_y, same_y, dark_l, dark_r, bal_l, bal_r), _, high) =
      fork-IsBalanced_inv left (node yl y e yr) n c leaf within.balanced in
    let e_red : e ≡ red = omega (arith, same) in
    let c_black : c ≡ black = black_of c e small (λ h. dark h) e_red in
    simp
      (
        child-ok st n here.mapped right,
        child-ok st n here.mapped left,
        here.at_left,
        here.at_right,
        nonzero y at_l.0.positive,
        right_empty-adopts st n c yl y e yr up at_l within.over here.parent_link small once
            here.mapped here.packed here.positive,
      )
      (returns (
        finish (adopted st n c yl y e yr up) up (node yl y c yr)
          (adopted-Rep st n c yl y e yr up at_l within.over here.parent_link small once)
          (adopted-RepPlace st n c yl y e yr up at_l within.over here.parent_link small once)
          (λ a. omega (arith, once a))
          (small, same_y, (λ _. dark_l e_red), (λ _. dark_r e_red), bal_l, bal_r)
          (subst (λ m. IsBalancedAt m up) (omega (arith, high, same, e_red)) within.fits)
          (λ h. absurd (omega (arith, h, c_black)))))
erase_only right st n c yl y e yr up fuel within =
    let (here, at_l, at_r) = within.rep in
    let once : (a : Ptr) → one_if (a == n) + count a (node yl y e yr) + count_place a up ≤ 1 =
      λ a. omega (arith, within.apart a) in
    let (small, same, dark, _, (small_y, same_y, dark_l, dark_r, bal_l, bal_r), _, high) =
      fork-IsBalanced_inv right (node yl y e yr) n c leaf within.balanced in
    let e_red : e ≡ red = omega (arith, same) in
    let c_black : c ≡ black = black_of c e small (λ h. dark h) e_red in
    simp
      (
        child-ok st n here.mapped right,
        child-ok st n here.mapped left,
        here.at_left,
        here.at_right,
        nonzero y at_r.0.positive,
        left_empty-adopts st n c yl y e yr up at_r within.over here.parent_link small once
            here.mapped here.packed here.positive,
      )
      (returns (
        finish (adopted st n c yl y e yr up) up (node yl y c yr)
          (adopted-Rep st n c yl y e yr up at_r within.over here.parent_link small once)
          (adopted-RepPlace st n c yl y e yr up at_r within.over here.parent_link small once)
          (λ a. omega (arith, once a))
          (small, same_y, (λ _. dark_l e_red), (λ _. dark_r e_red), bal_l, bal_r)
          (subst (λ m. IsBalancedAt m up) (omega (arith, high, same, e_red)) within.fits)
          (λ h. absurd (omega (arith, h, c_black)))))
