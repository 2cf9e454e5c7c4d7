-- ===== src/Rbtree/Erase/Inner.antt =====
-- Case 3 of ____rb_erase_color, and case 4 after it: the sibling `p` has a red child `n` near the node.
use common_project_template.Base.{
  ℕ, ◌+◌, ◌<◌, ◌≡◌, refl, true, false, ◌==◌, arith, ok, ap, ◌∙◌, sym, subst, Returns,
}
use common_project_template.Command.{◌>>◌}
use common_project_template.Rbtree.{Ptr, Side, left, right, other, State, field, with_child, black}
use common_project_template.Rbtree.Tree.{
  Tree, leaf, node, Place, under, fork, root_of, count, one_if_self, color_of_root, paint,
}
use common_project_template.Rbtree.Access.{child-ok, set_child-ok}
use common_project_template.Rbtree.Rep.{Rep-Kept, RepPlace-Kept}
use common_project_template.Rbtree.Frame.{
  ne_of_count, with_pc, painted, Kept-painted, painted-mapped, Kept-child, paint_child-ok,
  update-miss,
}
use common_project_template.Rbtree.Rotate.{IsTurnable}
use common_project_template.Rbtree.Rotate.Nodes.{IsTurned}
use common_project_template.Rbtree.Insert.Turn.{middle}
use common_project_template.Rbtree.Insert.Inner.{halfway, inner-IsTurnable}
use common_project_template.Rbtree.Erase.{erase_inner, erase_outer}
use common_project_template.Rbtree.Erase.Outer.{erase_outer-IsTurned}

-- What stands in the place that a rotation fills does not matter.
child-IsTurnable :
    (s : Side) (st : State) (q p g : Ptr) (x b u : Tree) (d : ℕ) (up : Place)
    → IsTurnable st s p g x b u d up
    → IsTurnable (with_child s g q st) s p g x b u d up
child-IsTurnable left st q p g x b u d up ready =
    let ne_pg : (p == g) ≡ false = ne_of_count p g (omega (arith, ready.once p, one_if_self p)) in
    let self = one_if_self g in
    record {
      p_mapped = ready.p_mapped;
      p_positive = ready.p_positive;
      p_link = ready.p_link;
      p_child = update-miss (field left st) g q p ne_pg ∙ ready.p_child;
      g_mapped = ready.g_mapped;
      g_positive = ready.g_positive;
      g_link = ready.g_link;
      g_packed = ready.g_packed;
      g_child = ready.g_child;
      up_link = ready.up_link;
      bit = ready.bit;
      at_x =
          Rep-Kept {but = g} x p
            (λ a h. Kept-child left g q (ne_of_count a g (omega (arith, ready.once a))))
            (omega (arith, ready.once g)) ready.at_x;
      b_owner = ready.b_owner;
      at_b =
          Rep-Kept {but = g} b ready.b_owner
            (λ a h. Kept-child left g q (ne_of_count a g (omega (arith, ready.once a))))
            (omega (arith, ready.once g)) ready.at_b;
      at_u =
          Rep-Kept {but = g} u g
            (λ a h. Kept-child left g q (ne_of_count a g (omega (arith, ready.once a))))
            (omega (arith, ready.once g)) ready.at_u;
      over =
          RepPlace-Kept {but = g} g up
            (λ a h. Kept-child left g q (ne_of_count a g (omega (arith, ready.once a))))
            (omega (arith, ready.once g)) refl ready.over;
      once = ready.once;
    }
child-IsTurnable right st q p g x b u d up ready =
    let ne_pg : (p == g) ≡ false = ne_of_count p g (omega (arith, ready.once p, one_if_self p)) in
    let self = one_if_self g in
    record {
      p_mapped = ready.p_mapped;
      p_positive = ready.p_positive;
      p_link = ready.p_link;
      p_child = update-miss (field right st) g q p ne_pg ∙ ready.p_child;
      g_mapped = ready.g_mapped;
      g_positive = ready.g_positive;
      g_link = ready.g_link;
      g_packed = ready.g_packed;
      g_child = ready.g_child;
      up_link = ready.up_link;
      bit = ready.bit;
      at_x =
          Rep-Kept {but = g} x p
            (λ a h. Kept-child right g q (ne_of_count a g (omega (arith, ready.once a))))
            (omega (arith, ready.once g)) ready.at_x;
      b_owner = ready.b_owner;
      at_b =
          Rep-Kept {but = g} b ready.b_owner
            (λ a h. Kept-child right g q (ne_of_count a g (omega (arith, ready.once a))))
            (omega (arith, ready.once g)) ready.at_b;
      at_u =
          Rep-Kept {but = g} u g
            (λ a h. Kept-child right g q (ne_of_count a g (omega (arith, ready.once a))))
            (omega (arith, ready.once g)) ready.at_u;
      over =
          RepPlace-Kept {but = g} g up
            (λ a h. Kept-child right g q (ne_of_count a g (omega (arith, ready.once a))))
            (omega (arith, ready.once g)) refl ready.over;
      once = ready.once;
    }

-- The store after case 3.
abbrev inner_set : Side → State → (n p g : Ptr) → Tree → State
inner_set s st n p g inner =
    painted inner p black
      (with_child s g n (with_child s n p (with_child (other s) p (root_of inner) st)))

-- With the colour that case 4 gives the old sibling, it is that of the first rotation.
inner_set-halfway :
    (s : Side) (st : State) (n p g : Ptr) (inner : Tree)
    → with_pc p (n + black) (inner_set s st n p g inner)
      ≡ with_child s g n (halfway s st n p inner black)
inner_set-halfway left st n p g leaf = refl
inner_set-halfway left st n p g (node l y c r) = refl
inner_set-halfway right st n p g leaf = refl
inner_set-halfway right st n p g (node l y c r) = refl

module _ (st : State) (n p : Ptr) (outer inner sib : Tree) (g : Ptr) (d : ℕ) (u : Tree)
    (up : Place) where
  erase_inner-ok :
      (s : Side)
      → IsTurnable st (other s) n p outer inner sib black (under s g d u up)
      → st.mapped g ≡ true
      → field s st n ≡ root_of inner
      → erase_inner (other s) g p n st ≡ ok (tt, inner_set s st n p g inner)
  unfolding erase_inner
  erase_inner-ok left ready g_in at_n =
      let one = with_child right p (root_of inner) st in
      let two = with_child left n p one in
      let at_inner =
        Rep-Kept {but = g} inner ready.b_owner
          (λ a h. Kept-child left g n (ne_of_count a g (omega (arith, ready.once a))))
          (omega (arith, ready.once g, one_if_self g))
          (middle right st n p outer inner sib black (under left g d u up) ready) in
      simp (
        child-ok st n ready.p_mapped left,
        at_n,
        set_child-ok st p ready.g_mapped right (root_of inner),
        set_child-ok one n ready.p_mapped left p,
        set_child-ok two g g_in left n,
        paint_child-ok (with_child left g n two) inner ready.b_owner p black at_inner ready.g_link
            (omega arith),
      )
  erase_inner-ok right ready g_in at_n =
      let one = with_child left p (root_of inner) st in
      let two = with_child right n p one in
      let at_inner =
        Rep-Kept {but = g} inner ready.b_owner
          (λ a h. Kept-child right g n (ne_of_count a g (omega (arith, ready.once a))))
          (omega (arith, ready.once g, one_if_self g))
          (middle left st n p outer inner sib black (under right g d u up) ready) in
      simp (
        child-ok st n ready.p_mapped right,
        at_n,
        set_child-ok st p ready.g_mapped left (root_of inner),
        set_child-ok one n ready.p_mapped right p,
        set_child-ok two g g_in right n,
        paint_child-ok (with_child right g n two) inner ready.b_owner p black at_inner ready.g_link
            (omega arith),
      )

  -- The store between the cases, as far as case 4 reads it.
  set_mapped : (s : Side) → (inner_set s st n p g inner).mapped ≡ st.mapped
  set_mapped left = painted-mapped inner p black _
  set_mapped right = painted-mapped inner p black _

  outer_child :
      (s : Side)
      → (n == p) ≡ false
      → count n inner ≡ 0
      → field (other s) st n ≡ root_of outer
      → field (other s) (inner_set s st n p g inner) n ≡ root_of outer
  outer_child left ne out at_n =
      (Kept-painted {but = g} n inner p black out).rb_right
      ∙ (update-miss st.rb_right p (root_of inner) n ne ∙ at_n)
  outer_child right ne out at_n =
      (Kept-painted {but = g} n inner p black out).rb_left
      ∙ (update-miss st.rb_left p (root_of inner) n ne ∙ at_n)

  -- Cases 3 and 4 together.
  pub both-IsTurned :
      (s : Side)
      → IsTurnable st (other s) n p outer inner sib black (under s g d u up)
      → st.mapped g ≡ true
      → field s st n ≡ root_of inner
      → color_of_root outer < 2
      → Returns
          (λ r. IsTurned r.1 s n g (fork s sib p black (paint black inner)) outer u d black up)
          ((erase_inner (other s) g p n >> erase_outer (other s) g n p) st)
  both-IsTurned left ready g_in at_n small =
      let ne = ne_of_count n p (omega (arith, ready.once n, one_if_self n)) in
      let next =
        child-IsTurnable left (halfway left st n p inner black) n n g
          (fork left sib p black (paint black inner)) outer u d up
          (inner-IsTurnable left st n p outer inner sib g d u up black ready (omega arith)
            (omega arith)) in
      rw (erase_inner-ok left ready g_in at_n) (
        erase_outer-IsTurned (inner_set left st n p g inner) n g sib p (paint black inner) outer u d
          up (ap (λ f. f p) (set_mapped left) ∙ ready.g_mapped) left
          (subst
            (λ z. IsTurnable z left n g (fork left sib p black (paint black inner)) outer u d up)
            (sym (inner_set-halfway left st n p g inner)) next)
          small (outer_child left ne (omega (arith, ready.once n, one_if_self n)) ready.p_child))
  both-IsTurned right ready g_in at_n small =
      let ne = ne_of_count n p (omega (arith, ready.once n, one_if_self n)) in
      let next =
        child-IsTurnable right (halfway right st n p inner black) n n g
          (fork right sib p black (paint black inner)) outer u d up
          (inner-IsTurnable right st n p outer inner sib g d u up black ready (omega arith)
            (omega arith)) in
      rw (erase_inner-ok right ready g_in at_n) (
        erase_outer-IsTurned (inner_set right st n p g inner) n g (paint black inner) p sib outer u
          d up (ap (λ f. f p) (set_mapped right) ∙ ready.g_mapped) right
          (subst
            (λ z. IsTurnable z right n g (fork right sib p black (paint black inner)) outer u d up)
            (sym (inner_set-halfway right st n p g inner)) next)
          small (outer_child right ne (omega (arith, ready.once n, one_if_self n)) ready.p_child))
