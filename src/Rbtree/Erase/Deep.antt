-- ===== src/Rbtree/Erase/Deep.antt =====
-- Case 3 of __rb_erase_augmented: the successor is the leftmost node under the right child of the node.
use common_project_template.Base.{
  ℕ, suc, ◌+◌, ◌≤◌, ◌<◌, ◌≡◌, refl, true, false, ◌==◌, ==_refl, if◌then◌else◌, arith, ◌∙◌, sym,
  subst, Returns, ◌∷◌, Bool-cases, inl, inr,
}
use common_project_template.Command.{pure}
use common_project_template.Rbtree.{Ptr, left, right, State, with_child, black}
use common_project_template.Rbtree.Tree.{
  Tree, node, Place, under, root_of, owner, count, count_place, one_if, one_if_self, depth,
  depth_place, paint,
}
use common_project_template.Rbtree.Access.{IsLink, child-ok, set_child-ok, color_of-add}
use common_project_template.Rbtree.Rep.{IsNode, Rep, RepPlace, Kept, Rep-Kept, RepPlace-Kept}
use common_project_template.Rbtree.Frame.{
  nonzero, ne_of_count, with_pc, update-miss, Kept-child, Kept-pc, Kept-then, RepPlace-relink,
}
use common_project_template.Rbtree.Balance.{IsRbTree}
use common_project_template.Rbtree.Fork.{order_at}
use common_project_template.Rbtree.Erase.{erase_loop, erase_full, erase_node, rb_erase}
use common_project_template.Rbtree.Erase.Outer.{rb_set_parent-ok}
use common_project_template.Rbtree.Erase.Single.{IsWithin}
use common_project_template.Rbtree.Erase.Spine.{
  Turn, down, spine, Leftmost, count_way, count_way-le-count_spine, count_spine, count_place-spine,
  depth_place-spine, owner-spine, owner-counted, relink-spine, owner-IsNode, RepPlace-spine,
  IsBalancedAt-spine,
}
use common_project_template.Rbtree.Erase.Seat.{
  IsSeatable, seated, erase_replace-ok, seated-Kept, seated-IsNode, seated-left, seated-x,
  seated-above,
}
use common_project_template.Rbtree.Erase.Next.{IsTaken, rebalance, taken-IsRbTree}

ne_suc : (a : Ptr) → (a == suc a) ≡ false
ne_suc a = ground arith

apart_from : (a b : Ptr) → (a ≡ b → ⊥) → (a == b) ≡ false
apart_from a b ne = elim (Bool-cases (a == b)) [
  | inl same ↦ absurd (ne (ground (arith, same)))
  | inr different ↦ different
]

module _ (st : State) (ll : Tree) (l : Ptr) (lc : ℕ) (lr : Tree) (n : Ptr) (c : ℕ) (deep : Tree)
    (y : Ptr) (cy : ℕ) (rr : Tree) (up : Place) (fuel : ℕ)
    (within : IsWithin st (node (node ll l lc lr) n c (node deep y cy rr)) up)
    (lm : Leftmost st deep (under left y cy rr (under right n c (node ll l lc lr) up)) fuel) where
  abbrev turn : Turn
  turn = record { at = y; color = cy; beside = rr }

  -- The place below the node, and with the successor instead.
  abbrev old_place : Place
  old_place = under right n c (node ll l lc lr) up

  abbrev new_place : Place
  new_place = under right lm.s c (node ll l lc lr) up

  -- The parent of the successor.
  abbrev p : Ptr
  p = owner (spine lm.way (down turn old_place))

  -- No node occurs twice.
  once :
      (a : Ptr)
      → one_if (a == lm.s)
          + count a lm.x
          + count_spine a lm.way
          + one_if (a == y)
          + count a rr
          + one_if (a == n)
          + count a (node ll l lc lr)
          + count_place a up
        ≤ 1
  once a = omega (arith, lm.within.apart a, count_place-spine a lm.way (down turn old_place))

  p_counted : 0 < count_way p (turn ∷ lm.way)
  p_counted = owner-counted lm.way turn old_place

  -- The store before the successor takes its place.
  abbrev unlinked : State
  unlinked = with_child left p (root_of lm.x) st

  abbrev loose : State
  loose = with_pc y (lm.s + cy) (with_child right lm.s y unlinked)

  loose-Kept :
      {but : Ptr} (a : Ptr)
      → (a == p) ≡ false
      → (a == lm.s) ≡ false
      → ((a == but) ≡ false → (a == y) ≡ false)
      → Kept st loose but a
  loose-Kept a ne_p ne_s ne_y =
      Kept-then (Kept-child left p (root_of lm.x) ne_p)
        (Kept-then (Kept-child right lm.s y ne_s) (Kept-pc y (lm.s + cy) ne_y))

  -- A node that stands elsewhere is not the parent.
  not_p :
      (a : Ptr)
      → 0
        < one_if (a == lm.s)
          + count a lm.x
          + count a rr
          + one_if (a == n)
          + count a (node ll l lc lr)
          + count_place a up
      → (a == p) ≡ false
  not_p a elsewhere = apart_from a p (λ same.
      let counted : 0 < count_way a (turn ∷ lm.way) =
        subst (λ q. 0 < count_way q (turn ∷ lm.way)) (sym same) p_counted in
      omega (arith, once a, counted, elsewhere, count_way-le-count_spine a lm.way))

  ready : IsSeatable loose n lm.s c lm.color ll l lc lr lm.x up
  ready =
      let (node_n, at_l, (node_y, at_deep, at_rr)) = within.rep in
      let (node_s, nothing, at_x) = lm.within.rep in
      let self_n = one_if_self n in
      let self_s = one_if_self lm.s in
      let self_y = one_if_self y in
      let ne_np = not_p n (omega arith) in
      let ne_ny : (n == y) ≡ false = ne_of_count n y (omega (arith, once n)) in
      let ne_sy : (lm.s == y) ≡ false = ne_of_count lm.s y (omega (arith, once lm.s)) in
      record {
        n_mapped = node_n.mapped;
        n_positive = node_n.positive;
        n_child = update-miss st.rb_left p (root_of lm.x) n ne_np ∙ node_n.at_left;
        n_packed = rw ne_ny node_n.packed;
        up_link = node_n.parent_link;
        bit = node_n.bit;
        s_mapped = node_s.mapped;
        s_positive = node_s.positive;
        s_link = node_s.link;
        s_color = rw (ne_sy, node_s.packed) (color_of-add p lm.color node_s.parent_link node_s.bit);
        at_l =
            Rep-Kept {but = y} (node ll l lc lr) n
              (λ a h.
                loose-Kept a (not_p a (omega arith)) (ne_of_count a lm.s (omega (arith, once a)))
                  (λ ne. ne))
              (omega (arith, once y)) at_l;
        x_owner = lm.s;
        at_x =
            Rep-Kept {but = y} lm.x lm.s
              (λ a h.
                loose-Kept a (not_p a (omega arith)) (ne_of_count a lm.s (omega (arith, once a)))
                  (λ ne. ne))
              (omega (arith, once y)) at_x;
        over =
            RepPlace-Kept {but = y} n up
              (λ a h.
                loose-Kept a (not_p a (omega arith)) (ne_of_count a lm.s (omega (arith, once a)))
                  (λ ne. ne))
              (omega (arith, once y)) refl within.over;
        once = λ a. omega (arith, once a);
      }

  abbrev done : State
  done = seated p ready

  p_node : (st.mapped p ≡ true) × IsLink p
  p_node = owner-IsNode st lm.s lm.way turn old_place lm.within.over

  -- The way, with the right subtree of the successor at its end.
  over_unlinked : RepPlace unlinked (root_of lm.x) (spine lm.way (down turn old_place))
  over_unlinked =
      subst (λ h. RepPlace h (root_of lm.x) (spine lm.way (down turn old_place)))
        (relink-spine lm.way turn old_place (root_of lm.x) st)
        (RepPlace-relink st (spine lm.way (down turn old_place)) lm.s (root_of lm.x) lm.within.over
          (λ a. omega (arith, lm.within.apart a)))

  -- What cases 2 and 3 leave of the nodes on the way and beside it.
  rest-Kept :
      {but : Ptr} (a : Ptr)
      → 0 < count_spine a lm.way + one_if (a == y) + count a rr
      → ((a == but) ≡ false → (a == y) ≡ false)
      → Kept unlinked done but a
  rest-Kept a on_way ne_y =
      let ne_s : (a == lm.s) ≡ false = ne_of_count a lm.s (omega (arith, once a)) in
      Kept-then (Kept-child right lm.s y ne_s) (
        Kept-then (Kept-pc y (lm.s + cy) ne_y) (
          seated-Kept p ready a ne_s (omega (arith, once a)) (omega (arith, once a))
            (omega (arith, once a))))

  -- The successor, in the place of the node.
  over_new : RepPlace done y new_place
  over_new = (
    subst (λ q. IsNode done (owner up) lm.s c l q) (right_set lm.s) (seated-IsNode p ready),
    seated-left p ready,
    seated-above p ready,
  )
    where
      right_set : (s : Ptr) → (if s == s then y else st.rb_right s) ≡ y
      right_set s = rw (==_refl s) refl

  y_packed : done.parent_color y ≡ lm.s + cy
  y_packed =
      let self_y = one_if_self y in
      let kept : Kept loose done (suc y) y =
        seated-Kept p ready y (ne_of_count y lm.s (omega (arith, once y))) (omega (arith, once y))
          (omega (arith, once y)) (omega (arith, once y)) in
      kept.parent_color (ne_suc y) ∙ rw (==_refl y) refl

  over_turn :
      (q : Ptr) → RepPlace unlinked q (down turn old_place) → RepPlace done q (down turn new_place)
  over_turn q (here, at_rr, over) =
      let self_y = one_if_self y in
      let kept : Kept unlinked done y y = rest-Kept y (omega arith) (λ ne. ne) in
      (
        record {
          mapped = kept.mapped ∙ here.mapped;
          positive = here.positive;
          link = here.link;
          parent_link = lm.within.rep.0.link;
          bit = here.bit;
          packed = y_packed;
          at_left = kept.rb_left ∙ here.at_left;
          at_right = kept.rb_right ∙ here.at_right;
        },
        Rep-Kept {but = y} rr y (λ a h. rest-Kept a (omega arith) (λ ne. ne))
            (omega (arith, once y)) at_rr,
        over_new,
      )

  over_done : RepPlace done (root_of lm.x) (spine lm.way (down turn new_place))
  over_done =
      RepPlace-spine lm.s (root_of lm.x) lm.way (down turn old_place) (down turn new_place)
        over_turn refl
        (λ a h. rest-Kept a (omega arith) (λ _. ne_of_count a y (omega (arith, once a))))
        (omega (arith, once lm.s, one_if_self lm.s)) over_unlinked

  deep-IsTaken : IsTaken done lm.color lm.x (spine lm.way (down turn new_place))
  deep-IsTaken =
      let (_, same, _, dark_x, _, bal_x) = lm.within.balanced in
      record {
        rep =
            subst (λ q. Rep done q (paint black lm.x)) (owner-spine lm.way turn old_place new_place)
              (seated-x p ready p_node.1);
        over = over_done;
        apart = λ a. omega (arith, once a, count_place-spine a lm.way (down turn new_place));
        balanced = bal_x;
        bit = lm.within.rep.0.bit;
        flat = omega (arith, same);
        dark = dark_x;
        fits =
            IsBalancedAt-spine lm.way (down turn old_place) (down turn new_place) (0 + lm.color)
              (λ m f. f) refl lm.within.fits;
      }

  deep_depth : depth_place (spine lm.way (down turn new_place)) < depth deep + depth_place up + 2
  deep_depth = omega (arith, depth_place-spine lm.way (down turn new_place), lm.depths)

  pub erase_deep :
      0 < root_of deep
      → depth deep + depth_place up + 2 ≤ fuel
      → Returns
          (λ r. IsRbTree (order_at (spine lm.way (down turn new_place)) lm.x) r.1)
          (rb_erase fuel n st)
  unfolding rb_erase erase_node erase_full
  erase_deep not_next enough =
      let (node_n, at_l, (node_y, at_deep, at_rr)) = within.rep in
      let (node_s, nothing, at_x) = lm.within.rep in
      let right_st = with_child right lm.s y unlinked in
      simp
        (
          child-ok st n node_n.mapped right,
          child-ok st n node_n.mapped left,
          node_n.at_left,
          node_n.at_right,
          nonzero l at_l.0.positive,
          nonzero y node_y.positive,
          child-ok st y node_y.mapped left,
          node_y.at_left,
          nonzero (root_of deep) not_next,
          lm.found,
          child-ok st lm.s node_s.mapped right,
          node_s.at_right,
          set_child-ok st p p_node.0 left (root_of lm.x),
          set_child-ok unlinked lm.s node_s.mapped right y,
          rb_set_parent-ok right_st y n cy lm.s node_y.mapped node_y.packed node_y.parent_link
              node_y.bit node_s.link,
          erase_replace-ok p ready p_node.1,
        )
        (subst
          (λ q.
            Returns (λ r. IsRbTree (order_at (spine lm.way (down turn new_place)) lm.x) r.1)
              ((if rebalance lm.color lm.x q == 0
                  then pure tt
                  else erase_loop fuel 0 (rebalance lm.color lm.x q))
                done))
          (sym (owner-spine lm.way turn old_place new_place))
          (taken-IsRbTree done lm.color lm.x (spine lm.way (down turn new_place)) fuel deep-IsTaken
            (omega (arith, deep_depth))))
