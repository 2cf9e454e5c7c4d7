-- ===== src/Rbtree/Insert/Recolor.antt =====
-- The colour flips of __rb_insert, and the tests that choose a case.
use common_project_template.Base.{ℕ, ◌+◌, ◌≤◌, ◌≡◌, refl, false, ◌==◌, ==_refl, arith, ok, ◌∙◌}
use common_project_template.Rbtree.{
  Ptr, Side, left, right, other, State, Cmd, field, red, black, red_child,
}
use common_project_template.Rbtree.Tree.{
  Tree, leaf, node, Place, under, fork, root_of, owner, sub, count, count_place, one_if,
  one_if_self, color_of_root,
}
use common_project_template.Rbtree.Access.{
  child-ok, rb_set_parent_color-ok, rb_parent-ok, rb_is_red-ok, bit_or-color, parent_of-add,
  color_of-add,
}
use common_project_template.Rbtree.Rep.{
  IsNode, Rep, RepPlace, Kept, Rep-Kept, Rep-moved, RepPlace-Kept, fork-Rep,
}
use common_project_template.Rbtree.Frame.{nonzero, ne_of_count, Kept-then, Kept-pc, with_pc}
use common_project_template.Rbtree.Insert.{insert_case}

-- `p && rb_is_red(p)`, of the root of a subtree.
pub red_child-ok :
    (st : State) (t : Tree) (up : Ptr)
    → Rep st up t
    → red_child (root_of t) st ≡ ok (color_of_root t == 0, st)
unfolding red_child
red_child-ok st leaf up rep = refl
red_child-ok st (node l y c r) up (here, at_l, at_r) = simp (
  nonzero y here.positive,
  rb_is_red-ok st y here.mapped,
  here.packed,
  color_of-add up c here.parent_link here.bit,
)

-- A node `g` with its child `p` and the uncle `y`, which change their colours.
pub record IsFlippable (st : State) (s sn : Side) (t : Tree) (p : Ptr) (sib : Tree) (g : Ptr)
    (d : ℕ) (ul : Tree) (y : Ptr) (ur : Tree) (up : Place) : Type 0 where
  pub at_p : Rep st g (fork sn t p red sib)
  pub over : RepPlace st p (under s g d (node ul y red ur) up)
  pub once :
      (a : Ptr)
      → one_if (a == g)
          + one_if (a == p)
          + one_if (a == y)
          + count a t
          + count a sib
          + count a ul
          + count a ur
          + count_place a up
        ≤ 1

-- The nodes of it.
record IsOpened (st : State) (s sn : Side) (t : Tree) (p : Ptr) (sib : Tree) (g : Ptr) (d : ℕ)
    (ul : Tree) (y : Ptr) (ur : Tree) (up : Place) : Type 0 where
  node_p : IsNode st g p red (root_of (sub sn t sib)) (root_of (sub sn sib t))
  at_t : Rep st p t
  at_sib : Rep st p sib
  node_g :
      IsNode st
        (owner up)
        g
        d
        (root_of (sub s (fork sn t p red sib) (node ul y red ur)))
        (root_of (sub s (node ul y red ur) (fork sn t p red sib)))
  at_u : Rep st g (node ul y red ur)
  above : RepPlace st g up

abbrev pub flipped : State → (p g y up : Ptr) → State
flipped st p g y up = with_pc g (up + red) (with_pc p (g + black) (with_pc y (g + black) st))

module _ (t : Tree) (p : Ptr) (sib : Tree) (ul : Tree) (y : Ptr) (ur : Tree) where
  same_roots :
      (s sn : Side) (c : ℕ)
      → (root_of (sub s (fork sn t p red sib) (node ul y red ur))
          ≡ root_of (sub s (fork sn t p c sib) (node ul y c ur)))
        × (root_of (sub s (node ul y red ur) (fork sn t p red sib))
            ≡ root_of (sub s (node ul y c ur) (fork sn t p c sib)))
  same_roots left left c = (refl, refl)
  same_roots left right c = (refl, refl)
  same_roots right left c = (refl, refl)
  same_roots right right c = (refl, refl)

module _ {st : State} (t : Tree) (p : Ptr) (sib : Tree) (g : Ptr) (d : ℕ) (ul : Tree) (y : Ptr)
    (ur : Tree) (up : Place) where
  opened :
      (s sn : Side)
      → IsFlippable st s sn t p sib g d ul y ur up
      → IsOpened st s sn t p sib g d ul y ur up
  opened left left f = record {
    node_p = f.at_p.0;
    at_t = f.at_p.1;
    at_sib = f.at_p.2;
    node_g = f.over.0;
    at_u = f.over.1;
    above = f.over.2;
  }
  opened left right f = record {
    node_p = f.at_p.0;
    at_t = f.at_p.2;
    at_sib = f.at_p.1;
    node_g = f.over.0;
    at_u = f.over.1;
    above = f.over.2;
  }
  opened right left f = record {
    node_p = f.at_p.0;
    at_t = f.at_p.1;
    at_sib = f.at_p.2;
    node_g = f.over.0;
    at_u = f.over.1;
    above = f.over.2;
  }
  opened right right f = record {
    node_p = f.at_p.0;
    at_t = f.at_p.2;
    at_sib = f.at_p.1;
    node_g = f.over.0;
    at_u = f.over.1;
    above = f.over.2;
  }

  far_child : (s sn : Side) → IsFlippable st s sn t p sib g d ul y ur up → field (other s) st g ≡ y
  far_child left sn f = f.over.0.at_right
  far_child right sn f = f.over.0.at_left

  module _ (s sn : Side) (f : IsFlippable st s sn t p sib g d ul y ur up) where
    st' : State
    st' = flipped st p g y (owner up)

    ne_yg : (y == g) ≡ false
    ne_yg = ne_of_count y g (omega (arith, f.once y, one_if_self y))

    ne_yp : (y == p) ≡ false
    ne_yp = ne_of_count y p (omega (arith, f.once y, one_if_self y))

    ne_pg : (p == g) ≡ false
    ne_pg = ne_of_count p g (omega (arith, f.once p, one_if_self p))

    ne_gp : (g == p) ≡ false
    ne_gp = ne_of_count g p (omega (arith, f.once g, one_if_self g))

    ne_gy : (g == y) ≡ false
    ne_gy = ne_of_count g y (omega (arith, f.once g, one_if_self g))

    flip-Kept :
        {but : Ptr} (a : Ptr)
        → one_if (a == g) ≡ 0
        → one_if (a == p) ≡ 0
        → ((a == but) ≡ false → (a == y) ≡ false)
        → Kept st st' but a
    unfolding st'
    flip-Kept a not_g not_p not_y = Kept-then (Kept-pc y (g + black) not_y) (
        Kept-then (Kept-pc p (g + black) (λ _. ne_of_count a p not_p))
          (Kept-pc g (owner up + red) (λ _. ne_of_count a g not_g)))

    after_child :
        (x : Tree) → ((a : Ptr) → count a x ≤ count a t + count a sib) → Rep st p x → Rep st' p x
    after_child x within rep =
        Rep-Kept {but = g} x p
          (λ a h.
            flip-Kept a (omega (arith, f.once a, within a)) (omega (arith, f.once a, within a))
              (λ _. ne_of_count a y (omega (arith, f.once a, within a))))
          (omega (arith, f.once g, one_if_self g, within g)) rep

    after_u : Rep st' g (node ul y black ur)
    unfolding st'
    after_u =
        let o = opened s sn f in
        Rep-moved (node ul y red ur) g g black
          (λ a h. flip-Kept a (omega (arith, f.once a)) (omega (arith, f.once a)) (λ e. e))
          (λ a. omega (arith, f.once a)) o.node_g.link (omega arith)
          (λ h. rw (ne_yg, ne_yp, ==_refl y) refl) o.at_u

    after_p : Rep st' g (fork sn t p black sib)
    unfolding st'
    after_p =
        let o = opened s sn f in
        fork-Rep sn st' g p black t sib
          (record {
            mapped = o.node_p.mapped;
            positive = o.node_p.positive;
            link = o.node_p.link;
            parent_link = o.node_p.parent_link;
            bit = omega arith;
            packed = rw (ne_pg, ==_refl p) refl;
            at_left = o.node_p.at_left;
            at_right = o.node_p.at_right;
          })
          (after_child t (λ a. omega arith) o.at_t) (after_child sib (λ a. omega arith) o.at_sib)

    after_above : RepPlace st' g up
    unfolding st'
    after_above =
        let o = opened s sn f in
        RepPlace-Kept {but = g} g up
          (λ a h.
            flip-Kept a (omega (arith, f.once a)) (omega (arith, f.once a))
              (λ _. ne_of_count a y (omega (arith, f.once a))))
          (omega (arith, f.once g, one_if_self g)) refl o.above

    -- The subtree of `g` after the flips.
    pub flipped-Rep :
        Rep
          (flipped st p g y (owner up))
          (owner up)
          (fork s (fork sn t p black sib) g red (node ul y black ur))
    unfolding st'
    flipped-Rep =
        let o = opened s sn f in
        let roots = same_roots t p sib ul y ur s sn black in
        fork-Rep s st' (owner up) g red (fork sn t p black sib) (node ul y black ur)
          (record {
            mapped = o.node_g.mapped;
            positive = o.node_g.positive;
            link = o.node_g.link;
            parent_link = o.node_g.parent_link;
            bit = omega arith;
            packed = rw (==_refl g) refl;
            at_left = o.node_g.at_left ∙ roots.0;
            at_right = o.node_g.at_right ∙ roots.1;
          })
          after_p after_u

    pub flipped-RepPlace : RepPlace (flipped st p g y (owner up)) g up
    unfolding st'
    flipped-RepPlace = after_above

    pub insert_case-flip :
        (again : (node parent : Ptr) → Cmd (Unit {0})) (n : Ptr)
        → insert_case again s n p g st ≡ again g (owner up) (flipped st p g y (owner up))
    unfolding insert_case
    insert_case-flip again n =
        let o = opened s sn f in
        let g_in = o.node_g.mapped in
        let one = with_pc y (g + black) st in
        let two = with_pc p (g + black) one in
        let up_link = o.node_g.parent_link in
        simp (
          child-ok st g g_in (other s),
          far_child s sn f,
          red_child-ok st (node ul y red ur) g o.at_u,
          rb_set_parent_color-ok st y o.at_u.0.mapped g black,
          bit_or-color g black o.node_g.link (omega arith),
          rb_set_parent_color-ok one p o.node_p.mapped g black,
          rb_parent-ok two g g_in,
          ne_gp,
          ne_gy,
          o.node_g.packed,
          parent_of-add (owner up) d up_link o.node_g.bit,
          rb_set_parent_color-ok two g g_in (owner up) red,
          bit_or-color (owner up) red up_link (omega arith),
        )
