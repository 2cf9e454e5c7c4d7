-- ===== src/Rbtree/Erase/Outer.antt =====
-- Cases 1 and 4 of ____rb_erase_color: the sibling `p` of the node is rotated into the place of their
-- parent `g`. It is the `s` child.
use common_project_template.Base.{
  ℕ, ◌+◌, ◌<◌, ◌≡◌, refl, true, ◌==◌, if◌then◌else◌, arith, ok, subst, Returns, returns,
}
use common_project_template.Command.{pure}
use common_project_template.Rbtree.{
  Ptr, Side, left, right, other, State, field, with_child, red, black, rb_set_parent, rb_color,
}
use common_project_template.Rbtree.Tree.{Tree, leaf, node, Place, root_of, paint, color_of_root}
use common_project_template.Rbtree.Access.{
  IsLink, child-ok, set_child-ok, get_pc-ok, put_pc-ok, rb_set_parent_color-ok, bit_or-color,
  bit_or-parent, color_of-add,
}
use common_project_template.Rbtree.Rep.{Rep}
use common_project_template.Rbtree.Frame.{nonzero, with_pc, painted, relink}
use common_project_template.Rbtree.Rotate.{IsTurnable, turned}
use common_project_template.Rbtree.Rotate.Nodes.{IsTurned, relink-IsTurned}
use common_project_template.Rbtree.Rotate.Parents.{set_parents-ok}
use common_project_template.Rbtree.Insert.Turn.{middle}
use common_project_template.Rbtree.Erase.{erase_outer, erase_red_sibling}

pub rb_set_parent-ok :
    (st : State) (y q : Ptr) (c : ℕ) (up : Ptr)
    → st.mapped y ≡ true
    → st.parent_color y ≡ q + c
    → IsLink q
    → c < 2
    → IsLink up
    → rb_set_parent y up st ≡ ok (tt, with_pc y (up + c) st)
unfolding rb_set_parent rb_color
rb_set_parent-ok st y q c up mapped packed q_link bit link = simp (
  get_pc-ok st y mapped,
  packed,
  color_of-add q c q_link bit,
  bit_or-parent up c link bit,
  put_pc-ok st y mapped,
)

-- `if (tmp2) rb_set_parent(tmp2, parent);`
adopt-ok :
    (st : State) (b : Tree) (q up : Ptr)
    → Rep st q b
    → IsLink up
    → (if root_of b == 0 then pure tt else rb_set_parent (root_of b) up) st
      ≡ ok (tt, painted b up (color_of_root b) st)
adopt-ok st leaf q up rep link = refl
adopt-ok st (node l y c r) q up rep link = simp (
  nonzero y rep.0.positive,
  rb_set_parent-ok st y q c up rep.0.mapped rep.0.packed rep.0.parent_link rep.0.bit link,
)

pub paint-same : (b : Tree) → paint (color_of_root b) b ≡ b
paint-same leaf = refl
paint-same (node l y c r) = refl

module _ (st : State) (p g : Ptr) (xl : Tree) (y : Ptr) (xr b u : Tree) (d : ℕ) (up : Place)
    (y_in : st.mapped y ≡ true) where
  abbrev pub after_far : State
  after_far = with_pc y (p + black) st

  erase_outer-ok :
      (s : Side) (ready : IsTurnable after_far s p g (node xl y black xr) b u d up)
      (small : color_of_root b < 2)
      → field (other s) st p ≡ root_of b
      → erase_outer (other s) g p y st
        ≡ ok (tt, relink up p (turned after_far ready black (color_of_root b) small))
  unfolding erase_outer
  erase_outer-ok left ready small near =
      simp
        (
          child-ok st p ready.p_mapped right,
          near,
          set_child-ok st g ready.g_mapped left (root_of b),
          set_child-ok (with_child left g (root_of b) st) p ready.p_mapped right g,
          rb_set_parent_color-ok (with_child right p g (with_child left g (root_of b) st)) y y_in p
              black,
          bit_or-color p black ready.p_link (omega arith),
          adopt-ok (with_child right p g (with_child left g (root_of b) after_far)) b ready.b_owner
              g (middle left after_far p g (node xl y black xr) b u d up ready) ready.g_link,
        )
        (set_parents-ok left after_far p g (node xl y black xr) b u d up ready black
          (color_of_root b) small (omega arith))
  erase_outer-ok right ready small near =
      simp
        (
          child-ok st p ready.p_mapped left,
          near,
          set_child-ok st g ready.g_mapped right (root_of b),
          set_child-ok (with_child right g (root_of b) st) p ready.p_mapped left g,
          rb_set_parent_color-ok (with_child left p g (with_child right g (root_of b) st)) y y_in p
              black,
          bit_or-color p black ready.p_link (omega arith),
          adopt-ok (with_child left p g (with_child right g (root_of b) after_far)) b ready.b_owner
              g (middle right after_far p g (node xl y black xr) b u d up ready) ready.g_link,
        )
        (set_parents-ok right after_far p g (node xl y black xr) b u d up ready black
          (color_of_root b) small (omega arith))

  -- Case 4.
  pub erase_outer-IsTurned :
      (s : Side)
      → IsTurnable after_far s p g (node xl y black xr) b u d up
      → color_of_root b < 2
      → field (other s) st p ≡ root_of b
      → Returns
          (λ r. IsTurned r.1 s p g (node xl y black xr) b u d black up)
          (erase_outer (other s) g p y st)
  erase_outer-IsTurned s ready small near = rw (erase_outer-ok s ready small near) (
      returns (
        subst
          (λ c.
            IsTurned (relink up p (turned after_far ready black (color_of_root b) small)) s p g
              (node xl y black xr) c u d black up)
          (paint-same b)
          (relink-IsTurned s after_far p g (node xl y black xr) b u d up ready black
            (color_of_root b) small (omega arith))))

-- Case 1, with the red sibling's child `b` painted black.
module _ (st : State) (p g : Ptr) (x bl : Tree) (z : Ptr) (c : ℕ) (br u : Tree) (d : ℕ)
    (up : Place) where
  pub erase_red_sibling-ok :
      (s : Side) (ready : IsTurnable st s p g x (node bl z c br) u d up) (small : 1 < 2)
      → field (other s) st p ≡ z
      → erase_red_sibling (other s) g p st ≡ ok (z, relink up p (turned st ready red black small))
  unfolding erase_red_sibling
  erase_red_sibling-ok left ready small near = simp (
    child-ok st p ready.p_mapped right,
    near,
    set_child-ok st g ready.g_mapped left z,
    set_child-ok (with_child left g z st) p ready.p_mapped right g,
    rb_set_parent_color-ok (with_child right p g (with_child left g z st)) z ready.at_b.0.mapped g
        black,
    bit_or-color g black ready.g_link (omega arith),
    set_parents-ok left st p g x (node bl z c br) u d up ready red black small (omega arith),
  )
  erase_red_sibling-ok right ready small near = simp (
    child-ok st p ready.p_mapped left,
    near,
    set_child-ok st g ready.g_mapped right z,
    set_child-ok (with_child right g z st) p ready.p_mapped left g,
    rb_set_parent_color-ok (with_child left p g (with_child right g z st)) z ready.at_b.0.mapped g
        black,
    bit_or-color g black ready.g_link (omega arith),
    set_parents-ok right st p g x (node bl z c br) u d up ready red black small (omega arith),
  )
