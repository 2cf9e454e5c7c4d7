-- ===== src/Rbtree/Insert/Turn.antt =====
-- The rotations of __rb_insert.
use common_project_template.Base.{ℕ, ◌<◌, ◌≡◌, refl, true, false, ◌==◌, arith, ok, Returns, returns}
use common_project_template.Rbtree.{
  Ptr, Side, left, right, other, State, field, with_child, red, black,
}
use common_project_template.Rbtree.Tree.{Tree, Place, root_of, one_if_self, paint}
use common_project_template.Rbtree.Access.{child-ok, set_child-ok}
use common_project_template.Rbtree.Rep.{Rep, Rep-Kept}
use common_project_template.Rbtree.Frame.{
  ne_of_count, Kept-then, Kept-child, paint_child-ok, relink,
}
use common_project_template.Rbtree.Rotate.{IsTurnable, turned}
use common_project_template.Rbtree.Rotate.Nodes.{IsTurned, relink-IsTurned}
use common_project_template.Rbtree.Rotate.Parents.{set_parents-ok}
use common_project_template.Rbtree.Insert.{insert_outer, insert_rotate}

-- The subtree between the nodes before it is painted.
pub middle :
    (s : Side) (st : State) (p g : Ptr) (x b u : Tree) (d : ℕ) (up : Place)
    (ready : IsTurnable st s p g x b u d up)
    → Rep (with_child (other s) p g (with_child s g (root_of b) st)) ready.b_owner b
middle s st p g x b u d up ready =
    Rep-Kept {but = g} b ready.b_owner
      (λ a h.
        Kept-then (Kept-child s g (root_of b) (ne_of_count a g (omega (arith, ready.once a))))
          (Kept-child (other s) p g (ne_of_count a p (omega (arith, ready.once a)))))
      (omega (arith, ready.once g, one_if_self g)) ready.at_b

pub insert_outer-ok :
    (s : Side) (st : State) (p g : Ptr) (x b u : Tree) (d : ℕ) (up : Place)
    (ready : IsTurnable st s p g x b u d up) (small : 1 < 2)
    → insert_outer s p g (root_of b) st ≡ ok (tt, relink up p (turned st ready red black small))
unfolding insert_outer
insert_outer-ok left st p g x b u d up ready small =
    simp
      (
        set_child-ok st g ready.g_mapped left (root_of b),
        set_child-ok (with_child left g (root_of b) st) p ready.p_mapped right g,
        paint_child-ok (with_child right p g (with_child left g (root_of b) st)) b ready.b_owner g
            black (middle left st p g x b u d up ready) ready.g_link small,
      )
      (set_parents-ok left st p g x b u d up ready red black small (omega arith))
insert_outer-ok right st p g x b u d up ready small =
    simp
      (
        set_child-ok st g ready.g_mapped right (root_of b),
        set_child-ok (with_child right g (root_of b) st) p ready.p_mapped left g,
        paint_child-ok (with_child left p g (with_child right g (root_of b) st)) b ready.b_owner g
            black (middle right st p g x b u d up ready) ready.g_link small,
      )
      (set_parents-ok right st p g x b u d up ready red black small (omega arith))

-- Case 3 ends with `p` in the place of `g`.
pub insert_outer-IsTurned :
    (s : Side) (st : State) (p g : Ptr) (x b u : Tree) (d : ℕ) (up : Place)
    → IsTurnable st s p g x b u d up
    → Returns
        (λ r. IsTurned r.1 s p g x (paint black b) u d red up)
        (insert_outer s p g (root_of b) st)
insert_outer-IsTurned s st p g x b u d up ready =
    let small : 1 < 2 = omega arith in
    rw (insert_outer-ok s st p g x b u d up ready small)
      (returns (relink-IsTurned s st p g x b u d up ready red black small (omega arith)))

pub insert_rotate-outer :
    (s : Side) (st : State) (n p g q : Ptr)
    → st.mapped p ≡ true
    → field (other s) st p ≡ q
    → (n == q) ≡ false
    → insert_rotate s n p g st ≡ insert_outer s p g q st
unfolding insert_rotate
insert_rotate-outer s st n p g q mapped at ne = rw (child-ok st p mapped (other s), at, ne) refl
