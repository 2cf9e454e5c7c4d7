-- ===== src/Rbtree/Insert/Inner.antt =====
-- Case 2 of __rb_insert, which becomes case 3.
use common_project_template.Base.{ℕ, ◌+◌, ◌<◌, ◌≡◌, refl, false, ◌==◌, ==_refl, arith, ap, ◌∙◌}
use common_project_template.Rbtree.{
  Ptr, Side, left, right, other, State, field, with_child, red, black,
}
use common_project_template.Rbtree.Tree.{
  Tree, Place, under, fork, root_of, count, count_place, one_if_self, paint, ne_of_one_if,
  count-paint,
}
use common_project_template.Rbtree.Access.{
  child-ok, set_child-ok, rb_set_parent_color-ok, bit_or-color,
}
use common_project_template.Rbtree.Rep.{IsNode, Rep, Kept, Rep-Kept, RepPlace-Kept, IsNode-Kept}
use common_project_template.Rbtree.Frame.{with_pc, paint_child-ok}
use common_project_template.Rbtree.Rotate.{
  IsTurnable, joined, turned, ne_gp, after_x, after_b, after_u, after_place,
}
use common_project_template.Rbtree.Rotate.Nodes.{turned-nodes}
use common_project_template.Rbtree.Rotate.Parents.{joined-mapped}
use common_project_template.Rbtree.Insert.{insert_outer, insert_rotate}
use common_project_template.Rbtree.Insert.Turn.{middle}

-- After the first half of case 2: `node` stands above its parent, but keeps its own parent and colour,
-- which case 3 sets; `c` is the new colour of that parent.
abbrev pub halfway : Side → State → (n p : Ptr) → Tree → (c : ℕ) → State
halfway s st n p inner c = with_pc p (n + c) (joined (other s) n p inner black st)

module _ (s : Side) (st : State) (n p : Ptr) (outer inner sib : Tree) (g : Ptr) (d : ℕ) (u : Tree)
    (up : Place) {c0 : ℕ} (c : ℕ)
    (ready : IsTurnable st (other s) n p outer inner sib c0 (under s g d u up))
    (small : 1 < 2) where
  from : State
  from = turned st ready c black small

  halfway-Kept : (a : Ptr) → Kept from (halfway s st n p inner c) n a
  unfolding from
  halfway-Kept a = record {
    mapped = refl;
    rb_left = refl;
    rb_right = refl;
    parent_color = λ e. rw e refl;
  }

  halfway-IsNode :
      {up' a l r : Ptr} {e : ℕ}
      → IsNode from up' a e l r
      → (a == n) ≡ false
      → IsNode (halfway s st n p inner c) up' a e l r
  halfway-IsNode {a = a} here ne = IsNode-Kept (halfway-Kept a) ne here

  halfway-Rep :
      (t : Tree) (q : Ptr) → Rep from q t → count n t ≡ 0 → Rep (halfway s st n p inner c) q t
  halfway-Rep t q rep out = Rep-Kept t q (λ a h. halfway-Kept a) out rep

  own : count n outer + count n inner + count n sib + count n u + count_place n up ≡ 0
  own = omega (arith, ready.once n, one_if_self n)

  ne_gn : (g == n) ≡ false
  ne_gn = ne_of_one_if n g (omega (arith, ready.once n, one_if_self n))

pub inner-IsTurnable :
    {c0 : ℕ} (s : Side) (st : State) (n p : Ptr) (outer inner sib : Tree) (g : Ptr) (d : ℕ)
    (u : Tree) (up : Place) (c : ℕ)
    → (ready : IsTurnable st (other s) n p outer inner sib c0 (under s g d u up)) → 1 < 2
    → c < 2
    → IsTurnable (halfway s st n p inner c) s n g (fork s sib p c (paint black inner)) outer u d up
unfolding from
inner-IsTurnable left st n p outer inner sib g d u up c ready small bit =
    let (at_n, at_p) =
      turned-nodes right st n p outer inner sib _ (under left g d u up) ready c black small bit in
    let (above, at_u, over) = after_place st ready c black small in
    let outs = own left st n p outer inner sib g d u up c ready small in
    let node_p =
      halfway-IsNode left st n p outer inner sib g d u up c ready small at_p (ne_gp st ready) in
    let node_g =
      halfway-IsNode left st n p outer inner sib g d u up c ready small above
        (ne_gn left st n p outer inner sib g d u up c ready small) in
    record {
      p_mapped = at_n.mapped;
      p_positive = at_n.positive;
      p_link = at_n.link;
      p_child = at_n.at_left;
      g_mapped = node_g.mapped;
      g_positive = node_g.positive;
      g_link = node_g.link;
      g_packed = node_g.packed;
      g_child = node_g.at_right;
      up_link = node_g.parent_link;
      bit = node_g.bit;
      at_x = (
        node_p,
        halfway-Rep left st n p outer inner sib g d u up c ready small sib p
            (after_u st ready c black small) (omega (arith, outs)),
        halfway-Rep left st n p outer inner sib g d u up c ready small (paint black inner) p
            (after_b st ready c black small) (omega (arith, outs, count-paint n black inner)),
      );
      b_owner = n;
      at_b =
          halfway-Rep left st n p outer inner sib g d u up c ready small outer n
            (after_x st ready c black small) (omega (arith, outs));
      at_u =
          halfway-Rep left st n p outer inner sib g d u up c ready small u g at_u
            (omega (arith, outs));
      over =
          RepPlace-Kept {but = n} g up
            (λ a h. halfway-Kept left st n p outer inner sib g d u up c ready small a)
            (omega (arith, outs)) refl over;
      once = λ a. omega (arith, ready.once a, count-paint a black inner);
    }
inner-IsTurnable right st n p outer inner sib g d u up c ready small bit =
    let (at_n, at_p) =
      turned-nodes left st n p outer inner sib _ (under right g d u up) ready c black small bit in
    let (above, at_u, over) = after_place st ready c black small in
    let outs = own right st n p outer inner sib g d u up c ready small in
    let node_p =
      halfway-IsNode right st n p outer inner sib g d u up c ready small at_p (ne_gp st ready) in
    let node_g =
      halfway-IsNode right st n p outer inner sib g d u up c ready small above
        (ne_gn right st n p outer inner sib g d u up c ready small) in
    record {
      p_mapped = at_n.mapped;
      p_positive = at_n.positive;
      p_link = at_n.link;
      p_child = at_n.at_right;
      g_mapped = node_g.mapped;
      g_positive = node_g.positive;
      g_link = node_g.link;
      g_packed = node_g.packed;
      g_child = node_g.at_left;
      up_link = node_g.parent_link;
      bit = node_g.bit;
      at_x = (
        node_p,
        halfway-Rep right st n p outer inner sib g d u up c ready small (paint black inner) p
            (after_b st ready c black small) (omega (arith, outs, count-paint n black inner)),
        halfway-Rep right st n p outer inner sib g d u up c ready small sib p
            (after_u st ready c black small) (omega (arith, outs)),
      );
      b_owner = n;
      at_b =
          halfway-Rep right st n p outer inner sib g d u up c ready small outer n
            (after_x st ready c black small) (omega (arith, outs));
      at_u =
          halfway-Rep right st n p outer inner sib g d u up c ready small u g at_u
            (omega (arith, outs));
      over =
          RepPlace-Kept {but = n} g up
            (λ a h. halfway-Kept right st n p outer inner sib g d u up c ready small a)
            (omega (arith, outs)) refl over;
      once = λ a. omega (arith, ready.once a, count-paint a black inner);
    }

pub halfway-child :
    {c0 : ℕ} (s : Side) (st : State) (n p : Ptr) (outer inner sib : Tree) (g : Ptr) (d : ℕ)
    (u : Tree) (up : Place) (c : ℕ)
    → (ready : IsTurnable st (other s) n p outer inner sib c0 (under s g d u up)) → 1 < 2
    → c < 2
    → field (other s) (halfway s st n p inner c) n ≡ root_of outer
halfway-child left st n p outer inner sib g d u up c ready small bit =
    (turned-nodes right st n p outer inner sib _ (under left g d u up) ready c black small
      bit).0.at_right
halfway-child right st n p outer inner sib g d u up c ready small bit =
    (turned-nodes left st n p outer inner sib _ (under right g d u up) ready c black small
      bit).0.at_left

-- Case 2 becomes case 3, with `node` above its parent.
pub insert_rotate-inner :
    (s : Side) (st : State) (n p : Ptr) (outer inner sib : Tree) (g : Ptr) (d : ℕ) (u : Tree)
    (up : Place) (ready : IsTurnable st (other s) n p outer inner sib red (under s g d u up))
    → 1 < 2
    → field (other s) st p ≡ n
    → field s st n ≡ root_of inner
    → insert_rotate s n p g st ≡ insert_outer s n g (root_of outer) (halfway s st n p inner red)
unfolding insert_rotate
insert_rotate-inner left st n p outer inner sib g d u up ready small at_p at_n =
    let one = with_child right p (root_of inner) st in
    let two = with_child left n p one in
    let three = joined right n p inner black st in
    simp (
      child-ok st p ready.g_mapped right,
      at_p,
      ==_refl n,
      child-ok st n ready.p_mapped left,
      at_n,
      set_child-ok st p ready.g_mapped right (root_of inner),
      set_child-ok one n ready.p_mapped left p,
      paint_child-ok two inner ready.b_owner p black
          (middle right st n p outer inner sib red (under left g d u up) ready) ready.g_link small,
      rb_set_parent_color-ok three p
          (ap (λ f. f p) (joined-mapped right st n p inner black) ∙ ready.g_mapped) n red,
      bit_or-color n red ready.p_link (omega arith),
      child-ok (halfway left st n p inner red) n
          (ap (λ f. f n) (joined-mapped right st n p inner black) ∙ ready.p_mapped) right,
      halfway-child left st n p outer inner sib g d u up red ready small (omega arith),
    )
insert_rotate-inner right st n p outer inner sib g d u up ready small at_p at_n =
    let one = with_child left p (root_of inner) st in
    let two = with_child right n p one in
    let three = joined left n p inner black st in
    simp (
      child-ok st p ready.g_mapped left,
      at_p,
      ==_refl n,
      child-ok st n ready.p_mapped right,
      at_n,
      set_child-ok st p ready.g_mapped left (root_of inner),
      set_child-ok one n ready.p_mapped right p,
      paint_child-ok two inner ready.b_owner p black
          (middle left st n p outer inner sib red (under right g d u up) ready) ready.g_link small,
      rb_set_parent_color-ok three p
          (ap (λ f. f p) (joined-mapped left st n p inner black) ∙ ready.g_mapped) n red,
      bit_or-color n red ready.p_link (omega arith),
      child-ok (halfway right st n p inner red) n
          (ap (λ f. f n) (joined-mapped left st n p inner black) ∙ ready.p_mapped) left,
      halfway-child right st n p outer inner sib g d u up red ready small (omega arith),
    )
