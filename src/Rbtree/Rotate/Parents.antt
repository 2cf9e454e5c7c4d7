-- ===== src/Rbtree/Rotate/Parents.antt =====
-- __rb_rotate_set_parents, after the writes to the children.
use common_project_template.Base.{ℕ, ◌+◌, ◌≤◌, ◌<◌, ◌≡◌, refl, true, ◌==◌, arith, ok, ap, ◌∙◌}
use common_project_template.Rbtree.{Ptr, Side, left, right, State, rotate_set_parents}
use common_project_template.Rbtree.Tree.{
  Tree, leaf, node, Place, owner, count_place, one_if, one_if_self,
}
use common_project_template.Rbtree.Access.{
  IsLink, parent_of-add, bit_or-color, rb_parent-ok, get_pc-ok, put_pc-ok, rb_set_parent_color-ok,
}
use common_project_template.Rbtree.Rep.{RepPlace}
use common_project_template.Rbtree.Frame.{with_pc, Kept-painted, relink, change_child-ok}
use common_project_template.Rbtree.Rotate.{
  IsTurnable, joined, repainted, ne_gp, turned, after_place,
}

rotate_set_parents-ok :
    (st : State) (p g : Ptr) (d c : ℕ) (up : Place)
    → st.mapped g ≡ true
    → st.mapped p ≡ true
    → st.parent_color g ≡ owner up + d
    → IsLink (owner up)
    → d < 2
    → IsLink p
    → c < 2
    → 0 < g
    → RepPlace (repainted p g (owner up) d c st) g up
    → ((a : Ptr) → one_if (a == g) + count_place a up ≤ 1)
    → rotate_set_parents g p c st ≡ ok (tt, relink up p (repainted p g (owner up) d c st))
unfolding rotate_set_parents
rotate_set_parents-ok st p g d c up g_in p_in packed up_link d_bit p_link c_bit pos over once =
    simp
      (
        rb_parent-ok st g g_in,
        get_pc-ok st g g_in,
        packed,
        parent_of-add (owner up) d up_link d_bit,
        put_pc-ok st p p_in,
        rb_set_parent_color-ok (with_pc p (owner up + d) st) g g_in p c,
        bit_or-color p c p_link c_bit,
      )
      (change_child-ok (repainted p g (owner up) d c st) up g p over pos once)

-- The writes to the children and to the root of `b`, as the code makes them.
pub joined-parent_color :
    (s : Side) (st : State) (p g : Ptr) (x b u : Tree) (d : ℕ) (up : Place) (e : ℕ)
    → IsTurnable st s p g x b u d up
    → (joined s p g b e st).parent_color g ≡ owner up + d
joined-parent_color left st p g x b u d up e ready =
    (Kept-painted {but = p} g b g e (omega (arith, ready.once g, one_if_self g))).parent_color
      (ne_gp st ready)
    ∙ ready.g_packed
joined-parent_color right st p g x b u d up e ready =
    (Kept-painted {but = p} g b g e (omega (arith, ready.once g, one_if_self g))).parent_color
      (ne_gp st ready)
    ∙ ready.g_packed

pub joined-mapped :
    (s : Side) (st : State) (p g : Ptr) (b : Tree) (e : ℕ)
    → (joined s p g b e st).mapped ≡ st.mapped
joined-mapped left st p g leaf e = refl
joined-mapped left st p g (node l y z r) e = refl
joined-mapped right st p g leaf e = refl
joined-mapped right st p g (node l y z r) e = refl

pub set_parents-ok :
    (s : Side) (st : State) (p g : Ptr) (x b u : Tree) (d : ℕ) (up : Place)
    (ready : IsTurnable st s p g x b u d up) (c e : ℕ) (small : e < 2)
    → c < 2
    → rotate_set_parents g p c (joined s p g b e st)
      ≡ ok (tt, relink up p (turned st ready c e small))
set_parents-ok s st p g x b u d up ready c e small bit =
    let same = joined-mapped s st p g b e in
    rotate_set_parents-ok (joined s p g b e st) p g d c up (ap (λ f. f g) same ∙ ready.g_mapped)
      (ap (λ f. f p) same ∙ ready.p_mapped) (joined-parent_color s st p g x b u d up e ready)
      ready.up_link ready.bit ready.p_link bit ready.g_positive (after_place st ready c e small)
      (λ a. omega (arith, ready.once a))
