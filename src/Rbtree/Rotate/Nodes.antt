-- ===== src/Rbtree/Rotate/Nodes.antt =====
-- The rotated tree, after all writes of a rotation.
use common_project_template.Base.{ℕ, ◌+◌, ◌<◌, ◌≡◌, refl, ◌==◌, ==_refl, arith, ◌∙◌, sym}
use common_project_template.Rbtree.Fork.{count-fork}
use common_project_template.Rbtree.{Ptr, Side, left, right, State, with_child}
use common_project_template.Rbtree.Tree.{
  Tree, node, Place, fork, root_of, owner, sub, count, one_if, one_if_self, paint, count-paint,
}
use common_project_template.Rbtree.Rep.{IsNode, Rep, RepPlace, Rep-Kept, null_out}
use common_project_template.Rbtree.Frame.{
  update-miss, Kept-painted, relink, Kept-relink, RepPlace-relink,
}
use common_project_template.Rbtree.Rotate.{
  IsTurnable, ne_pg, ne_gp, turned, after_x, after_u, after_b, after_place, update-hit,
  root_of-paint,
}

-- The two nodes after the writes.
pub turned-nodes :
    (s : Side) (st : State) (p g : Ptr) (x b u : Tree) (d : ℕ) (up : Place)
    (ready : IsTurnable st s p g x b u d up) (c e : ℕ) (small : e < 2)
    → c < 2
    → IsNode
        (turned st ready c e small)
        (owner up)
        p
        d
        (root_of (sub s x (node b g c u)))
        (root_of (sub s (node u g c b) x))
      × IsNode
          (turned st ready c e small)
          p
          g
          c
          (root_of (sub s (paint e b) u))
          (root_of (sub s u (paint e b)))
turned-nodes left st p g x b u d up ready c e small bit =
    let old = with_child right p g (with_child left g (root_of b) st) in
    let kp =
      Kept-painted {st = old} {but = g} p b g e (omega (arith, ready.once p, one_if_self p)) in
    let kg =
      Kept-painted {st = old} {but = p} g b g e (omega (arith, ready.once g, one_if_self g)) in
    (
      record {
        mapped = kp.mapped ∙ ready.p_mapped;
        positive = ready.p_positive;
        link = ready.p_link;
        parent_link = ready.up_link;
        bit = ready.bit;
        packed = rw (ne_pg st ready, ==_refl p) refl;
        at_left =
            kp.rb_left ∙ (update-miss st.rb_left g (root_of b) p (ne_pg st ready) ∙ ready.p_child);
        at_right = kp.rb_right ∙ update-hit st.rb_right p g;
      },
      record {
        mapped = kg.mapped ∙ ready.g_mapped;
        positive = ready.g_positive;
        link = ready.g_link;
        parent_link = ready.p_link;
        bit = bit;
        packed = rw (==_refl g) refl;
        at_left = kg.rb_left ∙ (update-hit st.rb_left g (root_of b) ∙ sym (root_of-paint e b));
        at_right = kg.rb_right ∙ (update-miss st.rb_right p g g (ne_gp st ready) ∙ ready.g_child);
      },
    )
turned-nodes right st p g x b u d up ready c e small bit =
    let old = with_child left p g (with_child right g (root_of b) st) in
    let kp =
      Kept-painted {st = old} {but = g} p b g e (omega (arith, ready.once p, one_if_self p)) in
    let kg =
      Kept-painted {st = old} {but = p} g b g e (omega (arith, ready.once g, one_if_self g)) in
    (
      record {
        mapped = kp.mapped ∙ ready.p_mapped;
        positive = ready.p_positive;
        link = ready.p_link;
        parent_link = ready.up_link;
        bit = ready.bit;
        packed = rw (ne_pg st ready, ==_refl p) refl;
        at_left = kp.rb_left ∙ update-hit st.rb_left p g;
        at_right =
            kp.rb_right
            ∙ (update-miss st.rb_right g (root_of b) p (ne_pg st ready) ∙ ready.p_child);
      },
      record {
        mapped = kg.mapped ∙ ready.g_mapped;
        positive = ready.g_positive;
        link = ready.g_link;
        parent_link = ready.p_link;
        bit = bit;
        packed = rw (==_refl g) refl;
        at_left = kg.rb_left ∙ (update-miss st.rb_left p g g (ne_gp st ready) ∙ ready.g_child);
        at_right = kg.rb_right ∙ (update-hit st.rb_right g (root_of b) ∙ sym (root_of-paint e b));
      },
    )

-- The rotated tree, in its place.
pub record IsTurned (st : State) (s : Side) (p g : Ptr) (x b u : Tree) (d c : ℕ) (up : Place)
    : Type 0 where
  pub nodes : Rep st (owner up) (fork s x p d (fork s b g c u))
  pub over : RepPlace st p up

turned-Rep :
    (s : Side) (st : State) (p g : Ptr) (x b u : Tree) (d : ℕ) (up : Place)
    (ready : IsTurnable st s p g x b u d up) (c e : ℕ) (small : e < 2)
    → c < 2
    → Rep (turned st ready c e small) (owner up) (fork s x p d (fork s (paint e b) g c u))
turned-Rep left st p g x b u d up ready c e small bit =
    let (at_p, at_g) = turned-nodes left st p g x b u d up ready c e small bit in
    (
      at_p,
      after_x st ready c e small,
      (at_g, after_b st ready c e small, after_u st ready c e small),
    )
turned-Rep right st p g x b u d up ready c e small bit =
    let (at_p, at_g) = turned-nodes right st p g x b u d up ready c e small bit in
    (
      at_p,
      (at_g, after_u st ready c e small, after_b st ready c e small),
      after_x st ready c e small,
    )

-- What a rotation counts is what was there.
pub count-turned :
    (s : Side) (a p g : Ptr) (x b u : Tree) (d c : ℕ)
    → count a (fork s x p d (fork s b g c u))
      ≡ one_if (a == p) + one_if (a == g) + count a x + count a b + count a u
count-turned s a p g x b u d c =
    omega (arith, count-fork s a x p d (fork s b g c u), count-fork s a b g c u)

pub relink-IsTurned :
    (s : Side) (st : State) (p g : Ptr) (x b u : Tree) (d : ℕ) (up : Place)
    (ready : IsTurnable st s p g x b u d up) (c e : ℕ) (small : e < 2)
    → c < 2
    → IsTurned (relink up p (turned st ready c e small)) s p g x (paint e b) u d c up
relink-IsTurned s st p g x b u d up ready c e small bit =
    let whole = fork s x p d (fork s (paint e b) g c u) in
    let rep = turned-Rep s st p g x b u d up ready c e small bit in
    record {
      nodes =
          Rep-Kept {but = 0} whole (owner up)
            (λ a h. Kept-relink a up p (
              omega
                (arith, ready.once a, count-turned s a p g x (paint e b) u d c, count-paint a e b)))
            (null_out (turned st ready c e small) (owner up) whole rep) rep;
      over =
          RepPlace-relink (turned st ready c e small) up g p (after_place st ready c e small)
            (λ a. omega (arith, ready.once a));
    }
