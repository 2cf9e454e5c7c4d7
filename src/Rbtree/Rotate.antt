-- ===== src/Rbtree/Rotate.antt =====
-- The rotation of lib/rbtree/rbtree.c: a node `p` takes the place of its parent `g`, which becomes its
-- child on the other side and takes over the subtree `b` between them.
pub mod Nodes
pub mod Parents
use common_project_template.Base.{
  ℕ, ◌+◌, ◌≤◌, ◌<◌, ◌≡◌, refl, true, false, ◌==◌, ==_refl, arith, ok, ap, ◌∙◌, sym,
}
use common_project_template.Rbtree.Fork.{count-fork}
use common_project_template.Rbtree.{
  Ptr, Side, left, right, other, State, update, field, with_child, rotate_set_parents,
}
use common_project_template.Rbtree.Tree.{
  Tree, leaf, node, Place, under, fork, root_of, owner, sub, count, count_place, one_if,
  one_if_self, ne_of_one_if, paint, count-paint,
}
use common_project_template.Rbtree.Access.{
  IsLink, parent_of-add, bit_or-color, rb_parent-ok, get_pc-ok, put_pc-ok, rb_set_parent_color-ok,
}
use common_project_template.Rbtree.Rep.{
  IsNode, Rep, RepPlace, Kept, Rep-Kept, Rep-moved, RepPlace-Kept, null_out, Apart,
}
use common_project_template.Rbtree.Frame.{
  ne_of_count, Kept-then, Kept-child, Kept-pc, update-miss, with_pc, painted, Kept-painted,
  Kept-painted_root, relink, Kept-relink, change_child-ok, RepPlace-relink,
}

update-hit : (f : Ptr → ℕ) (p v : Ptr) → update f p v p ≡ v
update-hit f p v = rw (==_refl p) refl

root_of-paint : (c : ℕ) (b : Tree) → root_of (paint c b) ≡ root_of b
root_of-paint c leaf = refl
root_of-paint c (node l x d r) = refl

-- The parts of the tree, and the nodes that are turned: `x` stays below `p`, `u` below `g`; the fields
-- that the rotation sets may hold anything.
pub record IsTurnable (st : State) (s : Side) (p g : Ptr) (x b u : Tree) (d : ℕ) (up : Place)
    : Type 0 where
  pub p_mapped : st.mapped p ≡ true
  pub p_positive : 0 < p
  pub p_link : IsLink p
  pub p_child : field s st p ≡ root_of x
  pub g_mapped : st.mapped g ≡ true
  pub g_positive : 0 < g
  pub g_link : IsLink g
  pub g_packed : st.parent_color g ≡ owner up + d
  pub g_child : field (other s) st g ≡ root_of u
  pub up_link : IsLink (owner up)
  pub bit : d < 2
  pub at_x : Rep st p x
  pub b_owner : Ptr
  pub at_b : Rep st b_owner b
  pub at_u : Rep st g u
  pub over : RepPlace st g up
  pub once :
      (a : Ptr)
      → one_if (a == p) + one_if (a == g) + count a x + count a b + count a u + count_place a up ≤ 1

-- The writes to the children, and with them those to the parents and colours: `b` gets the colour `e`,
-- `g` the colour `c`, and `p` that of `g`.
abbrev pub joined : Side → (p g : Ptr) → Tree → ℕ → State → State
joined s p g b e st = painted b g e (with_child (other s) p g (with_child s g (root_of b) st))

abbrev pub repainted : (p g up : Ptr) → (d c : ℕ) → State → State
repainted p g up d c st = with_pc g (p + c) (with_pc p (up + d) st)

module _ {st : State} {but : Ptr} (s : Side) (p g up : Ptr) (b : Tree) (d c e : ℕ) (a : Ptr)
    (ne_p : (a == p) ≡ false) (ne_g : (a == g) ≡ false) where
  Kept-joined : count a b ≡ 0 → Kept st (joined s p g b e st) but a
  Kept-joined out =
      Kept-then (Kept-child s g (root_of b) ne_g)
        (Kept-then (Kept-child (other s) p g ne_p) (Kept-painted a b g e out))

  Kept-turned : count a b ≡ 0 → Kept st (repainted p g up d c (joined s p g b e st)) but a
  Kept-turned out =
      Kept-then (Kept-joined out)
        (Kept-then (Kept-pc p (up + d) (λ _. ne_p)) (Kept-pc g (p + c) (λ _. ne_g)))

Kept-turned_root :
    {st : State} (s : Side) (p g up : Ptr) (b : Tree) (d c e a : ℕ)
    → (a == p) ≡ false
    → (a == g) ≡ false
    → Kept st (repainted p g up d c (joined s p g b e st)) (root_of b) a
Kept-turned_root s p g up b d c e a ne_p ne_g = Kept-then (Kept-child s g (root_of b) ne_g) (
    Kept-then (Kept-child (other s) p g ne_p) (
      Kept-then (Kept-painted_root a b g e)
        (Kept-then (Kept-pc p (up + d) (λ _. ne_p)) (Kept-pc g (p + c) (λ _. ne_g)))))

-- The parent and colour of the root of `b` after it.
turned-parent_color :
    (st : State) (s : Side) (p g up : Ptr) (b : Tree) (d c e : ℕ)
    → count p b ≡ 0
    → count g b ≡ 0
    → 0 < count (root_of b) b
    → (repainted p g up d c (joined s p g b e st)).parent_color (root_of b) ≡ g + e
turned-parent_color st s p g up leaf d c e out_p out_g h = absurd (omega arith)
turned-parent_color st s p g up (node l y z r) d c e out_p out_g h =
    let ne_p : (y == p) ≡ false = ne_of_one_if p y (omega arith) in
    let ne_g : (y == g) ≡ false = ne_of_one_if g y (omega arith) in rw (ne_g, ne_p, ==_refl y) refl

joined-rb_node :
    (st : State) (s : Side) (p g : Ptr) (b : Tree) (e : ℕ)
    → (joined s p g b e st).rb_node ≡ st.rb_node
joined-rb_node st left p g leaf e = refl
joined-rb_node st left p g (node l y z r) e = refl
joined-rb_node st right p g leaf e = refl
joined-rb_node st right p g (node l y z r) e = refl

module _ {s : Side} {p g : Ptr} {x b u : Tree} {d : ℕ} {up : Place} (st : State)
    (ready : IsTurnable st s p g x b u d up) where
  pub ne_pg : (p == g) ≡ false
  ne_pg = ne_of_count p g (omega (arith, ready.once p, one_if_self p))

  pub ne_gp : (g == p) ≡ false
  ne_gp = ne_of_count g p (omega (arith, ready.once g, one_if_self g))

  -- The subtrees and the place, after the writes to `p` and `g`.
  module _ (c e : ℕ) (small : e < 2) where
    abbrev pub turned : State
    turned = repainted p g (owner up) d c (joined s p g b e st)

    pub after_x : Rep turned p x
    after_x =
        Rep-Kept {but = g} x p
          (λ a h.
            Kept-turned s p g (owner up) b d c e a (ne_of_count a p (omega (arith, ready.once a)))
              (ne_of_count a g (omega (arith, ready.once a))) (omega (arith, ready.once a)))
          (omega (arith, ready.once g, one_if_self g)) ready.at_x

    pub after_u : Rep turned g u
    after_u =
        Rep-Kept {but = g} u g
          (λ a h.
            Kept-turned s p g (owner up) b d c e a (ne_of_count a p (omega (arith, ready.once a)))
              (ne_of_count a g (omega (arith, ready.once a))) (omega (arith, ready.once a)))
          (omega (arith, ready.once g, one_if_self g)) ready.at_u

    pub after_b : Rep turned g (paint e b)
    after_b =
        Rep-moved b ready.b_owner g e
          (λ a h.
            Kept-turned_root s p g (owner up) b d c e a
              (ne_of_count a p (omega (arith, ready.once a)))
              (ne_of_count a g (omega (arith, ready.once a))))
          (λ a. omega (arith, ready.once a)) ready.g_link small
          (turned-parent_color st s p g (owner up) b d c e
            (omega (arith, ready.once p, one_if_self p))
            (omega (arith, ready.once g, one_if_self g)))
          ready.at_b

    pub after_place : RepPlace turned g up
    after_place =
        RepPlace-Kept {but = g} g up
          (λ a h.
            Kept-turned s p g (owner up) b d c e a (ne_of_count a p (omega (arith, ready.once a)))
              (ne_of_count a g (omega (arith, ready.once a))) (omega (arith, ready.once a)))
          (omega (arith, ready.once g, one_if_self g)) (joined-rb_node st s p g b e) ready.over

-- A node below another one can be rotated up.
pub turnable :
    (s : Side) (st : State) (x : Tree) (p : Ptr) (c : ℕ) (b : Tree) (g : Ptr) (d : ℕ) (u : Tree)
    (up : Place)
    → Rep st g (fork s x p c b)
    → RepPlace st p (under s g d u up)
    → Apart (fork s x p c b) (under s g d u up)
    → IsTurnable st s p g x b u d up
turnable left st x p c b g d u up (here, at_x, at_b) (above, at_u, over) apart = record {
  p_mapped = here.mapped;
  p_positive = here.positive;
  p_link = here.link;
  p_child = here.at_left;
  g_mapped = above.mapped;
  g_positive = above.positive;
  g_link = above.link;
  g_packed = above.packed;
  g_child = above.at_right;
  up_link = above.parent_link;
  bit = above.bit;
  at_x = at_x;
  b_owner = p;
  at_b = at_b;
  at_u = at_u;
  over = over;
  once = λ a. omega (arith, apart a);
}
turnable right st x p c b g d u up (here, at_b, at_x) (above, at_u, over) apart = record {
  p_mapped = here.mapped;
  p_positive = here.positive;
  p_link = here.link;
  p_child = here.at_right;
  g_mapped = above.mapped;
  g_positive = above.positive;
  g_link = above.link;
  g_packed = above.packed;
  g_child = above.at_left;
  up_link = above.parent_link;
  bit = above.bit;
  at_x = at_x;
  b_owner = p;
  at_b = at_b;
  at_u = at_u;
  over = over;
  once = λ a. omega (arith, apart a);
}
