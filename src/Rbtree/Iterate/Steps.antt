-- ===== src/Rbtree/Iterate/Steps.antt =====
-- rb_next and rb_prev give the neighbours of a node in the order of the tree.
use common_project_template.Base.{
  ℕ, ◌+◌, ◌%◌, ◌≤◌, ◌<◌, ◌≡◌, false, ◌++◌, ◌==◌, ltb, arith, ok, ap, sym, Bool-cases, inl, inr,
  true, Returns, returns, ==_refl,
}
use common_project_template.Rbtree.{
  Ptr, Side, left, right, other, State, update, rb_empty_node, rb_clear_node,
}
use common_project_template.Rbtree.Tree.{
  Tree, leaf, node, Place, top, under, plug, sub, root_of, owner, count, count_place, one_if,
  one_if_self, depth, depth_place, count-plug,
}
use common_project_template.Rbtree.Access.{child-ok, get_pc-ok, put_pc-ok}
use common_project_template.Rbtree.Rep.{IsNode, Rep, RepPlace, IsTree, plug-Rep}
use common_project_template.Rbtree.Iterate.{rb_step}
use common_project_template.Rbtree.Iterate.Walk.{
  first_of, walk, ahead, first_of-walk, nonzero, descend-first, ascend-first,
}

-- A node of a tree has a place in it.
pub record Located (a : Ptr) (whole : Tree) : Type 0 where
  pub place : Place
  pub near : Tree
  pub color : ℕ
  pub far : Tree
  pub is : plug place (node near a color far) ≡ whole

pub locate : (a : Ptr) (t : Tree) (place : Place) → 0 < count a t → Located a (plug place t)
unfolding plug
locate a leaf place h = absurd (omega arith)
locate a (node l x c r) place h = elim (Bool-cases (a == x)) [
  | inl here ↦
      let same : x ≡ a = ground arith in
      record {
        place = place;
        near = l;
        color = c;
        far = r;
        is = ap (λ p. plug place (node l p c r)) (sym same);
      }
  | inr elsewhere ↦ elim (Bool-cases (ltb 0 (count a l))) [
    | inl in_left ↦ locate a l (under left x c r place) (ground arith)
    | inr not_left ↦ locate a r (under right x c l place) (ground arith)
  ]
]

-- The packed parent and colour of a node of a tree are not the node's own address.
not_empty :
    (a p : Ptr) (c : ℕ) → a % 8 ≡ 0 → p % 8 ≡ 0 → 0 < a → c < 2 → (p ≡ a → ⊥) → (p + c == a) ≡ false
not_empty a p c h k pos small ne = elim (Bool-cases (p + c == a)) [
  | inl same ↦ absurd (ne (ground arith))
  | inr other ↦ other
]

owner_ne : (place : Place) (a : Ptr) → 0 < a → count_place a place ≡ 0 → owner place ≡ a → ⊥
owner_ne top a pos out e = omega arith
owner_ne (under s p c beside up) a pos out e = ground (arith, one_if_self a, out, e)

-- What holds around a node of a tree.
pub record IsAround (st : State) (place : Place) (l : Tree) (a : Ptr) (c : ℕ) (r : Tree)
    : Type 0 where
  pub here : IsNode st (owner place) a c (root_of l) (root_of r)
  at_l : Rep st a l
  at_r : Rep st a r
  pub over : RepPlace st a place
  pub once : (p : Ptr) → one_if (p == a) + count_place p place ≤ 1
  inserted : (owner place + c == a) ≡ false

pub around :
    (st : State) (place : Place) (l : Tree) (a : Ptr) (c : ℕ) (r : Tree)
    → IsTree st (plug place (node l a c r))
    → IsAround st place l a c r
around st place l a c r tree =
    let ((here, at_l, at_r), over) = plug-Rep st place (node l a c r) tree.root tree.nodes in
    let once : (p : Ptr) → one_if (p == a) + count_place p place ≤ 1 =
      λ p. omega (arith, tree.once p, count-plug p place (node l a c r)) in
    let self = one_if_self a in
    record {
      here = here;
      at_l = at_l;
      at_r = at_r;
      over = over;
      once = once;
      inserted =
          not_empty a (owner place) c here.link.aligned here.parent_link.aligned here.positive
            here.bit (owner_ne place a here.positive (omega (arith, once a)));
    }

pub rb_step-around :
    (s : Side) (st : State) (place : Place) (l : Tree) (a : Ptr) (c : ℕ) (r : Tree) (k : ℕ)
    → IsAround st place l a c r
    → depth (node l a c r) + depth_place place ≤ k
    → rb_step s k a st ≡ ok (first_of (walk s (sub s l r) ++ ahead s place), st)
unfolding rb_step rb_empty_node
rb_step-around right st place l a c leaf k around fuel =
    let here = around.here in
    rw
      (
        get_pc-ok st a here.mapped,
        here.packed,
        around.inserted,
        child-ok st a here.mapped,
        here.at_right,
      )
      (ascend-first st right place a c (root_of l) 0 k here around.over around.once (omega arith))
rb_step-around right st place l a c (node rl b d rr) k around fuel =
    let here = around.here in
    let below = around.at_r.0 in
    rw
      (
        get_pc-ok st a here.mapped,
        here.packed,
        around.inserted,
        child-ok st a here.mapped,
        here.at_right,
        nonzero b below.positive,
        first_of-walk right rl b d rr (ahead right place),
      )
      (descend-first st right rl b d rr a k around.at_r (omega arith))
rb_step-around left st place leaf a c r k around fuel =
    let here = around.here in
    rw
      (
        get_pc-ok st a here.mapped,
        here.packed,
        around.inserted,
        child-ok st a here.mapped,
        here.at_left,
      )
      (ascend-first st left place a c 0 (root_of r) k here around.over around.once (omega arith))
rb_step-around left st place (node ll b d lr) a c r k around fuel =
    let here = around.here in
    let below = around.at_l.0 in
    rw
      (
        get_pc-ok st a here.mapped,
        here.packed,
        around.inserted,
        child-ok st a here.mapped,
        here.at_left,
        nonzero b below.positive,
        first_of-walk left ll b d lr (ahead left place),
      )
      (descend-first st left ll b d lr a k around.at_l (omega arith))

-- After RB_CLEAR_NODE, a node has no neighbours.
pub rb_clear_node-rb_step :
    (st : State) (a : Ptr)
    → st.mapped a ≡ true
    → Returns (λ r. (s : Side) (k : ℕ) → rb_step s k a r.1 ≡ ok (0, r.1)) (rb_clear_node a st)
unfolding rb_step rb_empty_node rb_clear_node
rb_clear_node-rb_step st a here =
    let cleared = record st { parent_color = update st.parent_color a a } in
    simp (put_pc-ok st a here a) (returns (λ s k. simp (get_pc-ok cleared a here, ==_refl a)))
