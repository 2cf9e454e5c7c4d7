-- ===== src/Rbtree/Frame.antt =====
-- What single writes leave of a tree, and the writes that every rotation makes: a child painted and
-- put below another node, and the node above a place.
use common_project_template.Base.{ℕ, ◌+◌, ◌≤◌, ◌<◌, ◌≡◌, refl, false, ◌==◌, ==_refl, arith, ok, ◌∙◌}
use common_project_template.Rbtree.{
  Ptr, Side, left, right, State, update, with_child, change_child, paint_child,
}
use common_project_template.Rbtree.Tree.{
  Tree, leaf, node, Place, top, under, root_of, owner, count, count_place, one_if, one_if_self,
  ne_of_one_if,
}
use common_project_template.Rbtree.Access.{
  IsLink, bit_or-color, child-ok, set_child-ok, rb_set_parent_color-ok,
}
use common_project_template.Rbtree.Rep.{Rep, RepPlace, Kept, Rep-Kept, RepPlace-Kept}

pub nonzero : (a : Ptr) → 0 < a → (a == 0) ≡ false
nonzero a h = ground arith

pub beside_ne :
    (st : State) (beside : Tree) (a p : Ptr)
    → Rep st p beside
    → 0 < a
    → count a beside ≡ 0
    → (root_of beside == a) ≡ false
beside_ne st leaf a p rep pos out = ground arith
beside_ne st (node l b c r) a p rep pos out = ne_of_one_if a b (omega arith)

pub ne_of_count : (a x : Ptr) → one_if (a == x) ≡ 0 → (a == x) ≡ false
ne_of_count a x h = ground arith

pub update-miss : (f : Ptr → ℕ) (p v a : Ptr) → (a == p) ≡ false → update f p v a ≡ f a
update-miss f p v a e = rw e refl

module _ {st : State} {but a : Ptr} where
  pub Kept-refl : Kept st st but a
  Kept-refl = record { mapped = refl; rb_left = refl; rb_right = refl; parent_color = λ e. refl }

  pub Kept-then : {st' st'' : State} → Kept st st' but a → Kept st' st'' but a → Kept st st'' but a
  Kept-then k h = record {
    mapped = h.mapped ∙ k.mapped;
    rb_left = h.rb_left ∙ k.rb_left;
    rb_right = h.rb_right ∙ k.rb_right;
    parent_color = λ e. h.parent_color e ∙ k.parent_color e;
  }

  pub Kept-child : (s : Side) (p q : Ptr) → (a == p) ≡ false → Kept st (with_child s p q st) but a
  Kept-child left p q e = record {
    mapped = refl;
    rb_left = update-miss st.rb_left p q a e;
    rb_right = refl;
    parent_color = λ _. refl;
  }
  Kept-child right p q e = record {
    mapped = refl;
    rb_left = refl;
    rb_right = update-miss st.rb_right p q a e;
    parent_color = λ _. refl;
  }

abbrev pub with_pc : Ptr → ℕ → State → State
with_pc p pc st = record st { parent_color = update st.parent_color p pc }

pub Kept-pc :
    {st : State} {but a : Ptr} (p : Ptr) (pc : ℕ)
    → ((a == but) ≡ false → (a == p) ≡ false)
    → Kept st (with_pc p pc st) but a
Kept-pc {st} {but} {a} p pc ne = record {
  mapped = refl;
  rb_left = refl;
  rb_right = refl;
  parent_color = λ e. update-miss st.parent_color p pc a (ne e);
}

-- A child painted and put below `up`, if there is one.
abbrev pub painted : Tree → (up : Ptr) → ℕ → State → State
painted leaf up c st = st
painted (node l x d r) up c st = with_pc x (up + c) st

pub Kept-painted :
    {st : State} {but : Ptr} (a : Ptr) (b : Tree) (up : Ptr) (c : ℕ)
    → count a b ≡ 0
    → Kept st (painted b up c st) but a
Kept-painted a leaf up c out = Kept-refl
Kept-painted a (node l x d r) up c out = Kept-pc x (up + c) λ _. ne_of_count a x (omega arith)

pub Kept-painted_root :
    {st : State} (a : Ptr) (b : Tree) (up : Ptr) (c : ℕ) → Kept st (painted b up c st) (root_of b) a
Kept-painted_root a leaf up c = Kept-refl
Kept-painted_root a (node l x d r) up c = Kept-pc x (up + c) λ e. e

pub painted-mapped :
    (b : Tree) (up : Ptr) (c : ℕ) (st : State) → (painted b up c st).mapped ≡ st.mapped
painted-mapped leaf up c st = refl
painted-mapped (node l x d r) up c st = refl

pub paint_child-ok :
    (st : State) (b : Tree) (q up : Ptr) (c : ℕ)
    → Rep st q b
    → IsLink up
    → c < 2
    → paint_child (root_of b) up c st ≡ ok (tt, painted b up c st)
unfolding paint_child
paint_child-ok st leaf q up c rep link bit = refl
paint_child-ok st (node l x d r) q up c (here, at_l, at_r) link bit =
    simp
      (nonzero x here.positive, rb_set_parent_color-ok st x here.mapped, bit_or-color up c link bit)

-- The tree above a place with another subtree in it.
abbrev pub relink : Place → (new : Ptr) → State → State
relink top new st = record st { rb_node = new }
relink (under s a c beside up) new st = with_child s a new st

pub Kept-relink :
    {st : State} {but : Ptr} (a : Ptr) (up : Place) (new : Ptr)
    → count_place a up ≡ 0
    → Kept st (relink up new st) but a
Kept-relink a top new out = record {
  mapped = refl;
  rb_left = refl;
  rb_right = refl;
  parent_color = λ e. refl;
}
Kept-relink a (under s p c beside up) new out = Kept-child s p new (ne_of_count a p (omega arith))

pub change_child-ok :
    (st : State) (up : Place) (old new : Ptr)
    → RepPlace st old up
    → 0 < old
    → ((p : Ptr) → one_if (p == old) + count_place p up ≤ 1)
    → change_child old new (owner up) st ≡ ok (tt, relink up new st)
unfolding change_child
change_child-ok st top old new over pos once = refl
change_child-ok st (under left a c beside up) old new (here, by, rest) pos once = simp (
  nonzero a here.positive,
  child-ok st a here.mapped left,
  here.at_left,
  ==_refl old,
  set_child-ok st a here.mapped left new,
)
change_child-ok st (under right a c beside up) old new (here, by, rest) pos once =
    let self = one_if_self old in
    simp (
      nonzero a here.positive,
      child-ok st a here.mapped left,
      here.at_left,
      beside_ne st beside old a by pos (omega (arith, once old)),
      set_child-ok st a here.mapped right new,
    )

-- A place in which a subtree has been exchanged.
pub RepPlace-relink :
    (st : State) (up : Place) (old new : Ptr)
    → RepPlace st old up
    → ((p : Ptr) → count_place p up ≤ 1)
    → RepPlace (relink up new st) new up
RepPlace-relink st top old new over once = refl
RepPlace-relink st (under left a c beside up) old new (here, by, rest) once =
    let self = one_if_self a in
    (
      record {
        mapped = here.mapped;
        positive = here.positive;
        link = here.link;
        parent_link = here.parent_link;
        bit = here.bit;
        packed = here.packed;
        at_left = rw (==_refl a) refl;
        at_right = here.at_right;
      },
      Rep-Kept {but = a} beside a
          (λ p h. Kept-child left a new (ne_of_count p a (omega (arith, once p))))
          (omega (arith, once a)) by,
      RepPlace-Kept {but = a} a up
          (λ p h. Kept-child left a new (ne_of_count p a (omega (arith, once p))))
          (omega (arith, once a)) refl rest,
    )
RepPlace-relink st (under right a c beside up) old new (here, by, rest) once =
    let self = one_if_self a in
    (
      record {
        mapped = here.mapped;
        positive = here.positive;
        link = here.link;
        parent_link = here.parent_link;
        bit = here.bit;
        packed = here.packed;
        at_left = here.at_left;
        at_right = rw (==_refl a) refl;
      },
      Rep-Kept {but = a} beside a
          (λ p h. Kept-child right a new (ne_of_count p a (omega (arith, once p))))
          (omega (arith, once a)) by,
      RepPlace-Kept {but = a} a up
          (λ p h. Kept-child right a new (ne_of_count p a (omega (arith, once p))))
          (omega (arith, once a)) refl rest,
    )
