-- ===== src/Rbtree/Rep.antt =====
-- When the nodes of a store form a tree, and what a write leaves of it.
use common_project_template.Base.{ℕ, ◌+◌, ◌≤◌, ◌<◌, ◌≡◌, refl, true, false, ◌==◌, arith, ◌∙◌}
use common_project_template.Rbtree.{Ptr, Side, left, right, State}
use common_project_template.Rbtree.Tree.{
  Tree, leaf, node, Place, top, under, fork, plug, sub, root_of, owner, count, count_place, one_if,
  one_if_self, ne_of_one_if, paint, count-plug,
}
use common_project_template.Rbtree.Access.{IsLink}

-- The node at `a` has this parent, colour and children.
pub record IsNode (st : State) (up a : Ptr) (c : ℕ) (l r : Ptr) : Type 0 where
  pub mapped : st.mapped a ≡ true
  pub positive : 0 < a
  pub link : IsLink a
  pub parent_link : IsLink up
  pub bit : c < 2
  pub packed : st.parent_color a ≡ up + c
  pub at_left : st.rb_left a ≡ l
  pub at_right : st.rb_right a ≡ r

-- A subtree below `up`, and a place with the subtree whose root is `hole` in it.
abbrev pub Rep : State → Ptr → Tree → Type 0
Rep st up leaf = Unit
Rep st up (node l a c r) = IsNode st up a c (root_of l) (root_of r) × Rep st a l × Rep st a r

abbrev pub RepPlace : State → (hole : Ptr) → Place → Type 0
RepPlace st hole top = st.rb_node ≡ hole
RepPlace st hole (under left a c beside up) =
    IsNode st (owner up) a c hole (root_of beside) × Rep st a beside × RepPlace st a up
RepPlace st hole (under right a c beside up) =
    IsNode st (owner up) a c (root_of beside) hole × Rep st a beside × RepPlace st a up

-- No node occurs twice.
abbrev pub Apart : Tree → Place → Type 0
Apart t up = (p : Ptr) → count p t + count_place p up ≤ 1

-- The fields at a node, but for its parent and colour, are the same; those are if it is not `but`.
pub record Kept (st st' : State) (but a : Ptr) : Type 0 where
  pub mapped : st'.mapped a ≡ st.mapped a
  pub rb_left : st'.rb_left a ≡ st.rb_left a
  pub rb_right : st'.rb_right a ≡ st.rb_right a
  pub parent_color : (a == but) ≡ false → st'.parent_color a ≡ st.parent_color a

module _ {st st' : State} {but : Ptr} where
  pub IsNode-Kept :
      {up a l r : Ptr} {c : ℕ}
      → Kept st st' but a
      → (a == but) ≡ false
      → IsNode st up a c l r
      → IsNode st' up a c l r
  IsNode-Kept kept e n = record {
    mapped = kept.mapped ∙ n.mapped;
    positive = n.positive;
    link = n.link;
    parent_link = n.parent_link;
    bit = n.bit;
    packed = kept.parent_color e ∙ n.packed;
    at_left = kept.rb_left ∙ n.at_left;
    at_right = kept.rb_right ∙ n.at_right;
  }

  -- A subtree without `but` is left alone.
  pub Rep-Kept :
      (t : Tree) (up : Ptr)
      → ((a : Ptr) → 0 < count a t → Kept st st' but a)
      → count but t ≡ 0
      → Rep st up t
      → Rep st' up t
  Rep-Kept leaf up kept out rep = tt
  Rep-Kept (node l a c r) up kept out (here, at_l, at_r) = (
    IsNode-Kept (kept a (omega (arith, one_if_self a))) (ne_of_one_if but a (omega arith)) here,
    Rep-Kept l a (λ p h. kept p (omega arith)) (omega arith) at_l,
    Rep-Kept r a (λ p h. kept p (omega arith)) (omega arith) at_r,
  )

  pub RepPlace-Kept :
      (hole : Ptr) (up : Place)
      → ((a : Ptr) → 0 < count_place a up → Kept st st' but a)
      → count_place but up ≡ 0
      → st'.rb_node ≡ st.rb_node
      → RepPlace st hole up
      → RepPlace st' hole up
  RepPlace-Kept hole top kept out same rep = same ∙ rep
  RepPlace-Kept hole (under left a c beside up) kept out same (here, by, over) = (
    IsNode-Kept (kept a (omega (arith, one_if_self a))) (ne_of_one_if but a (omega arith)) here,
    Rep-Kept beside a (λ p h. kept p (omega arith)) (omega arith) by,
    RepPlace-Kept a up (λ p h. kept p (omega arith)) (omega arith) same over,
  )
  RepPlace-Kept hole (under right a c beside up) kept out same (here, by, over) = (
    IsNode-Kept (kept a (omega (arith, one_if_self a))) (ne_of_one_if but a (omega arith)) here,
    Rep-Kept beside a (λ p h. kept p (omega arith)) (omega arith) by,
    RepPlace-Kept a up (λ p h. kept p (omega arith)) (omega arith) same over,
  )

-- NULL is no node.
pub null_out : (st : State) (up : Ptr) (t : Tree) → Rep st up t → count 0 t ≡ 0
null_out st up leaf rep = refl
null_out st up (node l a c r) (here, at_l, at_r) =
    let not_here : one_if (0 == a) ≡ 0 = zero_ne a here.positive in
    omega (arith, null_out st a l at_l, null_out st a r at_r)
  where
    zero_ne : (a : Ptr) → 0 < a → one_if (0 == a) ≡ 0
    zero_ne a h = ground arith

-- A subtree whose root has got another parent and colour.
pub Rep-moved :
    {st st' : State} (t : Tree) (up up' : Ptr) (c : ℕ)
    → ((a : Ptr) → 0 < count a t → Kept st st' (root_of t) a)
    → ((a : Ptr) → count a t ≤ 1)
    → IsLink up'
    → c < 2
    → (0 < count (root_of t) t → st'.parent_color (root_of t) ≡ up' + c)
    → Rep st up t
    → Rep st' up' (paint c t)
Rep-moved leaf up up' c kept once link bit set rep = tt
Rep-moved (node l a d r) up up' c kept once link bit set (here, at_l, at_r) =
    let self = one_if_self a in
    let mine = kept a (omega arith) in
    (
      record {
        mapped = mine.mapped ∙ here.mapped;
        positive = here.positive;
        link = here.link;
        parent_link = link;
        bit = bit;
        packed = set (omega arith);
        at_left = mine.rb_left ∙ here.at_left;
        at_right = mine.rb_right ∙ here.at_right;
      },
      Rep-Kept l a (λ p h. kept p (omega arith)) (omega (arith, once a)) at_l,
      Rep-Kept r a (λ p h. kept p (omega arith)) (omega (arith, once a)) at_r,
    )

-- The whole tree of a store.
pub record IsTree (st : State) (t : Tree) : Type 0 where
  pub root : st.rb_node ≡ root_of t
  pub nodes : Rep st 0 t
  pub once : (p : Ptr) → count p t ≤ 1

-- A subtree in a place is a tree, and the other way.
pub Rep-plug :
    (st : State) (up : Place) (t : Tree)
    → Rep st (owner up) t
    → RepPlace st (root_of t) up
    → (st.rb_node ≡ root_of (plug up t)) × Rep st 0 (plug up t)
unfolding plug
Rep-plug st top t rep over = (over, rep)
Rep-plug st (under left a c beside up) t rep (here, by, over) =
    Rep-plug st up (node t a c beside) (here, rep, by) over
Rep-plug st (under right a c beside up) t rep (here, by, over) =
    Rep-plug st up (node beside a c t) (here, by, rep) over

pub plug-Rep :
    (st : State) (up : Place) (t : Tree)
    → st.rb_node ≡ root_of (plug up t)
    → Rep st 0 (plug up t)
    → Rep st (owner up) t × RepPlace st (root_of t) up
unfolding plug
plug-Rep st top t root rep = (rep, root)
plug-Rep st (under left a c beside up) t root rep =
    let ((here, at_l, at_r), over) = plug-Rep st up (node t a c beside) root rep in
    (at_l, (here, at_r, over))
plug-Rep st (under right a c beside up) t root rep =
    let ((here, at_l, at_r), over) = plug-Rep st up (node beside a c t) root rep in
    (at_r, (here, at_l, over))

pub IsTree-plug :
    (st : State) (up : Place) (t : Tree)
    → Rep st (owner up) t
    → RepPlace st (root_of t) up
    → Apart t up
    → IsTree st (plug up t)
IsTree-plug st up t rep over apart =
    let (root, nodes) = Rep-plug st up t rep over in
    record { root = root; nodes = nodes; once = λ p. omega (arith, count-plug p up t, apart p) }

-- A node and its children, by side.
pub fork-Rep :
    (s : Side) (st : State) (up a : Ptr) (c : ℕ) (near far : Tree)
    → IsNode st up a c (root_of (sub s near far)) (root_of (sub s far near))
    → Rep st a near
    → Rep st a far
    → Rep st up (fork s near a c far)
fork-Rep left st up a c near far here at_near at_far = (here, at_near, at_far)
fork-Rep right st up a c near far here at_near at_far = (here, at_far, at_near)
