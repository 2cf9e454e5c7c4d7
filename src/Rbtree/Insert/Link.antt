-- ===== src/Rbtree/Insert/Link.antt =====
-- rb_link_node puts a node into an empty place, and rb_insert_color restores the colours.
use common_project_template.Base.{
  ℕ, suc, ◌+◌, ◌≤◌, ◌<◌, ◌≡◌, refl, true, false, List, ◌∷◌, ◌++◌, ◌==◌, ==_refl, arith, ok, ap, ◌∙◌,
  sym, subst, Returns, Bool-cases, inl, inr,
}
use common_project_template.Command.{◌>>◌}
use common_project_template.Rbtree.{
  Ptr, left, right, State, with_child, red, black, Slot, root_slot, child_slot, set_slot,
  rb_link_node,
}
use common_project_template.Rbtree.Tree.{
  Tree, leaf, node, Place, top, under, plug, owner, count, count_place, one_if, color_of_root,
  before, behind, depth, depth_place, count-plug, depth-plug,
}
use common_project_template.Rbtree.Access.{IsLink, put_pc-ok, set_child-ok, rb_red_parent-ok}
use common_project_template.Rbtree.Rep.{
  IsNode, IsNode-Kept, RepPlace, RepPlace-Kept, plug-Rep, IsTree,
}
use common_project_template.Rbtree.Frame.{
  with_pc, Kept-then, Kept-pc, Kept-child, relink, Kept-relink, RepPlace-relink,
}
use common_project_template.Rbtree.Balance.{height, IsBalanced, IsBalancedAt, color_above, IsRbTree}
use common_project_template.Rbtree.Insert.{rb_insert_color}
use common_project_template.Rbtree.Insert.Fix.{IsReady}
use common_project_template.Rbtree.Insert.Rounds.{insert_loop-IsRbTree}

-- The pointer that stands in a place.
abbrev pub slot_of : Place → Slot
slot_of top = root_slot
slot_of (under s a c beside up) = child_slot s a

pub dark_above :
    (m : ℕ) (up : Place) → IsBalancedAt m up → (color_above up ≡ red → ⊥) → color_above up ≡ black
dark_above m top fits ne = absurd (ne refl)
dark_above m (under s a c beside up) fits ne = ground (arith, fits.0)

-- What a balanced tree says of a place in it.
pub plug-IsBalanced-inv :
    (up : Place) (t : Tree)
    → IsBalanced (plug up t)
    → color_of_root (plug up t) ≡ black
    → IsBalanced t × IsBalancedAt (height t) up × (color_above up ≡ red → color_of_root t ≡ black)
unfolding plug
plug-IsBalanced-inv top t bal dark = (bal, tt, (λ _. dark))
plug-IsBalanced-inv (under left a c beside up) t bal dark =
    let ((small, same, near, far, bal_t, bal_b), fits, above) =
      plug-IsBalanced-inv up (node t a c beside) bal dark in
    (
      bal_t,
      (
        small,
        sym same,
        far,
        (λ e. dark_above _ up fits (λ h. absurd (omega (arith, above h)))),
        bal_b,
        fits,
      ),
      near,
    )
plug-IsBalanced-inv (under right a c beside up) t bal dark =
    let ((small, same, near, far, bal_b, bal_t), fits, above) =
      plug-IsBalanced-inv up (node beside a c t) bal dark in
    (
      bal_t,
      (
        small,
        same,
        near,
        (λ e. dark_above _ up fits (λ h. absurd (omega (arith, above h)))),
        bal_b,
        subst (λ m. IsBalancedAt (m + c) up) same fits,
      ),
      far,
    )

-- The store after rb_link_node.
abbrev linked : (n : Ptr) → Place → State → State
linked n up st = relink up n (with_child left n 0 (with_child right n 0 (with_pc n (owner up) st)))

eq_of_test : (a b : Ptr) → (a == b) ≡ true → a ≡ b
eq_of_test a b e = ground arith

placed_ne :
    (a n : Ptr) (up : Place) → 0 < count_place a up → count_place n up ≡ 0 → (a == n) ≡ false
placed_ne a n up inside out = elim (Bool-cases (a == n)) [
  | inl same ↦
      absurd (omega (arith, subst (λ b. 0 < count_place b up) (eq_of_test a n same) inside))
  | inr other ↦ other
]

set_slot-ok :
    (up : Place) (st : State) (old new : Ptr)
    → RepPlace st old up
    → set_slot (slot_of up) new st ≡ ok (tt, relink up new st)
unfolding set_slot
set_slot-ok top st old new over = refl
set_slot-ok (under left a c beside up) st old new (here, by, rest) =
    set_child-ok st a here.mapped left new
set_slot-ok (under right a c beside up) st old new (here, by, rest) =
    set_child-ok st a here.mapped right new

once_more :
    (a n : Ptr) (up : Place)
    → count_place a up ≤ 1
    → count_place n up ≡ 0
    → one_if (a == n) + 0 + 0 + count_place a up ≤ 1
once_more a n up once out = elim (Bool-cases (a == n)) [
  | inl same ↦ rw same (omega (arith, ap (λ b. count_place b up) (eq_of_test a n same), out))
  | inr other ↦ rw other (omega (arith, once))
]

owner-IsLink : (st : State) (hole : Ptr) (up : Place) → RepPlace st hole up → IsLink (owner up)
owner-IsLink st hole top over = record { aligned = refl; small = omega arith }
owner-IsLink st hole (under left a c beside up) (here, by, over) = here.link
owner-IsLink st hole (under right a c beside up) (here, by, over) = here.link

linked-IsNode :
    (st : State) (n : Ptr) (up : Place)
    → st.mapped n ≡ true
    → 0 < n
    → IsLink n
    → IsLink (owner up)
    → count_place n up ≡ 0
    → IsNode (linked n up st) (owner up) n red 0 0
linked-IsNode st n up n_in pos link up_link out =
    IsNode-Kept {but = suc n} (Kept-relink n up n out) (ground arith) (record {
      mapped = n_in;
      positive = pos;
      link = link;
      parent_link = up_link;
      bit = omega arith;
      packed = rw (==_refl n) (omega arith);
      at_left = rw (==_refl n) refl;
      at_right = rw (==_refl n) refl;
    })

module _ (st : State) (n : Ptr) (up : Place) (n_in : st.mapped n ≡ true) (over : RepPlace st 0 up)
    (out : count_place n up ≡ 0) (once : (a : Ptr) → count_place a up ≤ 1) where
  fields_set : State
  fields_set = with_child left n 0 (with_child right n 0 (with_pc n (owner up) st))

  set-RepPlace : RepPlace fields_set 0 up
  unfolding fields_set
  set-RepPlace =
      RepPlace-Kept {but = n} 0 up
        (λ a h. Kept-then (Kept-pc n (owner up) (λ e. e)) (
          Kept-then (Kept-child right n 0 (placed_ne a n up h out))
            (Kept-child left n 0 (placed_ne a n up h out))))
        out refl over

  pub linked-RepPlace : RepPlace (linked n up st) n up
  unfolding fields_set
  linked-RepPlace = RepPlace-relink fields_set up 0 n set-RepPlace once

  rb_link_node-ok : rb_link_node n (owner up) (slot_of up) st ≡ ok (tt, linked n up st)
  unfolding fields_set rb_link_node set_slot
  rb_link_node-ok =
      let one = with_pc n (owner up) st in
      let two = with_child right n 0 one in
      simp
        (
          put_pc-ok st n n_in (owner up),
          set_child-ok one n n_in right 0,
          set_child-ok two n n_in left 0,
        )
        (set_slot-ok up fields_set 0 n set-RepPlace)

module _ (st : State) (n : Ptr) (up : Place) (n_in : st.mapped n ≡ true) (pos : 0 < n)
    (link : IsLink n) (tree : IsTree st (plug up leaf)) (balanced : IsBalanced (plug up leaf))
    (black_root : color_of_root (plug up leaf) ≡ black) (fresh : count n (plug up leaf) ≡ 0) where
  linked-IsReady : IsReady (linked n up st) leaf n leaf up
  linked-IsReady =
      let (nothing, over) = plug-Rep st up leaf tree.root tree.nodes in
      let (bal, fits, dark) = plug-IsBalanced-inv up leaf balanced black_root in
      let out : count_place n up ≡ 0 = omega (arith, count-plug n up leaf, fresh) in
      let once : (a : Ptr) → count_place a up ≤ 1 =
        λ a. omega (arith, count-plug a up leaf, tree.once a) in
      record {
        rep = (linked-IsNode st n up n_in pos link (owner-IsLink st 0 up over) out, tt, tt);
        over = linked-RepPlace st n up n_in over out once;
        apart = λ a. once_more a n up (once a) out;
        balanced = (omega arith, refl, (λ _. refl), (λ _. refl), tt, tt);
        fits = fits;
      }

  link_then_color :
      (fuel : ℕ)
      → depth_place up < fuel
      → Returns
          (λ r. IsRbTree (before up ++ (n ∷ behind up)) r.1)
          ((rb_link_node n (owner up) (slot_of up) >> rb_insert_color fuel n) st)
  unfolding rb_insert_color
  link_then_color fuel enough =
      let (nothing, over) = plug-Rep st up leaf tree.root tree.nodes in
      let ready = linked-IsReady in
      let out : count_place n up ≡ 0 = omega (arith, count-plug n up leaf, fresh) in
      let packed : (linked n up st).parent_color n ≡ owner up = ready.rep.0.packed ∙ omega arith in
      rw
        (
          rb_link_node-ok st n up n_in over out
              (λ a. omega (arith, count-plug a up leaf, tree.once a)),
          rb_red_parent-ok (linked n up st) n ready.rep.0.mapped,
          packed,
        )
        (insert_loop-IsRbTree fuel up ready enough)

-- Linking a new node into an empty place of a red-black tree and calling rb_insert_color.
pub link_at :
    (order : List Ptr) (st : State) (n : Ptr) (up : Place) (fuel : ℕ) (held : IsRbTree order st)
    → held.tree ≡ plug up leaf
    → st.mapped n ≡ true
    → 0 < n
    → IsLink n
    → count n held.tree ≡ 0
    → depth held.tree < fuel
    → Returns
        (λ r. IsRbTree (before up ++ (n ∷ behind up)) r.1)
        ((rb_link_node n (owner up) (slot_of up) >> rb_insert_color fuel n) st)
link_at order st n up fuel held place n_in pos link fresh enough =
    link_then_color st n up n_in pos link (subst (IsTree st) place held.shape)
      (subst IsBalanced place held.balanced) (ap color_of_root (sym place) ∙ held.black_root)
      (ap (λ t. count n t) (sym place) ∙ fresh) fuel
      (omega (arith, ap depth place, depth-plug up leaf, enough))
