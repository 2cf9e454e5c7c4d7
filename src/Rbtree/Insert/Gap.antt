-- ===== src/Rbtree/Insert/Gap.antt =====
-- Insertion in terms of the store and the order of its nodes: where a new node may be linked, and where
-- it stands then.
use mathlib.Core.List.{append-nil, append_assoc}
use common_project_template.Base.{
  ℕ, ◌<◌, ◌≡◌, refl, true, List, [], ◌∷◌, ◌++◌, arith, ap, ◌∙◌, sym, subst, Returns, length,
}
use common_project_template.Command.{◌>>◌}
use common_project_template.Rbtree.{
  Ptr, left, right, State, Slot, root_slot, child_slot, rb_link_node,
}
use common_project_template.Rbtree.Tree.{
  Tree, leaf, node, Place, top, under, plug, root_of, owner, inorder, before, behind,
}
use common_project_template.Rbtree.Access.{IsLink}
use common_project_template.Rbtree.Rep.{Rep, IsTree, plug-Rep}
use common_project_template.Rbtree.Balance.{IsRbTree}
use common_project_template.Rbtree.Depth.{IsEnough, depth-lt}
use common_project_template.Rbtree.Iterate.Ends.{
  located, parts, times, times-inorder, length-inorder,
}
use common_project_template.Rbtree.Insert.{rb_insert_color}
use common_project_template.Rbtree.Insert.Link.{slot_of, link_at}

-- The empty links of a store whose nodes have the order `xs`, `ys`, where a new node comes between: that
-- of an empty tree, or one to the left or right of a node.
pub data Gap (st : State) : (parent : Ptr) → Slot → (xs ys : List Ptr) → Type 0 where
  at_root : Gap st 0 root_slot [] []
  at_left :
      {p : Ptr} {xs : List Ptr} (ys : List Ptr)
      → st.rb_left p ≡ 0
      → Gap st p (child_slot left p) xs (p ∷ ys)
  at_right :
      {p : Ptr} (xs : List Ptr) {zs ys : List Ptr}
      → st.rb_right p ≡ 0
      → zs ≡ xs ++ (p ∷ [])
      → Gap st p (child_slot right p) zs ys

empty_leaf : (t : Tree) → inorder t ≡ [] → t ≡ leaf
empty_leaf leaf e = refl
empty_leaf (node l a c r) e = absurd (omega (arith, length-inorder (node l a c r), ap length e))

root_leaf : (st : State) (up : Ptr) (t : Tree) → Rep st up t → root_of t ≡ 0 → t ≡ leaf
root_leaf st up leaf rep e = refl
root_leaf st up (node l a c r) (here, at_l, at_r) e = absurd (omega (arith, here.positive))

-- The place of such a link.
record IsPlaced (t : Tree) (parent : Ptr) (link : Slot) (xs ys : List Ptr) : Type 0 where
  place : Place
  is : t ≡ plug place leaf
  is_owner : owner place ≡ parent
  is_slot : slot_of place ≡ link
  is_before : before place ≡ xs
  is_behind : behind place ≡ ys

placed :
    (st : State) (t : Tree) (parent : Ptr) (link : Slot) (xs ys : List Ptr)
    → IsTree st t
    → inorder t ≡ xs ++ ys
    → Gap st parent link xs ys
    → IsPlaced t parent link xs ys
unfolding plug
placed st t parent link xs ys tree e at_root = record {
  place = top;
  is = empty_leaf t e;
  is_owner = refl;
  is_slot = refl;
  is_before = refl;
  is_behind = refl;
}
placed st t p link xs zs tree e (at_left ys none) =
    let at = located st t tree 0 p xs ys e in
    let here = subst (IsTree st) (sym at.is) tree in
    let (nodes, over) =
      plug-Rep st at.place (node at.near p at.color at.far) here.root here.nodes in
    let order = parts st at.place at.near p at.color at.far xs ys here (ap inorder at.is ∙ e) in
    let empty = root_leaf st p at.near nodes.1 (sym nodes.0.at_left ∙ none) in
    record {
      place = under left p at.color at.far at.place;
      is = sym at.is ∙ ap (λ l. plug at.place (node l p at.color at.far)) empty;
      is_owner = refl;
      is_slot = refl;
      is_before =
          sym (append-nil (before at.place))
          ∙ (ap (λ l. before at.place ++ inorder l) (sym empty) ∙ order.0);
      is_behind = ap (λ us. p ∷ us) order.1;
    }
placed st t p link zs ys tree e (at_right xs none split) =
    let e' : inorder t ≡ xs ++ (p ∷ ys) =
      e ∙ (ap (λ us. us ++ ys) split ∙ append_assoc xs (p ∷ []) ys) in
    let at = located st t tree 0 p xs ys e' in
    let here = subst (IsTree st) (sym at.is) tree in
    let (nodes, over) =
      plug-Rep st at.place (node at.near p at.color at.far) here.root here.nodes in
    let order = parts st at.place at.near p at.color at.far xs ys here (ap inorder at.is ∙ e') in
    let empty = root_leaf st p at.far nodes.2 (sym nodes.0.at_right ∙ none) in
    record {
      place = under right p at.color at.near at.place;
      is = sym at.is ∙ ap (λ r. plug at.place (node at.near p at.color r)) empty;
      is_owner = refl;
      is_slot = refl;
      is_before =
          sym (append_assoc (before at.place) (inorder at.near) (p ∷ []))
          ∙ (ap (λ us. us ++ (p ∷ [])) order.0 ∙ sym split);
      is_behind = ap (λ r. inorder r ++ behind at.place) (sym empty) ∙ order.1;
    }

-- In a store that holds a red-black tree with its nodes in the order `xs`, `ys`, linking a node
-- into an empty link between them and calling rb_insert_color ends without a fault, given more
-- rounds than twice the logarithm of the number of nodes and one, and leaves a red-black tree
-- with the nodes `xs`, `n`, `ys`. The node is mapped, not null, aligned to eight bytes, and not
-- one of them.
pub rb_insert_color-IsRbTree :
    (st : State) (n parent : Ptr) (link : Slot) (xs ys : List Ptr) (fuel : ℕ)
    → IsRbTree (xs ++ ys) st
    → Gap st parent link xs ys
    → st.mapped n ≡ true
    → 0 < n
    → IsLink n
    → times n (xs ++ ys) ≡ 0
    → IsEnough (xs ++ ys) fuel
    → Returns
        (λ r. IsRbTree (xs ++ (n ∷ ys)) r.1)
        ((rb_link_node n parent link >> rb_insert_color fuel n) st)
rb_insert_color-IsRbTree st n parent link xs ys fuel held gap n_in pos aligned fresh enough =
    let at = placed st held.tree parent link xs ys held.shape held.in_order gap in
    let done =
      link_at (xs ++ ys) st n at.place fuel held at.is n_in pos aligned
        (sym (times-inorder n held.tree) ∙ (ap (times n) held.in_order ∙ fresh))
        (depth-lt (xs ++ ys) st held fuel enough) in
    rw (at.is_owner, at.is_slot, at.is_before, at.is_behind) at done
