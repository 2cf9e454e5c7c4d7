-- ===== src/Rbtree/Refine.antt =====
-- An rbtree as the list of its nodes in order: what any sequence of insertions and erasures does.
use common_project_template.Base.{
  ℕ, ◌≤◌, ◌<◌, ◌≡◌, refl, true, List, [], ◌∷◌, ◌++◌, arith, ok, ap, ◌∙◌, sym, subst, Run, Returns,
  reverse, Returns-inv,
}
use common_project_template.Command.{◌>>◌}
use common_project_template.Rbtree.{Ptr, State, Slot, rb_link_node}
use common_project_template.Rbtree.Tree.{Tree, inorder, leaf, depth}
use common_project_template.Rbtree.Access.{IsLink}
use common_project_template.Rbtree.Rep.{IsTree}
use common_project_template.Rbtree.Balance.{IsRbTree}
use common_project_template.Rbtree.Depth.{IsEnough, depth-lt}
use common_project_template.Rbtree.Iterate.{rb_first, rb_last, rb_next, rb_prev}
use common_project_template.Rbtree.Iterate.Walk.{first_of}
use common_project_template.Rbtree.Iterate.Ends.{times, rb_ends-first, rb_steps-first}
use common_project_template.Rbtree.Insert.{rb_insert_color}
use common_project_template.Rbtree.Insert.Gap.{Gap, rb_insert_color-IsRbTree}
use common_project_template.Rbtree.Erase.{rb_erase}
use common_project_template.Rbtree.Erase.Whole.{rb_erase-IsRbTree}

-- The stores that insertions and erasures reach from an empty tree, each with the list of its
-- nodes. A node may be inserted if it is mapped, aligned, not null and not in the tree; `fuel`
-- may differ from call to call.
pub data Reached : State → List Ptr → Type 0 where
  empty : (st : State) → st.rb_node ≡ 0 → Reached st []
  inserted :
      {st st' : State} {order : List Ptr} (n parent : Ptr) (link : Slot) (xs ys : List Ptr)
      (fuel : ℕ)
      → Reached st order
      → order ≡ xs ++ ys
      → Gap st parent link xs ys
      → st.mapped n ≡ true
      → 0 < n
      → IsLink n
      → times n order ≡ 0
      → IsEnough order fuel
      → (rb_link_node n parent link >> rb_insert_color fuel n) st ≡ ok (tt, st')
      → {order' : List Ptr} → order' ≡ xs ++ (n ∷ ys)
      → Reached st' order'
  erased :
      {st st' : State} {order : List Ptr} (n : Ptr) (xs ys : List Ptr) (fuel : ℕ)
      → Reached st order
      → order ≡ xs ++ (n ∷ ys)
      → IsEnough order fuel
      → rb_erase fuel n st ≡ ok (tt, st')
      → {order' : List Ptr} → order' ≡ xs ++ ys
      → Reached st' order'

Returns-at : {A : Type 0} {P : A → Type 0} {m : Run A} (a : A) → Returns P m → m ≡ ok a → P a
Returns-at {P} a r e =
    let (b, done, holds) = Returns-inv r in
    let same : b ≡ a = cc (sym done ∙ e) in subst P same holds

pub Reached-IsRbTree : {st : State} {order : List Ptr} → Reached st order → IsRbTree order st
Reached-IsRbTree (empty st none) = record {
  tree = leaf;
  shape = record { root = none; nodes = tt; once = λ p. omega arith };
  in_order = refl;
  balanced = tt;
  black_root = refl;
}
Reached-IsRbTree
      (inserted {st} {st'} n parent link xs ys fuel before split gap n_in pos aligned fresh enough
        run same) =
    subst (λ o. IsRbTree o st') (sym same)
      (Returns-at (tt, st')
        (rb_insert_color-IsRbTree st n parent link xs ys fuel
          (subst (λ o. IsRbTree o st) split (Reached-IsRbTree before)) gap n_in pos aligned
          (subst (λ o. times n o ≡ 0) split fresh) (subst (λ o. IsEnough o fuel) split enough))
        run)
Reached-IsRbTree (erased {st} {st'} n xs ys fuel before split enough run same) =
    subst (λ o. IsRbTree o st') (sym same)
      (Returns-at (tt, st')
        (rb_erase-IsRbTree st n xs ys fuel
          (subst (λ o. IsRbTree o st) split (Reached-IsRbTree before))
          (subst (λ o. IsEnough o fuel) split enough))
        run)

-- At the first node of `rest`, if there is one, which comes behind `xs`: rb_next gives the one behind it, or
-- NULL, and rb_prev the last of `xs`, or NULL.
abbrev pub StepsAt : (fuel : ℕ) (st : State) (xs rest : List Ptr) → Type 0
StepsAt fuel st xs [] = Unit
StepsAt fuel st xs (a ∷ ys) =
    (rb_next fuel a st ≡ ok (first_of ys, st))
    × (rb_prev fuel a st ≡ ok (first_of (reverse xs), st))

steps_at :
    (fuel : ℕ) (st : State) (t : Tree) (xs rest : List Ptr)
    → IsTree st t
    → inorder t ≡ xs ++ rest
    → depth t ≤ fuel
    → StepsAt fuel st xs rest
steps_at fuel st t xs [] tree e enough = tt
steps_at fuel st t xs (a ∷ ys) tree e enough = rb_steps-first st t fuel a xs ys tree e enough

-- After any sequence of insertions and erasures from an empty tree, the store is a list of nodes, which
-- may be empty: rb_first and rb_last give its ends, or NULL where it is empty, and wherever it is
-- split, rb_next and rb_prev of the node behind the split give that node's neighbours, or NULL where
-- there is none, all without a write, given more rounds than twice the logarithm of the number of
-- nodes and one.
pub Reached-refines :
    (st : State) (xs rest : List Ptr) (fuel : ℕ)
    → Reached st (xs ++ rest)
    → IsEnough (xs ++ rest) fuel
    → (rb_first fuel st ≡ ok (first_of (xs ++ rest), st))
      × (rb_last fuel st ≡ ok (first_of (reverse (xs ++ rest)), st))
      × StepsAt fuel st xs rest
Reached-refines st xs rest fuel reached enough =
    let held = Reached-IsRbTree reached in
    let deep : depth held.tree ≤ fuel = omega (arith, depth-lt (xs ++ rest) st held fuel enough) in
    let ends = rb_ends-first st held.tree fuel held.shape deep in
    (
      ends.0 ∙ ap (λ o. ok (first_of o, st)) held.in_order,
      ends.1 ∙ ap (λ o. ok (first_of (reverse o), st)) held.in_order,
      steps_at fuel st held.tree xs rest held.shape held.in_order deep,
    )
