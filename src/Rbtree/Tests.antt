-- ===== src/Rbtree/Tests.antt =====
-- Runs of the rbtree functions on small stores, and the theorems there.
use common_project_template.Base.{
  ◌≡◌, refl, List, [], ◌∷◌, ◌==◌, ◌||◌, if◌then◌else◌, arith, ok, fault, true, false, Returns,
  returns, Returns-inv,
}
use common_project_template.Command.{◌>>◌}
use common_project_template.Rbtree.{
  Cmd, Ptr, right, State, child_slot, root_slot, red, black, rb_link_node,
}
use common_project_template.Rbtree.Tree.{Tree, leaf, node}
use common_project_template.Rbtree.Rep.{IsTree, Kept}
use common_project_template.Rbtree.Balance.{IsRbTree}
use common_project_template.Rbtree.Iterate.{
  rb_first, rb_last, rb_next, rb_prev, rb_entry, rb_next_postorder, postorder_for_each,
}
use common_project_template.Rbtree.Iterate.Postorder.{rb_next_postorder-first}
use common_project_template.Rbtree.Iterate.Passed.{postorder_for_each-visits}
use common_project_template.Common.{member}
use common_project_template.Rbtree.Access.{IsLink}
use common_project_template.Rbtree.Iterate.Ends.{rb_steps-first, rb_ends-first}
use common_project_template.Rbtree.Erase.{rb_erase}
use common_project_template.Rbtree.Erase.Whole.{rb_erase-IsRbTree}
use common_project_template.Rbtree.Insert.{rb_insert_color}
use common_project_template.Rbtree.Insert.Gap.{at_right, at_root, rb_insert_color-IsRbTree}
use common_project_template.Rbtree.Refine.{
  Reached, empty, inserted, Reached-IsRbTree, Reached-refines,
}

-- A black root at 16 with red children at 8 and 24; the node at 32 is free.
abbrev three : State
three = record {
  mapped = λ a. (a == 8) || (a == 16) || (a == 24) || (a == 32);
  parent_color = λ a. if a == 16 then 1 else (if a == 8 then 16 else (if a == 24 then 16 else 0));
  rb_left = λ a. if a == 16 then 8 else 0;
  rb_right = λ a. if a == 16 then 24 else 0;
  rb_node = 16;
}

abbrev three_tree : Tree
three_tree = node (node leaf 8 red leaf) 16 black (node leaf 24 red leaf)

abbrev order : List Ptr
order = 8 ∷ 16 ∷ 24 ∷ []

three-IsTree : IsTree three three_tree
three-IsTree = record {
  root = refl;
  nodes = (
    record {
      mapped = refl;
      positive = omega arith;
      link = record { aligned = refl; small = omega arith };
      parent_link = record { aligned = refl; small = omega arith };
      bit = omega arith;
      packed = refl;
      at_left = refl;
      at_right = refl;
    },
    (
      record {
        mapped = refl;
        positive = omega arith;
        link = record { aligned = refl; small = omega arith };
        parent_link = record { aligned = refl; small = omega arith };
        bit = omega arith;
        packed = refl;
        at_left = refl;
        at_right = refl;
      },
      tt,
      tt,
    ),
    (
      record {
        mapped = refl;
        positive = omega arith;
        link = record { aligned = refl; small = omega arith };
        parent_link = record { aligned = refl; small = omega arith };
        bit = omega arith;
        packed = refl;
        at_left = refl;
        at_right = refl;
      },
      tt,
      tt,
    ),
  );
  once = λ p. ground arith;
}

three-IsRbTree : IsRbTree order three
three-IsRbTree = record {
  tree = three_tree;
  shape = three-IsTree;
  in_order = refl;
  balanced = (
    omega arith,
    refl,
    (λ h. absurd (omega arith)),
    (λ h. absurd (omega arith)),
    (omega arith, refl, (λ h. refl), (λ h. refl), tt, tt),
    (omega arith, refl, (λ h. refl), (λ h. refl), tt, tt),
  );
  black_root = refl;
}

rb_insert_color-IsRbTree_example :
    Returns
      (λ r. IsRbTree (8 ∷ 16 ∷ 24 ∷ 32 ∷ []) r.1)
      ((rb_link_node 32 24 (child_slot right 24) >> rb_insert_color 5 32) three)
rb_insert_color-IsRbTree_example =
    rb_insert_color-IsRbTree three 32 24 (child_slot right 24) order [] 5 three-IsRbTree
      (at_right (8 ∷ 16 ∷ []) refl refl) refl (omega arith)
      (record { aligned = refl; small = omega arith }) (ground arith) (omega arith)

rb_steps-first_example :
    (rb_next 3 16 three ≡ ok (24, three)) × (rb_prev 3 16 three ≡ ok (8, three))
rb_steps-first_example =
    rb_steps-first three three_tree 3 16 (8 ∷ []) (24 ∷ []) three-IsTree refl (omega arith)

rb_ends-first_example : (rb_first 3 three ≡ ok (8, three)) × (rb_last 3 three ≡ ok (24, three))
rb_ends-first_example = rb_ends-first three three_tree 3 three-IsTree (omega arith)

rb_erase-IsRbTree_example : Returns (λ r. IsRbTree (8 ∷ 24 ∷ []) r.1) (rb_erase 5 16 three)
rb_erase-IsRbTree_example =
    rb_erase-IsRbTree three 16 (8 ∷ []) (24 ∷ []) 5 three-IsRbTree (omega arith)

-- An empty tree and a node outside it.
abbrev bare : State
bare = record {
  mapped = λ a. a == 16;
  parent_color = λ a. 0;
  rb_left = λ a. 0;
  rb_right = λ a. 0;
  rb_node = 0;
}

-- The store after its insertion.
grown :
    (result : Unit × State) × ((rb_link_node 16 0 root_slot >> rb_insert_color 1 16) bare
      ≡ ok result)
    × IsRbTree (16 ∷ []) result.1
grown = Returns-inv (
    rb_insert_color-IsRbTree bare 16 0 root_slot [] [] 1 (Reached-IsRbTree (empty bare refl))
      at_root refl (omega arith) (record { aligned = refl; small = omega arith }) refl
      (omega arith))

grown-Reached : Reached grown.0.1 (16 ∷ [])
grown-Reached =
    inserted 16 0 root_slot [] [] 1 (empty bare refl) refl at_root refl (omega arith)
      (record { aligned = refl; small = omega arith }) refl (omega arith) grown.1 refl

Reached-refines_example :
    (rb_first 3 grown.0.1 ≡ ok (16, grown.0.1))
    × (rb_last 3 grown.0.1 ≡ ok (16, grown.0.1))
    × ((rb_next 3 16 grown.0.1 ≡ ok (0, grown.0.1)) × (rb_prev 3 16 grown.0.1 ≡ ok (0, grown.0.1)))
Reached-refines_example = Reached-refines grown.0.1 [] (16 ∷ []) 3 grown-Reached (omega arith)

rb_next_postorder-first_example : rb_next_postorder 3 8 three ≡ ok (24, three)
rb_next_postorder-first_example =
    rb_next_postorder-first three three_tree 3 8 [] (24 ∷ 16 ∷ []) three-IsTree refl (omega arith)

-- A body that frees the node of its entry, four bytes further in, and collects the entries.
abbrev freeing : Ptr → List Ptr → Cmd (List Ptr)
freeing pos entries st =
    if st.mapped (member 4 pos)
    then ok (
      pos ∷ entries,
      record st { mapped = λ p. if p == member 4 pos then false else st.mapped p },
    )
    else fault

freeing-local :
    (a : Ptr) (entries : List Ptr) (st : State)
    → IsLink a
    → st.mapped a ≡ true
    → Returns
        (λ r. (r.0 ≡ rb_entry 4 a ∷ entries) × ((p : Ptr) → (p == a) ≡ false → Kept st r.1 a p))
        (freeing (rb_entry 4 a) entries st)
freeing-local a entries st link here =
    let same : member 4 (rb_entry 4 a) ≡ a = omega (arith, link.small) in
    rw (same, here)
      (returns (
        refl,
        λ p ne. record {
          mapped = rw ne refl;
          rb_left = refl;
          rb_right = refl;
          parent_color = λ _. refl;
        },
      ))

postorder_for_each-visits_example :
    Returns (λ r. r.0 ≡ 12 ∷ 20 ∷ 4 ∷ []) (postorder_for_each 4 freeing 4 [] three)
postorder_for_each-visits_example =
    postorder_for_each-visits 4 freeing (λ pos entries. pos ∷ entries) freeing-local 4 three
      three_tree [] three-IsTree (λ p. ground arith) (omega arith)
