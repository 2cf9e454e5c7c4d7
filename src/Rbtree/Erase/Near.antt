-- ===== src/Rbtree/Erase/Near.antt =====
-- Cases 3 and 4 of ____rb_erase_color together leave a red-black tree.
use common_project_template.Base.{
  ℕ, ◌≡◌, refl, arith, ap, ◌∙◌, sym, subst, Returns, Returns-map, ◌++◌,
}
use common_project_template.Command.{◌>>◌}
use common_project_template.Rbtree.{Ptr, Side, left, right, other, State, red, black}
use common_project_template.Rbtree.Tree.{Tree, Place, under, fork, before, behind, paint}
use common_project_template.Rbtree.Balance.{IsRbTree}
use common_project_template.Rbtree.Fork.{
  order_at, inorder-inner, fork-IsBalanced, fork-IsBalanced_inv,
}
use common_project_template.Rbtree.Rotate.{turnable}
use common_project_template.Rbtree.Rotate.Nodes.{IsTurned}
use common_project_template.Rbtree.Erase.{erase_inner, erase_outer}
use common_project_template.Rbtree.Erase.Outer.{paint-same}
use common_project_template.Rbtree.Erase.Short.{IsShort, other_side, order_beside, conclude}
use common_project_template.Rbtree.Erase.Far.{color_small}
use common_project_template.Rbtree.Erase.Inner.{both-IsTurned}

module _ (st : State) (t : Tree) (g : Ptr) (d : ℕ) (sib : Tree) (p : Ptr) (inner : Tree) (n : Ptr)
    (outer : Tree) (up : Place) where
  abbrev sibling : Side → Tree
  sibling s = fork s sib p black (fork (other s) outer n red inner)

  pub erase_near :
      (s : Side)
      → IsShort st t
          (under (other s) g d (fork s sib p black (fork (other s) outer n red inner)) up)
      → Returns
          (λ r.
            IsRbTree
              (order_at
                (under (other s) g d (fork s sib p black (fork (other s) outer n red inner)) up)
                t)
              r.1)
          ((erase_inner (other s) g p n >> erase_outer (other s) g n p) st)
  erase_near left short =
      let (at_w, over) = other_side left st t g d (sibling left) up short.rep short.over in
      let ready =
        turnable right st outer n red inner p black sib (under left g d t up) at_w.2
          (at_w.0, at_w.1, over) (λ a. omega (arith, short.apart a)) in
      let (small, high_w, near, above, bal_w, fits) = short.fits in
      let (_, same, _, _, bal_sib, bal_near, high) =
        fork-IsBalanced_inv left sib p black (fork right outer n red inner) bal_w in
      let (_, same_n, dark_o, dark_i, bal_o, bal_i, high_n) =
        fork-IsBalanced_inv right outer n red inner bal_near in
      let plain : paint black inner ≡ inner =
        ap (λ c. paint c inner) (sym (dark_i refl)) ∙ paint-same inner in
      let (bal_x, high_x) =
        fork-IsBalanced left sib p black inner (omega arith) (omega (arith, same, same_n, high_n))
          (λ h. absurd (omega arith)) (λ h. absurd (omega arith)) bal_sib bal_i in
      subst
        (λ xs.
          Returns (λ r. IsRbTree xs r.1) ((erase_inner right g p n >> erase_outer right g n p) st))
        (sym (
          order_beside left t g d (sibling left) up
          ∙ ap (λ xs. before up ++ (xs ++ behind up))
              (inorder-inner left sib p inner n outer g t red black d d black)))
        (Returns-map
          (both-IsTurned st n p outer inner sib g d t up left ready over.0.mapped at_w.2.0.at_left
            (color_small outer bal_o))
          λ r turned.
            conclude left r.1 (fork left sib p black inner) n outer g t d up
              (subst (λ y. IsTurned r.1 left n g (fork left sib p black y) outer t d black up) plain
                turned)
              bal_x bal_o short.balanced refl (omega (arith, high_x, high, high_w))
              (omega (arith, high, high_w, same, same_n, high_n)) small above fits
              (λ a. omega (arith, ready.once a)))
  erase_near right short =
      let (at_w, over) = other_side right st t g d (sibling right) up short.rep short.over in
      let ready =
        turnable left st outer n red inner p black sib (under right g d t up) at_w.1
          (at_w.0, at_w.2, over) (λ a. omega (arith, short.apart a)) in
      let (small, high_w, near, above, bal_w, fits) = short.fits in
      let (_, same, _, _, bal_sib, bal_near, high) =
        fork-IsBalanced_inv right sib p black (fork left outer n red inner) bal_w in
      let (_, same_n, dark_o, dark_i, bal_o, bal_i, high_n) =
        fork-IsBalanced_inv left outer n red inner bal_near in
      let plain : paint black inner ≡ inner =
        ap (λ c. paint c inner) (sym (dark_i refl)) ∙ paint-same inner in
      let (bal_x, high_x) =
        fork-IsBalanced right sib p black inner (omega arith) (omega (arith, same, same_n, high_n))
          (λ h. absurd (omega arith)) (λ h. absurd (omega arith)) bal_sib bal_i in
      subst
        (λ xs.
          Returns (λ r. IsRbTree xs r.1) ((erase_inner left g p n >> erase_outer left g n p) st))
        (sym (
          order_beside right t g d (sibling right) up
          ∙ ap (λ xs. before up ++ (xs ++ behind up))
              (inorder-inner right sib p inner n outer g t red black d d black)))
        (Returns-map
          (both-IsTurned st n p outer inner sib g d t up right ready over.0.mapped at_w.1.0.at_right
            (color_small outer bal_o))
          λ r turned.
            conclude right r.1 (fork right sib p black inner) n outer g t d up
              (subst (λ y. IsTurned r.1 right n g (fork right sib p black y) outer t d black up)
                plain turned)
              bal_x bal_o short.balanced refl (omega (arith, high_x, high, high_w))
              (omega (arith, high, high_w, same, same_n, high_n)) small above fits
              (λ a. omega (arith, ready.once a)))
