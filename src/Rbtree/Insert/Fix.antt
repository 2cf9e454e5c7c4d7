-- ===== src/Rbtree/Insert/Fix.antt =====
-- __rb_insert turns a tree in which the new node may be a red child of a red node into a red-black tree
-- with its nodes in the same order.
use common_project_template.Base.{
  ℕ, ◌+◌, ◌≤◌, ◌<◌, ◌≡◌, refl, false, ◌++◌, ◌==◌, ==_refl, arith, ap, ◌∙◌, sym, subst, Returns,
  Returns-map,
}
use common_project_template.Rbtree.Fork.{
  root_of-fork, inorder-outer, inorder-inner, order_at, order_at-under, finish,
}
use common_project_template.Rbtree.{Ptr, Side, left, right, other, State, red, black}
use common_project_template.Rbtree.Tree.{
  Tree, leaf, node, Place, top, under, fork, root_of, owner, count, count_place, one_if,
  one_if_self, paint, color_of_root, before, behind,
}
use common_project_template.Rbtree.Rep.{Rep, RepPlace, Apart, Rep-moved}
use common_project_template.Rbtree.Frame.{Kept-pc, with_pc, beside_ne}
use common_project_template.Rbtree.Balance.{height, IsBalanced, IsBalancedAt, IsRbTree}
use common_project_template.Rbtree.Rotate.{turnable}
use common_project_template.Rbtree.Rotate.Nodes.{IsTurned, count-turned}
use common_project_template.Rbtree.Insert.{insert_rotate}
use common_project_template.Rbtree.Insert.Turn.{insert_outer-IsTurned, insert_rotate-outer}
use common_project_template.Rbtree.Insert.Inner.{halfway, inner-IsTurnable, insert_rotate-inner}

-- What holds before each round of the loop: the tree is balanced but for the colour of the parent.
pub record IsReady (st : State) (l : Tree) (n : Ptr) (r : Tree) (place : Place) : Type 0 where
  pub rep : Rep st (owner place) (node l n red r)
  pub over : RepPlace st n place
  pub apart : Apart (node l n red r) place
  pub balanced : IsBalanced (node l n red r)
  pub fits : IsBalancedAt (height (node l n red r)) place

-- The inserted node is the root.
pub paint_root :
    (st : State) (l : Tree) (n : Ptr) (r : Tree)
    → IsReady st l n r top
    → IsRbTree (order_at top (node l n red r)) (with_pc n (0 + black) st)
paint_root st l n r ready =
    let here = ready.rep.0 in
    let (small, same, at_l, at_r, bal_l, bal_r) = ready.balanced in
    finish (with_pc n (0 + black) st) top (node l n black r)
      (Rep-moved (node l n red r) 0 0 black (λ a h. Kept-pc n (0 + black) (λ e. e))
        (λ a. omega (arith, ready.apart a)) here.parent_link (omega arith)
        (λ h. rw (==_refl n) refl) ready.rep)
      ready.over ready.apart
      (omega arith, same, (λ h. absurd (omega arith)), (λ h. absurd (omega arith)), bal_l, bal_r) tt
      (λ h. absurd (omega arith))

paint-black : (b : Tree) → color_of_root b ≡ black → paint black b ≡ b
paint-black leaf e = refl
paint-black (node l a c r) e = ap (λ d. node l a d r) (sym e)

-- The rotated subtree is balanced, with a black root.
turned-IsBalanced :
    (s : Side) (x : Tree) (p : Ptr) (b : Tree) (g : Ptr) (u : Tree)
    → IsBalanced x
    → IsBalanced b
    → IsBalanced u
    → height x ≡ height u
    → height b ≡ height u
    → color_of_root b ≡ black
    → color_of_root u ≡ black
    → IsBalanced (fork s x p black (fork s b g red u))
      × (height (fork s x p black (fork s b g red u)) ≡ height u + 1)
      × (color_of_root (fork s x p black (fork s b g red u)) ≡ black)
turned-IsBalanced left x p b g u bx bb bu hx hb cb cu = (
  (
    omega arith,
    omega arith,
    (λ h. absurd (omega arith)),
    (λ h. absurd (omega arith)),
    bx,
    (omega arith, hb, (λ _. cb), (λ _. cu), bb, bu),
  ),
  omega arith,
  refl,
)
turned-IsBalanced right x p b g u bx bb bu hx hb cb cu = (
  (
    omega arith,
    omega arith,
    (λ h. absurd (omega arith)),
    (λ h. absurd (omega arith)),
    (omega arith, sym hb, (λ _. cu), (λ _. cb), bu, bb),
    bx,
  ),
  omega arith,
  refl,
)

pub flip_eq : (a b : Ptr) → (a == b) ≡ false → (b == a) ≡ false
flip_eq a b e = ground arith

-- After a rotation.
conclude :
    (s : Side) (st : State) (x : Tree) (p : Ptr) (b : Tree) (g : Ptr) (u : Tree) (d : ℕ)
    (up : Place) (k : ℕ)
    → IsTurned st s p g x (paint black b) u d red up
    → d ≡ black
    → IsBalanced x
    → IsBalanced b
    → IsBalanced u
    → height x ≡ height u
    → height b ≡ height u
    → color_of_root b ≡ black
    → color_of_root u ≡ black
    → IsBalancedAt k up
    → k ≡ height u + 1
    → ((a : Ptr)
        → one_if (a == p) + one_if (a == g) + count a x + count a b + count a u + count_place a up
          ≤ 1)
    → IsRbTree (order_at up (fork s x p black (fork s b g red u))) st
conclude s st x p b g u d up k turned black_g bx bb bu hx hb cb cu fits level once =
    let (bal, high, dark) = turned-IsBalanced s x p b g u bx bb bu hx hb cb cu in
    let whole = fork s x p black (fork s b g red u) in
    finish st up whole
      (subst (λ e. Rep st (owner up) (fork s x p e (fork s b g red u))) black_g
        (subst (λ y. Rep st (owner up) (fork s x p d (fork s y g red u))) (paint-black b cb)
          turned.nodes))
      (subst (λ q. RepPlace st q up) (sym (root_of-fork s x p black (fork s b g red u)))
        turned.over)
      (λ a. omega (arith, once a, count-turned s a p g x b u black red)) bal
      (subst (λ m. IsBalancedAt m up) (level ∙ sym high) fits) (λ h. absurd (omega (arith, dark)))

module _ (st : State) (l : Tree) (n : Ptr) (r : Tree) (p : Ptr) (sib : Tree) (g : Ptr) (d : ℕ)
    (u : Tree) (up : Place) where
  abbrev Q : Side → Side → Unit {0} × State → Type 0
  Q s sn r' = IsRbTree (order_at (under sn p red sib (under s g d u up)) (node l n red r)) r'.1

  pub rotate-outer :
      (s : Side)
      → color_of_root u ≡ black
      → IsReady st l n r (under s p red sib (under s g d u up))
      → Returns (Q s s) (insert_rotate s n p g st)
  rotate-outer left dark ready =
      let (here, at_sib, over) = ready.over in
      let (c0, h_sib, near, above, bal_sib, (c1, h_u, near_u, above_g, bal_u, fits)) = ready.fits in
      let t = node l n red r in
      let can =
        turnable left st t p red sib g d u up (here, ready.rep, at_sib) over
          (λ a. omega (arith, ready.apart a)) in
      let same =
        order_at-under left p red sib (under left g d u up) t
        ∙ order_at-under left g d u up (fork left t p red sib)
        ∙ ap (λ xs. before up ++ (xs ++ behind up))
            (inorder-outer left t p sib g u red d black red) in
      rw
        (insert_rotate-outer left st n p g (root_of sib) here.mapped here.at_right (
          flip_eq (root_of sib) n (
            beside_ne st sib n p at_sib ready.rep.0.positive
              (omega (arith, ready.apart n, one_if_self n)))))
        (Returns-map (insert_outer-IsTurned left st p g t sib u d up can) λ r' turned.
          subst (λ xs. IsRbTree xs r'.1) (sym same)
            (conclude left r'.1 t p sib g u d up (height t + red + d) turned (above refl)
              ready.balanced bal_sib bal_u (omega (arith, h_u)) (omega (arith, h_sib, h_u))
              (near refl) dark fits (omega (arith, h_u, above refl))
              (λ a. omega (arith, ready.apart a))))
  rotate-outer right dark ready =
      let (here, at_sib, over) = ready.over in
      let (c0, h_sib, near, above, bal_sib, (c1, h_u, near_u, above_g, bal_u, fits)) = ready.fits in
      let t = node l n red r in
      let can =
        turnable right st t p red sib g d u up (here, at_sib, ready.rep) over
          (λ a. omega (arith, ready.apart a)) in
      let same =
        order_at-under right p red sib (under right g d u up) t
        ∙ order_at-under right g d u up (fork right t p red sib)
        ∙ ap (λ xs. before up ++ (xs ++ behind up))
            (inorder-outer right t p sib g u red d black red) in
      rw
        (insert_rotate-outer right st n p g (root_of sib) here.mapped here.at_left (
          flip_eq (root_of sib) n (
            beside_ne st sib n p at_sib ready.rep.0.positive
              (omega (arith, ready.apart n, one_if_self n)))))
        (Returns-map (insert_outer-IsTurned right st p g t sib u d up can) λ r' turned.
          subst (λ xs. IsRbTree xs r'.1) (sym same)
            (conclude right r'.1 t p sib g u d up (height t + red + d) turned (above refl)
              ready.balanced bal_sib bal_u (omega (arith, h_u)) (omega (arith, h_sib, h_u))
              (near refl) dark fits (omega (arith, h_u, above refl))
              (λ a. omega (arith, ready.apart a))))

  pub rotate-inner :
      (s : Side)
      → color_of_root u ≡ black
      → IsReady st l n r (under (other s) p red sib (under s g d u up))
      → Returns (Q s (other s)) (insert_rotate s n p g st)
  rotate-inner left dark ready =
      let (here, at_sib, over) = ready.over in
      let (c0, h_sib, near, above, bal_sib, (c1, h_u, near_u, above_g, bal_u, fits)) = ready.fits in
      let (c2, same_h, dark_l, dark_r, bal_l, bal_r) = ready.balanced in
      let t = node l n red r in
      let small : 1 < 2 = omega arith in
      let can =
        turnable right st r n red l p red sib (under left g d u up) ready.rep ready.over
          (λ a. omega (arith, ready.apart a)) in
      let next = inner-IsTurnable left st n p r l sib g d u up red can small (omega arith) in
      let same =
        order_at-under right p red sib (under left g d u up) t
        ∙ order_at-under left g d u up (fork right t p red sib)
        ∙ ap (λ xs. before up ++ (xs ++ behind up))
            (inorder-inner left sib p l n r g u red red d black red) in
      let black_in = paint-black l (dark_l refl) in
      rw
        (insert_rotate-inner left st n p r l sib g d u up can small here.at_right
          ready.rep.0.at_left)
        (Returns-map
          (insert_outer-IsTurned left (halfway left st n p l red) n g
            (fork left sib p red (paint black l)) r u d up next)
          λ r' turned.
            subst (λ xs. IsRbTree xs r'.1) (sym same)
              (conclude left r'.1 (fork left sib p red l) n r g u d up (height t + red + d)
                (subst
                  (λ y. IsTurned r'.1 left n g (fork left sib p red y) (paint black r) u d red up)
                  black_in turned)
                (above refl)
                (
                  omega arith,
                  omega (arith, same_h, h_sib),
                  (λ _. near refl),
                  (λ _. dark_l refl),
                  bal_sib,
                  bal_l,
                )
                bal_r bal_u (omega (arith, h_u, h_sib, same_h)) (omega (arith, h_u, same_h))
                (dark_r refl) dark fits (omega (arith, h_u, above refl))
                (λ a. omega (arith, ready.apart a))))
  rotate-inner right dark ready =
      let (here, at_sib, over) = ready.over in
      let (c0, h_sib, near, above, bal_sib, (c1, h_u, near_u, above_g, bal_u, fits)) = ready.fits in
      let (c2, same_h, dark_l, dark_r, bal_l, bal_r) = ready.balanced in
      let t = node l n red r in
      let small : 1 < 2 = omega arith in
      let can =
        turnable left st l n red r p red sib (under right g d u up) ready.rep ready.over
          (λ a. omega (arith, ready.apart a)) in
      let next = inner-IsTurnable right st n p l r sib g d u up red can small (omega arith) in
      let same =
        order_at-under left p red sib (under right g d u up) t
        ∙ order_at-under right g d u up (fork left t p red sib)
        ∙ ap (λ xs. before up ++ (xs ++ behind up))
            (inorder-inner right sib p r n l g u red red d black red) in
      let black_in = paint-black r (dark_r refl) in
      rw
        (insert_rotate-inner right st n p l r sib g d u up can small here.at_left
          ready.rep.0.at_right)
        (Returns-map
          (insert_outer-IsTurned right (halfway right st n p r red) n g
            (fork right sib p red (paint black r)) l u d up next)
          λ r' turned.
            subst (λ xs. IsRbTree xs r'.1) (sym same)
              (conclude right r'.1 (fork right sib p red r) n l g u d up (height t + red + d)
                (subst
                  (λ y. IsTurned r'.1 right n g (fork right sib p red y) (paint black l) u d red up)
                  black_in turned)
                (above refl)
                (
                  omega arith,
                  omega (arith, same_h, h_sib),
                  (λ _. dark_r refl),
                  (λ _. near refl),
                  bal_r,
                  bal_sib,
                )
                bal_l bal_u (omega (arith, h_u, h_sib, same_h)) (omega (arith, h_u, same_h))
                (dark_l refl) dark fits (omega (arith, h_u, above refl))
                (λ a. omega (arith, ready.apart a))))
