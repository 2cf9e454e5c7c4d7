-- ===== src/Rbtree/Insert/Loop.antt =====
-- The loop of __rb_insert: each round paints, rotates, or moves the red node two levels up.
use common_project_template.Base.{ℕ, ◌+◌, ◌<◌, ◌≡◌, refl, true, ◌++◌, arith, ap, ◌∙◌, sym, subst}
use common_project_template.Rbtree.Fork.{
  root_color, fork-node, count-fork, inorder-fork, order_at, order_at-under, fork-IsBalanced,
}
use common_project_template.Rbtree.{Ptr, Side, left, right, other, State, field, red, black}
use common_project_template.Rbtree.Tree.{
  Tree, node, Place, under, fork, root_of, owner, sub, color_of_root, inorder, before, behind,
}
use common_project_template.Rbtree.Access.{IsLink}
use common_project_template.Rbtree.Rep.{Rep, RepPlace, Apart}
use common_project_template.Rbtree.Balance.{height, IsBalanced, IsBalancedAt}
use common_project_template.Rbtree.Insert.Recolor.{
  IsFlippable, flipped, flipped-Rep, flipped-RepPlace,
}
use common_project_template.Rbtree.Insert.Fix.{IsReady}

-- A subtree is ready whichever way it is written.
IsReady-fork :
    (s : Side) (st : State) (x : Tree) (a : Ptr) (y : Tree) (up : Place)
    → Rep st (owner up) (fork s x a red y)
    → RepPlace st a up
    → Apart (fork s x a red y) up
    → IsBalanced (fork s x a red y)
    → IsBalancedAt (height (fork s x a red y)) up
    → IsReady st (sub s x y) a (sub s y x) up
IsReady-fork left st x a y up rep over apart bal fits = record {
  rep = rep;
  over = over;
  apart = apart;
  balanced = bal;
  fits = fits;
}
IsReady-fork right st x a y up rep over apart bal fits = record {
  rep = rep;
  over = over;
  apart = apart;
  balanced = bal;
  fits = fits;
}

-- A subtree and the node above it.
pub climb :
    (s : Side) (st : State) (t : Tree) (p : Ptr) (c : ℕ) (sib : Tree) (up : Place)
    → Rep st p t
    → RepPlace st (root_of t) (under s p c sib up)
    → Rep st (owner up) (fork s t p c sib) × RepPlace st p up
climb left st t p c sib up rep (here, at_sib, over) = ((here, rep, at_sib), over)
climb right st t p c sib up rep (here, at_sib, over) = ((here, at_sib, rep), over)

-- The node of a place, its children by side.
pub record IsAbove (s : Side) (st : State) (hole p : Ptr) (c : ℕ) (sib : Tree) (parent : Ptr)
    : Type 0 where
  pub mapped : st.mapped p ≡ true
  pub positive : 0 < p
  pub bit : c < 2
  pub packed : st.parent_color p ≡ parent + c
  pub parent_link : IsLink parent
  pub at_near : field s st p ≡ hole
  pub at_far : field (other s) st p ≡ root_of sib
  pub at_sib : Rep st p sib

pub above :
    (s : Side) (st : State) (hole p : Ptr) (c : ℕ) (sib : Tree) (up : Place)
    → RepPlace st hole (under s p c sib up)
    → IsAbove s st hole p c sib (owner up)
above left st hole p c sib up (here, at_sib, over) = record {
  mapped = here.mapped;
  positive = here.positive;
  bit = here.bit;
  packed = here.packed;
  parent_link = here.parent_link;
  at_near = here.at_left;
  at_far = here.at_right;
  at_sib = at_sib;
}
above right st hole p c sib up (here, at_sib, over) = record {
  mapped = here.mapped;
  positive = here.positive;
  bit = here.bit;
  packed = here.packed;
  parent_link = here.parent_link;
  at_near = here.at_right;
  at_far = here.at_left;
  at_sib = at_sib;
}

module _ (st : State) (l : Tree) (n : Ptr) (r : Tree) (p : Ptr) (sib : Tree) (g : Ptr) (d : ℕ)
    (up : Place) (sn s : Side) where
  -- What a red uncle allows.
  pub flippable :
      (ul : Tree) (y : Ptr) (ur : Tree)
      → IsReady st l n r (under sn p red sib (under s g d (node ul y red ur) up))
      → IsFlippable st s sn (node l n red r) p sib g d ul y ur up
  flippable ul y ur ready =
      let (at_p, over) =
        climb sn st (node l n red r) p red sib (under s g d (node ul y red ur) up) ready.rep
          ready.over in
      record { at_p = at_p; over = over; once = λ a. omega (arith, ready.apart a) }

  pub next-IsReady :
      (ul : Tree) (y : Ptr) (ur : Tree)
      → IsReady st l n r (under sn p red sib (under s g d (node ul y red ur) up))
      → IsReady
          (flipped st p g y (owner up))
          (sub s (fork sn (node l n red r) p black sib) (node ul y black ur))
          g
          (sub s (node ul y black ur) (fork sn (node l n red r) p black sib))
          up
  next-IsReady ul y ur ready =
      let t = node l n red r in
      let u = node ul y black ur in
      let f = flippable ul y ur ready in
      let (
        c0,
        h_sib,
        near,
        dark_g,
        bal_sib,
        (c1, h_u, near_u, above_g, (c2, h_ur, bl, br, bul, bur), fits),
      ) =
        ready.fits in
      let (bal_p, high_p) =
        fork-IsBalanced sn t p black sib (omega arith) (sym h_sib) (λ h. absurd (omega arith))
          (λ h. absurd (omega arith)) ready.balanced bal_sib in
      let bal_u : IsBalanced u =
        (omega arith, h_ur, (λ h. absurd (omega arith)), (λ h. absurd (omega arith)), bul, bur) in
      let dark_p : color_of_root (fork sn t p black sib) ≡ black = root_color sn t p black sib in
      let (bal_g, high_g) =
        fork-IsBalanced s (fork sn t p black sib) g red u (omega arith) (omega (arith, high_p, h_u))
          (λ _. dark_p) (λ _. refl) bal_p bal_u in
      IsReady-fork s (flipped st p g y (owner up)) (fork sn t p black sib) g u up
        (flipped-Rep t p sib g d ul y ur up s sn f) (flipped-RepPlace t p sib g d ul y ur up s sn f)
        (λ a. omega (
          arith,
          ready.apart a,
          count-fork s a (fork sn t p black sib) g red u,
          count-fork sn a t p black sib,
        ))
        bal_g
        (subst (λ m. IsBalancedAt m up) (omega (arith, high_g, high_p, above_g, dark_g refl)) fits)

  pub same-order :
      (u u' : Tree)
      → inorder u ≡ inorder u'
      → order_at (under sn p red sib (under s g d u up)) (node l n red r)
        ≡ order_at up (
            node
              (sub s (fork sn (node l n red r) p black sib) u')
              g
              red
              (sub s u' (fork sn (node l n red r) p black sib)))
  same-order u u' same =
      let t = node l n red r in
      order_at-under sn p red sib (under s g d u up) t
      ∙ order_at-under s g d u up (fork sn t p red sib)
      ∙ ap (λ xs. before up ++ (xs ++ behind up))
          (inorder-fork s (fork sn t p red sib) (fork sn t p black sib) g d red u u'
              (inorder-fork sn t t p red black sib sib refl refl) same
            ∙ ap inorder (fork-node s (fork sn t p black sib) g red u'))
