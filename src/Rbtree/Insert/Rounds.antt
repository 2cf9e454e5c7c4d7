-- ===== src/Rbtree/Insert/Rounds.antt =====
-- The rounds of __rb_insert together, and rb_insert_color itself.
use common_project_template.Base.{
  ℕ, zero, suc, ◌+◌, ◌<◌, ◌≡◌, refl, true, ◌==◌, ==_refl, if◌then◌else◌, arith, ok, ap, ◌∙◌, sym,
  subst, Returns, returns, Returns-map,
}
use common_project_template.Rbtree.Fork.{order_at, finish}
use common_project_template.Rbtree.{
  Ptr, Side, left, right, other, State, Cmd, field, red, black, color_of,
}
use common_project_template.Rbtree.Tree.{
  Tree, leaf, node, Place, top, under, root_of, owner, count, one_if_self, color_of_root,
  depth_place,
}
use common_project_template.Rbtree.Access.{
  child-ok, rb_set_parent_color-ok, rb_is_black-ok, rb_red_parent-ok, color_of-add,
}
use common_project_template.Rbtree.Rep.{RepPlace}
use common_project_template.Rbtree.Frame.{with_pc, nonzero, beside_ne}
use common_project_template.Rbtree.Balance.{IsBalanced, IsRbTree}
use common_project_template.Rbtree.Insert.{insert_rotate, insert_case, insert_loop}
use common_project_template.Rbtree.Insert.Recolor.{red_child-ok, insert_case-flip}
use common_project_template.Rbtree.Insert.Fix.{
  IsReady, paint_root, flip_eq, rotate-outer, rotate-inner,
}
use common_project_template.Rbtree.Insert.Loop.{above, flippable, next-IsReady, same-order}

-- The test `parent != tmp` finds the side of the parent.
side_found :
    (s : Side) (st : State) (p g : Ptr) (d : ℕ) (u : Tree) (up : Place)
    → RepPlace st p (under s g d u up)
    → 0 < p
    → count p u ≡ 0
    → (if p == field right st g then right else left) ≡ s
side_found left st p g d u up (here, at_u, over) pos out =
    rw (here.at_right, flip_eq (root_of u) p (beside_ne st u p g at_u pos out)) refl
side_found right st p g d u up (here, at_u, over) pos out = rw (here.at_right, ==_refl p) refl

-- The parent and the new node are on the same side, or not.
rotated :
    (sn s : Side) (st : State) (l : Tree) (n : Ptr) (r : Tree) (p : Ptr) (sib : Tree) (g : Ptr)
    (d : ℕ) (u : Tree) (up : Place)
    → color_of_root u ≡ black
    → IsReady st l n r (under sn p red sib (under s g d u up))
    → Returns
        (λ r'. IsRbTree (order_at (under sn p red sib (under s g d u up)) (node l n red r)) r'.1)
        (insert_rotate s n p g st)
rotated left left st l n r p sib g d u up = rotate-outer st l n r p sib g d u up left
rotated right left st l n r p sib g d u up = rotate-inner st l n r p sib g d u up left
rotated left right st l n r p sib g d u up = rotate-inner st l n r p sib g d u up right
rotated right right st l n r p sib g d u up = rotate-outer st l n r p sib g d u up right

above_p :
    (sn s : Side) (st : State) (n p : Ptr) (sib : Tree) (g : Ptr) (d : ℕ) (u : Tree) (up : Place)
    → RepPlace st n (under sn p red sib (under s g d u up))
    → RepPlace st p (under s g d u up)
above_p left s st n p sib g d u up over = over.2
above_p right s st n p sib g d u up over = over.2

module _ (sn s : Side) (st : State) (l : Tree) (n : Ptr) (r : Tree) (p : Ptr) (sib : Tree) (g : Ptr)
    (d : ℕ) (up : Place) where
  abbrev Sorted : Tree → Unit {0} × State → Type 0
  Sorted u r' = IsRbTree (order_at (under sn p red sib (under s g d u up)) (node l n red r)) r'.1

  -- A black uncle ends the loop.
  uncle_black :
      (u : Tree) (again : (node parent : Ptr) → Cmd (Unit {0}))
      → color_of_root u ≡ black
      → IsReady st l n r (under sn p red sib (under s g d u up))
      → Returns (Sorted u) (insert_case again s n p g st)
  unfolding insert_case
  uncle_black u again dark ready =
      let at_g = above s st p g d u up (above_p sn s st n p sib g d u up ready.over) in
      let plain : insert_case again s n p g st ≡ insert_rotate s n p g st =
        simp (
          child-ok st g at_g.mapped (other s),
          at_g.at_far,
          red_child-ok st u g at_g.at_sib,
          dark,
        ) in
      subst (Returns (Sorted u)) (sym plain) (rotated sn s st l n r p sib g d u up dark ready)

  -- A red uncle passes the red node on.
  uncle_red :
      (ul : Tree) (y : Ptr) (ur : Tree) (again : (node parent : Ptr) → Cmd (Unit {0}))
      → ((st' : State) (l' r' : Tree)
          → IsReady st' l' g r' up
          → Returns (λ q. IsRbTree (order_at up (node l' g red r')) q.1) (again g (owner up) st'))
      → IsReady st l n r (under sn p red sib (under s g d (node ul y red ur) up))
      → Returns (Sorted (node ul y red ur)) (insert_case again s n p g st)
  uncle_red ul y ur again step ready =
      rw
        (insert_case-flip t p sib g d ul y ur up s sn
          (flippable st l n r p sib g d up sn s ul y ur ready) again n)
        (Returns-map (step _ _ _ (next-IsReady st l n r p sib g d up sn s ul y ur ready)) λ q done.
          subst (λ xs. IsRbTree xs q.1)
            (sym
              (same-order st l n r p sib g d up sn s (node ul y red ur) (node ul y black ur) refl))
            done)
    where
      t : Tree
      t = node l n red r

  uncle_any :
      (u : Tree) (again : (node parent : Ptr) → Cmd (Unit {0}))
      → ((st' : State) (l' r' : Tree)
          → IsReady st' l' g r' up
          → Returns (λ q. IsRbTree (order_at up (node l' g red r')) q.1) (again g (owner up) st'))
      → IsBalanced u
      → IsReady st l n r (under sn p red sib (under s g d u up))
      → Returns (Sorted u) (insert_case again s n p g st)
  uncle_any leaf again step bal ready = uncle_black leaf again refl ready
  uncle_any (node ul y c ur) again step bal ready = by_color c bal.0 ready
    where
      by_color :
          (c : ℕ)
          → c < 2
          → IsReady st l n r (under sn p red sib (under s g d (node ul y c ur) up))
          → Returns (Sorted (node ul y c ur)) (insert_case again s n p g st)
      by_color zero small' ready' = uncle_red ul y ur again step ready'
      by_color (suc zero) small' ready' = uncle_black (node ul y black ur) again refl ready'
      by_color (suc (suc k)) small' ready' = absurd (omega (arith, small'))

loop-top :
    (k : ℕ) (st : State) (n : Ptr)
    → st.mapped n ≡ true
    → insert_loop (suc k) n 0 st ≡ ok (tt, with_pc n (0 + black) st)
unfolding insert_loop
loop-top k st n mapped = rb_set_parent_color-ok st n mapped 0 black

-- A round below a black parent, and below a red one.
loop-black :
    (k : ℕ) (sn : Side) (st : State) (n p : Ptr) (sib : Tree) (up : Place)
    → RepPlace st n (under sn p black sib up)
    → insert_loop (suc k) n p st ≡ ok (tt, st)
unfolding insert_loop
loop-black k sn st n p sib up over =
    let at_p = above sn st n p black sib up over in
    simp (
      nonzero p at_p.positive,
      rb_is_black-ok st p at_p.mapped,
      at_p.packed,
      color_of-add (owner up) black at_p.parent_link at_p.bit,
    )

loop-red :
    (k : ℕ) (sn s : Side) (st : State) (n p : Ptr) (sib : Tree) (g : Ptr) (d : ℕ) (u : Tree)
    (up : Place)
    → RepPlace st n (under sn p red sib (under s g d u up))
    → count p u ≡ 0
    → insert_loop (suc k) n p st ≡ insert_case (insert_loop k) s n p g st
unfolding insert_loop
loop-red k sn s st n p sib g d u up over out =
    let at_p = above sn st n p red sib (under s g d u up) over in
    let over_g = above_p sn s st n p sib g d u up over in
    let at_g = above s st p g d u up over_g in
    let plain : g + red ≡ g = omega arith in
    let color : color_of g ≡ red =
      ap color_of (sym plain) ∙ color_of-add g red at_p.parent_link at_p.bit in
    let packed : st.parent_color p ≡ g = at_p.packed ∙ plain in
    simp (
      nonzero p at_p.positive,
      rb_is_black-ok st p at_p.mapped,
      packed,
      color,
      rb_red_parent-ok st p at_p.mapped,
      child-ok st g at_g.mapped right,
      side_found s st p g d u up over_g at_p.positive out,
    )

-- The loop with enough fuel, whichever node it starts at.
pub insert_loop-IsRbTree :
    (k : ℕ) {st : State} {l : Tree} {n : Ptr} {r : Tree} (place : Place)
    → IsReady st l n r place
    → depth_place place < k
    → Returns
        (λ r'. IsRbTree (order_at place (node l n red r)) r'.1)
        (insert_loop k n (owner place) st)
insert_loop-IsRbTree zero place ready enough = absurd (omega arith)
insert_loop-IsRbTree (suc k) {st} {l} {n} {r} top ready enough =
    rw (loop-top k st n ready.rep.0.mapped) (returns (paint_root st l n r ready))
insert_loop-IsRbTree (suc k) {st} {l} {n} {r} (under sn p (suc zero) sib up) ready enough =
    rw (loop-black k sn st n p sib up ready.over) (
      returns (
        finish st (under sn p black sib up) (node l n red r) ready.rep ready.over ready.apart
          ready.balanced ready.fits (λ e. refl)))
insert_loop-IsRbTree (suc k) {st} {l} {n} {r} (under sn p (suc (suc c)) sib up) ready enough =
    absurd (omega (arith, ready.fits.0))
insert_loop-IsRbTree (suc k) {st} {l} {n} {r} (under sn p zero sib top) ready enough =
    absurd (omega (arith, ready.fits.3 refl))
insert_loop-IsRbTree (suc k) {st} {l} {n} {r} (under sn p zero sib (under s g d u up)) ready
      enough =
    rw
      (loop-red k sn s st n p sib g d u up ready.over (omega (arith, ready.apart p, one_if_self p)))
      (uncle_any sn s st l n r p sib g d up u (insert_loop k)
        (λ st' l' r' next. insert_loop-IsRbTree k up next (omega arith)) ready.fits.5.4 ready)
