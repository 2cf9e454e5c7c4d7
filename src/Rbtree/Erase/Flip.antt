-- ===== src/Rbtree/Erase/Flip.antt =====
-- Case 2 of ____rb_erase_color: the sibling becomes red, and the parent black, or the short one.
use common_project_template.Base.{
  ℕ, ◌+◌, ◌<◌, bit_or, ◌≡◌, refl, false, ◌==◌, ==_refl, arith, ok, ap, ◌∙◌, sym, subst, Returns,
  returns, Bool-cases, inl, inr, if◌then◌else◌, ◌++◌,
}
use common_project_template.Command.{pure}
use common_project_template.Rbtree.{
  Ptr, Side, left, right, State, Cmd, red, black, color_of, parent_of, rb_set_black,
}
use common_project_template.Rbtree.Tree.{
  Tree, node, Place, top, under, fork, root_of, owner, one_if_self, color_of_root, before, behind,
  paint,
}
use common_project_template.Rbtree.Access.{
  rb_set_parent_color-ok, rb_is_red-ok, rb_parent-ok, get_pc-ok, put_pc-ok, bit_or-color,
  color_of-add, parent_of-add,
}
use common_project_template.Rbtree.Rep.{
  IsNode-Kept, Rep, RepPlace, Apart, Rep-Kept, RepPlace-Kept, Rep-moved,
}
use common_project_template.Rbtree.Frame.{ne_of_count, with_pc, Kept-pc, nonzero}
use common_project_template.Rbtree.Balance.{height, IsBalanced, IsBalancedAt, IsRbTree}
use common_project_template.Rbtree.Fork.{
  finish, order_at, order_at-under, inorder-fork, fork-IsBalanced, count-fork, root_of-fork,
  root_color,
}
use common_project_template.Rbtree.Insert.Loop.{IsAbove, above, climb}
use common_project_template.Rbtree.Erase.{erase_flip}
use common_project_template.Rbtree.Erase.Short.{IsShort}

-- The loop ends at the root, where no path is short of another.
pub ending :
    (up : Place) (st : State) (x : Tree) (g : Ptr) (again : (node parent : Ptr) → Cmd (Unit {0}))
    → IsShort st x up
    → (0 < owner up → Returns (λ r. IsRbTree (order_at up x) r.1) (again g (owner up) st))
    → Returns
        (λ r. IsRbTree (order_at up x) r.1)
        ((if owner up == 0 then pure tt else again g (owner up)) st)
ending top st x g again short step = returns (
    finish st top x short.rep short.over short.apart short.balanced tt
      (λ h. absurd (omega (arith, short.dark, h))))
ending (under s a c beside up) st x g again short step =
    let pos = (above s st (root_of x) a c beside up short.over).positive in
    rw (nonzero a pos) (step pos)

paint-fork :
    (s : Side) (x : Tree) (a : Ptr) (c c' : ℕ) (y : Tree)
    → paint c' (fork s x a c y) ≡ fork s x a c' y
paint-fork left x a c c' y = refl
paint-fork right x a c c' y = refl

module _ (s : Side) (st : State) (t : Tree) (g : Ptr) (d : ℕ) (wl : Tree) (p : Ptr) (wr : Tree)
    (up : Place) where
  abbrev pub flipped : State
  flipped = with_pc p (g + red) st

  paint_beside :
      Rep st g t
      → RepPlace st (root_of t) (under s g d (node wl p black wr) up)
      → Apart t (under s g d (node wl p black wr) up)
      → Rep flipped g t × RepPlace flipped (root_of t) (under s g d (node wl p red wr) up)
  paint_beside rep over apart =
      let self = one_if_self p in
      let ne_gp : (g == p) ≡ false = ne_of_count g p (omega (arith, apart g, one_if_self g)) in
      let at_g = above s st (root_of t) g d (node wl p black wr) up over in
      let painted =
        Rep-moved (node wl p black wr) g g red (λ a h. Kept-pc p (g + red) (λ e. e))
          (λ a. omega (arith, apart a)) at_g.at_sib.0.parent_link (omega arith)
          (λ h. rw (==_refl p) refl) at_g.at_sib in
      let at_t =
        Rep-Kept {but = p} t g (λ a h. Kept-pc p (g + red) (λ e. e)) (omega (arith, apart p)) rep in
      (
        at_t,
        by_side s over ne_gp painted (λ q over'.
            RepPlace-Kept {but = p} q up (λ a h. Kept-pc p (g + red) (λ e. e))
              (omega (arith, apart p)) refl over'),
      )
    where
      by_side :
          (s : Side)
          → RepPlace st (root_of t) (under s g d (node wl p black wr) up)
          → (g == p) ≡ false
          → Rep flipped g (node wl p red wr)
          → ((q : Ptr) → RepPlace st q up → RepPlace flipped q up)
          → RepPlace flipped (root_of t) (under s g d (node wl p red wr) up)
      by_side left (here, at_w, over') ne painted rest =
          (IsNode-Kept {but = p} (Kept-pc p (g + red) (λ e. e)) ne here, painted, rest g over')
      by_side right (here, at_w, over') ne painted rest =
          (IsNode-Kept {but = p} (Kept-pc p (g + red) (λ e. e)) ne here, painted, rest g over')

  -- The subtree of the parent, with the colour `c` there.
  abbrev pub whole : ℕ → Tree
  whole c = fork s t g c (node wl p red wr)

  module _ (short : IsShort st t (under s g d (node wl p black wr) up))
      (dark_l : color_of_root wl ≡ black) (dark_r : color_of_root wr ≡ black) where
    parts : Rep flipped (owner up) (fork s t g d (node wl p red wr)) × RepPlace flipped g up
    parts =
        let (rep, over) = paint_beside short.rep short.over short.apart in
        climb s flipped t g d (node wl p red wr) up rep over

    whole-Apart : (c : ℕ) → Apart (whole c) up
    whole-Apart c a = omega (arith, short.apart a, count-fork s a t g c (node wl p red wr))

    whole-IsBalanced : IsBalanced (whole black) × (height (whole black) ≡ height t + 1)
    whole-IsBalanced =
        let (small, high, near, above_g, (c0, same, near_l, near_r, bal_l, bal_r), fits) =
          short.fits in
        fork-IsBalanced s t g black (node wl p red wr) (omega arith) (omega (arith, high))
          (λ h. absurd (omega arith)) (λ h. absurd (omega arith)) short.balanced
          (omega arith, same, (λ _. dark_l), (λ _. dark_r), bal_l, bal_r)

    same_order : (c : ℕ) → order_at (under s g d (node wl p black wr) up) t ≡ order_at up (whole c)
    same_order c =
        order_at-under s g d (node wl p black wr) up t
        ∙ ap (λ xs. before up ++ (xs ++ behind up))
            (inorder-fork s t t g d c (node wl p black wr) (node wl p red wr) refl refl)

    at_g : IsAbove s st (root_of t) g d (node wl p black wr) (owner up)
    at_g = above s st (root_of t) g d (node wl p black wr) up short.over

    ne_gp : (g == p) ≡ false
    ne_gp = ne_of_count g p (omega (arith, short.apart g, one_if_self g))

    color_g : color_of (st.parent_color g) ≡ d
    color_g = ap color_of at_g.packed ∙ color_of-add (owner up) d at_g.parent_link at_g.bit

    parent_g : parent_of (st.parent_color g) ≡ owner up
    parent_g = ap parent_of at_g.packed ∙ parent_of-add (owner up) d at_g.parent_link at_g.bit

    below_red :
        (again : (node parent : Ptr) → Cmd (Unit {0}))
        → d ≡ red
        → erase_flip again g p st ≡ ok (tt, with_pc g (owner up + black) flipped)
    unfolding erase_flip rb_set_black
    below_red again is_red =
        let plain : st.parent_color g ≡ owner up =
          at_g.packed ∙ (ap (λ c. owner up + c) is_red ∙ omega arith) in
        let set =
          ap (λ c. bit_or c black) plain
          ∙ bit_or-color (owner up) black at_g.parent_link (omega arith) in
        simp (
          rb_set_parent_color-ok st p at_g.at_sib.0.mapped g red,
          bit_or-color g red at_g.at_sib.0.parent_link (omega arith),
          rb_is_red-ok flipped g at_g.mapped,
          ne_gp,
          color_g,
          is_red,
          get_pc-ok flipped g at_g.mapped,
          set,
          put_pc-ok flipped g at_g.mapped,
        )

    below_black :
        (again : (node parent : Ptr) → Cmd (Unit {0}))
        → d ≡ black
        → erase_flip again g p st ≡ (if owner up == 0 then pure tt else again g (owner up)) flipped
    unfolding erase_flip
    below_black again is_black = simp (
      rb_set_parent_color-ok st p at_g.at_sib.0.mapped g red,
      bit_or-color g red at_g.at_sib.0.parent_link (omega arith),
      rb_is_red-ok flipped g at_g.mapped,
      ne_gp,
      color_g,
      is_black,
      rb_parent-ok flipped g at_g.mapped,
      parent_g,
    )

    whole-IsShort : d ≡ black → IsShort flipped (whole black) up
    whole-IsShort is_black =
        let (bal, high) = whole-IsBalanced in
        let (small, high_w, near, above_g, bal_w, fits) = short.fits in
        record {
          rep =
              subst (λ c. Rep flipped (owner up) (fork s t g c (node wl p red wr))) is_black
                parts.0;
          over =
              subst (λ q. RepPlace flipped q up) (sym (root_of-fork s t g black (node wl p red wr)))
                parts.1;
          apart = whole-Apart black;
          balanced = bal;
          dark = root_color s t g black (node wl p red wr);
          fits = subst (λ m. IsBalancedAt m up) (omega (arith, high, is_black)) fits;
        }

    -- A red parent becomes black.
    red_ends : d ≡ red → IsRbTree (order_at up (whole black)) (with_pc g (owner up + black) flipped)
    red_ends is_red =
        let now = with_pc g (owner up + black) flipped in
        let w = node wl p red wr in
        let (bal, high) = whole-IsBalanced in
        let (small, high_w, near, above_g, bal_w, fits) = short.fits in
        let (rep, over) = parts in
        let self = one_if_self g in
        let root = root_of-fork s t g d w in
        let moved : Rep now (owner up) (paint black (fork s t g d w)) =
          Rep-moved {st' = now} (fork s t g d w) (owner up) (owner up) black
            (λ a h. Kept-pc g (owner up + black) (λ e. rw (← root) e))
            (λ a. omega (arith, short.apart a, count-fork s a t g d w)) at_g.parent_link
            (omega arith) (λ h. rw (root, ==_refl g) refl) rep in
        finish now up (fork s t g black w)
          (subst (λ x. Rep now (owner up) x) (paint-fork s t g d black w) moved)
          (subst (λ q. RepPlace now q up) (sym (root_of-fork s t g black w))
            (RepPlace-Kept {but = g} g up (λ a h. Kept-pc g (owner up + black) (λ e. e))
              (omega (arith, short.apart g)) refl over))
          (whole-Apart black) bal
          (subst (λ m. IsBalancedAt m up) (omega (arith, high, is_red)) fits)
          (λ h. absurd (omega (arith, root_color s t g black w, h)))

    abbrev Sorted : Unit {0} × State → Type 0
    Sorted r = IsRbTree (order_at (under s g d (node wl p black wr) up) t) r.1

    -- The tree is red-black after case 2, or its parent is short and the loop goes on.
    pub flip-IsRbTree :
        (again : (node parent : Ptr) → Cmd (Unit {0}))
        → (d ≡ black
            → IsShort flipped (whole black) up
            → 0 < owner up
            → Returns (λ r. IsRbTree (order_at up (whole black)) r.1) (again g (owner up) flipped))
        → Returns Sorted (erase_flip again g p st)
    flip-IsRbTree again step = elim (Bool-cases (d == 0)) [
      | inl is_red ↦
          let e : d ≡ red = ground (arith, is_red) in
          rw (below_red again e) (
            returns (
              subst (λ xs. IsRbTree xs (with_pc g (owner up + black) flipped))
                (sym (same_order black)) (red_ends e)))
      | inr not_red ↦
          let e : d ≡ black = ground (arith, not_red, at_g.bit) in
          rw (below_black again e) (
            subst
              (λ xs.
                Returns (λ r. IsRbTree xs r.1)
                  ((if owner up == 0 then pure tt else again g (owner up)) flipped))
              (sym (same_order black))
              (ending up flipped (whole black) g again (whole-IsShort e)
                (step e (whole-IsShort e))))
    ]
