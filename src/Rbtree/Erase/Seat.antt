-- ===== src/Rbtree/Erase/Seat.antt =====
-- The end of cases 2 and 3 of __rb_erase_augmented: the successor `s` takes the place of the node
-- `n`, with its parent, its colour and its left subtree.
use common_project_template.Base.{
  ℕ, suc, ◌+◌, ◌≤◌, ◌<◌, ◌≡◌, refl, true, false, not, ◌==◌, ==_refl, if◌then◌else◌, arith, ok, ap,
  ◌∙◌,
}
use common_project_template.Command.{pure}
use common_project_template.Rbtree.{
  Ptr, left, State, with_child, black, color_of, paint_child, rb_set_parent_color,
}
use common_project_template.Rbtree.Tree.{
  Tree, leaf, node, Place, root_of, owner, count, count_place, one_if, one_if_self, ne_of_one_if,
  paint,
}
use common_project_template.Rbtree.Access.{
  IsLink, child-ok, set_child-ok, get_pc-ok, put_pc-ok, rb_is_black-ok, parent_of-add,
}
use common_project_template.Rbtree.Rep.{
  IsNode, Rep, RepPlace, Kept, RepPlace-Kept, Rep-moved, Rep-Kept,
}
use common_project_template.Rbtree.Frame.{
  ne_of_count, with_pc, painted, painted-mapped, Kept-child, Kept-painted, Kept-painted_root,
  Kept-pc, Kept-then, relink, Kept-relink, paint_child-ok, change_child-ok, RepPlace-relink,
}
use common_project_template.Rbtree.Erase.{erase_replace}
use common_project_template.Rbtree.Erase.Outer.{rb_set_parent-ok}

-- `if (child2) rb_set_parent_color(child2, parent, RB_BLACK);`
black-ok :
    (st : State) (x : Tree) (q up : Ptr)
    → Rep st q x
    → IsLink up
    → (if root_of x == 0 then pure tt else rb_set_parent_color (root_of x) up black) st
      ≡ ok (tt, painted x up black st)
unfolding paint_child
black-ok st x q up rep link = paint_child-ok st x q up black rep link (omega arith)

painted-rb_node :
    (x : Tree) (up : Ptr) (c : ℕ) (st : State) → (painted x up c st).rb_node ≡ st.rb_node
painted-rb_node leaf up c st = refl
painted-rb_node (node l a d r) up c st = refl

painted-parent_color :
    (st : State) (s up : Ptr) (x : Tree) (pc : ℕ)
    → 0 < count (root_of x) x
    → count s x ≡ 0
    → (with_pc s pc (painted x up black st)).parent_color (root_of x) ≡ up + black
painted-parent_color st s up leaf pc h out = absurd (omega arith)
painted-parent_color st s up (node l a d r) pc h out =
    rw (ne_of_one_if s a (omega (arith, out)), ==_refl a) refl

-- The nodes that the writes are about: `l` is the root of the left subtree, `x` the right one of `s`.
pub record IsSeatable (st : State) (n s : Ptr) (c e : ℕ) (ll : Tree) (l : Ptr) (lc : ℕ)
    (lr x : Tree) (up : Place) : Type 0 where
  pub n_mapped : st.mapped n ≡ true
  pub n_positive : 0 < n
  pub n_child : st.rb_left n ≡ l
  pub n_packed : st.parent_color n ≡ owner up + c
  pub up_link : IsLink (owner up)
  pub bit : c < 2
  pub s_mapped : st.mapped s ≡ true
  pub s_positive : 0 < s
  pub s_link : IsLink s
  pub s_color : color_of (st.parent_color s) ≡ e
  pub at_l : Rep st n (node ll l lc lr)
  pub x_owner : Ptr
  pub at_x : Rep st x_owner x
  pub over : RepPlace st n up
  pub once :
      (a : Ptr)
      → one_if (a == n) + one_if (a == s) + count a (node ll l lc lr) + count a x + count_place a up
        ≤ 1

module _ {st : State} {n s : Ptr} {c e : ℕ} {ll : Tree} {l : Ptr} {lc : ℕ} {lr x : Tree}
    {up : Place} (parent : Ptr) (ready : IsSeatable st n s c e ll l lc lr x up) where
  -- The store after the writes to the left subtree, to the link from above, and to the rest.
  abbrev adopted : State
  adopted = with_pc l (s + lc) (with_child left s l st)

  abbrev linked : State
  linked = relink up s adopted

  abbrev pub seated : State
  seated = with_pc s (owner up + c) (painted x parent black linked)

  self : one_if (s == s) ≡ 1
  self = one_if_self s

  ne_nl : (n == l) ≡ false
  ne_nl = ne_of_count n l (omega (arith, ready.once n, one_if_self n))

  ne_sl : (s == l) ≡ false
  ne_sl = ne_of_count s l (omega (arith, ready.once s, one_if_self s))

  ne_ls : (l == s) ≡ false
  ne_ls = ne_of_count l s (omega (arith, ready.once l, one_if_self l))

  over_adopted : RepPlace adopted n up
  over_adopted =
      RepPlace-Kept {but = l} n up
        (λ a h.
          Kept-then (Kept-child left s l (ne_of_count a s (omega (arith, ready.once a))))
            (Kept-pc l (s + lc) (λ ne. ne)))
        (omega (arith, ready.once l, one_if_self l)) refl ready.over

  s_linked : {but : Ptr} → Kept adopted linked but s
  s_linked = Kept-relink s up s (omega (arith, ready.once s, self))

  x_linked : Rep linked ready.x_owner x
  x_linked =
      Rep-Kept {but = l} x ready.x_owner
        (λ a h. Kept-then (Kept-child left s l (ne_of_count a s (omega (arith, ready.once a)))) (
          Kept-then (Kept-pc l (s + lc) (λ ne. ne))
            (Kept-relink a up s (omega (arith, ready.once a)))))
        (omega (arith, ready.once l, one_if_self l)) ready.at_x

  color_s : color_of (linked.parent_color s) ≡ e
  color_s =
      ap color_of ((s_linked {but = suc s}).parent_color (ground arith) ∙ rw ne_sl refl)
      ∙ ready.s_color

  pub erase_replace-ok :
      IsLink parent
      → erase_replace n s parent (root_of x) st
        ≡ ok (if root_of x == 0 then (if not (e == 0) then parent else 0) else 0, seated)
  unfolding erase_replace
  erase_replace-ok link =
      let one_st = with_child left s l st in
      let l_rep =
        Rep-Kept {but = s} (node ll l lc lr) n
          (λ a h. Kept-child left s l (ne_of_count a s (omega (arith, ready.once a))))
          (omega (arith, ready.once s, self)) ready.at_l in
      simp (
        child-ok st n ready.n_mapped left,
        ready.n_child,
        set_child-ok st s ready.s_mapped left l,
        rb_set_parent-ok one_st l n lc s l_rep.0.mapped l_rep.0.packed l_rep.0.parent_link
            l_rep.0.bit ready.s_link,
        get_pc-ok adopted n ready.n_mapped,
        ne_nl,
        ready.n_packed,
        parent_of-add (owner up) c ready.up_link ready.bit,
        change_child-ok adopted up n s over_adopted ready.n_positive
            (λ a. omega (arith, ready.once a)),
        rb_is_black-ok linked s ((s_linked {but = s}).mapped ∙ ready.s_mapped),
        color_s,
        black-ok linked x ready.x_owner parent x_linked link,
        put_pc-ok (painted x parent black linked) s (
            ap (λ f. f s) (painted-mapped x parent black linked)
            ∙ (s_linked {but = s}).mapped
            ∙ ready.s_mapped),
      )

  -- What the writes leave alone.
  pub seated-Kept :
      {but : Ptr} (a : Ptr)
      → (a == s) ≡ false
      → count a (node ll l lc lr) ≡ 0
      → count a x ≡ 0
      → count_place a up ≡ 0
      → Kept st seated but a
  seated-Kept a ne out_l out_x out_up = Kept-then (Kept-child left s l ne) (
      Kept-then (Kept-pc l (s + lc) (λ _. ne_of_count a l (omega (arith, out_l)))) (
        Kept-then (Kept-relink a up s out_up)
          (Kept-then (Kept-painted a x parent black out_x) (Kept-pc s (owner up + c) (λ _. ne)))))

  -- The successor.
  pub seated-IsNode : IsNode seated (owner up) s c l (st.rb_right s)
  seated-IsNode =
      let kept : Kept adopted seated s s = Kept-then (s_linked {but = s}) (
        Kept-then (Kept-painted s x parent black (omega (arith, ready.once s, self)))
          (Kept-pc s (owner up + c) (λ ne. ne))) in
      record {
        mapped = kept.mapped ∙ ready.s_mapped;
        positive = ready.s_positive;
        link = ready.s_link;
        parent_link = ready.up_link;
        bit = ready.bit;
        packed = rw (==_refl s) refl;
        at_left = kept.rb_left ∙ rw (==_refl s) refl;
        at_right = kept.rb_right;
      }

  l_after : {but : Ptr} → Kept adopted seated but l
  l_after =
      let self_l = one_if_self l in
      Kept-then (Kept-relink l up s (omega (arith, ready.once l))) (
        Kept-then (Kept-painted l x parent black (omega (arith, ready.once l)))
          (Kept-pc s (owner up + c) (λ _. ne_ls)))

  -- The left subtree, below the successor.
  pub seated-left : Rep seated s (node ll l lc lr)
  seated-left =
      Rep-moved (node ll l lc lr) n s lc
        (λ a h. Kept-then (Kept-child left s l (ne_of_count a s (omega (arith, ready.once a)))) (
          Kept-then (Kept-pc l (s + lc) (λ ne. ne)) (
            Kept-then (Kept-relink a up s (omega (arith, ready.once a))) (
              Kept-then (Kept-painted a x parent black (omega (arith, ready.once a)))
                (Kept-pc s (owner up + c) (λ _. ne_of_count a s (omega (arith, ready.once a))))))))
        (λ a. omega (arith, ready.once a)) ready.s_link ready.at_l.0.bit
        (λ h. (l_after {but = suc l}).parent_color (ground arith) ∙ rw (==_refl l) refl) ready.at_l

  -- The right subtree of the successor, below its new parent and black.
  pub seated-x : IsLink parent → Rep seated parent (paint black x)
  seated-x link =
      Rep-moved x ready.x_owner parent black
        (λ a h. Kept-then (Kept-child left s l (ne_of_count a s (omega (arith, ready.once a)))) (
          Kept-then (Kept-pc l (s + lc) (λ _. ne_of_count a l (omega (arith, ready.once a)))) (
            Kept-then (Kept-relink a up s (omega (arith, ready.once a))) (
              Kept-then (Kept-painted_root a x parent black)
                (Kept-pc s (owner up + c) (λ _. ne_of_count a s (omega (arith, ready.once a))))))))
        (λ a. omega (arith, ready.once a)) link (omega arith)
        (λ h.
          painted-parent_color linked s parent x (owner up + c) h
            (omega (arith, ready.once s, self)))
        ready.at_x

  -- The place of the node.
  pub seated-above : RepPlace seated s up
  seated-above =
      RepPlace-Kept {but = s} s up
        (λ a h.
          Kept-then (Kept-painted a x parent black (omega (arith, ready.once a)))
            (Kept-pc s (owner up + c) (λ ne. ne)))
        (omega (arith, ready.once s, self)) (painted-rb_node x parent black linked)
        (RepPlace-relink adopted up n s over_adopted (λ a. omega (arith, ready.once a)))
