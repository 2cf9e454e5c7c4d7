-- ===== src/Rbtree/Erase/Black.antt =====
-- Cases 2 to 4 of ____rb_erase_color: the sibling is black.
use common_project_template.Base.{
  ℕ, zero, suc, ◌≡◌, refl, arith, Returns, ◌==◌, ◌<◌, true, if◌then◌else◌, Bool-cases, inl, inr,
}
use common_project_template.Command.{◌>>◌}
use common_project_template.Rbtree.{Ptr, Side, left, right, other, State, Cmd, field, red, black}
use common_project_template.Rbtree.Tree.{
  Tree, leaf, node, Place, under, fork, root_of, owner, color_of_root,
}
use common_project_template.Rbtree.Access.{child-ok}
use common_project_template.Rbtree.Rep.{Rep}
use common_project_template.Rbtree.Balance.{IsBalanced, IsRbTree}
use common_project_template.Rbtree.Fork.{order_at, fork-IsBalanced_inv}
use common_project_template.Rbtree.Insert.Recolor.{red_child-ok}
use common_project_template.Rbtree.Erase.{erase_inner, erase_outer, erase_flip, erase_black_sibling}
use common_project_template.Rbtree.Erase.Short.{IsShort, other_side}
use common_project_template.Rbtree.Erase.Far.{erase_far}
use common_project_template.Rbtree.Erase.Near.{erase_near}
use common_project_template.Rbtree.Erase.Flip.{flip-IsRbTree, flipped, whole}

-- Which case the colours of the sibling's children choose.
chosen :
    (s : Side) (st : State) (again : (node parent : Ptr) → Cmd (Unit {0})) (g p : Ptr)
    (far near : Tree)
    → st.mapped p ≡ true
    → field s st p ≡ root_of far
    → field (other s) st p ≡ root_of near
    → Rep st p far
    → Rep st p near
    → erase_black_sibling again (other s) g p st
      ≡ (if color_of_root far == 0
            then erase_outer (other s) g p (root_of far)
            else (if color_of_root near == 0
                then (erase_inner (other s) g p (root_of near)
                    >> erase_outer (other s) g (root_of near) p)
                else erase_flip again g p))
          st
unfolding erase_black_sibling
chosen left st again g p far near mapped at_far at_near rep_far rep_near =
    elim (Bool-cases (color_of_root far == 0)) [
      | inl far_red ↦
          simp (child-ok st p mapped left, at_far, red_child-ok st far p rep_far, far_red)
      | inr far_dark ↦
          simp
            (
              child-ok st p mapped left,
              at_far,
              red_child-ok st far p rep_far,
              far_dark,
              child-ok st p mapped right,
              at_near,
              red_child-ok st near p rep_near,
            )
            (elim (Bool-cases (color_of_root near == 0)) [ inl e ↦ simp e | inr e ↦ simp e ])
    ]
chosen right st again g p far near mapped at_far at_near rep_far rep_near =
    elim (Bool-cases (color_of_root far == 0)) [
      | inl far_red ↦
          simp (child-ok st p mapped right, at_far, red_child-ok st far p rep_far, far_red)
      | inr far_dark ↦
          simp
            (
              child-ok st p mapped right,
              at_far,
              red_child-ok st far p rep_far,
              far_dark,
              child-ok st p mapped left,
              at_near,
              red_child-ok st near p rep_near,
            )
            (elim (Bool-cases (color_of_root near == 0)) [ inl e ↦ simp e | inr e ↦ simp e ])
    ]

-- A red root, or a black one.
data Root : Tree → Type 0 where
  red_root : (l : Tree) (a : Ptr) (r : Tree) → Root (node l a red r)
  black_root : {t : Tree} → color_of_root t ≡ black → Root t

Root-any : (t : Tree) → IsBalanced t → Root t
Root-any leaf bal = black_root refl
Root-any (node l a zero r) bal = red_root l a r
Root-any (node l a (suc zero) r) bal = black_root refl
Root-any (node l a (suc (suc c)) r) bal = absurd (omega (arith, bal.0))

-- How the loop goes on at a black parent, which is not the root.
abbrev pub GoesOn : (again : (node parent : Ptr) → Cmd (Unit {0})) → Ptr → (d : ℕ) → Place → Type 0
GoesOn again g d up =
    (st : State) (t : Tree)
    → root_of t ≡ g
    → d ≡ black
    → IsShort st t up
    → 0 < owner up
    → Returns (λ r. IsRbTree (order_at up t) r.1) (again g (owner up) st)

module _ (st : State) (t : Tree) (g : Ptr) (d : ℕ) (p : Ptr) (up : Place)
    (again : (node parent : Ptr) → Cmd (Unit {0})) (step : GoesOn again g d up) where
  split_left :
      (far near : Tree)
      → Root far
      → Root near
      → IsShort st t (under right g d (fork left far p black near) up)
      → Returns
          (λ r. IsRbTree (order_at (under right g d (fork left far p black near) up) t) r.1)
          ((if color_of_root far == 0
              then erase_outer right g p (root_of far)
              else (if color_of_root near == 0
                  then (erase_inner right g p (root_of near)
                      >> erase_outer right g (root_of near) p)
                  else erase_flip again g p))
            st)
  split_left far near (red_root xl y xr) any short = erase_far left st t g d xl y xr p near up short
  split_left far near (black_root dark_far) (red_root l n r) short =
      rw dark_far (erase_near st t g d far p l n r up left short)
  split_left far near (black_root dark_far) (black_root dark_near) short =
      rw (dark_far, dark_near)
        (flip-IsRbTree right st t g d far p near up short dark_far dark_near again (λ e now pos.
          step (flipped right st t g d far p near up) (whole right st t g d far p near up black)
            refl e now pos))

  split_right :
      (far near : Tree)
      → Root far
      → Root near
      → IsShort st t (under left g d (fork right far p black near) up)
      → Returns
          (λ r. IsRbTree (order_at (under left g d (fork right far p black near) up) t) r.1)
          ((if color_of_root far == 0
              then erase_outer left g p (root_of far)
              else (if color_of_root near == 0
                  then (erase_inner left g p (root_of near) >> erase_outer left g (root_of near) p)
                  else erase_flip again g p))
            st)
  split_right far near (red_root xl y xr) any short =
      erase_far right st t g d xl y xr p near up short
  split_right far near (black_root dark_far) (red_root l n r) short =
      rw dark_far (erase_near st t g d far p r n l up right short)
  split_right far near (black_root dark_far) (black_root dark_near) short =
      rw (dark_far, dark_near)
        (flip-IsRbTree left st t g d near p far up short dark_near dark_far again (λ e now pos.
          step (flipped left st t g d near p far up) (whole left st t g d near p far up black) refl
            e now pos))

  -- The tree is red-black after a round with a black sibling, or the loop goes on.
  pub erase_black :
      (s : Side) (far near : Tree)
      → IsShort st t (under (other s) g d (fork s far p black near) up)
      → Returns
          (λ r. IsRbTree (order_at (under (other s) g d (fork s far p black near) up) t) r.1)
          (erase_black_sibling again (other s) g p st)
  erase_black left far near short =
      let at_w =
        (other_side left st t g d (fork left far p black near) up short.rep short.over).0 in
      let bal_w = short.fits.4 in
      let (_, _, _, _, bal_far, bal_near, _) = fork-IsBalanced_inv left far p black near bal_w in
      rw
        (chosen left st again g p far near at_w.0.mapped at_w.0.at_left at_w.0.at_right at_w.1
          at_w.2)
        (split_left far near (Root-any far bal_far) (Root-any near bal_near) short)
  erase_black right far near short =
      let at_w =
        (other_side right st t g d (fork right far p black near) up short.rep short.over).0 in
      let bal_w = short.fits.4 in
      let (_, _, _, _, bal_far, bal_near, _) = fork-IsBalanced_inv right far p black near bal_w in
      rw
        (chosen right st again g p far near at_w.0.mapped at_w.0.at_right at_w.0.at_left at_w.2
          at_w.1)
        (split_right far near (Root-any far bal_far) (Root-any near bal_near) short)
