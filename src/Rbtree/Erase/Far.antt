-- ===== src/Rbtree/Erase/Far.antt =====
-- Case 4 of ____rb_erase_color: the sibling has a red child away from the node.
use common_project_template.Base.{
  ℕ, ◌+◌, ◌<◌, ◌≡◌, refl, true, false, ◌==◌, ◌++◌, ==_refl, arith, ap, ◌∙◌, sym, subst, Returns,
  Returns-map,
}
use common_project_template.Rbtree.{Ptr, Side, left, right, other, State, field, red, black}
use common_project_template.Rbtree.Tree.{
  Tree, leaf, node, Place, under, fork, root_of, one_if_self, color_of_root, before, behind,
}
use common_project_template.Rbtree.Rep.{Rep, RepPlace, Apart, Rep-Kept, RepPlace-Kept, Rep-moved}
use common_project_template.Rbtree.Frame.{ne_of_count, with_pc, Kept-pc}
use common_project_template.Rbtree.Balance.{IsBalanced, IsRbTree}
use common_project_template.Rbtree.Fork.{
  order_at, inorder-outer, inorder-fork, fork-IsBalanced_inv, root_of-fork,
}
use common_project_template.Rbtree.Rotate.{IsTurnable, turnable}
use common_project_template.Rbtree.Erase.{erase_outer}
use common_project_template.Rbtree.Erase.Outer.{erase_outer-IsTurned}
use common_project_template.Rbtree.Erase.Short.{IsShort, other_side, order_beside, conclude}

-- Painting the far child leaves the nodes that are turned as they were.
far-IsTurnable :
    (s : Side) (st : State) (p g : Ptr) (xl : Tree) (y : Ptr) (c : ℕ) (xr b u : Tree) (d : ℕ)
    (up : Place)
    → IsTurnable st s p g (node xl y c xr) b u d up
    → IsTurnable (with_pc y (p + black) st) s p g (node xl y black xr) b u d up
far-IsTurnable s st p g xl y c xr b u d up ready =
    let self = one_if_self y in
    let ne_gy : (g == y) ≡ false = ne_of_count g y (omega (arith, ready.once g, one_if_self g)) in
    record {
      p_mapped = ready.p_mapped;
      p_positive = ready.p_positive;
      p_link = ready.p_link;
      p_child = by_side s _ _ ready.p_child;
      g_mapped = ready.g_mapped;
      g_positive = ready.g_positive;
      g_link = ready.g_link;
      g_packed = rw ne_gy ready.g_packed;
      g_child = by_side (other s) _ _ ready.g_child;
      up_link = ready.up_link;
      bit = ready.bit;
      at_x =
          Rep-moved (node xl y c xr) p p black (λ a h. Kept-pc y (p + black) (λ e. e))
            (λ a. omega (arith, ready.once a)) ready.p_link (omega arith) (λ h. rw (==_refl y) refl)
            ready.at_x;
      b_owner = ready.b_owner;
      at_b =
          Rep-Kept {but = y} b ready.b_owner (λ a h. Kept-pc y (p + black) (λ e. e))
            (omega (arith, ready.once y)) ready.at_b;
      at_u =
          Rep-Kept {but = y} u g (λ a h. Kept-pc y (p + black) (λ e. e))
            (omega (arith, ready.once y)) ready.at_u;
      over =
          RepPlace-Kept {but = y} g up (λ a h. Kept-pc y (p + black) (λ e. e))
            (omega (arith, ready.once y)) refl ready.over;
      once = ready.once;
    }
  where
    by_side : (s : Side) (a q : Ptr) → field s st a ≡ q → field s (with_pc y (p + black) st) a ≡ q
    by_side left a q e = e
    by_side right a q e = e

pub color_small : (b : Tree) → IsBalanced b → color_of_root b < 2
color_small leaf bal = omega arith
color_small (node l y c r) bal = bal.0

near_child :
    (s : Side) (st : State) (up p : Ptr) (c : ℕ) (x b : Tree)
    → Rep st up (fork s x p c b)
    → field (other s) st p ≡ root_of b
near_child left st up p c x b (here, at_l, at_r) = here.at_right
near_child right st up p c x b (here, at_l, at_r) = here.at_left

module _ (s : Side) (st : State) (t : Tree) (g : Ptr) (d : ℕ) (xl : Tree) (y : Ptr) (xr : Tree)
    (p : Ptr) (b : Tree) (up : Place) where
  -- The tree is red-black after case 4.
  pub erase_far :
      IsShort st t (under (other s) g d (fork s (node xl y red xr) p black b) up)
      → Returns
          (λ r.
            IsRbTree
              (order_at (under (other s) g d (fork s (node xl y red xr) p black b) up) t)
              r.1)
          (erase_outer (other s) g p y st)
  erase_far short =
      let x = node xl y red xr in
      let w = fork s x p black b in
      let (at_w, over) = other_side s st t g d w up short.rep short.over in
      let over_p =
        subst (λ q. RepPlace st q (under s g d t up)) (root_of-fork s x p black b) over in
      let apart : Apart w (under s g d t up) = λ a. omega (arith, short.apart a) in
      let ready = turnable s st x p black b g d t up at_w over_p apart in
      let (small, high_w, near, above, bal_w, fits) = short.fits in
      let (_, same, _, _, bal_x, bal_b, high) = fork-IsBalanced_inv s x p black b bal_w in
      let (_, same_x, dark_l, dark_r, bal_l, bal_r) = bal_x in
      let now = far-IsTurnable s st p g xl y red xr b t d up ready in
      subst (λ xs. Returns (λ r. IsRbTree xs r.1) (erase_outer (other s) g p y st))
        (sym (
          order_beside s t g d w up
          ∙ ap (λ xs. before up ++ (xs ++ behind up))
              (inorder-outer s x p b g t black d d black
                ∙ inorder-fork s x (node xl y black xr) p d d (fork s b g black t)
                    (fork s b g black t) refl refl)))
        (Returns-map
          (erase_outer-IsTurned st p g xl y xr b t d up (far_mapped s at_w) s now
            (color_small b bal_b) (near_child s st g p black x b at_w))
          λ r turned.
            conclude s r.1 (node xl y black xr) p b g t d up turned
              (
                omega arith,
                same_x,
                (λ h. absurd (omega arith)),
                (λ h. absurd (omega arith)),
                bal_l,
                bal_r,
              )
              bal_b short.balanced refl (omega (arith, same, high, high_w))
              (omega (arith, same, high, high_w)) small above fits
              (λ a. omega (arith, ready.once a)))
    where
      far_mapped : (s : Side) → Rep st g (fork s (node xl y red xr) p black b) → st.mapped y ≡ true
      far_mapped left rep = rep.1.0.mapped
      far_mapped right rep = rep.2.0.mapped
