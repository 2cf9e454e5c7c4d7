-- ===== src/Rbtree/Erase/Red.antt =====
-- Case 1 of ____rb_erase_color: a red sibling is rotated up, and the new one is black.
use common_project_template.Base.{ℕ, ◌≡◌, refl, arith, ap, ◌∙◌, sym, subst, Returns, ◌<◌, ◌++◌}
use common_project_template.Command.{◌>>=◌}
use common_project_template.Rbtree.{Ptr, Side, left, right, other, State, Cmd, red, black}
use common_project_template.Rbtree.Tree.{Tree, node, Place, under, fork, root_of, before, behind}
use common_project_template.Rbtree.Access.{rb_is_red-ok, color_of-add}
use common_project_template.Rbtree.Rep.{IsNode}
use common_project_template.Rbtree.Frame.{relink}
use common_project_template.Rbtree.Balance.{IsBalancedAt, IsRbTree}
use common_project_template.Rbtree.Fork.{order_at, inorder-outer, fork-IsBalanced_inv}
use common_project_template.Rbtree.Rotate.{turned, turnable}
use common_project_template.Rbtree.Rotate.Nodes.{IsTurned, relink-IsTurned}
use common_project_template.Rbtree.Erase.{erase_case, erase_black_sibling, erase_red_sibling}
use common_project_template.Rbtree.Erase.Outer.{erase_red_sibling-ok}
use common_project_template.Rbtree.Erase.Short.{IsShort, other_side, order_beside}
use common_project_template.Rbtree.Erase.Black.{erase_black}

-- The sibling's colour decides.
case-red :
    (again : (node parent : Ptr) → Cmd (Unit {0})) (s : Side) (st : State) (g p l r : Ptr)
    → IsNode st g p red l r
    → erase_case again s g p st ≡ (erase_red_sibling s g p >>= erase_black_sibling again s g) st
unfolding erase_case
case-red again s st g p l r here =
    simp (rb_is_red-ok st p here.mapped, here.packed, color_of-add g red here.parent_link here.bit)

pub case-black :
    (again : (node parent : Ptr) → Cmd (Unit {0})) (s : Side) (st : State) (g p l r : Ptr)
    → IsNode st g p black l r
    → erase_case again s g p st ≡ erase_black_sibling again s g p st
unfolding erase_case
case-black again s st g p l r here =
    simp
      (rb_is_red-ok st p here.mapped, here.packed, color_of-add g black here.parent_link here.bit)

same_order :
    (s : Side) (t : Tree) (g : Ptr) (d : ℕ) (x : Tree) (p : Ptr) (b : Tree) (up : Place)
    → order_at (under (other s) g d (fork s x p red b) up) t
      ≡ order_at (under (other s) g red b (under (other s) p d x up)) t
same_order s t g d x p b up =
    order_beside s t g d (fork s x p red b) up
    ∙ (ap (λ xs. before up ++ (xs ++ behind up)) (inorder-outer s x p b g t red d d red)
        ∙ (sym (order_beside s (fork s b g red t) p d x up)
            ∙ sym (order_beside s t g red b (under (other s) p d x up))))

black_parent : (d : ℕ) → d < 2 → (d ≡ red → ⊥) → d ≡ black
black_parent d small ne = ground (arith, small)

module _ (st : State) (t : Tree) (g : Ptr) (d : ℕ) (x : Tree) (p : Ptr) (bl : Tree) (z : Ptr)
    (br : Tree) (up : Place) where
  rotated-IsShort :
      (s : Side) (st' : State)
      → IsShort st t (under (other s) g d (fork s x p red (node bl z black br)) up)
      → IsTurned st' s p g x (node bl z black br) t d red up
      → IsShort st' t (under (other s) g red (node bl z black br) (under (other s) p d x up))
  rotated-IsShort left st' short now =
      let (small, high_w, near, above, bal_w, fits) = short.fits in
      let (_, same, dark_x, dark_b, bal_x, bal_b, high) =
        fork-IsBalanced_inv left x p red (node bl z black br) bal_w in
      let is_black : d ≡ black = black_parent d small (λ h. absurd (omega (arith, near h))) in
      record {
        rep = now.nodes.2.2;
        over = (now.nodes.2.0, now.nodes.2.1, (now.nodes.0, now.nodes.1, now.over));
        apart = λ a. omega (arith, short.apart a);
        balanced = short.balanced;
        dark = short.dark;
        fits = (
          omega arith,
          omega (arith, high_w, high, same),
          (λ _. refl),
          (λ _. is_black),
          bal_b,
          (
            small,
            omega (arith, high_w, high),
            (λ _. dark_x refl),
            above,
            bal_x,
            subst (λ m. IsBalancedAt m up) (omega arith) fits,
          ),
        );
      }
  rotated-IsShort right st' short now =
      let (small, high_w, near, above, bal_w, fits) = short.fits in
      let (_, same, dark_x, dark_b, bal_x, bal_b, high) =
        fork-IsBalanced_inv right x p red (node bl z black br) bal_w in
      let is_black : d ≡ black = black_parent d small (λ h. absurd (omega (arith, near h))) in
      record {
        rep = now.nodes.1.1;
        over = (now.nodes.1.0, now.nodes.1.2, (now.nodes.0, now.nodes.2, now.over));
        apart = λ a. omega (arith, short.apart a);
        balanced = short.balanced;
        dark = short.dark;
        fits = (
          omega arith,
          omega (arith, high_w, high, same),
          (λ _. refl),
          (λ _. is_black),
          bal_b,
          (
            small,
            omega (arith, high_w, high),
            (λ _. dark_x refl),
            above,
            bal_x,
            subst (λ m. IsBalancedAt m up) (omega arith) fits,
          ),
        );
      }

module _ (again : (node parent : Ptr) → Cmd (Unit {0})) (st : State) (t : Tree) (g : Ptr) (d : ℕ)
    (x : Tree) (p : Ptr) (up : Place) where
  -- Case 1 goes on with cases 2 to 4, which end the loop.
  pub erase_red :
      (s : Side) (bl : Tree) (z : Ptr) (br : Tree)
      → IsShort st t (under (other s) g d (fork s x p red (node bl z black br)) up)
      → Returns
          (λ r.
            IsRbTree
              (order_at (under (other s) g d (fork s x p red (node bl z black br)) up) t)
              r.1)
          (erase_case again (other s) g p st)
  erase_red left bl z br short =
      let tiny : 1 < 2 = omega arith in
      let (at_w, over) =
        other_side left st t g d (fork left x p red (node bl z black br)) up short.rep short.over in
      let ready =
        turnable left st x p red (node bl z black br) g d t up at_w over
          (λ a. omega (arith, short.apart a)) in
      let now =
        relink-IsTurned left st p g x (node bl z black br) t d up ready red black tiny
          (omega arith) in
      let next =
        rotated-IsShort st t g d x p bl z br up left (relink up p (turned st ready red black tiny))
          short now in
      rw
        (
          case-red again right st g p (root_of x) (root_of (node bl z black br)) at_w.0,
          erase_red_sibling-ok st p g x bl z black br t d up left ready tiny at_w.0.at_right,
        )
        (subst
          (λ xs.
            Returns (λ r. IsRbTree xs r.1)
              (erase_black_sibling again right g z (relink up p (turned st ready red black tiny))))
          (sym (same_order left t g d x p (node bl z black br) up))
          (erase_black (relink up p (turned st ready red black tiny)) t g red z
            (under right p d x up) again (λ st' t' e dark short' pos. absurd (omega (arith, dark)))
            left bl br next))
  erase_red right bl z br short =
      let tiny : 1 < 2 = omega arith in
      let (at_w, over) =
        other_side right st t g d (fork right x p red (node bl z black br)) up short.rep
          short.over in
      let ready =
        turnable right st x p red (node bl z black br) g d t up at_w over
          (λ a. omega (arith, short.apart a)) in
      let now =
        relink-IsTurned right st p g x (node bl z black br) t d up ready red black tiny
          (omega arith) in
      let next =
        rotated-IsShort st t g d x p bl z br up right (relink up p (turned st ready red black tiny))
          short now in
      rw
        (
          case-red again left st g p (root_of (node bl z black br)) (root_of x) at_w.0,
          erase_red_sibling-ok st p g x bl z black br t d up right ready tiny at_w.0.at_left,
        )
        (subst
          (λ xs.
            Returns (λ r. IsRbTree xs r.1)
              (erase_black_sibling again left g z (relink up p (turned st ready red black tiny))))
          (sym (same_order right t g d x p (node bl z black br) up))
          (erase_black (relink up p (turned st ready red black tiny)) t g red z
            (under left p d x up) again (λ st' t' e dark short' pos. absurd (omega (arith, dark)))
            right br bl next))
