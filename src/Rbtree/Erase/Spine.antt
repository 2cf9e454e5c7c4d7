-- ===== src/Rbtree/Erase/Spine.antt =====
-- The way from a place down to its leftmost node, along the left children: where find_successor goes.
use mathlib.Core.List.{append_assoc, append-nil}
use common_project_template.Base.{
  ℕ, zero, suc, ◌+◌, ◌≤◌, ◌<◌, ◌≡◌, refl, List, [], ◌∷◌, ◌++◌, ◌==◌, arith, ok, ap, ◌∙◌, sym, subst,
  true,
}
use common_project_template.Rbtree.{Ptr, left, right, State, with_child, red, black}
use common_project_template.Rbtree.Tree.{
  Tree, leaf, node, Place, under, root_of, owner, count, count_place, one_if, one_if_self,
  ne_of_one_if, depth, depth-left, depth_place, inorder, before, behind,
}
use common_project_template.Rbtree.Access.{IsLink, child-ok}
use common_project_template.Rbtree.Rep.{IsNode, IsNode-Kept, RepPlace, Kept, Rep-Kept}
use common_project_template.Rbtree.Frame.{nonzero, relink}
use common_project_template.Rbtree.Balance.{IsBalancedAt, color_above}
use common_project_template.Rbtree.Erase.{find_successor}
use common_project_template.Rbtree.Erase.Single.{IsWithin}

-- A node on the way, with its colour and its right subtree.
pub record Turn : Type 0 where
  pub at : Ptr
  pub color : ℕ
  pub beside : Tree

abbrev pub down : Turn → Place → Place
down z up = under left z.at z.color z.beside up

-- The place at the end of the way; the first node is the topmost.
abbrev pub spine : List Turn → Place → Place
spine [] up = up
spine (z ∷ zs) up = spine zs (down z up)

abbrev pub count_spine : Ptr → List Turn → ℕ
count_spine a [] = 0
count_spine a (z ∷ zs) = one_if (a == z.at) + count a z.beside + count_spine a zs

-- How often a node is one of the turns.
abbrev pub count_way : Ptr → List Turn → ℕ
count_way a [] = 0
count_way a (z ∷ zs) = one_if (a == z.at) + count_way a zs

pub count_way-le-count_spine : (a : Ptr) (zs : List Turn) → count_way a zs ≤ count_spine a zs
count_way-le-count_spine a [] = omega arith
count_way-le-count_spine a (z ∷ zs) = omega (arith, count_way-le-count_spine a zs)

abbrev pub depth_spine : List Turn → ℕ
depth_spine [] = 0
depth_spine (z ∷ zs) = suc (depth_spine zs)

-- What stands behind the leftmost node on the way up to the place.
abbrev pub behind_spine : List Turn → List Ptr
behind_spine [] = []
behind_spine (z ∷ zs) = behind_spine zs ++ (z.at ∷ inorder z.beside)

pub count_place-spine :
    (a : Ptr) (zs : List Turn) (up : Place)
    → count_place a (spine zs up) ≡ count_spine a zs + count_place a up
count_place-spine a [] up = omega arith
count_place-spine a (z ∷ zs) up = omega (arith, count_place-spine a zs (down z up))

pub depth_place-spine :
    (zs : List Turn) (up : Place) → depth_place (spine zs up) ≡ depth_spine zs + depth_place up
depth_place-spine [] up = omega arith
depth_place-spine (z ∷ zs) up = omega (arith, depth_place-spine zs (down z up))

pub before-spine : (zs : List Turn) (up : Place) → before (spine zs up) ≡ before up
before-spine [] up = refl
before-spine (z ∷ zs) up = before-spine zs (down z up)

pub behind-spine :
    (zs : List Turn) (up : Place) → behind (spine zs up) ≡ behind_spine zs ++ behind up
behind-spine [] up = refl
behind-spine (z ∷ zs) up = simp (behind-spine zs (down z up), append_assoc)

-- The same way from another place.
pub RepPlace-spine :
    {st st' : State} (but hole : Ptr) (zs : List Turn) (up up' : Place)
    → ((q : Ptr) → RepPlace st q up → RepPlace st' q up')
    → owner up ≡ owner up'
    → ((a : Ptr) → 0 < count_spine a zs → Kept st st' but a)
    → count_spine but zs ≡ 0
    → RepPlace st hole (spine zs up)
    → RepPlace st' hole (spine zs up')
RepPlace-spine but hole [] up up' base same kept out over = base hole over
RepPlace-spine {st} {st'} but hole (z ∷ zs) up up' base same kept out over =
    RepPlace-spine but hole zs (down z up) (down z up')
      (λ q (here, by, rest). (
        subst (λ o. IsNode st' o z.at z.color q (root_of z.beside)) same
            (IsNode-Kept (kept z.at (omega (arith, one_if_self z.at)))
              (ne_of_one_if but z.at (omega (arith, out))) here),
        Rep-Kept z.beside z.at (λ a h. kept a (omega arith)) (omega (arith, out)) by,
        base z.at rest,
      ))
      refl (λ a h. kept a (omega arith)) (omega arith) over

pub IsBalancedAt-spine :
    (zs : List Turn) (up up' : Place) (n : ℕ)
    → ((m : ℕ) → IsBalancedAt m up → IsBalancedAt m up')
    → color_above up ≡ color_above up'
    → IsBalancedAt n (spine zs up)
    → IsBalancedAt n (spine zs up')
IsBalancedAt-spine [] up up' n base same fits = base n fits
IsBalancedAt-spine (z ∷ zs) up up' n base same fits =
    IsBalancedAt-spine zs (down z up) (down z up') n
      (λ m f. (f.0, f.1, f.2, (λ e. sym same ∙ f.3 e), f.4, base (m + z.color) f.5)) refl fits

-- The last node of a way that is not empty.
pub owner-spine :
    (zs : List Turn) (z : Turn) (up up' : Place)
    → owner (spine zs (down z up)) ≡ owner (spine zs (down z up'))
owner-spine [] z up up' = refl
owner-spine (z' ∷ zs) z up up' = owner-spine zs z' (down z up) (down z up')

pub owner-counted :
    (zs : List Turn) (z : Turn) (up : Place) → 0 < count_way (owner (spine zs (down z up))) (z ∷ zs)
owner-counted [] z up = omega (arith, one_if_self z.at)
owner-counted (z' ∷ zs) z up = omega (arith, owner-counted zs z' (down z up))

pub relink-spine :
    (zs : List Turn) (z : Turn) (up : Place) (v : Ptr) (st : State)
    → relink (spine zs (down z up)) v st ≡ with_child left (owner (spine zs (down z up))) v st
relink-spine [] z up v st = refl
relink-spine (z' ∷ zs) z up v st = relink-spine zs z' (down z up) v st

pub owner-IsNode :
    (st : State) (hole : Ptr) (zs : List Turn) (z : Turn) (up : Place)
    → RepPlace st hole (spine zs (down z up))
    → (st.mapped (owner (spine zs (down z up))) ≡ true) × IsLink (owner (spine zs (down z up)))
owner-IsNode st hole [] z up over = (over.0.mapped, over.0.link)
owner-IsNode st hole (z' ∷ zs) z up over = owner-IsNode st hole zs z' (down z up) over

-- The leftmost node of a subtree: `s`, with the right subtree `x`.
pub record Leftmost (st : State) (t : Tree) (up : Place) (k : ℕ) : Type 0 where
  pub way : List Turn
  pub s : Ptr
  pub color : ℕ
  pub x : Tree
  pub within : IsWithin st (node leaf s color x) (spine way up)
  pub order : s ∷ (inorder x ++ behind_spine way) ≡ inorder t
  pub depths : depth_spine way < depth t
  pub found : find_successor k (owner up) (root_of t) st ≡ ok ((owner (spine way up), s), st)

pub black_of : (c : ℕ) → c < 2 → (c ≡ red → ⊥) → c ≡ black
black_of c small ne = ground (arith, small)

pub left-IsWithin :
    (st : State) (l : Tree) (a : Ptr) (c : ℕ) (r : Tree) (up : Place)
    → IsWithin st (node l a c r) up
    → IsWithin st l (under left a c r up)
left-IsWithin st l a c r up within =
    let (small, same, dark_l, dark_r, bal_l, bal_r) = within.balanced in
    record {
      rep = within.rep.1;
      over = (within.rep.0, within.rep.2, within.over);
      apart = λ q. omega (arith, within.apart q);
      balanced = bal_l;
      fits = (small, sym same, dark_r, within.allowed, bal_r, within.fits);
      allowed = λ e. black_of c small (λ h. absurd (omega (arith, dark_l h, e)));
    }

pub right-IsWithin :
    (st : State) (l : Tree) (a : Ptr) (c : ℕ) (r : Tree) (up : Place)
    → IsWithin st (node l a c r) up
    → IsWithin st r (under right a c l up)
right-IsWithin st l a c r up within =
    let (small, same, dark_l, dark_r, bal_l, bal_r) = within.balanced in
    record {
      rep = within.rep.2;
      over = (within.rep.0, within.rep.1, within.over);
      apart = λ q. omega (arith, within.apart q);
      balanced = bal_r;
      fits = (
        small,
        same,
        dark_l,
        within.allowed,
        bal_l,
        subst (λ m. IsBalancedAt (m + c) up) same within.fits,
      );
      allowed = λ e. black_of c small (λ h. absurd (omega (arith, dark_r h, e)));
    }

pub leftmost :
    (st : State) (l : Tree) (a : Ptr) (c : ℕ) (r : Tree) (up : Place) (k : ℕ)
    → IsWithin st (node l a c r) up
    → depth (node l a c r) ≤ k
    → Leftmost st (node l a c r) up k
unfolding find_successor
leftmost st l a c r up zero within enough = absurd (omega arith)
leftmost st leaf a c r up (suc k) within enough =
    let here = within.rep.0 in
    record {
      way = [];
      s = a;
      color = c;
      x = r;
      within = within;
      order = ap (λ xs. a ∷ xs) (append-nil (inorder r));
      depths = omega arith;
      found = simp (child-ok st a here.mapped left, here.at_left);
    }
leftmost st (node ll b d lr) a c r up (suc k) within enough =
    let here = within.rep.0 in
    let deeper = depth-left (node ll b d lr) a c r in
    let rest =
      leftmost st ll b d lr (under left a c r up) k
        (left-IsWithin st (node ll b d lr) a c r up within) (omega (arith, deeper, enough)) in
    record {
      way = record { at = a; color = c; beside = r } ∷ rest.way;
      s = rest.s;
      color = rest.color;
      x = rest.x;
      within = rest.within;
      order =
          ap (λ ys. rest.s ∷ ys)
            (sym (append_assoc (inorder rest.x) (behind_spine rest.way) (a ∷ inorder r)))
          ∙ ap (λ xs. xs ++ (a ∷ inorder r)) rest.order;
      depths = omega (arith, rest.depths, deeper);
      found =
          simp (child-ok st a here.mapped left, here.at_left, nonzero b within.rep.1.0.positive)
            rest.found;
    }
