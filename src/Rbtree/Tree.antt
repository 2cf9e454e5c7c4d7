-- ===== src/Rbtree/Tree.antt =====
-- The tree that the nodes of an rbtree form, and the way from a place in it up to the root.
use mathlib.Core.List.{append_assoc, append-nil}
pub use common_project_template.Base.{one_if, one_if_self}
use common_project_template.Base.{
  max, ◌≤◌, ℕ, suc, ◌+◌, ◌<◌, ◌≡◌, refl, false, List, [], ◌∷◌, ◌++◌, ◌==◌, arith, ap, ◌∙◌, sym,
}
use common_project_template.Rbtree.{Ptr, Side, left, right, black}

pub data Tree : Type 0 where
  leaf : Tree
  node : Tree → Ptr → (color : ℕ) → Tree → Tree

-- The place of a subtree: at the root, or the `Side` child of a node with another child beside it.
pub data Place : Type 0 where
  top : Place
  under : Side → Ptr → (color : ℕ) → (beside : Tree) → Place → Place

-- A node, its children by side.
abbrev pub fork : Side → (near : Tree) → Ptr → ℕ → (far : Tree) → Tree
fork left near a c far = node near a c far
fork right near a c far = node far a c near

abbrev pub sub : Side → Tree → Tree → Tree
sub left l r = l
sub right l r = r

abbrev pub root_of : Tree → Ptr
root_of leaf = 0
root_of (node l a c r) = a

abbrev pub owner : Place → Ptr
owner top = 0
owner (under s a c beside up) = a

-- The whole tree with a subtree in a place.
unfoldable pub plug : Place → Tree → Tree
plug top t = t
plug (under s a c beside up) t = plug up (fork s t a c beside)

abbrev pub inorder : Tree → List Ptr
inorder leaf = []
inorder (node l a c r) = inorder l ++ (a ∷ inorder r)

-- The nodes before and behind a place, in order.
abbrev pub before : Place → List Ptr
before top = []
before (under left a c beside up) = before up
before (under right a c beside up) = before up ++ (inorder beside ++ (a ∷ []))

abbrev pub behind : Place → List Ptr
behind top = []
behind (under left a c beside up) = a ∷ (inorder beside ++ behind up)
behind (under right a c beside up) = behind up

-- How often a node occurs.
abbrev pub count : Ptr → Tree → ℕ
count p leaf = 0
count p (node l a c r) = one_if (p == a) + count p l + count p r

abbrev pub count_place : Ptr → Place → ℕ
count_place p top = 0
count_place p (under s a c beside up) = one_if (p == a) + count p beside + count_place p up

abbrev pub size : Tree → ℕ
size leaf = 0
size (node l a c r) = suc (size l + size r)

abbrev pub size_place : Place → ℕ
size_place top = 0
size_place (under s a c beside up) = suc (size beside + size_place up)

-- How far down the deepest node is, and how far down a place is.
abbrev pub depth : Tree → ℕ
depth leaf = 0
depth (node l a c r) = suc (max (depth l) (depth r))

abbrev pub depth_place : Place → ℕ
depth_place top = 0
depth_place (under s a c beside up) = suc (depth_place up)

abbrev pub paint : ℕ → Tree → Tree
paint c leaf = leaf
paint c (node l a d r) = node l a c r

-- The colour of a root; an empty tree is black.
abbrev pub color_of_root : Tree → ℕ
color_of_root leaf = black
color_of_root (node l a c r) = c

pub ne_of_one_if : (p q : Ptr) → one_if (p == q) ≡ 0 → (q == p) ≡ false
ne_of_one_if p q h = ground arith

pub eq_of_one_if : (p q : Ptr) → 0 < one_if (p == q) → p ≡ q
eq_of_one_if p q h = ground arith

pub count-plug :
    (p : Ptr) (up : Place) (t : Tree) → count p (plug up t) ≡ count p t + count_place p up
unfolding plug
count-plug p top t = omega arith
count-plug p (under left a c beside up) t = omega (arith, count-plug p up (node t a c beside))
count-plug p (under right a c beside up) t = omega (arith, count-plug p up (node beside a c t))

pub size-plug : (up : Place) (t : Tree) → size (plug up t) ≡ size t + size_place up
unfolding plug
size-plug top t = omega arith
size-plug (under left a c beside up) t = omega (arith, size-plug up (node t a c beside))
size-plug (under right a c beside up) t = omega (arith, size-plug up (node beside a c t))

pub depth-left : (l : Tree) (a : Ptr) (c : ℕ) (r : Tree) → depth l < depth (node l a c r)
depth-left l a c r = ground arith

pub depth-right : (l : Tree) (a : Ptr) (c : ℕ) (r : Tree) → depth r < depth (node l a c r)
depth-right l a c r = ground arith

pub depth-plug : (up : Place) (t : Tree) → depth t + depth_place up ≤ depth (plug up t)
unfolding plug
depth-plug top t = omega arith
depth-plug (under left a c beside up) t =
    omega (arith, depth-plug up (node t a c beside), depth-left t a c beside)
depth-plug (under right a c beside up) t =
    omega (arith, depth-plug up (node beside a c t), depth-right beside a c t)

pub inorder-plug :
    (up : Place) (t : Tree) → inorder (plug up t) ≡ before up ++ (inorder t ++ behind up)
unfolding plug
inorder-plug top t = sym (append-nil (inorder t))
inorder-plug (under left a c beside up) t =
    inorder-plug up (node t a c beside)
    ∙ ap (λ xs. before up ++ xs) (append_assoc (inorder t) (a ∷ inorder beside) (behind up))
inorder-plug (under right a c beside up) t =
    simp (inorder-plug up (node beside a c t), append_assoc)

pub inorder-paint : (c : ℕ) (t : Tree) → inorder (paint c t) ≡ inorder t
inorder-paint c leaf = refl
inorder-paint c (node l a d r) = refl

pub count-paint : (p : Ptr) (c : ℕ) (t : Tree) → count p (paint c t) ≡ count p t
count-paint p c leaf = refl
count-paint p c (node l a d r) = refl
