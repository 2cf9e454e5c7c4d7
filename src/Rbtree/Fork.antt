-- ===== src/Rbtree/Fork.antt =====
-- Trees and places by side: what they count, their order, and when they are red-black trees.
use mathlib.Core.List.{append_assoc}
use common_project_template.Base.{ℕ, ◌+◌, ◌<◌, ◌≡◌, refl, List, ◌++◌, ◌==◌, arith, sym}
use common_project_template.Rbtree.{Ptr, Side, left, right, other, State, red, black}
use common_project_template.Rbtree.Tree.{
  Tree, node, Place, under, fork, plug, root_of, owner, sub, count, one_if, color_of_root, inorder,
  before, behind, inorder-plug,
}
use common_project_template.Rbtree.Rep.{Rep, RepPlace, Apart, IsTree-plug}
use common_project_template.Rbtree.Balance.{
  height, IsBalanced, IsBalancedAt, color_above, IsRbTree, plug-IsBalanced,
}

pub root_of-fork : (s : Side) (x : Tree) (p : Ptr) (c : ℕ) (y : Tree) → root_of (fork s x p c y) ≡ p
root_of-fork left x p c y = refl
root_of-fork right x p c y = refl

pub root_color :
    (s : Side) (x : Tree) (a : Ptr) (c : ℕ) (y : Tree) → color_of_root (fork s x a c y) ≡ c
root_color left x a c y = refl
root_color right x a c y = refl

pub fork-node :
    (s : Side) (x : Tree) (a : Ptr) (c : ℕ) (y : Tree)
    → fork s x a c y ≡ node (sub s x y) a c (sub s y x)
fork-node left x a c y = refl
fork-node right x a c y = refl

pub count-fork :
    (s : Side) (a : Ptr) (near : Tree) (p : Ptr) (c : ℕ) (far : Tree)
    → count a (fork s near p c far) ≡ one_if (a == p) + count a near + count a far
count-fork left a near p c far = refl
count-fork right a near p c far = omega arith

pub inorder-fork :
    (s : Side) (x x' : Tree) (a : Ptr) (c c' : ℕ) (y y' : Tree)
    → inorder x ≡ inorder x'
    → inorder y ≡ inorder y'
    → inorder (fork s x a c y) ≡ inorder (fork s x' a c' y')
inorder-fork left x x' a c c' y y' hx hy = rw (hx, hy) refl
inorder-fork right x x' a c c' y y' hx hy = rw (hx, hy) refl

pub inorder-outer :
    (s : Side) (x : Tree) (p : Ptr) (b : Tree) (g : Ptr) (u : Tree) (c d e f : ℕ)
    → inorder (fork s (fork s x p c b) g d u) ≡ inorder (fork s x p e (fork s b g f u))
inorder-outer left x p b g u c d e f = simp append_assoc
inorder-outer right x p b g u c d e f = simp append_assoc

pub inorder-inner :
    (s : Side) (sib : Tree) (p : Ptr) (inner : Tree) (n : Ptr) (outer : Tree) (g : Ptr) (u : Tree)
    (c d e f h : ℕ)
    → inorder (fork s (fork (other s) (fork s inner n c outer) p d sib) g e u)
      ≡ inorder (fork s (fork s sib p d inner) n f (fork s outer g h u))
inorder-inner left sib p inner n outer g u c d e f h = simp append_assoc
inorder-inner right sib p inner n outer g u c d e f h = simp append_assoc

-- The order of the whole tree with a subtree in a place.
abbrev pub order_at : Place → Tree → List Ptr
order_at up t = before up ++ (inorder t ++ behind up)

pub order_at-under :
    (s : Side) (p : Ptr) (c : ℕ) (sib : Tree) (up : Place) (t : Tree)
    → order_at (under s p c sib up) t ≡ order_at up (fork s t p c sib)
order_at-under left p c sib up t = simp append_assoc
order_at-under right p c sib up t = simp append_assoc

pub fork-IsBalanced :
    (s : Side) (x : Tree) (a : Ptr) (c : ℕ) (y : Tree)
    → c < 2
    → height x ≡ height y
    → (c ≡ red → color_of_root x ≡ black)
    → (c ≡ red → color_of_root y ≡ black)
    → IsBalanced x
    → IsBalanced y
    → IsBalanced (fork s x a c y) × (height (fork s x a c y) ≡ height x + c)
fork-IsBalanced left x a c y small same near far bx by = ((small, same, near, far, bx, by), refl)
fork-IsBalanced right x a c y small same near far bx by =
    ((small, sym same, far, near, by, bx), omega (arith, same))

-- A balanced subtree in a place that it fits makes a red-black tree.
pub finish :
    (st : State) (up : Place) (t : Tree)
    → Rep st (owner up) t
    → RepPlace st (root_of t) up
    → Apart t up
    → IsBalanced t
    → IsBalancedAt (height t) up
    → (color_of_root t ≡ red → color_above up ≡ black)
    → IsRbTree (order_at up t) st
finish st up t rep over apart bal fits allowed =
    let (balanced, black_root) = plug-IsBalanced up t bal fits allowed in
    record {
      tree = plug up t;
      shape = IsTree-plug st up t rep over apart;
      in_order = inorder-plug up t;
      balanced = balanced;
      black_root = black_root;
    }

-- A balanced tree, its parts by side.
pub fork-IsBalanced_inv :
    (s : Side) (x : Tree) (a : Ptr) (c : ℕ) (y : Tree)
    → IsBalanced (fork s x a c y)
    → (c < 2)
      × (height x ≡ height y)
      × (c ≡ red → color_of_root x ≡ black)
      × (c ≡ red → color_of_root y ≡ black)
      × IsBalanced x
      × IsBalanced y
      × (height (fork s x a c y) ≡ height x + c)
fork-IsBalanced_inv left x a c y (small, same, near, far, bx, by) =
    (small, same, near, far, bx, by, refl)
fork-IsBalanced_inv right x a c y (small, same, near, far, by, bx) =
    (small, sym same, far, near, bx, by, omega (arith, same))
