-- ===== src/Rbtree/Balance.antt =====
-- The properties of a red-black tree that the head of lib/rbtree/rbtree.c lists, for a whole tree and
-- for what stands around a place of it.
use common_project_template.Base.{ℕ, ◌+◌, ◌<◌, ◌≡◌, refl, List, arith, sym, subst}
use common_project_template.Rbtree.{Ptr, left, right, State, red, black}
use common_project_template.Rbtree.Tree.{
  Tree, leaf, node, Place, top, under, plug, inorder, color_of_root,
}
use common_project_template.Rbtree.Rep.{IsTree}

-- The black nodes on the path to the leftmost leaf.
abbrev pub height : Tree → ℕ
height leaf = 0
height (node l a c r) = height l + c

-- Every path has the same number of black nodes, and the children of a red node are black.
abbrev pub IsBalanced : Tree → Type 0
IsBalanced leaf = Unit
IsBalanced (node l a c r) =
    (c < 2)
    × (height l ≡ height r)
    × (c ≡ red → color_of_root l ≡ black)
    × (c ≡ red → color_of_root r ≡ black)
    × IsBalanced l
    × IsBalanced r

-- The root must be black, as if it stood under a red node.
abbrev pub color_above : Place → ℕ
color_above top = red
color_above (under s a c beside up) = c

-- The tree around a place is balanced if a subtree of height `n` is put there.
abbrev pub IsBalancedAt : ℕ → Place → Type 0
IsBalancedAt n top = Unit
IsBalancedAt n (under s a c beside up) =
    (c < 2)
    × (height beside ≡ n)
    × (c ≡ red → color_of_root beside ≡ black)
    × (c ≡ red → color_above up ≡ black)
    × IsBalanced beside
    × IsBalancedAt (n + c) up

-- A store that holds a red-black tree with its nodes in this order.
pub record IsRbTree (order : List Ptr) (st : State) : Type 0 where
  pub tree : Tree
  pub shape : IsTree st tree
  pub in_order : inorder tree ≡ order
  pub balanced : IsBalanced tree
  pub black_root : color_of_root tree ≡ black

color_cases : (t : Tree) → IsBalanced t → (color_of_root t ≡ red → ⊥) → color_of_root t ≡ black
color_cases leaf b ne = refl
color_cases (node l a c r) b ne = ground (arith, b.0)

pub plug-IsBalanced :
    (up : Place) (t : Tree)
    → IsBalanced t
    → IsBalancedAt (height t) up
    → (color_of_root t ≡ red → color_above up ≡ black)
    → IsBalanced (plug up t) × (color_of_root (plug up t) ≡ black)
unfolding plug
plug-IsBalanced top t b at fits = (b, color_cases t b (λ e. absurd (omega (arith, fits e))))
plug-IsBalanced (under left a c beside up) t b (small, same, near, above, by, rest) fits =
    plug-IsBalanced up (node t a c beside)
      (small, sym same, (λ e. color_cases t b (λ h. absurd (omega (arith, fits h)))), near, b, by)
      rest above
plug-IsBalanced (under right a c beside up) t b (small, same, near, above, by, rest) fits =
    plug-IsBalanced up (node beside a c t)
      (small, same, near, (λ e. color_cases t b (λ h. absurd (omega (arith, fits h)))), by, b)
      (ap_height same rest) above
  where
    ap_height : {m n : ℕ} → m ≡ n → IsBalancedAt (n + c) up → IsBalancedAt (m + c) up
    ap_height e at' = subst (λ k. IsBalancedAt (k + c) up) (sym e) at'
