-- ===== src/Rbtree/Depth.antt =====
-- How deep a red-black tree is.
use common_project_template.Base.{
  ℕ, zero, suc, ◌+◌, ◌*◌, ◌^◌, ◌≤◌, ◌<◌, ◌≡◌, refl, List, arith, ap, ◌∙◌, sym, length, ltb,
  Bool-cases, inl, inr,
}
use common_project_template.Rbtree.{State, Ptr}
use common_project_template.Rbtree.Tree.{Tree, leaf, node, depth, size, color_of_root}
use common_project_template.Rbtree.Balance.{height, IsBalanced, IsRbTree}
use common_project_template.Rbtree.Iterate.Ends.{length-inorder}

pow_double : (h : ℕ) → 2 ^ suc h ≡ 2 ^ h + 2 ^ h
pow_double h = omega arith

pub pow_mono : (a b : ℕ) → a ≤ b → 2 ^ a ≤ 2 ^ b
pow_mono zero zero h = omega arith
pow_mono zero (suc b) h = omega (arith, pow_mono zero b (omega arith))
pow_mono (suc a) zero h = absurd (omega arith)
pow_mono (suc a) (suc b) h = omega (arith, pow_mono a b (omega arith))

double_square : (p : ℕ) → (p + p) * (p + p) ≡ (p * p + p * p) + (p * p + p * p)
double_square p = grind arith

pow_square : (h : ℕ) → 2 ^ (h + h) ≡ 2 ^ h * 2 ^ h
pow_square zero = refl
pow_square (suc h) =
    let e : suc h + suc h ≡ suc (suc (h + h)) = omega arith in
    rw (e, pow_double (suc (h + h)), pow_double (h + h), pow_double h, pow_square h)
      (sym (double_square (2 ^ h)))

-- A tree has a node for each path of its black height.
size-height : (t : Tree) → IsBalanced t → 2 ^ height t ≤ size t + 1
size-height leaf bal = omega arith
size-height (node l a zero r) (small, same, nl, nr, bl, br) =
    let e : 2 ^ (height l + 0) ≡ 2 ^ height l = ap (λ h. 2 ^ h) (omega arith) in
    omega (arith, size-height l bl, e)
size-height (node l a (suc zero) r) (small, same, nl, nr, bl, br) =
    let e : 2 ^ height r ≡ 2 ^ height l = ap (λ h. 2 ^ h) (sym same) in
    let double : 2 ^ (height l + 1) ≡ 2 ^ height l + 2 ^ height l =
      ap (λ h. 2 ^ h) (omega arith) ∙ pow_double (height l) in
    omega (arith, size-height l bl, size-height r br, e, double)
size-height (node l a (suc (suc c)) r) bal = absurd (omega (arith, bal.0))

-- No path is more than twice as long as its black height, or one longer below a red root.
depth-height : (t : Tree) → IsBalanced t → depth t + color_of_root t ≤ height t + height t + 1
depth-height leaf bal = omega arith
depth-height (node l a zero r) (small, same, nl, nr, bl, br) =
    ground (arith, depth-height l bl, depth-height r br, nl refl, nr refl)
depth-height (node l a (suc zero) r) (small, same, nl, nr, bl, br) =
    ground (arith, depth-height l bl, depth-height r br)
depth-height (node l a (suc (suc c)) r) bal = absurd (omega (arith, bal.0))

square_mono : (a b : ℕ) → a ≤ b → a * a ≤ b * b
square_mono a b h = grind arith

-- The depth of a red-black tree with `n` nodes is at most twice the logarithm of `n + 1`.
IsRbTree-depth :
    (order : List Ptr) (st : State) (held : IsRbTree order st)
    → 2 ^ depth held.tree ≤ (length order + 1) * (length order + 1)
IsRbTree-depth order st held =
    let h = height held.tree in
    let deep : depth held.tree ≤ h + h =
      omega (arith, depth-height held.tree held.balanced, held.black_root) in
    let many : 2 ^ h ≤ length order + 1 = omega (
      arith,
      size-height held.tree held.balanced,
      length-inorder held.tree,
      ap length held.in_order,
    ) in
    omega (
      arith,
      pow_mono (depth held.tree) (h + h) deep,
      pow_square h,
      square_mono (2 ^ h) (length order + 1) many,
    )

-- Fuel above twice the logarithm of the number of nodes and one.
abbrev pub IsEnough : List Ptr → (fuel : ℕ) → Type 0
IsEnough order fuel = (length order + 1) * (length order + 1) < 2 ^ fuel

pub depth-lt :
    (order : List Ptr) (st : State) (held : IsRbTree order st) (fuel : ℕ)
    → IsEnough order fuel
    → depth held.tree < fuel
depth-lt order st held fuel enough = elim (Bool-cases (ltb (depth held.tree) fuel)) [
  | inl less ↦ ground (arith, less)
  | inr not_less ↦ absurd (
      omega (
        arith,
        enough,
        IsRbTree-depth order st held,
        pow_mono fuel (depth held.tree) (ground (arith, not_less)),
      ))
]
