-- ===== src/Rbtree/Iterate.antt =====
-- The iteration of lib/rbtree/rbtree.c, in order and in post-order. Loops take fuel; as many rounds as
-- the tree has levels are enough.
pub mod Walk
pub mod Steps
pub mod Ends
pub mod Postorder
pub mod Passed
use common_project_template.Base.{
  ℕ, zero, suc, Bool, true, false, ◌&&◌, not, ◌==◌, if◌then◌else◌, out_of_fuel,
}
use common_project_template.Common.{container_of, member}
use common_project_template.Command.{pure, ◌>>=◌, ◌>>◌}
use common_project_template.Rbtree.{
  Ptr, Side, left, right, other, Cmd, rb_empty_node, get_root, child, rb_parent,
}

-- `while (n->rb_left) n = n->rb_left;`, and the same to the right.
pub descend : Side → ℕ → Ptr → Cmd Ptr
unfolding child
descend s zero n = λ _. out_of_fuel
descend s (suc k) n = do
  next ← child s n
  let rest : Cmd Ptr = descend s k next
  if next == 0 then pure n else rest

-- `rb_first` and `rb_last`.
pub rb_end : Side → (fuel : ℕ) → Cmd Ptr
unfolding descend
rb_end s fuel = do n ← get_root; if n == 0 then pure 0 else descend s fuel n

-- `while ((parent = rb_parent(node)) && node == parent->rb_right) node = parent;`, and the same to the
-- left.
pub ascend : Side → ℕ → Ptr → Cmd Ptr
unfolding rb_parent child
ascend s zero node = λ _. out_of_fuel
ascend s (suc k) node = do
  parent ← rb_parent node
  let rest : Cmd Ptr = ascend s k parent
  if parent == 0
      then pure parent
      else do c ← child s parent; if node == c then rest else pure parent

-- `rb_next`, with the child to the right first, and `rb_prev`.
pub rb_step : Side → (fuel : ℕ) → Ptr → Cmd Ptr
unfolding rb_empty_node child descend ascend
rb_step s fuel node = do
  empty ← rb_empty_node node
  if empty
      then pure 0
      else do c ← child s node; if c == 0 then ascend s fuel node else descend (other s) fuel c

pub rb_first : (fuel : ℕ) → Cmd Ptr
unfolding rb_end
rb_first = rb_end left

pub rb_last : (fuel : ℕ) → Cmd Ptr
unfolding rb_end
rb_last = rb_end right

pub rb_next : (fuel : ℕ) → Ptr → Cmd Ptr
unfolding rb_step
rb_next = rb_step right

pub rb_prev : (fuel : ℕ) → Ptr → Cmd Ptr
unfolding rb_step
rb_prev = rb_step left

pub rb_left_deepest_node : (fuel : ℕ) → Ptr → Cmd Ptr
unfolding child
rb_left_deepest_node zero node = λ _. out_of_fuel
rb_left_deepest_node (suc k) node = do
  l ← child left node
  r ← child right node
  let rest : Cmd Ptr = rb_left_deepest_node k (if l == 0 then r else l)
  if (l == 0) && (r == 0) then pure node else rest

pub rb_next_postorder : (fuel : ℕ) → Ptr → Cmd Ptr
unfolding rb_parent child rb_left_deepest_node
rb_next_postorder fuel node = if node == 0 then pure 0 else do
  parent ← rb_parent node
  if parent == 0 then pure parent else do
    l ← child left parent
    if not (node == l)
        then pure parent
        else do r ← child right parent; if r == 0 then pure parent else rb_left_deepest_node fuel r

pub rb_first_postorder : (fuel : ℕ) → Cmd Ptr
unfolding rb_left_deepest_node
rb_first_postorder fuel = do n ← get_root; if n == 0 then pure 0 else rb_left_deepest_node fuel n

-- `rb_entry`, and `rb_entry_safe`, which keeps NULL.
abbrev pub rb_entry : (offset : ℕ) → Ptr → Ptr
rb_entry = container_of

abbrev pub rb_entry_safe : (offset : ℕ) → Ptr → Ptr
rb_entry_safe offset ptr = if ptr == 0 then 0 else rb_entry offset ptr

-- `rbtree_postorder_for_each_entry_safe`: `n` is read before the body runs, which sees the entry and a
-- state of its own, and may write the store. A round takes fuel, and so does each way down in it.
module _ {S : Type 0} (offset : ℕ) (body : Ptr → S → Cmd S) where
  pub postorder_loop : (k fuel : ℕ) → (pos : Ptr) → S → Cmd S
  unfolding rb_next_postorder
  postorder_loop zero fuel pos s = λ _. out_of_fuel
  postorder_loop (suc k) fuel pos s = if pos == 0 then pure s else do
    n ← rb_next_postorder fuel (member offset pos)
    t ← body pos s
    postorder_loop k fuel (rb_entry_safe offset n) t

  pub postorder_for_each : (fuel : ℕ) → S → Cmd S
  unfolding postorder_loop rb_first_postorder
  postorder_for_each fuel s = do
    first ← rb_first_postorder fuel
    postorder_loop fuel fuel (rb_entry_safe offset first) s
