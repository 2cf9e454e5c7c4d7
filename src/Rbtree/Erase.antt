-- ===== src/Rbtree/Erase.antt =====
-- rb_erase of lib/rbtree/rbtree.c; the callbacks of the augmented form are empty there.
pub mod Outer
pub mod Short
pub mod Far
pub mod Flip
pub mod Inner
pub mod Near
pub mod Black
pub mod Red
pub mod Rounds
pub mod Single
pub mod Only
pub mod Simple
pub mod Seat
pub mod Spine
pub mod Next
pub mod Deep
pub mod Whole
mod Tests
use common_project_template.Base.{
  ℕ, zero, suc, ◌+◌, Bool, true, false, not, ◌||◌, ◌==◌, if◌then◌else◌, out_of_fuel,
}
use common_project_template.Command.{pure, ◌>>=◌, ◌>>◌}
use common_project_template.Rbtree.{
  Ptr, Side, left, right, other, Cmd, red, black, parent_of, color_of, get_pc, put_pc, child,
  set_child, rb_parent, rb_is_black, rb_is_red, rb_set_black, rb_set_parent, rb_set_parent_color,
  paint_child, red_child, change_child, rotate_set_parents,
}

-- Case 1 of the loop: left rotate at `parent`, for `s` the side of the node. The new sibling.
pub erase_red_sibling : Side → (parent sibling : Ptr) → Cmd Ptr
erase_red_sibling s parent sibling = do
  tmp1 ← child s sibling
  set_child (other s) parent tmp1
  set_child s sibling parent
  rb_set_parent_color tmp1 parent black
  rotate_set_parents parent sibling red
  pure tmp1

-- Case 2: the sibling becomes red; the loop goes on `again` at a black parent that is not the root.
pub erase_flip :
    (again : (node parent : Ptr) → Cmd (Unit {0})) → (parent sibling : Ptr) → Cmd (Unit {0})
erase_flip again parent sibling = do
  rb_set_parent_color sibling parent red
  is_red ← rb_is_red parent
  if is_red
      then rb_set_black parent
      else do up ← rb_parent parent; if up == 0 then pure tt else again parent up

-- Case 3: right rotate at the sibling.
pub erase_inner : Side → (parent sibling tmp2 : Ptr) → Cmd (Unit {0})
erase_inner s parent sibling tmp2 = do
  tmp1 ← child (other s) tmp2
  set_child s sibling tmp1
  set_child (other s) tmp2 sibling
  set_child (other s) parent tmp2
  paint_child tmp1 sibling black

-- Case 4: left rotate at the parent.
pub erase_outer : Side → (parent sibling tmp1 : Ptr) → Cmd (Unit {0})
erase_outer s parent sibling tmp1 = do
  tmp2 ← child s sibling
  set_child (other s) parent tmp2
  set_child s sibling parent
  rb_set_parent_color tmp1 sibling black
  if tmp2 == 0 then pure tt else rb_set_parent tmp2 parent
  rotate_set_parents parent sibling black

-- Cases 2 to 4, with a black sibling.
pub erase_black_sibling :
    (again : (node parent : Ptr) → Cmd (Unit {0})) → Side → (parent sibling : Ptr) → Cmd (Unit {0})
erase_black_sibling again s parent sibling = do
  tmp1 ← child (other s) sibling
  far_red ← red_child tmp1
  if far_red then erase_outer s parent sibling tmp1 else do
    tmp2 ← child s sibling
    near_red ← red_child tmp2
    if near_red
        then (do erase_inner s parent sibling tmp2; erase_outer s parent tmp2 sibling)
        else erase_flip again parent sibling

-- A round of the loop, for `s` the side of the node.
pub erase_case :
    (again : (node parent : Ptr) → Cmd (Unit {0})) → Side → (parent sibling : Ptr) → Cmd (Unit {0})
erase_case again s parent sibling = do
  is_red ← rb_is_red sibling
  if is_red
      then (do
        black_one ← erase_red_sibling s parent sibling
        erase_black_sibling again s parent black_one)
      else erase_black_sibling again s parent sibling

-- The loop of `____rb_erase_color`.
pub erase_loop : (fuel : ℕ) → (node parent : Ptr) → Cmd (Unit {0})
erase_loop zero node parent = λ _. out_of_fuel
erase_loop (suc k) node parent =
    let again = erase_loop k in
    do
      sibling ← child right parent
      if node == sibling
          then (do beside ← child left parent; erase_case again right parent beside)
          else erase_case again left parent sibling

-- The loop of case 3 of `__rb_erase_augmented`: the leftmost node under `tmp` and its parent.
pub find_successor : (fuel : ℕ) → (successor tmp : Ptr) → Cmd (Ptr × Ptr)
find_successor zero successor tmp = λ _. out_of_fuel
find_successor (suc k) successor tmp = do
  next ← child left tmp
  let rest : Cmd (Ptr × Ptr) = find_successor k tmp next
  if next == 0 then pure (successor, tmp) else rest

-- Case 1 of `__rb_erase_augmented`: at most a right child. The result is `rebalance`.
pub erase_left_empty : (node child : Ptr) → Cmd Ptr
erase_left_empty node only = do
  pc ← get_pc node
  let parent = parent_of pc
  change_child node only parent
  if only == 0 then pure (if color_of pc == 0 then 0 else parent) else (do put_pc only pc; pure 0)

-- The same, with only a left child.
pub erase_right_empty : (node tmp : Ptr) → Cmd Ptr
erase_right_empty node only = do
  pc ← get_pc node
  put_pc only pc
  change_child node only (parent_of pc)
  pure 0

-- The end of cases 2 and 3: the successor takes the place of `node`.
pub erase_replace : (node successor parent child2 : Ptr) → Cmd Ptr
erase_replace node successor parent child2 = do
  l ← child left node
  set_child left successor l
  rb_set_parent l successor
  pc ← get_pc node
  change_child node successor (parent_of pc)
  is_black ← rb_is_black successor
  if child2 == 0 then pure tt else rb_set_parent_color child2 parent black
  put_pc successor pc
  pure (if child2 == 0 then (if is_black then parent else 0) else 0)

-- Cases 2 and 3: `node` has two children, `only` is the right one.
pub erase_full : (fuel : ℕ) → (node only : Ptr) → Cmd Ptr
erase_full fuel node right_child = do
  tmp ← child left right_child
  if tmp == 0
      then (do child2 ← child right right_child; erase_replace node right_child right_child child2)
      else (do
        (parent, successor) ← find_successor fuel right_child tmp
        child2 ← child right successor
        set_child left parent child2
        set_child right successor right_child
        rb_set_parent right_child successor
        erase_replace node successor parent child2)

-- `__rb_erase_augmented`
pub erase_node : (fuel : ℕ) → Ptr → Cmd Ptr
erase_node fuel node = do
  r ← child right node
  l ← child left node
  if l == 0
      then erase_left_empty node r
      else if r == 0
      then erase_right_empty node l
      else erase_full fuel node r

-- Both loops take a round for each level, so as many rounds as the tree is deep are enough.
pub rb_erase : (fuel : ℕ) → Ptr → Cmd (Unit {0})
rb_erase fuel node = do
  rebalance ← erase_node fuel node
  if rebalance == 0 then pure tt else erase_loop fuel 0 rebalance
