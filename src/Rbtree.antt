-- ===== src/Rbtree.antt =====
-- lib/rbtree/rbtree.c and rbtree.h: red-black trees of nodes that hold a pointer to their parent with
-- a colour in its lowest bit. The fields of `struct rb_node` are functions of its address, which may
-- be touched if it is mapped. Code that the source writes twice, with left and right exchanged,
-- is written once with a `Side`.
pub mod Tree
pub mod Access
pub mod Rep
pub mod Frame
pub mod Rotate
pub mod Balance
pub mod Fork
pub mod Depth
pub mod Iterate
pub mod Insert
pub mod Erase
pub mod Refine
mod Tests
use common_project_template.Base.{
  ℕ, ◌-◌, ◌^◌, Bool, true, false, not, ◌==◌, if◌then◌else◌, ok, fault, bit_and, bit_or,
}
use common_project_template.Command.{Command, pure, ◌>>=◌, ◌>>◌}

abbrev pub Ptr : Type 0
Ptr = ℕ

pub data Side : Type 0 where
  left right : Side

abbrev pub other : Side → Side
other left = right
other right = left

-- The fields of the nodes, and `root->rb_node`.
pub record State : Type 0 where
  pub mapped : Ptr → Bool
  pub parent_color : Ptr → ℕ
  pub rb_left : Ptr → Ptr
  pub rb_right : Ptr → Ptr
  pub rb_node : Ptr

abbrev pub Cmd : Type 0 → Type 0
Cmd A = Command State A

-- `field` with `v` at `p`.
abbrev pub update : (Ptr → ℕ) → Ptr → ℕ → Ptr → ℕ
update field p v a = if a == p then v else field a

-- `RB_RED`, `RB_BLACK`
abbrev pub red : ℕ
red = 0

abbrev pub black : ℕ
black = 1

-- `__rb_parent(pc)`, `__rb_color(pc)`
pub parent_of : ℕ → Ptr
parent_of pc = bit_and pc (2 ^ 64 - 1 - 3)

pub color_of : ℕ → ℕ
color_of pc = bit_and pc 1

-- `p->__rb_parent_color`
pub get_pc : Ptr → Cmd ℕ
get_pc p st = if st.mapped p then ok (st.parent_color p, st) else fault

pub put_pc : Ptr → ℕ → Cmd (Unit {0})
put_pc p pc st =
    if st.mapped p then ok (tt, record st { parent_color = update st.parent_color p pc }) else fault

-- `RB_EMPTY_NODE`, of a node that is known not to be in a tree, and `RB_CLEAR_NODE`.
pub rb_empty_node : Ptr → Cmd Bool
rb_empty_node node = do pc ← get_pc node; pure (pc == node)

pub rb_clear_node : Ptr → Cmd (Unit {0})
rb_clear_node node = put_pc node node

-- `p->rb_left` or `p->rb_right`
abbrev pub field : Side → State → Ptr → Ptr
field left st = st.rb_left
field right st = st.rb_right

abbrev pub with_child : Side → Ptr → Ptr → State → State
with_child left p q st = record st { rb_left = update st.rb_left p q }
with_child right p q st = record st { rb_right = update st.rb_right p q }

pub child : Side → Ptr → Cmd Ptr
child s p st = if st.mapped p then ok (field s st p, st) else fault

pub set_child : Side → Ptr → Ptr → Cmd (Unit {0})
set_child s p q st = if st.mapped p then ok (tt, with_child s p q st) else fault

abbrev pub get_root : Cmd Ptr
get_root st = ok (st.rb_node, st)

abbrev pub set_root : Ptr → Cmd (Unit {0})
set_root p st = ok (tt, record st { rb_node = p })

pub rb_parent : Ptr → Cmd Ptr
rb_parent p = do pc ← get_pc p; pure (parent_of pc)

pub rb_color : Ptr → Cmd ℕ
rb_color p = do pc ← get_pc p; pure (color_of pc)

pub rb_is_black : Ptr → Cmd Bool
rb_is_black p = do color ← rb_color p; pure (not (color == 0))

pub rb_is_red : Ptr → Cmd Bool
rb_is_red p = do color ← rb_color p; pure (color == 0)

pub rb_red_parent : Ptr → Cmd Ptr
rb_red_parent p = get_pc p

pub rb_set_black : Ptr → Cmd (Unit {0})
rb_set_black p = do pc ← get_pc p; put_pc p (bit_or pc black)

pub rb_set_parent : Ptr → Ptr → Cmd (Unit {0})
rb_set_parent p parent = do color ← rb_color p; put_pc p (bit_or color parent)

pub rb_set_parent_color : Ptr → Ptr → ℕ → Cmd (Unit {0})
rb_set_parent_color p parent color = put_pc p (bit_or parent color)

-- `if (p) rb_set_parent_color(p, parent, color);`
pub paint_child : Ptr → Ptr → ℕ → Cmd (Unit {0})
paint_child p parent color = if p == 0 then pure tt else rb_set_parent_color p parent color

-- `p && rb_is_red(p)`
pub red_child : Ptr → Cmd Bool
red_child p = if p == 0 then pure false else rb_is_red p

-- `__rb_change_child`
pub change_child : (old new parent : Ptr) → Cmd (Unit {0})
change_child old new parent = if parent == 0 then set_root new else do
  l ← child left parent
  if l == old then set_child left parent new else set_child right parent new

-- `__rb_rotate_set_parents`
pub rotate_set_parents : (old new : Ptr) → (color : ℕ) → Cmd (Unit {0})
rotate_set_parents old new color = do
  parent ← rb_parent old
  pc ← get_pc old
  put_pc new pc
  rb_set_parent_color old new color
  change_child old new parent

-- Where `rb_link` of `rb_link_node` points to.
pub data Slot : Type 0 where
  root_slot : Slot
  child_slot : Side → Ptr → Slot

pub set_slot : Slot → Ptr → Cmd (Unit {0})
set_slot root_slot node = set_root node
set_slot (child_slot s p) node = set_child s p node

pub rb_link_node : (node parent : Ptr) → Slot → Cmd (Unit {0})
rb_link_node node parent rb_link = do
  put_pc node parent
  set_child right node 0
  set_child left node 0
  set_slot rb_link node
