-- ===== src/ListHead.antt =====
-- The functions of lib/list/list.c and the iteration macros of lib/list/list.h, over a store of
-- `struct list_head` cells. A pointer is a number; an address without a cell is one that the
-- program may not touch, and an access there faults.
pub mod Cells
pub mod Ring
pub mod Update
pub mod Queries
pub mod Walk
pub mod Prune
pub mod Macros
mod Tests
pub use common_project_template.Command.{pure, resume, ◌>>=◌, ◌>>◌}
use common_project_template.Command.{Command}
use common_project_template.Common.{container_of, member}
use common_project_template.Base.{
  ℕ, zero, suc, ◌+◌, ◌-◌, ◌%◌, ◌^◌, Bool, Option, none, some, ◌==◌, if◌then◌else◌, Run, ok, fault,
  out_of_fuel,
}

abbrev pub Ptr : Type 0
Ptr = ℕ

-- `struct list_head`
pub record ListHead : Type 0 where
  pub next : Ptr
  pub prev : Ptr

abbrev pub Heap : Type 0
Heap = Ptr → Option ListHead

abbrev pub Cmd : Type 0 → Type 0
Cmd A = Command Heap A

unfoldable pub write : Heap → Ptr → ListHead → Heap
write h p c a = if a == p then some c else h a

-- `*p`
unfoldable pub load : Ptr → Cmd ListHead
load p h = elim (h p) [ none ↦ fault | some c ↦ ok (c, h) ]

abbrev pub store : Ptr → ListHead → Cmd (Unit {0})
store p c h = ok (tt, write h p c)

-- `p->next = q` and `p->prev = q`
unfoldable pub set_next : Ptr → Ptr → Cmd (Unit {0})
set_next p q = do c ← load p; store p (record c { next = q })

unfoldable pub set_prev : Ptr → Ptr → Cmd (Unit {0})
set_prev p q = do c ← load p; store p (record c { prev = q })

pub init_list_head : Ptr → Cmd (Unit {0})
init_list_head list = do set_next list list; set_prev list list

-- `__list_add`
pub splice : (new prev next : Ptr) → Cmd (Unit {0})
splice new prev next = do set_prev next new; set_next new next; set_prev new prev; set_next prev new

pub list_add : (new head : Ptr) → Cmd (Unit {0})
list_add new head = do c ← load head; splice new head c.next

pub list_add_tail : (new head : Ptr) → Cmd (Unit {0})
list_add_tail new head = do c ← load head; splice new c.prev head

-- `__list_del`
pub unlink : (prev next : Ptr) → Cmd (Unit {0})
unlink prev next = do set_prev next prev; set_next prev next

pub list_del_init : Ptr → Cmd (Unit {0})
list_del_init entry = do c ← load entry; unlink c.prev c.next; init_list_head entry

pub list_is_first : (list head : Ptr) → Cmd Bool
list_is_first list head = do c ← load list; pure (c.prev == head)

pub list_is_last : (list head : Ptr) → Cmd Bool
list_is_last list head = do c ← load list; pure (c.next == head)

pub list_empty : Ptr → Cmd Bool
list_empty head = do c ← load head; pure (c.next == head)

-- How an iteration macro names a cell: by its own address, or by that of the struct around it.
pub record Cursor : Type 0 where
  pub of_cell : Ptr → Ptr
  pub cell_of : Ptr → Ptr

abbrev pub list_entry : (offset : ℕ) → Ptr → Ptr
list_entry = container_of

-- The cursors of `list_for_each` and of `list_for_each_entry`.
abbrev pub plain : Cursor
plain = record { of_cell = λ p. p; cell_of = λ p. p }

abbrev pub entry : (offset : ℕ) → Cursor
entry offset = record { of_cell = list_entry offset; cell_of = member offset }

-- The field that a macro goes by; the reverse macros use `prev`.
abbrev pub forward : ListHead → Ptr
forward c = c.next

abbrev pub backward : ListHead → Ptr
backward c = c.prev

-- `list_first_entry`, `list_last_entry`: the cell beside a head; `list_next_entry`,
-- `list_prev_entry`: the one beside a cursor.
pub beside : (ListHead → Ptr) → Cursor → Ptr → Cmd Ptr
beside way cur p = do c ← load p; pure (cur.of_cell (way c))

-- The iteration macros. The body sees the cursor and a state of its own, and may write the store.
module _ {S : Type 0} (way : ListHead → Ptr) (cur : Cursor) (head : Ptr)
    (body : Ptr → S → Cmd S) where
  for_each_loop : ℕ → Ptr → S → Cmd S
  for_each_loop zero pos s = λ _. out_of_fuel
  for_each_loop (suc k) pos s = if cur.cell_of pos == head then pure s else do
    t ← body pos s
    following ← beside way cur (cur.cell_of pos)
    for_each_loop k following t

  pub for_each : ℕ → S → Cmd S
  unfolding for_each_loop
  for_each fuel s = do pos ← beside way cur head; for_each_loop fuel pos s

  -- `n` is read before the body runs.
  for_each_safe_loop : ℕ → (pos n : Ptr) → S → Cmd S
  for_each_safe_loop zero pos n s = λ _. out_of_fuel
  for_each_safe_loop (suc k) pos n s = if cur.cell_of pos == head then pure s else do
    t ← body pos s
    following ← beside way cur (cur.cell_of n)
    for_each_safe_loop k n following t

  pub for_each_safe : ℕ → S → Cmd S
  unfolding for_each_safe_loop
  for_each_safe fuel s = do
    pos ← beside way cur head
    n ← beside way cur (cur.cell_of pos)
    for_each_safe_loop fuel pos n s
