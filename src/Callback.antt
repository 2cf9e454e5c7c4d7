-- ===== src/Callback.antt =====
-- lib/callback/callback.c and callback.h: callbacks registered by type in static lists, and called
-- in the order of registration. The store is that of `ListHead`; `struct callback` begins with its
-- `list` field, so the offset of the entries is 0.
pub mod Register
pub mod Init
pub mod Notify
mod Tests
use common_project_template.Base.{
  ℕ, zero, suc, ◌+◌, List, [], ◌∷◌, ◌++◌, Option, none, some, ◌==◌, leb, if◌then◌else◌, fault,
  length,
}
use common_project_template.Common.{msg}
use common_project_template.ListHead.{
  Ptr, Heap, Cmd, pure, ◌>>=◌, ◌>>◌, entry, forward, init_list_head, list_add_tail, for_each,
}

-- `enum callback_type`
abbrev pub node_online_type : ℕ
node_online_type = 0

abbrev pub node_offline_type : ℕ
node_offline_type = 1

abbrev pub callback_type_nr : ℕ
callback_type_nr = 2

-- `struct node`; the id is only passed on to `printf`.
pub record Node : Type 0 where
  pub id : ℕ

-- The functions that a `callback_func_t` of this file can point to, and what they print.
pub data Func : Type 0 where
  online_print online_echo offline_print : Func

pub data Line : Type 0 where
  online online_echoed offline : ℕ → Line

pub run_func : (control_msg_level : ℕ) → Func → Node → List Line
unfolding msg
run_func level online_print node = msg level 0 (online node.id)
run_func level online_echo node = msg level 0 (online_echoed node.id)
run_func level offline_print node = msg level 0 (offline node.id)

-- `struct callback`, with the address of its list field.
pub record Callback : Type 0 where
  pub list : Ptr
  pub type : ℕ
  pub func : Func

-- `head_cb`, at the addresses that its three elements have.
abbrev pub head_cb : (print_at echo_at offline_at : Ptr) → List Callback
head_cb print_at echo_at offline_at =
    record { list = print_at; type = node_online_type; func = online_print }
    ∷ record { list = echo_at; type = node_online_type; func = online_echo }
    ∷ record { list = offline_at; type = node_offline_type; func = offline_print }
    ∷ []

-- Reading a `struct callback` through a pointer to it.
pub callback_at : List Callback → Ptr → Option Callback
callback_at [] p = none
callback_at (cb ∷ table) p = if cb.list == p then some cb else callback_at table p

-- `cb->func(node)`: what the function prints is put behind what has been printed.
pub call_one : List Callback → (control_msg_level : ℕ) → Node → Ptr → List Line → Cmd (List Line)
call_one table level node pos out h = elim (callback_at table pos) [
  | none ↦ fault
  | some cb ↦ pure (out ++ run_func level cb.func node) h
]

-- `node_cbs t` is the address of the `t`-th list head.
module _ (node_cbs : ℕ → Ptr) where
  init_heads : (rounds i : ℕ) → Cmd (Unit {0})
  init_heads zero i = pure tt
  init_heads (suc k) i = do init_list_head (node_cbs i); init_heads k (suc i)

  pub add_callbacks : List Callback → Cmd (Unit {0})
  add_callbacks [] = pure tt
  add_callbacks (cb ∷ cbs) =
      if leb callback_type_nr cb.type
      then add_callbacks cbs
      else do init_list_head cb.list; list_add_tail cb.list (node_cbs cb.type); add_callbacks cbs

-- `table` is the array of callbacks, `head_cb` in the source.
module _ (node_cbs : ℕ → Ptr) (table : List Callback) where
  pub init_node_cbs : Cmd (Unit {0})
  unfolding init_heads add_callbacks
  init_node_cbs = do init_heads node_cbs callback_type_nr 0; add_callbacks node_cbs table

  -- Each list has at most the callbacks of the table, so `length table + 1` rounds are enough.
  pub call_func : (control_msg_level : ℕ) → Node → ℕ → List Line → Cmd (List Line)
  call_func level node type out =
      for_each forward (entry 0) (node_cbs type) (call_one table level node) (length table + 1) out

  pub node_online : (control_msg_level : ℕ) → Node → List Line → Cmd (List Line)
  unfolding call_func
  node_online level node = call_func level node node_online_type

  pub node_offline : (control_msg_level : ℕ) → Node → List Line → Cmd (List Line)
  unfolding call_func
  node_offline level node = call_func level node node_offline_type
