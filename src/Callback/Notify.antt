-- ===== src/Callback/Notify.antt =====
-- node_online and node_offline call the registered callbacks of their type, in order.
use mathlib.Core.List.{foldl, append_assoc, append-nil}
use common_project_template.Base.{
  ℕ, ◌+◌, ◌<◌, ◌≡◌, List, [], ◌∷◌, ◌++◌, none, some, ◌==◌, if◌then◌else◌, arith, ok, length, sym,
  ◌∙◌, Returns, Returns-map, Bool-cases, inl, inr, ◌≤◌, subst, ap,
}
use common_project_template.ListHead.{Ptr, Heap, list_entry}
use common_project_template.ListHead.Ring.{◌∈◌, ◌∉◌, Distinct, IsRing}
use common_project_template.ListHead.Macros.{IsAddressed, for_each-visits}
use common_project_template.Callback.{
  Node, Line, Callback, callback_type_nr, node_online_type, node_offline_type, run_func,
  callback_at, call_one, call_func, node_online, node_offline, init_node_cbs,
}
use common_project_template.Callback.Register.{addresses, of_type, not_mem-of_type}
use common_project_template.Callback.Init.{IsLaidOut, init_node_cbs-of_type}

-- What the callbacks of a type print, in the table's order.
abbrev pub printed : (control_msg_level : ℕ) → Node → ℕ → List Callback → List Line
printed level node t [] = []
printed level node t (cb ∷ cbs) =
    if cb.type == t
    then run_func level cb.func node ++ printed level node t cbs
    else printed level node t cbs

-- Each callback of `cbs` is found in `table` at its address.
abbrev Found : List Callback → List Callback → Type 0
Found table [] = Unit
Found table (cb ∷ cbs) = (callback_at table cb.list ≡ some cb) × Found table cbs

Found-cons :
    (cb : Callback) (table cbs : List Callback)
    → cb.list ∉ addresses cbs
    → Found table cbs
    → Found (cb ∷ table) cbs
unfolding callback_at
Found-cons cb table [] o found = tt
Found-cons cb table (x ∷ cbs) o found =
    (ground (arith, found.0), Found-cons cb table cbs (ground arith) found.1)

Found-self : (table : List Callback) → Distinct (addresses table) → Found table table
unfolding callback_at
Found-self [] d = tt
Found-self (cb ∷ table) d = (ground arith, Found-cons cb table table d.0 (Found-self table d.1))

module _ (table : List Callback) (level : ℕ) (node : Node) where
  -- What a call does to the lines printed so far.
  print_at : Ptr → List Line → List Line
  print_at a out = elim (callback_at table a) [
    | none ↦ out
    | some cb ↦ out ++ run_func level cb.func node
  ]

  print_at-some :
      (a : Ptr) (cb : Callback) (out : List Line)
      → callback_at table a ≡ some cb
      → print_at a out ≡ out ++ run_func level cb.func node
  unfolding print_at
  print_at-some a cb out e = rw (e, print_at)

  print_at-printed :
      (t : ℕ) (cbs : List Callback) (out : List Line)
      → Found table cbs
      → foldl (λ u a. print_at a u) out (of_type t cbs) ≡ out ++ printed level node t cbs
  print_at-printed t [] out found = sym (append-nil out)
  print_at-printed t (cb ∷ cbs) out found = elim (Bool-cases (cb.type == t)) [
    | inl same ↦ rw same (
        ap (λ u. foldl (λ v a. print_at a v) u (of_type t cbs))
          (print_at-some cb.list cb out found.0)
        ∙ print_at-printed t cbs (out ++ run_func level cb.func node) found.1
        ∙ append_assoc out (run_func level cb.func node) (printed level node t cbs))
    | inr other ↦ rw other (print_at-printed t cbs out found.1)
  ]

  length-of_type : (t : ℕ) (cbs : List Callback) → length (of_type t cbs) ≤ length cbs
  length-of_type t [] = omega arith
  length-of_type t (cb ∷ cbs) = ground (arith, length-of_type t cbs)

  call_one-print_at :
      (t : ℕ) (h : Heap) (a : Ptr) (out : List Line) (cbs : List Callback)
      → Found table cbs
      → a ∈ of_type t cbs
      → call_one table level node a out h ≡ ok (print_at a out, h)
  unfolding call_one
  call_one-print_at t h a out [] found m = absurd (ground arith)
  call_one-print_at t h a out (cb ∷ cbs) found m = elim (Bool-cases (a == cb.list)) [
    | inl same ↦
        let e : callback_at table a ≡ some cb =
          subst (λ b. callback_at table b ≡ some cb) (ground arith) found.0 in
        rw (e, call_one, print_at-some a cb out e)
    | inr other ↦ call_one-print_at t h a out cbs found.1 (ground arith)
  ]

module _ (node_cbs : ℕ → Ptr) (table : List Callback) (t : ℕ) (h : Heap) where
  pub call_func-printed :
      (level : ℕ) (node : Node) (out : List Line)
      → Distinct (addresses table)
      → IsAddressed (node_cbs t) (of_type t table)
      → IsRing h (node_cbs t) (of_type t table)
      → call_func node_cbs table level node t out h ≡ ok (out ++ printed level node t table, h)
  unfolding call_func
  call_func-printed level node out distinct addressed ring =
      let found = Found-self table distinct in
      let reads : (a : Ptr) (u : List Line)
          → a ∈ of_type t table
          → call_one table level node (list_entry 0 a) u h ≡ ok (print_at table level node a u, h) =
        λ a u m.
          let e : list_entry 0 a ≡ a = omega (arith, addressed a (ground arith)) in
          rw e (call_one-print_at table level node t h a u table found m) in
      let visits =
        for_each-visits 0 h (node_cbs t) (of_type t table) out (omega arith) addressed ring
          (length table + 1) (omega (arith, length-of_type table level node t table))
          (call_one table level node) (print_at table level node) reads in
      let prints = print_at-printed table level node t table out found in
      visits.0 ∙ ap (λ lines. ok (lines, h)) prints

-- After `init_node_cbs`, `node_online` and `node_offline` print what the callbacks of their type
-- in the table print, in the table's order, behind the lines printed so far.
pub init-notify :
    (node_cbs : ℕ → Ptr) (table : List Callback) (level : ℕ) (node : Node) (out : List Line)
    (h : Heap)
    → IsLaidOut node_cbs table h
    → ((t : ℕ) → t < callback_type_nr → IsAddressed (node_cbs t) (addresses table))
    → Returns
        (λ r.
          (node_online node_cbs table level node out r.1
            ≡ ok (out ++ printed level node node_online_type table, r.1))
          × (node_offline node_cbs table level node out r.1
              ≡ ok (out ++ printed level node node_offline_type table, r.1)))
        (init_node_cbs node_cbs table h)
unfolding node_online node_offline
init-notify node_cbs table level node out h lay addressed =
    Returns-map (init_node_cbs-of_type node_cbs table h lay) λ r rings.
      let calls = λ (t : ℕ) (p : t < callback_type_nr).
        call_func-printed node_cbs table t r.1 level node out lay.distinct
          (λ a m. addressed t p a (ground (arith, not_mem-of_type a t table))) (rings t p) in
      (calls node_online_type (omega arith), calls node_offline_type (omega arith))
