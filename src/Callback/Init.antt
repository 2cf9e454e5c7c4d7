-- ===== src/Callback/Init.antt =====
-- init_node_cbs builds, for each type, the list of that type's callbacks in the table's order.
use common_project_template.Command.{Returns-then}
use common_project_template.Base.{
  ℕ, zero, suc, ◌+◌, ◌<◌, ◌≡◌, ◌≢◌, refl, List, [], ◌∷◌, ◌==◌, arith, Bool-cases, inl, inr, ◌∙◌,
  subst, Returns, returns, Returns-map,
}
use common_project_template.ListHead.{Ptr, Heap}
use common_project_template.ListHead.Cells.{Mapped, Mapped-of_next}
use common_project_template.ListHead.Ring.{◌∈◌, ◌∉◌, Distinct, IsRing, ne_of_mem}
use common_project_template.ListHead.Update.{SameOutside, IsRing-frame, init_list_head-nil}
use common_project_template.Callback.{Callback, callback_type_nr, init_heads, init_node_cbs}
use common_project_template.Callback.Register.{addresses, of_type, add_callbacks-IsRegistered}

-- The array of heads and the table do not overlap, and all their cells may be touched.
pub record IsLaidOut (node_cbs : ℕ → Ptr) (table : List Callback) (h : Heap) : Type 0 where
  pub heads :
      (s t : ℕ) → s < callback_type_nr → t < callback_type_nr → node_cbs s ≡ node_cbs t → s ≡ t
  pub distinct : Distinct (addresses table)
  pub apart : (t : ℕ) → t < callback_type_nr → node_cbs t ∉ addresses table
  pub head_mapped : (t : ℕ) → t < callback_type_nr → Mapped h (node_cbs t)
  pub mapped : (a : Ptr) → a ∈ addresses table → Mapped h a

module _ (node_cbs : ℕ → Ptr)
    (injective : (s t : ℕ)
      → s < callback_type_nr
      → t < callback_type_nr
      → node_cbs s ≡ node_cbs t
      → s ≡ t) where
  -- The heads below `i` are empty lists, and all may be touched.
  record IsInit (i : ℕ) (h : Heap) : Type 0 where
    rings : (t : ℕ) → t < i → IsRing h (node_cbs t) []
    mapped : (t : ℕ) → t < callback_type_nr → Mapped h (node_cbs t)

  IsInit-suc :
      (i : ℕ) (h g : Heap)
      → i < callback_type_nr
      → IsInit i h
      → IsRing g (node_cbs i) []
      → SameOutside (node_cbs i ∷ []) h g
      → IsInit (suc i) g
  IsInit-suc i h g small at ring same = record {
    rings = λ t p. elim (Bool-cases (t == i)) [
      | inl here ↦ subst (λ u. IsRing g (node_cbs u) []) (ground arith) ring
      | inr other ↦
          IsRing-frame h g (node_cbs i ∷ []) (node_cbs t) [] same
            (λ a m. ground (arith, injective t i)) (at.rings t (ground arith))
    ];
    mapped = λ t p. elim (Bool-cases (t == i)) [
      | inl here ↦
          subst (λ u. Mapped g (node_cbs u)) (ground arith)
            (Mapped-of_next g (node_cbs i) ring.chain.0)
      | inr other ↦
          let before = at.mapped t p in
          (before.0, same (node_cbs t) (ground (arith, injective t i)) ∙ before.1)
    ];
  }

  init_heads-IsInit :
      (k i : ℕ) (h : Heap)
      → i + k ≡ callback_type_nr
      → IsInit i h
      → Returns
          (λ r.
            IsInit callback_type_nr r.1
            × ((a : Ptr) → ((t : ℕ) → t < callback_type_nr → a ≢ node_cbs t) → r.1 a ≡ h a))
          (init_heads node_cbs k i h)
  unfolding init_heads
  init_heads-IsInit zero i h e at =
      let done : i ≡ callback_type_nr = omega arith in
      returns (subst (λ j. IsInit j h) done at, λ a o. refl)
  init_heads-IsInit (suc k) i h e at =
      let small : i < callback_type_nr = omega arith in
      Returns-then (init_list_head-nil h (node_cbs i) (at.mapped i small)) λ _ g (ring, same).
        Returns-map
          (init_heads-IsInit k (suc i) g (omega arith) (IsInit-suc i h g small at ring same))
          λ r (rings, others). (rings, λ a o. others a o ∙ same a (ground (arith, o i)))

-- From any memory in which the heads and the callbacks are laid out, `init_node_cbs` builds for
-- each type the list of that type's callbacks, in the table's order.
pub init_node_cbs-of_type :
    (node_cbs : ℕ → Ptr) (table : List Callback) (h : Heap)
    → IsLaidOut node_cbs table h
    → Returns
        (λ r. (t : ℕ) → t < callback_type_nr → IsRing r.1 (node_cbs t) (of_type t table))
        (init_node_cbs node_cbs table h)
unfolding init_node_cbs
init_node_cbs-of_type node_cbs table h lay =
    Returns-then
      (init_heads-IsInit node_cbs lay.heads callback_type_nr 0 h refl
        (record { rings = λ t p. absurd (omega arith); mapped = lay.head_mapped }))
      λ _ g (at, others).
        Returns-map
          (add_callbacks-IsRegistered node_cbs [] table g
            (record {
              heads = lay.heads;
              placed = tt;
              waiting = lay.distinct;
              disjoint = λ a m. refl;
              heads_placed = λ t p. refl;
              heads_waiting = lay.apart;
            })
            (record {
              rings = at.rings;
              mapped = λ a m.
                  let before = lay.mapped a m in
                  (
                    before.0,
                    others a (λ t p. ne_of_mem a (node_cbs t) (addresses table) m (lay.apart t p))
                        ∙ before.1,
                  );
            }))
          λ r reg. reg.rings
