-- ===== src/Callback/Register.antt =====
-- The second loop of init_node_cbs: each callback goes to the end of its type's list.
use mathlib.Core.List.{append-nil, append_assoc}
use common_project_template.Command.{Returns-then}
use common_project_template.Base.{
  ℕ, ◌<◌, ◌≡◌, ◌≢◌, refl, true, false, List, [], ◌∷◌, ◌++◌, ◌==◌, if◌then◌else◌, arith, has,
  Returns, returns, leb, Bool-cases, inl, inr, ◌≤◌, ==_refl, ◌∙◌, subst,
}
use common_project_template.ListHead.{Ptr, Heap}
use common_project_template.ListHead.Cells.{Mapped, Mapped-of_next}
use common_project_template.ListHead.Ring.{◌∈◌, ◌∉◌, Distinct, IsRing, ne_of_mem}
use common_project_template.ListHead.Update.{
  SameOutside, IsRing-frame, init_list_head-nil, list_add_tail-append,
}
use common_project_template.Callback.{Callback, callback_type_nr, add_callbacks}

abbrev pub addresses : List Callback → List Ptr
addresses [] = []
addresses (cb ∷ cbs) = cb.list ∷ addresses cbs

-- The list fields of the callbacks of a type, in order.
abbrev pub of_type : ℕ → List Callback → List Ptr
of_type t [] = []
of_type t (cb ∷ cbs) = if cb.type == t then cb.list ∷ of_type t cbs else of_type t cbs

of_type-append :
    (t : ℕ) (ds bs : List Callback) → of_type t (ds ++ bs) ≡ of_type t ds ++ of_type t bs
of_type-append t [] bs = refl
of_type-append t (cb ∷ ds) bs = ground (arith, of_type-append t ds bs)

pub not_mem-of_type : (a t : ℕ) (cbs : List Callback) → a ∉ addresses cbs → a ∉ of_type t cbs
not_mem-of_type a t [] o = refl
not_mem-of_type a t (cb ∷ cbs) o = ground (arith, not_mem-of_type a t cbs)

of_type-apart :
    (a s t : ℕ) (cbs : List Callback)
    → Distinct (addresses cbs)
    → s ≢ t
    → a ∈ of_type s cbs
    → a ∉ of_type t cbs
of_type-apart a s t [] d ne m = refl
of_type-apart a s t (cb ∷ cbs) d ne m = ground (
  arith,
  of_type-apart a s t cbs d.1,
  not_mem-of_type cb.list s cbs,
  not_mem-of_type cb.list t cbs,
)

has-addresses_snoc :
    (a : Ptr) (pre : List Callback) (cb : Callback)
    → has a (addresses (pre ++ cb ∷ [])) ≡ (if has a (addresses pre) then true else a == cb.list)
has-addresses_snoc a [] cb = ground arith
has-addresses_snoc a (x ∷ pre) cb = ground (arith, has-addresses_snoc a pre cb)

Distinct-snoc :
    (pre : List Callback) (cb : Callback)
    → Distinct (addresses pre)
    → cb.list ∉ addresses pre
    → Distinct (addresses (pre ++ cb ∷ []))
Distinct-snoc [] cb d o = (refl, tt)
Distinct-snoc (x ∷ pre) cb d o =
    (ground (arith, has-addresses_snoc x.list pre cb), Distinct-snoc pre cb d.1 (ground arith))

ne_of_mem' : (a b : Ptr) (xs : List Ptr) → a ∈ xs → b ∉ xs → a ∉ b ∷ []
ne_of_mem' a b xs m o = ground (arith, ne_of_mem a b xs m o)

module _ (node_cbs : ℕ → Ptr) where
  -- The callbacks `pre` are on their lists, and the cells of `rest` may still be touched.
  pub record IsRegistered (pre rest : List Callback) (g : Heap) : Type 0 where
    pub rings : (t : ℕ) → t < callback_type_nr → IsRing g (node_cbs t) (of_type t pre)
    pub mapped : (a : Ptr) → a ∈ addresses rest → Mapped g a

  -- What the proofs use of the layout, for a table in two parts.
  pub record IsApart (pre rest : List Callback) : Type 0 where
    pub heads :
        (s t : ℕ) → s < callback_type_nr → t < callback_type_nr → node_cbs s ≡ node_cbs t → s ≡ t
    pub placed : Distinct (addresses pre)
    pub waiting : Distinct (addresses rest)
    pub disjoint : (a : Ptr) → a ∈ addresses rest → a ∉ addresses pre
    pub heads_placed : (t : ℕ) → t < callback_type_nr → node_cbs t ∉ addresses pre
    pub heads_waiting : (t : ℕ) → t < callback_type_nr → node_cbs t ∉ addresses rest

  module _ (pre : List Callback) (cb : Callback) (rest : List Callback)
      (lay : IsApart pre (cb ∷ rest)) where
    cb_fresh : cb.list ∉ addresses pre
    cb_fresh = lay.disjoint cb.list (ground arith)

    IsApart-next : IsApart (pre ++ cb ∷ []) rest
    IsApart-next = record {
      heads = lay.heads;
      placed = Distinct-snoc pre cb lay.placed cb_fresh;
      waiting = lay.waiting.1;
      disjoint = λ a m. ground (arith, has-addresses_snoc a pre cb, lay.disjoint a);
      heads_placed = λ t p. ground (
        arith,
        has-addresses_snoc (node_cbs t) pre cb,
        lay.heads_placed t p,
        lay.heads_waiting t p,
      );
      heads_waiting = λ t p. ground (arith, lay.heads_waiting t p);
    }

    -- A callback of another type leaves a list as it is.
    of_type-other : (t : ℕ) → (cb.type == t) ≡ false → of_type t (pre ++ cb ∷ []) ≡ of_type t pre
    of_type-other t other = of_type-append t pre (cb ∷ []) ∙ rw (other, append-nil) refl

    -- A callback of an unknown type is skipped.
    IsRegistered-skip :
        (g : Heap)
        → callback_type_nr ≤ cb.type
        → IsRegistered pre (cb ∷ rest) g
        → IsRegistered (pre ++ cb ∷ []) rest g
    IsRegistered-skip g large reg = record {
      rings = λ t p. rw (of_type-other t (ground arith)) (reg.rings t p);
      mapped = λ a m. reg.mapped a (ground arith);
    }

    module _ (small : cb.type < callback_type_nr) where
      -- The cells that the insertion writes.
      abbrev written : List Ptr
      written = cb.list ∷ node_cbs cb.type ∷ of_type cb.type pre

      cb_out : cb.list ∉ node_cbs cb.type ∷ of_type cb.type pre
      cb_out =
          ground
            (arith, lay.heads_waiting cb.type small, not_mem-of_type cb.list cb.type pre cb_fresh)

      others-apart :
          (t : ℕ)
          → t < callback_type_nr
          → (cb.type == t) ≡ false
          → (a : Ptr) → a ∈ node_cbs t ∷ of_type t pre
          → a ∉ written
      others-apart t p other a m = ground (
        arith,
        lay.heads_waiting t p,
        lay.heads_waiting cb.type small,
        lay.heads t cb.type p small,
        not_mem-of_type (node_cbs t) cb.type pre (lay.heads_placed t p),
        not_mem-of_type (node_cbs cb.type) t pre (lay.heads_placed cb.type small),
        not_mem-of_type cb.list t pre cb_fresh,
        of_type-apart a t cb.type pre lay.placed,
      )

      waiting-apart : (a : Ptr) → a ∈ addresses rest → a ∉ written
      waiting-apart a m = ground (
        arith,
        lay.waiting,
        lay.heads_waiting cb.type small,
        not_mem-of_type a cb.type pre (lay.disjoint a (ground arith)),
      )

      IsRegistered-add :
          (h g g' : Heap)
          → IsRegistered pre (cb ∷ rest) h
          → SameOutside (cb.list ∷ []) h g
          → SameOutside written g g'
          → IsRing g' (node_cbs cb.type) (of_type cb.type pre ++ cb.list ∷ [])
          → IsRegistered (pre ++ cb ∷ []) rest g'
      IsRegistered-add h g g' reg same same' ring = record {
        rings = λ t p. elim (Bool-cases (cb.type == t)) [
          | inl here ↦
              subst (λ u. IsRing g' (node_cbs u) (of_type u (pre ++ cb ∷ []))) (ground arith) own
          | inr other ↦ rw (of_type-other t other) (
              IsRing-frame h g' written (node_cbs t) (of_type t pre) unchanged
                (others-apart t p other) (reg.rings t p))
        ];
        mapped = λ a m.
            let before = reg.mapped a (ground arith) in
            (before.0, unchanged a (waiting-apart a m) ∙ before.1);
      }
        where
          unchanged : SameOutside written h g'
          unchanged a o = ground (arith, same a, same' a o)

          own : IsRing g' (node_cbs cb.type) (of_type cb.type (pre ++ cb ∷ []))
          own = rw (of_type-append cb.type pre (cb ∷ []), ==_refl cb.type) ring

  pub add_callbacks-IsRegistered :
      (pre rest : List Callback) (h : Heap)
      → IsApart pre rest
      → IsRegistered pre rest h
      → Returns (λ r. IsRegistered (pre ++ rest) [] r.1) (add_callbacks node_cbs rest h)
  unfolding add_callbacks
  add_callbacks-IsRegistered pre [] h lay reg = returns (rw (append-nil pre) reg)
  add_callbacks-IsRegistered pre (cb ∷ rest) h lay reg =
      let go = λ (g : Heap) (reg' : IsRegistered (pre ++ cb ∷ []) rest g).
        rw append_assoc at (
          add_callbacks-IsRegistered (pre ++ cb ∷ []) rest g (IsApart-next pre cb rest lay) reg') in
      elim (Bool-cases (leb callback_type_nr cb.type)) [
        | inl large ↦ rw large (go h (IsRegistered-skip pre cb rest lay h (ground arith) reg))
        | inr other ↦
            let small : cb.type < callback_type_nr = ground arith in
            rw other (
              Returns-then (init_list_head-nil h cb.list (reg.mapped cb.list (ground arith)))
                λ _ g (alone, same).
                  Returns-then
                    (list_add_tail-append g cb.list (node_cbs cb.type)
                      (Mapped-of_next g cb.list alone.chain.0) (of_type cb.type pre)
                      (IsRing-frame h g (cb.list ∷ []) (node_cbs cb.type) (of_type cb.type pre) same
                        (λ a m.
                          ne_of_mem' a cb.list (node_cbs cb.type ∷ of_type cb.type pre) m
                            (cb_out pre cb rest lay small))
                        (reg.rings cb.type small))
                      (cb_out pre cb rest lay small))
                    λ _ g' (ring, same').
                      go g' (IsRegistered-add pre cb rest lay small h g g' reg same same' ring))
      ]
