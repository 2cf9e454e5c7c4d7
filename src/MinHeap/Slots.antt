-- ===== src/MinHeap/Slots.antt =====
-- Reading, writing and exchanging the slots of the array, as long as they are inside it.
use mathlib.Core.List.{Perm}
use mathlib.Core.List.Perm
use common_project_template.Base.{
  ℕ, zero, suc, ◌≤◌, ◌<◌, ◌≡◌, refl, ap, ◌∙◌, List, [], ◌∷◌, ◌==◌, if◌then◌else◌, arith, length,
  get_or, get_or-set, set, length-set, take,
}

module _ {A : Type 0} where
  pub take-set :
      (n : ℕ) (a : List A) (i : ℕ) (v : A) → i < n → take n (set a i v) ≡ set (take n a) i v
  take-set zero a i v h = elim h [ ]
  take-set (suc n) [] i v h = refl
  take-set (suc n) (x ∷ a) zero v h = refl
  take-set (suc n) (x ∷ a) (suc i) v h = ap (◌∷◌ x) (take-set n a i v (omega arith))

  pub length-take_le : (n : ℕ) (a : List A) → n ≤ length a → length (take n a) ≡ n
  length-take_le zero a h = refl
  length-take_le (suc n) [] h = elim h [ ]
  length-take_le (suc n) (x ∷ a) h = ap suc (length-take_le n a (omega arith))

  module _ (junk : A) where
    pub get_or-take :
        (n : ℕ) (a : List A) (i : ℕ) → i < n → get_or (take n a) i junk ≡ get_or a i junk
    get_or-take zero a i h = elim h [ ]
    get_or-take (suc n) [] i h = refl
    get_or-take (suc n) (x ∷ a) zero h = refl
    get_or-take (suc n) (x ∷ a) (suc i) h = get_or-take n a i (omega arith)

    -- A write puts the new element in place of the old one.
    pub set-perm :
        (a : List A) (i : ℕ) (v : A) → i < length a → Perm (get_or a i junk ∷ set a i v) (v ∷ a)
    set-perm [] i v h = elim h [ ]
    set-perm (x ∷ a) zero v h = Perm.swap v x a
    set-perm (x ∷ a) (suc i) v h =
        Perm.trans (Perm.swap x (get_or a i junk) (set a i v))
          (Perm.trans (Perm.cons x (set-perm a i v (omega arith))) (Perm.swap v x a))

    abbrev pub exchanged : List A → ℕ → ℕ → List A
    exchanged a i j = set (set a i (get_or a j junk)) j (get_or a i junk)

    pub length-exchanged : (a : List A) (i j : ℕ) → length (exchanged a i j) ≡ length a
    length-exchanged a i j = length-set (set a i _) j _ ∙ length-set a i _

    module _ (a : List A) (i j : ℕ) (hi : i < length a) (hj : j < length a) where
      pub get_or-exchanged :
          (c : ℕ)
          → get_or (exchanged a i j) c junk ≡ (
              if j == c
              then get_or a i junk
              else if i == c
              then get_or a j junk
              else get_or a c junk)
      get_or-exchanged c = ground (
        arith,
        length-set a i (get_or a j junk),
        get_or-set (set a i (get_or a j junk)) j c (get_or a i junk) junk,
        get_or-set a i c (get_or a j junk) junk,
      )

      exchanged-perm : Perm (exchanged a i j) a
      exchanged-perm =
          let b = set a i (get_or a j junk) in
          let kept : get_or b j junk ≡ get_or a j junk =
            ground (arith, get_or-set a i j (get_or a j junk) junk) in
          let back = set-perm b j (get_or a i junk) (rw length-set hj) in
          Perm.cons_inv (Perm.trans (rw kept at back) (set-perm a i (get_or a j junk) hi))

    -- An exchange inside the part in use keeps its elements.
    pub take-exchanged_perm :
        (n : ℕ) (a : List A) (i j : ℕ)
        → i < n
        → j < n
        → n ≤ length a
        → Perm (take n (exchanged a i j)) (take n a)
    take-exchanged_perm n a i j hi hj small =
        let same : take n (exchanged a i j) ≡ exchanged (take n a) i j = rw (
          take-set n (set a i (get_or a j junk)) j (get_or a i junk) hj,
          take-set n a i (get_or a j junk) hi,
          get_or-take n a j hj,
          get_or-take n a i hi,
        ) in
        rw same (exchanged-perm (take n a) i j (rw length-take_le hi) (rw length-take_le hj))

    -- The part in use, when it grows by one slot.
    pub take-suc_perm :
        (n : ℕ) (a : List A) → n < length a → Perm (take (suc n) a) (get_or a n junk ∷ take n a)
    take-suc_perm n [] h = elim h [ ]
    take-suc_perm zero (x ∷ a) h = Perm.refl (x ∷ [])
    take-suc_perm (suc n) (x ∷ a) h =
        Perm.trans (Perm.cons x (take-suc_perm n a (omega arith)))
          (Perm.swap (get_or a n junk) x (take n a))

  pub take-set_beyond : (n : ℕ) (a : List A) (i : ℕ) (v : A) → n ≤ i → take n (set a i v) ≡ take n a
  take-set_beyond zero a i v h = refl
  take-set_beyond (suc n) [] i v h = refl
  take-set_beyond (suc n) (x ∷ a) zero v h = absurd (omega arith)
  take-set_beyond (suc n) (x ∷ a) (suc i) v h = ap (◌∷◌ x) (take-set_beyond n a i v (omega arith))
