-- ===== src/ListHead/Prune.antt =====
-- The safe iteration macros of lib/list/list.h with a body that deletes entries as it goes.
use mathlib.Core.List.{foldl, append_assoc, append-nil}
use common_project_template.Base.{
  ℕ, zero, suc, ◌<◌, ◌≡◌, true, false, Bool, some, List, [], ◌∷◌, ◌++◌, ◌==◌, if◌then◌else◌, arith,
  refl, inl, inr, Bool-cases, ==_refl, length, has-append, Returns, returns, Returns-map,
  Returns-inv, ◌≢◌, subst, sym, ap, ◌∙◌, has,
}
use common_project_template.ListHead.{
  Ptr, ListHead, Heap, Cmd, Cursor, pure, ◌>>◌, list_del_init, for_each_safe, for_each_safe_loop,
}
use common_project_template.ListHead.Ring.{◌∈◌, ◌∉◌, IsRing, first_to, first_to-mem}
use common_project_template.ListHead.Update.{
  Distinct-remove, SameOutside, list_del_init-remove, IsRing-frame,
}
use common_project_template.ListHead.Walk.{
  at?, IsDirection, Names, beside-ok, leads_on, entry-ne_head,
}

module _ {S : Type 0} (cur : Cursor) (drop : Ptr → Bool) (f : Ptr → S → S) where
  -- The body: it deletes the entries that `drop` picks.
  abbrev pub pruning : Ptr → S → Cmd S
  pruning pos s = do if drop pos then list_del_init (cur.cell_of pos) else pure tt; pure (f pos s)

module _ (cur : Cursor) (drop : Ptr → Bool) where
  abbrev pub kept : List Ptr → List Ptr
  kept [] = []
  kept (x ∷ xs) = if drop (cur.of_cell x) then kept xs else x ∷ kept xs

-- The body saw `xs` in order, and what is left are the entries that `drop` did not pick; the
-- others are alone, and no other cell has changed.
pub record Pruned {S : Type 0} (order : List Ptr → List Ptr) (cur : Cursor) (head : Ptr)
    (drop : Ptr → Bool) (f : Ptr → S → S) (h : Heap) (done xs : List Ptr) (s : S) (r : S × Heap)
    : Type 0 where
  pub seen : r.0 ≡ foldl (λ t a. f (cur.of_cell a) t) s xs
  pub left : IsRing r.1 head (order (done ++ kept cur drop xs))
  pub alone : (a : Ptr) → a ∈ xs → drop (cur.of_cell a) ≡ true → IsRing r.1 a []
  pub others : SameOutside (head ∷ done ++ xs) h r.1

module _ {S : Type 0} (way : ListHead → Ptr) (order : List Ptr → List Ptr)
    (dir : IsDirection way order) (cur : Cursor) (head : Ptr) (drop : Ptr → Bool)
    (f : Ptr → S → S) where
  leads_from :
      (h : Heap) (done xs : List Ptr)
      → IsRing h head (order (done ++ xs))
      → (n : Ptr) × (at? way h (first_to xs head) ≡ some n)
  leads_from h done [] ring = (_, dir.leads h head [] done (rw (append-nil done) at ring))
  leads_from h done (x ∷ xs) ring = (_, leads_on way order dir head h done x xs ring)

  module _ (x : Ptr) (xs done : List Ptr) where
    -- Deleting the entry at hand, and what it leaves.
    delete_entry :
        (h : Heap)
        → IsRing h head (order (done ++ x ∷ xs))
        → Returns
            (λ r.
              IsRing r.1 head (order (done ++ xs))
              × IsRing r.1 x []
              × (x ∉ head ∷ done ++ xs)
              × SameOutside (head ∷ done ++ x ∷ xs) h r.1)
            (list_del_init x h)
    delete_entry h ring =
        let (before, after, whole, less) = dir.splits x done xs in
        let ring' : IsRing h head (before ++ x ∷ after) = rw whole at ring in
        let out = (Distinct-remove x before after ring'.distinct).1 in
        let in_whole = λ (a : Ptr). sym (dir.keeps a (done ++ x ∷ xs)) ∙ ap (has a) whole in
        let in_less = λ (a : Ptr). sym (dir.keeps a (done ++ xs)) ∙ ap (has a) less in
        Returns-map (list_del_init-remove h x head before after ring') λ r (rest, alone, same). (
          rw less rest,
          alone,
          ground (
            arith,
            in_less x,
            out,
            in_whole head,
            ring'.apart,
            has-append head before (x ∷ after),
          ),
          λ a o. same a (ground (arith, in_whole a)),
        )

  module _ (h : Heap) (done : List Ptr) (x : Ptr) (xs : List Ptr) (s : S) where
    -- An entry that stays.
    Pruned-keep :
        (r : S × Heap)
        → drop (cur.of_cell x) ≡ false
        → Pruned order cur head drop f h (done ++ x ∷ []) xs (f (cur.of_cell x) s) r
        → Pruned order cur head drop f h done (x ∷ xs) s r
    Pruned-keep r stays p = record {
      seen = p.seen;
      left = rw stays (rw (append_assoc done (x ∷ []) (kept cur drop xs)) at p.left);
      alone = λ a m d.
          let ne : a ≢ x = λ e. let c : drop (cur.of_cell x) ≡ true = rw e at d in cc in
          p.alone a (ground arith) d;
      others = λ a o. p.others a (
          ground (
            arith,
            has-append a (done ++ x ∷ []) xs,
            has-append a done (x ∷ []),
            has-append a done (x ∷ xs),
          ));
    }

    -- An entry that goes, and the rest of the loop.
    Pruned-drop :
        (g : Heap) (r : S × Heap)
        → drop (cur.of_cell x) ≡ true
        → IsRing g x []
        → x ∉ head ∷ done ++ xs
        → SameOutside (head ∷ done ++ x ∷ xs) h g
        → Pruned order cur head drop f g done xs (f (cur.of_cell x) s) r
        → Pruned order cur head drop f h done (x ∷ xs) s r
    Pruned-drop g r goes single out same p = record {
      seen = p.seen;
      left = rw goes p.left;
      alone = λ a m d. elim (Bool-cases (a == x)) [
        | inl here ↦
            let e : a ≡ x = ground arith in
            rw e (
              IsRing-frame g r.1 (head ∷ done ++ xs) x [] p.others
                (λ b i.
                  let e : b ≡ x = ground arith in subst (λ c. c ∉ head ∷ done ++ xs) (sym e) out)
                single)
        | inr there ↦ p.alone a (ground arith) d
      ];
      others = λ a o. ground (
        arith,
        same a o,
        p.others a (ground (arith, has-append a done (x ∷ xs), has-append a done xs)),
      );
    }

  for_each_safe_loop-Pruned :
      (k : ℕ) (h : Heap) (done xs : List Ptr) (n : Ptr) (s : S)
      → IsRing h head (order (done ++ xs))
      → Names cur head (done ++ xs)
      → at? way h (first_to xs head) ≡ some n
      → length xs < k
      → Returns (Pruned order cur head drop f h done xs s) (
          for_each_safe_loop way cur head
            (pruning cur drop f)
            k
            (cur.of_cell (first_to xs head))
            (cur.of_cell n)
            s
            h)
  unfolding for_each_safe_loop
  for_each_safe_loop-Pruned zero h done xs n s ring names e fuel = absurd (omega arith)
  for_each_safe_loop-Pruned (suc k) h done [] n s ring names e fuel =
      rw (names head (ground arith), ==_refl head)
        (returns (record {
          seen = refl;
          left = ring;
          alone = λ a m. absurd (ground arith);
          others = λ a o. refl;
        }))
  for_each_safe_loop-Pruned (suc k) h done (x ∷ xs) n s ring names e fuel =
      let n_is : n ≡ first_to xs head =
        ground (arith, leads_on way order dir head h done x xs ring) in
      let at_n : cur.cell_of (cur.of_cell n) ≡ n = names n (
        subst (λ c. c ∈ head ∷ done ++ x ∷ xs) (sym n_is)
          (ground (arith, first_to-mem xs head, has-append (first_to xs head) done (x ∷ xs)))) in
      rw
        (
          names x (ground (arith, has-append x done (x ∷ xs))),
          entry-ne_head way order dir head h done x xs ring,
        )
        (elim (Bool-cases (drop (cur.of_cell x))) [
          | inl goes ↦
              let ((u, g), ran, (ring', single, out, same)) =
                Returns-inv (delete_entry x xs done h ring) in
              let (n', e') = leads_from g done xs ring' in
              rw (goes, ran, at_n, n_is, beside-ok way cur g (first_to xs head) n' e')
                (Returns-map
                  (for_each_safe_loop-Pruned k g done xs n' (f (cur.of_cell x) s) ring'
                    (λ a i.
                      names a (ground (arith, has-append a done (x ∷ xs), has-append a done xs)))
                    e' (omega arith))
                  (λ r. Pruned-drop h done x xs s g r goes single out same))
          | inr stays ↦
              let regroup : (done ++ x ∷ []) ++ xs ≡ done ++ x ∷ xs =
                append_assoc done (x ∷ []) xs in
              let ring' : IsRing h head (order ((done ++ x ∷ []) ++ xs)) = rw regroup ring in
              let (n', e') = leads_from h (done ++ x ∷ []) xs ring' in
              rw (stays, at_n, n_is, beside-ok way cur h (first_to xs head) n' e')
                (Returns-map
                  (for_each_safe_loop-Pruned k h (done ++ x ∷ []) xs n' (f (cur.of_cell x) s) ring'
                    (rw regroup names) e' (omega arith))
                  (λ r. Pruned-keep h done x xs s r stays))
        ])

  pub for_each_safe-Pruned :
      (k : ℕ) (h : Heap) (xs : List Ptr) (s : S)
      → IsRing h head (order xs)
      → Names cur head xs
      → length xs < k
      → Returns
          (Pruned order cur head drop f h [] xs s)
          (for_each_safe way cur head (pruning cur drop f) k s h)
  unfolding for_each_safe
  for_each_safe-Pruned k h xs s ring names fuel =
      let (n, e) = leads_from h [] xs ring in
      rw
        (
          beside-ok way cur h head (first_to xs head) (dir.leads h head [] xs ring),
          names (first_to xs head) (first_to-mem xs head),
          beside-ok way cur h (first_to xs head) n e,
        )
        (for_each_safe_loop-Pruned k h [] xs n s ring names e fuel)
