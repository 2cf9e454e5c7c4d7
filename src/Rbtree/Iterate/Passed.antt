-- ===== src/Rbtree/Iterate/Passed.antt =====
-- The loop rbtree_postorder_for_each_entry_safe, with a body that may free the node it is called for.
use mathlib.Core.List.{append_assoc, append-nil, foldl, foldl-append}
use common_project_template.Base.{
  ℕ, suc, ◌+◌, ◌-◌, ◌^◌, ◌≤◌, ◌<◌, ◌≡◌, refl, true, false, List, ◌∷◌, ◌++◌, ◌==◌, arith, ap, sym,
  Returns, returns, Bool-cases, inl, inr,
}
use common_project_template.Command.{Returns-then}
use common_project_template.Common.{member}
use common_project_template.Rbtree.{Ptr, left, right, State, Cmd}
use common_project_template.Rbtree.Tree.{
  Tree, leaf, node, Place, top, under, root_of, owner, count, count_place, one_if, one_if_self,
  depth, plug, count-plug, size,
}
use common_project_template.Rbtree.Access.{IsLink}
use common_project_template.Rbtree.Rep.{IsNode, Kept, Rep, IsNode-Kept, Rep-Kept, IsTree}
use common_project_template.Rbtree.Iterate.{
  rb_entry, rb_entry_safe, postorder_loop, postorder_for_each,
}
use common_project_template.Rbtree.Iterate.Walk.{first_of, nonzero}
use common_project_template.Rbtree.Iterate.Postorder.{
  postorder, after, Ahead, next-after, rb_first_postorder-first,
}

-- An entry leads back to its node, and is not NULL if its node lies further in than at NULL.
member-rb_entry : (offset a : ℕ) → a < 2 ^ 64 → offset < a → member offset (rb_entry offset a) ≡ a
member-rb_entry offset a small inner = omega arith

entry_nonzero : (offset a : ℕ) → a < 2 ^ 64 → offset < a → (rb_entry offset a == 0) ≡ false
entry_nonzero offset a small inner = ground arith

-- What only changed at `a` is as it was in a place or a subtree without `a`.
elsewhere : (a p n : ℕ) → n ≡ 0 → (a == p) ≡ false → (p == a) ≡ false
elsewhere a p n h e = ground arith

count_ne : (t : Tree) (a p : Ptr) → count a t ≡ 0 → 0 < count p t → (p == a) ≡ false
count_ne t a p out inside = elim (Bool-cases (p == a)) [
  | inl same ↦ let e : p ≡ a = ground arith in absurd (omega (arith, ap (λ q. count q t) e))
  | inr other ↦ other
]

Ahead-Kept :
    {st st' : State} (a hole : Ptr) (place : Place)
    → ((p : Ptr) → (p == a) ≡ false → Kept st st' a p)
    → count_place a place ≡ 0
    → Ahead st hole place
    → Ahead st' hole place
Ahead-Kept a hole top kept out ahead = tt
Ahead-Kept a hole (under left p c beside up) kept out (here, by, ahead) =
    let ne : (p == a) ≡ false = ground (arith, out) in
    (
      IsNode-Kept (kept p ne) ne here,
      Rep-Kept beside p (λ q h. kept q (count_ne beside a q (omega arith) h)) (omega arith) by,
      Ahead-Kept a p up kept (omega arith) ahead,
    )
Ahead-Kept a hole (under right p c beside up) kept out (here, ahead) =
    let ne : (p == a) ≡ false = ground (arith, out) in
    (IsNode-Kept (kept p ne) ne here, Ahead-Kept a p up kept (omega arith) ahead)

depth-size : (t : Tree) → depth t ≤ size t
depth-size leaf = omega arith
depth-size (node l a c r) = ground (arith, depth-size l, depth-size r)

module _ {S : Type 0} (offset : ℕ) (body : Ptr → S → Cmd S) (f : Ptr → S → S)
    (local : (a : Ptr) (t : S) (st : State)
      → IsLink a
      → st.mapped a ≡ true
      → Returns
          (λ r. (r.0 ≡ f (rb_entry offset a) t) × ((p : Ptr) → (p == a) ≡ false → Kept st r.1 a p))
          (body (rb_entry offset a) t st))
    (fuel : ℕ) where
  -- The state after the nodes of a list.
  abbrev seen : List Ptr → S → S
  seen xs s = foldl (λ t a. f (rb_entry offset a) t) s xs

  -- The round at the root of a subtree, below which all has been passed.
  round :
      (place : Place) (a : Ptr) (c : ℕ) (l r : Tree) (k : ℕ) (s : S) (st : State)
      → IsNode st (owner place) a c (root_of l) (root_of r)
      → Ahead st a place
      → depth (plug place (node l a c r)) ≤ fuel
      → ((p : Ptr) → one_if (p == a) + count_place p place ≤ 1)
      → offset < a
      → {Q : S × State → Type 0}
      → ((st' : State)
          → Ahead st' a place
          → Returns Q (
              postorder_loop offset body k fuel
                (rb_entry_safe offset (first_of (after place)))
                (f (rb_entry offset a) s)
                st'))
      → Returns Q (postorder_loop offset body (suc k) fuel (rb_entry_safe offset a) s st)
  unfolding postorder_loop
  round place a c l r k s st here ahead deep once inner {Q} rest =
      let self = one_if_self a in
      rw
        (
          nonzero a here.positive,
          entry_nonzero offset a here.link.small inner,
          member-rb_entry offset a here.link.small inner,
          next-after st place a c l r fuel here ahead once deep,
        )
        (Returns-then (local a s st here.link here.mapped) (λ t st' did.
          rw did.0 (rest st' (Ahead-Kept a a place did.1 (omega (arith, once a)) ahead))))

  -- From the first node of a subtree, the rounds for all of it.
  visit :
      (t : Tree) (place : Place) (k : ℕ) (s : S) (st : State)
      → Rep st (owner place) t
      → Ahead st (root_of t) place
      → depth (plug place t) ≤ fuel
      → ((p : Ptr) → count p (plug place t) ≤ 1)
      → ((p : Ptr) → 0 < count p (plug place t) → offset < p)
      → {Q : S × State → Type 0}
      → ((st' : State)
          → Ahead st' (root_of t) place
          → Returns Q (
              postorder_loop offset body k fuel
                (rb_entry_safe offset (first_of (after place)))
                (seen (postorder t) s)
                st'))
      → Returns Q (
          postorder_loop offset body
            (size t + k)
            fuel
            (rb_entry_safe offset (first_of (postorder t ++ after place)))
            s
            st)
  unfolding plug
  visit leaf place k s st rep ahead deep once inner rest =
      let none : size leaf + k ≡ k = omega arith in rw none (rest st ahead)
  visit (node l a c r) place k s st (here, at_l, at_r) ahead deep once inner {Q} rest =
      let rounds : size (node l a c r) + k ≡ size l + (size r + suc k) = omega arith in
      let order : postorder (node l a c r) ++ after place
          ≡ postorder l ++ (postorder r ++ (a ∷ after place)) =
        simp append_assoc in
      let folded : seen (postorder (node l a c r)) s
          ≡ f (rb_entry offset a) (seen (postorder r) (seen (postorder l) s)) =
        simp foldl-append in
      let self = one_if_self a in
      let split : (p : Ptr)
          → count p (plug place (node l a c r)) ≡ count p (node l a c r) + count_place p place =
        λ p. count-plug p place (node l a c r) in
      rw (rounds, order)
        (visit l (under left a c r place) (size r + suc k) s st at_l (here, at_r, ahead) deep once
          inner
          λ st1 (here1, at_r1, ahead1).
            visit r (under right a c l place) (suc k) (seen (postorder l) s) st1 at_r1
              (here1, ahead1) deep once inner
              λ st2 (here2, ahead2).
                round place a c l r k (seen (postorder r) (seen (postorder l) s)) st2 here2 ahead2
                  deep (λ p. omega (arith, once p, split p)) (inner a (omega (arith, split a)))
                  (λ st3 ahead3. rw (sym folded) (rest st3 ahead3)))

  from_first :
      (st : State) (t : Tree) (n : ℕ) (s : S)
      → IsTree st t
      → ((p : Ptr) → 0 < count p t → offset < p)
      → size t < n
      → size t < fuel
      → Returns
          (λ r. r.0 ≡ seen (postorder t) s)
          (postorder_loop offset body n fuel (rb_entry_safe offset (first_of (postorder t))) s st)
  unfolding postorder_loop plug
  from_first st t n s tree inner rounds enough =
      let k = n - size t - 1 in
      let e : size t + suc k ≡ n = omega arith in
      let whole =
        visit t top (suc k) s st tree.nodes tt (omega (arith, depth-size t)) tree.once inner
          {Q = λ r. r.0 ≡ seen (postorder t) s} (λ st' done. returns refl) in
      rw (e, append-nil) at whole

  -- In a store that holds a tree, rbtree_postorder_for_each_entry_safe sees the entry of each node once,
  -- children before their parent, and ends without a fault, given more rounds than there are nodes, with
  -- any body that leaves the nodes but its own alone: it may write its own node, or free it. No node's
  -- entry is at NULL.
  pub postorder_for_each-visits :
      (st : State) (t : Tree) (s : S)
      → IsTree st t
      → ((p : Ptr) → 0 < count p t → offset < p)
      → size t < fuel
      → Returns
          (λ r. r.0 ≡ foldl (λ u a. f (rb_entry offset a) u) s (postorder t))
          (postorder_for_each offset body fuel s st)
  unfolding postorder_for_each
  postorder_for_each-visits st t s tree inner enough =
      rw (rb_first_postorder-first st t fuel tree (omega (arith, depth-size t)))
        (from_first st t fuel s tree inner enough enough)
