-- ===== src/ListHead/Cells.antt =====
-- What the stores of lib/list/list.c do to the two fields of each cell.
use common_project_template.Command.{Returns-then}
use common_project_template.Base.{
  ◌≡◌, ◌≢◌, true, false, Option, none, some, ◌==◌, if◌then◌else◌, ok, arith, Bool-cases, inl, inr,
  Returns, returns, Returns-map,
}
use common_project_template.ListHead.{
  Ptr, ListHead, Heap, write, load, set_next, set_prev, init_list_head, splice, unlink,
  list_del_init,
}

abbrev pub next? : Heap → Ptr → Option Ptr
next? h p = elim (h p) [ none ↦ none | some c ↦ some c.next ]

abbrev pub prev? : Heap → Ptr → Option Ptr
prev? h p = elim (h p) [ none ↦ none | some c ↦ some c.prev ]

-- `q` follows `p`, by both pointers.
abbrev pub Link : Heap → Ptr → Ptr → Type 0
Link h p q = (next? h p ≡ some q) × (prev? h q ≡ some p)

-- `g` has `new` between `p` and `q`, and is `h` elsewhere.
pub record Spliced (h : Heap) (new p q : Ptr) (g : Heap) : Type 0 where
  pub nexts :
      (a : Ptr) → next? g a ≡ (if a == p then some new else if a == new then some q else next? h a)
  pub prevs :
      (a : Ptr) → prev? g a ≡ (if a == q then some new else if a == new then some p else prev? h a)
  pub others : (a : Ptr) → a ≢ p → a ≢ q → a ≢ new → g a ≡ h a

-- `g` has `q` behind `p` and `e` on its own, and is `h` elsewhere.
pub record Unlinked (h : Heap) (e p q : Ptr) (g : Heap) : Type 0 where
  pub nexts :
      (a : Ptr) → next? g a ≡ (if a == e then some e else if a == p then some q else next? h a)
  pub prevs :
      (a : Ptr) → prev? g a ≡ (if a == e then some e else if a == q then some p else prev? h a)
  pub others : (a : Ptr) → a ≢ p → a ≢ q → a ≢ e → g a ≡ h a

abbrev pub Mapped : Heap → Ptr → Type 0
Mapped h p = (c : ListHead) × (h p ≡ some c)

pub Mapped-of_next : (h : Heap) (p : Ptr) {q : Ptr} → next? h p ≡ some q → Mapped h p
Mapped-of_next h p e = ground arith

pub Mapped-of_prev : (h : Heap) (p : Ptr) {q : Ptr} → prev? h p ≡ some q → Mapped h p
Mapped-of_prev h p e = ground arith

-- What a write of one field does.
record NextSet (h : Heap) (p q : Ptr) (g : Heap) : Type 0 where
  nexts : (a : Ptr) → next? g a ≡ (if a == p then some q else next? h a)
  prevs : (a : Ptr) → prev? g a ≡ prev? h a
  others : (a : Ptr) → a ≢ p → g a ≡ h a
  mapped : (a : Ptr) → Mapped h a → Mapped g a

record PrevSet (h : Heap) (p q : Ptr) (g : Heap) : Type 0 where
  nexts : (a : Ptr) → next? g a ≡ next? h a
  prevs : (a : Ptr) → prev? g a ≡ (if a == p then some q else prev? h a)
  others : (a : Ptr) → a ≢ p → g a ≡ h a
  mapped : (a : Ptr) → Mapped h a → Mapped g a

pub load-ok : (h : Heap) (p : Ptr) {c : ListHead} → h p ≡ some c → load p h ≡ ok (c, h)
unfolding load
load-ok h p at_p = rw (at_p, load)

module _ (h : Heap) (p : Ptr) (c : ListHead) (a : Ptr) where
  write-hit : (a == p) ≡ true → write h p c a ≡ some c
  unfolding write
  write-hit e = rw e

  write-miss : (a == p) ≡ false → write h p c a ≡ h a
  unfolding write
  write-miss e = rw e

  next?-write : next? (write h p c) a ≡ (if a == p then some c.next else next? h a)
  next?-write = elim (Bool-cases (a == p)) [
    | inl same ↦ ground (arith, write-hit same)
    | inr other ↦ ground (arith, write-miss other)
  ]

  prev?-write : prev? (write h p c) a ≡ (if a == p then some c.prev else prev? h a)
  prev?-write = elim (Bool-cases (a == p)) [
    | inl same ↦ ground (arith, write-hit same)
    | inr other ↦ ground (arith, write-miss other)
  ]

  write-ne : a ≢ p → write h p c a ≡ h a
  write-ne ne = write-miss (ground arith)

write-Mapped : (h : Heap) (p : Ptr) (c : ListHead) (a : Ptr) → Mapped h a → Mapped (write h p c) a
unfolding write
write-Mapped h p c a (d, e) = elim (Bool-cases (a == p)) [
  | inl same ↦ (c, rw same)
  | inr other ↦ (d, rw other e)
]

set_next-NextSet :
    (h : Heap) (p q : Ptr) → Mapped h p → Returns (λ r. NextSet h p q r.1) (set_next p q h)
unfolding set_next
set_next-NextSet h p q (c, at_p) = rw (load-ok h p at_p) (
    let d = record c { next = q } in
    returns (record {
      nexts = next?-write h p d;
      prevs = λ a. ground (arith, prev?-write h p d a);
      others = write-ne h p d;
      mapped = write-Mapped h p d;
    }))

set_prev-PrevSet :
    (h : Heap) (p q : Ptr) → Mapped h p → Returns (λ r. PrevSet h p q r.1) (set_prev p q h)
unfolding set_prev
set_prev-PrevSet h p q (c, at_p) = rw (load-ok h p at_p) (
    let d = record c { prev = q } in
    returns (record {
      nexts = λ a. ground (arith, next?-write h p d a);
      prevs = prev?-write h p d;
      others = write-ne h p d;
      mapped = write-Mapped h p d;
    }))

pub splice-Spliced :
    (h : Heap) (new p q : Ptr)
    → Mapped h p
    → Mapped h q
    → Mapped h new
    → new ≢ p
    → new ≢ q
    → Returns (λ r. Spliced h new p q r.1) (splice new p q h)
unfolding splice
splice-Spliced h new p q mp mq mn np nq = Returns-then (set_prev-PrevSet h q new mq) λ _ h₁ e₁.
    Returns-then (set_next-NextSet h₁ new q (e₁.mapped new mn)) λ _ h₂ e₂.
      Returns-then (set_prev-PrevSet h₂ new p (e₂.mapped new (e₁.mapped new mn))) λ _ h₃ e₃.
        Returns-map (set_next-NextSet h₃ p new (e₃.mapped p (e₂.mapped p (e₁.mapped p mp)))) λ r e₄.
          record {
            nexts = λ a. ground (arith, e₁.nexts a, e₂.nexts a, e₃.nexts a, e₄.nexts a);
            prevs = λ a. ground (arith, e₁.prevs a, e₂.prevs a, e₃.prevs a, e₄.prevs a);
            others = λ a ne_p ne_q ne_new.
                ground (
                  arith,
                  e₁.others a ne_q,
                  e₂.others a ne_new,
                  e₃.others a ne_new,
                  e₄.others a ne_p,
                );
          }

pub init-Mapped :
    (h : Heap) (e : Ptr)
    → Mapped h e
    → Returns
        (λ r.
          ((a : Ptr) → next? r.1 a ≡ (if a == e then some e else next? h a))
          × ((a : Ptr) → prev? r.1 a ≡ (if a == e then some e else prev? h a))
          × ((a : Ptr) → a ≢ e → r.1 a ≡ h a))
        (init_list_head e h)
unfolding init_list_head
init-Mapped h e m = Returns-then (set_next-NextSet h e e m) λ _ h₁ e₁.
    Returns-map (set_prev-PrevSet h₁ e e (e₁.mapped e m)) λ r e₂. (
      λ a. ground (arith, e₁.nexts a, e₂.nexts a),
      λ a. ground (arith, e₁.prevs a, e₂.prevs a),
      λ a ne. ground (arith, e₁.others a ne, e₂.others a ne),
    )

record Bridged (h : Heap) (p q : Ptr) (g : Heap) : Type 0 where
  nexts : (a : Ptr) → next? g a ≡ (if a == p then some q else next? h a)
  prevs : (a : Ptr) → prev? g a ≡ (if a == q then some p else prev? h a)
  others : (a : Ptr) → a ≢ p → a ≢ q → g a ≡ h a
  mapped : (a : Ptr) → Mapped h a → Mapped g a

unlink-Bridged :
    (h : Heap) (p q : Ptr)
    → Mapped h p
    → Mapped h q
    → Returns (λ r. Bridged h p q r.1) (unlink p q h)
unfolding unlink
unlink-Bridged h p q mp mq = Returns-then (set_prev-PrevSet h q p mq) λ _ h₁ e₁.
    Returns-map (set_next-NextSet h₁ p q (e₁.mapped p mp)) λ r e₂. record {
      nexts = λ a. ground (arith, e₁.nexts a, e₂.nexts a);
      prevs = λ a. ground (arith, e₁.prevs a, e₂.prevs a);
      others = λ a ne_p ne_q. ground (arith, e₁.others a ne_q, e₂.others a ne_p);
      mapped = λ a m. e₂.mapped a (e₁.mapped a m);
    }

pub list_del_init-Unlinked :
    (h : Heap) (e p q : Ptr)
    → Link h p e
    → Link h e q
    → Returns (λ r. Unlinked h e p q r.1) (list_del_init e h)
unfolding list_del_init
list_del_init-Unlinked h e p q before after =
    let me = Mapped-of_next h e after.0 in
    let mp = Mapped-of_next h p before.0 in
    let mq = Mapped-of_prev h q after.1 in
    let at_p : me.0.prev ≡ p = ground arith in
    let at_q : me.0.next ≡ q = ground arith in
    rw (load-ok h e me.1, at_p, at_q)
      (Returns-then (unlink-Bridged h p q mp mq) λ _ g b.
        Returns-map (init-Mapped g e (b.mapped e me)) λ r (nexts, prevs, others). record {
          nexts = λ a. ground (arith, b.nexts a, nexts a);
          prevs = λ a. ground (arith, b.prevs a, prevs a);
          others = λ a ne_p ne_q ne. ground (arith, b.others a ne_p ne_q, others a ne);
        })
