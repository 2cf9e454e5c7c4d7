-- ===== src/Command.antt =====
-- Commands over a store: the value and the store that a call leaves, or a fault.
use common_project_template.Base.{Run, ok, fault, out_of_fuel, Returns, returns}

abbrev pub Command : Type 0 → Type 0 → Type 0
Command S A = S → Run (A × S)

module _ {S : Type 0} where
  abbrev pub pure : {A : Type 0} → A → Command S A
  pure a h = ok (a, h)

  -- What follows a command goes on from the store that it leaves.
  abbrev pub resume : {A B : Type 0} → Run (A × S) → (A → Command S B) → Run (B × S)
  resume r rest = elim r [
    | out_of_fuel ↦ out_of_fuel
    | fault ↦ fault
    | ok done ↦ rest done.0 done.1
  ]

  infixl 5 ◌>>=◌ ◌>>◌
  abbrev pub ◌>>=◌ : {A B : Type 0} → Command S A → (A → Command S B) → Command S B
  ◌>>=◌ c rest h = resume (c h) rest

  abbrev pub ◌>>◌ : {A B : Type 0} → Command S A → Command S B → Command S B
  ◌>>◌ c d h = resume (c h) (λ _. d)

  pub Returns-then :
      {A B : Type 0} {P : A × S → Type 0} {Q : B × S → Type 0} {m : Run (A × S)}
      {k : A → Command S B}
      → Returns P m
      → ((a : A) (h : S) → P (a, h) → Returns Q (k a h))
      → Returns Q (resume m k)
  Returns-then (returns {result = r} p) next = next r.0 r.1 p
