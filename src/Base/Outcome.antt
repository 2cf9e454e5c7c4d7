-- ===== src/Base/Outcome.antt =====
-- How a call of the C code ends: normally, by undefined behaviour (a bad pointer, an index out of
-- range, an overflow of `int`), or by the model's fuel running out.
use mathlib.Core.Path.{◌≡◌, refl}
use mathlib.Core.Bool.{Bool, true, false}
use mathlib.Core.Option.{Option, none, some}
use common_project_template.Base.Tests.{if◌then◌else◌}

pub data Run {ℓ} (A : Type ℓ) : Type ℓ where
  fault out_of_fuel : Run A
  ok : A → Run A

-- The call ends normally, with a result that satisfies `P`.
pub data Returns {ℓ κ} {A : Type ℓ} (P : A → Type κ) : Run A → Type (ℓ ⊔ κ) where
  returns : {result : A} → P result → Returns P (ok result)

-- The value of a read, a fault where there is none.
abbrev pub or_fault {ℓ} : {A : Type ℓ} → Option A → Run A
or_fault o = elim o [ some a ↦ ok a | none ↦ fault ]

infixl 5 ◌>>=◌
abbrev pub ◌>>=◌ {ℓ κ} : {A : Type ℓ} {B : Type κ} → Run A → (A → Run B) → Run B
r >>= rest = elim r [ fault ↦ fault | out_of_fuel ↦ out_of_fuel | ok result ↦ rest result ]

-- A test whose outcome each branch may use.
pub Returns-if {ℓ κ} :
    {A : Type ℓ} {P : A → Type κ} {r s : Run A} (test : Bool)
    → (test ≡ true → Returns P r)
    → (test ≡ false → Returns P s)
    → Returns P (if test then r else s)
Returns-if true holds fails = holds refl
Returns-if false holds fails = fails refl

pub Returns-inv {ℓ κ} :
    {A : Type ℓ} {P : A → Type κ} {r : Run A}
    → Returns P r
    → (result : A) × (r ≡ ok result) × P result
Returns-inv (returns h) = (_, refl, h)

module _ {ℓ κ ι} {A : Type ℓ} {P : A → Type κ} where
  pub Returns-map :
      {Q : A → Type ι} {r : Run A}
      → Returns P r
      → ((result : A) → P result → Q result)
      → Returns Q r
  Returns-map (returns h) implies = returns (implies _ h)

  pub Returns-bind {μ} :
      {B : Type μ} {Q : B → Type ι} {r : Run A} {rest : A → Run B}
      → Returns P r
      → ((result : A) → P result → Returns Q (rest result))
      → Returns Q (r >>= rest)
  Returns-bind (returns h) go_on = go_on _ h
