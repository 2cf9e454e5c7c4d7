-- ===== src/Program/Options.antt =====
-- What get_options accepts.
use common_project_template.Base.{
  ℕ, Option, none, some, ◌≤◌, ◌≡◌, refl, Bool, true, false, List, [], ◌∷◌, arith, Bool-cases, inl,
  inr, ap,
}
use common_project_template.Program.{
  Arg, Opt, log_level, version, help, Parsed, Outcome, runs, bad_level, no_target, shows_version,
  shows_usage, with_target, to_int, is_bad, take_target, get_options,
}

-- The level of the last `-l`, or the one before the options.
pub last_level : (Arg → Parsed) → ℕ → List Opt → ℕ
last_level strtol level [] = level
last_level strtol level (log_level optarg ∷ opts) =
    last_level strtol (to_int (strtol optarg).value) opts
last_level strtol level (version ∷ opts) = level
last_level strtol level (help ∷ opts) = level

-- Each option is read in full by strtol, as a `long` that cut to an `int` is between 0 and 3.
abbrev pub AreLevels : (Arg → Parsed) → List Opt → Type 0
AreLevels strtol [] = Unit
AreLevels strtol (log_level optarg ∷ opts) =
    (let parsed = strtol optarg in
      (parsed.at_end ≡ true) × (parsed.some_digits ≡ true) × (to_int parsed.value ≤ 3))
    × AreLevels strtol opts
AreLevels strtol (version ∷ opts) = ⊥
AreLevels strtol (help ∷ opts) = ⊥

not_bad :
    (parsed : Parsed)
    → parsed.at_end ≡ true
    → parsed.some_digits ≡ true
    → to_int parsed.value ≤ 3
    → is_bad parsed ≡ false
unfolding is_bad
not_bad parsed a b c = ground arith

is_bad-inv :
    (parsed : Parsed)
    → is_bad parsed ≡ false
    → (parsed.at_end ≡ true) × (parsed.some_digits ≡ true) × (to_int parsed.value ≤ 3)
unfolding is_bad
is_bad-inv parsed e = (ground arith, ground arith, ground arith)

abbrev level_of : Outcome → ℕ
level_of (runs level target) = level
level_of bad_level = 0
level_of no_target = 0
level_of shows_version = 0
level_of shows_usage = 0

abbrev target_of : Outcome → Arg
target_of (runs level target) = target
target_of bad_level = 0
target_of no_target = 0
target_of shows_version = 0
target_of shows_usage = 0

abbrev is_running : Outcome → Bool
is_running (runs level target) = true
is_running bad_level = false
is_running no_target = false
is_running shows_version = false
is_running shows_usage = false

with_target-inv :
    (level : ℕ) (copy : Option Arg) (set : ℕ) (target : Arg)
    → with_target level copy ≡ runs set target
    → (level ≡ set) × (copy ≡ some target)
with_target-inv level none set target e = absurd (ground (arith, ap is_running e))
with_target-inv level (some copy) set target e = (ap level_of e, ap (λ o. some (target_of o)) e)

module _ (strtol : Arg → Parsed) (strdup : Arg → Option Arg) where
  -- Where strtol reads every option in full, as a `long` that cut to an `int` is a level between 0 and 3,
  -- and strdup gives a copy of the first other argument, get_options returns 0 with the last level
  -- and that copy.
  pub get_options-runs :
      (first target : Arg) (others : List Arg) (level : ℕ) (opts : List Opt)
      → AreLevels strtol opts
      → strdup first ≡ some target
      → get_options strtol strdup (first ∷ others) level opts
        ≡ runs (last_level strtol level opts) target
  unfolding get_options last_level take_target
  get_options-runs first target others level [] good copied = rw copied refl
  get_options-runs first target others level (log_level optarg ∷ opts) (fine, good) copied =
      rw (not_bad (strtol optarg) fine.0 fine.1 fine.2)
        (get_options-runs first target others (to_int (strtol optarg).value) opts good copied)
  get_options-runs first target others level (version ∷ opts) good copied = elim good [ ]
  get_options-runs first target others level (help ∷ opts) good copied = elim good [ ]

  -- get_options returns 0 only where strtol reads every option in full, as a `long` that cut to an
  -- `int` is a level between 0 and 3, with the last of these levels and the copy that strdup gives
  -- of the first other argument.
  pub get_options-inv :
      (arguments : List Arg) (level : ℕ) (opts : List Opt) (set : ℕ) (target : Arg)
      → get_options strtol strdup arguments level opts ≡ runs set target
      → AreLevels strtol opts
        × (last_level strtol level opts ≡ set)
        × ((first : Arg) × (others : List Arg) × (arguments ≡ first ∷ others)
            × (strdup first ≡ some target))
  unfolding get_options last_level take_target
  get_options-inv [] level [] set target e = absurd (ground (arith, ap is_running e))
  get_options-inv (first ∷ others) level [] set target e =
      let (level_is, copied) = with_target-inv level (strdup first) set target e in
      (tt, level_is, (first, others, refl, copied))
  get_options-inv arguments level (version ∷ opts) set target e =
      absurd (ground (arith, ap is_running e))
  get_options-inv arguments level (help ∷ opts) set target e =
      absurd (ground (arith, ap is_running e))
  get_options-inv arguments level (log_level optarg ∷ opts) set target e =
      elim (Bool-cases (is_bad (strtol optarg))) [
        | inl bad ↦
            let e' : Outcome.bad_level ≡ runs set target = rw bad at e in
            absurd (ground (arith, ap is_running e'))
        | inr good ↦
            let next : get_options strtol strdup arguments (to_int (strtol optarg).value) opts
                ≡ runs set target =
              rw good at e in
            let (levels, last, first) =
              get_options-inv arguments (to_int (strtol optarg).value) opts set target next in
            ((is_bad-inv (strtol optarg) good, levels), last, first)
      ]
