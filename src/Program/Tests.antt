-- ===== src/Program/Tests.antt =====
-- Runs of the option handling, and the theorems there.
use common_project_template.Base.{
  Option, none, some, ◌+◌, ◌^◌, ◌≡◌, ◌==◌, refl, true, false, List, [], ◌∷◌, arith, if◌then◌else◌,
}
use common_project_template.Common.{msg}
use common_project_template.Program.{
  Arg, log_level, version, Parsed, Outcome, runs, get_options, main,
}
use common_project_template.Program.Options.{
  last_level, AreLevels, get_options-runs, get_options-inv,
}

-- A string is the number that it stands for; 99 stands for one without digits.
abbrev strtol : Arg → Parsed
strtol optarg = record {
  value = optarg;
  some_digits = if optarg == 99 then false else true;
  at_end = true;
}

-- There is no memory for the copy of 13.
abbrev strdup : Arg → Option Arg
strdup target = if target == 13 then none else some target

uncopied : get_options strtol strdup (13 ∷ []) 0 [] ≡ Outcome.no_target
unfolding get_options
uncopied = refl

refused : get_options strtol strdup (7 ∷ []) 0 (log_level 4 ∷ []) ≡ Outcome.bad_level
unfolding get_options
refused = refl

shown :
    get_options strtol strdup [] 0 (log_level 2 ∷ version ∷ log_level 9 ∷ [])
    ≡ Outcome.shows_version
unfolding get_options
shown = refl

-- The `long` 2 ^ 32 + 1 is taken for the level 1.
truncated : get_options strtol strdup (7 ∷ []) 0 (log_level (2 ^ 32 + 1) ∷ []) ≡ runs 1 7
unfolding get_options
truncated = refl

printed_at_level_0 : main strtol strdup (7 ∷ []) [] ≡ (runs 0 7, 7 ∷ [])
unfolding main msg
printed_at_level_0 = refl

get_options-runs_example :
    get_options strtol strdup (7 ∷ []) 0 (log_level 2 ∷ log_level 1 ∷ [])
    ≡ runs (last_level strtol 0 (log_level 2 ∷ log_level 1 ∷ [])) 7
get_options-runs_example =
    get_options-runs strtol strdup 7 7 [] 0 (log_level 2 ∷ log_level 1 ∷ [])
      ((refl, refl, omega arith), ((refl, refl, omega arith), tt)) refl

get_options-inv_example :
    AreLevels strtol (log_level 2 ∷ [])
    × (last_level strtol 0 (log_level 2 ∷ []) ≡ 2)
    × ((first : Arg) × (others : List Arg) × ((7 ∷ []) ≡ first ∷ others) × (strdup first ≡ some 7))
unfolding get_options
get_options-inv_example = get_options-inv strtol strdup (7 ∷ []) 0 (log_level 2 ∷ []) 2 7 refl
