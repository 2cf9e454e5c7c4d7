-- ===== src/Program.antt =====
-- src/main.c: the options of the program. What getopt_long, strtol and strdup give is a parameter.
pub mod Options
mod Tests
use common_project_template.Base.{
  ℕ, Option, none, some, ◌%◌, ◌^◌, Bool, true, false, not, ◌||◌, List, [], ◌∷◌, ltb, if◌then◌else◌,
}
use common_project_template.Common.{msg}

-- A string of the command line.
abbrev pub Arg : Type 0
Arg = ℕ

-- A result of getopt_long, other than the -1 at the end: 'l' with `optarg`, 'V', or any other.
pub data Opt : Type 0 where
  log_level : Arg → Opt
  version help : Opt

-- What strtol tells of a string: the `long`, as its 64 bits, whether `endp` is behind the start, and
-- whether it is at the end.
pub record Parsed : Type 0 where
  pub value : ℕ
  pub some_digits : Bool
  pub at_end : Bool

-- How `get_options` ends: it returns 0 with `control_msg_level` and `target`, returns -1, or exits.
pub data Outcome : Type 0 where
  runs : (control_msg_level : ℕ) → (target : Arg) → Outcome
  bad_level no_target shows_version shows_usage : Outcome

-- The `int` that a `long` becomes, as its 32 bits.
abbrev pub to_int : ℕ → ℕ
to_int value = value % 2 ^ 32

-- `level < 0 || level > 3`, of an `int`.
abbrev pub is_negative : ℕ → Bool
is_negative level = not (ltb level (2 ^ 31))

pub is_bad : Parsed → Bool
is_bad parsed =
    not parsed.at_end
    || not parsed.some_digits
    || is_negative (to_int parsed.value)
    || ltb 3 (to_int parsed.value)

-- The target that `main` prints when `get_options` has returned 0.
pub printed : Outcome → List Arg
printed (runs level target) = msg level 0 target
printed bad_level = []
printed no_target = []
printed shows_version = []
printed shows_usage = []

-- The end of `get_options`, with `target`, if it is not NULL.
abbrev pub with_target : (control_msg_level : ℕ) → Option Arg → Outcome
with_target level none = no_target
with_target level (some target) = runs level target

-- `strdup` gives the copy of a string, or NULL where there is no memory.
module _ (strtol : Arg → Parsed) (strdup : Arg → Option Arg) (arguments : List Arg) where
  -- `argv` from `optind` on is `arguments`.
  pub take_target : (control_msg_level : ℕ) → Outcome
  take_target level =
      with_target level (elim arguments [ [] ↦ none | first ∷ others ↦ strdup first ])

  pub get_options : (control_msg_level : ℕ) → List Opt → Outcome
  unfolding is_bad take_target
  get_options level [] = take_target level
  get_options level (log_level optarg ∷ opts) =
      let rest = get_options (to_int (strtol optarg).value) opts in
      if is_bad (strtol optarg) then bad_level else rest
  get_options level (version ∷ opts) = shows_version
  get_options level (help ∷ opts) = shows_usage

  -- How `main` ends, and the targets in the lines that it prints with MSG.
  pub main : List Opt → Outcome × List Arg
  unfolding get_options printed
  main opts = (get_options 0 opts, printed (get_options 0 opts))
