-- ===== src/Common.antt =====
-- The macros of include/common.h that the modelled code uses.
use common_project_template.Base.{
  ℕ, ◌+◌, ◌-◌, ◌/◌, ◌%◌, ◌^◌, List, [], ◌∷◌, ltb, leb, if◌then◌else◌, bit_and,
}

-- `MSG`: a line is printed if its level is at least `control_msg_level`, which `get_options` keeps
-- between 0 and 3.
unfoldable pub msg {ℓ} : {A : Type ℓ} → (control_msg_level level : ℕ) → A → List A
msg control_msg_level level line = if leb control_msg_level level then line ∷ [] else []

-- `min`
abbrev pub min_of : ℕ → ℕ → ℕ
min_of a b = if ltb a b then a else b

-- `BITS_PER_LONG`, for a `long` of 8 bytes.
abbrev pub bits_per_long : ℕ
bits_per_long = 64

-- `DIV_ROUND_UP` at `unsigned long`, which wraps.
abbrev pub div_round_up : ℕ → ℕ → ℕ
div_round_up n d = (n + d + 2 ^ 64 - 1) % 2 ^ 64 / d

-- `__round_mask` and `round_down` at `unsigned long`.
abbrev pub round_mask : ℕ → ℕ
round_mask y = y - 1

abbrev pub round_down : ℕ → ℕ → ℕ
round_down x y = bit_and x (2 ^ 64 - 1 - round_mask y)

-- `container_of` and `&ptr->member`: pointers are 64 bits wide, `offset` is `offsetof(type, member)`.
abbrev pub container_of : (offset : ℕ) → (ptr : ℕ) → ℕ
container_of offset ptr = (ptr + 2 ^ 64 - offset) % 2 ^ 64

abbrev pub member : (offset : ℕ) → (ptr : ℕ) → ℕ
member offset ptr = (ptr + offset) % 2 ^ 64
