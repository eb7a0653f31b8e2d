-- ===== src/Line/Names.antt =====
-- `ac_validate_username` and `ac_is_command` of src/io.c.
use aurora_comms.Base.{ℕ, ◌≤◌, ◌≡◌, ◌↔◌, ◌⊎◌, refl, true, false, [], ◌∷◌, arith, length, All}
use aurora_comms.Str.{Str}
use aurora_comms.Line.{is_name_char, all_name_chars, validate_username, is_command, command_prefix}

-- A letter, a digit or an underscore.
abbrev pub IsNameChar : ℕ → Type 0
IsNameChar c =
    ((b'a' ≤ c) × (c ≤ b'z')) ⊎ ((b'A' ≤ c) × (c ≤ b'Z')) ⊎ ((b'0' ≤ c) × (c ≤ b'9')) ⊎ (c ≡ b'_')

is_name_char_iff : (c : ℕ) → (is_name_char c ≡ true) ↔ IsNameChar c
unfolding is_name_char
is_name_char_iff c = (λ h. ground arith, λ h. ground arith)

all_name_chars_iff : (s : Str) → (all_name_chars s ≡ true) ↔ All IsNameChar s
unfolding all_name_chars
all_name_chars_iff [] = (λ h. tt, λ h. refl)
all_name_chars_iff (c ∷ s) =
    let head = is_name_char_iff c in
    let rest = all_name_chars_iff s in
    (
      λ h. (head.0 (ground arith), rest.0 (ground arith)),
      λ h. ground (arith, head.1 h.0, rest.1 h.1),
    )

-- A user name is accepted exactly if it has 2 to 16 characters, each a letter, a digit or an
-- underscore.
pub validate_username_iff :
    (s : Str) → (validate_username s ≡ true) ↔ ((2 ≤ length s) × (length s ≤ 16) × All IsNameChar s)
unfolding validate_username
validate_username_iff s =
    let chars = all_name_chars_iff s in
    (λ h. (ground arith, ground arith, chars.0 (ground arith)), λ h. ground (arith, chars.1 h.2))

-- A line is a command exactly if it begins with the prefix.
pub is_command_iff :
    (line : Str) → (is_command line ≡ true) ↔ ((rest : Str) × (line ≡ command_prefix ∷ rest))
unfolding is_command
is_command_iff [] = (λ h. absurd (false_true h), λ h. absurd (ground (arith, h.1)))
  where
    false_true : false ≡ true → ⊥
    false_true h = cc
is_command_iff (c ∷ s) = (λ h. (s, ground arith), λ h. ground (arith, h.1))
