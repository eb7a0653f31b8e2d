-- ===== src/Str/Laws.antt =====
-- What the hash and the comparisons of src/str.c promise.
use aurora_comms.Base.{
  ℕ, ◌*◌, ◌%◌, ◌^◌, ◌<◌, ◌≡◌, ◌↔◌, refl, sym, ap, ◌∙◌, true, [], ◌∷◌, map, arith, bit_xor,
}
use aurora_comms.Key.{Key}
use aurora_comms.Str.{
  Str, fnv_offset, fnv_prime, hash_loop, string_hash, memcmp_zero, string_eq, tolower, same_letters,
  string_eq_ignore_case,
}

hash_loop-lt : (hash : ℕ) (key : Str) → hash < 2 ^ 64 → hash_loop hash key < 2 ^ 64
unfolding hash_loop
hash_loop-lt hash [] h = h
hash_loop-lt hash (c ∷ key) h = hash_loop-lt (bit_xor hash c * fnv_prime % 2 ^ 64) key (omega arith)

-- The hash of every key is a 64-bit number.
pub string_hash-lt : (key : Str) → string_hash key < 2 ^ 64
unfolding string_hash
string_hash-lt key = hash_loop-lt fnv_offset key (omega arith)

string_eq_sound : (a b : Str) → string_eq a b ≡ true → a ≡ b
unfolding string_eq memcmp_zero
string_eq_sound [] [] h = refl
string_eq_sound [] (y ∷ b) h = ground arith
string_eq_sound (x ∷ a) [] h = ground arith
string_eq_sound (x ∷ a) (y ∷ b) h = ground (arith, string_eq_sound a b)

string_eq_refl : (a : Str) → string_eq a a ≡ true
unfolding string_eq memcmp_zero
string_eq_refl [] = refl
string_eq_refl (x ∷ a) = ground (arith, string_eq_refl a)

-- `ac_string_eq` tells whether two strings have the same length and bytes.
pub string_eq_iff : (a b : Str) → (string_eq a b ≡ true) ↔ (a ≡ b)
string_eq_iff a b = (string_eq_sound a b, λ e. ap (string_eq a) (sym e) ∙ string_eq_refl a)

-- Strings as keys: the HASH and EQ that the program gives to its maps from strings.
instance abbrev pub string_key : Key Str
string_key = record { hash = string_hash; equal = string_eq; equal_iff = string_eq_iff }

ignore_case_sound : (a b : Str) → string_eq_ignore_case a b ≡ true → map tolower a ≡ map tolower b
unfolding string_eq_ignore_case same_letters
ignore_case_sound [] [] h = refl
ignore_case_sound [] (y ∷ b) h = ground arith
ignore_case_sound (x ∷ a) [] h = ground arith
ignore_case_sound (x ∷ a) (y ∷ b) h = ground (arith, ignore_case_sound a b)

ignore_case_complete :
    (a b : Str) → map tolower a ≡ map tolower b → string_eq_ignore_case a b ≡ true
unfolding string_eq_ignore_case same_letters
ignore_case_complete [] [] h = refl
ignore_case_complete [] (y ∷ b) h = cc
ignore_case_complete (x ∷ a) [] h = cc
ignore_case_complete (x ∷ a) (y ∷ b) h = ground (arith, ignore_case_complete a b)

-- `ac_string_eq_ignore_case` tells whether two strings are equal once all letters are lower case.
pub string_eq_ignore_case_iff :
    (a b : Str) → (string_eq_ignore_case a b ≡ true) ↔ (map tolower a ≡ map tolower b)
string_eq_ignore_case_iff a b = (ignore_case_sound a b, ignore_case_complete a b)
