-- ===== src/Str.antt =====
-- src/str.c and inc/ac/str.h. A string is the list of its bytes, each below 256; a `char` at or above
-- 128 is negative in the source, which no test of the source tells from another unprintable one.
pub mod Laws
use Prim.Native.Char.{code}
use Prim.Native.String.{String}
use aurora_comms.Base.{
  ℕ, ◌+◌, ◌*◌, ◌%◌, ◌^◌, Bool, true, false, ◌&&◌, List, [], ◌∷◌, leb, ◌==◌, if◌then◌else◌, length,
  bit_xor,
}

abbrev pub Str : Type 0
Str = List ℕ

-- The bytes of an ASCII literal.
abbrev pub codes : String → Str
codes String.[] = []
codes (String.◌∷◌ c s) = code c ∷ codes s

abbrev pub fnv_offset : ℕ
fnv_offset = 14695981039346656037

abbrev pub fnv_prime : ℕ
fnv_prime = 1099511628211

-- The loop over the bytes, with the hash so far.
unfoldable pub hash_loop : ℕ → Str → ℕ
hash_loop hash [] = hash
hash_loop hash (c ∷ key) = hash_loop (bit_xor hash c * fnv_prime % 2 ^ 64) key

unfoldable pub string_hash : Str → ℕ
string_hash key = hash_loop fnv_offset key

-- `memcmp(a, b, n) == 0` for the first bytes of both.
unfoldable pub memcmp_zero : Str → Str → Bool
memcmp_zero [] b = true
memcmp_zero (x ∷ a) [] = true
memcmp_zero (x ∷ a) (y ∷ b) = x == y && memcmp_zero a b

unfoldable pub string_eq : Str → Str → Bool
string_eq a b = length a == length b && memcmp_zero a b

-- `tolower` in the C locale.
unfoldable pub tolower : ℕ → ℕ
tolower c = if leb b'A' c && leb c b'Z' then c + 32 else c

-- The loop over the positions of both strings.
unfoldable pub same_letters : Str → Str → Bool
same_letters [] b = true
same_letters (x ∷ a) [] = true
same_letters (x ∷ a) (y ∷ b) = if tolower x == tolower y then same_letters a b else false

unfoldable pub string_eq_ignore_case : Str → Str → Bool
string_eq_ignore_case a b = if length a == length b then same_letters a b else false
