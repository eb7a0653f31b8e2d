-- ===== src/Literal.antt =====
-- Arrays from string literals: the table of byte literals of inc/ac/hex.h, and `ac_literal` and
-- `ac_arr_from_string_literal` of inc/ac/meta.h for a `size_t` of 8 bytes in little-endian order.
use aurora_comms.Base.{
  ℕ, zero, suc, ◌+◌, ◌*◌, ◌<◌, ◌≡◌, refl, ap, Bool, true, false, ◌&&◌, [], ◌∷◌, ◌++◌, Option, none,
  some, arith, ◌==◌, ==_iff, length, get_elem?, drop,
}
use aurora_comms.Str.{Str}

-- The macros `AC_HEX_0` to `AC_HEX_255` in their order: the byte of each literal.
abbrev hex_low : Str
hex_low =
    0x00 ∷ 0x01 ∷ 0x02 ∷ 0x03 ∷ 0x04 ∷ 0x05 ∷ 0x06 ∷ 0x07 ∷ 0x08 ∷ 0x09 ∷ 0x0a ∷ 0x0b ∷ 0x0c ∷ 0x0d
    ∷ 0x0e ∷ 0x0f ∷ 0x10 ∷ 0x11 ∷ 0x12 ∷ 0x13 ∷ 0x14 ∷ 0x15 ∷ 0x16 ∷ 0x17 ∷ 0x18 ∷ 0x19 ∷ 0x1a
    ∷ 0x1b ∷ 0x1c ∷ 0x1d ∷ 0x1e ∷ 0x1f ∷ 0x20 ∷ 0x21 ∷ 0x22 ∷ 0x23 ∷ 0x24 ∷ 0x25 ∷ 0x26 ∷ 0x27
    ∷ 0x28 ∷ 0x29 ∷ 0x2a ∷ 0x2b ∷ 0x2c ∷ 0x2d ∷ 0x2e ∷ 0x2f ∷ 0x30 ∷ 0x31 ∷ 0x32 ∷ 0x33 ∷ 0x34
    ∷ 0x35 ∷ 0x36 ∷ 0x37 ∷ 0x38 ∷ 0x39 ∷ 0x3a ∷ 0x3b ∷ 0x3c ∷ 0x3d ∷ 0x3e ∷ 0x3f ∷ 0x40 ∷ 0x41
    ∷ 0x42 ∷ 0x43 ∷ 0x44 ∷ 0x45 ∷ 0x46 ∷ 0x47 ∷ 0x48 ∷ 0x49 ∷ 0x4a ∷ 0x4b ∷ 0x4c ∷ 0x4d ∷ 0x4e
    ∷ 0x4f ∷ 0x50 ∷ 0x51 ∷ 0x52 ∷ 0x53 ∷ 0x54 ∷ 0x55 ∷ 0x56 ∷ 0x57 ∷ 0x58 ∷ 0x59 ∷ 0x5a ∷ 0x5b
    ∷ 0x5c ∷ 0x5d ∷ 0x5e ∷ 0x5f ∷ 0x60 ∷ 0x61 ∷ 0x62 ∷ 0x63 ∷ 0x64 ∷ 0x65 ∷ 0x66 ∷ 0x67 ∷ 0x68
    ∷ 0x69 ∷ 0x6a ∷ 0x6b ∷ 0x6c ∷ 0x6d ∷ 0x6e ∷ 0x6f ∷ 0x70 ∷ 0x71 ∷ 0x72 ∷ 0x73 ∷ 0x74 ∷ 0x75
    ∷ 0x76 ∷ 0x77 ∷ 0x78 ∷ 0x79 ∷ 0x7a ∷ 0x7b ∷ 0x7c ∷ 0x7d ∷ 0x7e ∷ 0x7f ∷ []

abbrev hex_high : Str
hex_high =
    0x80 ∷ 0x81 ∷ 0x82 ∷ 0x83 ∷ 0x84 ∷ 0x85 ∷ 0x86 ∷ 0x87 ∷ 0x88 ∷ 0x89 ∷ 0x8a ∷ 0x8b ∷ 0x8c ∷ 0x8d
    ∷ 0x8e ∷ 0x8f ∷ 0x90 ∷ 0x91 ∷ 0x92 ∷ 0x93 ∷ 0x94 ∷ 0x95 ∷ 0x96 ∷ 0x97 ∷ 0x98 ∷ 0x99 ∷ 0x9a
    ∷ 0x9b ∷ 0x9c ∷ 0x9d ∷ 0x9e ∷ 0x9f ∷ 0xa0 ∷ 0xa1 ∷ 0xa2 ∷ 0xa3 ∷ 0xa4 ∷ 0xa5 ∷ 0xa6 ∷ 0xa7
    ∷ 0xa8 ∷ 0xa9 ∷ 0xaa ∷ 0xab ∷ 0xac ∷ 0xad ∷ 0xae ∷ 0xaf ∷ 0xb0 ∷ 0xb1 ∷ 0xb2 ∷ 0xb3 ∷ 0xb4
    ∷ 0xb5 ∷ 0xb6 ∷ 0xb7 ∷ 0xb8 ∷ 0xb9 ∷ 0xba ∷ 0xbb ∷ 0xbc ∷ 0xbd ∷ 0xbe ∷ 0xbf ∷ 0xc0 ∷ 0xc1
    ∷ 0xc2 ∷ 0xc3 ∷ 0xc4 ∷ 0xc5 ∷ 0xc6 ∷ 0xc7 ∷ 0xc8 ∷ 0xc9 ∷ 0xca ∷ 0xcb ∷ 0xcc ∷ 0xcd ∷ 0xce
    ∷ 0xcf ∷ 0xd0 ∷ 0xd1 ∷ 0xd2 ∷ 0xd3 ∷ 0xd4 ∷ 0xd5 ∷ 0xd6 ∷ 0xd7 ∷ 0xd8 ∷ 0xd9 ∷ 0xda ∷ 0xdb
    ∷ 0xdc ∷ 0xdd ∷ 0xde ∷ 0xdf ∷ 0xe0 ∷ 0xe1 ∷ 0xe2 ∷ 0xe3 ∷ 0xe4 ∷ 0xe5 ∷ 0xe6 ∷ 0xe7 ∷ 0xe8
    ∷ 0xe9 ∷ 0xea ∷ 0xeb ∷ 0xec ∷ 0xed ∷ 0xee ∷ 0xef ∷ 0xf0 ∷ 0xf1 ∷ 0xf2 ∷ 0xf3 ∷ 0xf4 ∷ 0xf5
    ∷ 0xf6 ∷ 0xf7 ∷ 0xf8 ∷ 0xf9 ∷ 0xfa ∷ 0xfb ∷ 0xfc ∷ 0xfd ∷ 0xfe ∷ 0xff ∷ []

abbrev pub hex : ℕ → Option ℕ
hex n = get_elem? (hex_low ++ hex_high) n

-- `AC_ZEROES` for 8 bytes.
abbrev pub zeroes : Str
zeroes = 0 ∷ 0 ∷ 0 ∷ 0 ∷ 0 ∷ 0 ∷ []

-- `ac_literal(LO, HI)`: the two macros must exist.
unfoldable pub literal : ℕ → ℕ → Option Str
literal lo hi = elim (hex lo) [
  | none ↦ none
  | some a ↦ elim (hex hi) [ none ↦ none | some b ↦ some (a ∷ b ∷ zeroes) ]
]

-- The memory of the array: length, capacity, and then the text. The static assertion compares the
-- length of the text with the two bytes.
unfoldable pub from_string_literal : Str → ℕ → ℕ → Option Str
from_string_literal text lo hi = elim (length text == hi * 256 + lo) [
  | false ↦ none
  | true ↦ elim (literal lo hi) [ none ↦ none | some w ↦ some (w ++ (w ++ text)) ]
]

-- A `size_t` in memory, the lowest byte first.
unfoldable pub read_size : ℕ → Str → ℕ
read_size zero s = 0
read_size (suc n) [] = 0
read_size (suc n) (c ∷ s) = c + 256 * read_size n s

-- The test passes for each number below the bound.
passes : (ℕ → Bool) → ℕ → Bool
passes test zero = true
passes test (suc bound) = test bound && passes test bound

passes_everywhere :
    (test : ℕ → Bool) (bound x : ℕ) → x < bound → passes test bound ≡ true → test x ≡ true
unfolding passes
passes_everywhere test zero x below h = absurd (omega arith)
passes_everywhere test (suc bound) x below h = ground (arith, passes_everywhere test bound x)

is_byte : Option ℕ → ℕ → Bool
is_byte none n = false
is_byte (some b) n = b == n

hex_table : passes (λ n. is_byte (hex n) n) 256 ≡ true
unfolding passes is_byte
hex_table = refl

is_byte_sound : (o : Option ℕ) (n : ℕ) → is_byte o n ≡ true → o ≡ some n
unfolding is_byte
is_byte_sound none n h = cc
is_byte_sound (some b) n h = ap some ((==_iff b n).0 h)

-- Each entry of the table is the byte of its number.
pub hex_lem : (n : ℕ) → n < 256 → hex n ≡ some n
hex_lem n h = is_byte_sound (hex n) n (passes_everywhere _ 256 n h hex_table)

literal_bytes : (lo hi : ℕ) → lo < 256 → hi < 256 → literal lo hi ≡ some (lo ∷ hi ∷ zeroes)
unfolding literal
literal_bytes lo hi hlo hhi = ground (arith, hex_lem lo hlo, hex_lem hi hhi)

-- An array from a literal, whose length is given right by two bytes, has that length, that capacity
-- and the text of the literal.
pub from_string_literal_reads :
    (text : Str) (lo hi : ℕ)
    → lo < 256
    → hi < 256
    → length text ≡ hi * 256 + lo
    → (memory : Str) × (from_string_literal text lo hi ≡ some memory)
      × (read_size 8 memory ≡ length text)
      × (read_size 8 (drop 8 memory) ≡ length text)
      × (drop 16 memory ≡ text)
unfolding from_string_literal read_size
from_string_literal_reads text lo hi hlo hhi e =
    let made = literal_bytes lo hi hlo hhi in
    (
      (lo ∷ hi ∷ zeroes) ++ ((lo ∷ hi ∷ zeroes) ++ text),
      rw ((==_iff (length text) (hi * 256 + lo)).1 e, from_string_literal, made),
      omega arith,
      omega arith,
      refl,
    )
