-- ===== src/Line.antt =====
-- The line discipline of src/io.c: finding, cleaning and consuming a line of input, and the tests of
-- a line. The arrays are lists here, and the removals keep their assertions.
pub mod Trim
pub mod Split
pub mod Names
use aurora_comms.Arr.{assert}
use aurora_comms.Base.{
  ℕ, zero, suc, ◌+◌, Bool, true, false, ◌&&◌, ◌||◌, not, List, [], ◌∷◌, ◌++◌, Option, none, some,
  leb, ltb, ◌==◌, if◌then◌else◌, length, get_or, take, drop, Exec, ok, ◌>>=◌, ◌>>◌,
}
use aurora_comms.Str.{Str}

unfoldable pub is_newline : ℕ → Bool
is_newline c = c == 0x0d || c == 0x0a

-- Whether there is a newline, and the number of bytes before the first, or of all bytes.
unfoldable pub has_complete_line : Str → Bool × ℕ
has_complete_line [] = (false, 0)
has_complete_line (c ∷ input) =
    let (found, len) = has_complete_line input in
    if is_newline c then (true, 0) else (found, suc len)

-- `ac_arr_remove_n` on the list of the elements.
unfoldable pub remove_n : Str → ℕ → ℕ → Exec Str
remove_n s i n = do
  assert (ltb i (length s))
  assert (leb (i + n) (length s))
  ok (take i s ++ drop (i + n) s)

-- The number of leading spaces.
unfoldable pub trim_start : Str → ℕ
trim_start [] = 0
trim_start (c ∷ s) = if c == b' ' then suc (trim_start s) else 0

-- The end of the text before the trailing spaces, from `end` downwards.
unfoldable pub trim_end : Str → ℕ → ℕ
trim_end s zero = 0
trim_end s (suc end) = if get_or s end 0 == b' ' then trim_end s end else suc end

unfoldable pub trim_whitespace : Str → Exec Str
trim_whitespace s =
    if length s == 0
    then ok s
    else if trim_start s == length s
    then ok []
    else remove_n s 0 (trim_start s) >>= λ t. ok (take (trim_end t (length t)) t)

unfoldable pub is_printable : ℕ → Bool
is_printable c = leb 0x20 c && leb c 0x7e

-- The bytes before the newline that are printable.
unfoldable pub printable : Str → Str
printable [] = []
printable (c ∷ s) = if is_printable c then c ∷ printable s else printable s

-- The number of leading newline characters.
unfoldable pub count_newlines : Str → ℕ
count_newlines [] = 0
count_newlines (c ∷ s) = if is_newline c then suc (count_newlines s) else 0

-- The line and what is left of the input, or `none` where no line is complete.
unfoldable pub get_line : Str → Str → Exec (Option (Str × Str))
get_line line input =
    let (found, len) = has_complete_line input in
    if found
    then (do
      let raw = line ++ printable (take len input)
      rest ← remove_n input 0 (len + count_newlines (drop len input))
      clean ← trim_whitespace raw
      ok (some (clean, rest)))
    else ok none

unfoldable pub is_name_char : ℕ → Bool
is_name_char c =
    (leb b'a' c && leb c b'z')
    || (leb b'A' c && leb c b'Z')
    || (leb b'0' c && leb c b'9')
    || c == b'_'

unfoldable pub all_name_chars : Str → Bool
all_name_chars [] = true
all_name_chars (c ∷ s) = if not (is_name_char c) then false else all_name_chars s

unfoldable pub validate_username : Str → Bool
validate_username s = if ltb (length s) 2 || ltb 16 (length s) then false else all_name_chars s

abbrev pub command_prefix : ℕ
command_prefix = b'/'

unfoldable pub is_command : Str → Bool
is_command line = ltb 0 (length line) && get_or line 0 0 == command_prefix
