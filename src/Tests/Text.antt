-- ===== src/Tests/Text.antt =====
-- Lines, names, literals and log lines at concrete inputs.
use aurora_comms.Base.{
  ℕ, ◌≤◌, ◌<◌, ◌≡◌, ◌↔◌, refl, true, [], ◌∷◌, ◌++◌, some, arith, map, length, drop, replicate, All,
  ok, Returns,
}
use aurora_comms.Line.Names.{IsNameChar, validate_username_iff}
use aurora_comms.Line.Split.{GotLine, get_line-GotLine, get_line-IsClean}
use aurora_comms.Line.Trim.{IsTrimmed, IsStripped, trim_whitespace-IsTrimmed}
use aurora_comms.Line.{
  get_line, trim_whitespace, is_printable, validate_username, has_complete_line, is_newline,
  remove_n, printable, count_newlines, trim_start, trim_end,
}
use aurora_comms.Literal.{read_size, from_string_literal, from_string_literal_reads}
use aurora_comms.Fmt.{clipped}
use aurora_comms.Log.{log_fmt, log_line, log_fmt_fits}
use aurora_comms.Str.Laws.{string_eq_ignore_case_iff}
use aurora_comms.Str.{Str, codes, tolower, string_eq_ignore_case}

-- A line with a bell in it, and the begin of the next.
abbrev typed : Str
typed = codes " hi" ++ (7 ∷ 0x20 ∷ 0x0d ∷ 0x0a ∷ codes "mo")

typed_line : get_line [] typed ≡ ok (some (codes "hi", codes "mo"))
unfolding get_line has_complete_line is_newline remove_n printable is_printable count_newlines
    trim_whitespace trim_start trim_end
typed_line = refl

get_line-GotLine_example : Returns (get_line [] typed) (GotLine typed)
get_line-GotLine_example = get_line-GotLine typed

get_line-IsClean_example :
    All (λ c. is_printable c ≡ true) (codes "hi")
    × IsTrimmed (codes "hi")
    × (length (codes "mo") < length typed)
get_line-IsClean_example = get_line-IsClean typed (codes "hi") (codes "mo") typed_line

trim_whitespace-IsTrimmed_example :
    Returns
      (trim_whitespace (codes "  a b "))
      λ t. IsTrimmed t × ((a : ℕ) × IsStripped (codes "  a b ") a t)
trim_whitespace-IsTrimmed_example = trim_whitespace-IsTrimmed (codes "  a b ")

validate_username_iff_example : (validate_username (codes "ann_1") ≡ true) ↔ (
    (2 ≤ length (codes "ann_1")) × (length (codes "ann_1") ≤ 16) × All IsNameChar (codes "ann_1"))
validate_username_iff_example = validate_username_iff (codes "ann_1")

string_eq_ignore_case_iff_example :
    (string_eq_ignore_case (codes "Y") (codes "y") ≡ true)
    ↔ (map tolower (codes "Y") ≡ map tolower (codes "y"))
string_eq_ignore_case_iff_example = string_eq_ignore_case_iff (codes "Y") (codes "y")

from_string_literal_reads_example :
    (memory : Str) × (from_string_literal (codes "y") 1 0 ≡ some memory)
    × (read_size 8 memory ≡ 1)
    × (read_size 8 (drop 8 memory) ≡ 1)
    × (drop 16 memory ≡ codes "y")
from_string_literal_reads_example =
    from_string_literal_reads (codes "y") 1 0 (omega arith) (omega arith) refl

abbrev long_message : Str
long_message = replicate 1200 65

log_fmt_fits_example :
    log_fmt true (codes "2024-01-01 00:00:00") (codes "info") long_message
    ≡ ok (log_line (codes "2024-01-01 00:00:00") (codes "info") (clipped 924 long_message))
log_fmt_fits_example =
    log_fmt_fits (codes "2024-01-01 00:00:00") (codes "info") long_message (omega arith)
