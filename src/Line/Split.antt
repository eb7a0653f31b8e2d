-- ===== src/Line/Split.antt =====
-- `ac_get_line` of src/io.c takes one line off the input.
use native.Mathlib.Nat.{add-zero}
use aurora_comms.Base.{
  ℕ, suc, ◌+◌, ◌-◌, ◌≤◌, ◌<◌, ◌≡◌, ◌⊎◌, refl, sym, ap, ◌∙◌, true, false, Bool, Bool-cases, inl, inr,
  [], ◌∷◌, ◌++◌, Option, none, some, arith, if◌then◌else◌, length, get_or, take, drop, All,
  All-take, All-drop, take-append-drop, length-drop, drop-drop, length-take, length-append,
  get_or-drop, ok, ok_inj, subst, ◌>>=◌, Returns,
}
use aurora_comms.Str.{Str}
use aurora_comms.Line.{
  is_newline, has_complete_line, trim_whitespace, is_printable, printable, count_newlines, get_line,
}
use aurora_comms.Line.Trim.{remove_n_front, IsTrimmed, trim_whitespace-IsTrimmed}

abbrev pub NoNewline : Str → Type 0
NoNewline = All (λ c. is_newline c ≡ false)

abbrev pub Newlines : Str → Type 0
Newlines = All (λ c. is_newline c ≡ true)

-- The scan stops at the first newline, or runs through.
abbrev IsScanned : Str → Bool × ℕ → Type 0
IsScanned s (true, n) = NoNewline (take n s) × (n < length s) × (is_newline (get_or s n 0) ≡ true)
IsScanned s (false, n) = NoNewline s

has_complete_line-IsScanned : (s : Str) → IsScanned s (has_complete_line s)
unfolding has_complete_line
has_complete_line-IsScanned [] = tt
has_complete_line-IsScanned (c ∷ s) = step (has_complete_line s) (has_complete_line-IsScanned s)
  where
    step :
        (r : Bool × ℕ)
        → IsScanned s r
        → IsScanned (c ∷ s) (if is_newline c then (true, 0) else (r.0, suc r.1))
    step (true, n) h = elim (Bool-cases (is_newline c)) [
      | inl here ↦ rw here (tt, omega arith, here)
      | inr later ↦ rw later ((later, h.0), omega arith, h.2)
    ]
    step (false, n) h = elim (Bool-cases (is_newline c)) [
      | inl here ↦ rw here (tt, omega arith, here)
      | inr later ↦ rw later (later, h)
    ]

count_newlines-le : (s : Str) → count_newlines s ≤ length s
unfolding count_newlines
count_newlines-le [] = omega arith
count_newlines-le (c ∷ s) = ground (arith, count_newlines-le s)

count_newlines-Newlines : (s : Str) → Newlines (take (count_newlines s) s)
unfolding count_newlines
count_newlines-Newlines [] = tt
count_newlines-Newlines (c ∷ s) = ground (arith, count_newlines-Newlines s)

count_newlines_stops :
    (s : Str)
    → (drop (count_newlines s) s ≡ [])
      ⊎ (is_newline (get_or (drop (count_newlines s) s) 0 0) ≡ false)
unfolding count_newlines
count_newlines_stops [] = inl refl
count_newlines_stops (c ∷ s) = elim (Bool-cases (is_newline c)) [
  | inl here ↦ rw here (count_newlines_stops s)
  | inr past ↦ rw past (inr past)
]

count_newlines_pos :
    (s : Str) → 0 < length s → is_newline (get_or s 0 0) ≡ true → 0 < count_newlines s
unfolding count_newlines
count_newlines_pos [] h k = absurd (omega arith)
count_newlines_pos (c ∷ s) h k = ground arith

-- What is taken off an input: `body`, a line without a newline, and `newlines`, all that follow it.
pub record Taken (input body newlines rest : Str) : Type 0 where
  pub whole : input ≡ body ++ (newlines ++ rest)
  pub no_newline : NoNewline body
  pub ended : Newlines newlines × (0 < length newlines)
  pub all_ended : (rest ≡ []) ⊎ (is_newline (get_or rest 0 0) ≡ false)

-- What a call returns: the cleaned line, or that no line is complete.
abbrev pub GotLine : Str → Option (Str × Str) → Type 0
GotLine input none = NoNewline input
GotLine input (some (line, rest)) =
    (body : Str) × (newlines : Str) × Taken input body newlines rest
    × (trim_whitespace (printable body) ≡ ok line)

Taken-scan :
    (input : Str) (n : ℕ)
    → IsScanned input (true, n)
    → let k = count_newlines (drop n input) in
      Taken input (take n input) (take k (drop n input)) (drop k (drop n input))
      × (0 < n + k)
      × (n + k ≤ length input)
Taken-scan input n (clean, within, newline) =
    let tail = drop n input in
    let k = count_newlines tail in
    let wide : length tail ≡ length input - n = length-drop n input in
    let some_newline : 0 < k =
      count_newlines_pos tail (omega arith) (rw (get_or-drop n 0 input 0, add-zero n) newline) in
    let few : k ≤ length tail = count_newlines-le tail in
    (
      record {
        whole = rw (take-append-drop k tail, take-append-drop n input);
        no_newline = clean;
        ended = (count_newlines-Newlines tail, rw length-take (omega arith));
        all_ended = count_newlines_stops tail;
      },
      omega arith,
      omega arith,
    )

-- `ac_get_line` on an empty line buffer does not fault. It returns no line exactly if the input has
-- no newline character; otherwise it takes off the text before the first one and all newline
-- characters that follow it, and returns the printable bytes of the text, trimmed.
pub get_line-GotLine : (input : Str) → Returns (get_line [] input) (GotLine input)
unfolding get_line
get_line-GotLine input = got (has_complete_line input) refl (has_complete_line-IsScanned input)
  where
    got :
        (r : Bool × ℕ)
        → has_complete_line input ≡ r
        → IsScanned input r
        → Returns (get_line [] input) (GotLine input)
    got (false, n) e h = (none, rw e, h)
    got (true, n) e h =
        let (taken, pos, within) = Taken-scan input n h in
        let body = take n input in
        let (line, trimmed, _) = trim_whitespace-IsTrimmed (printable body) in
        (
          some (line, drop (count_newlines (drop n input)) (drop n input)),
          rw (
            e,
            remove_n_front input (n + count_newlines (drop n input)) (omega arith) within,
            ◌>>=◌,
            trimmed,
            drop-drop n (count_newlines (drop n input)) input,
          ),
          (body, _, taken, trimmed),
        )

All-printable : (s : Str) → All (λ c. is_printable c ≡ true) (printable s)
unfolding printable
All-printable [] = tt
All-printable (c ∷ s) = ground (arith, All-printable s)

-- A line that `ac_get_line` returns has only printable bytes and no space at either end, and the
-- input has become shorter.
pub get_line-IsClean :
    (input line rest : Str)
    → get_line [] input ≡ ok (some (line, rest))
    → All (λ c. is_printable c ≡ true) line × IsTrimmed line × (length rest < length input)
get_line-IsClean input line rest e =
    let (r, run, got) = get_line-GotLine input in
    let same : r ≡ some (line, rest) = ok_inj (sym run ∙ e) in
    let (body, newlines, taken, trimmed) = subst (GotLine input) same got in
    let (t, strip, (ends, (a, part))) = trim_whitespace-IsTrimmed (printable body) in
    let line_is : t ≡ line = ok_inj (sym strip ∙ trimmed) in
    (
      subst (All (λ c. is_printable c ≡ true)) (sym part.0 ∙ line_is)
          (All-take _ (length t) _ (All-drop _ a _ (All-printable body))),
      subst IsTrimmed line_is ends,
      omega (
        arith,
        ap length taken.whole,
        length-append body (newlines ++ rest),
        length-append newlines rest,
        taken.ended.1,
      ),
    )
