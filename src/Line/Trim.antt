-- ===== src/Line/Trim.antt =====
-- `ac_trim_whitespace` of src/io.c strips the spaces at both ends of a string.
use native.Mathlib.Nat.{zero-add, add-zero}
use native.Mathlib.Numerals.{sub-one}
use aurora_comms.Base.{
  ℕ, zero, suc, ◌+◌, ◌-◌, ◌≤◌, ◌<◌, ◌≡◌, ◌≢◌, ◌⊎◌, refl, sym, ap, Bool-cases, inl, inr, [], ◌∷◌,
  arith, ◌==◌, ==_iff, length, get_or, take, drop, length-drop, length-take, get_or-drop,
  get_or-take, take_all, length-eq_zero, ok, Returns,
}
use aurora_comms.Str.{Str}
use aurora_comms.Line.{remove_n, trim_start, trim_end, trim_whitespace}

-- Removal from the front keeps what is behind.
pub remove_n_front :
    (s : Str) (n : ℕ) → 0 < length s → n ≤ length s → remove_n s 0 n ≡ ok (drop n s)
unfolding remove_n
remove_n_front s n h k = ground (arith, zero-add n)

trim_start-le : (s : Str) → trim_start s ≤ length s
unfolding trim_start
trim_start-le [] = omega arith
trim_start-le (c ∷ s) = ground (arith, trim_start-le s)

trim_start_spaces : (s : Str) (i : ℕ) → i < trim_start s → get_or s i 0 ≡ b' '
unfolding trim_start
trim_start_spaces [] i h = absurd (omega arith)
trim_start_spaces (c ∷ s) zero h = ground arith
trim_start_spaces (c ∷ s) (suc i) h = ground (arith, trim_start_spaces s i)

trim_start_stops : (s : Str) → trim_start s < length s → get_or s (trim_start s) 0 ≢ b' '
unfolding trim_start
trim_start_stops [] h = absurd (omega arith)
trim_start_stops (c ∷ s) h = elim (Bool-cases (c == b' ')) [
  | inl blank ↦ rw blank (trim_start_stops s (ground arith))
  | inr ink ↦ rw ink (ground arith)
]

trim_end-le : (t : Str) (n : ℕ) → trim_end t n ≤ n
unfolding trim_end
trim_end-le t zero = omega arith
trim_end-le t (suc n) = ground (arith, trim_end-le t n)

trim_end_spaces : (t : Str) (n i : ℕ) → trim_end t n ≤ i → i < n → get_or t i 0 ≡ b' '
unfolding trim_end
trim_end_spaces t zero i h k = absurd (omega arith)
trim_end_spaces t (suc n) i h k = elim (Bool-cases (i == n)) [
  | inl last ↦ ground (arith, ap (λ j. get_or t j 0) ((==_iff i n).0 last))
  | inr inner ↦ ground (arith, trim_end_spaces t n i)
]

-- The end is 0, or stands behind a byte that is no space.
trim_end_stops : (t : Str) (n : ℕ) → 0 < trim_end t n → get_or t (trim_end t n - 1) 0 ≢ b' '
unfolding trim_end
trim_end_stops t zero h = absurd (omega arith)
trim_end_stops t (suc n) h = elim (Bool-cases (get_or t n 0 == b' ')) [
  | inl blank ↦ rw blank (trim_end_stops t n (rw blank at h))
  | inr ink ↦ rw (ink, sub-one (suc n)) (ground arith)
]

trim_end_pos : (t : Str) (n : ℕ) → get_or t 0 0 ≢ b' ' → 0 < n → 0 < trim_end t n
unfolding trim_end
trim_end_pos t zero h k = absurd (omega arith)
trim_end_pos t (suc zero) h k = ground arith
trim_end_pos t (suc (suc n)) h k = ground (arith, trim_end_pos t (suc n))

-- No space at either end.
abbrev pub IsTrimmed : Str → Type 0
IsTrimmed t =
    (t ≡ []) ⊎ ((0 < length t) × (get_or t 0 0 ≢ b' ') × (get_or t (length t - 1) 0 ≢ b' '))

-- `t` is the part of `s` from position `a` on, and all around it are spaces.
abbrev pub IsStripped : Str → ℕ → Str → Type 0
IsStripped s a t =
    (t ≡ take (length t) (drop a s))
    × (a + length t ≤ length s)
    × ((i : ℕ) → i < a → get_or s i 0 ≡ b' ')
    × ((i : ℕ) → a + length t ≤ i → i < length s → get_or s i 0 ≡ b' ')

trim_inner :
    (s : Str)
    → trim_start s < length s
    → let u = drop (trim_start s) s in
      let t = take (trim_end u (length u)) u in IsTrimmed t × IsStripped s (trim_start s) t
trim_inner s h =
    let a = trim_start s in
    let u = drop a s in
    let n = length u in
    let e = trim_end u n in
    let wide : n ≡ length s - a = length-drop a s in
    let head : get_or u 0 0 ≢ b' ' = rw (get_or-drop a 0 s 0, add-zero a) (trim_start_stops s h) in
    let size : length (take e u) ≡ e = omega (arith, length-take e u, trim_end-le u n) in
    let pos : 0 < e = trim_end_pos u n head (omega arith) in
    (
      inr (
        omega arith,
        rw (get_or-take e 0 u 0 pos) head,
        rw (size, get_or-take e (e - 1) u 0 (omega arith)) (trim_end_stops u n pos),
      ),
      (
        rw size,
        omega (arith, trim_end-le u n),
        trim_start_spaces s,
        λ i k l.
            let back : a + (i - a) ≡ i = omega arith in
            rw back at (
              rw (get_or-drop a (i - a) s 0) at
                (trim_end_spaces u n (i - a) (omega arith) (omega arith))),
      ),
    )

-- Trimming does not fault. Its result has no space at either end, and is the given string less some
-- spaces in front and behind.
pub trim_whitespace-IsTrimmed :
    (s : Str) → Returns (trim_whitespace s) λ t. IsTrimmed t × ((a : ℕ) × IsStripped s a t)
unfolding trim_whitespace
trim_whitespace-IsTrimmed s = elim (Bool-cases (length s == 0)) [
  | inl empty ↦
      let zero_bytes = (==_iff (length s) 0).0 empty in
      (
        s,
        rw empty,
        (
          inl (length-eq_zero s zero_bytes),
          (
            0,
            (
              sym (take_all (length s) s (omega arith)),
              omega arith,
              λ i h. absurd (omega arith),
              λ i h k. absurd (omega arith),
            ),
          ),
        ),
      )
  | inr some_bytes ↦ elim (Bool-cases (trim_start s == length s)) [
    | inl blank ↦
        let all = (==_iff (trim_start s) (length s)).0 blank in
        (
          [],
          rw (some_bytes, blank),
          (
            inl refl,
            (
              length s,
              (
                refl,
                omega arith,
                λ i h. trim_start_spaces s i (omega arith),
                λ i h k. absurd (omega arith),
              ),
            ),
          ),
        )
    | inr ink ↦
        let short : trim_start s < length s = ground (arith, trim_start-le s) in
        (
          _,
          rw (some_bytes, ink, remove_n_front s (trim_start s) (omega arith) (omega arith)),
          ((trim_inner s short).0, (trim_start s, (trim_inner s short).1)),
        )
  ]
]
