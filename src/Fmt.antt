-- ===== src/Fmt.antt =====
-- `snprintf` and `vsnprintf` of the C library into a buffer, and the reads of the buffer by the length
-- that they return. src/io.c prints into an array of 1024 bytes and sets the length of the array to
-- that number; src/log.c prints into buffers of 924 and 1024 bytes. The text to print is given with
-- its conversions done.
use aurora_comms.Base.{
  ℕ, zero, suc, ◌+◌, ◌-◌, ◌/◌, ◌%◌, ◌^◌, ◌<◌, ◌≡◌, [], ◌∷◌, ◌++◌, arith, leb, ltb, if◌then◌else◌,
  length, take, take_all, length-take, take-append, Exec, ok, fault, out_of_bounds,
}
use aurora_comms.Str.{Str, codes}

-- What is written: the text up to one byte less than the buffer, and the closing NUL.
unfoldable pub printed : ℕ → Str → Str
printed zero s = []
printed (suc n) s = take n s ++ 0 ∷ []

-- The buffer up to the returned length. Bytes behind the NUL were not written.
unfoldable pub read_printed : ℕ → Str → Exec Str
read_printed n s =
    if leb (length s) n then ok (take (length s) (printed n s)) else fault out_of_bounds

-- A text that is shorter than the buffer is read back whole.
pub read_printed_fits : (n : ℕ) (s : Str) → length s < n → read_printed n s ≡ ok s
unfolding read_printed printed
read_printed_fits zero s h = absurd (omega arith)
read_printed_fits (suc n) s h =
    rw (take_all n s (omega arith), take-append s (0 ∷ [])) (ground arith)

-- A text that is longer than the buffer makes the reader run out of it.
pub read_printed_over : (n : ℕ) (s : Str) → n < length s → read_printed n s ≡ fault out_of_bounds
unfolding read_printed
read_printed_over n s h = ground arith

-- The decimal digits of a number: what `%d` prints for a value that is not negative.
unfoldable pub digits_from : ℕ → ℕ → Str → Str
digits_from zero n acc = acc
digits_from (suc fuel) n acc =
    let rest = digits_from fuel (n / 10) ((b'0' + n % 10) ∷ acc) in
    if ltb n 10 then (b'0' + n) ∷ acc else rest

unfoldable pub decimal : ℕ → Str
decimal n = digits_from (suc n) n []

-- `%d` of a value that was cast to `int`: the low 32 bits, which stand for a signed number.
unfoldable pub int_text : ℕ → Str
int_text n =
    let low = n % 2 ^ 32 in
    if ltb low (2 ^ 31) then decimal low else codes "-" ++ decimal (2 ^ 32 - low)

-- The text of a buffer that was printed into with a limit: `snprintf(buf, n, …)` read as a string.
unfoldable pub clipped : ℕ → Str → Str
clipped n s = take (n - 1) s

pub clipped_fits : (n : ℕ) (s : Str) → length s < n → clipped n s ≡ s
unfolding clipped
clipped_fits n s h = take_all (n - 1) s (omega arith)

pub length-clipped : (n : ℕ) (s : Str) → 0 < n → length (clipped n s) < n
unfolding clipped
length-clipped n s h = omega (arith, length-take (n - 1) s)
