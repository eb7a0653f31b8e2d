-- ===== src/Arr.antt =====
-- The generic dynamic array of inc/ac/meta.h. An array is one allocation: two `size_t`, the length
-- and the capacity, and then the elements. `cells` are the elements' places, `none` where nothing
-- was written yet, so that an access past `cells` is one past the allocation.
pub mod Insert
pub mod Room
pub mod Remove
use aurora_comms.Base.{
  ◌≡◌, ℕ, ◌<◌, ◌+◌, ◌-◌, ◌*◌, ◌%◌, ◌^◌, Bool, true, false, List, [], ◌++◌, map, Option, none, some,
  leb, ltb, ◌==◌, if◌then◌else◌, length, take, drop, replicate, Exec, ok, fault, assert_failed,
  out_of_bounds, ◌>>=◌, ◌>>◌, ◌&&◌,
}

pub record Arr {ℓ} (A : Type ℓ) : Type ℓ where
  pub cells : List (Option A)
  pub len : ℕ
  pub cap : ℕ

-- `size_t` has 64 bits.
abbrev pub size : ℕ → ℕ
size n = n % 2 ^ 64

-- A difference of `size_t` wraps around below 0.
abbrev pub size_sub : ℕ → ℕ → ℕ
size_sub m n = size (m + (2 ^ 64 - size n))

abbrev pub assert : Bool → Exec (Unit {0})
assert true = ok tt
assert false = fault assert_failed

module _ {ℓ} {A : Type ℓ} where
  unfoldable pub arr_new : Arr A
  arr_new = record { cells = []; len = 0; cap = 0 }

  unfoldable pub arr_new_n : ℕ → Arr A
  arr_new_n n = record { cells = replicate n none; len = n; cap = n }

  -- `zero` is the element whose bytes are all 0.
  unfoldable pub arr_new_n_zero : A → ℕ → Arr A
  arr_new_n_zero zero_elem n = record { cells = replicate n (some zero_elem); len = n; cap = n }

  unfoldable pub arr_new_reserve : ℕ → Arr A
  arr_new_reserve n = record { cells = replicate n none; len = 0; cap = n }

  unfoldable pub arr_new_reserve_zero : A → ℕ → Arr A
  arr_new_reserve_zero zero_elem n = record {
    cells = replicate n (some zero_elem);
    len = 0;
    cap = n;
  }

  -- `realloc` keeps the cells that fit into the new allocation.
  unfoldable pub realloc : ℕ → List (Option A) → List (Option A)
  realloc n cells = take n cells ++ replicate (n - length cells) none

  -- The cells from `dst` on are overwritten by `xs`.
  unfoldable pub overwrite : List (Option A) → ℕ → List (Option A) → List (Option A)
  overwrite cells dst xs = take dst cells ++ (xs ++ drop (dst + length xs) cells)

  unfoldable pub memcpy : List (Option A) → ℕ → List (Option A) → Exec (List (Option A))
  memcpy cells dst xs =
      if leb (dst + length xs) (length cells)
      then ok (overwrite cells dst xs)
      else fault out_of_bounds

  unfoldable pub memmove : List (Option A) → ℕ → ℕ → ℕ → Exec (List (Option A))
  memmove cells dst src n =
      if leb (src + n) (length cells)
      then memcpy cells dst (take n (drop src cells))
      else fault out_of_bounds

  unfoldable pub arr_resize : Arr A → ℕ → Arr A
  arr_resize a n = record { cells = realloc n a.cells; len = n; cap = n }

  -- The test of the capacity, and the growth to twice what is needed.
  unfoldable pub arr_make_room : Arr A → ℕ → Arr A
  arr_make_room a n =
      if ltb a.cap (size (a.len + n))
      then record a {
        cells = realloc (size (size (a.len + n) * 2)) a.cells;
        cap = size (size (a.len + n) * 2);
      }
      else a

  -- The elements behind the index move up, unless it is the end. The places are pointers, which do
  -- not wrap around: `memmove` faults behind the allocation.
  unfoldable pub arr_move_up : Arr A → ℕ → ℕ → Exec (List (Option A))
  arr_move_up a i n = if i == a.len then ok a.cells else memmove a.cells (i + n) i (a.len - i)

  unfoldable pub arr_insert_raw_n : Arr A → ℕ → ℕ → Exec (Arr A)
  arr_insert_raw_n a i n = do
    assert (leb i a.len)
    cells ← arr_move_up (arr_make_room a n) i n
    ok (record (arr_make_room a n) { cells = cells; len = size (a.len + n) })

  unfoldable pub arr_insert_n : Arr A → ℕ → List A → Exec (Arr A)
  arr_insert_n a i xs = do
    b ← arr_insert_raw_n a i (length xs)
    cells ← memcpy b.cells i (map some xs)
    ok (record b { cells = cells })

  unfoldable pub arr_append_n : Arr A → List A → Exec (Arr A)
  arr_append_n a xs = arr_insert_n a a.len xs

  -- The elements behind the gap move down, unless there are none.
  unfoldable pub arr_move_down : Arr A → ℕ → ℕ → Exec (List (Option A))
  arr_move_down a i n =
      if ltb (size (i + n)) a.len
      then memmove a.cells i (i + n) (size_sub (size_sub a.len i) n)
      else ok a.cells

  unfoldable pub arr_remove_n : Arr A → ℕ → ℕ → Exec (Arr A)
  arr_remove_n a i n = do
    assert (ltb i a.len)
    assert (leb (size (i + n)) a.len)
    cells ← arr_move_down a i n
    ok (record a { cells = cells; len = size_sub a.len n })

  -- An array whose elements are `xs`: they stand first, the rest of the allocation is free. The
  -- capacity is a `size_t`.
  pub record Holds (a : Arr A) (xs : List A) : Type ℓ where
    pub slack : List (Option A)
    pub layout : a.cells ≡ map some xs ++ slack
    pub counted : a.len ≡ length xs
    pub sized : a.cap ≡ length a.cells
    pub bounded : a.cap < 2 ^ 64
