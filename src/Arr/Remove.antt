-- ===== src/Arr/Remove.antt =====
-- Removal of inc/ac/meta.h refines the removal from a list, and leaves the free cells alone.
use aurora_comms.Base.{
  ℕ, ◌+◌, ◌^◌, ◌≤◌, ◌<◌, ◌≡◌, ◌⊎◌, refl, sym, ap, ◌∙◌, List, [], ◌++◌, map, append_assoc,
  map-append, Option, some, arith, ltb, Bool-cases, inl, inr, length, take, drop, length-append,
  length-map, take-append, drop-append, drop-append_add, take-append-drop, length-take,
  length-eq_zero, ok, fault, assert_failed, Returns,
}
use aurora_comms.Arr.{Arr, Holds, size, size_sub, arr_move_down, arr_remove_n}
use aurora_comms.Arr.Room.{memmove_middle}

module _ {ℓ} {A : Type ℓ} where
  -- Moving down copies the elements behind the gap over it.
  move_down_gap :
      (a : Arr A) (p g s r : List (Option A))
      → a.cells ≡ p ++ (g ++ (s ++ r))
      → a.len ≡ length p + (length g + length s)
      → a.len < 2 ^ 64
      → Returns
          (arr_move_down a (length p) (length g))
          λ cells. (q : List (Option A)) × (cells ≡ p ++ (s ++ q)) × (length cells ≡ length a.cells)
  unfolding arr_move_down
  move_down_gap a p g s r e l small =
      let t = g ++ (s ++ r) in
      let x = take (length s) t in
      let q = drop (length s) t in
      let wide : length t ≡ length g + (length s + length r) =
        rw (length-append, length-append) refl in
      let split : t ≡ x ++ q = sym (take-append-drop (length s) t) in
      let moved : length x ≡ length s = rw (length-take, wide) (omega arith) in
      let span : size_sub (size_sub a.len (length p)) (length g) ≡ length s = omega arith in
      let sum : size (length p + length g) ≡ length p + length g = omega arith in
      let read : take (length s) (drop (length p + length g) (p ++ t)) ≡ s =
        rw (drop-append_add p t (length g), drop-append, take-append) in
      let shift =
        memmove_middle p x s q (length p + length g) (sym moved)
          (omega (arith, ap length split, wide, length-append x q)) (rw (← split) read) in
      elim (Bool-cases (ltb (size (length p + length g)) a.len)) [
        | inl inner ↦ (
          p ++ (s ++ q),
          rw (inner, span, e) (rw (← split) at shift),
          (
            q,
            refl,
            omega (
              arith,
              ap length e,
              ap length split,
              moved,
              wide,
              length-append p t,
              length-append p (s ++ q),
              length-append s q,
              length-append x q,
            ),
          ),
        )
        | inr last ↦
            let gone : s ≡ [] = length-eq_zero s (ground arith) in
            (a.cells, rw last, (g ++ r, rw (e, gone), refl))
      ]

  len-lt-Holds : (a : Arr A) (xs : List A) → Holds a xs → a.len < 2 ^ 64
  len-lt-Holds a xs h = omega (
    arith,
    h.sized,
    h.bounded,
    ap length h.layout,
    length-append (map some xs) h.slack,
    length-map some xs,
    h.counted,
  )

  remove_n_run :
      (a : Arr A) (i n : ℕ) (cells : List (Option A))
      → i < a.len
      → i + n ≤ a.len
      → a.len < 2 ^ 64
      → arr_move_down a i n ≡ ok cells
      → arr_remove_n a i n ≡ ok (record a { cells = cells; len = size_sub a.len n })
  unfolding arr_remove_n
  remove_n_run a i n cells h k small run =
      let sum : size (i + n) ≡ i + n = omega arith in rw (sum, run) (ground arith)

  -- Removal of the part `mid` of a well-formed array succeeds if `mid` or what is behind it is not
  -- empty. It keeps the parts around `mid` in order and the array well formed, with the capacity
  -- that it had.
  pub remove_n-Holds :
      (a : Arr A) (pre mid suf : List A)
      → 0 < length mid + length suf
      → Holds a (pre ++ (mid ++ suf))
      → Returns
          (arr_remove_n a (length pre) (length mid))
          λ b. Holds b (pre ++ suf) × (b.cap ≡ a.cap)
  remove_n-Holds a pre mid suf some_left h =
      let count : a.len ≡ length pre + (length mid + length suf) =
        rw (h.counted, length-append, length-append) refl in
      let small : a.len < 2 ^ 64 = len-lt-Holds a (pre ++ (mid ++ suf)) h in
      let (cells, run, (q, lay, wide)) =
        move_down_gap a (map some pre) (map some mid) (map some suf) h.slack
          (rw (h.layout, map-append, map-append, append_assoc, append_assoc))
          (rw (length-map some pre, length-map some mid, length-map some suf) count) small in
      (
        record a { cells = cells; len = size_sub a.len (length mid) },
        remove_n_run a (length pre) (length mid) cells (omega arith) (omega arith) small
            (rw (length-map some pre, length-map some mid) at run),
        (
          record {
            slack = q;
            layout = rw (lay, map-append, append_assoc);
            counted = rw length-append (omega arith);
            sized = h.sized ∙ sym wide;
            bounded = h.bounded;
          },
          refl,
        ),
      )

  -- Removal at the end, or of more than there is, stops the process.
  pub remove_n_behind :
      (a : Arr A) (i n : ℕ)
      → (a.len ≤ i) ⊎ (a.len < size (i + n))
      → arr_remove_n a i n ≡ fault assert_failed
  unfolding arr_remove_n
  remove_n_behind a i n h = ground arith

  -- Removal of the last elements writes nothing: a pointer to one of them still reads it.
  pub remove_n_last :
      (a : Arr A) (i n : ℕ)
      → i < a.len
      → i + n ≡ a.len
      → a.len < 2 ^ 64
      → arr_remove_n a i n ≡ ok (record a { len = i })
  unfolding arr_remove_n arr_move_down
  remove_n_last a i n h e small =
      let sum : size (i + n) ≡ a.len = omega arith in
      let rest : size_sub a.len n ≡ i = omega arith in rw (sum, rest) (ground arith)
