-- ===== src/Arr/Insert.antt =====
-- Growth, insertion and appending of inc/ac/meta.h refine the insertion into a list.
use aurora_comms.Base.{
  ℕ, ◌+◌, ◌-◌, ◌*◌, ◌≤◌, ◌<◌, ◌^◌, ◌≡◌, refl, sym, ap, ◌∙◌, List, [], ◌++◌, map, append-nil,
  append_assoc, map-append, Option, some, arith, ◌==◌, ==_iff, Bool-cases, inl, inr, length, take,
  drop, length-append, length-append_four, length-map, length-take, length-drop, length-eq_zero,
  take-append-drop, ok, fault, assert_failed, ◌>>=◌, Returns,
}
use aurora_comms.Arr.{
  Arr, Holds, size, memcpy, arr_make_room, arr_move_up, arr_insert_raw_n, arr_insert_n,
  arr_append_n,
}
use aurora_comms.Arr.Room.{memcpy_middle, make_room-Holds, memmove_up}

module _ {ℓ} {A : Type ℓ} where
  move_up_gap :
      (a : Arr A) (p s r : List (Option A)) (n : ℕ)
      → a.cells ≡ p ++ (s ++ r)
      → a.len ≡ length p + length s
      → a.len + n ≤ length a.cells
      → Returns (arr_move_up a (length p) n) λ cells.
        (g : List (Option A)) × (q : List (Option A)) × (cells ≡ p ++ (g ++ (s ++ q)))
        × (length g ≡ n)
        × (length cells ≡ length a.cells)
  unfolding arr_move_up
  move_up_gap a p s r n e l room =
      let t = s ++ r in
      let g = take n t in
      let x = take (length s) (drop n t) in
      let q = drop (length s) (drop n t) in
      let width : length a.cells ≡ length p + (length s + length r) =
        rw (e, length-append, length-append) in
      let gap : length g ≡ n = rw (length-take, length-append) (omega arith) in
      let split : t ≡ g ++ (x ++ q) =
        rw (take-append-drop (length s) (drop n t), take-append-drop n t) in
      let moved : length x ≡ length s =
        rw (length-take, length-drop, length-append) (omega arith) in
      elim (Bool-cases (length p == a.len)) [
        | inl last ↦
            let stay : s ≡ [] =
              length-eq_zero s (omega (arith, (==_iff (length p) a.len).0 last)) in
            (
              a.cells,
              rw last,
              (
                take n r,
                drop n r,
                rw (e, stay, take-append-drop n r),
                rw length-take (omega (arith, ap length stay)),
                refl,
              ),
            )
        | inr inner ↦
            let span : a.len - length p ≡ length s = omega arith in
            (
              p ++ (g ++ (s ++ q)),
              rw (inner, e, span) (rw gap at (memmove_up p s r g x q split moved)),
              (
                g,
                q,
                refl,
                gap,
                omega (
                  arith,
                  ap length e,
                  ap length split,
                  length-append_four p g s q,
                  length-append p t,
                  length-append x q,
                  length-append g (x ++ q),
                  moved,
                ),
              ),
            )
      ]

  insert_raw_n_run :
      (a : Arr A) (i n : ℕ) (cells : List (Option A))
      → i ≤ a.len
      → arr_move_up (arr_make_room a n) i n ≡ ok cells
      → arr_insert_raw_n a i n
        ≡ ok (record (arr_make_room a n) { cells = cells; len = size (a.len + n) })
  unfolding arr_insert_raw_n
  insert_raw_n_run a i n cells h run = rw run (ground arith)

  insert_n_run :
      (a b : Arr A) (i : ℕ) (xs : List A) (cells : List (Option A))
      → arr_insert_raw_n a i (length xs) ≡ ok b
      → memcpy b.cells i (map some xs) ≡ ok cells
      → arr_insert_n a i xs ≡ ok (record b { cells = cells })
  unfolding arr_insert_n
  insert_n_run a b i xs cells raw copy = rw (raw, ◌>>=◌, copy)

  -- The uninitialised gap between the first `length pre` elements and the others.
  insert_raw_n_gap :
      (a : Arr A) (pre suf : List A) (n : ℕ)
      → (a.len + n) * 2 < 2 ^ 64
      → Holds a (pre ++ suf)
      → Returns (arr_insert_raw_n a (length pre) n) λ b.
        (g : List (Option A)) × (q : List (Option A)) × (b.cells
          ≡ map some pre ++ (g ++ (map some suf ++ q)))
        × (length g ≡ n)
        × (b.len ≡ length pre + n + length suf)
        × (b.cap ≡ length b.cells)
        × (b.cap < 2 ^ 64)
  insert_raw_n_gap a pre suf n fits h =
      let (hb, same, room) = make_room-Holds a (pre ++ suf) n fits h in
      let count : a.len ≡ length pre + length suf = h.counted ∙ length-append pre suf in
      let (cells, run, (g, q, lay, gap, wide)) =
        move_up_gap (arr_make_room a n) (map some pre) (map some suf) hb.slack n
          (rw (hb.layout, map-append, append_assoc))
          (rw (length-map some pre, length-map some suf, same) count) (rw same room) in
      (
        record (arr_make_room a n) { cells = cells; len = size (a.len + n) },
        insert_raw_n_run a (length pre) n cells (omega arith) (rw length-map at run),
        (g, q, lay, gap, omega arith, hb.sized ∙ sym wide, hb.bounded),
      )

  -- Insertion of `xs` behind the first `length pre` elements of a well-formed array succeeds if
  -- twice the new length fits into a `size_t`. It puts `xs` between the two parts and keeps the
  -- array well formed.
  pub insert_n-Holds :
      (a : Arr A) (pre suf xs : List A)
      → (a.len + length xs) * 2 < 2 ^ 64
      → Holds a (pre ++ suf)
      → Returns (arr_insert_n a (length pre) xs) λ b. Holds b (pre ++ (xs ++ suf))
  insert_n-Holds a pre suf xs fits h =
      let (b, raw, (g, q, lay, gap, count, sized, small)) =
        insert_raw_n_gap a pre suf (length xs) fits h in
      let same : length (map some xs) ≡ length g = length-map some xs ∙ sym gap in
      let fill = memcpy_middle (map some pre) g (map some xs) (map some suf ++ q) same in
      (
        record b { cells = map some pre ++ (map some xs ++ (map some suf ++ q)) },
        insert_n_run a b (length pre) xs _ raw (rw (lay, ← length-map some pre) fill),
        record {
          slack = q;
          layout =
              rw (
                map-append some pre (xs ++ suf),
                map-append some xs suf,
                append_assoc,
                append_assoc,
              );
          counted = rw (length-append pre (xs ++ suf), length-append xs suf) (omega arith);
          sized = omega (
            arith,
            ap length lay,
            same,
            length-append_four (map some pre) g (map some suf) q,
            length-append_four (map some pre) (map some xs) (map some suf) q,
          );
          bounded = small;
        },
      )

  -- An index behind the end stops the process.
  pub insert_n_behind :
      (a : Arr A) (i : ℕ) (xs : List A) → a.len < i → arr_insert_n a i xs ≡ fault assert_failed
  unfolding arr_insert_n arr_insert_raw_n
  insert_n_behind a i xs h = ground arith

  -- Appending to a well-formed array succeeds if twice the new length fits into a `size_t`. It puts
  -- the new elements behind the old ones and keeps the array well formed.
  pub append_n-Holds :
      (a : Arr A) (ys xs : List A)
      → (a.len + length xs) * 2 < 2 ^ 64
      → Holds a ys
      → Returns (arr_append_n a xs) λ b. Holds b (ys ++ xs)
  unfolding arr_append_n
  append_n-Holds a ys xs fits h =
      let (b, run, hb) = insert_n-Holds a ys [] xs fits (rw append-nil h) in
      (b, ap (λ i. arr_insert_n a i xs) h.counted ∙ run, rw append-nil at hb)
