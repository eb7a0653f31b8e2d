-- ===== src/Arr/Room.antt =====
-- Room for new elements in inc/ac/meta.h: the growth of the allocation, and copies within it.
use aurora_comms.Base.{
  ℕ, ◌+◌, ◌-◌, ◌*◌, ◌≤◌, ◌<◌, ◌^◌, ◌≡◌, refl, sym, ap, ◌∙◌, List, ◌++◌, append_assoc, Option, none,
  arith, ltb, Bool-cases, inl, inr, length, take, drop, replicate, length-append, length-replicate,
  take_all, take-append, drop-append, drop-append_add, ok,
}
use aurora_comms.Arr.{Arr, Holds, size, realloc, overwrite, memcpy, memmove, arr_make_room}

module _ {ℓ} {A : Type ℓ} where
  pub overwrite_middle :
      (p x y r : List (Option A))
      → length y ≡ length x
      → overwrite (p ++ (x ++ r)) (length p) y ≡ p ++ (y ++ r)
  unfolding overwrite
  overwrite_middle p x y r e =
      rw (take-append p (x ++ r), drop-append_add p (x ++ r) (length y), e, drop-append x r)

  pub memcpy_middle :
      (p x y r : List (Option A))
      → length y ≡ length x
      → memcpy (p ++ (x ++ r)) (length p) y ≡ ok (p ++ (y ++ r))
  unfolding memcpy
  memcpy_middle p x y r e =
      rw (overwrite_middle p x y r e) (ground (arith, length-append p (x ++ r), length-append x r))

  pub memmove_middle :
      (p x y r : List (Option A)) (src : ℕ)
      → length y ≡ length x
      → src + length y ≤ length p + (length x + length r)
      → take (length y) (drop src (p ++ (x ++ r))) ≡ y
      → memmove (p ++ (x ++ r)) (length p) src (length y) ≡ ok (p ++ (y ++ r))
  unfolding memmove
  memmove_middle p x y r src e h t =
      rw (t, memcpy_middle p x y r e) (ground (arith, length-append p (x ++ r), length-append x r))

  pub realloc_grow :
      (k : ℕ) (cells : List (Option A))
      → length cells ≤ k
      → realloc k cells ≡ cells ++ replicate (k - length cells) none
  unfolding realloc
  realloc_grow k cells h = rw (take_all k cells h)

  -- The array after a growth to `k` cells.
  pub grown-Holds :
      (a : Arr A) (ys : List A) (k : ℕ)
      → length a.cells ≤ k
      → k < 2 ^ 64
      → Holds a ys
      → Holds (record a { cells = realloc k a.cells; cap = k }) ys
  grown-Holds a ys k room small h = record {
    slack = h.slack ++ replicate (k - length a.cells) none;
    layout = rw (realloc_grow k a.cells room, h.layout, append_assoc);
    counted = h.counted;
    sized = rw (realloc_grow k a.cells room, length-append, length-replicate) (omega arith);
    bounded = small;
  }

  -- Room for `n` more keeps the elements, and leaves `n` free cells.
  pub make_room-Holds :
      (a : Arr A) (ys : List A) (n : ℕ)
      → (a.len + n) * 2 < 2 ^ 64
      → Holds a ys
      → let b = arr_make_room a n in Holds b ys × (b.len ≡ a.len) × (a.len + n ≤ length b.cells)
  unfolding arr_make_room
  make_room-Holds a ys n fits h =
      let even : size (size (a.len + n) * 2) ≡ (a.len + n) * 2 = omega arith in
      elim (Bool-cases (ltb a.cap (size (a.len + n)))) [
        | inl more ↦
            let room : length a.cells ≤ (a.len + n) * 2 = ground arith in
            rw (more, even)
              (
                grown-Holds a ys _ room fits h,
                refl,
                rw (realloc_grow _ a.cells room, length-append, length-replicate) (omega arith),
              )
        | inr fine ↦ rw fine (h, refl, ground arith)
      ]

  pub memmove_up :
      (p s r g x q : List (Option A))
      → s ++ r ≡ g ++ (x ++ q)
      → length x ≡ length s
      → memmove (p ++ (s ++ r)) (length p + length g) (length p) (length s)
        ≡ ok (p ++ (g ++ (s ++ q)))
  memmove_up p s r g x q e w =
      let whole : p ++ (s ++ r) ≡ (p ++ g) ++ (x ++ q) = rw (e, append_assoc) in
      let read : take (length s) (drop (length p) (p ++ (s ++ r))) ≡ s =
        rw (drop-append, take-append) in
      let moved =
        memmove_middle (p ++ g) x s q (length p) (sym w) (rw length-append (omega arith))
          (rw (← whole) read) in
      rw (whole, ← length-append p g) (moved ∙ ap ok (append_assoc p g (s ++ q)))
  -- Moving up opens a gap of `n` cells.
