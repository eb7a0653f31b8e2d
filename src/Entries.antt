-- ===== src/Entries.antt =====
-- One bucket of the hash map in inc/ac/meta.h: the scans for a key.
use mathlib.Core.Option
use aurora_comms.Base.{
  none-ne-some, sym, ◌∙◌, Bool-cases, ◌+◌, ◌≡◌, refl, ap, true, List, [], ◌∷◌, ◌++◌, Option, none,
  some, arith, if◌then◌else◌, length, or_else, Option-cases, inl, inr, ◌≢◌,
}
use aurora_comms.Key.{Key, equal_refl, equal_left, equal_right}

abbrev pub Entries {ℓ} : Type ℓ → Type ℓ → Type ℓ
Entries K V = List (K × V)

module _ {ℓ} {K V : Type ℓ} ⦃key : Key K⦄ where
  -- The value of the first entry whose key matches.
  unfoldable pub find : K → Entries K V → Option V
  find k [] = none
  find k (e ∷ c) = if key.equal e.0 k then some e.1 else find k c

  -- The bucket with the value of the first match replaced, or `none` where nothing matches.
  unfoldable pub replace : K → V → Entries K V → Option (Entries K V)
  replace k v [] = none
  replace k v (e ∷ c) =
      if key.equal e.0 k then some ((e.0, v) ∷ c) else Option.map (◌∷◌ e) (replace k v c)

  -- The bucket without the first match, or `none` where nothing matches.
  unfoldable pub erase : K → Entries K V → Option (Entries K V)
  erase k [] = none
  erase k (e ∷ c) = if key.equal e.0 k then some c else Option.map (◌∷◌ e) (erase k c)

  -- No key occurs twice.
  abbrev pub IsDistinct : Entries K V → Type ℓ
  IsDistinct [] = Unit
  IsDistinct (e ∷ c) = (find e.0 c ≡ none) × IsDistinct c

  pub find-replace :
      (k q : K) (v : V) (c c' : Entries K V)
      → replace k v c ≡ some c'
      → find q c' ≡ (if key.equal k q then some v else find q c)
  unfolding find replace
  find-replace k q v [] c' h = cc
  find-replace k q v (e ∷ c) c' h = elim (Option-cases (replace k v c)) [
    | inl e0 ↦ ground (arith, equal_left e.0 k q, equal_right k q e.0, e0)
    | inr (c'', e1) ↦
        ground (arith, equal_left e.0 k q, equal_right k q e.0, e1, find-replace k q v c c'')
  ]

  pub find-eq-none : (k : K) (v : V) (c : Entries K V) → replace k v c ≡ none → find k c ≡ none
  unfolding find replace
  find-eq-none k v [] h = refl
  find-eq-none k v (e ∷ c) h = ground (arith, find-eq-none k v c, Option-cases (replace k v c))

  pub length-replace :
      (k : K) (v : V) (c c' : Entries K V) → replace k v c ≡ some c' → length c' ≡ length c
  unfolding replace
  length-replace k v [] c' h = cc
  length-replace k v (e ∷ c) c' h = elim (Option-cases (replace k v c)) [
    | inl e0 ↦ ground (arith, e0)
    | inr (c'', e1) ↦ ground (arith, e1, length-replace k v c c'')
  ]

  pub replace-IsDistinct :
      (k : K) (v : V) (c c' : Entries K V) → replace k v c ≡ some c' → IsDistinct c → IsDistinct c'
  unfolding replace
  replace-IsDistinct k v [] c' h d = cc
  replace-IsDistinct k v (e ∷ c) c' h d = elim (Option-cases (replace k v c)) [
    | inl e0 ↦ ground (arith, e0)
    | inr (c'', e1) ↦ ground (
      arith,
      e1,
      replace-IsDistinct k v c c'',
      find-replace k e.0 v c c'',
      equal_left e.0 k e.0,
      equal_right k e.0 e.0,
      equal_refl e.0,
    )
  ]

  pub find-append :
      (k : K) (front back : Entries K V)
      → find k (front ++ back) ≡ or_else (find k front) (find k back)
  unfolding find or_else
  find-append k [] back = refl
  find-append k (e ∷ front) back = ground (arith, find-append k front back)

  pub append-IsDistinct :
      (a b : Entries K V)
      → IsDistinct a
      → IsDistinct b
      → ((q : K) → find q a ≢ none → find q b ≡ none)
      → IsDistinct (a ++ b)
  unfolding find or_else
  append-IsDistinct [] b da db apart = db
  append-IsDistinct (e ∷ a) b da db apart = (
    rw (find-append e.0 a b, da.0) (apart e.0 (rw (equal_refl e.0) (λ h. cc))),
    append-IsDistinct a b da.1 db (λ q h. apart q (ground (arith, h))),
  )

  pub find_of_erase-none : (k : K) (c : Entries K V) → erase k c ≡ none → find k c ≡ none
  unfolding find erase
  find_of_erase-none k [] h = refl
  find_of_erase-none k (e ∷ c) h = ground (arith, find_of_erase-none k c, Option-cases (erase k c))

  pub find_congr : (a b : K) (c : Entries K V) → key.equal a b ≡ true → find a c ≡ find b c
  find_congr a b c h = ap (λ x. find x c) ((key.equal_iff a b).0 h)

  pub find-erase :
      (k q : K) (c c' : Entries K V)
      → erase k c ≡ some c'
      → IsDistinct c
      → find q c' ≡ (if key.equal k q then none else find q c)
  unfolding find erase
  find-erase k q [] c' h d = cc
  find-erase k q (e ∷ c) c' h d = elim (Option-cases (erase k c)) [
    | inl e0 ↦ ground (arith, equal_left e.0 k q, equal_right k q e.0, e0, find_congr e.0 q c)
    | inr (c'', e1) ↦ ground (
      arith,
      equal_left e.0 k q,
      equal_right k q e.0,
      e1,
      find-erase k q c c'',
      find_congr e.0 q c,
    )
  ]

  pub length-erase : (k : K) (c c' : Entries K V) → erase k c ≡ some c' → length c' + 1 ≡ length c
  unfolding erase
  length-erase k [] c' h = cc
  length-erase k (e ∷ c) c' h = elim (Option-cases (erase k c)) [
    | inl e0 ↦ ground (arith, e0)
    | inr (c'', e1) ↦ ground (arith, e1, length-erase k c c'')
  ]

  pub erase-IsDistinct :
      (k : K) (c c' : Entries K V) → erase k c ≡ some c' → IsDistinct c → IsDistinct c'
  unfolding erase
  erase-IsDistinct k [] c' h d = cc
  erase-IsDistinct k (e ∷ c) c' h d = elim (Option-cases (erase k c)) [
    | inl e0 ↦ ground (arith, e0)
    | inr (c'', e1) ↦ ground (arith, e1, erase-IsDistinct k c c'', find-erase k e.0 c c'')
  ]

  pub find-some_of_erase : (k : K) (c c' : Entries K V) → erase k c ≡ some c' → find k c ≢ none
  unfolding erase find
  find-some_of_erase k [] c' h = λ _. cc
  find-some_of_erase k (e ∷ c) c' h = elim (Option-cases (erase k c)) [
    | inl e0 ↦ λ n. ground (arith, e0)
    | inr (c'', e1) ↦ λ n. ground (arith, e1, find-some_of_erase k c c'')
  ]

  pub find-some_of_replace :
      (k : K) (v : V) (c c' : Entries K V) → replace k v c ≡ some c' → find k c ≢ none
  unfolding replace find
  find-some_of_replace k v [] c' h = λ _. cc
  find-some_of_replace k v (e ∷ c) c' h = elim (Option-cases (replace k v c)) [
    | inl e0 ↦ λ n. ground (arith, e0)
    | inr (c'', e1) ↦ λ n. ground (arith, e1, find-some_of_replace k v c c'')
  ]

  -- A new key at the end.
  pub find-snoc :
      (k q : K) (v : V) (c : Entries K V)
      → find k c ≡ none
      → find q (c ++ (k, v) ∷ []) ≡ (if key.equal k q then some v else find q c)
  unfolding find or_else
  find-snoc k q v c h =
      rw (find-append q c ((k, v) ∷ [])) (ground (arith, find_congr k q c, Option-cases (find q c)))

  pub snoc-IsDistinct :
      (k : K) (v : V) (c : Entries K V)
      → find k c ≡ none
      → IsDistinct c
      → IsDistinct (c ++ (k, v) ∷ [])
  unfolding find
  snoc-IsDistinct k v c h d =
      append-IsDistinct c ((k, v) ∷ []) d (refl, tt) (λ q n. ground (arith, find_congr k q c))

  pub append-IsDistinct_parts :
      (a b : Entries K V)
      → IsDistinct (a ++ b)
      → IsDistinct a × IsDistinct b × ((q : K) → find q a ≢ none → find q b ≡ none)
  unfolding find or_else
  append-IsDistinct_parts [] b d = (tt, d, λ q n. absurd (n refl))
  append-IsDistinct_parts (e ∷ a) b d =
      let (da, db, apart) = append-IsDistinct_parts a b d.1 in
      (
        (ground (arith, find-append e.0 a b, Option-cases (find e.0 a)), da),
        db,
        λ q n.
            ground
              (arith, find-append e.0 a b, find_congr e.0 q b, Option-cases (find e.0 a), apart q),
      )

  -- What is found behind an entry with a fresh key is found from that entry on.
  pub find-cons :
      (e : K × V) (c : Entries K V) (q : K) (v : V)
      → find e.0 c ≡ none
      → find q c ≡ some v
      → find q (e ∷ c) ≡ some v
  unfolding find
  find-cons e c q v fresh there = elim (Bool-cases (key.equal e.0 q)) [
    | inl same ↦
        absurd
          (none-ne-some v (sym fresh ∙ ap (λ k. find k c) ((key.equal_iff e.0 q).0 same) ∙ there))
    | inr apart ↦ rw apart there
  ]
