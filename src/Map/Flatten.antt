-- ===== src/Map/Flatten.antt =====
-- The entries of all buckets of the hash map in inc/ac/meta.h, in the order of a walk.
use aurora_comms.Base.{
  ℕ, zero, suc, ◌≡◌, ◌≢◌, refl, sym, ◌∙◌, Bool-cases, Option-cases, inl, inr, List, [], ◌∷◌,
  flatten, Option, none, arith, ◌==◌, ==_iff, length, get_or, length-append, or_else,
}
use aurora_comms.Key.{Key}
use aurora_comms.Entries.{Entries, find, IsDistinct, find-append, append-IsDistinct}
use aurora_comms.Map.Layout.{total, home, Places}

module _ {ℓ} {K V : Type ℓ} ⦃key : Key K⦄ where
  pub length-flatten : (cs : List (Entries K V)) → length (flatten cs) ≡ total cs
  unfolding flatten
  length-flatten [] = refl
  length-flatten (c ∷ cs) = omega (arith, length-append c (flatten cs), length-flatten cs)

  find-flatten_nowhere :
      (q : K) (cs : List (Entries K V))
      → ((i : ℕ) → find q (get_or cs i []) ≡ none)
      → find q (flatten cs) ≡ none
  unfolding flatten find or_else
  find-flatten_nowhere q [] h = refl
  find-flatten_nowhere q (c ∷ cs) h =
      rw (find-append q c (flatten cs), h 0) (find-flatten_nowhere q cs (λ i. h (suc i)))

  find-flatten_only :
      (q : K) (cs : List (Entries K V)) (j : ℕ)
      → ((i : ℕ) → i ≢ j → find q (get_or cs i []) ≡ none)
      → find q (flatten cs) ≡ find q (get_or cs j [])
  unfolding flatten find or_else
  find-flatten_only q [] j h = refl
  find-flatten_only q (c ∷ cs) zero h =
      rw (find-append q c (flatten cs), find-flatten_nowhere q cs (λ i. h (suc i) (omega arith)))
        (ground (arith, Option-cases (find q c)))
  find-flatten_only q (c ∷ cs) (suc j) h =
      rw (find-append q c (flatten cs), h 0 (omega arith))
        (find-flatten_only q cs j (λ i n. h (suc i) (omega arith)))

  -- A key stands in one bucket only.
  abbrev IsSpread : List (Entries K V) → Type ℓ
  IsSpread cs =
      (q : K) (i j : ℕ) → i ≢ j → find q (get_or cs i []) ≢ none → find q (get_or cs j []) ≡ none

  flatten-IsDistinct :
      (cs : List (Entries K V))
      → ((i : ℕ) → IsDistinct (get_or cs i []))
      → IsSpread cs
      → IsDistinct (flatten cs)
  unfolding flatten
  flatten-IsDistinct [] d s = tt
  flatten-IsDistinct (c ∷ cs) d s =
      append-IsDistinct c (flatten cs) (d 0)
        (flatten-IsDistinct cs (λ i. d (suc i))
          (λ q i j n h. s q (suc i) (suc j) (λ e. n (omega arith)) h))
        (λ q h. find-flatten_nowhere q cs (λ i. s q 0 (suc i) (omega arith) h))

  Places-IsSpread : (cs : List (Entries K V)) (f : K → Option V) → Places cs f → IsSpread cs
  Places-IsSpread cs f p q i j apart here = elim (Bool-cases (home q (length cs) == j)) [
    | inl there ↦
        absurd (here (p.homed q i (λ e. apart (sym e ∙ (==_iff (home q (length cs)) j).0 there))))
    | inr away ↦ p.homed q j (λ e. ground arith)
  ]

  -- Each key of the map stands once in the walk, with its value.
  pub flatten-Places :
      (cs : List (Entries K V)) (f : K → Option V)
      → Places cs f
      → IsDistinct (flatten cs) × ((q : K) → find q (flatten cs) ≡ f q)
  flatten-Places cs f p = (
    flatten-IsDistinct cs p.distinct (Places-IsSpread cs f p),
    λ q.
        find-flatten_only q cs (home q (length cs)) (λ i n. p.homed q i (λ e. n (sym e)))
        ∙ p.reads q,
  )
