-- ===== src/Map/Layout.antt =====
-- What the bucket array of the hash map in inc/ac/meta.h means: the buckets in use, where a key
-- stands, what is read under it, and how the two counters follow.
use aurora_comms.Base.{
  ℕ, zero, suc, ◌+◌, ◌%◌, ◌≤◌, ◌<◌, ◌≡◌, ◌≢◌, refl, ap, true, List, [], ◌∷◌, ◌++◌, map, Option,
  none, arith, ◌==◌, ==_iff, Bool-cases, inl, inr, if◌then◌else◌, length, get_or, set, length-set,
  get_or-set, ok,
}
use aurora_comms.Key.{Key}
use aurora_comms.Entries.{Entries, find, IsDistinct}
use aurora_comms.Map.{Map, Bucket, live, bucket_at, read_bucket}

module _ {ℓ} {K V : Type ℓ} where
  -- The number of entries, and of buckets with an entry.
  abbrev pub total : List (Entries K V) → ℕ
  total [] = 0
  total (c ∷ cs) = length c + total cs

  abbrev pub filled : Entries K V → ℕ
  filled [] = 0
  filled (e ∷ c) = 1

  abbrev pub occupied : List (Entries K V) → ℕ
  occupied [] = 0
  occupied (c ∷ cs) = filled c + occupied cs

  pub filled-le : (c : Entries K V) → filled c ≤ length c
  filled-le [] = omega arith
  filled-le (e ∷ c) = omega arith

  pub occupied-le-total : (cs : List (Entries K V)) → occupied cs ≤ total cs
  occupied-le-total [] = omega arith
  occupied-le-total (c ∷ cs) = omega (arith, occupied-le-total cs, filled-le c)

  pub total-set :
      (cs : List (Entries K V)) (i : ℕ) (c : Entries K V)
      → i < length cs
      → total (set cs i c) + length (get_or cs i []) ≡ total cs + length c
  total-set [] i c h = absurd (omega arith)
  total-set (x ∷ cs) zero c h = omega arith
  total-set (x ∷ cs) (suc i) c h = omega (arith, total-set cs i c (omega arith))

  pub occupied-set :
      (cs : List (Entries K V)) (i : ℕ) (c : Entries K V)
      → i < length cs
      → occupied (set cs i c) + filled (get_or cs i []) ≡ occupied cs + filled c
  occupied-set [] i c h = absurd (omega arith)
  occupied-set (x ∷ cs) zero c h = omega arith
  occupied-set (x ∷ cs) (suc i) c h = omega (arith, occupied-set cs i c (omega arith))

  -- The buckets in use stand first in the array.
  abbrev pub in_use : List (Entries K V) → List (Bucket K V) → List (Bucket K V)
  in_use cs rest = map live cs ++ rest

  pub bucket_at-in_use :
      (cs : List (Entries K V)) (rest : List (Bucket K V)) (i : ℕ)
      → i < length cs
      → bucket_at (in_use cs rest) i ≡ ok (get_or cs i [])
  unfolding bucket_at read_bucket
  bucket_at-in_use [] rest i h = absurd (omega arith)
  bucket_at-in_use (c ∷ cs) rest zero h = refl
  bucket_at-in_use (c ∷ cs) rest (suc i) h = bucket_at-in_use cs rest i (omega arith)

  pub set-in_use :
      (cs : List (Entries K V)) (rest : List (Bucket K V)) (i : ℕ) (c : Entries K V)
      → i < length cs
      → set (in_use cs rest) i (live c) ≡ in_use (set cs i c) rest
  set-in_use [] rest i c h = absurd (omega arith)
  set-in_use (x ∷ cs) rest zero c h = refl
  set-in_use (x ∷ cs) rest (suc i) c h = ap (◌∷◌ (live x)) (set-in_use cs rest i c (omega arith))

module _ {ℓ} {K : Type ℓ} ⦃key : Key K⦄ where
  -- The bucket of a key among `n`.
  unfoldable pub home : K → ℕ → ℕ
  home k n = key.hash k % n

  pub home-lt : (k : K) (n : ℕ) → 0 < n → home k n < n
  unfolding home
  home-lt k n h = omega arith

  pub home_congr : (k q : K) (n : ℕ) → key.equal k q ≡ true → home k n ≡ home q n
  home_congr k q n h = ap (λ x. home x n) ((key.equal_iff k q).0 h)

  abbrev pub update {κ} : {V : Type κ} → (K → Option V) → K → Option V → K → Option V
  update f k v q = if key.equal k q then v else f q

module _ {ℓ} {K V : Type ℓ} ⦃key : Key K⦄ where
  abbrev pub chain_of : List (Entries K V) → K → Entries K V
  chain_of cs k = get_or cs (home k (length cs)) []

  -- The buckets `cs` hold the entries of `f`: a key stands once, and only in its home bucket.
  pub record Places (cs : List (Entries K V)) (f : K → Option V) : Type ℓ where
    pub distinct : (i : ℕ) → IsDistinct (get_or cs i [])
    pub homed : (q : K) (i : ℕ) → home q (length cs) ≢ i → find q (get_or cs i []) ≡ none
    pub reads : (q : K) → find q (chain_of cs q) ≡ f q

  -- The map `m` has the buckets `cs`, then `rest`, and counts its entries right.
  pub record Stores (m : Map K V) (cs : List (Entries K V)) (rest : List (Bucket K V))
      (f : K → Option V) : Type ℓ where
    pub layout : m.bkts ≡ in_use cs rest
    pub places : Places cs f
    pub counted : m.len ≡ total cs
    pub populated : m.pop_bkts ≡ occupied cs

  -- One bucket is written: the home bucket of `k`.
  pub set-Places :
      (cs : List (Entries K V)) (f : K → Option V) (k : K) (v : Option V) (c : Entries K V)
      → 0 < length cs
      → Places cs f
      → IsDistinct c
      → ((q : K) → find q c ≡ (if key.equal k q then v else find q (chain_of cs k)))
      → Places (set cs (home k (length cs)) c) (update f k v)
  set-Places cs f k v c pos p d reads =
      let n = length cs in
      let i = home k n in
      record {
        distinct =
            λ j. rw (get_or-set cs i j c [] (home-lt k n pos)) (ground (arith, p.distinct j));
        homed = λ q j h.
            rw (get_or-set cs i j c [] (home-lt k n pos))
              (ground (arith, p.homed q j, reads q, home_congr k q n, length-set cs i c));
        reads = λ q.
            rw (length-set cs i c, get_or-set cs i (home q n) c [] (home-lt k n pos))
              (elim (Bool-cases (i == home q n)) [
                | inl same ↦
                    let shared : chain_of cs k ≡ chain_of cs q =
                      ap (λ j. get_or cs j []) ((==_iff i (home q n)).0 same) in
                    rw same (cc (reads q, p.reads q, ap (find q) shared))
                | inr apart ↦ rw apart (ground (arith, p.reads q, home_congr k q n))
              ]);
      }
