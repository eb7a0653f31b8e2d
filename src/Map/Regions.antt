-- ===== src/Map/Regions.antt =====
-- The three regions of the bucket array while the hash map of inc/ac/meta.h grows.
use native.Mathlib.Nat.{zero-add, suc-add}
use native.Mathlib.Numerals.{add-one}
use aurora_comms.Base.{
  ℕ, zero, suc, ◌+◌, ◌≡◌, ◌≢◌, refl, sym, ap, List, [], ◌∷◌, ◌++◌, map, Option, none, some, length,
  get_elem?, set, replicate, length-map, ok, or_else,
}
use aurora_comms.Key.{Key}
use aurora_comms.Entries.{Entries, find}
use aurora_comms.Map.{Map, Bucket, live, freed, bucket_at, read_bucket}
use aurora_comms.Map.Layout.{in_use, Stores}
use aurora_comms.Map.Lookup.{Places-congr}

pub or_else-none {ℓ} : {V : Type ℓ} (o : Option V) → o ≡ or_else o none
unfolding or_else
or_else-none none = refl
or_else-none (some v) = refl

module _ {ℓ} {A : Type ℓ} where
  pub get_elem?-append_add :
      (xs ys : List A) (i : ℕ) → get_elem? (xs ++ ys) (length xs + i) ≡ get_elem? ys i
  get_elem?-append_add [] ys i = rw zero-add
  get_elem?-append_add (x ∷ xs) ys i = rw suc-add (get_elem?-append_add xs ys i)

  pub set-append_add :
      (xs ys : List A) (i : ℕ) (v : A) → set (xs ++ ys) (length xs + i) v ≡ xs ++ set ys i v
  set-append_add [] ys i v = rw zero-add
  set-append_add (x ∷ xs) ys i v = rw suc-add (ap (◌∷◌ x) (set-append_add xs ys i v))

  pub get_elem?-replicate :
      (n : ℕ) (a : A) (ys : List A) → get_elem? (replicate n a ++ ys) n ≡ get_elem? ys 0
  get_elem?-replicate zero a ys = refl
  get_elem?-replicate (suc n) a ys = get_elem?-replicate n a ys

  pub set-replicate :
      (n : ℕ) (a x : A) (ys : List A)
      → set (replicate n a ++ x ∷ ys) n a ≡ replicate (suc n) a ++ ys
  set-replicate zero a x ys = refl
  set-replicate (suc n) a x ys = ap (◌∷◌ a) (set-replicate n a x ys)

module _ {ℓ} {K V : Type ℓ} ⦃key : Key K⦄ where
  -- The old buckets in the third region: `b` are done.
  abbrev pub region : ℕ → List (Entries K V) → List (Bucket K V)
  region b olds = replicate b freed ++ map live olds

  pub bucket_at-region :
      (cs : List (Entries K V)) (b : ℕ) (c : Entries K V) (olds : List (Entries K V))
      → bucket_at (in_use cs (region b (c ∷ olds))) (length cs + b) ≡ ok c
  unfolding bucket_at read_bucket
  bucket_at-region cs b c olds = rw (
    sym (length-map live cs),
    get_elem?-append_add (map live cs) (region b (c ∷ olds)) b,
    get_elem?-replicate b freed (map live (c ∷ olds)),
  )

  pub set-region :
      (cs : List (Entries K V)) (b : ℕ) (c : Entries K V) (olds : List (Entries K V))
      → set (in_use cs (region b (c ∷ olds))) (length cs + b) freed
        ≡ in_use cs (region (b + 1) olds)
  set-region cs b c olds = rw (
    sym (length-map live cs),
    set-append_add (map live cs) (region b (c ∷ olds)) b freed,
    set-replicate b freed (live c) (map live olds),
    add-one b,
  )

  -- The entries of `es` were added to those of `f`.
  pub record Added (m : Map K V) (n : ℕ) (rest : List (Bucket K V)) (f : K → Option V)
      (es : Entries K V) (r : Map K V) : Type ℓ where
    pub chains : List (Entries K V)
    pub width : length chains ≡ n
    pub stores : Stores r chains rest (λ q. or_else (f q) (find q es))
    pub capacity : r.cap ≡ m.cap
    pub count : r.len ≡ m.len + length es

  pub Stores-congr :
      (m : Map K V) (cs : List (Entries K V)) (rest : List (Bucket K V)) (f g : K → Option V)
      → ((q : K) → f q ≡ g q)
      → Stores m cs rest f
      → Stores m cs rest g
  Stores-congr m cs rest f g h s = record {
    layout = s.layout;
    places = Places-congr cs f g h s.places;
    counted = s.counted;
    populated = s.populated;
  }

  -- No key of `es` stands in `f`.
  abbrev pub IsFresh : Entries K V → (K → Option V) → Type ℓ
  IsFresh es f = (q : K) → find q es ≢ none → f q ≡ none
