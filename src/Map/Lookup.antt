-- ===== src/Map/Lookup.antt =====
-- The abstract view of the hash map in inc/ac/meta.h, a function from keys to values, and lookup.
use aurora_comms.Base.{
  ℕ, zero, suc, ◌<◌, ◌≡◌, refl, sym, ap, ◌∙◌, List, [], ◌∷◌, map, append-nil, Option, none, arith,
  length, get_or, replicate, get_or-replicate, length-replicate, ok, ◌>>=◌,
}
use aurora_comms.Key.{Key}
use aurora_comms.Entries.{Entries, find}
use aurora_comms.Map.{
  Map, Bucket, live, freed, bucket_at, map_new_reserve, map_get_maybe_null, must_exist, map_get,
  is_some, map_contains,
}
use aurora_comms.Map.Insert.{slot-home}
use aurora_comms.Map.Layout.{total, occupied, bucket_at-in_use, home, home-lt, Places, Stores}

module _ {ℓ} (K V : Type ℓ) where
  pub total-empty : (n : ℕ) → total (replicate {A = Entries K V} n []) ≡ 0
  total-empty zero = refl
  total-empty (suc n) = omega (arith, total-empty n)

  pub occupied-empty : (n : ℕ) → occupied (replicate {A = Entries K V} n []) ≡ 0
  occupied-empty zero = refl
  occupied-empty (suc n) = omega (arith, occupied-empty n)

  pub map-live-empty : (n : ℕ) → replicate {A = Bucket K V} n (live []) ≡ map live (replicate n [])
  map-live-empty zero = refl
  map-live-empty (suc n) = ap (◌∷◌ (live [])) (map-live-empty n)

module _ {ℓ} {K V : Type ℓ} ⦃key : Key K⦄ where
  -- The map holds exactly the entries of `f`. Behind its buckets stand `spare` freed ones.
  pub record Models (m : Map K V) (f : K → Option V) : Type ℓ where
    pub chains : List (Entries K V)
    pub spare : ℕ
    pub width : length chains ≡ m.cap
    pub pos : 0 < m.cap
    pub stores : Stores m chains (replicate spare freed) f

  pub Places-congr :
      (cs : List (Entries K V)) (f g : K → Option V)
      → ((q : K) → f q ≡ g q)
      → Places cs f
      → Places cs g
  Places-congr cs f g h p = record {
    distinct = p.distinct;
    homed = p.homed;
    reads = λ q. p.reads q ∙ h q;
  }

  pub empty-Places : (n : ℕ) → Places {K = K} {V = V} (replicate n []) (λ _. none)
  unfolding find
  empty-Places n = record {
    distinct = λ i. rw (get_or-replicate {A = Entries K V} n i []) tt;
    homed = λ q i h. rw (get_or-replicate {A = Entries K V} n i []);
    reads = λ q. rw (
        get_or-replicate {A = Entries K V} n (home q (length (replicate {A = Entries K V} n [])))
          []);
  }

  -- A new map with at least one bucket is empty, and has no freed bucket.
  pub map_new_reserve-Models :
      (n : ℕ)
      → 0 < n
      → let m : Map K V = map_new_reserve n in
        Models m (λ _. none) × (m.len ≡ 0) × (length m.bkts ≡ m.cap)
  unfolding map_new_reserve
  map_new_reserve-Models n h = (
    record {
      chains = replicate n [];
      spare = 0;
      width = length-replicate n [];
      pos = h;
      stores = record {
        layout = map-live-empty K V n ∙ sym (append-nil (map live (replicate n [])));
        places = empty-Places n;
        counted = sym (total-empty K V n);
        populated = sym (occupied-empty K V n);
      };
    },
    refl,
    length-replicate n (live []),
  )

  module _ (m : Map K V) (f : K → Option V) (valid : Models m f) (k : K) where
    -- A lookup in a well-formed map does not fault, and reads the value under the key, or NULL.
    pub map_get_maybe_null-Models : map_get_maybe_null m k ≡ ok (f k)
    unfolding map_get_maybe_null
    map_get_maybe_null-Models =
        let cs = valid.chains in
        let rest = replicate valid.spare freed in
        let read : bucket_at m.bkts (home k (length cs)) ≡ ok (get_or cs (home k (length cs)) []) =
          rw valid.stores.layout
            (bucket_at-in_use cs rest _ (home-lt k (length cs) (rw valid.width valid.pos))) in
        rw (slot-home k m.cap valid.pos, ◌>>=◌, ← valid.width, read)
          (ap ok (valid.stores.places.reads k))

    -- `ac_map_get` returns the value of a key that is there, and stops the process otherwise.
    pub map_get-Models : map_get m k ≡ must_exist (f k)
    unfolding map_get
    map_get-Models = rw map_get_maybe_null-Models

    -- `ac_map_contains` tells whether the key is there.
    pub map_contains-Models : map_contains m k ≡ ok (is_some (f k))
    unfolding map_contains
    map_contains-Models = rw map_get_maybe_null-Models
