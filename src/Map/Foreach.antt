-- ===== src/Map/Foreach.antt =====
-- The walk over the entries of the hash map in inc/ac/meta.h, and the release of the map. Both go by
-- the length of the bucket array, and not by its capacity.
use aurora_comms.Base.{
  suc, ◌+◌, ◌-◌, ◌*◌, ◌<◌, ◌^◌, ◌≡◌, refl, sym, ap, ◌∙◌, fun_ext, true, Bool-cases, inl, inr, List,
  [], ◌∷◌, ◌++◌, flatten, Option, arith, ◌==◌, ==_iff, if◌then◌else◌, length, replicate,
  length-replicate, Exec, ok, fault, use_after_free, ◌>>=◌, bind_assoc, Returns,
}
use aurora_comms.Key.{Key}
use aurora_comms.Entries.{Entries, find, IsDistinct}
use aurora_comms.Map.{
  Map, Bucket, freed, foreach_chain, foreach_bkts, map_foreach, free_bkts, map_free, map_set,
}
use aurora_comms.Map.Flatten.{length-flatten, flatten-Places}
use aurora_comms.Map.Grow.{length-in_use, is_full, map_set-Models}
use aurora_comms.Map.Layout.{in_use}
use aurora_comms.Map.Lookup.{Models}

module _ {ℓ κ} {K V : Type ℓ} {S : Type κ} where
  foreach_chain-append :
      (a b : Entries K V) (body : K × V → S → Exec S) (s : S)
      → foreach_chain (a ++ b) body s ≡ foreach_chain a body s >>= foreach_chain b body
  unfolding foreach_chain
  foreach_chain-append [] b body s = refl
  foreach_chain-append (e ∷ a) b body s =
      rw (fun_ext (foreach_chain-append a b body)) (sym (bind_assoc (body e s) _ _))

  -- The nested loops over buckets and entries are one loop over all the entries.
  foreach_bkts-flatten :
      (cs : List (Entries K V)) (body : K × V → S → Exec S) (s : S)
      → foreach_bkts (in_use cs []) body s ≡ foreach_chain (flatten cs) body s
  unfolding foreach_bkts flatten foreach_chain
  foreach_bkts-flatten [] body s = refl
  foreach_bkts-flatten (c ∷ cs) body s =
      rw (fun_ext (foreach_bkts-flatten cs body)) (sym (foreach_chain-append c (flatten cs) body s))

  -- A body that runs through for every entry and state.
  abbrev pub total_body : (K × V → S → S) → K × V → S → Exec S
  total_body g e s = ok (g e s)

  foreach_chain_total :
      (c : Entries K V) (g : K × V → S → S) (s : S)
      → Returns (foreach_chain c (total_body g) s) λ _. Unit {0}
  unfolding foreach_chain
  foreach_chain_total [] g s = (s, refl, tt)
  foreach_chain_total (e ∷ c) g s = foreach_chain_total c g (g e s)

  foreach_bkts_freed :
      (cs : List (Entries K V)) (rest : List (Bucket K V)) (g : K × V → S → S) (s : S)
      → foreach_bkts (in_use cs (freed ∷ rest)) (total_body g) s ≡ fault use_after_free
  unfolding foreach_bkts
  foreach_bkts_freed [] rest g s = refl
  foreach_bkts_freed (c ∷ cs) rest g s =
      let (s', run, done) = foreach_chain_total c g s in rw run (foreach_bkts_freed cs rest g s')

module _ {ℓ} {K V : Type ℓ} ⦃key : Key K⦄ where
  spare-length :
      (m : Map K V) (f : K → Option V) (valid : Models m f) → length m.bkts ≡ m.cap + valid.spare
  spare-length m f valid = omega (
    arith,
    ap length valid.stores.layout,
    length-in_use valid.chains (replicate valid.spare freed),
    length-replicate {A = Bucket K V} valid.spare freed,
    valid.width,
  )

  -- The order in which the entries of a map are walked: each key of the map once, with its value.
  pub record Walk (m : Map K V) (f : K → Option V) (es : Entries K V) : Type ℓ where
    pub distinct : IsDistinct es
    pub reads : (q : K) → find q es ≡ f q
    pub count : length es ≡ m.len

  -- While the bucket array of a well-formed map is as long as its capacity, a loop over the map
  -- runs its body over a list that has every entry of the map exactly once.
  pub map_foreach-Models {κ} :
      {S : Type κ} (m : Map K V) (f : K → Option V) (body : K × V → S → Exec S) (s : S)
      → Models m f
      → length m.bkts ≡ m.cap
      → (es : Entries K V) × Walk m f es × (map_foreach m body s ≡ foreach_chain es body s)
  unfolding map_foreach
  map_foreach-Models m f body s valid whole =
      let (distinct, reads) = flatten-Places valid.chains f valid.stores.places in
      let none_spare : valid.spare ≡ 0 = omega (arith, spare-length m f valid) in
      (
        flatten valid.chains,
        record {
          distinct = distinct;
          reads = reads;
          count = length-flatten valid.chains ∙ sym valid.stores.counted;
        },
        rw (valid.stores.layout, none_spare) (foreach_bkts-flatten valid.chains body s),
      )

  -- Once the bucket array is longer than its capacity, every loop over the map reads a freed bucket,
  -- if its body does not stop before.
  pub map_foreach_beyond {κ} :
      {S : Type κ} (m : Map K V) (f : K → Option V) (g : K × V → S → S) (s : S)
      → Models m f
      → m.cap < length m.bkts
      → map_foreach m (total_body g) s ≡ fault use_after_free
  unfolding map_foreach
  map_foreach_beyond m f g s valid beyond =
      let more : valid.spare ≡ suc (valid.spare - 1) = omega (arith, spare-length m f valid) in
      rw (valid.stores.layout, more) (foreach_bkts_freed valid.chains _ g s)

  -- After `ac_map_set` on a well-formed map with half of its buckets populated, a loop over the map
  -- whose body does not fault reads a freed bucket.
  pub map_foreach-map_set_full {κ} :
      {S : Type κ} (m : Map K V) (f : K → Option V) (k : K) (v : V) (g : K × V → S → S) (s : S)
      → m.cap * 3 < 2 ^ 64
      → m.len + 1 < 2 ^ 64
      → Models m f
      → is_full m ≡ true
      → map_set m k v >>= (λ r. map_foreach r (total_body g) s) ≡ fault use_after_free
  map_foreach-map_set_full m f k v g s fits few valid full =
      let (r, run, (models, len, cap, wide)) = map_set-Models m f k v fits few valid in
      rw run (
        map_foreach_beyond r _ g s models
          (omega (arith, valid.pos, rw full at cap, rw full at wide)))

  free_bkts_live : (cs : List (Entries K V)) → free_bkts (in_use cs []) ≡ ok tt
  unfolding free_bkts
  free_bkts_live [] = refl
  free_bkts_live (c ∷ cs) = free_bkts_live cs

  free_bkts_freed :
      (cs : List (Entries K V)) (rest : List (Bucket K V))
      → free_bkts (in_use cs (freed ∷ rest)) ≡ fault use_after_free
  unfolding free_bkts
  free_bkts_freed [] rest = refl
  free_bkts_freed (c ∷ cs) rest = free_bkts_freed cs rest

  -- A well-formed map is released without a fault if its bucket array is as long as its capacity;
  -- otherwise the release comes to a bucket that is freed already.
  pub map_free-Models :
      (m : Map K V) (f : K → Option V)
      → Models m f
      → map_free m ≡ (if length m.bkts == m.cap then ok tt else fault use_after_free)
  unfolding map_free
  map_free-Models m f valid = elim (Bool-cases (length m.bkts == m.cap)) [
    | inl whole ↦
        let none_spare : valid.spare ≡ 0 =
          omega (arith, spare-length m f valid, (==_iff (length m.bkts) m.cap).0 whole) in
        rw (whole, valid.stores.layout, none_spare) (free_bkts_live valid.chains)
    | inr beyond ↦
        let more : valid.spare ≡ suc (valid.spare - 1) = ground (arith, spare-length m f valid) in
        rw (beyond, valid.stores.layout, more) (free_bkts_freed valid.chains _)
  ]
