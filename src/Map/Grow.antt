-- ===== src/Map/Grow.antt =====
-- Growth of the hash map of inc/ac/meta.h, and `ac_map_set`.
use native.Mathlib.Nat.{zero-add}
use aurora_comms.Base.{
  ℕ, ◌+◌, ◌*◌, ◌/◌, ◌<◌, ◌^◌, ◌≡◌, refl, sym, ap, ap₂, ◌∙◌, Bool, Bool-cases, inl, inr, List, [],
  map, flatten, append-nil, Option, none, some, arith, ◌==◌, if◌then◌else◌, length, take, replicate,
  length-append, length-map, length-replicate, take-append, ok, ◌>>=◌, Returns, or_else,
}
use aurora_comms.Key.{Key}
use aurora_comms.Arr.{size}
use aurora_comms.Entries.{Entries, find}
use aurora_comms.Map.{
  Map, Bucket, live, freed, three_regions, rehash_from, map_grow, map_set_no_rehash, map_set,
  map_get_maybe_null,
}
use aurora_comms.Map.Flatten.{length-flatten, flatten-Places}
use aurora_comms.Map.Insert.{found, Wrote, set_no_rehash-Wrote}
use aurora_comms.Map.Layout.{in_use, update, Stores}
use aurora_comms.Map.Lookup.{
  Models, Places-congr, empty-Places, total-empty, occupied-empty, map-live-empty,
  map_get_maybe_null-Models,
}
use aurora_comms.Map.Rehash.{rehash_from-Added}
use aurora_comms.Map.Regions.{region}

none_else {ℓ} : {V : Type ℓ} (o : Option V) → or_else none o ≡ o
unfolding or_else
none_else o = refl

module _ {ℓ} {K V : Type ℓ} ⦃key : Key K⦄ where
  pub length-in_use :
      (cs : List (Entries K V)) (rest : List (Bucket K V))
      → length (in_use cs rest) ≡ length cs + length rest
  length-in_use cs rest = omega (arith, length-append (map live cs) rest, length-map live cs)

  take-in_use :
      (cs : List (Entries K V)) (rest : List (Bucket K V)) (n : ℕ)
      → length cs ≡ n
      → take n (in_use cs rest) ≡ map live cs
  take-in_use cs rest n e =
      ap (λ k. take k (in_use cs rest)) (sym (length-map live cs ∙ e))
      ∙ take-append (map live cs) rest

  -- The third region holds the old buckets, before it stand the new ones, all empty.
  three_regions-Stores :
      (m : Map K V) (cs : List (Entries K V)) (rest : List (Bucket K V))
      → m.bkts ≡ in_use cs rest
      → length cs ≡ m.cap
      → m.cap * 2 < 2 ^ 64
      → Stores (three_regions m) (replicate (m.cap * 2) []) (region 0 cs) (λ _. none)
  unfolding three_regions
  three_regions-Stores m cs rest lay width fits =
      let double : size (m.cap * 2) ≡ m.cap * 2 = omega arith in
      record {
        layout = rw (double, lay, take-in_use cs rest m.cap width, map-live-empty K V (m.cap * 2));
        places = empty-Places (m.cap * 2);
        counted = sym (total-empty K V (m.cap * 2));
        populated = sym (occupied-empty K V (m.cap * 2));
      }

  map_grow_run :
      (m r : Map K V)
      → m.cap * 2 < 2 ^ 64
      → rehash_from m.cap 0 (m.cap * 2) (three_regions m) ≡ ok r
      → map_grow m ≡ ok (record r { cap = m.cap * 2 })
  unfolding map_grow
  map_grow_run m r fits run =
      let double : size (m.cap * 2) ≡ m.cap * 2 = omega arith in rw (double, run)

  -- Growth of a well-formed map does not fault if three times the capacity fits into a `size_t`,
  -- and the count does. It keeps every entry and doubles the capacity, and leaves as many places
  -- behind the new capacity in the bucket array as the old capacity was.
  pub map_grow-Models :
      (m : Map K V) (f : K → Option V)
      → m.cap * 3 < 2 ^ 64
      → m.len < 2 ^ 64
      → Models m f
      → Returns
          (map_grow m)
          λ r. Models r f × (r.cap ≡ m.cap * 2) × (r.len ≡ m.len) × (length r.bkts ≡ r.cap + m.cap)
  unfolding or_else three_regions
  map_grow-Models m f fits few valid =
      let cs = valid.chains in
      let fresh : List (Entries K V) = replicate (m.cap * 2) [] in
      let wide : length fresh ≡ m.cap * 2 = length-replicate (m.cap * 2) [] in
      let (distinct, reads) = flatten-Places cs f valid.stores.places in
      let count = length-flatten cs in
      let done : region (0 + length cs) [] ≡ replicate m.cap freed =
        append-nil (replicate (0 + length cs) freed)
        ∙ ap (λ n. replicate n freed) (zero-add (length cs) ∙ valid.width) in
      let start = three_regions-Stores m cs _ valid.stores.layout valid.width (omega arith) in
      let (r, run, t) =
        rehash_from-Added cs 0 (three_regions m) fresh (λ _. none) start
          (omega (arith, wide, valid.pos)) (omega (arith, count, valid.stores.counted)) distinct
          (λ q n. refl) in
      (
        record r { cap = m.cap * 2 },
        map_grow_run m r (omega arith)
            (ap₂ (λ a n. rehash_from a 0 n (three_regions m)) (sym valid.width) (sym wide) ∙ run),
        (
          record {
            chains = t.chains;
            spare = m.cap;
            width = t.width ∙ wide;
            pos = omega (arith, valid.pos);
            stores = record {
              layout = t.stores.layout ∙ ap (in_use t.chains) done;
              places =
                  Places-congr t.chains _ f (λ q. none_else (find q (flatten cs)) ∙ reads q)
                    t.stores.places;
              counted = t.stores.counted;
              populated = t.stores.populated;
            };
          },
          refl,
          omega (arith, t.count, count, valid.stores.counted),
          omega (
            arith,
            ap length t.stores.layout,
            length-in_use t.chains (region (0 + length cs) []),
            ap length done,
            length-replicate {A = Bucket K V} m.cap freed,
            t.width,
            wide,
          ),
        ),
      )

  pub Wrote-Models :
      (m r : Map K V) (f : K → Option V) (k : K) (v : Option V) (valid : Models m f)
      → Wrote m (length valid.chains) (replicate valid.spare freed) f k v r
      → Models r (update f k v) × (length r.bkts ≡ length m.bkts)
  Wrote-Models m r f k v valid w = (
    record {
      chains = w.chains;
      spare = valid.spare;
      width = w.width ∙ valid.width ∙ sym w.capacity;
      pos = rw w.capacity valid.pos;
      stores = w.stores;
    },
    omega (
      arith,
      ap length w.stores.layout,
      ap length valid.stores.layout,
      length-in_use w.chains (replicate valid.spare freed),
      length-in_use valid.chains (replicate valid.spare freed),
      w.width,
    ),
  )

  insert-Models :
      (m : Map K V) (f : K → Option V) (k : K) (v : V)
      → m.len + 1 < 2 ^ 64
      → Models m f
      → Returns (map_set_no_rehash m m.cap k v) λ r.
        Models r (update f k (some v))
        × (r.cap ≡ m.cap)
        × (length r.bkts ≡ length m.bkts)
        × (r.len + found (f k) ≡ m.len + 1)
  insert-Models m f k v few valid =
      let (r, run, w) =
        set_no_rehash-Wrote m valid.chains (replicate valid.spare freed) f valid.stores
          (rw valid.width valid.pos) k v few in
      let (models, same) = Wrote-Models m r f k (some v) valid w in
      (
        r,
        ap (λ n. map_set_no_rehash m n k v) (sym valid.width) ∙ run,
        (models, w.capacity, same, w.count),
      )

  -- As many populated buckets as half the capacity: the next insertion grows the map.
  abbrev pub is_full : Map K V → Bool
  is_full m = m.pop_bkts == m.cap / 2

  -- On a well-formed map whose capacity times three and whose count plus one fit into a `size_t`,
  -- `ac_map_set` does not fault. It puts the value under the key and changes no other key, counts a
  -- new key, and doubles the capacity exactly if half of the buckets are populated; the length of
  -- the bucket array is then three times the old capacity, and stays as it is otherwise.
  pub map_set-Models :
      (m : Map K V) (f : K → Option V) (k : K) (v : V)
      → m.cap * 3 < 2 ^ 64
      → m.len + 1 < 2 ^ 64
      → Models m f
      → Returns (map_set m k v) λ r.
        Models r (update f k (some v))
        × (r.len + found (f k) ≡ m.len + 1)
        × (r.cap ≡ (if is_full m then m.cap * 2 else m.cap))
        × (length r.bkts ≡ (if is_full m then m.cap * 3 else length m.bkts))
  unfolding map_set
  map_set-Models m f k v fits few valid = elim (Bool-cases (is_full m)) [
    | inl full ↦
        let (g, grown, (gm, cap, len, wide)) = map_grow-Models m f fits (omega arith) valid in
        let (r, run, (rm, cap', wide', len')) = insert-Models g f k v (omega arith) gm in
        (r, rw (full, grown) run, (rm, omega arith, rw full (cap' ∙ cap), rw full (omega arith)))
    | inr room ↦
        let (r, run, (rm, cap', wide', len')) = insert-Models m f k v few valid in
        (r, rw room run, (rm, len', rw room cap', rw room wide'))
  ]

  -- After `ac_map_set` on a well-formed map that may grow, a lookup finds the value under the key,
  -- and under another key what it found before.
  pub map_get-map_set :
      (m : Map K V) (f : K → Option V) (k q : K) (v : V)
      → m.cap * 3 < 2 ^ 64
      → m.len + 1 < 2 ^ 64
      → Models m f
      → map_set m k v >>= (λ r. map_get_maybe_null r q)
        ≡ (if key.equal k q then ok (some v) else map_get_maybe_null m q)
  map_get-map_set m f k q v fits few valid =
      let (r, run, (models, len, cap, wide)) = map_set-Models m f k v fits few valid in
      rw
        (
          run,
          map_get_maybe_null-Models r (update f k (some v)) models q,
          map_get_maybe_null-Models m f valid q,
        )
        (ground arith)
