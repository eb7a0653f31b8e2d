-- ===== src/Map/Remove.antt =====
-- Removal from the hash map of inc/ac/meta.h.
use aurora_comms.Base.{
  fun_ext, Bool-cases, ok_inj, ℕ, zero, suc, [], ◌∷◌, ◌+◌, ◌<◌, ◌^◌, ◌≡◌, refl, sym, ap, ◌∙◌, true,
  Option-cases, inl, inr, List, Option, none, some, arith, ◌==◌, if◌then◌else◌, length, set,
  replicate, length-set, ok, ◌>>=◌, Returns,
}
use aurora_comms.Key.{Key}
use aurora_comms.Entries.{
  Entries, erase, find_of_erase-none, find-erase, length-erase, erase-IsDistinct,
  find-some_of_erase,
}
use aurora_comms.Map.{
  Map, Bucket, live, freed, slot, bucket_at, read_bucket, size_dec, map_remove, map_get_maybe_null,
}
use aurora_comms.Map.Grow.{Wrote-Models}
use aurora_comms.Map.Insert.{found, found-none, found_one, filled_eq, Wrote, slot-home}
use aurora_comms.Map.Layout.{
  occupied-le-total, total-set, occupied-set, bucket_at-in_use, set-in_use, home, home-lt, update,
  chain_of, Stores, set-Places,
}
use aurora_comms.Map.Lookup.{Models, Places-congr, map_get_maybe_null-Models}

module _ {ℓ} {K V : Type ℓ} ⦃key : Key K⦄ where
  module _ (m : Map K V) (cs : List (Entries K V)) (rest : List (Bucket K V)) (f : K → Option V)
      (s : Stores m cs rest f) (pos : 0 < length cs) (k : K) (few : m.len < 2 ^ 64) where
    -- The entry of a key that stands in the map is taken out, and counted off.
    erase-Wrote :
        (c' : Entries K V)
        → erase k (chain_of cs k) ≡ some c'
        → Wrote m (length cs) rest f k none (record m {
          bkts = set m.bkts (home k (length cs)) (live c');
          len = size_dec m.len;
          pop_bkts = if length c' == 0 then size_dec m.pop_bkts else m.pop_bkts;
        })
    erase-Wrote c' e =
        let i = home k (length cs) in
        let c = chain_of cs k in
        let old = length-erase k c c' e in
        let within = home-lt k (length cs) pos in
        let totals = total-set cs i c' within in
        record {
          chains = set cs i c';
          width = length-set cs i c';
          stores = record {
            layout = rw s.layout (set-in_use cs rest i c' within);
            places =
                set-Places cs f k none c' pos s.places
                  (erase-IsDistinct k c c' e (s.places.distinct i))
                  (λ q. find-erase k q c c' e (s.places.distinct i));
            counted = omega (arith, s.counted, totals, old);
            populated = ground (
              arith,
              s.populated,
              s.counted,
              totals,
              occupied-le-total cs,
              occupied-set cs i c' within,
              filled_eq c,
              filled_eq c',
              old,
            );
          };
          capacity = refl;
          count = omega (
            arith,
            s.counted,
            totals,
            old,
            found_one (f k) (λ n. find-some_of_erase k c c' e (s.places.reads k ∙ n)),
          );
        }

    -- A key that does not stand in the map is not there afterwards either.
    absent-Stores : erase k (chain_of cs k) ≡ none → Stores m cs rest (update f k none)
    absent-Stores e = record {
      layout = s.layout;
      places =
          Places-congr cs f (update f k none) (λ q. ground (arith, absent, ap_equal q)) s.places;
      counted = s.counted;
      populated = s.populated;
    }
      where
        absent : f k ≡ none
        absent = sym (s.places.reads k) ∙ find_of_erase-none k (chain_of cs k) e

        ap_equal : (q : K) → key.equal k q ≡ true → f k ≡ f q
        ap_equal q h = ap f ((key.equal_iff k q).0 h)

  -- On a well-formed map whose count fits into a `size_t`, `ac_map_remove` does not fault. It takes
  -- out the entry of the key, if there is one, and counts it off; it changes no other key, nor the
  -- capacity, nor the length of the bucket array.
  pub map_remove-Models :
      (m : Map K V) (f : K → Option V) (k : K)
      → m.len < 2 ^ 64
      → Models m f
      → Returns (map_remove m k) λ r.
        Models r (update f k none)
        × (r.len + found (f k) ≡ m.len)
        × (r.cap ≡ m.cap)
        × (length r.bkts ≡ length m.bkts)
  unfolding map_remove
  map_remove-Models m f k few valid =
      let cs = valid.chains in
      let rest = replicate valid.spare freed in
      let pos : 0 < length cs = rw valid.width valid.pos in
      let here : slot k m.cap ≡ ok (home k (length cs)) =
        slot-home k m.cap valid.pos ∙ ap (λ n. ok (home k n)) (sym valid.width) in
      let read : bucket_at m.bkts (home k (length cs)) ≡ ok (chain_of cs k) =
        rw valid.stores.layout (bucket_at-in_use cs rest _ (home-lt k (length cs) pos)) in
      elim (Option-cases (erase k (chain_of cs k))) [
        | inl e ↦
            let absent =
              sym (valid.stores.places.reads k) ∙ find_of_erase-none k (chain_of cs k) e in
            (
              m,
              rw (here, ◌>>=◌, read, e),
              (
                record {
                  chains = cs;
                  spare = valid.spare;
                  width = valid.width;
                  pos = valid.pos;
                  stores = absent-Stores m cs rest f valid.stores pos k few e;
                },
                omega (arith, found-none (f k) absent),
                refl,
                refl,
              ),
            )
        | inr (c', e) ↦
            let w = erase-Wrote m cs rest f valid.stores pos k few c' e in
            let (models, same) = Wrote-Models m _ f k none valid w in
            (_, rw (here, ◌>>=◌, read, e), (models, omega (arith, w.count), refl, same))
      ]

  -- After `ac_map_remove` on a well-formed map, a lookup does not find the key, and finds under
  -- another key what it found before.
  pub map_get-map_remove :
      (m : Map K V) (f : K → Option V) (k q : K)
      → m.len < 2 ^ 64
      → Models m f
      → map_remove m k >>= (λ r. map_get_maybe_null r q)
        ≡ (if key.equal k q then ok none else map_get_maybe_null m q)
  map_get-map_remove m f k q few valid =
      let (r, run, (models, len, cap, wide)) = map_remove-Models m f k few valid in
      rw
        (
          run,
          map_get_maybe_null-Models r (update f k none) models q,
          map_get_maybe_null-Models m f valid q,
        )
        (ground arith)

  -- A bucket that is written is read back.
  pub bucket_at-set :
      (bkts : List (Bucket K V)) (i : ℕ) (c d : Entries K V)
      → bucket_at bkts i ≡ ok c
      → bucket_at (set bkts i (live d)) i ≡ ok d
  unfolding bucket_at read_bucket
  bucket_at-set [] i c d h = absurd (ground arith)
  bucket_at-set (b ∷ bkts) zero c d h = refl
  bucket_at-set (b ∷ bkts) (suc i) c d h = bucket_at-set bkts i c d h

  -- The bucket of a removed key holds the other entries, in their order.
  pub map_remove-bucket_at :
      (m r : Map K V) (k : K) (i : ℕ) (c c' : Entries K V)
      → slot k m.cap ≡ ok i
      → bucket_at m.bkts i ≡ ok c
      → erase k c ≡ some c'
      → map_remove m k ≡ ok r
      → bucket_at r.bkts i ≡ ok c'
  unfolding map_remove
  map_remove-bucket_at m r k i c c' home read e run =
      let removed : Map K V = record m {
        bkts = set m.bkts i (live c');
        len = size_dec m.len;
        pop_bkts = if length c' == 0 then size_dec m.pop_bkts else m.pop_bkts;
      } in
      let done : map_remove m k ≡ ok removed = rw (home, ◌>>=◌, read, ◌>>=◌, e) in
      let same : r ≡ removed = ok_inj (sym run ∙ done) in
      ap (λ x. bucket_at x.bkts i) same ∙ bucket_at-set m.bkts i c c' read

  -- Nothing is taken from a function that has no value there.
  pub update-none : (f : K → Option V) (k : K) → f k ≡ none → f ≡ update f k none
  update-none f k absent = fun_ext same
    where
      same : (q : K) → f q ≡ update f k none q
      same q = elim (Bool-cases (key.equal k q)) [
        | inl here ↦ rw here (ap f (sym ((key.equal_iff k q).0 here)) ∙ absent)
        | inr apart ↦ rw apart refl
      ]
