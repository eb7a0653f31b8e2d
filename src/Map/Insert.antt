-- ===== src/Map/Insert.antt =====
-- Lookup, and insertion without growth, in the hash map of inc/ac/meta.h.
use aurora_comms.Base.{
  ℕ, zero, suc, ◌+◌, ◌<◌, ◌^◌, ◌≡◌, ◌≢◌, refl, sym, ◌∙◌, Option-cases, inl, inr, List, [], ◌∷◌,
  ◌++◌, Option, none, some, arith, ◌==◌, if◌then◌else◌, length, set, length-append, length-set, ok,
  ◌>>=◌, Returns,
}
use aurora_comms.Key.{Key}
use aurora_comms.Entries.{
  Entries, replace, find-replace, find-eq-none, length-replace, replace-IsDistinct, snoc-IsDistinct,
  find-snoc, find-some_of_replace,
}
use aurora_comms.Map.{Map, Bucket, live, slot, bucket_at, append_entry, map_set_no_rehash}
use aurora_comms.Map.Layout.{
  filled, occupied, occupied-le-total, total-set, occupied-set, bucket_at-in_use, set-in_use, home,
  home-lt, update, chain_of, Stores, set-Places,
}

-- One, if there is a value.
abbrev pub found {ℓ} : {V : Type ℓ} → Option V → ℕ
found none = 0
found (some v) = 1

pub found-none {ℓ} : {V : Type ℓ} (o : Option V) → o ≡ none → found o ≡ 0
found-none o h = ground arith

pub found_one {ℓ} : {V : Type ℓ} (o : Option V) → o ≢ none → found o ≡ 1
found_one none h = absurd (h refl)
found_one (some v) h = refl

module _ {ℓ} {K : Type ℓ} ⦃key : Key K⦄ where
  pub slot-home : (k : K) (n : ℕ) → 0 < n → slot k n ≡ ok (home k n)
  unfolding slot home
  slot-home k zero h = absurd (omega arith)
  slot-home k (suc n) h = refl

module _ {ℓ} {K V : Type ℓ} ⦃key : Key K⦄ where
  -- A write of `v` at `k` that leaves the number of buckets, the rest of the array and the capacity.
  pub record Wrote (m : Map K V) (n : ℕ) (rest : List (Bucket K V)) (f : K → Option V) (k : K)
      (v : Option V) (r : Map K V) : Type ℓ where
    pub chains : List (Entries K V)
    pub width : length chains ≡ n
    pub stores : Stores r chains rest (update f k v)
    pub capacity : r.cap ≡ m.cap
    pub count : r.len + found (f k) ≡ m.len + found v

  filled-snoc : (c : Entries K V) (e : K × V) → filled (c ++ e ∷ []) ≡ 1
  filled-snoc [] e = refl
  filled-snoc (x ∷ c) e = refl

  pub filled_eq : (c : Entries K V) → filled c ≡ (if length c == 0 then 0 else 1)
  filled_eq [] = refl
  filled_eq (e ∷ c) = ground arith

  filled_same : (c d : Entries K V) → length c ≡ length d → filled c ≡ filled d
  filled_same c d h = ground (arith, filled_eq c, filled_eq d)

  module _ (m : Map K V) (cs : List (Entries K V)) (rest : List (Bucket K V)) (f : K → Option V)
      (s : Stores m cs rest f) (pos : 0 < length cs) (k : K) (v : V) where
    -- The value of a key that stands in the map is replaced in place.
    pub replace-Wrote :
        (c' : Entries K V)
        → replace k v (chain_of cs k) ≡ some c'
        → Wrote m
            (length cs)
            rest
            f
            k
            (some v)
            (record m { bkts = set m.bkts (home k (length cs)) (live c') })
    replace-Wrote c' e =
        let i = home k (length cs) in
        let c = chain_of cs k in
        let old = length-replace k v c c' e in
        record {
          chains = set cs i c';
          width = length-set cs i c';
          stores = record {
            layout = rw s.layout (set-in_use cs rest i c' (home-lt k (length cs) pos));
            places =
                set-Places cs f k (some v) c' pos s.places
                  (replace-IsDistinct k v c c' e (s.places.distinct i))
                  (λ q. find-replace k q v c c' e);
            counted = omega (arith, s.counted, total-set cs i c' (home-lt k (length cs) pos), old);
            populated = omega (
              arith,
              s.populated,
              occupied-set cs i c' (home-lt k (length cs) pos),
              filled_same c' c old,
            );
          };
          capacity = refl;
          count = omega (
            arith,
            found_one (f k) (λ n. find-some_of_replace k v c c' e (s.places.reads k ∙ n)),
          );
        }

    -- The entry of a new key is put at the end of its bucket, and counted.
    append-Wrote :
        m.len + 1 < 2 ^ 64
        → replace k v (chain_of cs k) ≡ none
        → Wrote m
            (length cs)
            rest
            f
            k
            (some v)
            (append_entry m (home k (length cs)) (chain_of cs k) k v)
    unfolding append_entry
    append-Wrote fits e =
        let i = home k (length cs) in
        let c = chain_of cs k in
        let c' = c ++ (k, v) ∷ [] in
        let absent = find-eq-none k v c e in
        let few : occupied cs + 1 < 2 ^ 64 = omega (arith, s.counted, occupied-le-total cs) in
        record {
          chains = set cs i c';
          width = length-set cs i c';
          stores = record {
            layout = rw s.layout (set-in_use cs rest i c' (home-lt k (length cs) pos));
            places =
                set-Places cs f k (some v) c' pos s.places
                  (snoc-IsDistinct k v c absent (s.places.distinct i))
                  (λ q. find-snoc k q v c absent);
            counted = omega (
              arith,
              s.counted,
              total-set cs i c' (home-lt k (length cs) pos),
              length-append c ((k, v) ∷ []),
            );
            populated = ground (
              arith,
              s.populated,
              occupied-set cs i c' (home-lt k (length cs) pos),
              filled-snoc c (k, v),
              filled_eq c,
            );
          };
          capacity = refl;
          count = omega (arith, found-none (f k) (sym (s.places.reads k) ∙ absent));
        }

    -- Insertion without growth does not fault.
    pub set_no_rehash-Wrote :
        m.len + 1 < 2 ^ 64
        → Returns (map_set_no_rehash m (length cs) k v) (Wrote m (length cs) rest f k (some v))
    unfolding map_set_no_rehash
    set_no_rehash-Wrote fits =
        let i = home k (length cs) in
        let read : bucket_at m.bkts i ≡ ok (chain_of cs k) =
          rw s.layout (bucket_at-in_use cs rest i (home-lt k (length cs) pos)) in
        elim (Option-cases (replace k v (chain_of cs k))) [
          | inl e ↦ (_, rw (slot-home k (length cs) pos, ◌>>=◌, read, e), append-Wrote fits e)
          | inr (c', e) ↦ (_, rw (slot-home k (length cs) pos, ◌>>=◌, read, e), replace-Wrote c' e)
        ]
