-- ===== src/Map/Find.antt =====
-- Lookup in the hash map of inc/ac/meta.h against the entries that stand in its buckets.
use mathlib.Core.List.{Memᴰ}
use aurora_comms.Base.{
  ℕ, zero, suc, ◌<◌, ◌≡◌, ◌↔◌, refl, sym, ap, ap₂, ◌∙◌, subst, Bool-cases, inl, inr, List, [], ◌∷◌,
  Option, some, arith, none-ne-some, ==_iff, ◌==◌, length, get_or, get_elem?, replicate, Returns,
}
use aurora_comms.Entries.{Entries, find, IsDistinct}
use aurora_comms.Key.{Key, equal_refl}
use aurora_comms.Map.Layout.{in_use, home, home-lt, chain_of}
use aurora_comms.Map.Lookup.{Models, map_get_maybe_null-Models}
use aurora_comms.Map.{Map, Bucket, live, freed, map_get_maybe_null}

some_inj {ℓ} : {V : Type ℓ} {a b : V} → some a ≡ some b → a ≡ b
some_inj h = cc

module _ {ℓ} {K V : Type ℓ} ⦃key : Key K⦄ where
  find-Memᴰ : (k : K) (v : V) (c : Entries K V) → find k c ≡ some v → Memᴰ (k, v) c
  unfolding find
  find-Memᴰ k v [] h = absurd (none-ne-some v h)
  find-Memᴰ k v ((k', v') ∷ c) h = elim (Bool-cases (key.equal k' k)) [
    | inl same ↦
        let key_is : k ≡ k' = sym ((key.equal_iff k' k).0 same) in
        let value_is : v ≡ v' = sym (some_inj (rw same at h)) in
        Memᴰ.head (ap₂ (λ a b. (a, b)) key_is value_is)
    | inr apart ↦ Memᴰ.tail (find-Memᴰ k v c (rw apart at h))
  ]

  Memᴰ-find : (k : K) (v : V) (c : Entries K V) → IsDistinct c → Memᴰ (k, v) c → find k c ≡ some v
  unfolding find
  Memᴰ-find k v [] d m = elim m [ ]
  Memᴰ-find k v (e ∷ c) d (Memᴰ.head same) =
      subst (λ x. find k (x ∷ c) ≡ some v) same (rw (equal_refl k) refl)
  Memᴰ-find k v (e ∷ c) (fresh, d) (Memᴰ.tail m) =
      let found : find k c ≡ some v = Memᴰ-find k v c d m in
      elim (Bool-cases (key.equal e.0 k)) [
        | inl same ↦
            absurd (
              none-ne-some v
                (sym fresh ∙ ap (λ q. find q c) ((key.equal_iff e.0 k).0 same) ∙ found))
        | inr apart ↦ rw apart found
      ]

  in_use_at :
      (cs : List (Entries K V)) (rest : List (Bucket K V)) (i : ℕ)
      → i < length cs
      → get_elem? (in_use cs rest) i ≡ some (live (get_or cs i []))
  in_use_at [] rest i h = absurd (omega arith)
  in_use_at (c ∷ cs) rest zero h = refl
  in_use_at (c ∷ cs) rest (suc i) h = in_use_at cs rest i (omega arith)

  -- The entry stands in one of the buckets that are in use.
  pub record HasEntry (m : Map K V) (k : K) (v : V) : Type ℓ where
    pub index : ℕ
    pub bucket : Entries K V
    pub inside : index < m.cap
    pub stands : get_elem? m.bkts index ≡ some (live bucket)
    pub entry : Memᴰ (k, v) bucket

  -- A lookup in a well-formed map does not fault, and reads a value exactly if an entry of the key
  -- with this value stands in one of the buckets in use, whichever bucket and place.
  pub map_get_maybe_null-HasEntry :
      (m : Map K V) (f : K → Option V) (k : K)
      → Models m f
      → Returns (map_get_maybe_null m k) λ o. (v : V) → (o ≡ some v) ↔ HasEntry m k v
  map_get_maybe_null-HasEntry m f k valid =
      (f k, map_get_maybe_null-Models m f valid k, λ v. (sound v, complete v))
    where
      cs : List (Entries K V)
      cs = valid.chains

      bucket_is : (i : ℕ) → i < m.cap → get_elem? m.bkts i ≡ some (live (get_or cs i []))
      bucket_is i h =
          rw valid.stores.layout (in_use_at cs (replicate valid.spare freed) i (rw valid.width h))

      sound : (v : V) → f k ≡ some v → HasEntry m k v
      sound v e =
          let inside : home k (length cs) < m.cap =
            rw (sym valid.width) (home-lt k (length cs) (rw valid.width valid.pos)) in
          record {
            index = home k (length cs);
            bucket = chain_of cs k;
            inside = inside;
            stands = bucket_is (home k (length cs)) inside;
            entry = find-Memᴰ k v (chain_of cs k) (valid.stores.places.reads k ∙ e);
          }

      complete : (v : V) → HasEntry m k v → f k ≡ some v
      complete v h =
          let same : h.bucket ≡ get_or cs h.index [] =
            live_inj (sym h.stands ∙ bucket_is h.index h.inside) in
          let found : find k (get_or cs h.index []) ≡ some v =
            Memᴰ-find k v (get_or cs h.index []) (valid.stores.places.distinct h.index)
              (subst (Memᴰ (k, v)) same h.entry) in
          elim (Bool-cases (home k (length cs) == h.index)) [
            | inl here ↦
                sym (valid.stores.places.reads k)
                ∙ ap (λ i. find k (get_or cs i [])) ((==_iff (home k (length cs)) h.index).0 here)
                ∙ found
            | inr away ↦ absurd (
                none-ne-some v (
                  sym (
                    valid.stores.places.homed k h.index
                      (λ e. ground (arith, e, away, ==_iff (home k (length cs)) h.index)))
                  ∙ found))
          ]
        where
          live_inj : {a b : Entries K V} → some (live a) ≡ some (live b) → a ≡ b
          live_inj e = cc
