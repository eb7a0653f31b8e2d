-- ===== src/Map/Rehash.antt =====
-- The two loops that move the entries of the old buckets into the new ones when the hash map of
-- inc/ac/meta.h grows.
use native.Mathlib.Nat.{add-zero}
use aurora_comms.Base.{
  ℕ, suc, ◌+◌, ◌<◌, ◌^◌, ◌≡◌, ◌≢◌, refl, sym, ap, ◌∙◌, Option-cases, List, [], ◌∷◌, ◌++◌, flatten,
  Option, none, some, arith, length, set, length-append, ok, ◌>>=◌, Returns, or_else,
}
use aurora_comms.Key.{Key, equal_refl}
use aurora_comms.Entries.{
  Entries, find, IsDistinct, find-append, append-IsDistinct_parts, find_congr,
}
use aurora_comms.Map.{Map, Bucket, freed, bucket_at, rehash_chain, rehash_from}
use aurora_comms.Map.Insert.{found-none, set_no_rehash-Wrote}
use aurora_comms.Map.Layout.{update, Stores}
use aurora_comms.Map.Regions.{
  Added, or_else-none, region, bucket_at-region, set-region, Stores-congr, IsFresh,
}

module _ {ℓ} {K V : Type ℓ} ⦃key : Key K⦄ where
  IsFresh-head :
      (k : K) (v : V) (es : Entries K V) (f : K → Option V) → IsFresh ((k, v) ∷ es) f → f k ≡ none
  unfolding find
  IsFresh-head k v es f h = h k (rw (equal_refl k) (λ e. cc))

  IsFresh-tail :
      (k : K) (v : V) (es : Entries K V) (f : K → Option V)
      → find k es ≡ none
      → IsFresh ((k, v) ∷ es) f
      → IsFresh es (update f k (some v))
  unfolding find
  IsFresh-tail k v es f d h q n = ground (arith, h q, find_congr k q es)

  -- Adding one entry and then the others is adding them all.
  added_cons :
      (k q : K) (v : V) (es : Entries K V) (f : K → Option V)
      → f k ≡ none
      → or_else (update f k (some v) q) (find q es) ≡ or_else (f q) (find q ((k, v) ∷ es))
  unfolding find or_else
  added_cons k q v es f absent = ground (arith, ap f ((key.equal_iff k q).0 _), Option-cases (f q))

  pub rehash_chain-Added :
      (es : Entries K V) (m : Map K V) (cs : List (Entries K V)) (rest : List (Bucket K V))
      (f : K → Option V)
      → Stores m cs rest f
      → 0 < length cs
      → m.len + length es < 2 ^ 64
      → IsDistinct es
      → IsFresh es f
      → Returns (rehash_chain m (length cs) es) (Added m (length cs) rest f es)
  unfolding rehash_chain find or_else
  rehash_chain-Added [] m cs rest f s pos fits d fresh = (
    m,
    refl,
    record {
      chains = cs;
      width = refl;
      stores = Stores-congr m cs rest f _ (λ q. or_else-none (f q)) s;
      capacity = refl;
      count = omega arith;
    },
  )
  rehash_chain-Added ((k, v) ∷ es) m cs rest f s pos fits d fresh =
      let (m', run, w) = set_no_rehash-Wrote m cs rest f s pos k v (omega arith) in
      let g = update f k (some v) in
      let absent : f k ≡ none = IsFresh-head k v es f fresh in
      let (r, go, t) =
        rehash_chain-Added es m' w.chains rest g w.stores (rw w.width pos)
          (omega (arith, w.count, found-none (f k) absent)) d.1 (IsFresh-tail k v es f d.0 fresh) in
      (
        r,
        rw run (rw w.width at go),
        record {
          chains = t.chains;
          width = t.width ∙ w.width;
          stores = Stores-congr r t.chains rest _ _ (λ q. added_cons k q v es f absent) t.stores;
          capacity = t.capacity ∙ w.capacity;
          count = omega (arith, t.count, w.count, found-none (f k) absent);
        },
      )

  IsFresh-left : (a b : Entries K V) (f : K → Option V) → IsFresh (a ++ b) f → IsFresh a f
  unfolding or_else
  IsFresh-left a b f h q n = h q (λ e. ground (arith, find-append q a b, Option-cases (find q a)))

  IsFresh-right :
      (a b : Entries K V) (f : K → Option V)
      → ((q : K) → find q a ≢ none → find q b ≡ none)
      → IsFresh (a ++ b) f
      → IsFresh b (λ q. or_else (f q) (find q a))
  unfolding or_else
  IsFresh-right a b f apart h q n =
      ground (arith, h q, apart q, find-append q a b, Option-cases (find q a))

  added_append :
      (q : K) (a b : Entries K V) (o : Option V)
      → or_else (or_else o (find q a)) (find q b) ≡ or_else o (find q (a ++ b))
  unfolding or_else
  added_append q a b none = sym (find-append q a b)
  added_append q a b (some v) = refl

  rehash_from_step :
      (m m' : Map K V) (rounds b n : ℕ) (c : Entries K V)
      → bucket_at m.bkts (n + b) ≡ ok c
      → rehash_chain m n c ≡ ok m'
      → rehash_from (suc rounds) b n m
        ≡ rehash_from rounds (b + 1) n (record m' { bkts = set m'.bkts (n + b) freed })
  unfolding rehash_from
  rehash_from_step m m' rounds b n c read run = rw (read, ◌>>=◌, run)

  -- One old bucket after another: the entries of all of them are added, and they are all freed.
  pub rehash_from-Added :
      (olds : List (Entries K V)) (b : ℕ) (m : Map K V) (cs : List (Entries K V)) (f : K → Option V)
      → Stores m cs (region b olds) f
      → 0 < length cs
      → m.len + length (flatten olds) < 2 ^ 64
      → IsDistinct (flatten olds)
      → IsFresh (flatten olds) f
      → Returns
          (rehash_from (length olds) b (length cs) m)
          (Added m (length cs) (region (b + length olds) []) f (flatten olds))
  unfolding rehash_from flatten find
  rehash_from-Added [] b m cs f s pos fits d fresh = (
    m,
    refl,
    record {
      chains = cs;
      width = refl;
      stores = rw add-zero (Stores-congr m cs (region b []) f _ (λ q. or_else-none (f q)) s);
      capacity = refl;
      count = omega arith;
    },
  )
  rehash_from-Added (c ∷ olds) b m cs f s pos fits d fresh =
      let read = ap (λ x. bucket_at x (length cs + b)) s.layout ∙ bucket_at-region cs b c olds in
      let (dc, dr, apart) = append-IsDistinct_parts c (flatten olds) d in
      let size = length-append c (flatten olds) in
      let shift : b + 1 + length olds ≡ b + suc (length olds) = omega arith in
      let (m', run, w) =
        rehash_chain-Added c m cs (region b (c ∷ olds)) f s pos (omega arith) dc
          (IsFresh-left c (flatten olds) f fresh) in
      let g = λ (q : K). or_else (f q) (find q c) in
      let next : Map K V = record m' { bkts = set m'.bkts (length cs + b) freed } in
      let (r, go, t) =
        rehash_from-Added olds (b + 1) next w.chains g
          (record {
            layout = rw (w.stores.layout, ← w.width) (set-region w.chains b c olds);
            places = w.stores.places;
            counted = w.stores.counted;
            populated = w.stores.populated;
          })
          (rw w.width pos) (omega (arith, w.count)) dr
          (IsFresh-right c (flatten olds) f apart fresh) in
      (
        r,
        rehash_from_step m m' (length olds) b (length cs) c read run ∙ (rw w.width at go),
        record {
          chains = t.chains;
          width = t.width ∙ w.width;
          stores =
              rw shift at (
                Stores-congr r t.chains _ _ _ (λ q. added_append q c (flatten olds) (f q))
                  t.stores);
          capacity = t.capacity ∙ w.capacity;
          count = omega (arith, t.count, w.count);
        },
      )
