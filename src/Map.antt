-- ===== src/Map.antt =====
-- The generic hash map of inc/ac/meta.h. `bkts` are the buckets up to the length of the bucket array,
-- `cap` is its capacity, the number of buckets that the map hashes into. A bucket is an array of
-- entries, or was freed. The arrays are lists here, which is what Arr shows them to be.
pub mod Layout
pub mod Insert
pub mod Lookup
pub mod Find
pub mod Rehash
pub mod Regions
pub mod Grow
pub mod Remove
pub mod Assign
pub mod Foreach
pub mod Flatten
use aurora_comms.Base.{
  ℕ, zero, suc, ◌+◌, ◌-◌, ◌*◌, ◌/◌, ◌%◌, ◌^◌, Bool, true, false, List, [], ◌∷◌, ◌++◌, map, Option,
  none, some, ◌==◌, if◌then◌else◌, length, get_elem?, set, take, replicate, Exec, ok, fault,
  assert_failed, out_of_bounds, use_after_free, division_by_zero, ◌>>=◌, ◌>>◌,
}
use aurora_comms.Arr.{size}
use aurora_comms.Key.{Key}
use aurora_comms.Entries.{Entries, find, replace, erase}

pub data Bucket {ℓ} (K V : Type ℓ) : Type ℓ where
  live : Entries K V → Bucket K V
  freed : Bucket K V

pub record Map {ℓ} (K V : Type ℓ) : Type ℓ where
  pub bkts : List (Bucket K V)
  pub cap : ℕ
  pub len : ℕ
  pub pop_bkts : ℕ

-- `x--` on a `size_t`.
abbrev pub size_dec : ℕ → ℕ
size_dec x = size (x + (2 ^ 64 - 1))

unfoldable pub map_new_reserve {ℓ} : {K V : Type ℓ} → ℕ → Map K V
map_new_reserve n = record { bkts = replicate n (live []); cap = n; len = 0; pop_bkts = 0 }

unfoldable pub map_new {ℓ} : {K V : Type ℓ} → Map K V
map_new = map_new_reserve 16

-- `assert(V)`
unfoldable pub must_exist {ℓ} : {V : Type ℓ} → Option V → Exec V
must_exist none = fault assert_failed
must_exist (some v) = ok v

-- `V != NULL`
unfoldable pub is_some {ℓ} : {V : Type ℓ} → Option V → Bool
is_some none = false
is_some (some v) = true

-- `HASH(&(K)) % CAP`
unfoldable pub slot {ℓ} : {K : Type ℓ} ⦃key : Key K⦄ → K → ℕ → Exec ℕ
slot k zero = fault division_by_zero
slot ⦃key⦄ k (suc n) = ok (key.hash k % suc n)

module _ {ℓ} {K V : Type ℓ} where
  unfoldable pub read_bucket : Option (Bucket K V) → Exec (Entries K V)
  read_bucket none = fault out_of_bounds
  read_bucket (some freed) = fault use_after_free
  read_bucket (some (live c)) = ok c

  unfoldable pub bucket_at : List (Bucket K V) → ℕ → Exec (Entries K V)
  bucket_at bkts i = read_bucket (get_elem? bkts i)

  unfoldable pub foreach_chain {κ} : {S : Type κ} → Entries K V → (K × V → S → Exec S) → S → Exec S
  foreach_chain [] body s = ok s
  foreach_chain (e ∷ es) body s = body e s >>= foreach_chain es body

  unfoldable pub foreach_bkts {κ} :
      {S : Type κ} → List (Bucket K V) → (K × V → S → Exec S) → S → Exec S
  foreach_bkts [] body s = ok s
  foreach_bkts (live c ∷ bs) body s = foreach_chain c body s >>= foreach_bkts bs body
  foreach_bkts (freed ∷ bs) body s = fault use_after_free

  -- A loop whose body leaves the structure of this map alone; it may change any other state.
  unfoldable pub map_foreach {κ} : {S : Type κ} → Map K V → (K × V → S → Exec S) → S → Exec S
  map_foreach m = foreach_bkts m.bkts

  -- Each bucket is freed, and then the bucket array.
  unfoldable pub free_bkts : List (Bucket K V) → Exec (Unit {0})
  free_bkts [] = ok tt
  free_bkts (live c ∷ bs) = free_bkts bs
  free_bkts (freed ∷ bs) = fault use_after_free

  unfoldable pub map_free : Map K V → Exec (Unit {0})
  map_free m = free_bkts m.bkts

module _ {ℓ} {K V : Type ℓ} ⦃key : Key K⦄ where
  -- `none` is NULL.
  unfoldable pub map_get_maybe_null : Map K V → K → Exec (Option V)
  map_get_maybe_null m k = do i ← slot k m.cap; c ← bucket_at m.bkts i; ok (find k c)

  unfoldable pub map_get : Map K V → K → Exec V
  map_get m k = map_get_maybe_null m k >>= must_exist

  unfoldable pub map_contains : Map K V → K → Exec Bool
  map_contains m k = do v ← map_get_maybe_null m k; ok (is_some v)

  -- `*V = v` through the pointer that `ac_map_get` returned for the key.
  unfoldable pub map_assign : Map K V → K → V → Exec (Map K V)
  map_assign m k v = do
    i ← slot k m.cap
    c ← bucket_at m.bkts i
    elim (replace k v c) [
      | none ↦ fault assert_failed
      | some c' ↦ ok (record m { bkts = set m.bkts i (live c') })
    ]

  -- The entry at the end of bucket `i`, where no key matched.
  unfoldable pub append_entry : Map K V → ℕ → Entries K V → K → V → Map K V
  append_entry m i c k v = record m {
    bkts = set m.bkts i (live (c ++ (k, v) ∷ []));
    len = size (m.len + 1);
    pop_bkts = if length c == 0 then size (m.pop_bkts + 1) else m.pop_bkts;
  }

  unfoldable pub map_set_no_rehash : Map K V → ℕ → K → V → Exec (Map K V)
  map_set_no_rehash m n k v = do
    i ← slot k n
    c ← bucket_at m.bkts i
    elim (replace k v c) [
      | some c' ↦ ok (record m { bkts = set m.bkts i (live c') })
      | none ↦ ok (append_entry m i c k v)
    ]

  -- The entries of one old bucket go into the new buckets.
  unfoldable pub rehash_chain : Map K V → ℕ → Entries K V → Exec (Map K V)
  rehash_chain m n [] = ok m
  rehash_chain m n ((k, v) ∷ es) = do m' ← map_set_no_rehash m n k v; rehash_chain m' n es

  -- `rounds` old buckets from bucket `b` of the third region on; each is freed when it is done.
  unfoldable pub rehash_from : ℕ → ℕ → ℕ → Map K V → Exec (Map K V)
  rehash_from zero b n m = ok m
  rehash_from (suc rounds) b n m = do
    c ← bucket_at m.bkts (n + b)
    m' ← rehash_chain m n c
    rehash_from rounds (b + 1) n (record m' { bkts = set m'.bkts (n + b) freed })

  -- `new_cap` fresh buckets, and behind them the third region with the old buckets.
  unfoldable pub three_regions : Map K V → Map K V
  three_regions m = record {
    bkts = replicate (size (m.cap * 2)) (live []) ++ take m.cap m.bkts;
    cap = size (size (m.cap * 2) + m.cap);
    len = 0;
    pop_bkts = 0;
  }

  -- The capacity shrinks to the new one; the length of the bucket array stays.
  unfoldable pub map_grow : Map K V → Exec (Map K V)
  map_grow m = do
    m' ← rehash_from m.cap 0 (size (m.cap * 2)) (three_regions m)
    ok (record m' { cap = size (m.cap * 2) })

  unfoldable pub map_set : Map K V → K → V → Exec (Map K V)
  map_set m k v = do
    m' ← if m.pop_bkts == m.cap / 2 then map_grow m else ok m
    map_set_no_rehash m' m'.cap k v

  unfoldable pub map_remove : Map K V → K → Exec (Map K V)
  map_remove m k = do
    i ← slot k m.cap
    c ← bucket_at m.bkts i
    elim (erase k c) [
      | none ↦ ok m
      | some c' ↦ ok (record m {
        bkts = set m.bkts i (live c');
        len = size_dec m.len;
        pop_bkts = if length c' == 0 then size_dec m.pop_bkts else m.pop_bkts;
      })
    ]
