-- ===== src/Map/Assign.antt =====
-- A write through the pointer that `ac_map_get` of inc/ac/meta.h returns.
use aurora_comms.Base.{
  none-ne-some, ◌<◌, ◌≡◌, refl, sym, ap, ◌∙◌, Option-cases, inl, inr, Option, none, some, length,
  replicate, ok, fault, assert_failed, ◌>>=◌, Returns,
}
use aurora_comms.Key.{Key}
use aurora_comms.Entries.{replace, find-eq-none, find-some_of_replace}
use aurora_comms.Map.{Map, freed, slot, bucket_at, map_assign}
use aurora_comms.Map.Grow.{Wrote-Models}
use aurora_comms.Map.Insert.{slot-home, replace-Wrote}
use aurora_comms.Map.Layout.{bucket_at-in_use, home, home-lt, update, chain_of}
use aurora_comms.Map.Lookup.{Models}

module _ {ℓ} {K V : Type ℓ} ⦃key : Key K⦄ where
  module _ (m : Map K V) (f : K → Option V) (k : K) (v : V) (valid : Models m f) where
    pos : 0 < length valid.chains
    pos = rw valid.width valid.pos

    here : slot k m.cap ≡ ok (home k (length valid.chains))
    here = slot-home k m.cap valid.pos ∙ ap (λ n. ok (home k n)) (sym valid.width)

    read : bucket_at m.bkts (home k (length valid.chains)) ≡ ok (chain_of valid.chains k)
    read = rw valid.stores.layout (
        bucket_at-in_use valid.chains (replicate valid.spare freed) _
          (home-lt k (length valid.chains) pos))

    -- A write under a key of the map changes its value and nothing else.
    pub map_assign-Models :
        {old : V}
        → f k ≡ some old
        → Returns (map_assign m k v) λ r.
          Models r (update f k (some v))
          × (r.len ≡ m.len)
          × (r.pop_bkts ≡ m.pop_bkts)
          × (r.cap ≡ m.cap)
          × (length r.bkts ≡ length m.bkts)
    unfolding map_assign
    map_assign-Models {old} e = elim (Option-cases (replace k v (chain_of valid.chains k))) [
      | inl missing ↦
          let gone = sym (valid.stores.places.reads k) ∙ find-eq-none k v _ missing in
          absurd (none-ne-some old (sym gone ∙ e))
      | inr (c, hit) ↦
          let w =
            replace-Wrote m valid.chains (replicate valid.spare freed) f valid.stores pos k v c
              hit in
          let (models, same) = Wrote-Models m _ f k (some v) valid w in
          (_, rw (here, ◌>>=◌, read, hit), (models, refl, refl, refl, same))
    ]

    -- Without the key, the lookup's assertion stops the process.
    pub map_assign_missing : f k ≡ none → map_assign m k v ≡ fault assert_failed
    unfolding map_assign
    map_assign_missing e = elim (Option-cases (replace k v (chain_of valid.chains k))) [
      | inl missing ↦ rw (here, ◌>>=◌, read, missing)
      | inr (c, hit) ↦ absurd (
          find-some_of_replace k v (chain_of valid.chains k) c hit
            (valid.stores.places.reads k ∙ e))
    ]
