-- ===== src/Net/Clients.antt =====
-- Sending to a client and marking it for removal, in src/net.c.
use aurora_comms.Base.{
  arith, sym, ap, ◌∙◌, fun_ext, Bool-cases, inl, inr, ℕ, ◌≡◌, refl, [], ◌∷◌, ◌++◌, Option, none,
  some, length, ok, fault, assert_failed, ◌>>=◌, Returns,
}
use aurora_comms.Key.{equal_refl}
use aurora_comms.Map.Assign.{map_assign-Models}
use aurora_comms.Map.Layout.{update}
use aurora_comms.Map.Lookup.{Models, map_get-Models}
use aurora_comms.Map.{Map, map_get, must_exist}
use aurora_comms.Net.{
  Server, Client, to_be_removed, sent, handle_key, handle_eq, handle_eq_iff, effect, goodbye,
  server_remove_client, server_send,
}
use aurora_comms.Str.{Str}

-- The shape of a map: its counters and the sizes of its bucket array.
abbrev pub SameShape : Map ℕ Client → Map ℕ Client → Type 0
SameShape m r =
    (r.len ≡ m.len) × (r.pop_bkts ≡ m.pop_bkts) × (r.cap ≡ m.cap) × (length r.bkts ≡ length m.bkts)

pub SameShape-trans : (a b c : Map ℕ Client) → SameShape a b → SameShape b c → SameShape a c
SameShape-trans a b c ab bc = (bc.0 ∙ ab.0, bc.1 ∙ ab.1, bc.2 ∙ ab.2, bc.3 ∙ ab.3)

pub unchanged_at :
    (f : ℕ → Option Client) (h : ℕ) (c : Client) → f h ≡ some c → f ≡ update f h (some c)
unchanged_at f h c there = fun_ext λ q. elim (Bool-cases (handle_eq h q)) [
  | inl same ↦ rw same (ap f (sym ((handle_eq_iff h q).0 same)) ∙ there)
  | inr apart ↦ rw apart refl
]

pub update_twice :
    (f : ℕ → Option Client) (h : ℕ) (a b : Option Client) → update (update f h a) h b ≡ update f h b
update_twice f h a b = fun_ext λ q. ground arith

pub found_update : (f : ℕ → Option Client) (h : ℕ) (c : Client) → update f h (some c) h ≡ some c
found_update f h c = rw (equal_refl h)

module _ (s : Server) (f : ℕ → Option Client) (handle : ℕ) (valid : Models s.clients f) where
  found-map_get : {c : Client} → f handle ≡ some c → map_get s.clients handle ≡ ok c
  unfolding must_exist
  found-map_get e = rw (map_get-Models s.clients f valid handle, e)

  missing-map_get : f handle ≡ none → map_get s.clients handle ≡ fault assert_failed
  unfolding must_exist
  missing-map_get e = rw (map_get-Models s.clients f valid handle, e)

  -- Sending to the handle of a client appends the bytes to its output. Nothing else changes.
  pub server_send-Models :
      (bytes : Str) {c : Client}
      → f handle ≡ some c
      → Returns (server_send s handle bytes) λ r.
        Models r.clients (update f handle (some (record c { output = c.output ++ bytes })))
        × SameShape s.clients r.clients
        × (r.effects ≡ s.effects)
        × (r.listener ≡ s.listener)
  unfolding server_send
  server_send-Models bytes {c} e =
      let (clients, run, (models, len, pop, cap, wide)) =
        map_assign-Models s.clients f handle (record c { output = c.output ++ bytes }) valid e in
      (
        record s { clients = clients },
        rw (found-map_get e, ◌>>=◌, run),
        (models, (len, pop, cap, wide), refl, refl),
      )

  -- Sending to a handle that no client has stops the process.
  pub server_send_missing :
      (bytes : Str) → f handle ≡ none → server_send s handle bytes ≡ fault assert_failed
  unfolding server_send
  server_send_missing bytes e = rw (missing-map_get e)

  -- Removing a client sends it the farewell at once and marks it. Nothing else changes.
  pub server_remove_client-Models :
      {c : Client}
      → f handle ≡ some c
      → Returns (server_remove_client s handle) λ r.
        Models r.clients (update f handle (some (record c { state = to_be_removed })))
        × SameShape s.clients r.clients
        × (r.effects ≡ s.effects ++ sent c.handle goodbye ∷ [])
        × (r.listener ≡ s.listener)
  unfolding server_remove_client effect
  server_remove_client-Models {c} e =
      let (clients, run, (models, len, pop, cap, wide)) =
        map_assign-Models s.clients f handle (record c { state = to_be_removed }) valid e in
      (
        record (effect s (sent c.handle goodbye)) { clients = clients },
        rw (found-map_get e, ◌>>=◌, run),
        (models, (len, pop, cap, wide), refl, refl),
      )
