-- ===== src/Net/Poll/Sweep.antt =====
-- The loop over the clients at the start of `ac_server_poll` in src/net.c.
use aurora_comms.Base.{ℕ, ◌≡◌, refl, ap, List, [], ◌∷◌, set, ◌++◌, ◌∙◌, ok, Returns, ◌>>=◌, some}
use aurora_comms.Entries.{erase}
use aurora_comms.Key.{equal_refl}
use aurora_comms.Log.{log_info}
use aurora_comms.Map.Remove.{bucket_at-set}
use aurora_comms.Map.{size_dec, Map, live, slot, bucket_at, map_remove}
use aurora_comms.Net.Poll.{sweep_bucket, sweep_client}
use aurora_comms.Net.{
  Server, Client, to_be_removed, handle_key, disconnect_client, effect, logged, closed,
}
use aurora_comms.Str.{codes}

erase_first : (a b : ℕ × Client) → a.1.handle ≡ a.0 → erase a.1.handle (a ∷ b ∷ []) ≡ some (b ∷ [])
unfolding erase
erase_first a b same = rw (same, erase, equal_refl a.0)

disconnect_first :
    (s : Server) (i : ℕ) (a b : ℕ × Client)
    → bucket_at s.clients.bkts i ≡ ok (a ∷ b ∷ [])
    → slot a.0 s.clients.cap ≡ ok i
    → a.1.handle ≡ a.0
    → Returns (disconnect_client s a.1) λ r. r.clients.bkts ≡ set s.clients.bkts i (live (b ∷ []))
unfolding disconnect_client map_remove erase effect
disconnect_first s i a b read home same =
    let s' : Server =
      effect (effect s (logged log_info (codes "Client disconnected (" ++ (a.1.ip ++ codes ")."))))
        (closed a.1.handle) in
    let clients : Map ℕ Client = record (s.clients) {
      bkts = set s.clients.bkts i (live (b ∷ []));
      len = size_dec s.clients.len;
    } in
    (
      record s' { clients = clients },
      rw (ap (λ h. slot h s.clients.cap) same ∙ home, ◌>>=◌, read, ◌>>=◌, erase_first a b same),
      refl,
    )

-- Of two clients that are the only ones of a bucket and both are to be removed, the sweep at the
-- start of a poll removes the first. The second stays in the bucket, and neither is polled.
pub sweep_bucket_skips :
    (s : Server) (i : ℕ) (a b : ℕ × Client) (polled : List ℕ)
    → bucket_at s.clients.bkts i ≡ ok (a ∷ b ∷ [])
    → slot a.0 s.clients.cap ≡ ok i
    → a.1.handle ≡ a.0
    → a.1.state ≡ to_be_removed
    → b.1.state ≡ to_be_removed
    → Returns
        (sweep_bucket 2 i 0 (s, polled))
        λ w. (bucket_at w.0.clients.bkts i ≡ ok (b ∷ [])) × (w.1 ≡ polled)
unfolding sweep_bucket sweep_client
sweep_bucket_skips s i a b polled read home same leaves stays =
    let (r, run, removed) = disconnect_first s i a b read home same in
    let again : bucket_at r.clients.bkts i ≡ ok (b ∷ []) =
      ap (λ bkts. bucket_at bkts i) removed
      ∙ bucket_at-set s.clients.bkts i (a ∷ b ∷ []) (b ∷ []) read in
    ((r, polled), rw (read, ◌>>=◌, leaves, run, ◌>>=◌, again), (again, refl))
