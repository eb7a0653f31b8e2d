-- ===== src/Net/Conn.antt =====
-- Setting up the listener and accepting connections in src/net.c.
use aurora_comms.Base.{
  ℕ, ◌-◌, ◌*◌, ◌≤◌, ◌<◌, ◌^◌, ◌≡◌, ◌≢◌, ◌⊎◌, ◌↔◌, Bool, true, false, Option-cases, inl, inr, Option,
  none, some, arith, ◌==◌, if◌then◌else◌, fault, use_after_free, bit_and, bit_or, ◌>>=◌,
}
use aurora_comms.Map.Foreach.{total_body, map_foreach-map_set_full}
use aurora_comms.Map.Grow.{is_full, map_set-Models}
use aurora_comms.Map.Lookup.{Models}
use aurora_comms.Map.{map_foreach}
use aurora_comms.Net.{
  Server, Client, handle_key, Fcntl, ListenOs, socket_set_blocking, effect, listen_on,
  server_listen, add_client, connected, new_client, clients_max, exit_success, minus_one,
  o_nonblock,
}
use aurora_comms.Str.{Str}

-- `ac_socket_set_blocking` reports success exactly if both calls of `fcntl` succeed, the second
-- with the flag cleared or set.
pub socket_set_blocking_iff :
    (os : Fcntl) (blocking : Bool)
    → (socket_set_blocking os blocking ≡ exit_success) ↔ (
        (flags : ℕ) × (os.get_flags ≡ some flags)
        × (os.set_flags
              (if blocking then bit_and flags (minus_one - o_nonblock) else bit_or flags o_nonblock)
            ≡ true))
unfolding socket_set_blocking
socket_set_blocking_iff os blocking = (sound (Option-cases os.get_flags), λ h. ground arith)
  where
    sound :
        (os.get_flags ≡ none) ⊎ ((flags : ℕ) × (os.get_flags ≡ some flags))
        → socket_set_blocking os blocking ≡ exit_success
        → (flags : ℕ) × (os.get_flags ≡ some flags)
          × (os.set_flags (
                if blocking
                then bit_and flags (minus_one - o_nonblock)
                else bit_or flags o_nonblock)
              ≡ true)
    sound (inl e) h = absurd (ground arith)
    sound (inr (flags, e)) h = (flags, e, ground arith)

set_blocking-ne-minus_one :
    (os : Fcntl) (blocking : Bool) → (socket_set_blocking os blocking == minus_one) ≡ false
unfolding socket_set_blocking
set_blocking-ne-minus_one os blocking = ground arith

listen_on_ignores_fcntl :
    (s : Server) (os : ListenOs) (other : Fcntl) (port socket : ℕ)
    → listen_on s os port socket ≡ listen_on s (record os { fcntl = other }) port socket
unfolding listen_on
listen_on_ignores_fcntl s os other port socket =
    rw (set_blocking-ne-minus_one os.fcntl false, set_blocking-ne-minus_one other false)

-- The listener is set up in the same way whatever `fcntl` answers: a listener that stays blocking
-- is not noticed.
pub server_listen_ignores_fcntl :
    (s : Server) (os : ListenOs) (other : Fcntl) (port : ℕ)
    → server_listen s os port ≡ server_listen s (record os { fcntl = other }) port
unfolding server_listen
server_listen_ignores_fcntl s os other port = elim (Option-cases os.socket) [
  | inl e ↦ rw (e, server_listen)
  | inr (socket, e) ↦ rw (e, server_listen) (listen_on_ignores_fcntl s os other port socket)
]

module _ (s : Server) (f : ℕ → Option Client) (valid : Models s.clients f)
    (fits : s.clients.cap * 3 < 2 ^ 64) (few : s.clients.len ≤ clients_max) where
  -- If half of the buckets of the well-formed clients are populated, and there are fewer of them
  -- than the limit, then after one more client is added a loop over the clients whose body does not
  -- fault reads a freed bucket.
  pub add_client_half_full {κ} :
      {S : Type κ} (g : ℕ × Client → S → S) (state : S) (socket : ℕ) (ip : Str)
      → s.clients.len ≢ clients_max
      → is_full s.clients ≡ true
      → add_client s socket ip >>= (λ r. map_foreach r.clients (total_body g) state)
        ≡ fault use_after_free
  unfolding add_client connected effect
  add_client_half_full g state socket ip room full =
      let client = new_client socket ip in
      let (clients, run, (models, count, cap, wide)) =
        map_set-Models s.clients f socket client fits (omega arith) valid in
      let freed =
        map_foreach-map_set_full s.clients f socket client g state fits (omega arith) valid full in
      rw run (rw run at freed)
