-- ===== src/Net/Attempt.antt =====
-- What a connection attempt comes to in src/net.c, for each answer of the operating system.
use aurora_comms.Base.{
  ℕ, ◌+◌, ◌*◌, ◌≤◌, ◌<◌, ◌^◌, ◌≡◌, ◌≢◌, refl, ap, append_assoc, true, false, Bool-cases,
  Option-cases, inl, inr, [], ◌∷◌, ◌++◌, Option, none, some, arith, ◌==◌, ==_iff, bit_or, Returns,
}
use aurora_comms.Log.{log_info, log_warning, log_error}
use aurora_comms.Map.Grow.{map_set-Models}
use aurora_comms.Map.Insert.{found}
use aurora_comms.Map.Layout.{update}
use aurora_comms.Map.Lookup.{Models}
use aurora_comms.Net.Conn.{socket_set_blocking_iff}
use aurora_comms.Net.{
  Server, Client, Effect, new, sent, closed, logged, handle_key, Fcntl, ConnOs, socket_set_blocking,
  effect, admit, handle_conn, add_client, connected, reject_blocking, reject_full, reject_unnamed,
  new_client, clients_max, exit_success, o_nonblock,
}
use aurora_comms.Str.{Str, codes}

-- `fcntl` lets the socket become non-blocking.
abbrev pub IsNonBlocking : Fcntl → Type 0
IsNonBlocking os =
    (flags : ℕ) × (os.get_flags ≡ some flags) × (os.set_flags (bit_or flags o_nonblock) ≡ true)

-- The server `r` has the client of the socket besides those of `s`, and says so in the log.
pub record Joined (s : Server) (f : ℕ → Option Client) (socket : ℕ) (ip : Str) (r : Server)
    : Type 0 where
  pub models : Models r.clients (
      update f socket
        (some (record { handle = socket; state = new; input = []; output = []; ip = ip })))
  pub count : r.clients.len + found (f socket) ≡ s.clients.len + 1
  pub listener : r.listener ≡ s.listener
  pub effects :
      r.effects
      ≡ s.effects ++ logged log_info (codes "Client connected (" ++ (ip ++ codes ").")) ∷ []

-- The answers of the operating system, each with what the server `s` becomes.
pub data Attempt (s : Server) (f : ℕ → Option Client) (os : ConnOs) (r : Server) : Type 0 where
  nobody : os.accept ≡ none → r ≡ s → Attempt s f os r
  blocking :
      (socket : ℕ)
      → os.accept ≡ some socket
      → (IsNonBlocking os.fcntl → ⊥)
      → r ≡ record s {
        effects =
            s.effects
            ++ logged log_warning (
                codes "ac_socket_set_blocking(): failed to set client socket to non-blocking. "
                ++ codes "Disconnecting client.")
              ∷ closed socket
              ∷ [];
      }
      → Attempt s f os r
  refused :
      (socket : ℕ)
      → os.accept ≡ some socket
      → IsNonBlocking os.fcntl
      → s.clients.len ≡ clients_max
      → r ≡ record s {
        effects =
            s.effects
            ++ sent socket
                (0x0d ∷ 0x0a ∷ codes "Connection refused. Server is full." ++ 0x0d ∷ 0x0a ∷ [])
              ∷ closed socket
              ∷ [];
      }
      → Attempt s f os r
  unnamed :
      (socket : ℕ)
      → os.accept ≡ some socket
      → IsNonBlocking os.fcntl
      → s.clients.len ≢ clients_max
      → os.peer_name ≡ none
      → r ≡ record s {
        effects = s.effects ++ closed socket ∷ logged log_error (codes "inet_ntop(): fail.") ∷ [];
      }
      → Attempt s f os r
  joined :
      (socket : ℕ) (ip : Str)
      → os.accept ≡ some socket
      → IsNonBlocking os.fcntl
      → s.clients.len ≢ clients_max
      → os.peer_name ≡ some ip
      → Joined s f socket ip r
      → Attempt s f os r

module _ (s : Server) (f : ℕ → Option Client) (valid : Models s.clients f)
    (fits : s.clients.cap * 3 < 2 ^ 64) (few : s.clients.len ≤ clients_max) where
  add_client-Joined :
      (socket : ℕ) (ip : Str)
      → s.clients.len ≢ clients_max
      → Returns (add_client s socket ip) (Joined s f socket ip)
  unfolding add_client connected effect new_client
  add_client-Joined socket ip room =
      let (clients, run, (models, count, cap, wide)) =
        map_set-Models s.clients f socket (new_client socket ip) fits (omega arith) valid in
      (
        connected s clients ip,
        rw run,
        record { models = models; count = count; listener = refl; effects = refl },
      )

  admit-Attempt :
      (os : ConnOs) (socket : ℕ)
      → os.accept ≡ some socket
      → Returns (admit s os socket) (Attempt s f os)
  unfolding admit reject_blocking reject_full reject_unnamed effect
  admit-Attempt os socket a =
      let set_iff = socket_set_blocking_iff os.fcntl false in
      let code = socket_set_blocking os.fcntl false in
      elim (Bool-cases (code == exit_success)) [
        | inr blocks ↦ (
          reject_blocking s socket,
          rw blocks,
          blocking socket a (λ h. ground (arith, blocks, set_iff.1 h)) (after _ _),
        )
        | inl polls ↦
            let open_socket = set_iff.0 ((==_iff code exit_success).0 polls) in
            elim (Bool-cases (s.clients.len == clients_max)) [
              | inl full ↦ (
                reject_full s socket,
                rw (polls, full),
                refused socket a open_socket ((==_iff s.clients.len clients_max).0 full)
                    (after _ _),
              )
              | inr room ↦ elim (Option-cases os.peer_name) [
                | inl e ↦ (
                  reject_unnamed s socket,
                  rw (polls, room, e),
                  unnamed socket a open_socket (λ h. ground arith) e (after _ _),
                )
                | inr (ip, e) ↦
                    let (r, run, done) = add_client-Joined socket ip (λ h. ground arith) in
                    (
                      r,
                      rw (polls, room, e) run,
                      joined socket ip a open_socket (λ h. ground arith) e done,
                    )
              ]
            ]
      ]
    where
      after :
          (x y : Effect)
          → record s { effects = s.effects ++ x ∷ [] ++ y ∷ [] }
            ≡ record s { effects = s.effects ++ x ∷ y ∷ [] }
      after x y = ap (λ e. record s { effects = e }) (append_assoc s.effects (x ∷ []) (y ∷ []))

  -- On well-formed clients, as many as the limit at most, whose bucket array of three times the
  -- capacity is shorter than 2 ^ 64, a connection attempt does not fault, and what the server
  -- becomes is determined by the answers of the operating system: without a connection it stays as
  -- it is; a socket that cannot be made non-blocking is closed, with a warning in the log; at the
  -- limit the socket is told that the server is full and closed; a peer without an address is
  -- closed, with an error in the log; and otherwise exactly one client is added (or replaced) under
  -- the socket, in the state new, with empty buffers and the address, and the log says so. In all
  -- cases but the last the clients stay as they are.
  pub handle_conn-Attempt : (os : ConnOs) → Returns (handle_conn s os) (Attempt s f os)
  unfolding handle_conn
  handle_conn-Attempt os = elim (Option-cases os.accept) [
    | inl e ↦ (s, rw (e, handle_conn), nobody e refl)
    | inr (socket, e) ↦
        let (r, run, done) = admit-Attempt os socket e in (r, rw (e, handle_conn) run, done)
  ]

  -- On well-formed clients, as many as the limit at most, a connection attempt leaves as many
  -- clients as the limit at most.
  pub handle_conn-le-clients_max :
      (os : ConnOs) → Returns (handle_conn s os) λ r. r.clients.len ≤ clients_max
  handle_conn-le-clients_max os =
      let (r, run, done) = handle_conn-Attempt os in (r, run, bound r done)
    where
      bound : (r : Server) → Attempt s f os r → r.clients.len ≤ clients_max
      bound r (nobody a same) = rw same few
      bound r (blocking socket a b same) = rw same few
      bound r (refused socket a b c same) = rw same few
      bound r (unnamed socket a b c d same) = rw same few
      bound r (joined socket ip a b room d j) = omega (arith, j.count, room)
