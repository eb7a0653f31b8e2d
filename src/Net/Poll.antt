-- ===== src/Net/Poll.antt =====
-- `ac_server_poll` of src/net.c, loop by loop.
pub mod Receive
pub mod Flush
pub mod Sweep
use aurora_comms.Base.{
  ℕ, zero, suc, ◌+◌, Bool, true, false, List, [], ◌∷◌, ◌++◌, Option, none, some, ◌==◌, ltb,
  if◌then◌else◌, length, get_elem?, set, Exec, ok, fault, exited, ◌>>=◌, ◌>>◌,
}
use aurora_comms.Entries.{Entries}
use aurora_comms.Line.{remove_n}
use aurora_comms.Log.{log_error, log_warning}
use aurora_comms.Map.{Map, Bucket, live, bucket_at, map_get, map_assign, map_foreach}
use aurora_comms.Net.{
  Server, Client, new, online, to_be_removed, Effect, sent, logged, ConnOs, handle_key, effect,
  disconnect_client, handle_conn,
}
use aurora_comms.Str.{Str, codes}

-- `recv`: -1 with EAGAIN or EWOULDBLOCK, -1 with another error, or bytes, none of them where the
-- other side has closed.
pub data Received : Type 0 where
  would_block failed : Received
  bytes : Str → Received

pub data Polled : Type 0 where
  poll_error timed_out ready : Polled

-- What the system answers during one poll: the call of `poll` by its timeout, -1 or 0, whether a
-- socket is readable, and the calls of `recv` and `send` by their socket.
pub record PollOs : Type 0 where
  pub poll : (waits_forever : Bool) → Polled
  pub readable : ℕ → Bool
  pub conn : ConnOs
  pub recv : ℕ → Received
  pub send : ℕ → Str → Option ℕ

-- The state of the loops: the server and the sockets to be polled after the listener.
abbrev pub Sweep : Type 0
Sweep = Server × List ℕ

-- One client at place `j` of bucket `i`, whose entries are `c`.
unfoldable pub sweep_client : ℕ → ℕ → Entries ℕ Client → ℕ × Client → Sweep → Exec Sweep
sweep_client i j c (key, client) (s, polled) = elim client.state [
  | new ↦
      let entry : ℕ × Client = (key, record client { state = online }) in
      let clients : Map ℕ Client = record (s.clients) {
        bkts = set s.clients.bkts i (live (set c j entry));
      } in
      ok (record s { clients = clients }, polled ++ client.handle ∷ [])
  | online ↦ ok (s, polled ++ client.handle ∷ [])
  | to_be_removed ↦ disconnect_client s client >>= λ s'. ok (s', polled)
]

-- The loop over a bucket from place `j` on. The length is read anew in each round; there are at most
-- as many rounds as the bucket had entries.
unfoldable pub sweep_bucket : ℕ → ℕ → ℕ → Sweep → Exec Sweep
sweep_bucket zero i j w = ok w
sweep_bucket (suc rounds) i j w = bucket_at w.0.clients.bkts i >>= λ c. elim (get_elem? c j) [
  | none ↦ ok w
  | some e ↦ sweep_client i j c e w >>= sweep_bucket rounds i (j + 1)
]

unfoldable pub sweep_bkts : ℕ → ℕ → Sweep → Exec Sweep
sweep_bkts zero i w = ok w
sweep_bkts (suc rounds) i w = do
  c ← bucket_at w.0.clients.bkts i
  w' ← sweep_bucket (length c) i 0 w
  sweep_bkts rounds (i + 1) w'

unfoldable pub sweep : Server → Exec Sweep
sweep s = sweep_bkts (length s.clients.bkts) 0 (s, [])

-- What arrived from the client of a socket.
unfoldable pub take_in : Server → ℕ → Client → Received → Exec Server
take_in s fd client would_block = ok (
    effect s (
      logged log_warning
        (codes "recv(): returned empty for client (" ++ (client.ip ++ codes ")."))))
take_in s fd client failed = do
  clients ← map_assign s.clients fd (record client { state = to_be_removed })
  ok (record s { clients = clients })
take_in s fd client (bytes []) = do
  clients ← map_assign s.clients fd (record client { state = to_be_removed })
  ok (record s { clients = clients })
take_in s fd client (bytes (b ∷ bs)) = do
  clients ← map_assign s.clients fd (record client { input = client.input ++ b ∷ bs })
  ok (record s { clients = clients })

unfoldable pub receive_one : PollOs → ℕ → Server → Exec Server
receive_one os fd s =
    if os.readable fd
    then (map_get s.clients fd >>= λ client. take_in s fd client (os.recv fd))
    else ok s

unfoldable pub receive : PollOs → List ℕ → Server → Exec Server
receive os [] s = ok s
receive os (fd ∷ fds) s = receive_one os fd s >>= receive os fds

unfoldable pub accept_ready : PollOs → Server → Exec Server
accept_ready os s = if os.readable s.listener then handle_conn s os.conn else ok s

-- What `send` took is removed from the output.
unfoldable pub flush_client : PollOs → ℕ × Client → Server → Exec Server
flush_client os (key, client) s =
    if ltb 0 (length client.output)
    then (let s' = effect s (sent client.handle client.output) in
        elim (os.send client.handle client.output) [
          | none ↦ ok s'
          | some n ↦ do
            rest ← remove_n client.output 0 n
            clients ← map_assign s.clients key (record client { output = rest })
            ok (record s' { clients = clients })
        ])
    else ok s

unfoldable pub flush : PollOs → Server → Exec Server
flush os s = map_foreach s.clients (flush_client os) s

unfoldable pub server_poll : PollOs → Server → Exec Server
server_poll os s = sweep s >>= λ w. elim (os.poll (w.0.clients.pop_bkts == 0)) [
  | poll_error ↦ fault exited
  | timed_out ↦ flush os w.0
  | ready ↦ accept_ready os w.0 >>= receive os w.1 >>= flush os
]
