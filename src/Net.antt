-- ===== src/Net.antt =====
-- src/net.c and inc/ac/net.h: the server, its clients, and one operation for each function. What the
-- operating system answers is an argument; what the server does to the outside is a list of effects.
pub mod Poll
pub mod Clients
pub mod Conn
pub mod Attempt
use aurora_comms.Arr.{assert}
use aurora_comms.Base.{
  ℕ, zero, suc, ◌+◌, ◌-◌, ◌%◌, ◌^◌, Bool, true, false, not, List, [], ◌∷◌, ◌++◌, Option, none, some,
  ◌==◌, ==_iff, ◌≡◌, ◌↔◌, if◌then◌else◌, length, Exec, ok, fault, exited, ◌>>=◌, ◌>>◌, bit_and,
  bit_or,
}
use aurora_comms.Key.{Key}
use aurora_comms.Log.{log_info, log_warning, log_error}
use aurora_comms.Map.{Map, map_new_reserve, map_free, map_get, map_assign, map_set, map_remove}
use aurora_comms.Str.{Str, codes}

abbrev pub clients_max : ℕ
clients_max = 50

-- A handle is a socket, a number that is not negative once `accept` has returned it.
unfoldable pub handle_hash : ℕ → ℕ
handle_hash handle = handle % 2 ^ 64

unfoldable pub handle_eq : ℕ → ℕ → Bool
handle_eq a b = a == b

pub handle_eq_iff : (a b : ℕ) → (handle_eq a b ≡ true) ↔ (a ≡ b)
unfolding handle_eq
handle_eq_iff a b = ==_iff a b

instance abbrev pub handle_key : Key ℕ
handle_key = record { hash = handle_hash; equal = handle_eq; equal_iff = handle_eq_iff }

pub data ClientState : Type 0 where
  new online to_be_removed : ClientState

pub record Client : Type 0 where
  pub handle : ℕ
  pub state : ClientState
  pub input : Str
  pub output : Str
  pub ip : Str

pub data Effect : Type 0 where
  closed : ℕ → Effect
  sent : ℕ → Str → Effect
  logged : Str → Str → Effect

pub record Server : Type 0 where
  pub listener : ℕ
  pub clients : Map ℕ Client
  pub effects : List Effect

-- `fcntl(F_GETFL)`, `none` for -1, and whether `fcntl(F_SETFL, flags)` succeeds.
pub record Fcntl : Type 0 where
  pub get_flags : Option ℕ
  pub set_flags : ℕ → Bool

abbrev pub o_nonblock : ℕ
o_nonblock = 2048

abbrev pub exit_success : ℕ
exit_success = 0

abbrev pub exit_failure : ℕ
exit_failure = 1

-- The 32-bit pattern of the `int` -1.
abbrev pub minus_one : ℕ
minus_one = 2 ^ 32 - 1

unfoldable pub socket_set_blocking : Fcntl → Bool → ℕ
socket_set_blocking os blocking = elim os.get_flags [
  | none ↦ exit_failure
  | some flags ↦
      let flags' : ℕ =
        if blocking then bit_and flags (minus_one - o_nonblock) else bit_or flags o_nonblock in
      if os.set_flags flags' then exit_success else exit_failure
]

unfoldable pub effect : Server → Effect → Server
effect s e = record s { effects = s.effects ++ e ∷ [] }

unfoldable pub server_new : Exec (Map ℕ Client)
server_new = ok (map_new_reserve clients_max)

unfoldable pub server_free : Server → Exec (Unit {0})
server_free s = map_free s.clients

-- What the system answers while the listener is set up. `bind` is given the port in 16 bits.
pub record ListenOs : Type 0 where
  pub socket : Option ℕ
  pub fcntl : Fcntl
  pub bind : ℕ → Bool
  pub listen : ℕ → Bool

unfoldable pub listen_on : Server → ListenOs → ℕ → ℕ → Exec Server
listen_on s os port socket =
    if socket_set_blocking os.fcntl false == minus_one
    then fault exited
    else if not (os.bind (port % 2 ^ 16))
    then fault exited
    else if not (os.listen clients_max)
    then fault exited
    else ok (record s { listener = socket })

unfoldable pub server_listen : Server → ListenOs → ℕ → Exec Server
server_listen s os port = elim os.socket [
  | none ↦ fault exited
  | some socket ↦ listen_on s os port socket
]

unfoldable pub disconnect_client : Server → Client → Exec Server
disconnect_client s client = do
  let s' =
      effect
        (effect s (logged log_info (codes "Client disconnected (" ++ (client.ip ++ codes ")."))))
        (closed client.handle)
  clients ← map_remove s.clients client.handle
  ok (record s' { clients = clients })

-- `accept` and `inet_ntop`, `none` for a failure.
pub record ConnOs : Type 0 where
  pub accept : Option ℕ
  pub fcntl : Fcntl
  pub peer_name : Option Str

abbrev pub refusal : Str
refusal = 0x0d ∷ 0x0a ∷ codes "Connection refused. Server is full." ++ 0x0d ∷ 0x0a ∷ []

unfoldable pub new_client : ℕ → Str → Client
new_client socket ip = record { handle = socket; state = new; input = []; output = []; ip = ip }

-- The server with the new client in its map.
unfoldable pub connected : Server → Map ℕ Client → Str → Server
connected s clients ip =
    effect (record s { clients = clients })
      (logged log_info (codes "Client connected (" ++ (ip ++ codes ").")))

unfoldable pub add_client : Server → ℕ → Str → Exec Server
add_client s socket ip =
    map_set s.clients socket (new_client socket ip) >>= λ clients. ok (connected s clients ip)

unfoldable pub reject_blocking : Server → ℕ → Server
reject_blocking s socket =
    effect
      (effect s (
        logged log_warning (
          codes "ac_socket_set_blocking(): failed to set client socket to non-blocking. "
          ++ codes "Disconnecting client.")))
      (closed socket)

unfoldable pub reject_full : Server → ℕ → Server
reject_full s socket = effect (effect s (sent socket refusal)) (closed socket)

unfoldable pub reject_unnamed : Server → ℕ → Server
reject_unnamed s socket =
    effect (effect s (closed socket)) (logged log_error (codes "inet_ntop(): fail."))

unfoldable pub admit : Server → ConnOs → ℕ → Exec Server
admit s os socket =
    if not (socket_set_blocking os.fcntl false == exit_success)
    then ok (reject_blocking s socket)
    else if s.clients.len == clients_max
    then ok (reject_full s socket)
    else elim os.peer_name [
      | none ↦ ok (reject_unnamed s socket)
      | some ip ↦ add_client s socket ip
    ]

unfoldable pub handle_conn : Server → ConnOs → Exec Server
handle_conn s os = elim os.accept [ none ↦ ok s | some socket ↦ admit s os socket ]

abbrev pub goodbye : Str
goodbye = 0x0d ∷ 0x0a ∷ codes "Goodbye!" ++ 0x0d ∷ 0x0a ∷ []

unfoldable pub server_remove_client : Server → ℕ → Exec Server
server_remove_client s handle = do
  client ← map_get s.clients handle
  let s' = effect s (sent client.handle goodbye)
  clients ← map_assign s.clients handle (record client { state = to_be_removed })
  ok (record s' { clients = clients })

unfoldable pub server_send : Server → ℕ → Str → Exec Server
server_send s handle bytes = do
  client ← map_get s.clients handle
  clients ← map_assign s.clients handle (record client { output = client.output ++ bytes })
  ok (record s { clients = clients })
