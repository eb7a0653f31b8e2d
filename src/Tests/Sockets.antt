-- ===== src/Tests/Sockets.antt =====
-- The server of src/net.c at concrete inputs.
use mathlib.Core.Option
use aurora_comms.Base.{
  ℕ, ◌+◌, ◌≤◌, ◌≡◌, ◌≢◌, ◌↔◌, refl, sym, subst, ◌∙◌, true, false, if◌then◌else◌, [], ◌∷◌, Option,
  none, some, arith, length, ok, ok_inj, fault, use_after_free, ◌>>=◌, Returns, leb,
}
use aurora_comms.Map.Foreach.{total_body}
use aurora_comms.Map.Grow.{map_set-Models}
use aurora_comms.Map.Layout.{update}
use aurora_comms.Map.Lookup.{Models, map_new_reserve-Models}
use aurora_comms.Map.{
  Map, live, map_new_reserve, map_set, map_foreach, map_set_no_rehash, slot, bucket_at, read_bucket,
  append_entry,
}
use aurora_comms.Entries.{replace}
use aurora_comms.Net.Clients.{SameShape, server_send-Models, server_remove_client-Models}
use aurora_comms.Net.Attempt.{Attempt, handle_conn-Attempt, handle_conn-le-clients_max}
use aurora_comms.Net.Conn.{
  socket_set_blocking_iff, server_listen_ignores_fcntl, add_client_half_full,
}
use aurora_comms.Net.Poll.Flush.{TakesPart, flushed, flush-Models}
use aurora_comms.Net.Poll.Receive.{read_all, receive-Models}
use aurora_comms.Net.Poll.Sweep.{sweep_bucket_skips}
use aurora_comms.Net.Poll.{sweep_bucket, PollOs, bytes, ready, flush, receive}
use aurora_comms.Net.{
  Server, Client, online, to_be_removed, sent, handle_key, handle_hash, handle_eq, Fcntl, ListenOs,
  ConnOs, socket_set_blocking, server_listen, handle_conn, add_client, server_remove_client,
  server_send, goodbye, exit_success, clients_max,
}
use aurora_comms.Str.{Str, codes}

abbrev ann : Client
ann = record {
  handle = 4;
  state = online;
  input = codes "h";
  output = codes "bye";
  ip = codes "::1";
}

abbrev nobody : ℕ → Option Client
nobody _ = none

abbrev only_ann : ℕ → Option Client
only_ann = update nobody 4 (some ann)

abbrev ann_clients : Map ℕ Client
ann_clients = record { bkts = live ((4, ann) ∷ []) ∷ live [] ∷ []; cap = 2; len = 1; pop_bkts = 1 }

ann_clients_run : map_set (map_new_reserve 2) 4 ann ≡ ok ann_clients
unfolding map_set map_new_reserve map_set_no_rehash slot bucket_at read_bucket append_entry replace
    handle_hash
ann_clients_run = refl

ann_clients-Models : Models ann_clients only_ann
unfolding map_new_reserve
ann_clients-Models =
    let (r, run, (models, count, cap, wide)) =
      map_set-Models (map_new_reserve 2) nobody 4 ann (omega arith) (omega arith)
        (map_new_reserve-Models 2 (omega arith)).0 in
    let same : r ≡ ann_clients = ok_inj (sym run ∙ ann_clients_run) in
    subst (λ m. Models m only_ann) same models

abbrev server : Server
server = record { listener = 3; clients = ann_clients; effects = [] }

abbrev ann_there : only_ann 4 ≡ some ann
unfolding handle_eq
ann_there = refl

server_send-Models_example : Returns (server_send server 4 (codes "!")) λ r.
    Models r.clients (update only_ann 4 (some (record ann { output = codes "bye!" })))
    × SameShape ann_clients r.clients
    × (r.effects ≡ [])
    × (r.listener ≡ 3)
server_send-Models_example =
    server_send-Models server only_ann 4 ann_clients-Models (codes "!") ann_there

server_remove_client-Models_example : Returns (server_remove_client server 4) λ r.
    Models r.clients (update only_ann 4 (some (record ann { state = to_be_removed })))
    × SameShape ann_clients r.clients
    × (r.effects ≡ sent 4 goodbye ∷ [])
    × (r.listener ≡ 3)
server_remove_client-Models_example =
    server_remove_client-Models server only_ann 4 ann_clients-Models ann_there

abbrev fcntl : Fcntl
fcntl = record { get_flags = some 2; set_flags = λ _. true }

abbrev broken_fcntl : Fcntl
broken_fcntl = record { get_flags = none; set_flags = λ _. false }

socket_set_blocking_iff_example :
    (socket_set_blocking fcntl false ≡ exit_success)
    ↔ ((flags : ℕ) × (some 2 ≡ some flags) × (true ≡ true))
socket_set_blocking_iff_example = socket_set_blocking_iff fcntl false

abbrev listen_os : ListenOs
listen_os = record { socket = some 3; fcntl = fcntl; bind = λ _. true; listen = λ n. leb n 128 }

server_listen_ignores_fcntl_example :
    server_listen server listen_os 2323
    ≡ server_listen server (record listen_os { fcntl = broken_fcntl }) 2323
server_listen_ignores_fcntl_example = server_listen_ignores_fcntl server listen_os broken_fcntl 2323

abbrev conn_os : ConnOs
conn_os = record { accept = some 9; fcntl = fcntl; peer_name = some (codes "::2") }

handle_conn-Attempt_example : Returns (handle_conn server conn_os) (Attempt server only_ann conn_os)
handle_conn-Attempt_example =
    handle_conn-Attempt server only_ann ann_clients-Models (omega arith) (omega arith) conn_os

handle_conn-le-clients_max_example : Returns (handle_conn server conn_os) λ r. r.clients.len ≤ 50
handle_conn-le-clients_max_example =
    handle_conn-le-clients_max server only_ann ann_clients-Models (omega arith) (omega arith)
      conn_os

abbrev count_clients : ℕ × Client → ℕ → ℕ
count_clients (k, c) n = n + 1

one-ne-clients_max : server.clients.len ≢ clients_max
one-ne-clients_max h = omega (arith, h)

add_client_half_full_example :
    add_client server 9 (codes "::2") >>= (λ r. map_foreach r.clients (total_body count_clients) 0)
    ≡ fault use_after_free
add_client_half_full_example =
    add_client_half_full server only_ann ann_clients-Models (omega arith) (omega arith)
      count_clients 0 9 (codes "::2") one-ne-clients_max refl

abbrev take_two : ℕ → Str → Option ℕ
take_two handle out = if leb 2 (length out) then some 2 else none

abbrev poll_os : PollOs
poll_os = record {
  poll = λ _. ready;
  readable = λ _. true;
  conn = conn_os;
  recv = λ _. bytes (codes "i");
  send = take_two;
}

take_two-TakesPart : TakesPart poll_os
take_two-TakesPart handle n out h = ground arith

flush-Models_example : Returns (flush poll_os server) λ r.
    Models r.clients (λ h. Option.map (flushed poll_os) (only_ann h))
    × SameShape ann_clients r.clients
    × (r.listener ≡ 3)
flush-Models_example =
    flush-Models poll_os take_two-TakesPart server only_ann ann_clients-Models refl

receive-Models_example : Returns (receive poll_os (4 ∷ []) server) λ r.
    Models r.clients (read_all poll_os (4 ∷ []) only_ann)
    × SameShape ann_clients r.clients
    × (r.listener ≡ 3)
receive-Models_example =
    receive-Models poll_os (4 ∷ []) server only_ann ann_clients-Models ((ann, ann_there), tt)

abbrev leaving : ℕ → Client
leaving handle = record ann { handle = handle; state = to_be_removed }

-- Two clients who leave, in one bucket.
abbrev leaving_server : Server
leaving_server = record server {
  clients = record {
    bkts = live ((4, leaving 4) ∷ (8, leaving 8) ∷ []) ∷ live [] ∷ live [] ∷ live [] ∷ [];
    cap = 4;
    len = 2;
    pop_bkts = 1;
  };
}

leaving_bucket : bucket_at leaving_server.clients.bkts 0 ≡ ok ((4, leaving 4) ∷ (8, leaving 8) ∷ [])
unfolding bucket_at read_bucket
leaving_bucket = refl

leaving_slot : slot {K = ℕ} 4 leaving_server.clients.cap ≡ ok 0
unfolding slot handle_hash
leaving_slot = refl

sweep_bucket_skips_example :
    Returns
      (sweep_bucket 2 0 0 (leaving_server, []))
      λ w. (bucket_at w.0.clients.bkts 0 ≡ ok ((8, leaving 8) ∷ [])) × (w.1 ≡ [])
sweep_bucket_skips_example =
    sweep_bucket_skips leaving_server 0 (4, leaving 4) (8, leaving 8) [] leaving_bucket leaving_slot
      refl refl refl
