-- ===== src/Net/Poll/Receive.antt =====
-- Reading from the clients in `ac_server_poll` of src/net.c.
use mathlib.Core.Option
use aurora_comms.Base.{
  ℕ, ◌≡◌, ◌⊎◌, refl, sym, ap, subst, ◌∙◌, true, false, Bool-cases, inl, inr, List, [], ◌∷◌, ◌++◌,
  Option, some, if◌then◌else◌, length, ok, ◌>>=◌, Returns,
}
use aurora_comms.Map.Assign.{map_assign-Models}
use aurora_comms.Map.Layout.{update}
use aurora_comms.Map.Lookup.{Models, map_get-Models}
use aurora_comms.Map.{map_assign, must_exist}
use aurora_comms.Net.Clients.{SameShape, SameShape-trans, unchanged_at}
use aurora_comms.Log.{log_warning}
use aurora_comms.Net.Poll.{
  PollOs, Received, would_block, failed, bytes, take_in, receive_one, receive,
}
use aurora_comms.Net.{Server, Client, logged, to_be_removed, handle_key, handle_eq, effect}
use aurora_comms.Str.{codes}

-- The client after a read.
abbrev pub arrived : Received → Client → Client
arrived would_block c = c
arrived failed c = record c { state = to_be_removed }
arrived (bytes []) c = record c { state = to_be_removed }
arrived (bytes (b ∷ bs)) c = record c { input = c.input ++ b ∷ bs }

abbrev pub read_once : PollOs → ℕ → Client → Client
read_once os fd c = if os.readable fd then arrived (os.recv fd) c else c

-- The clients after reads from the sockets in order.
abbrev pub read_all : PollOs → List ℕ → (ℕ → Option Client) → ℕ → Option Client
read_all os [] f = f
read_all os (fd ∷ fds) f = read_all os fds (update f fd (Option.map (read_once os fd) (f fd)))

abbrev pub Read : Server → (ℕ → Option Client) → ℕ → Client → Server → Type 0
Read s f fd c r =
    Models r.clients (update f fd (some c))
    × SameShape s.clients r.clients
    × (r.listener ≡ s.listener)

module _ (s : Server) (f : ℕ → Option Client) (fd : ℕ) (c : Client) (valid : Models s.clients f)
    (there : f fd ≡ some c) where
  pub stays : (r : Server) → r.clients ≡ s.clients → r.listener ≡ s.listener → Read s f fd c r
  stays r same listener = (
    subst (λ m. Models m (update f fd (some c))) (sym same)
        (subst (Models s.clients) (unchanged_at f fd c there) valid),
    (
      ap (λ m. m.len) same,
      ap (λ m. m.pop_bkts) same,
      ap (λ m. m.cap) same,
      ap (λ m. length m.bkts) same,
    ),
    listener,
  )

  assigned :
      (d : Client)
      → Returns
          (map_assign s.clients fd d >>= λ clients. ok (record s { clients = clients }))
          (Read s f fd d)
  assigned d =
      let (clients, run, (models, len, pop, cap, wide)) =
        map_assign-Models s.clients f fd d valid there in
      (record s { clients = clients }, rw run, (models, (len, pop, cap, wide), refl))

  take_in-Read : (got : Received) → Returns (take_in s fd c got) (Read s f fd (arrived got c))
  unfolding take_in effect
  take_in-Read would_block =
      let warning =
        logged log_warning (codes "recv(): returned empty for client (" ++ (c.ip ++ codes ").")) in
      (effect s warning, refl, stays (effect s warning) refl refl)
  take_in-Read failed = assigned (record c { state = to_be_removed })
  take_in-Read (bytes []) = assigned (record c { state = to_be_removed })
  take_in-Read (bytes (b ∷ bs)) = assigned (record c { input = c.input ++ b ∷ bs })

  receive_one-Read : (os : PollOs) → Returns (receive_one os fd s) (Read s f fd (read_once os fd c))
  unfolding receive_one must_exist
  receive_one-Read os = elim (Bool-cases (os.readable fd)) [
    | inl ready ↦
        let (r, run, done) = take_in-Read (os.recv fd) in
        (r, rw (ready, map_get-Models s.clients f valid fd, there) run, rw ready done)
    | inr idle ↦ (s, rw idle, rw idle (stays s refl refl))
  ]

-- Each socket is the one of a client.
abbrev pub Known : (ℕ → Option Client) → List ℕ → Type 0
Known f [] = Unit
Known f (fd ∷ fds) = ((c : Client) × (f fd ≡ some c)) × Known f fds

Known-update :
    (f : ℕ → Option Client) (fd : ℕ) (d : Client) (fds : List ℕ)
    → Known f fds
    → Known (update f fd (some d)) fds
Known-update f fd d [] known = tt
Known-update f fd d (q ∷ fds) ((c, there), known) =
    (still (Bool-cases (handle_eq fd q)), Known-update f fd d fds known)
  where
    still :
        (handle_eq fd q ≡ true) ⊎ (handle_eq fd q ≡ false)
        → (c : Client) × (update f fd (some d) q ≡ some c)
    still (inl same) = (d, rw same refl)
    still (inr apart) = (c, rw apart there)

-- Reading from sockets that all are sockets of clients does not fault. Each readable one is read,
-- in order: what arrives is appended to the input of its client, and the end of the stream or an
-- error marks the client for removal. The other clients stay as they are.
pub receive-Models :
    (os : PollOs) (fds : List ℕ) (s : Server) (f : ℕ → Option Client)
    → Models s.clients f
    → Known f fds
    → Returns (receive os fds s) λ r.
      Models r.clients (read_all os fds f)
      × SameShape s.clients r.clients
      × (r.listener ≡ s.listener)
unfolding receive
receive-Models os [] s f valid known = (s, refl, (valid, (refl, refl, refl, refl), refl))
receive-Models os (fd ∷ fds) s f valid ((c, there), known) =
    let (r, run, (models, shape, listener)) = receive_one-Read s f fd c valid there os in
    let (r', run', (models', shape', listener')) =
      receive-Models os fds r _ models (Known-update f fd (read_once os fd c) fds known) in
    (
      r',
      rw run run',
      (
        rw there models',
        SameShape-trans s.clients r.clients r'.clients shape shape',
        listener' ∙ listener,
      ),
    )
