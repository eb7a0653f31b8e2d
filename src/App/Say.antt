-- ===== src/App/Say.antt =====
-- What a user says in the chat, in src/state.c.
use aurora_comms.App.Output.{Sent, shown, print_fmt-Sent}
use aurora_comms.App.Update.{skips, say}
use aurora_comms.App.{App, User, load, after_enter}
use aurora_comms.Base.{
  ℕ, ◌<◌, ◌≡◌, refl, ◌∙◌, ◌++◌, Option, none, some, ==_iff, length, ok, ◌>>=◌, Returns,
}
use aurora_comms.Map.Lookup.{Models}
use aurora_comms.Net.{Client, handle_key}
use aurora_comms.Str.{Str, codes}
use aurora_comms.App.Broadcast.{broadcast-Told}
use aurora_comms.App.Hearing.{heard_at, hear, Linked, Told, load-with_clients}

-- Under the conditions of a broadcast, a line that a user with a client says is shown to the other
-- users in the chat, with the name of the speaker, and then, as their own, to the speaker, if both
-- texts are shorter than 1024 bytes.
pub say_lem :
    (app : App) (f : ℕ → Option Client) (g : ℕ → Option ℕ) (p : ℕ) (u : User) (c : Client)
    (line : Str)
    → Models app.server.clients f
    → Models app.from_handle g
    → length app.from_handle.bkts ≡ app.from_handle.cap
    → ((h q : ℕ) → g h ≡ some q → Linked app f h q)
    → load app p ≡ ok u
    → f u.handle ≡ some c
    → length (codes "[" ++ (u.username ++ (codes "]: " ++ line))) < 1024
    → length (codes "[You]: " ++ line) < 1024
    → let text = codes "[" ++ (u.username ++ (codes "]: " ++ line)) in
      Returns (say app p line) λ r.
        (mid : App) × Told app (some u.handle) text g f mid
        × Sent mid
            (hear app (some u.handle) text g f)
            u.handle
            c
            (shown after_enter (codes "[You]: " ++ line))
            r
unfolding say skips
say_lem app f g p u c line valid users whole linked known there fits fits_own =
    let text = codes "[" ++ (u.username ++ (codes "]: " ++ line)) in
    let except : Option ℕ = some u.handle in
    let (mid, run, told) = broadcast-Told except text fits app f g valid users whole linked in
    let (r, run', sent) =
      print_fmt-Sent mid (hear app except text g f) p u c told.models
        (load-with_clients app mid told.rest p ∙ known) (own (g u.handle)) after_enter
        (codes "[You]: " ++ line) fits_own in
    (r, rw (known, ◌>>=◌, run) run', (mid, told, sent))
  where
    own :
        (x : Option ℕ)
        → heard_at app
            (some u.handle)
            (codes "[" ++ (u.username ++ (codes "]: " ++ line)))
            u.handle
            x
            (f u.handle)
          ≡ some c
    own none = there
    own (some q) = rw (there, (==_iff u.handle u.handle).1 refl)
