-- ===== src/App/Hearing.antt =====
-- What a text that is shown to the users in the chat does to the clients, described by handle.
use mathlib.Core.Option
use aurora_comms.App.Output.{shown, with_output, with_clients}
use aurora_comms.App.Update.{skips}
use aurora_comms.App.{App, User, State, login, chat, exit, load, interrupt}
use aurora_comms.Base.{
  ℕ, ◌≡◌, ap, Bool, true, false, Option, none, some, if◌then◌else◌, Exec, ok, fault,
}
use aurora_comms.Map.Lookup.{Models}
use aurora_comms.Net.Clients.{SameShape}
use aurora_comms.Net.{Client, handle_key}
use aurora_comms.Str.{Str}

abbrev pub is_chat : State → Bool
is_chat login = false
is_chat chat = true
is_chat exit = false

abbrev pub in_chat : Exec User → Bool
in_chat (ok u) = is_chat u.state
in_chat (fault e) = false

-- Whether the user at `q` with the handle `h` is shown the text.
abbrev pub hears : App → Option ℕ → ℕ → ℕ → Bool
hears app except h q = if skips except h then false else in_chat (load app q)

abbrev pub heard : Bool → Client → Str → Client
heard true c text = with_output c (shown interrupt text)
heard false c text = c

abbrev pub heard_at : App → Option ℕ → Str → ℕ → Option ℕ → Option Client → Option Client
heard_at app except text h none c = c
heard_at app except text h (some q) c = Option.map (λ d. heard (hears app except h q) d text) c

-- The clients afterwards: those of the users who hear it have the text in their output.
abbrev pub hear : App → Option ℕ → Str → (ℕ → Option ℕ) → (ℕ → Option Client) → ℕ → Option Client
hear app except text g f h = heard_at app except text h (g h) (f h)

-- The pointer `q` reads a user with the handle `h`, who has a client.
pub record Linked (app : App) (f : ℕ → Option Client) (h q : ℕ) : Type 0 where
  pub user : User
  pub reads : load app q ≡ ok user
  pub same : user.handle ≡ h
  pub client : Client
  pub there : f h ≡ some client

-- The text was shown to the users of `g`, and nothing else changed.
pub record Told (app : App) (except : Option ℕ) (text : Str) (g : ℕ → Option ℕ)
    (f : ℕ → Option Client) (r : App) : Type 0 where
  pub models : Models r.server.clients (hear app except text g f)
  pub shape : SameShape app.server.clients r.server.clients
  pub rest : r ≡ with_clients app r.server.clients

pub load-with_clients :
    (app r : App) → r ≡ with_clients app r.server.clients → (q : ℕ) → load r q ≡ load app q
unfolding load
load-with_clients app r rest q = ap (λ a. load a q) rest
