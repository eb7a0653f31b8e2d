-- ===== src/App/Entered.antt =====
-- The application after a name is stored in src/state.c: what is read through the pointers to users.
use aurora_comms.App.Hearing.{Linked, load-with_clients}
use aurora_comms.App.Memory.{with_user, load-store}
use aurora_comms.App.Output.{with_clients}
use aurora_comms.App.{App, User, chat, load}
use aurora_comms.Base.{
  ℕ, ◌≡◌, ◌≢◌, refl, sym, ap, ◌∙◌, Bool-cases, inl, inr, ◌++◌, Option, some, arith, ◌==◌, ==_iff,
  if◌then◌else◌, ok, ok_inj,
}
use aurora_comms.Map.Layout.{update}
use aurora_comms.Map.{Map}
use aurora_comms.Net.{Client, handle_key, handle_eq}
use aurora_comms.Str.Laws.{string_key}
use aurora_comms.Str.{Str}

abbrev pub with_names : App → Map Str ℕ → App
with_names app names = record app { from_username = names }

-- The user with the new name, and then in the chat.
abbrev pub with_name : User → Str → User
with_name u line = record u { username = u.username ++ line }

abbrev pub joined : User → Str → User
joined u line = record (with_name u line) { state = chat }

-- The application when the new user sees the text of the chat.
abbrev pub entered : App → ℕ → User → Str → Map Str ℕ → App
entered app p u line names =
    with_user (with_names (with_user app p (some (with_name u line))) names) p
      (some (joined u line))

pub load-with_names :
    (app : App) (names : Map Str ℕ) (q : ℕ) → load (with_names app names) q ≡ load app q
unfolding load
load-with_names app names q = refl

pub updated_there :
    (f : ℕ → Option Client) (k h : ℕ) (c d : Client)
    → f h ≡ some d
    → update f k (some c) h ≡ some (if handle_eq k h then c else d)
updated_there f k h c d there = elim (Bool-cases (handle_eq k h)) [
  | inl same ↦ rw same refl
  | inr apart ↦ rw apart there
]

module _ (app : App) (p : ℕ) (u : User) (line : Str) (known : load app p ≡ ok u) where
  pub load-named :
      (names : Map Str ℕ)
      → load (with_names (with_user app p (some (with_name u line))) names) p
        ≡ ok (with_name u line)
  load-named names =
      let (stored, read, others) = load-store app p u known (with_name u line) in
      load-with_names (with_user app p (some (with_name u line))) names p ∙ read

  pub load-entered :
      (names : Map Str ℕ) (q : ℕ) → p ≢ q → load (entered app p u line names) q ≡ load app q
  load-entered names q apart =
      let app1 = with_user app p (some (with_name u line)) in
      let (stored, read, others) = load-store app p u known (with_name u line) in
      let (stored', read', others') =
        load-store (with_names app1 names) p (with_name u line) (load-named names)
          (joined u line) in
      others' q apart ∙ load-with_names app1 names q ∙ others q apart

  -- The other users are linked as before, and so is the one who joined.
  pub entered-Linked :
      (names : Map Str ℕ) (f : ℕ → Option Client) (c : Client) (r : App) (h q : ℕ)
      → load (entered app p u line names) p ≡ ok (joined u line)
      → r ≡ with_clients (entered app p u line names) r.server.clients
      → Linked app f h q
      → Linked r (update f u.handle (some c)) h q
  entered-Linked names f c r h q read rest l = elim (Bool-cases (p == q)) [
    | inl same ↦
        let p_is : p ≡ q = (==_iff p q).0 same in
        let user_is : u ≡ l.user = ok_inj (sym known ∙ ap (load app) p_is ∙ l.reads) in
        record {
          user = joined u line;
          reads =
              load-with_clients (entered app p u line names) r rest q
              ∙ ap (load (entered app p u line names)) (sym p_is)
              ∙ read;
          same = ap (λ v. v.handle) user_is ∙ l.same;
          client = if handle_eq u.handle h then c else l.client;
          there = updated_there f u.handle h c l.client l.there;
        }
    | inr apart ↦ record {
      user = l.user;
      reads =
          load-with_clients (entered app p u line names) r rest q
          ∙ load-entered names q (λ e. ground (arith, e, apart, ==_iff p q))
          ∙ l.reads;
      same = l.same;
      client = if handle_eq u.handle h then c else l.client;
      there = updated_there f u.handle h c l.client l.there;
    }
  ]
