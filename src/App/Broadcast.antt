-- ===== src/App/Broadcast.antt =====
-- The loops of src/state.c and src/app.c that show a text to every user in the chat.
use aurora_comms.App.Output.{shown, with_output, with_clients, print_fmt-Sent}
use aurora_comms.App.Update.{skips, tell, broadcast}
use aurora_comms.App.{App, State, login, chat, exit, interrupt}
use aurora_comms.Base.{
  none-ne-some, ℕ, ◌<◌, ◌≡◌, ◌⊎◌, refl, sym, ap, subst, ◌∙◌, fun_ext, Bool, true, false, Bool-cases,
  inl, inr, [], ◌∷◌, Option, none, some, Option-cases, if◌then◌else◌, length, Returns,
}
use aurora_comms.Entries.{Entries, find, IsDistinct}
use aurora_comms.Key.{equal_refl}
use aurora_comms.Map.Foreach.{map_foreach-Models}
use aurora_comms.Map.Layout.{update}
use aurora_comms.Map.Lookup.{Models}
use aurora_comms.Map.{foreach_chain}
use aurora_comms.Net.Clients.{SameShape, SameShape-trans, unchanged_at}
use aurora_comms.Net.{Client, handle_key, handle_eq, handle_eq_iff}
use aurora_comms.Str.{Str}
use aurora_comms.App.Hearing.{is_chat, in_chat, hears, heard, hear, Linked, Told, load-with_clients}

module _ (except : Option ℕ) (text : Str) (fits : length text < 1024) where
  abbrev Step : App → (ℕ → Option Client) → ℕ → Client → Bool → App → Type 0
  Step app f h c b r =
      Models r.server.clients (update f h (some (heard b c text)))
      × SameShape app.server.clients r.server.clients
      × (r ≡ with_clients app r.server.clients)

  quiet :
      (app : App) (f : ℕ → Option Client) (h : ℕ) (c : Client)
      → Models app.server.clients f
      → f h ≡ some c
      → Step app f h c false app
  quiet app f h c valid there = (
    subst (Models app.server.clients) (unchanged_at f h c there) valid,
    (refl, refl, refl, refl),
    refl,
  )

  -- One round of the loop.
  tell_run :
      (app : App) (f : ℕ → Option Client) (h q : ℕ)
      → Models app.server.clients f
      → (l : Linked app f h q)
      → Returns (tell except text (h, q) app) (Step app f h l.client (hears app except h q))
  unfolding tell
  tell_run app f h q valid l = elim (Bool-cases (skips except h)) [
    | inl skip ↦ (app, rw skip, rw skip (quiet app f h l.client valid l.there))
    | inr told ↦ by_state l.user.state refl told
  ]
    where
      hears_run :
          (b : Bool) → skips except h ≡ false → is_chat l.user.state ≡ b → hears app except h q ≡ b
      hears_run b told e = rw (told, l.reads) e

      silent :
          skips except h ≡ false
          → is_chat l.user.state ≡ false
          → Step app f h l.client (hears app except h q) app
      silent told e =
          subst (λ b. Step app f h l.client b app) (sym (hears_run false told e))
            (quiet app f h l.client valid l.there)

      by_state :
          (st : State)
          → l.user.state ≡ st
          → skips except h ≡ false
          → Returns (tell except text (h, q) app) (Step app f h l.client (hears app except h q))
      by_state login e told = (app, rw (told, l.reads, e), silent told (ap is_chat e))
      by_state exit e told = (app, rw (told, l.reads, e), silent told (ap is_chat e))
      by_state chat e told =
          let there : f l.user.handle ≡ some l.client = ap f l.same ∙ l.there in
          let (r, run, sent) =
            print_fmt-Sent app f q l.user l.client valid l.reads there interrupt text fits in
          let shown_models : Models r.server.clients
              (update f h (some (heard true l.client text))) =
            subst
              (λ k.
                Models r.server.clients
                  (update f k (some (with_output l.client (shown interrupt text)))))
              l.same sent.models in
          (
            r,
            rw (told, l.reads, e) run,
            subst (λ b. Step app f h l.client b r) (sym (hears_run true told (ap is_chat e)))
                (shown_models, sent.shape, sent.rest),
          )

  -- What the rest of the loop does to the clients after the first round is what the loop does.
  hear_step :
      (app r : App) (f : ℕ → Option Client) (h q : ℕ) (c : Client) (es : Entries ℕ ℕ)
      → ((x k : ℕ) → hears r except x k ≡ hears app except x k)
      → f h ≡ some c
      → find h es ≡ none
      → hear r except text
          (λ x. find x es)
          (update f h (some (heard (hears app except h q) c text)))
        ≡ hear app except text (λ x. find x ((h, q) ∷ es)) f
  unfolding find
  hear_step app r f h q c es same there fresh = fun_ext λ k. elim (Bool-cases (handle_eq h k)) [
    | inl here ↦
        subst
          (λ k.
            hear r except text (λ x. find x es)
              (update f h (some (heard (hears app except h q) c text))) k
            ≡ hear app except text (λ x. find x ((h, q) ∷ es)) f k)
          ((handle_eq_iff h k).0 here) (rw (fresh, equal_refl h, there))
    | inr apart ↦ elim (Option-cases (find k es)) [
      | inl e ↦ rw (e, apart)
      | inr (q', e) ↦ rw (e, apart, same k q')
    ]
  ]

  Linked-step :
      (app r : App) (f : ℕ → Option Client) (h q : ℕ) (d : Option Client) (es : Entries ℕ ℕ)
      → r ≡ with_clients app r.server.clients
      → find h es ≡ none
      → ((x k : ℕ) → find x ((h, q) ∷ es) ≡ some k → Linked app f x k)
      → (x k : ℕ) → find x es ≡ some k
      → Linked r (update f h d) x k
  unfolding find
  Linked-step app r f h q d es rest fresh linked x k e =
      let apart : handle_eq h x ≡ false = other (Bool-cases (handle_eq h x)) in
      let l = linked x k (rw apart e) in
      record {
        user = l.user;
        reads = load-with_clients app r rest k ∙ l.reads;
        same = l.same;
        client = l.client;
        there = rw apart l.there;
      }
    where
      other : (handle_eq h x ≡ true) ⊎ (handle_eq h x ≡ false) → handle_eq h x ≡ false
      other (inr no_match) = no_match
      other (inl match) =
          absurd
            (none-ne-some k (sym fresh ∙ ap (λ y. find y es) ((handle_eq_iff h x).0 match) ∙ e))

  tell_all :
      (es : Entries ℕ ℕ) (app : App) (f : ℕ → Option Client)
      → Models app.server.clients f
      → IsDistinct es
      → ((h q : ℕ) → find h es ≡ some q → Linked app f h q)
      → Returns (foreach_chain es (tell except text) app) (Told app except text (λ h. find h es) f)
  unfolding foreach_chain find
  tell_all [] app f valid d linked =
      (app, refl, record { models = valid; shape = (refl, refl, refl, refl); rest = refl })
  tell_all ((h, q) ∷ es) app f valid (fresh, d) linked =
      let l = linked h q (rw (equal_refl h) refl) in
      let (r, run, (models, shape, rest)) = tell_run app f h q valid l in
      let (r', run', told) = tell_all es r _ models d (
        Linked-step app r f h q (some (heard (hears app except h q) l.client text)) es rest fresh
          linked) in
      let hears_same : (x k : ℕ) → hears r except x k ≡ hears app except x k = λ x k.
        ap (λ u. if skips except x then false else in_chat u) (load-with_clients app r rest k) in
      (
        r',
        rw run run',
        record {
          models =
              subst (Models r'.server.clients)
                (hear_step app r f h q l.client es hears_same l.there fresh) told.models;
          shape =
              SameShape-trans app.server.clients r.server.clients r'.server.clients shape
                told.shape;
          rest = told.rest ∙ ap (λ a. with_clients a r'.server.clients) rest;
        },
      )

  -- If the maps of the clients and of the users are well formed, the bucket array of the users is
  -- as long as its capacity, every handle leads to a user with that handle and to a client, and the
  -- text is shorter than 1024 bytes, then a broadcast does not fault. It shows the text once to
  -- each user who is in the chat and is not left out, and changes nothing else.
  pub broadcast-Told :
      (app : App) (f : ℕ → Option Client) (g : ℕ → Option ℕ)
      → Models app.server.clients f
      → Models app.from_handle g
      → length app.from_handle.bkts ≡ app.from_handle.cap
      → ((h q : ℕ) → g h ≡ some q → Linked app f h q)
      → Returns (broadcast app except text) (Told app except text g f)
  unfolding broadcast
  broadcast-Told app f g valid users whole linked =
      let (es, walk, run) =
        map_foreach-Models app.from_handle g (tell except text) app users whole in
      let (r, done, told) =
        tell_all es app f valid walk.distinct (λ h q e. linked h q (sym (walk.reads h) ∙ e)) in
      (r, run ∙ done, subst (λ g'. Told app except text g' f r) (fun_ext walk.reads) told)
