-- ===== src/App/Output.antt =====
-- What the output functions of src/io.c do to the clients: `ac_send`, `ac_prompt`, `ac_print_fmt`.
use aurora_comms.App.{
  App, User, load, app_send, newline, prompt, PrintType, after_enter, interrupt, leading_newline,
  print_fmt,
}
use aurora_comms.Base.{
  ℕ, ◌<◌, ◌≡◌, ap, subst, ◌∙◌, append_assoc, ◌++◌, Option, some, length, ok, fault, out_of_bounds,
  ◌>>=◌, Returns,
}
use aurora_comms.Fmt.{read_printed_fits, read_printed_over}
use aurora_comms.Map.Layout.{update}
use aurora_comms.Map.Lookup.{Models}
use aurora_comms.Map.{Map}
use aurora_comms.Net.Clients.{
  SameShape, SameShape-trans, update_twice, found_update, server_send-Models,
}
use aurora_comms.Net.{Server, Client, handle_key}
use aurora_comms.Str.{Str, codes}

abbrev pub with_output : Client → Str → Client
with_output c bytes = record c { output = c.output ++ bytes }

abbrev pub with_clients : App → Map ℕ Client → App
with_clients app clients = record app { server = record (app.server) { clients = clients } }

-- The bytes were added to the output of the client `c` with the handle `h`, and nothing else changed.
pub record Sent (app : App) (f : ℕ → Option Client) (h : ℕ) (c : Client) (bytes : Str) (r : App)
    : Type 0 where
  pub models : Models r.server.clients (update f h (some (with_output c bytes)))
  pub shape : SameShape app.server.clients r.server.clients
  pub rest : r ≡ with_clients app r.server.clients

server_rest :
    (s r : Server)
    → r.effects ≡ s.effects
    → r.listener ≡ s.listener
    → r ≡ record s { clients = r.clients }
server_rest s r e l = rw (← e, ← l)

module _ (app : App) (f : ℕ → Option Client) (h : ℕ) (c : Client)
    (valid : Models app.server.clients f) (there : f h ≡ some c) where
  pub app_send-Sent : (bytes : Str) → Returns (app_send app h bytes) (Sent app f h c bytes)
  unfolding app_send
  app_send-Sent bytes =
      let (s, run, (models, shape, effects, listener)) =
        server_send-Models app.server f h valid bytes there in
      (
        record app { server = s },
        rw run,
        record {
          models = models;
          shape = shape;
          rest = ap (λ t. record app { server = t }) (server_rest app.server s effects listener);
        },
      )

pub then_send :
    (app r : App) (f : ℕ → Option Client) (h : ℕ) (c : Client) (bytes more : Str)
    → Sent app f h c bytes r
    → Returns (app_send r h more) (Sent app f h c (bytes ++ more))
then_send app r f h c bytes more sent =
    let c' = with_output c bytes in
    let f' = update f h (some c') in
    let (r', run, again) = app_send-Sent r f' h c' sent.models (found_update f h c') more in
    let whole : with_output c' more ≡ with_output c (bytes ++ more) =
      ap (λ o. record c { output = o }) (append_assoc c.output bytes more) in
    (
      r',
      run,
      record {
        models =
            subst (Models r'.server.clients)
              (update_twice f h (some c') (some (with_output c' more))
                ∙ ap (λ d. update f h (some d)) whole)
              again.models;
        shape =
            SameShape-trans app.server.clients r.server.clients r'.server.clients sent.shape
              again.shape;
        rest = again.rest ∙ ap (λ a. with_clients a r'.server.clients) sent.rest;
      },
    )

-- The bytes of a printed text: the separating newline, the text, a newline and the prompt.
abbrev pub shown : PrintType → Str → Str
shown after_enter text = text ++ newline ++ codes ">"
shown interrupt text = newline ++ text ++ newline ++ codes ">"

pub load_rest :
    (app r : App) (f : ℕ → Option Client) (h : ℕ) (c : Client) (bytes : Str) (p : ℕ)
    → Sent app f h c bytes r
    → load r p ≡ load app p
unfolding load
load_rest app r f h c bytes p sent = ap (λ a. load a p) sent.rest

module _ (app : App) (f : ℕ → Option Client) (p : ℕ) (u : User) (c : Client)
    (valid : Models app.server.clients f) (known : load app p ≡ ok u)
    (there : f u.handle ≡ some c) where
  print_end :
      (bytes : Str) (r : App)
      → Sent app f u.handle c bytes r
      → Returns
          (app_send r u.handle newline >>= λ r'. prompt r' p)
          (Sent app f u.handle c (bytes ++ newline ++ codes ">"))
  unfolding prompt
  print_end bytes r sent =
      let (r1, run1, sent1) = then_send app r f u.handle c bytes newline sent in
      let (r2, run2, sent2) = then_send app r1 f u.handle c (bytes ++ newline) (codes ">") sent1 in
      (r2, rw (run1, ◌>>=◌, load_rest app r1 f u.handle c _ p sent1 ∙ known) run2, sent2)

  -- A text that is shorter than 1024 bytes is added to the output of the client of the user, with
  -- the separating newline if it interrupts, and then a newline and the prompt. Nothing else
  -- changes.
  pub print_fmt-Sent :
      (action : PrintType) (text : Str)
      → length text < 1024
      → Returns (print_fmt app p action text) (Sent app f u.handle c (shown action text))
  unfolding print_fmt leading_newline
  print_fmt-Sent after_enter text fits =
      let (r1, run1, sent1) = app_send-Sent app f u.handle c valid there text in
      let (r2, run2, sent2) = print_end text r1 sent1 in
      (r2, rw (known, ◌>>=◌, read_printed_fits 1024 text fits, run1) run2, sent2)
  print_fmt-Sent interrupt text fits =
      let (r0, run0, sent0) = app_send-Sent app f u.handle c valid there newline in
      let (r1, run1, sent1) = then_send app r0 f u.handle c newline text sent0 in
      let (r2, run2, sent2) = print_end (newline ++ text) r1 sent1 in
      (r2, rw (known, ◌>>=◌, run0, read_printed_fits 1024 text fits, run1) run2, sent2)

  -- A text of more than 1024 bytes, printed for a user with a client, makes the server read past
  -- the array it was printed into.
  pub print_fmt_over :
      (action : PrintType) (text : Str)
      → 1024 < length text
      → print_fmt app p action text ≡ fault out_of_bounds
  unfolding print_fmt leading_newline
  print_fmt_over after_enter text long = rw (known, ◌>>=◌, read_printed_over 1024 text long)
  print_fmt_over interrupt text long =
      let (r0, run0, sent0) = app_send-Sent app f u.handle c valid there newline in
      rw (known, ◌>>=◌, run0, read_printed_over 1024 text long)
