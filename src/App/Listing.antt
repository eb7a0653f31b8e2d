-- ===== src/App/Listing.antt =====
-- The list of the users in src/io.c.
use aurora_comms.App.Command.{list_entry, list_cmd}
use aurora_comms.App.Output.{Sent, app_send-Sent, then_send, load_rest}
use aurora_comms.App.{App, User, chat, load, send_fmt, send_msg, app_send, newline, prompt}
use aurora_comms.Base.{
  ℕ, ◌<◌, ◌≤◌, ◌≡◌, refl, sym, subst, ◌∙◌, [], ◌∷◌, ◌++◌, append-nil, append_assoc, length-append,
  Option, some, arith, ◌==◌, if◌then◌else◌, Bool-cases, inl, inr, length, Exec, ok, fault, ◌>>=◌,
  Returns,
}
use aurora_comms.Entries.{Entries, find, find-cons, IsDistinct}
use aurora_comms.Fmt.{read_printed_fits}
use aurora_comms.Key.{equal_refl}
use aurora_comms.Map.Foreach.{Walk, map_foreach-Models}
use aurora_comms.Map.Lookup.{Models}
use aurora_comms.Map.{foreach_chain, map_foreach}
use aurora_comms.Net.{Client, handle_key}
use aurora_comms.Str.{Str, codes}

-- The pointer reads a user whose name is not longer than names may be.
pub record Named (app : App) (q : ℕ) : Type 0 where
  pub user : User
  pub reads : load app q ≡ ok user
  pub short : length user.username ≤ 16

abbrev pub name_at : Exec User → Str
name_at (ok u) = u.username
name_at (fault e) = []

-- The line of one entry: none for the user who asks, and the name for every other user.
abbrev pub row : App → ℕ → ℕ × ℕ → Str
row app own (h, q) = if own == h then [] else codes " - " ++ (name_at (load app q) ++ newline)

abbrev pub rows : App → ℕ → Entries ℕ ℕ → Str
rows app own [] = []
rows app own (e ∷ es) = row app own e ++ rows app own es

-- What the user who asks is shown.
abbrev pub listing : App → User → Entries ℕ ℕ → Str
listing app u es =
    (codes "Online users:" ++ newline)
    ++ (codes " - " ++ (u.username ++ (codes " (You)" ++ newline)))
    ++ rows app u.handle es
    ++ codes ">"

module _ (app : App) (f : ℕ → Option Client) (p : ℕ) (u : User) (c : Client)
    (valid : Models app.server.clients f) (known : load app p ≡ ok u)
    (there : f u.handle ≡ some c) where
  -- A further text for the user who asks.
  then_send_fmt :
      (r : App) (bytes text : Str)
      → Sent app f u.handle c bytes r
      → length text < 1024
      → Returns (send_fmt r p text) (Sent app f u.handle c (bytes ++ text))
  unfolding send_fmt
  then_send_fmt r bytes text sent fits =
      let (r', run, sent') = then_send app r f u.handle c bytes text sent in
      (
        r',
        rw
            (
              load_rest app r f u.handle c bytes p sent ∙ known,
              ◌>>=◌,
              read_printed_fits 1024 text fits,
            )
            run,
        sent',
      )

  module _ (asks : u.state ≡ chat) where
    list_entry_run :
        (r : App) (bytes : Str) (h q : ℕ)
        → Sent app f u.handle c bytes r
        → Named app q
        → Returns (list_entry p (h, q) r) (Sent app f u.handle c (bytes ++ row app u.handle (h, q)))
    unfolding list_entry
    list_entry_run r bytes h q sent named = elim (Bool-cases (u.handle == h)) [
      | inl own ↦ (
        r,
        rw (load_rest app r f u.handle c bytes p sent ∙ known, ◌>>=◌, own),
        rw (own, append-nil) sent,
      )
      | inr other ↦
          let text = codes " - " ++ (named.user.username ++ newline) in
          let fits : length text < 1024 = omega (
            arith,
            named.short,
            length-append (codes " - ") (named.user.username ++ newline),
            length-append named.user.username newline,
          ) in
          let (r', run, sent') = then_send_fmt r bytes text sent fits in
          (
            r',
            rw
                (
                  load_rest app r f u.handle c bytes p sent ∙ known,
                  ◌>>=◌,
                  other,
                  asks,
                  load_rest app r f u.handle c bytes q sent ∙ named.reads,
                )
                run,
            rw (other, named.reads) sent',
          )
    ]

    list_all :
        (es : Entries ℕ ℕ) (r : App) (bytes : Str)
        → Sent app f u.handle c bytes r
        → IsDistinct es
        → ((h q : ℕ) → find h es ≡ some q → Named app q)
        → Returns
            (foreach_chain es (list_entry p) r)
            (Sent app f u.handle c (bytes ++ rows app u.handle es))
    unfolding foreach_chain find
    list_all [] r bytes sent d named = (r, refl, rw append-nil sent)
    list_all ((h, q) ∷ es) r bytes sent (fresh, d) named =
        let (r', run, sent') =
          list_entry_run r bytes h q sent (named h q (rw (equal_refl h) refl)) in
        let (r'', run', sent'') =
          list_all es r' _ sent' d (λ x k e. named x k (find-cons (h, q) es x k fresh e)) in
        (r'', rw run run', rw append_assoc at sent'')

    list_cmd_run :
        (app1 app2 app3 app4 : App)
        → send_msg app p (codes "Online users:" ++ newline) ≡ ok app1
        → load app1 p ≡ ok u
        → send_fmt app1 p (codes " - " ++ (u.username ++ (codes " (You)" ++ newline))) ≡ ok app2
        → map_foreach app2.from_handle (list_entry p) app2 ≡ ok app3
        → prompt app3 p ≡ ok app4
        → list_cmd app p ≡ ok app4
    unfolding list_cmd
    list_cmd_run app1 app2 app3 app4 first here second third fourth =
        rw (first, ◌>>=◌, here, ◌>>=◌, second, ◌>>=◌, third, ◌>>=◌) fourth

    title_run :
        (title : Str) (r : App)
        → length title < 1024
        → app_send app u.handle title ≡ ok r
        → send_msg app p title ≡ ok r
    unfolding send_msg send_fmt
    title_run title r fits run = rw (known, ◌>>=◌, read_printed_fits 1024 title fits) run

    prompt_run :
        (r r' : App) (bytes : Str)
        → Sent app f u.handle c bytes r
        → app_send r u.handle (codes ">") ≡ ok r'
        → prompt r p ≡ ok r'
    unfolding prompt
    prompt_run r r' bytes sent run = rw (load_rest app r f u.handle c bytes p sent ∙ known) run

    -- A user in the chat who asks for the list is sent, through a map of the users that is well
    -- formed and not overgrown, the title, their own name marked as theirs, one line for each other
    -- entry of the map with the name of its user, whatever the state of that user, and the prompt;
    -- nothing but the output of the client who asks is changed. The entries are each key of the map
    -- once. The names have 16 bytes at most.
    pub list_cmd-Sent :
        (g : ℕ → Option ℕ)
        → Models app.from_handle g
        → length app.from_handle.bkts ≡ app.from_handle.cap
        → length u.username ≤ 16
        → ((h q : ℕ) → g h ≡ some q → Named app q)
        → Returns (list_cmd app p) λ r.
          (es : Entries ℕ ℕ) × Walk app.from_handle g es
          × Sent app f u.handle c (listing app u es) r
    list_cmd-Sent g users whole short named =
        let title = codes "Online users:" ++ newline in
        let own = codes " - " ++ (u.username ++ (codes " (You)" ++ newline)) in
        let fits : length own < 1024 = omega (
          arith,
          short,
          length-append (codes " - ") (u.username ++ (codes " (You)" ++ newline)),
          length-append u.username (codes " (You)" ++ newline),
        ) in
        let (app1, run1, sent1) = app_send-Sent app f u.handle c valid there title in
        let (app2, run2, sent2) = then_send_fmt app1 title own sent1 fits in
        let users2 = subst (λ a. Models a.from_handle g) (sym sent2.rest) users in
        let whole2 =
          subst (λ a. length a.from_handle.bkts ≡ a.from_handle.cap) (sym sent2.rest) whole in
        let (es, walk, loop) =
          map_foreach-Models app2.from_handle g (list_entry p) app2 users2 whole2 in
        let (app3, run3, sent3) =
          list_all es app2 (title ++ own) sent2 walk.distinct
            (λ h q e. named h q (sym (walk.reads h) ∙ e)) in
        let (app4, run4, sent4) =
          then_send app app3 f u.handle c (title ++ own ++ rows app u.handle es) (codes ">")
            sent3 in
        (
          app4,
          list_cmd_run app1 app2 app3 app4 (title_run title app1 (omega arith) run1)
              (load_rest app app1 f u.handle c title p sent1 ∙ known) run2 (loop ∙ run3)
              (prompt_run app3 app4 _ sent3 run4),
          (es, subst (λ a. Walk a.from_handle g es) sent2.rest walk, sent4),
        )
