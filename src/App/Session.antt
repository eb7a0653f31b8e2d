-- ===== src/App/Session.antt =====
-- What a line of input does to a user, in src/state.c: the refusals at the login, the changes of state,
-- and the answer to the question whether to leave.
use aurora_comms.App.Memory.{with_user, load-store}
use aurora_comms.App.Output.{Sent, shown, print_fmt-Sent}
use aurora_comms.App.Screens.{greeting, enter_text, state_new, state_free, state_switch}
use aurora_comms.App.Update.{taken_text, invalid_text, login_line, exit_line}
use aurora_comms.App.{App, User, State, login, chat, exit, load, after_enter}
use aurora_comms.Base.{
  ℕ, ◌<◌, ◌≡◌, ◌≢◌, ◌⊎◌, inl, inr, refl, subst, true, false, [], ◌∷◌, ◌++◌, Option, some,
  Bool-cases, arith, ◌==◌, if◌then◌else◌, length, ok, ◌>>=◌, Returns,
}
use aurora_comms.Line.{validate_username}
use aurora_comms.Map.Layout.{update}
use aurora_comms.Map.Lookup.{Models, map_contains-Models}
use aurora_comms.Map.{is_some}
use aurora_comms.Net.Clients.{server_remove_client-Models}
use aurora_comms.Net.{Client, sent, goodbye, to_be_removed, handle_key}
use aurora_comms.Str.Laws.{string_key}
use aurora_comms.Str.{Str, codes, string_eq_ignore_case}

taken_text_fits : length taken_text < 1024
taken_text_fits = omega arith

invalid_text_fits : length invalid_text < 1024
invalid_text_fits = omega arith

enter_text-with_user :
    (app : App) (now p : ℕ) (u : Option User) (st : State) (name : Str)
    → enter_text (with_user app p u) now st name ≡ enter_text app now st name
unfolding enter_text greeting
enter_text-with_user app now p u login name = refl
enter_text-with_user app now p u chat name = refl
enter_text-with_user app now p u exit name = refl

module _ (app : App) (f : ℕ → Option Client) (now p : ℕ) (u : User) (c : Client)
    (valid : Models app.server.clients f) (known : load app p ≡ ok u)
    (there : f u.handle ≡ some c) where
  -- A line at the login that is not empty and is a taken name, or not a valid one, is answered with
  -- the reason, the taken name first. Nothing changes but the output of the client.
  pub login_line_refused :
      (g : Str → Option ℕ) (line : Str)
      → Models app.from_username g
      → length line ≢ 0
      → (is_some (g line) ≡ true) ⊎ (validate_username line ≡ false)
      → Returns (login_line app now p line) (
          Sent app f u.handle c
            (shown after_enter (if is_some (g line) then taken_text else invalid_text)))
  unfolding login_line
  login_line_refused g line names some_text bad =
      let text : (length line == 0) ≡ false = ground arith in
      elim (Bool-cases (is_some (g line))) [
        | inl taken ↦
            let (r, run, done) =
              print_fmt-Sent app f p u c valid known there after_enter taken_text taken_text_fits in
            (
              r,
              rw (text, map_contains-Models app.from_username g names line, taken) run,
              rw taken done,
            )
        | inr free ↦
            let (r, run, done) =
              print_fmt-Sent app f p u c valid known there after_enter invalid_text
                invalid_text_fits in
            let invalid : validate_username line ≡ false = ground arith in
            (
              r,
              rw (text, map_contains-Models app.from_username g names line, free, invalid) run,
              rw free done,
            )
      ]

  -- A change of state of a user with a client is stored in the user, and the text of the new state
  -- is shown, if it is shorter than 1024 bytes. Nothing else changes.
  pub state_switch-Sent :
      (st : State)
      → length (enter_text app now st u.username) < 1024
      → let app' : App = with_user app p (some (record u { state = st })) in
        Returns (state_switch app now p st) λ r.
          Sent app' f u.handle c (shown after_enter (enter_text app now st u.username)) r
          × (load app' p ≡ ok (record u { state = st }))
  unfolding state_switch state_free state_new
  state_switch-Sent st fits =
      let v : User = record u { state = st } in
      let app' : App = with_user app p (some v) in
      let (stored, read, others) = load-store app p u known v in
      let same = enter_text-with_user app now p (some v) st u.username in
      let (r, run, done) =
        print_fmt-Sent app' f p v c valid read there after_enter _ (rw same fits) in
      (
        r,
        rw (known, ◌>>=◌, known, ◌>>=◌, stored, ◌>>=◌, read) run,
        (subst (λ t. Sent app' f u.handle c (shown after_enter t) r) same done, read),
      )

  -- A line that is "y" up to case answers the question whether to leave: the client of the user is
  -- marked for removal and sent the farewell, and nothing else changes.
  pub exit_line_yes :
      (line : Str)
      → string_eq_ignore_case line (codes "y") ≡ true
      → Returns (exit_line app now p line) λ r.
        Models r.server.clients (update f u.handle (some (record c { state = to_be_removed })))
        × (r.server.effects ≡ app.server.effects ++ sent c.handle goodbye ∷ [])
        × (r.server.listener ≡ app.server.listener)
        × (r ≡ record app { server = r.server })
  unfolding exit_line
  exit_line_yes line agreed =
      let (s, run, (models, shape, effects, listener)) =
        server_remove_client-Models app.server f u.handle valid there in
      (record app { server = s }, rw (agreed, known, ◌>>=◌, run), (models, effects, listener, refl))

  -- Any other line brings the user back into the chat and shows the text of the chat, if it is
  -- shorter than 1024 bytes. Nothing else changes.
  pub exit_line_no :
      (line : Str)
      → string_eq_ignore_case line (codes "y") ≡ false
      → length (enter_text app now chat u.username) < 1024
      → let app' : App = with_user app p (some (record u { state = chat })) in
        Returns (exit_line app now p line) λ r.
          Sent app' f u.handle c (shown after_enter (enter_text app now chat u.username)) r
          × (load app' p ≡ ok (record u { state = chat }))
  unfolding exit_line
  exit_line_no line other fits = rw other (state_switch-Sent chat fits)
