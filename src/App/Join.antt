-- ===== src/App/Join.antt =====
-- A successful login in src/state.c.
use aurora_comms.App.Broadcast.{broadcast-Told}
use aurora_comms.App.Hearing.{Linked, Told, load-with_clients}
use aurora_comms.App.Memory.{with_user, load-store}
use aurora_comms.App.Output.{Sent, shown, with_output}
use aurora_comms.App.Screens.{enter_text}
use aurora_comms.App.Session.{state_switch-Sent}
use aurora_comms.App.Update.{join, login_line}
use aurora_comms.App.{App, User, chat, load, after_enter}
use aurora_comms.Base.{
  ℕ, ◌+◌, ◌*◌, ◌<◌, ◌≤◌, ◌^◌, [], length-append, ◌≡◌, sym, subst, ◌∙◌, ◌++◌, Option, some, none,
  arith, ◌==◌, length, ok, true, false, ◌>>=◌, Returns,
}
use aurora_comms.Line.Names.{validate_username_iff}
use aurora_comms.Line.{validate_username}
use aurora_comms.Map.Grow.{map_set-Models}
use aurora_comms.Map.Layout.{update}
use aurora_comms.Map.Lookup.{Models, map_contains-Models}
use aurora_comms.Map.{Map, is_some}
use aurora_comms.Net.{Client, handle_key}
use aurora_comms.Str.Laws.{string_key}
use aurora_comms.Str.{Str, codes}
use aurora_comms.App.Entered.{with_names, with_name, joined, entered, load-named, entered-Linked}

abbrev pub joins_text : Str → Str
joins_text name = name ++ codes " joins the chat!"

chat_text_short :
    (app : App) (now : ℕ) (name : Str)
    → length name ≤ 16
    → length (enter_text app now chat name) < 1024
unfolding enter_text
chat_text_short app now name h = omega (
  arith,
  length-append (codes "You may now chat with others, ") (name ++ codes "!"),
  length-append name (codes "!"),
)

joins_text_short : (name : Str) → length name ≤ 16 → length (joins_text name) < 1024
joins_text_short name h = omega (arith, length-append name (codes " joins the chat!"))

join_lem :
    (app : App) (f : ℕ → Option Client) (g : ℕ → Option ℕ) (names : Str → Option ℕ) (now p : ℕ)
    (u : User) (c : Client) (line : Str)
    → Models app.server.clients f
    → Models app.from_handle g
    → Models app.from_username names
    → length app.from_handle.bkts ≡ app.from_handle.cap
    → app.from_username.cap * 3 < 2 ^ 64
    → app.from_username.len + 1 < 2 ^ 64
    → ((h q : ℕ) → g h ≡ some q → Linked app f h q)
    → load app p ≡ ok u
    → f u.handle ≡ some c
    → length (enter_text app now chat (u.username ++ line)) < 1024
    → length (joins_text (u.username ++ line)) < 1024
    → let name : Str = u.username ++ line in
      Returns (join app now p line) λ r.
        (taken : Map Str ℕ) × (mid : App) × Models taken (update names name (some p))
        × Sent
            (entered app p u line taken)
            f
            u.handle
            c
            (shown after_enter (enter_text app now chat name))
            mid
        × (load mid p ≡ ok (joined u line))
        × Told mid
            (some u.handle)
            (joins_text name)
            g
            (update f u.handle
              (some (with_output c (shown after_enter (enter_text app now chat name)))))
            r
unfolding join enter_text
join_lem app f g names now p u c line valid users known_names whole fits few linked known there
      short short' =
    let ua : User = with_name u line in
    let app1 : App = with_user app p (some ua) in
    let (stored, read, others) = load-store app p u known ua in
    let (taken, set, (models, count, cap, wide)) =
      map_set-Models app.from_username names ua.username p fits few known_names in
    let app2 : App = with_names app1 taken in
    let (mid, switched, (sent, chatting)) =
      state_switch-Sent app2 f now p ua c valid (load-named app p u line known taken) there chat
        short in
    let f2 =
      update f u.handle
        (some (with_output c (shown after_enter (enter_text app now chat ua.username)))) in
    let (r, run, told) =
      broadcast-Told (some u.handle) (joins_text ua.username) short' mid f2 g sent.models
        (subst (λ a. Models a.from_handle g) (sym sent.rest) users)
        (subst (λ a. length a.from_handle.bkts ≡ a.from_handle.cap) (sym sent.rest) whole)
        (λ h q e.
          entered-Linked app p u line known taken f _ mid h q chatting sent.rest (linked h q e)) in
    let here = load-with_clients (entered app p u line taken) mid sent.rest p ∙ chatting in
    (
      r,
      rw (known, ◌>>=◌, stored, ◌>>=◌, set, ◌>>=◌, switched) run,
      (taken, mid, models, sent, here, told),
    )

-- Under the conditions of a broadcast, and if the map of the names is well formed and may grow, a
-- line at the login that is a valid name and not taken, of a user without a name and with a client,
-- does not fault. The name leads to the user in the map of the names, the user has the name and is
-- in the chat, the user is shown the text of the chat, and then each other user in the chat is told
-- once. Nothing else changes.
pub login_line_joins :
    (app : App) (f : ℕ → Option Client) (g : ℕ → Option ℕ) (names : Str → Option ℕ) (now p : ℕ)
    (u : User) (c : Client) (line : Str)
    → Models app.server.clients f
    → Models app.from_handle g
    → Models app.from_username names
    → length app.from_handle.bkts ≡ app.from_handle.cap
    → app.from_username.cap * 3 < 2 ^ 64
    → app.from_username.len + 1 < 2 ^ 64
    → ((h q : ℕ) → g h ≡ some q → Linked app f h q)
    → load app p ≡ ok u
    → f u.handle ≡ some c
    → u.username ≡ []
    → names line ≡ none
    → validate_username line ≡ true
    → let name : Str = u.username ++ line in
      Returns (login_line app now p line) λ r.
        (taken : Map Str ℕ) × (mid : App) × Models taken (update names name (some p))
        × Sent
            (entered app p u line taken)
            f
            u.handle
            c
            (shown after_enter (enter_text app now chat name))
            mid
        × (load mid p ≡ ok (joined u line))
        × Told mid
            (some u.handle)
            (joins_text name)
            g
            (update f u.handle
              (some (with_output c (shown after_enter (enter_text app now chat name)))))
            r
unfolding login_line is_some
login_line_joins app f g names now p u c line valid users known_names whole fits few linked known
      there fresh free good =
    let (two, sixteen, chars) = (validate_username_iff line).0 good in
    let text : (length line == 0) ≡ false = ground arith in
    let size : length (u.username ++ line) ≤ 16 = rw fresh sixteen in
    rw (text, map_contains-Models app.from_username names known_names line, free, good)
      (join_lem app f g names now p u c line valid users known_names whole fits few linked known
        there (chat_text_short app now (u.username ++ line) size)
        (joins_text_short (u.username ++ line) size))
