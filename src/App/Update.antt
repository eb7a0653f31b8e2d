-- ===== src/App/Update.antt =====
-- `ac_state_update` of src/state.c, with one function for each state, and `ac_app_update` of
-- src/app.c, which runs it for each user and follows the clients that come and go.
use aurora_comms.App.Command.{handle_command}
use aurora_comms.App.Screens.{state_switch, user_new, user_free}
use aurora_comms.App.{
  App, User, State, login, chat, exit, load, store, print_fmt, prompt, after_enter, interrupt,
}
use aurora_comms.Base.{
  ℕ, suc, Bool, false, not, [], ◌∷◌, ◌++◌, Option, none, some, ◌==◌, if◌then◌else◌, length,
  get_elem?, Exec, ok, ◌>>=◌,
}
use aurora_comms.Entries.{Entries}
use aurora_comms.Line.{get_line, validate_username, is_command}
use aurora_comms.Map.{
  slot, bucket_at, map_get, map_set, map_assign, map_contains, map_remove, map_foreach,
}
use aurora_comms.Net.{Client, new, online, to_be_removed, handle_key, server_remove_client}
use aurora_comms.Str.Laws.{string_key}
use aurora_comms.Str.{Str, codes, string_eq_ignore_case}

unfoldable pub skips : Option ℕ → ℕ → Bool
skips none handle = false
skips (some h) handle = h == handle

-- One round of a loop that shows a text to the users in the chat, which leaves out the user of
-- `except`.
unfoldable pub tell : Option ℕ → Str → ℕ × ℕ → App → Exec App
tell except text (handle, other) app =
    if skips except handle
    then ok app
    else (load app other >>= λ o. elim o.state [
      | chat ↦ print_fmt app other interrupt text
      | _ ↦ ok app
    ])

unfoldable pub broadcast : App → Option ℕ → Str → Exec App
broadcast app except text = map_foreach app.from_handle (tell except text) app

unfoldable pub join : App → ℕ → ℕ → Str → Exec App
join app now p line = do
  u ← load app p
  let u' : User = record u { username = u.username ++ line }
  app1 ← store app p u'
  names ← map_set app1.from_username u'.username p
  app2 ← state_switch (record app1 { from_username = names }) now p chat
  broadcast app2 (some u.handle) (u'.username ++ codes " joins the chat!")

abbrev pub taken_text : Str
taken_text = codes "Username is taken. Please choose another one."

abbrev pub invalid_text : Str
invalid_text =
    codes "Username must be between 2-16 characters long "
    ++ (codes "and may only contain letters, numbers, and "
        ++ codes "underscores. Please try again.")

unfoldable pub login_line : App → ℕ → ℕ → Str → Exec App
login_line app now p line =
    if length line == 0
    then prompt app p
    else (map_contains app.from_username line >>= λ taken.
        if taken
        then print_fmt app p after_enter taken_text
        else if not (validate_username line)
        then print_fmt app p after_enter invalid_text
        else join app now p line)

unfoldable pub say : App → ℕ → Str → Exec App
say app p line = do
  u ← load app p
  app1 ← broadcast app (some u.handle) (codes "[" ++ (u.username ++ (codes "]: " ++ line)))
  print_fmt app1 p after_enter (codes "[You]: " ++ line)

unfoldable pub chat_line : App → ℕ → ℕ → Str → Exec App
chat_line app now p line =
    if length line == 0
    then prompt app p
    else if is_command line
    then handle_command app now p line
    else say app p line

unfoldable pub exit_line : App → ℕ → ℕ → Str → Exec App
exit_line app now p line =
    if string_eq_ignore_case line (codes "y")
    then (do
      u ← load app p
      server ← server_remove_client app.server u.handle
      ok (record app { server = server }))
    else state_switch app now p chat

unfoldable pub on_line : App → ℕ → ℕ → State → Str → Exec App
on_line app now p login line = login_line app now p line
on_line app now p chat line = chat_line app now p line
on_line app now p exit line = exit_line app now p line

-- The input is the one of the client with handle `h`; a line that was read is taken out of it.
unfoldable pub state_update : App → ℕ → ℕ → ℕ → Client → Exec App
state_update app now p h client = do
  u ← load app p
  got ← get_line [] client.input
  elim got [
    | none ↦ ok app
    | some (line, rest) ↦ do
      clients ← map_assign app.server.clients h (record client { input = rest })
      let app1 = record app { server = record (app.server) { clients = clients } }
      on_line app1 now p u.state line
  ]

unfoldable pub user_update : App → ℕ → ℕ → ℕ → Client → Exec App
user_update app now p h client = state_update app now p h client

unfoldable pub update_user : ℕ → ℕ × ℕ → App → Exec App
update_user now (handle, p) app = do
  u ← load app p
  client ← map_get app.server.clients u.handle
  user_update app now p u.handle client

unfoldable pub enter : App → ℕ → Client → Exec App
enter app now client = do
  (app1, p) ← user_new app now client.handle
  u ← load app1 p
  users ← map_set app1.from_handle u.handle p
  ok (record app1 { from_handle = users })

-- The pointer to the user that `ac_map_get` returned stands in the bucket. The removal moves the
-- entries behind it forward, and leaves the memory as it is where there are none.
unfoldable pub place : ℕ → Entries ℕ ℕ → ℕ
place k [] = 0
place k ((k', v) ∷ c) = if k == k' then 0 else suc (place k c)

unfoldable pub reread : Entries ℕ ℕ → ℕ → ℕ → ℕ
reread c j old = elim (get_elem? c j) [ none ↦ old | some (k, p) ↦ p ]

unfoldable pub leave : App → Client → Exec App
leave app client = do
  p ← map_get app.from_handle client.handle
  i ← slot client.handle app.from_handle.cap
  before ← bucket_at app.from_handle.bkts i
  u ← load app p
  users ← map_remove app.from_handle u.handle
  after ← bucket_at users.bkts i
  let q = reread after (place client.handle before) p
  let app1 = record app { from_handle = users }
  v ← load app1 q
  known ← map_contains app1.from_username v.username
  names ← if known then map_remove app1.from_username v.username else ok app1.from_username
  let app2 = record app1 { from_username = names }
  app3 ← broadcast app2 none (v.username ++ codes " has left the chat.")
  user_free app3 q

unfoldable pub follow : ℕ → ℕ × Client → App → Exec App
follow now (key, client) app = elim client.state [
  | new ↦ enter app now client
  | online ↦ ok app
  | to_be_removed ↦ leave app client
]

-- The loops run over the maps as they are when a loop begins. The clients that the second loop
-- reads have the states of that moment, and their handles, which are all that it reads.
unfoldable pub app_update : App → ℕ → Exec App
app_update app now = do
  app1 ← map_foreach app.from_handle (update_user now) app
  map_foreach app1.server.clients (follow now) app1
