-- ===== src/App/Main.antt =====
-- src/main.c: the start of the program and one round of its loop. Also `ac_app_free` of src/app.c, which
-- the program does not call. The argument of the program is what `atoi` returns for it, a number that
-- is not negative.
use aurora_comms.App.Update.{app_update}
use aurora_comms.App.{App, app_new}
use aurora_comms.Base.{ℕ, Option, none, some, [], ◌++◌, Exec, ok, ◌>>=◌, ◌>>◌}
use aurora_comms.Fmt.{decimal}
use aurora_comms.Log.{log_info}
use aurora_comms.Map.{map_free}
use aurora_comms.Net.Poll.{PollOs, server_poll}
use aurora_comms.Net.{Server, logged, ListenOs, effect, server_new, server_listen}
use aurora_comms.Str.{codes}

unfoldable pub app_free : App → Exec (Unit {0})
app_free app = map_free app.from_handle >> map_free app.from_username

-- `AC_DEFAULT_PORT`, unless there is an argument.
unfoldable pub port_of : Option ℕ → ℕ
port_of none = 2000
port_of (some port) = port

-- The listener has no value before `ac_server_listen`; it is 0 here.
unfoldable pub main_start : ListenOs → ℕ → Option ℕ → Exec App
main_start os now argument = do
  clients ← server_new
  let server : Server = record { listener = 0; clients = clients; effects = [] }
  let port : ℕ = port_of argument
  listening ← server_listen server os port
  ok (
      app_new
        (effect listening
          (logged log_info (codes "Server listening on port " ++ (decimal port ++ codes "."))))
        now)

unfoldable pub main_round : PollOs → ℕ → App → Exec App
main_round os now app = do
  server ← server_poll os app.server
  app_update (record app { server = server }) now
