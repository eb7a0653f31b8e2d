-- ===== src/App.antt =====
-- inc/ac/app.h: users, the application, and the output functions of src/io.c. A user is an object on
-- the heap; the two maps of the application hold pointers to it.
pub mod Screens
pub mod Command
pub mod Update
pub mod Output
pub mod Memory
pub mod Session
pub mod Broadcast
pub mod Hearing
pub mod Say
pub mod Join
pub mod Leave
pub mod Entered
pub mod Main
pub mod Aliases
pub mod Listing
use aurora_comms.Base.{
  ◌^◌, ◌%◌, ℕ, ◌+◌, ◌-◌, ◌/◌, Bool, true, false, List, [], ◌∷◌, ◌++◌, Option, none, some, ◌==◌, ltb,
  if◌then◌else◌, length, get_elem?, set, Exec, ok, fault, use_after_free, out_of_bounds, ◌>>=◌,
  ◌>>◌,
}
use aurora_comms.Fmt.{read_printed, clipped, int_text}
use aurora_comms.Map.{Map, map_new_reserve}
use aurora_comms.Net.{Server, handle_key, server_send, clients_max}
use aurora_comms.Str.Laws.{string_key}
use aurora_comms.Str.{Str, codes}

pub data State : Type 0 where
  login chat exit : State

pub record User : Type 0 where
  pub handle : ℕ
  pub state : State
  pub username : Str

pub data Cmd : Type 0 where
  help quit info list whisper : Cmd

-- `heap` holds the user objects by their pointer, `none` where the object was freed. `commands` is
-- the map of the commands once it is initialised.
pub record App : Type 0 where
  pub server : Server
  pub from_handle : Map ℕ ℕ
  pub from_username : Map Str ℕ
  pub heap : List (Option User)
  pub app_start_time : ℕ
  pub commands : Option (Map Str Cmd)

unfoldable pub app_new : Server → ℕ → App
app_new server now = record {
  server = server;
  from_handle = map_new_reserve clients_max;
  from_username = map_new_reserve clients_max;
  heap = [];
  app_start_time = now;
  commands = none;
}

unfoldable pub read_user : Option (Option User) → Exec User
read_user none = fault out_of_bounds
read_user (some none) = fault use_after_free
read_user (some (some u)) = ok u

-- A read through a pointer to a user.
unfoldable pub load : App → ℕ → Exec User
load app p = read_user (get_elem? app.heap p)

-- A write through a pointer to a user.
unfoldable pub store : App → ℕ → User → Exec App
store app p u = load app p >>= λ _. ok (record app { heap = set app.heap p (some u) })

-- `malloc`, with the object written at once.
unfoldable pub malloc_user : App → User → App × ℕ
malloc_user app u = (record app { heap = app.heap ++ some u ∷ [] }, length app.heap)

unfoldable pub free_user : App → ℕ → Exec App
free_user app p = load app p >>= λ _. ok (record app { heap = set app.heap p none })

-- `ac_server_send(&app->server, user->handle, …)`
unfoldable pub app_send : App → ℕ → Str → Exec App
app_send app handle bytes = do
  server ← server_send app.server handle bytes
  ok (record app { server = server })

abbrev pub newline : Str
newline = 0x0d ∷ 0x0a ∷ []

unfoldable pub prompt : App → ℕ → Exec App
prompt app p = load app p >>= λ u. app_send app u.handle (codes ">")

-- The array that is printed into has 1024 bytes.
unfoldable pub send_fmt : App → ℕ → Str → Exec App
send_fmt app p text = do u ← load app p; out ← read_printed 1024 text; app_send app u.handle out

unfoldable pub send_msg : App → ℕ → Str → Exec App
send_msg app p msg = send_fmt app p msg

pub data PrintType : Type 0 where
  after_enter interrupt : PrintType

unfoldable pub leading_newline : App → ℕ → PrintType → Exec App
leading_newline app handle after_enter = ok app
leading_newline app handle interrupt = app_send app handle newline

unfoldable pub print_fmt : App → ℕ → PrintType → Str → Exec App
print_fmt app p action text = do
  u ← load app p
  app1 ← leading_newline app u.handle action
  out ← read_printed 1024 text
  app2 ← app_send app1 u.handle out
  app3 ← app_send app2 u.handle newline
  prompt app3 p

unfoldable pub print : App → ℕ → PrintType → Str → Exec App
print app p action msg = print_fmt app p action msg

-- `%d` of a difference of times in days, which C rounds towards zero, as an `int`.
unfoldable pub uptime_days : ℕ → ℕ → Str
uptime_days now start =
    if ltb now start
    then int_text (2 ^ 32 - (start - now) / 86400 % 2 ^ 32)
    else int_text ((now - start) / 86400)

unfoldable pub uptime_text : ℕ → ℕ → Str
uptime_text now start = clipped 16 (uptime_days now start ++ codes " days")
