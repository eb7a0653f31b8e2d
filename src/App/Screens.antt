-- ===== src/App/Screens.antt =====
-- src/state.c without `ac_state_update`: what is shown when a user enters a state, and the change of
-- state. Also `ac_user_new`, `ac_user_free` of src/app.c.
use aurora_comms.Base.{ℕ, [], ◌++◌, ◌==◌, if◌then◌else◌, Exec, ok, ◌>>=◌}
use aurora_comms.App.{
  App, State, login, chat, exit, load, store, malloc_user, free_user, print_fmt, after_enter,
  newline, uptime_text,
}
use aurora_comms.Fmt.{clipped, int_text}
use aurora_comms.Str.{Str, codes}

unfoldable pub user_count_msg : ℕ → Str
user_count_msg n = clipped 64 (
    if n == 1
    then codes "There is currently 1 user online."
    else codes "There are currently " ++ (int_text n ++ codes " users online."))

unfoldable pub greeting : App → ℕ → Str
greeting app now =
    codes "[ AuroraComms - Multi-User Communications Server ]"
    ++ (newline
        ++ (user_count_msg app.from_handle.len
            ++ (newline
                ++ (codes "Server uptime: "
                    ++ (uptime_text now app.app_start_time
                        ++ (newline
                            ++ (newline
                                ++ (codes "Enter a username between 2-16 characters long."
                                    ++ (newline
                                        ++ codes
                                            "It may include letters, numbers and underscores.")))))))))

unfoldable pub enter_text : App → ℕ → State → Str → Str
enter_text app now login name = greeting app now
enter_text app now chat name = codes "You may now chat with others, " ++ (name ++ codes "!")
enter_text app now exit name = codes "Are you sure you want to exit? (y/n)"

unfoldable pub state_new : App → ℕ → ℕ → Exec App
state_new app now p = do
  u ← load app p
  print_fmt app p after_enter (enter_text app now u.state u.username)

-- Nothing is done when a state is left.
unfoldable pub state_free : App → ℕ → Exec App
state_free app p = load app p >>= λ _. ok app

unfoldable pub state_switch : App → ℕ → ℕ → State → Exec App
state_switch app now p st = do
  app1 ← state_free app p
  u ← load app1 p
  app2 ← store app1 p (record u { state = st })
  state_new app2 now p

-- The object is allocated by the caller, and written here.
unfoldable pub user_new : App → ℕ → ℕ → Exec (App × ℕ)
user_new app now handle =
    let (app1, p) = malloc_user app (record { handle = handle; state = login; username = [] }) in
    state_new app1 now p >>= λ app2. ok (app2, p)

unfoldable pub user_free : App → ℕ → Exec App
user_free app p = free_user app p
