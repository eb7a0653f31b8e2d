-- ===== src/App/Command.antt =====
-- The commands of src/io.c: their aliases, and `ac_handle_command` with one function for each branch
-- of its switch.
use aurora_comms.Arr.{assert}
use aurora_comms.App.{
  App, chat, exit, Cmd, help, quit, info, list, whisper, load, send_fmt, send_msg, prompt,
  print_fmt, print, after_enter, interrupt, newline, uptime_text,
}
use aurora_comms.App.Screens.{state_switch}
use aurora_comms.Base.{
  ℕ, suc, ◌+◌, ◌-◌, List, [], ◌∷◌, ◌++◌, Option, none, some, leb, ◌==◌, if◌then◌else◌, length, take,
  drop, Exec, ok, ◌>>=◌, ◌>>◌,
}
use aurora_comms.Fmt.{int_text}
use aurora_comms.Line.{is_command}
use aurora_comms.Map.{Map, map_new, map_set, map_get_maybe_null, map_foreach}
use aurora_comms.Str.Laws.{string_key}
use aurora_comms.Str.{Str, codes}

unfoldable pub init_aliases : List Str → Cmd → Map Str Cmd → Exec (Map Str Cmd)
init_aliases [] cmd m = ok m
init_aliases (alias ∷ aliases) cmd m = map_set m alias cmd >>= init_aliases aliases cmd

unfoldable pub init_commands : Exec (Map Str Cmd)
init_commands =
    init_aliases (codes "help" ∷ codes "h" ∷ []) help map_new
    >>= init_aliases (codes "exit" ∷ codes "e" ∷ codes "quit" ∷ codes "q" ∷ []) quit
    >>= init_aliases (codes "info" ∷ codes "i" ∷ []) info
    >>= init_aliases (codes "list" ∷ codes "l" ∷ []) list
    >>= init_aliases (codes "whisper" ∷ codes "w" ∷ codes "msg" ∷ codes "m" ∷ []) whisper

-- The static map, which the first command fills.
unfoldable pub with_commands : App → Exec (App × Map Str Cmd)
with_commands app = elim app.commands [
  | some m ↦ ok (app, m)
  | none ↦ init_commands >>= λ m. ok (record app { commands = some m }, m)
]

unfoldable pub help_text : Str
help_text =
    codes "Available commands:"
    ++ (0x0a ∷ codes " - help (h): Show this help message."
        ++ (0x0a ∷ codes " - exit (e / quit / q): Exit AuroraComms."
            ++ (0x0a ∷ codes " - info (i): Show server information."
                ++ (0x0a ∷ codes " - list (l): List online users."
                    ++ (0x0a ∷ codes " - whisper (w / msg / m): Send a private message.")))))

unfoldable pub handle_help_cmd : App → ℕ → Exec App
handle_help_cmd app p = print app p after_enter help_text

-- The number of bytes before the first space, and of spaces before the first other byte.
unfoldable pub skip_word : Str → ℕ
skip_word [] = 0
skip_word (c ∷ s) = if c == b' ' then 0 else suc (skip_word s)

unfoldable pub skip_spaces : Str → ℕ
skip_spaces [] = 0
skip_spaces (c ∷ s) = if c == b' ' then suc (skip_spaces s) else 0

-- Where the loops of the source stop that run from `i`.
unfoldable pub word_end : Str → ℕ → ℕ
word_end line i = i + skip_word (drop i line)

unfoldable pub spaces_end : Str → ℕ → ℕ
spaces_end line i = i + skip_spaces (drop i line)

unfoldable pub info_text : App → ℕ → Str
info_text app now =
    codes "AuroraComms Server"
    ++ (0x0a ∷ codes " - Uptime: "
        ++ (uptime_text now app.app_start_time
            ++ (0x0a ∷ codes " - Connected users: " ++ int_text app.from_handle.len)))

-- The state that is tested is the one of the user who asks.
unfoldable pub list_entry : ℕ → ℕ × ℕ → App → Exec App
list_entry p (handle, other) app = do
  u ← load app p
  (if u.handle == handle then ok app else (elim u.state [
    | chat ↦ load app other >>= λ o. send_fmt app p (codes " - " ++ (o.username ++ newline))
    | _ ↦ ok app
  ]))

unfoldable pub list_cmd : App → ℕ → Exec App
list_cmd app p = do
  app1 ← send_msg app p (codes "Online users:" ++ newline)
  u ← load app1 p
  app2 ← send_fmt app1 p (codes " - " ++ (u.username ++ (codes " (You)" ++ newline)))
  app3 ← map_foreach app2.from_handle (list_entry p) app2
  prompt app3 p

unfoldable pub private_text : Str → Str → Str → Str
private_text from to msg = codes "[" ++ (from ++ (codes " -> " ++ (to ++ (codes "]: " ++ msg))))

-- The message to a user in the chat: the line from `msg_start` on.
unfoldable pub whisper_to : App → ℕ → ℕ → Str → ℕ → Exec App
whisper_to app p other line msg_start =
    if leb (length line) msg_start
    then print_fmt app p after_enter (codes "Usage: /whisper <username> <message>")
    else (do
      let msg = drop msg_start line
      u ← load app p
      app1 ← print_fmt app other interrupt (private_text u.username (codes "You") msg)
      o ← load app1 other
      print_fmt app1 p after_enter (private_text (codes "You") o.username msg))

unfoldable pub whisper_found : App → ℕ → ℕ → Str → Str → ℕ → Exec App
whisper_found app p other line recipient recipient_end = do
  o ← load app other
  elim o.state [
    | chat ↦ whisper_to app p other line (spaces_end line (recipient_end + 1))
    | _ ↦
        print_fmt app p after_enter (codes "User '" ++ (recipient ++ codes "' is not in the chat."))
  ]

unfoldable pub whisper_cmd : App → ℕ → Str → ℕ → Exec App
whisper_cmd app p line cmd_end = do
  let start = spaces_end line (cmd_end + 1)
  let stop = word_end line start
  let recipient = take (stop - start) (drop start line)
  found ← map_get_maybe_null app.from_username recipient
  elim found [
    | none ↦ print_fmt app p after_enter (codes "User '" ++ (recipient ++ codes "' not found."))
    | some other ↦ whisper_found app p other line recipient stop
  ]

unfoldable pub run_command : App → ℕ → ℕ → Str → ℕ → Option Cmd → Exec App
run_command app now p line cmd_end none = handle_help_cmd app p
run_command app now p line cmd_end (some help) = handle_help_cmd app p
run_command app now p line cmd_end (some quit) = state_switch app now p exit
run_command app now p line cmd_end (some info) = print_fmt app p after_enter (info_text app now)
run_command app now p line cmd_end (some list) = list_cmd app p
run_command app now p line cmd_end (some whisper) = whisper_cmd app p line cmd_end

-- The word after the prefix.
unfoldable pub command_word : Str → Str
command_word line = take (word_end line 1 - 1) (drop 1 line)

unfoldable pub handle_command : App → ℕ → ℕ → Str → Exec App
handle_command app now p line = do
  assert (is_command line)
  (app1, commands) ← with_commands app
  (if length line == 1
      then handle_help_cmd app1 p
      else (map_get_maybe_null commands (command_word line)
          >>= run_command app1 now p line (word_end line 1)))
