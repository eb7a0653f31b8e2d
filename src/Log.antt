-- ===== src/Log.antt =====
-- src/log.c and inc/ac/log.h. The log file and the terminal get the same bytes. The date is what
-- `strftime` writes; a file that cannot be opened ends the process.
use aurora_comms.Base.{
  ◌+◌, ◌≤◌, ◌≡◌, [], ◌∷◌, ◌++◌, Bool, true, arith, if◌then◌else◌, length, length-append, Exec, ok,
  fault, exited,
}
use aurora_comms.Fmt.{read_printed, read_printed_fits, clipped, length-clipped}
use aurora_comms.Str.{Str, codes}

abbrev pub log_info : Str
log_info = codes "info"

abbrev pub log_warning : Str
log_warning = 0x1b ∷ codes "[38;2;255;204;0mwarn" ++ 0x1b ∷ codes "[0m"

abbrev pub log_error : Str
log_error = 0x1b ∷ codes "[48;2;204;51;0merror" ++ 0x1b ∷ codes "[0m"

abbrev pub log_debug : Str
log_debug = 0x1b ∷ codes "[38;2;0;255;255mdebug" ++ 0x1b ∷ codes "[0m"

-- `"[%s %s]: %s\r\n"`
unfoldable pub log_line : Str → Str → Str → Str
log_line date level msg =
    codes "[" ++ (date ++ (codes " " ++ (level ++ (codes "]: " ++ (msg ++ 0x0d ∷ 0x0a ∷ [])))))

-- The bytes that are written. `opens` tells whether the log file is open or can be opened.
unfoldable pub log : Bool → Str → Str → Str → Exec Str
log opens date level msg =
    if opens then read_printed 1024 (log_line date level msg) else fault exited

-- `vsnprintf` into a buffer of 924 bytes first.
unfoldable pub log_fmt : Bool → Str → Str → Str → Exec Str
log_fmt opens date level msg = log opens date level (clipped 924 msg)

length-log_line :
    (date level msg : Str)
    → length (log_line date level msg) ≡ length date + length level + length msg + 7
unfolding log_line
length-log_line date level msg = omega (
  arith,
  length-append date (codes " " ++ (level ++ (codes "]: " ++ (msg ++ 0x0d ∷ 0x0a ∷ [])))),
  length-append level (codes "]: " ++ (msg ++ 0x0d ∷ 0x0a ∷ [])),
  length-append msg (0x0d ∷ 0x0a ∷ []),
)

-- A formatted message of any length is logged without a read past the buffer, if the date and the
-- level have at most 93 bytes together. The line holds the first 923 bytes of the message.
pub log_fmt_fits :
    (date level msg : Str)
    → length date + length level ≤ 93
    → log_fmt true date level msg ≡ ok (log_line date level (clipped 924 msg))
unfolding log_fmt log
log_fmt_fits date level msg h =
    read_printed_fits 1024 (log_line date level (clipped 924 msg))
      (omega (arith, length-log_line date level (clipped 924 msg), length-clipped 924 msg))
