-- ===== src/App/Aliases.antt =====
-- The map of the commands in src/io.c against a table of their names.
use aurora_comms.App.Command.{init_aliases, init_commands}
use aurora_comms.App.{Cmd, help, quit, info, list, whisper}
use aurora_comms.Base.{
  ℕ, zero, suc, ◌+◌, ◌*◌, ◌≤◌, ◌^◌, ◌≡◌, refl, List, [], ◌∷◌, Option, none, some, arith, length, ok,
  ◌>>=◌, Returns,
}
use aurora_comms.Map.Grow.{map_set-Models}
use aurora_comms.Map.Layout.{update}
use aurora_comms.Map.Lookup.{Models, map_new_reserve-Models, map_get_maybe_null-Models}
use aurora_comms.Map.{Map, map_new, map_new_reserve, map_get_maybe_null}
use aurora_comms.Str.Laws.{string_key}
use aurora_comms.Str.{Str, codes}

-- The command under each of its names.
abbrev pub named : List Str → Cmd → (Str → Option Cmd) → Str → Option Cmd
named [] cmd f = f
named (alias ∷ aliases) cmd f = named aliases cmd (update f alias (some cmd))

-- A capacity that stays small when it doubles `rounds` times.
abbrev Doubles : ℕ → ℕ → Type 0
Doubles zero cap = cap ≤ 2 ^ 20
Doubles (suc rounds) cap = Doubles rounds (cap * 2)

Doubles-le : (rounds a b : ℕ) → a ≤ b → Doubles rounds b → Doubles rounds a
Doubles-le zero a b h d = omega arith
Doubles-le (suc rounds) a b h d = Doubles-le rounds (a * 2) (b * 2) (omega arith) d

Doubles-small : (rounds cap : ℕ) → Doubles rounds cap → cap ≤ 2 ^ 20
Doubles-small zero cap d = d
Doubles-small (suc rounds) cap d = omega (arith, Doubles-small rounds (cap * 2) d)

abbrev after : List Str → ℕ → ℕ
after [] n = n
after (alias ∷ aliases) n = suc (after aliases n)

init_aliases-Models :
    (aliases : List Str) (cmd : Cmd) (later : ℕ) (m : Map Str Cmd) (f : Str → Option Cmd)
    → Models m f
    → Doubles (after aliases later) m.cap
    → m.len + length aliases + later ≤ 2 ^ 20
    → Returns
        (init_aliases aliases cmd m)
        λ r. Models r (named aliases cmd f) × Doubles later r.cap × (r.len + later ≤ 2 ^ 20)
unfolding init_aliases
init_aliases-Models [] cmd later m f valid cap len = (m, refl, (valid, cap, omega arith))
init_aliases-Models (alias ∷ aliases) cmd later m f valid cap len =
    let small : m.cap * 2 ≤ 2 ^ 20 = Doubles-small (after aliases later) (m.cap * 2) cap in
    let (m1, run1, (models, count, grown, wide)) =
      map_set-Models m f alias cmd (omega arith) (omega arith) valid in
    let (r, run, done) =
      init_aliases-Models aliases cmd later m1 _ models
        (Doubles-le (after aliases later) m1.cap (m.cap * 2) (ground arith) cap) (omega arith) in
    (r, rw run1 run, done)

-- The table of the commands.
abbrev pub commands_table : Str → Option Cmd
commands_table = named (codes "whisper" ∷ codes "w" ∷ codes "msg" ∷ codes "m" ∷ []) whisper (
    named (codes "list" ∷ codes "l" ∷ []) list (
      named (codes "info" ∷ codes "i" ∷ []) info (
        named (codes "exit" ∷ codes "e" ∷ codes "quit" ∷ codes "q" ∷ []) quit
          (named (codes "help" ∷ codes "h" ∷ []) help (λ _. none)))))

-- The map of the commands is set up without a fault, and a lookup finds in it the commands of the
-- table and no other.
pub init_commands-Models :
    Returns init_commands λ m. (word : Str) → map_get_maybe_null m word ≡ ok (commands_table word)
unfolding init_commands map_new map_new_reserve
init_commands-Models =
    let (start, none_yet, _) = map_new_reserve-Models 16 (omega arith) in
    let (m1, run1, (valid1, cap1, len1)) =
      init_aliases-Models (codes "help" ∷ codes "h" ∷ []) help 12 (map_new_reserve 16) _ start
        (omega arith) (omega arith) in
    let (m2, run2, (valid2, cap2, len2)) =
      init_aliases-Models (codes "exit" ∷ codes "e" ∷ codes "quit" ∷ codes "q" ∷ []) quit 8 m1 _
        valid1 cap1 (omega arith) in
    let (m3, run3, (valid3, cap3, len3)) =
      init_aliases-Models (codes "info" ∷ codes "i" ∷ []) info 6 m2 _ valid2 cap2 (omega arith) in
    let (m4, run4, (valid4, cap4, len4)) =
      init_aliases-Models (codes "list" ∷ codes "l" ∷ []) list 4 m3 _ valid3 cap3 (omega arith) in
    let (m5, run5, (valid5, cap5, len5)) =
      init_aliases-Models (codes "whisper" ∷ codes "w" ∷ codes "msg" ∷ codes "m" ∷ []) whisper 0 m4
        _ valid4 cap4 (omega arith) in
    (
      m5,
      rw (run1, ◌>>=◌, run2, ◌>>=◌, run3, ◌>>=◌, run4, ◌>>=◌, run5),
      map_get_maybe_null-Models m5 _ valid5,
    )
