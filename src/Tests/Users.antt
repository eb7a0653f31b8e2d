-- ===== src/Tests/Users.antt =====
-- The application of src/app.c, src/state.c and src/io.c at concrete inputs.
use aurora_comms.App.Broadcast.{broadcast-Told}
use aurora_comms.App.Hearing.{Told, hear}
use aurora_comms.App.Say.{say_lem}
use aurora_comms.App.Join.{login_line_joins}
use aurora_comms.App.Entered.{entered}
use aurora_comms.App.Listing.{Named, listing, list_cmd-Sent}
use aurora_comms.App.Memory.{with_user, load-store}
use aurora_comms.App.Output.{Sent, shown, with_output, print_fmt-Sent, print_fmt_over}
use aurora_comms.App.Screens.{enter_text, state_switch}
use aurora_comms.App.Session.{login_line_refused, state_switch-Sent, exit_line_yes, exit_line_no}
use aurora_comms.App.Update.{invalid_text, login_line, exit_line, broadcast, say}
use aurora_comms.App.Command.{list_cmd}
use aurora_comms.Entries.{Entries}
use aurora_comms.Map.Foreach.{Walk}
use aurora_comms.App.{App, chat, exit, load, store, after_enter, interrupt, print_fmt}
use aurora_comms.Base.{
  ℕ, ◌<◌, ◌≡◌, ◌≢◌, ◌⊎◌, inl, inr, Bool-cases, subst, sym, refl, true, false, [], ◌∷◌, Option, none,
  some, arith, length, replicate, length-replicate, ok, fault, out_of_bounds, Returns,
}
use aurora_comms.Line.{validate_username, all_name_chars, is_name_char}
use aurora_comms.Map.Layout.{update}
use aurora_comms.Map.Lookup.{Models, map_new_reserve-Models}
use aurora_comms.Map.{Map, map_new_reserve, is_some}
use aurora_comms.Net.{to_be_removed, sent, goodbye, handle_key, handle_eq}
use aurora_comms.Str.Laws.{string_key}
use aurora_comms.Str.{Str, codes, string_eq_ignore_case, same_letters, tolower}
use aurora_comms.Tests.Chat.{
  client_of, pair_map-Models, ann, bob, guest, clients, clients-Models, pointers, app,
  app_with_guest, load-ann, load-second, client_ann, client_second, linked,
}

abbrev hello : Str
hello = codes "[ann]: hello"

broadcast-Told_example :
    Returns (broadcast app (some 4) hello) (Told app (some 4) hello pointers clients)
broadcast-Told_example =
    broadcast-Told (some 4) hello (omega arith) app clients pointers clients-Models
      (pair_map-Models 0 1) refl (linked bob refl)

say_lem_example : Returns (say app 0 (codes "hello")) λ r.
    (mid : App) × Told app (some 4) hello pointers clients mid
    × Sent mid
        (hear app (some 4) hello pointers clients)
        4
        (client_of 4)
        (shown after_enter (codes "[You]: hello"))
        r
say_lem_example =
    say_lem app clients pointers 0 ann (client_of 4) (codes "hello") clients-Models
      (pair_map-Models 0 1) refl (linked bob refl) (load-ann bob) client_ann (omega arith)
      (omega arith)

print_fmt-Sent_example :
    Returns
      (print_fmt app 0 interrupt hello)
      (Sent app clients 4 (client_of 4) (shown interrupt hello))
print_fmt-Sent_example =
    print_fmt-Sent app clients 0 ann (client_of 4) clients-Models (load-ann bob) client_ann
      interrupt hello (omega arith)

abbrev long_text : Str
long_text = replicate 1025 65

print_fmt_over_example : print_fmt app 0 interrupt long_text ≡ fault out_of_bounds
print_fmt_over_example =
    print_fmt_over app clients 0 ann (client_of 4) clients-Models (load-ann bob) client_ann
      interrupt long_text (omega (arith, length-replicate {A = ℕ} 1025 65))

invalid_name : validate_username (codes "x") ≡ false
unfolding validate_username
invalid_name = refl

one_letter : length (codes "x") ≢ 0
one_letter h = omega (arith, h)

abbrev no_names : Str → Option ℕ
no_names _ = none

login_line_refused_example :
    Returns
      (login_line app 0 0 (codes "x"))
      (Sent app clients 4 (client_of 4) (shown after_enter invalid_text))
unfolding is_some
login_line_refused_example =
    login_line_refused app clients 0 0 ann (client_of 4) clients-Models (load-ann bob) client_ann
      no_names (codes "x") (map_new_reserve-Models 4 (omega arith)).0 one_letter (inr invalid_name)

chat_text_fits : length (enter_text app 0 chat (codes "ann")) < 1024
unfolding enter_text
chat_text_fits = omega arith

exit_text_fits : length (enter_text app 0 exit (codes "ann")) < 1024
unfolding enter_text
exit_text_fits = omega arith

abbrev leaving : App
leaving = with_user app 0 (some (record ann { state = exit }))

abbrev staying : App
staying = with_user app 0 (some (record ann { state = chat }))

state_switch-Sent_example : Returns (state_switch app 0 0 exit) λ r.
    Sent leaving clients 4 (client_of 4) (shown after_enter (enter_text app 0 exit (codes "ann"))) r
    × (load leaving 0 ≡ ok (record ann { state = exit }))
state_switch-Sent_example =
    state_switch-Sent app clients 0 0 ann (client_of 4) clients-Models (load-ann bob) client_ann
      exit exit_text_fits

agreement : string_eq_ignore_case (codes "Y") (codes "y") ≡ true
unfolding string_eq_ignore_case same_letters tolower
agreement = refl

refusal_line : string_eq_ignore_case (codes "no") (codes "y") ≡ false
unfolding string_eq_ignore_case same_letters tolower
refusal_line = refl

exit_line_yes_example : Returns (exit_line app 0 0 (codes "Y")) λ r.
    Models r.server.clients
      (update clients 4 (some (record (client_of 4) { state = to_be_removed })))
    × (r.server.effects ≡ sent 4 goodbye ∷ [])
    × (r.server.listener ≡ 3)
    × (r ≡ record app { server = r.server })
exit_line_yes_example =
    exit_line_yes app clients 0 0 ann (client_of 4) clients-Models (load-ann bob) client_ann
      (codes "Y") agreement

exit_line_no_example : Returns (exit_line app 0 0 (codes "no")) λ r.
    Sent staying clients 4 (client_of 4) (shown after_enter (enter_text app 0 chat (codes "ann"))) r
    × (load staying 0 ≡ ok (record ann { state = chat }))
exit_line_no_example =
    exit_line_no app clients 0 0 ann (client_of 4) clients-Models (load-ann bob) client_ann
      (codes "no") refusal_line chat_text_fits

known_user : (h q : ℕ) → pointers h ≡ some q → (q ≡ 0) ⊎ (q ≡ 1)
unfolding handle_eq
known_user h q e = elim (Bool-cases (handle_eq 5 h)) [
  | inl five ↦ inr (ground (arith, five, e))
  | inr other ↦ elim (Bool-cases (handle_eq 4 h)) [
    | inl four ↦ inl (ground (arith, other, four, e))
    | inr neither ↦ absurd (ground (arith, other, neither, e))
  ]
]

named : (h q : ℕ) → pointers h ≡ some q → Named app_with_guest q
named h q e = elim (known_user h q e) [
  | inl zero_is ↦
      subst (Named app_with_guest) (sym zero_is)
        (record { user = ann; reads = load-ann guest; short = omega arith })
  | inr one_is ↦
      subst (Named app_with_guest) (sym one_is)
        (record { user = guest; reads = load-second guest; short = omega arith })
]

list_cmd-Sent_example : Returns (list_cmd app_with_guest 0) λ r.
    (es : Entries ℕ ℕ) × Walk app_with_guest.from_handle pointers es
    × Sent app_with_guest clients 4 (client_of 4) (listing app_with_guest ann es) r
list_cmd-Sent_example =
    list_cmd-Sent app_with_guest clients 0 ann (client_of 4) clients-Models (load-ann guest)
      client_ann refl pointers (pair_map-Models 0 1) refl (omega arith) named

load-store_example :
    let r = with_user app 0 (some guest) in
    (store app 0 guest ≡ ok r) × (load r 0 ≡ ok guest) × ((q : ℕ) → 0 ≢ q → load r q ≡ load app q)
load-store_example = load-store app 0 ann (load-ann bob) guest

free_name : no_names (codes "bob") ≡ none
free_name = refl

good_name : validate_username (codes "bob") ≡ true
unfolding validate_username all_name_chars is_name_char
good_name = refl

login_line_joins_example : Returns (login_line app_with_guest 0 1 (codes "bob")) λ r.
    (taken : Map Str ℕ) × (mid : App) × Models taken (update no_names (codes "bob") (some 1))
    × Sent
        (entered app_with_guest 1 guest (codes "bob") taken)
        clients
        5
        (client_of 5)
        (shown after_enter (enter_text app_with_guest 0 chat (codes "bob")))
        mid
    × (load mid 1 ≡ ok bob)
    × Told mid
        (some 5)
        (codes "bob joins the chat!")
        pointers
        (update clients 5 (
          some (
            with_output
              (client_of 5)
              (shown after_enter (enter_text app_with_guest 0 chat (codes "bob"))))))
        r
unfolding map_new_reserve
login_line_joins_example =
    login_line_joins app_with_guest clients pointers no_names 0 1 guest (client_of 5) (codes "bob")
      clients-Models (pair_map-Models 0 1) (map_new_reserve-Models 4 (omega arith)).0 refl
      (omega arith) (omega arith) (linked guest refl) (load-second guest) client_second refl
      free_name good_name
