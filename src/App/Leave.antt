-- ===== src/App/Leave.antt =====
-- A user whose client is to be removed in `ac_app_update` of src/app.c. The pointer to the user
-- points into the bucket, so that after the removal it reads the user of the entry behind.
use aurora_comms.App.Broadcast.{broadcast-Told}
use aurora_comms.App.Hearing.{Linked, Told, load-with_clients}
use aurora_comms.App.Memory.{with_user}
use aurora_comms.App.Screens.{user_free}
use aurora_comms.App.Update.{place, reread, leave, broadcast}
use aurora_comms.App.{App, User, load, free_user}
use aurora_comms.Base.{
  ℕ, ◌<◌, ◌≤◌, ◌^◌, ◌≡◌, refl, sym, ap, subst, ◌∙◌, Bool-cases, inl, inr, true, false, [], ◌∷◌,
  ◌++◌, Option, Option-cases, none, some, none-ne-some, Bool, arith, ◌==◌, ==_iff, if◌then◌else◌,
  length, length-append, ok, ok_inj, ◌>>=◌, Returns,
}
use aurora_comms.Entries.{Entries, erase, find, find_of_erase-none}
use aurora_comms.Map.Layout.{update}
use aurora_comms.Map.Lookup.{Models, map_get_maybe_null-Models, map_get-Models, map_contains-Models}
use aurora_comms.Map.Remove.{map_remove-Models, update-none, map_remove-bucket_at}
use aurora_comms.Map.{
  Map, slot, bucket_at, map_remove, is_some, must_exist, map_get, map_contains, map_get_maybe_null,
}
use aurora_comms.Net.{Client, handle_key, handle_eq, handle_eq_iff}
use aurora_comms.Str.Laws.{string_key}
use aurora_comms.Str.{Str, codes}

abbrev first_or : Entries ℕ ℕ → ℕ → ℕ
first_or [] old = old
first_or (e ∷ c) old = e.1

-- The pointer in the entry behind the one of the handle, or `old` where none is behind it.
abbrev pub behind : ℕ → Entries ℕ ℕ → ℕ → ℕ
behind h [] old = old
behind h (e ∷ c) old = if handle_eq e.0 h then first_or c old else behind h c old

reread_first : (c : Entries ℕ ℕ) (old : ℕ) → reread c 0 old ≡ first_or c old
unfolding reread
reread_first [] old = refl
reread_first (e ∷ c) old = refl

reread-place :
    (h old : ℕ) (c c' : Entries ℕ ℕ)
    → erase h c ≡ some c'
    → reread c' (place h c) old ≡ behind h c old
unfolding erase place reread
reread-place h old [] c' e = absurd (ground (arith, e))
reread-place h old (x ∷ c) c' e = elim (Bool-cases (handle_eq x.0 h)) [
  | inl here ↦
      let rest : c ≡ c' = ground (arith, here, e) in
      let placed : (h == x.0) ≡ true = (==_iff h x.0).1 (sym ((handle_eq_iff x.0 h).0 here)) in
      rw (placed, here, ← rest) (reread_first c old)
  | inr apart ↦ elim (Option-cases (erase h c)) [
    | inl e0 ↦ absurd (ground (arith, e, apart, e0))
    | inr (c'', e1) ↦
        let rest : x ∷ c'' ≡ c' = ground (arith, e, apart, e1) in
        let placed : (h == x.0) ≡ false =
          ground (arith, apart, handle_eq_iff x.0 h, ==_iff h x.0) in
        rw (placed, apart, ← rest) (reread-place h old c c'' e1)
  ]
]

abbrev pub with_users : App → Map ℕ ℕ → Map Str ℕ → App
with_users app users names = record app { from_handle = users; from_username = names }

abbrev pub farewell : Str → Str
farewell name = name ++ codes " has left the chat."

farewell_short : (name : Str) → length name ≤ 16 → length (farewell name) < 1024
farewell_short name h = omega (arith, length-append name (codes " has left the chat."))

-- The map of the users is without the handle `h`; the user `v` at `q` has lost the name, and the
-- others in the chat are told so; `q` is freed.
pub record Left (app : App) (f : ℕ → Option Client) (g : ℕ → Option ℕ) (names : Str → Option ℕ)
    (h q : ℕ) (v : User) (r : App) : Type 0 where
  pub users : Map ℕ ℕ
  pub taken : Map Str ℕ
  pub told : App
  pub removed : Models users (update g h none)
  pub released : Models taken (update names v.username none)
  pub heard : Told (with_users app users taken) none (farewell v.username) (update g h none) f told
  pub freed : r ≡ with_user told q none

-- The name is taken out if it is there.
release_name :
    (m : Map Str ℕ) (names : Str → Option ℕ) (name : Str)
    → Models m names
    → m.len < 2 ^ 64
    → Returns
        (if is_some (names name) then map_remove m name else ok m)
        (λ r. Models r (update names name none))
unfolding is_some
release_name m names name valid few = elim (Option-cases (names name)) [
  | inl e ↦ (m, rw e refl, subst (Models m) (update-none names name e) valid)
  | inr (q, e) ↦
      let (r, run, (models, count, cap, wide)) = map_remove-Models m names name few valid in
      (r, rw e run, models)
]

load-with_users :
    (app : App) (users : Map ℕ ℕ) (taken : Map Str ℕ) (q : ℕ)
    → load (with_users app users taken) q ≡ load app q
unfolding load
load-with_users app users taken q = refl

-- What the others see does not depend on the two maps, and the user who leaves is no longer there.
without-Linked :
    (app : App) (f : ℕ → Option Client) (g : ℕ → Option ℕ) (k : ℕ) (users : Map ℕ ℕ)
    (taken : Map Str ℕ)
    → ((h q : ℕ) → g h ≡ some q → Linked app f h q)
    → (h q : ℕ) → update g k none h ≡ some q
    → Linked (with_users app users taken) f h q
without-Linked app f g k users taken linked h q e = elim (Bool-cases (handle_eq k h)) [
  | inl gone ↦ absurd (none-ne-some q (rw gone at e))
  | inr stays ↦
      let l = linked h q (rw stays at e) in
      record {
        user = l.user;
        reads = load-with_users app users taken q ∙ l.reads;
        same = l.same;
        client = l.client;
        there = l.there;
      }
]

leave_run :
    (app : App) (client : Client) (p q i : ℕ) (u v : User) (before after : Entries ℕ ℕ)
    (users : Map ℕ ℕ) (known : Bool) (taken : Map Str ℕ) (told : App)
    → map_get app.from_handle client.handle ≡ ok p
    → slot client.handle app.from_handle.cap ≡ ok i
    → bucket_at app.from_handle.bkts i ≡ ok before
    → load app p ≡ ok u
    → map_remove app.from_handle u.handle ≡ ok users
    → bucket_at users.bkts i ≡ ok after
    → reread after (place client.handle before) p ≡ q
    → load app q ≡ ok v
    → map_contains app.from_username v.username ≡ ok known
    → (if known then map_remove app.from_username v.username else ok app.from_username) ≡ ok taken
    → broadcast (with_users app users taken) none (farewell v.username) ≡ ok told
    → leave app client ≡ user_free told q
unfolding leave load
leave_run app client p q i u v before after users known taken told e1 e2 e3 e4 e5 e6 e7 e8 e9 e10
      e11 =
    rw (
      e1, ◌>>=◌, e2, ◌>>=◌, e3, ◌>>=◌, e4, ◌>>=◌, e5, ◌>>=◌, e6, ◌>>=◌, e7, e8, ◌>>=◌, e9, ◌>>=◌,
      e10, ◌>>=◌, e11,
    )

find-bucket_at :
    (m : Map ℕ ℕ) (g : ℕ → Option ℕ) (k i : ℕ) (c : Entries ℕ ℕ)
    → Models m g
    → slot k m.cap ≡ ok i
    → bucket_at m.bkts i ≡ ok c
    → find k c ≡ g k
unfolding map_get_maybe_null
find-bucket_at m g k i c valid home read =
    let run : map_get_maybe_null m k ≡ ok (find k c) = rw (home, ◌>>=◌, read, ◌>>=◌) refl in
    ok_inj (sym run ∙ map_get_maybe_null-Models m g valid k)

-- Under the conditions of a broadcast, and if the map of the names is well formed, the update does
-- not fault on a client that is to be removed and whose handle leads to a user. The handle is taken
-- out of the map of the users. But the user whose name is taken out of the map of the names, whose
-- leaving each remaining user in the chat is told once, and whose object is freed is the one that
-- the pointer reads after the removal: the user of the entry behind in the same bucket, and the
-- user who leaves only where no entry is behind. That user can be read and has a name of 16 bytes
-- at most. Nothing else changes.
pub leave-Left :
    (app : App) (f : ℕ → Option Client) (g : ℕ → Option ℕ) (names : Str → Option ℕ)
    (client : Client) (p i : ℕ) (bucket : Entries ℕ ℕ) (v : User)
    → Models app.server.clients f
    → Models app.from_handle g
    → Models app.from_username names
    → app.from_handle.len < 2 ^ 64
    → app.from_username.len < 2 ^ 64
    → length app.from_handle.bkts ≡ app.from_handle.cap
    → ((h q : ℕ) → g h ≡ some q → Linked app f h q)
    → g client.handle ≡ some p
    → slot client.handle app.from_handle.cap ≡ ok i
    → bucket_at app.from_handle.bkts i ≡ ok bucket
    → load app (behind client.handle bucket p) ≡ ok v
    → length v.username ≤ 16
    → Returns
        (leave app client)
        (Left app f g names client.handle (behind client.handle bucket p) v)
unfolding user_free free_user is_some must_exist
leave-Left app f g names client p i bucket v valid users_valid names_valid few few' whole linked
      there home read reads short =
    let h = client.handle in
    let q = behind h bucket p in
    let found : find h bucket ≡ some p =
      find-bucket_at app.from_handle g h i bucket users_valid home read ∙ there in
    let l = linked h p there in
    elim (Option-cases (erase h bucket)) [
      | inl e ↦ absurd (none-ne-some p (sym (find_of_erase-none h bucket e) ∙ found))
      | inr (bucket', e) ↦
          let (users, run5, (removed, count, cap, wide)) =
            map_remove-Models app.from_handle g h few users_valid in
          let run6 =
            map_remove-bucket_at app.from_handle users h i bucket bucket' home read e run5 in
          let (taken, run10, released) =
            release_name app.from_username names v.username names_valid few' in
          let app2 = with_users app users taken in
          let (told, run11, heard) =
            broadcast-Told none (farewell v.username) (farewell_short v.username short) app2 f
              (update g h none) valid removed (wide ∙ whole ∙ sym cap)
              (without-Linked app f g h users taken linked) in
          (
            with_user told q none,
            leave_run app client p q i l.user v bucket bucket' users (is_some (names v.username))
                  taken told (map_get-Models app.from_handle g users_valid h ∙ rw there refl) home
                  read l.reads (ap (map_remove app.from_handle) l.same ∙ run5) run6
                  (reread-place h p bucket bucket' e) reads
                  (map_contains-Models app.from_username names names_valid v.username) run10 run11
                ∙ rw
                    (
                      load-with_clients app2 told heard.rest q
                          ∙ load-with_users app users taken q
                          ∙ reads,
                      ◌>>=◌,
                    )
                    refl,
            record {
              users = users;
              taken = taken;
              told = told;
              removed = removed;
              released = released;
              heard = heard;
              freed = refl;
            },
          )
    ]
