-- ===== src/Tests/Chat.antt =====
-- A chat of two users, for the tests.
use aurora_comms.App.Hearing.{Linked}
use aurora_comms.App.{App, User, login, chat, load, read_user}
use aurora_comms.Base.{
  ℕ, ◌≡◌, inl, inr, refl, sym, subst, ◌∙◌, Bool-cases, [], ◌∷◌, Option, none, some, arith, ==_iff,
  ok, ok_inj,
}
use aurora_comms.Entries.{replace}
use aurora_comms.Map.Grow.{map_set-Models}
use aurora_comms.Map.Layout.{update}
use aurora_comms.Map.Lookup.{Models, map_new_reserve-Models}
use aurora_comms.Map.{
  Map, live, map_new_reserve, map_set, map_set_no_rehash, slot, bucket_at, read_bucket,
  append_entry,
}
use aurora_comms.Net.{Client, online, handle_key, handle_hash, handle_eq}
use aurora_comms.Str.Laws.{string_key}
use aurora_comms.Str.{codes}

abbrev pub client_of : ℕ → Client
client_of handle = record {
  handle = handle;
  state = online;
  input = [];
  output = [];
  ip = codes "::1";
}

abbrev pub no_value : {A : Type 0} → ℕ → Option A
no_value _ = none

-- A map of two entries, under 4 and 5.
module _ {A : Type 0} (a b : A) where
  abbrev pub pair : ℕ → Option A
  pair = update (update no_value 4 (some a)) 5 (some b)

  abbrev pub pair_map : Map ℕ A
  pair_map = record {
    bkts = live ((4, a) ∷ []) ∷ live ((5, b) ∷ []) ∷ live [] ∷ live [] ∷ [];
    cap = 4;
    len = 2;
    pop_bkts = 2;
  }

  abbrev pub single_map : Map ℕ A
  single_map = record {
    bkts = live ((4, a) ∷ []) ∷ live [] ∷ live [] ∷ live [] ∷ [];
    cap = 4;
    len = 1;
    pop_bkts = 1;
  }

  single_map_run : map_set (map_new_reserve 4) 4 a ≡ ok single_map
  unfolding map_set map_new_reserve map_set_no_rehash slot bucket_at read_bucket append_entry
      replace handle_hash
  single_map_run = refl

  pair_map_run : map_set single_map 5 b ≡ ok pair_map
  unfolding map_set map_set_no_rehash slot bucket_at read_bucket append_entry replace handle_hash
  pair_map_run = refl

  single_map-Models : Models single_map (update no_value 4 (some a))
  unfolding map_new_reserve
  single_map-Models =
      let (r, run, (models, count, cap, wide)) =
        map_set-Models (map_new_reserve 4) no_value 4 a (omega arith) (omega arith)
          (map_new_reserve-Models 4 (omega arith)).0 in
      let same : r ≡ single_map = ok_inj (sym run ∙ single_map_run) in
      subst (λ m. Models m (update no_value 4 (some a))) same models

  pub pair_map-Models : Models pair_map pair
  pair_map-Models =
      let (r, run, (models, count, cap, wide)) =
        map_set-Models single_map (update no_value 4 (some a)) 5 b (omega arith) (omega arith)
          single_map-Models in
      let same : r ≡ pair_map = ok_inj (sym run ∙ pair_map_run) in
      subst (λ m. Models m pair) same models

abbrev pub ann : User
ann = record { handle = 4; state = chat; username = codes "ann" }

abbrev pub bob : User
bob = record { handle = 5; state = chat; username = codes "bob" }

abbrev pub clients : ℕ → Option Client
clients = pair (client_of 4) (client_of 5)

abbrev pub clients_map : Map ℕ Client
clients_map = pair_map (client_of 4) (client_of 5)

abbrev pub clients-Models : Models clients_map clients
clients-Models = pair_map-Models (client_of 4) (client_of 5)

abbrev pub pointers : ℕ → Option ℕ
pointers = pair 0 1

-- Ann in the chat, another user under the handle 5, and no name that is taken.
abbrev pub app_of : User → App
app_of second = record {
  server = record { listener = 3; clients = clients_map; effects = [] };
  from_handle = pair_map 0 1;
  from_username = map_new_reserve 4;
  heap = some ann ∷ some second ∷ [];
  app_start_time = 0;
  commands = none;
}

abbrev pub guest : User
guest = record { handle = 5; state = login; username = [] }

abbrev pub app : App
app = app_of bob

abbrev pub app_with_guest : App
app_with_guest = app_of guest

pub load-ann : (second : User) → load (app_of second) 0 ≡ ok ann
unfolding load read_user
load-ann second = refl

pub load-second : (second : User) → load (app_of second) 1 ≡ ok second
unfolding load read_user
load-second second = refl

pub client_ann : clients 4 ≡ some (client_of 4)
unfolding handle_eq
client_ann = refl

pub client_second : clients 5 ≡ some (client_of 5)
unfolding handle_eq
client_second = refl

pub linked :
    (second : User)
    → second.handle ≡ 5
    → (h q : ℕ) → pointers h ≡ some q
    → Linked (app_of second) clients h q
unfolding handle_eq
linked second five_is h q e = elim (Bool-cases (handle_eq 5 h)) [
  | inl five ↦
      let h_is : 5 ≡ h = (==_iff 5 h).0 five in
      let q_is : 1 ≡ q = ground (arith, five, e) in
      subst (λ k. Linked (app_of second) clients k q) h_is
        (subst (λ r. Linked (app_of second) clients 5 r) q_is
          (record {
            user = second;
            reads = load-second second;
            same = five_is;
            client = client_of 5;
            there = client_second;
          }))
  | inr other ↦ elim (Bool-cases (handle_eq 4 h)) [
    | inl four ↦
        let h_is : 4 ≡ h = (==_iff 4 h).0 four in
        let q_is : 0 ≡ q = ground (arith, four, e) in
        subst (λ k. Linked (app_of second) clients k q) h_is
          (subst (λ r. Linked (app_of second) clients 4 r) q_is
            (record {
              user = ann;
              reads = load-ann second;
              same = refl;
              client = client_of 4;
              there = client_ann;
            }))
    | inr neither ↦ absurd (ground (arith, other, neither, e))
  ]
]
