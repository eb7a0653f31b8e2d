-- ===== src/Tests/Leaving.antt =====
-- A user who leaves, in src/app.c, at concrete inputs.
use aurora_comms.App.Entered.{with_names, load-with_names}
use aurora_comms.App.Hearing.{Linked}
use aurora_comms.App.Leave.{Left, leave-Left}
use aurora_comms.App.Screens.{user_free}
use aurora_comms.App.Update.{leave, place, reread, broadcast, tell, skips}
use aurora_comms.App.{App, load, read_user, free_user}
use aurora_comms.Base.{
  ℕ, ◌≡◌, refl, sym, subst, ◌∙◌, [], ◌∷◌, Option, none, some, arith, ok, ok_inj, Returns, ◌>>=◌,
}
use aurora_comms.Entries.{replace, find, erase}
use aurora_comms.Map.Grow.{map_set-Models}
use aurora_comms.Map.Layout.{update}
use aurora_comms.Map.Lookup.{Models, map_new_reserve-Models}
use aurora_comms.Map.{
  Map, live, map_new_reserve, map_set, map_set_no_rehash, slot, bucket_at, read_bucket,
  append_entry, map_get, map_get_maybe_null, must_exist, map_remove, size_dec, map_contains,
  is_some, map_foreach, foreach_bkts, foreach_chain,
}
use aurora_comms.Net.{to_be_removed, handle_key, handle_hash, handle_eq}
use aurora_comms.Str.Laws.{string_key}
use aurora_comms.Str.{Str, codes, string_hash, hash_loop}
use aurora_comms.Tests.Chat.{
  client_of, pair_map-Models, ann, bob, clients, clients-Models, pointers, app, load-ann, linked,
  guest,
}

abbrev nameless : Str → Option ℕ
nameless _ = none

abbrev only_ann : Str → Option ℕ
only_ann = update nameless (codes "ann") (some 0)

abbrev ann_name : Map Str ℕ
ann_name = record {
  bkts = live ((codes "ann", 0) ∷ []) ∷ live [] ∷ live [] ∷ live [] ∷ [];
  cap = 4;
  len = 1;
  pop_bkts = 1;
}

ann_name_run : map_set (map_new_reserve 4) (codes "ann") 0 ≡ ok ann_name
unfolding map_set map_new_reserve map_set_no_rehash slot bucket_at read_bucket append_entry replace
    string_hash hash_loop
ann_name_run = refl

ann_name-Models : Models ann_name only_ann
unfolding map_new_reserve
ann_name-Models =
    let (r, run, (models, count, cap, wide)) =
      map_set-Models (map_new_reserve 4) nameless (codes "ann") 0 (omega arith) (omega arith)
        (map_new_reserve-Models 4 (omega arith)).0 in
    let same : r ≡ ann_name = ok_inj (sym run ∙ ann_name_run) in
    subst (λ m. Models m only_ann) same models

abbrev named_app : App
named_app = with_names app ann_name

named-Linked : (h q : ℕ) → pointers h ≡ some q → Linked named_app clients h q
named-Linked h q e =
    let l = linked bob refl h q e in
    record {
      user = l.user;
      reads = load-with_names app ann_name q ∙ l.reads;
      same = l.same;
      client = l.client;
      there = l.there;
    }

first_pointer : pointers 4 ≡ some 0
unfolding handle_eq
first_pointer = refl

first_slot : slot {K = ℕ} 4 4 ≡ ok 0
unfolding slot handle_hash
first_slot = refl

first_bucket : bucket_at named_app.from_handle.bkts 0 ≡ ok ((4, 0) ∷ [])
unfolding bucket_at read_bucket
first_bucket = refl

leave-Left_example :
    Returns
      (leave named_app (record (client_of 4) { state = to_be_removed }))
      (Left named_app clients pointers only_ann 4 0 ann)
unfolding handle_eq
leave-Left_example =
    leave-Left named_app clients pointers only_ann (record (client_of 4) { state = to_be_removed })
      0 0 ((4, 0) ∷ []) ann clients-Models (pair_map-Models 0 1) ann_name-Models (omega arith)
      (omega arith) refl named-Linked first_pointer first_slot first_bucket
      (load-with_names app ann_name 0 ∙ load-ann bob) (omega arith)

-- Another user, in the bucket behind.
abbrev crowded_app : App
crowded_app = record named_app {
  from_handle = record {
    bkts = live ((4, 0) ∷ (8, 1) ∷ []) ∷ live [] ∷ live [] ∷ live [] ∷ [];
    cap = 4;
    len = 2;
    pop_bkts = 1;
  };
  heap = some ann ∷ some (record guest { handle = 8 }) ∷ [];
}

-- The user who leaves stays on the heap, and the other is freed.
leave_frees_other : leave crowded_app (client_of 4) >>= (λ r. ok r.heap) ≡ ok (some ann ∷ none ∷ [])
unfolding leave map_get map_get_maybe_null must_exist slot bucket_at read_bucket find handle_hash
    handle_eq load read_user map_remove erase size_dec place reread map_contains string_hash
    hash_loop is_some broadcast map_foreach foreach_bkts foreach_chain tell skips user_free
    free_user
leave_frees_other = refl
