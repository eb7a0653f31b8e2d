-- ===== src/Tests/Containers.antt =====
-- The array and the hash map of inc/ac/meta.h at concrete inputs.
use aurora_comms.Arr.Insert.{insert_n-Holds}
use aurora_comms.Arr.Remove.{remove_n-Holds}
use aurora_comms.Arr.{Arr, Holds, arr_insert_n, arr_remove_n}
use aurora_comms.Base.{
  ℕ, ◌+◌, ◌≡◌, ◌↔◌, refl, sym, subst, ◌∙◌, [], ◌∷◌, Option, none, some, arith, length, ok, ok_inj,
  fault, use_after_free, ◌>>=◌, Returns,
}
use aurora_comms.Entries.{Entries, replace}
use aurora_comms.Map.Foreach.{
  Walk, total_body, map_foreach-Models, map_foreach-map_set_full, map_free-Models,
}
use aurora_comms.Map.Grow.{map_grow-Models, map_set-Models, map_get-map_set}
use aurora_comms.Map.Layout.{update}
use aurora_comms.Map.Find.{HasEntry, map_get_maybe_null-HasEntry}
use aurora_comms.Map.Lookup.{Models, map_new_reserve-Models}
use aurora_comms.Map.Remove.{map_remove-Models, map_get-map_remove}
use aurora_comms.Map.{
  Map, live, map_new_reserve, map_get_maybe_null, map_set, map_remove, map_grow, map_foreach,
  map_free, foreach_chain, map_set_no_rehash, slot, bucket_at, read_bucket, append_entry,
}
use aurora_comms.Net.{handle_key, handle_hash, handle_eq}

-- The elements 1, 2, 3 in an allocation for four.
abbrev three_elems : Arr ℕ
three_elems = record { cells = some 1 ∷ some 2 ∷ some 3 ∷ none ∷ []; len = 3; cap = 4 }

three_elems-Holds : Holds three_elems (1 ∷ 2 ∷ 3 ∷ [])
three_elems-Holds = record {
  slack = none ∷ [];
  layout = refl;
  counted = refl;
  sized = refl;
  bounded = omega arith;
}

insert_n-Holds_example :
    Returns (arr_insert_n three_elems 1 (7 ∷ 8 ∷ [])) λ b. Holds b (1 ∷ 7 ∷ 8 ∷ 2 ∷ 3 ∷ [])
insert_n-Holds_example =
    insert_n-Holds three_elems (1 ∷ []) (2 ∷ 3 ∷ []) (7 ∷ 8 ∷ []) (omega arith) three_elems-Holds

remove_n-Holds_example :
    Returns (arr_remove_n three_elems 1 1) λ b. Holds b (1 ∷ 3 ∷ []) × (b.cap ≡ 4)
remove_n-Holds_example =
    remove_n-Holds three_elems (1 ∷ []) (2 ∷ []) (3 ∷ []) (omega arith) three_elems-Holds

abbrev nothing : ℕ → Option ℕ
nothing _ = none

abbrev seven : ℕ → Option ℕ
seven = update nothing 7 (some 40)

-- Two buckets, one of them populated: the map is full.
abbrev one_entry : Map ℕ ℕ
one_entry = record { bkts = live [] ∷ live ((7, 40) ∷ []) ∷ []; cap = 2; len = 1; pop_bkts = 1 }

one_entry_run : map_set (map_new_reserve 2) 7 40 ≡ ok one_entry
unfolding map_set map_new_reserve map_set_no_rehash slot bucket_at read_bucket append_entry replace
    handle_hash
one_entry_run = refl

one_entry-Models : Models one_entry seven
unfolding map_new_reserve
one_entry-Models =
    let (r, run, (models, count, cap, wide)) =
      map_set-Models (map_new_reserve 2) nothing 7 40 (omega arith) (omega arith)
        (map_new_reserve-Models 2 (omega arith)).0 in
    let same : r ≡ one_entry = ok_inj (sym run ∙ one_entry_run) in
    subst (λ m. Models m seven) same models

map_set-Models_example :
    Returns
      (map_set one_entry 9 50)
      λ r. Models r (update seven 9 (some 50)) × (r.len + 0 ≡ 2) × (r.cap ≡ 4) × (length r.bkts ≡ 6)
unfolding handle_eq
map_set-Models_example =
    map_set-Models one_entry seven 9 50 (omega arith) (omega arith) one_entry-Models

map_remove-Models_example :
    Returns
      (map_remove one_entry 7)
      λ r. Models r (update seven 7 none) × (r.len + 1 ≡ 1) × (r.cap ≡ 2) × (length r.bkts ≡ 2)
unfolding handle_eq
map_remove-Models_example = map_remove-Models one_entry seven 7 (omega arith) one_entry-Models

map_get_maybe_null-HasEntry_example :
    Returns (map_get_maybe_null one_entry 7) λ o. (v : ℕ) → (o ≡ some v) ↔ HasEntry one_entry 7 v
map_get_maybe_null-HasEntry_example = map_get_maybe_null-HasEntry one_entry seven 7 one_entry-Models

map_grow-Models_example :
    Returns
      (map_grow one_entry)
      λ r. Models r seven × (r.cap ≡ 4) × (r.len ≡ 1) × (length r.bkts ≡ r.cap + 2)
map_grow-Models_example =
    map_grow-Models one_entry seven (omega arith) (omega arith) one_entry-Models

map_get-map_set_example :
    map_set one_entry 9 50 >>= (λ r. map_get_maybe_null r 7) ≡ map_get_maybe_null one_entry 7
unfolding map_get_maybe_null handle_eq
map_get-map_set_example =
    map_get-map_set one_entry seven 9 7 50 (omega arith) (omega arith) one_entry-Models

map_get-map_remove_example : map_remove one_entry 7 >>= (λ r. map_get_maybe_null r 7) ≡ ok none
unfolding handle_eq
map_get-map_remove_example = map_get-map_remove one_entry seven 7 7 (omega arith) one_entry-Models

abbrev add_values : ℕ × ℕ → ℕ → ℕ
add_values (k, v) n = v + n

map_foreach-Models_example :
    (es : Entries ℕ ℕ) × Walk one_entry seven es
    × (map_foreach one_entry (total_body add_values) 0 ≡ foreach_chain es (total_body add_values) 0)
map_foreach-Models_example =
    map_foreach-Models one_entry seven (total_body add_values) 0 one_entry-Models refl

map_foreach-map_set_full_example :
    map_set one_entry 9 50 >>= (λ r. map_foreach r (total_body add_values) 0) ≡ fault use_after_free
map_foreach-map_set_full_example =
    map_foreach-map_set_full one_entry seven 9 50 add_values 0 (omega arith) (omega arith)
      one_entry-Models refl

map_free-Models_example : map_free one_entry ≡ ok tt
map_free-Models_example = map_free-Models one_entry seven one_entry-Models
