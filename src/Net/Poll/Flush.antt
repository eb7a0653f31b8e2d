-- ===== src/Net/Poll/Flush.antt =====
-- Writing to the clients in `ac_server_poll` of src/net.c.
use mathlib.Core.Option
use aurora_comms.Base.{
  none-ne-some, ℕ, ◌<◌, ◌≤◌, ◌≡◌, refl, sym, ap, subst, ◌∙◌, fun_ext, Bool-cases, inl, inr, [], ◌∷◌,
  Option, none, some, Option-cases, arith, if◌then◌else◌, ltb, length, drop, ◌>>=◌, Returns,
}
use aurora_comms.Entries.{Entries, find, IsDistinct}
use aurora_comms.Key.{equal_refl}
use aurora_comms.Line.Trim.{remove_n_front}
use aurora_comms.Map.Assign.{map_assign-Models}
use aurora_comms.Map.Foreach.{map_foreach-Models}
use aurora_comms.Map.Layout.{update}
use aurora_comms.Map.Lookup.{Models}
use aurora_comms.Map.{foreach_chain}
use aurora_comms.Net.Clients.{SameShape, SameShape-trans}
use aurora_comms.Net.Poll.Receive.{Read, stays}
use aurora_comms.Net.Poll.{PollOs, flush_client, flush}
use aurora_comms.Net.{Server, Client, sent, handle_key, handle_eq, handle_eq_iff, effect}
use aurora_comms.Str.{Str}

-- The output that is left after `send` took what it took.
abbrev pub unsent : Option ℕ → Str → Str
unsent none output = output
unsent (some n) output = drop n output

abbrev pub flushed : PollOs → Client → Client
flushed os c =
    if ltb 0 (length c.output)
    then record c { output = unsent (os.send c.handle c.output) c.output }
    else c

-- `send` takes at most the bytes it was given.
abbrev pub TakesPart : PollOs → Type 0
TakesPart os = (handle n : ℕ) (out : Str) → os.send handle out ≡ some n → n ≤ length out

-- A client after the loop, if `x` is what the loop finds under its handle.
abbrev flush_client_at : PollOs → Option Client → Option Client → Option Client
flush_client_at os none c = c
flush_client_at os (some d) c = some (flushed os d)

abbrev flush_at : PollOs → (ℕ → Option Client) → (ℕ → Option Client) → ℕ → Option Client
flush_at os g f h = flush_client_at os (g h) (f h)

flush_step :
    (os : PollOs) (f : ℕ → Option Client) (h : ℕ) (c : Client) (es : Entries ℕ Client)
    → find h es ≡ none
    → flush_at os (λ k. find k es) (update f h (some (flushed os c)))
      ≡ flush_at os (λ k. find k ((h, c) ∷ es)) f
unfolding find
flush_step os f h c es fresh = fun_ext λ k. elim (Bool-cases (handle_eq h k)) [
  | inl here ↦
      let none_left : find k es ≡ none =
        ap (λ y. find y es) (sym ((handle_eq_iff h k).0 here)) ∙ fresh in
      rw (none_left, here)
  | inr apart ↦ rw apart
]

still_there :
    (f : ℕ → Option Client) (h : ℕ) (c d : Client) (es : Entries ℕ Client)
    → find h es ≡ none
    → ((k : ℕ) (e : Client) → find k ((h, c) ∷ es) ≡ some e → f k ≡ some e)
    → (k : ℕ) (e : Client) → find k es ≡ some e
    → update f h (some d) k ≡ some e
unfolding find
still_there f h c d es fresh there k e here = elim (Bool-cases (handle_eq h k)) [
  | inl same ↦
      absurd (none-ne-some e (sym fresh ∙ ap (λ y. find y es) ((handle_eq_iff h k).0 same) ∙ here))
  | inr apart ↦ rw apart (there k e (rw apart here))
]

module _ (os : PollOs) (part : TakesPart os) where
  flush_one :
      (s : Server) (f : ℕ → Option Client) (h : ℕ) (c : Client)
      → Models s.clients f
      → f h ≡ some c
      → Returns (flush_client os (h, c) s) (Read s f h (flushed os c))
  unfolding flush_client effect
  flush_one s f h c valid there = elim (Bool-cases (ltb 0 (length c.output))) [
    | inr nothing ↦ (s, rw nothing, rw nothing (stays s f h c valid there s refl refl))
    | inl some_output ↦ elim (Option-cases (os.send c.handle c.output)) [
      | inl e ↦
          let s' = effect s (sent c.handle c.output) in
          (s', rw (some_output, e), rw (some_output, e) (stays s f h c valid there s' refl refl))
      | inr (n, e) ↦
          let rest = drop n c.output in
          let some_byte : 0 < length c.output = ground arith in
          let (clients, run, (models, len, pop, cap, wide)) =
            map_assign-Models s.clients f h (record c { output = rest }) valid there in
          (
            record (effect s (sent c.handle c.output)) { clients = clients },
            rw (
              some_output,
              e,
              remove_n_front c.output n some_byte (part c.handle n c.output e),
              ◌>>=◌,
              run,
            ),
            rw (some_output, e) (models, (len, pop, cap, wide), refl),
          )
    ]
  ]

  flush_chain :
      (es : Entries ℕ Client) (s : Server) (f : ℕ → Option Client)
      → Models s.clients f
      → IsDistinct es
      → ((h : ℕ) (c : Client) → find h es ≡ some c → f h ≡ some c)
      → Returns (foreach_chain es (flush_client os) s) λ r.
        Models r.clients (flush_at os (λ h. find h es) f)
        × SameShape s.clients r.clients
        × (r.listener ≡ s.listener)
  unfolding foreach_chain find
  flush_chain [] s f valid d there = (s, refl, (valid, (refl, refl, refl, refl), refl))
  flush_chain ((h, c) ∷ es) s f valid (fresh, d) there =
      let here : f h ≡ some c = there h c (rw (equal_refl h) refl) in
      let (r, run, (models, shape, listener)) = flush_one s f h c valid here in
      let (r', run', (models', shape', listener')) =
        flush_chain es r _ models d (still_there f h c (flushed os c) es fresh there) in
      (
        r',
        rw run run',
        (
          subst (Models r'.clients) (flush_step os f h c es fresh) models',
          SameShape-trans s.clients r.clients r'.clients shape shape',
          listener' ∙ listener,
        ),
      )

  -- If `send` takes no more than it is given, and the bucket array of the well-formed clients is as
  -- long as its capacity, then the loop that sends does not fault. It takes from the front of each
  -- output what `send` took for it, and changes nothing else of the clients.
  pub flush-Models :
      (s : Server) (f : ℕ → Option Client)
      → Models s.clients f
      → length s.clients.bkts ≡ s.clients.cap
      → Returns (flush os s) λ r.
        Models r.clients (λ h. Option.map (flushed os) (f h))
        × SameShape s.clients r.clients
        × (r.listener ≡ s.listener)
  unfolding flush
  flush-Models s f valid whole =
      let (es, walk, run) = map_foreach-Models s.clients f (flush_client os) s valid whole in
      let (r, done, (models, shape, listener)) =
        flush_chain es s f valid walk.distinct (λ h c e. sym (walk.reads h) ∙ e) in
      (
        r,
        run ∙ done,
        (
          subst (Models r.clients) (fun_ext λ h. rw (walk.reads h) (flush_own (f h))) models,
          shape,
          listener,
        ),
      )
    where
      flush_own : (x : Option Client) → flush_client_at os x x ≡ Option.map (flushed os) x
      flush_own none = refl
      flush_own (some c) = refl
