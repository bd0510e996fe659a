-- ===== src/Proto/Daytimer/Raw.antt =====
-- The raw walk over daytimer tables of src/proto/daytimer.rs, against the collected one.
use mathlib.Core.Option
use mathlib.Core.List.{flatten}
use loxwebsocketclient_rs.Prelude.{
  ◌*◌, ◌/◌, ◌≡◌, refl, ap, ◌∙◌, inl, inr, arith, Option, none, some, List, ◌∷◌, map, Option-cases,
  some_inv, length, length-take, Bytes,
}
use loxwebsocketclient_rs.Proto.Elems.{length-read_elems}
use loxwebsocketclient_rs.Proto.Loop.{walk, walk-map}
use loxwebsocketclient_rs.Proto.Daytimer.{
  entry_size, DaytimerEvent, TableHeader, read_entry, entries_of, split_table, event, round,
  walk_daytimers, RawCall, table_fn, entry_fn, raw_round, walk_daytimer_raw,
}
use loxwebsocketclient_rs.Proto.Daytimer.Walk.{split_table_inv}

-- The calls that deliver one table.
abbrev pub calls : DaytimerEvent → List RawCall
calls ev = table_fn ev.uuid ev.default_value (length ev.entries) ∷ map (entry_fn ev.uuid) ev.entries

-- The announced count is the number of entries that are handed over.
length-entries_of :
    (payload : Bytes) (header : TableHeader) (entries rest : Bytes)
    → split_table payload ≡ some (header, entries, rest)
    → length (entries_of entries) ≡ header.nr_entries
unfolding entries_of
length-entries_of payload header entries rest e =
    let s = split_table_inv payload header entries rest e in
    length-read_elems entry_size read_entry (length entries / entry_size) entries
    ∙ omega (
      arith,
      s.carved.sized,
      ap length s.carved.entries_are,
      length-take (header.nr_entries * entry_size) s.after,
    )

raw_stops : (rest : Bytes) → round rest ≡ none → raw_round rest ≡ none
unfolding round raw_round
raw_stops rest e = elim (Option-cases (split_table rest)) [
  | inl p ↦ rw p
  | inr ((header, es, r), p) ↦ absurd (ground arith)
]

raw_goes_on :
    (rest : Bytes) (ev : DaytimerEvent) (tail : Bytes)
    → round rest ≡ some (ev, tail)
    → raw_round rest ≡ some (calls ev, tail)
unfolding round raw_round event
raw_goes_on rest ev tail e = elim (Option-cases (split_table rest)) [
  | inl p ↦ absurd (ground arith)
  | inr ((header, es, r), p) ↦
      rw (p, ← length-entries_of rest header es r p)
        (ap (λ (c : DaytimerEvent × Bytes). some (calls c.0, c.1)) (some_inv (same header es r p)))
]
  where
    same :
        (header : TableHeader) (es r : Bytes)
        → split_table rest ≡ some (header, es, r)
        → ◌≡◌ {A = Option (DaytimerEvent × Bytes)} (some (event header es, r)) (some (ev, tail))
    same header es r p = ground arith

-- The raw walk calls `table_fn` and `entry_fn` as the collected tables say, in their order.
pub walk_daytimer_raw-walk_daytimers :
    (payload : Bytes)
    → walk_daytimer_raw payload
      ≡ Option.map (λ evs. flatten (map calls evs)) (walk_daytimers payload)
unfolding walk_daytimer_raw walk_daytimers
walk_daytimer_raw-walk_daytimers payload =
    rw (walk-map calls round raw_round raw_stops raw_goes_on payload) (twice (walk round payload))
  where
    twice :
        (o : Option (List DaytimerEvent))
        → Option.map flatten (Option.map (map calls) o)
          ≡ Option.map (λ evs. flatten (map calls evs)) o
    twice none = refl
    twice (some evs) = refl
