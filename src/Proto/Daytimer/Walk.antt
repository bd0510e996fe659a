-- ===== src/Proto/Daytimer/Walk.antt =====
-- The walk over daytimer tables of src/proto/daytimer.rs, against an encoder of such tables.
use mathlib.Core.Option
use loxwebsocketclient_rs.Prelude.{
  ℕ, ◌+◌, ◌*◌, ◌/◌, ◌^◌, ◌≤◌, ◌<◌, ◌≡◌, sym, ap, ◌∙◌, inl, inr, arith, false, none, some, List, [],
  ◌∷◌, ◌++◌, append_assoc, append-nil, ltb, lt→ltb, Option-cases, length, drop, take_prefix,
  drop_prefix, length-append, length-drop, All, Bytes, from_le_bytes-to_le_bytes,
}
use loxwebsocketclient_rs.Proto.Elems.{
  Layout, read_elems, write_elems, length-write_elems, read_elems-write_elems, read_words,
  write_words, length-write_words, read_words-write_words,
}
use loxwebsocketclient_rs.Proto.Fields.{carve, Carved, carve_inv, carve-none, carve_prefix}
use loxwebsocketclient_rs.Proto.Loop.{walk_total, walk-some, walk-none}
use loxwebsocketclient_rs.Proto.Daytimer.{
  DaytimerEntry, entry_size, daytimer_header_size, DaytimerEvent, TableHeader, entry_widths,
  entry_of_words, read_entry, header_widths, read_header, entries_of, split_table, event, round,
  walk_daytimers, entry_words, entry_bytes, EntryFits, event_bytes, EventFits, table_bytes,
}

read_header_shorter :
    (payload : Bytes) (header : TableHeader) (after : Bytes)
    → read_header payload ≡ some (header, after)
    → length after + 28 ≡ length payload
unfolding read_header
read_header_shorter payload header after e =
    ground (arith, length-drop 12 (drop 16 payload), length-drop 16 payload)

read_header_short :
    (payload : Bytes) → length payload < daytimer_header_size → read_header payload ≡ none
unfolding read_header
read_header_short payload h = rw (lt→ltb (length payload) daytimer_header_size h)

-- What a table is split into.
pub record Split (payload : Bytes) (header : TableHeader) (entries rest : Bytes) : Type 0 where
  pub after : Bytes
  pub header_at : read_header payload ≡ some (header, after)
  pub carved : Carved entry_size header.nr_entries after entries rest

pub split_table_inv :
    (payload : Bytes) (header : TableHeader) (entries rest : Bytes)
    → split_table payload ≡ some (header, entries, rest)
    → Split payload header entries rest
unfolding split_table
split_table_inv payload header entries rest e = elim (Option-cases (read_header payload)) [
  | inl p ↦ absurd (cc)
  | inr ((h, after), p) ↦ elim (Option-cases (carve entry_size h.nr_entries after)) [
    | inl q ↦ absurd (ground arith)
    | inr ((es, r), q) ↦ record {
      after = after;
      header_at = ground arith;
      carved = carve_inv entry_size header.nr_entries after entries rest (ground arith);
    }
  ]
]

split_table_shorter :
    (payload : Bytes) (header : TableHeader) (entries rest : Bytes)
    → split_table payload ≡ some (header, entries, rest)
    → length rest < length payload
split_table_shorter payload header entries rest e =
    let s = split_table_inv payload header entries rest e in
    omega (
      arith,
      read_header_shorter payload header s.after s.header_at,
      ap length s.carved.rest_is,
      length-drop (header.nr_entries * entry_size) s.after,
    )

round_shorter :
    (rest : Bytes) (ev : DaytimerEvent) (tail : Bytes)
    → round rest ≡ some (ev, tail)
    → length tail < length rest
unfolding round
round_shorter rest ev tail e = elim (Option-cases (split_table rest)) [
  | inl p ↦ absurd (cc)
  | inr ((header, es, r), p) ↦
      let shorter = split_table_shorter rest header es r p in
      let same : r ≡ tail = ground arith in omega (arith, ap length same)
]

-- `walk_daytimers` ends on every payload: its fuel never runs out.
pub walk_daytimers_total :
    (payload : Bytes) → (evs : List DaytimerEvent) × (walk_daytimers payload ≡ some evs)
unfolding walk_daytimers
walk_daytimers_total = walk_total round round_shorter

entry_layout : Layout DaytimerEntry
entry_layout = record {
  size = entry_size;
  read = read_entry;
  write = entry_bytes;
  Fits = EntryFits;
  length-write = λ e f. length-write_words entry_widths (entry_words e) f;
  read-write = λ e f. ap entry_of_words (
      ap (read_words entry_widths) (sym (append-nil (entry_bytes e)))
      ∙ read_words-write_words entry_widths (entry_words e) [] f);
}

read_header_wire :
    (uuid : Bytes) (default_value count : ℕ) (more : Bytes)
    → length uuid ≡ 16
    → default_value < 256 ^ 8
    → count < 256 ^ 4
    → read_header (uuid ++ (write_words header_widths (default_value ∷ count ∷ []) ++ more))
      ≡ some (record { uuid = uuid; default_value = default_value; nr_entries = count }, more)
unfolding read_header
read_header_wire uuid default_value count more u d c = rw (
  take_prefix 16 uuid (write_words header_widths (default_value ∷ count ∷ []) ++ more) u,
  drop_prefix 16 uuid (write_words header_widths (default_value ∷ count ∷ []) ++ more) u,
  from_le_bytes-to_le_bytes 8 default_value d,
  from_le_bytes-to_le_bytes 4 count c,
  long,
)
  where
    long :
        ltb
          (length (uuid ++ (write_words header_widths (default_value ∷ count ∷ []) ++ more)))
          daytimer_header_size
        ≡ false
    long =
        ground (
          arith,
          length-append uuid (write_words header_widths (default_value ∷ count ∷ []) ++ more),
        )

module _ (ev : DaytimerEvent) (f : EventFits ev) where
  header_of : TableHeader
  header_of = record {
    uuid = ev.uuid.bytes;
    default_value = ev.default_value;
    nr_entries = length ev.entries;
  }

  body : Bytes
  body = write_elems entry_bytes ev.entries

  length-body : length body ≡ length ev.entries * entry_size
  unfolding body entry_layout
  length-body = length-write_elems entry_layout ev.entries f.entry_ranges

  entries_of-body : entries_of body ≡ ev.entries
  unfolding entries_of body entry_layout
  entries_of-body =
      ap (λ n. read_elems 24 read_entry n body) count
      ∙ ap (read_elems 24 read_entry (length ev.entries)) (sym (append-nil body))
      ∙ read_elems-write_elems entry_layout ev.entries [] f.entry_ranges
    where
      count : length body / entry_size ≡ length ev.entries
      count = omega (arith, length-body)

  read_header-event_bytes :
      (more : Bytes) → read_header (event_bytes ev ++ more) ≡ some (header_of, body ++ more)
  unfolding header_of body
  read_header-event_bytes more =
      let words : Bytes = write_words header_widths (ev.default_value ∷ length ev.entries ∷ []) in
      rw (append_assoc ev.uuid.bytes (words ++ write_elems entry_bytes ev.entries) more) (
        read_header_wire ev.uuid.bytes ev.default_value (length ev.entries)
          (write_elems entry_bytes ev.entries ++ more) f.uuid_len f.default_range
          (omega (arith, f.count_range)))

  round-event_bytes : (more : Bytes) → round (event_bytes ev ++ more) ≡ some (ev, more)
  unfolding round split_table event header_of
  round-event_bytes more = rw (
    read_header-event_bytes more,
    carve_prefix entry_size (length ev.entries) body more f.count_range (omega arith) length-body,
    entries_of-body,
  )

walk_daytimers-event_bytes :
    (ev : DaytimerEvent) (tail : Bytes)
    → EventFits ev
    → walk_daytimers (event_bytes ev ++ tail) ≡ Option.map (◌∷◌ ev) (walk_daytimers tail)
unfolding walk_daytimers
walk_daytimers-event_bytes ev tail f =
    walk-some round round_shorter (event_bytes ev ++ tail) ev tail (round-event_bytes ev f tail)

-- The daytimer tables of a payload, with fields of the wire's widths, are delivered in order and once each, whatever bytes follow, and then the
-- walk goes on with those bytes.
pub walk_daytimers-table_bytes :
    (evs : List DaytimerEvent) (tail : Bytes)
    → All EventFits evs
    → walk_daytimers (table_bytes evs ++ tail) ≡ Option.map (◌++◌ evs) (walk_daytimers tail)
walk_daytimers-table_bytes [] tail h = let (out, r) = walk_daytimers_total tail in rw r
walk_daytimers-table_bytes (e ∷ evs) tail h =
    let (out, r) = walk_daytimers_total tail in
    ap walk_daytimers (append_assoc (event_bytes e) (table_bytes evs) tail)
    ∙ walk_daytimers-event_bytes e (table_bytes evs ++ tail) h.0
    ∙ rw (walk_daytimers-table_bytes evs tail h.1, r)

-- Less than a header, a negative count, or more entries than there are.
pub data Malformed (payload : Bytes) : Type 0 where
  cut_header : length payload < daytimer_header_size → Malformed payload
  negative :
      (header : TableHeader) (after : Bytes)
      → read_header payload ≡ some (header, after)
      → 2 ^ 31 ≤ header.nr_entries
      → Malformed payload
  overlong :
      (header : TableHeader) (after : Bytes)
      → read_header payload ≡ some (header, after)
      → length after < header.nr_entries * entry_size
      → Malformed payload

round-Malformed : (payload : Bytes) → Malformed payload → round payload ≡ none
unfolding round split_table
round-Malformed payload (cut_header short) = rw (read_header_short payload short)
round-Malformed payload (negative header after e b) =
    rw (e, carve-none entry_size header.nr_entries after (inl b))
round-Malformed payload (overlong header after e b) =
    rw (e, carve-none entry_size header.nr_entries after (inr b))

-- The walk stops at the first malformed table, with the tables before it delivered.
pub walk_daytimers-Malformed :
    (evs : List DaytimerEvent) (tail : Bytes)
    → All EventFits evs
    → Malformed tail
    → walk_daytimers (table_bytes evs ++ tail) ≡ some evs
walk_daytimers-Malformed evs tail h bad =
    walk_daytimers-table_bytes evs tail h
    ∙ ap (Option.map (◌++◌ evs)) stopped
    ∙ ap some (append-nil evs)
  where
    stopped : walk_daytimers tail ≡ some []
    stopped = unfold walk_daytimers in walk-none round tail (round-Malformed tail bad)
