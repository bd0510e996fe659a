-- ===== src/Proto/Daytimer.antt =====
-- src/proto/daytimer.rs: the type-4 tables of daytimer states. A field of 32 bits is its bit
-- pattern, and so is an `f64`.
pub mod Walk
pub mod Raw
use mathlib.Core.Option
use mathlib.Core.List.{flatten}
use loxwebsocketclient_rs.Prelude.{
  ℕ, ◌+◌, ◌*◌, ◌/◌, ◌^◌, ◌<◌, ◌≡◌, ◌&&◌, Option, none, some, List, [], ◌∷◌, ◌++◌, map, ltb, leb,
  if◌then◌else◌, length, take, drop, get_or, All, Bytes, get_to, get_from,
}
use loxwebsocketclient_rs.Prelude.Int.{ℤ, pos, negsuc}
use loxwebsocketclient_rs.Uuid.{LoxoneUuid}
use loxwebsocketclient_rs.Proto.Elems.{read_elems, read_words, write_words, WordsFit, write_elems}
use loxwebsocketclient_rs.Proto.Fields.{◌>>=◌, carve}
use loxwebsocketclient_rs.Proto.Loop.{walk}

pub record DaytimerEntry : Type 0 where
  pub mode : ℕ
  pub from_minutes : ℕ
  pub to_minutes : ℕ
  pub need_activate : ℕ
  pub value : ℕ

abbrev pub entry_size : ℕ
entry_size = 24

abbrev pub daytimer_header_size : ℕ
daytimer_header_size = 28

pub record DaytimerEvent : Type 0 where
  pub uuid : LoxoneUuid
  pub default_value : ℕ
  pub entries : List DaytimerEntry

pub record TableHeader : Type 0 where
  pub uuid : Bytes
  pub default_value : ℕ
  pub nr_entries : ℕ

abbrev pub entry_widths : List ℕ
entry_widths = 4 ∷ 4 ∷ 4 ∷ 4 ∷ 8 ∷ []

abbrev pub entry_of_words : List ℕ → DaytimerEntry
entry_of_words w = record {
  mode = get_or w 0 0;
  from_minutes = get_or w 1 0;
  to_minutes = get_or w 2 0;
  need_activate = get_or w 3 0;
  value = get_or w 4 0;
}

-- The fields of 24 bytes.
abbrev pub read_entry : Bytes → DaytimerEntry
read_entry b = entry_of_words (read_words entry_widths b)

-- `offset.checked_add(SIZE)?` on a 64-bit `usize`, then `buf.get(offset..end)?`.
unfoldable pub read_at : Bytes → ℕ → Option DaytimerEntry
read_at buf offset =
    if ltb (offset + entry_size) (2 ^ 64) && leb (offset + entry_size) (length buf)
    then some (read_entry (take entry_size (drop offset buf)))
    else none

abbrev pub header_widths : List ℕ
header_widths = 8 ∷ 4 ∷ []

-- `TableHeader::ref_from_prefix`: the header and what follows it.
unfoldable pub read_header : Bytes → Option (TableHeader × Bytes)
read_header payload =
    let after_uuid : Bytes = drop 16 payload in
    let w : List ℕ = read_words header_widths after_uuid in
    if ltb (length payload) daytimer_header_size
    then none
    else some (
      record { uuid = take 16 payload; default_value = get_or w 0 0; nr_entries = get_or w 1 0 },
      drop 12 after_uuid,
    )

unfoldable pub entries_of : Bytes → List DaytimerEntry
entries_of bytes =
    let count : ℕ = length bytes / entry_size in read_elems entry_size read_entry count bytes

unfoldable pub split_table : Bytes → Option (TableHeader × Bytes × Bytes)
split_table payload = do
  (header, after_header) ← read_header payload
  (entries, rest) ← carve entry_size header.nr_entries after_header
  some (header, entries, rest)

-- One call of `f`.
unfoldable pub event : TableHeader → Bytes → DaytimerEvent
event header entry_bytes = record {
  uuid = record { bytes = header.uuid };
  default_value = header.default_value;
  entries = entries_of entry_bytes;
}

unfoldable pub round : Bytes → Option (DaytimerEvent × Bytes)
round rest = do
  (header, entry_bytes, tail) ← split_table rest
  some (event header entry_bytes, tail)

unfoldable pub walk_daytimers : Bytes → Option (List DaytimerEvent)
walk_daytimers payload = walk round payload

-- The calls of `table_fn` and of `entry_fn`.
pub data RawCall : Type 0 where
  table_fn : LoxoneUuid → ℕ → ℕ → RawCall
  entry_fn : LoxoneUuid → DaytimerEntry → RawCall

unfoldable pub raw_round : Bytes → Option (List RawCall × Bytes)
raw_round rest = do
  (header, entry_bytes, tail) ← split_table rest
  let uuid : LoxoneUuid = record { bytes = header.uuid }
  some (
    table_fn uuid header.default_value header.nr_entries
        ∷ map (entry_fn uuid) (entries_of entry_bytes),
    tail,
  )

unfoldable pub walk_daytimer_raw : Bytes → Option (List RawCall)
walk_daytimer_raw payload = Option.map flatten (walk raw_round payload)

-- A table as the Miniserver sends it.
abbrev pub entry_words : DaytimerEntry → List ℕ
entry_words e = e.mode ∷ e.from_minutes ∷ e.to_minutes ∷ e.need_activate ∷ e.value ∷ []

abbrev pub entry_bytes : DaytimerEntry → Bytes
entry_bytes e = write_words entry_widths (entry_words e)

abbrev pub EntryFits : DaytimerEntry → Type 0
EntryFits e = WordsFit entry_widths (entry_words e)

abbrev pub event_bytes : DaytimerEvent → Bytes
event_bytes e =
    e.uuid.bytes
    ++ (write_words header_widths (e.default_value ∷ length e.entries ∷ [])
        ++ write_elems entry_bytes e.entries)

pub record EventFits (e : DaytimerEvent) : Type 0 where
  pub uuid_len : length e.uuid.bytes ≡ 16
  pub default_range : e.default_value < 256 ^ 8
  pub count_range : length e.entries < 2 ^ 31
  pub entry_ranges : All EntryFits e.entries

abbrev pub table_bytes : List DaytimerEvent → Bytes
table_bytes = write_elems event_bytes
