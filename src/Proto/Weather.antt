-- ===== src/Proto/Weather.antt =====
-- src/proto/weather.rs: the type-7 tables of weather states. A field of 32 bits is its bit
-- pattern, and so is an `f64`.
pub mod Walk
use loxwebsocketclient_rs.Prelude.{
  ℕ, ◌+◌, ◌*◌, ◌/◌, ◌^◌, ◌<◌, ◌≡◌, ◌&&◌, Option, none, some, List, [], ◌∷◌, ◌++◌, map, ltb, leb,
  if◌then◌else◌, length, take, drop, get_or, All, Bytes, get_to, get_from,
}
use loxwebsocketclient_rs.Prelude.Int.{ℤ, pos, negsuc}
use loxwebsocketclient_rs.Uuid.{LoxoneUuid}
use loxwebsocketclient_rs.Proto.Elems.{read_elems, read_words, write_words, WordsFit, write_elems}
use loxwebsocketclient_rs.Proto.Fields.{◌>>=◌, carve}
use loxwebsocketclient_rs.Proto.Loop.{walk}

pub record WeatherEntry : Type 0 where
  pub timestamp : ℕ
  pub weather_type : ℕ
  pub wind_direction : ℕ
  pub solar_radiation : ℕ
  pub relative_humidity : ℕ
  pub temperature : ℕ
  pub perceived_temperature : ℕ
  pub dew_point : ℕ
  pub precipitation : ℕ
  pub wind_speed : ℕ
  pub barometric_pressure : ℕ

abbrev pub entry_size : ℕ
entry_size = 68

abbrev pub weather_header_size : ℕ
weather_header_size = 24

pub record WeatherEvent : Type 0 where
  pub uuid : LoxoneUuid
  pub last_update : ℕ
  pub entries : List WeatherEntry

pub record TableHeader : Type 0 where
  pub uuid : Bytes
  pub last_update : ℕ
  pub nr_entries : ℕ

abbrev pub entry_widths : List ℕ
entry_widths = 4 ∷ 4 ∷ 4 ∷ 4 ∷ 4 ∷ 8 ∷ 8 ∷ 8 ∷ 8 ∷ 8 ∷ 8 ∷ []

abbrev pub entry_of_words : List ℕ → WeatherEntry
entry_of_words w = record {
  timestamp = get_or w 0 0;
  weather_type = get_or w 1 0;
  wind_direction = get_or w 2 0;
  solar_radiation = get_or w 3 0;
  relative_humidity = get_or w 4 0;
  temperature = get_or w 5 0;
  perceived_temperature = get_or w 6 0;
  dew_point = get_or w 7 0;
  precipitation = get_or w 8 0;
  wind_speed = get_or w 9 0;
  barometric_pressure = get_or w 10 0;
}

-- The fields of 68 bytes.
abbrev pub read_entry : Bytes → WeatherEntry
read_entry b = entry_of_words (read_words entry_widths b)

-- `offset.checked_add(SIZE)?` on a 64-bit `usize`, then `buf.get(offset..end)?`.
unfoldable pub read_at : Bytes → ℕ → Option WeatherEntry
read_at buf offset =
    if ltb (offset + entry_size) (2 ^ 64) && leb (offset + entry_size) (length buf)
    then some (read_entry (take entry_size (drop offset buf)))
    else none

abbrev pub header_widths : List ℕ
header_widths = 4 ∷ 4 ∷ []

-- `TableHeader::ref_from_prefix`: the header and what follows it.
unfoldable pub read_header : Bytes → Option (TableHeader × Bytes)
read_header payload =
    let after_uuid : Bytes = drop 16 payload in
    let w : List ℕ = read_words header_widths after_uuid in
    if ltb (length payload) weather_header_size
    then none
    else some (
      record { uuid = take 16 payload; last_update = get_or w 0 0; nr_entries = get_or w 1 0 },
      drop 8 after_uuid,
    )

unfoldable pub entries_of : Bytes → List WeatherEntry
entries_of bytes =
    let count : ℕ = length bytes / entry_size in read_elems entry_size read_entry count bytes

unfoldable pub split_table : Bytes → Option (TableHeader × Bytes × Bytes)
split_table payload = do
  (header, after_header) ← read_header payload
  (entries, rest) ← carve entry_size header.nr_entries after_header
  some (header, entries, rest)

-- One call of `f`.
unfoldable pub event : TableHeader → Bytes → WeatherEvent
event header entry_bytes = record {
  uuid = record { bytes = header.uuid };
  last_update = header.last_update;
  entries = entries_of entry_bytes;
}

unfoldable pub round : Bytes → Option (WeatherEvent × Bytes)
round rest = do
  (header, entry_bytes, tail) ← split_table rest
  some (event header entry_bytes, tail)

unfoldable pub walk_weather : Bytes → Option (List WeatherEvent)
walk_weather payload = walk round payload

-- A table as the Miniserver sends it.
abbrev pub entry_words : WeatherEntry → List ℕ
entry_words e =
    e.timestamp ∷ e.weather_type ∷ e.wind_direction ∷ e.solar_radiation ∷ e.relative_humidity
    ∷ e.temperature ∷ e.perceived_temperature ∷ e.dew_point ∷ e.precipitation ∷ e.wind_speed
    ∷ e.barometric_pressure ∷ []

abbrev pub entry_bytes : WeatherEntry → Bytes
entry_bytes e = write_words entry_widths (entry_words e)

abbrev pub EntryFits : WeatherEntry → Type 0
EntryFits e = WordsFit entry_widths (entry_words e)

abbrev pub event_bytes : WeatherEvent → Bytes
event_bytes e =
    e.uuid.bytes
    ++ (write_words header_widths (e.last_update ∷ length e.entries ∷ [])
        ++ write_elems entry_bytes e.entries)

pub record EventFits (e : WeatherEvent) : Type 0 where
  pub uuid_len : length e.uuid.bytes ≡ 16
  pub update_range : e.last_update < 256 ^ 4
  pub count_range : length e.entries < 2 ^ 31
  pub entry_ranges : All EntryFits e.entries

abbrev pub table_bytes : List WeatherEvent → Bytes
table_bytes = write_elems event_bytes
