-- ===== src/Proto/Runs.antt =====
-- Concrete runs, and the theorems at concrete inputs.
use mathlib.Core.Option
use loxwebsocketclient_rs.Prelude.{ℕ, ◌≡◌, refl, arith, some, [], ◌∷◌, ◌++◌, replicate, to_le_bytes}
use loxwebsocketclient_rs.Uuid.{LoxoneUuid}
use loxwebsocketclient_rs.Proto.Header.{WsBinHdr}
use loxwebsocketclient_rs.Proto.Value.{ValueRecord}
use loxwebsocketclient_rs.Proto.Text.{TextEvent, walk_texts, unpadded}
use loxwebsocketclient_rs.Proto.Text
use loxwebsocketclient_rs.Proto.Text.Walk.{walk_texts-table_bytes}
use loxwebsocketclient_rs.Proto.Daytimer.{
  DaytimerEntry, DaytimerEvent, walk_daytimers, RawCall, walk_daytimer_raw,
}
use loxwebsocketclient_rs.Proto.Daytimer
use loxwebsocketclient_rs.Proto.Daytimer.Walk.{
  walk_daytimers-table_bytes, walk_daytimers-Malformed, cut_header,
}
use loxwebsocketclient_rs.Proto.Weather.{WeatherEntry, WeatherEvent, walk_weather}
use loxwebsocketclient_rs.Proto.Weather

abbrev uuid : ℕ → LoxoneUuid
uuid n = record { bytes = replicate 16 n }

abbrev header : WsBinHdr
header = record { bin_type = 3; identifier = 2; info = 0; reserved = 0; len = to_le_bytes 4 48 }

abbrev value : ValueRecord
value = record { uuid = uuid 7; value = 1000 }

abbrev note : TextEvent
note = record { uuid = uuid 1; icon = uuid 2; text = b'h' ∷ b'i' ∷ [] }

note-EventFits : Text.EventFits note
note-EventFits = record { uuid_len = refl; icon_len = refl; text_len = omega arith }

abbrev slot : DaytimerEntry
slot = record { mode = 1; from_minutes = 480; to_minutes = 510; need_activate = 1; value = 21 }

abbrev timer : DaytimerEvent
timer = record { uuid = uuid 3; default_value = 5; entries = slot ∷ slot ∷ [] }

timer-EventFits : Daytimer.EventFits timer
timer-EventFits = record {
  uuid_len = refl;
  default_range = omega arith;
  count_range = omega arith;
  entry_ranges = omega arith;
}

abbrev hour : WeatherEntry
hour = record {
  timestamp = 1000;
  weather_type = 2;
  wind_direction = 180;
  solar_radiation = 500;
  relative_humidity = 70;
  temperature = 21;
  perceived_temperature = 20;
  dew_point = 10;
  precipitation = 0;
  wind_speed = 3;
  barometric_pressure = 1013;
}

abbrev forecast : WeatherEvent
forecast = record { uuid = uuid 4; last_update = 9; entries = hour ∷ [] }

forecast-EventFits : Weather.EventFits forecast
forecast-EventFits = record {
  uuid_len = refl;
  update_range = omega arith;
  count_range = omega arith;
  entry_ranges = omega arith;
}

walk_texts-table_bytes_example :
    walk_texts (Text.table_bytes (note ∷ []) ++ 1 ∷ 2 ∷ [])
    ≡ Option.map (◌++◌ (note ∷ [])) (walk_texts (1 ∷ 2 ∷ []))
walk_texts-table_bytes_example =
    walk_texts-table_bytes (note ∷ []) (1 ∷ 2 ∷ []) (note-EventFits, tt)

walk_daytimers-table_bytes_example :
    walk_daytimers (Daytimer.table_bytes (timer ∷ []) ++ 1 ∷ [])
    ≡ Option.map (◌++◌ (timer ∷ [])) (walk_daytimers (1 ∷ []))
walk_daytimers-table_bytes_example =
    walk_daytimers-table_bytes (timer ∷ []) (1 ∷ []) (timer-EventFits, tt)

walk_daytimers-Malformed_example :
    walk_daytimers (Daytimer.table_bytes (timer ∷ []) ++ 1 ∷ []) ≡ some (timer ∷ [])
walk_daytimers-Malformed_example =
    walk_daytimers-Malformed (timer ∷ []) (1 ∷ []) (timer-EventFits, tt) (cut_header (omega arith))
