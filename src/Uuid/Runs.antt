-- ===== src/Uuid/Runs.antt =====
-- Concrete runs, and the theorems at concrete inputs.
use loxwebsocketclient_rs.Prelude.{
  ◌+◌, ◌≡◌, ◌↔◌, refl, arith, [], ◌∷◌, ◌++◌, replicate, tabulate, Bytes,
}
use loxwebsocketclient_rs.Error.{ok}
use loxwebsocketclient_rs.Uuid.{LoxoneUuid, IsUuid, build_hex_lut, format_loxone_bytes, parse}
use loxwebsocketclient_rs.Uuid.RoundTrip.{parse-format}
use loxwebsocketclient_rs.Uuid.Accepts.{IsText, count, parse-ok_iff}

abbrev sample : LoxoneUuid
sample = record { bytes = tabulate 16 (λ i. i + 200) }

sample-IsUuid : IsUuid sample
sample-IsUuid = record { len = refl; range = omega arith }

abbrev zeros : Bytes
zeros = replicate 8 b'0' ++ b'-' ∷ replicate 24 b'0'

format_sample :
    format_loxone_bytes sample
    ≡ b'c' ∷ b'b' ∷ b'c' ∷ b'a' ∷ b'c' ∷ b'9' ∷ b'c' ∷ b'8' ∷ b'-' ∷ b'c' ∷ b'd' ∷ b'c' ∷ b'c'
      ∷ b'-' ∷ b'c' ∷ b'f' ∷ b'c' ∷ b'e' ∷ b'-' ∷ b'd' ∷ b'0' ∷ b'd' ∷ b'1' ∷ b'd' ∷ b'2' ∷ b'd'
      ∷ b'3' ∷ b'd' ∷ b'4' ∷ b'd' ∷ b'5' ∷ b'd' ∷ b'6' ∷ b'd' ∷ b'7' ∷ []
unfolding format_loxone_bytes build_hex_lut
format_sample = refl

parse-format_example : parse (format_loxone_bytes sample) ≡ ok sample
parse-format_example = parse-format sample sample-IsUuid

parse-ok_iff_example :
    ((u : LoxoneUuid) × (parse zeros ≡ ok u)) ↔ (IsText zeros × (count zeros ≡ 32))
parse-ok_iff_example = parse-ok_iff zeros
