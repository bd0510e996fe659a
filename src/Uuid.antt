-- ===== src/Uuid.antt =====
-- src/uuid.rs: the 16 wire bytes of a Loxone UUID, their string form `8-4-4-16`, and the parser.
-- A text is the list of its bytes. An array is a list of a fixed length.
pub mod Hex
pub mod RoundTrip
pub mod Accepts
mod Runs
use Prim.Native.Nat.{bit_or}
use loxwebsocketclient_rs.Prelude.{
  ℕ, zero, suc, ◌+◌, ◌-◌, ◌*◌, ◌/◌, ◌%◌, ◌≤◌, ◌≡◌, ◌^◌, Bool, true, false, ◌&&◌, Option, none, some,
  List, [], ◌∷◌, ltb, leb, ◌==◌, if◌then◌else◌, length, get_or, set, take, drop, replicate, All,
  Bytes, IsByte, get_to, get_from,
}
use loxwebsocketclient_rs.Error.{Result, ok, err, ◌>>=◌, ok_or, invalid_uuid}

abbrev pub loxone_uuid_str_len : ℕ
loxone_uuid_str_len = 35

-- "0123456789abcdef"
abbrev pub digits : Bytes
digits =
    b'0' ∷ b'1' ∷ b'2' ∷ b'3' ∷ b'4' ∷ b'5' ∷ b'6' ∷ b'7' ∷ b'8' ∷ b'9' ∷ b'a' ∷ b'b' ∷ b'c' ∷ b'd'
    ∷ b'e' ∷ b'f' ∷ []

-- The `while byte < 256` loop, by the rounds that are left.
pub lut_loop : ℕ → ℕ → Bytes → Bytes
lut_loop zero byte lut = lut
lut_loop (suc rounds) byte lut = lut_loop rounds (byte + 1) (
    set (set lut (byte * 2) (get_or digits (byte / 16) 0)) (byte * 2 + 1)
      (get_or digits (byte % 16) 0))

unfoldable pub build_hex_lut : Bytes
unfolding lut_loop
build_hex_lut = lut_loop 256 0 (replicate 512 0)

unfoldable pub put_hex : Bytes → ℕ → ℕ → Bytes
put_hex out at byte =
    let i : ℕ = byte * 2 in
    set (set out at (get_or build_hex_lut i 0)) (at + 1) (get_or build_hex_lut (i + 1) 0)

pub record LoxoneUuid : Type 0 where
  pub bytes : Bytes

-- What the type `[u8; 16]` gives.
pub record IsUuid (u : LoxoneUuid) : Type 0 where
  pub len : length u.bytes ≡ 16
  pub range : All IsByte u.bytes

-- `while src < 16`, by the rounds that are left.
unfoldable pub tail_loop : ℕ → Bytes → ℕ → ℕ → Bytes → Bytes
tail_loop zero b src dst out = out
tail_loop (suc rounds) b src dst out =
    tail_loop rounds b (src + 1) (dst + 2) (put_hex out dst (get_or b src 0))

unfoldable pub format_loxone_bytes : LoxoneUuid → Bytes
unfolding put_hex tail_loop
format_loxone_bytes u =
    let b = u.bytes in
    let out0 : Bytes = replicate loxone_uuid_str_len b'-' in
    let out1 : Bytes = put_hex out0 0 (get_or b 3 0) in
    let out2 : Bytes = put_hex out1 2 (get_or b 2 0) in
    let out3 : Bytes = put_hex out2 4 (get_or b 1 0) in
    let out4 : Bytes = put_hex out3 6 (get_or b 0 0) in
    let out5 : Bytes = put_hex out4 9 (get_or b 5 0) in
    let out6 : Bytes = put_hex out5 11 (get_or b 4 0) in
    let out7 : Bytes = put_hex out6 14 (get_or b 7 0) in
    let out8 : Bytes = put_hex out7 16 (get_or b 6 0) in tail_loop 8 b 8 19 out8

-- The value of a hex digit of either case.
unfoldable pub hex_value : ℕ → Option ℕ
hex_value c =
    if leb b'0' c && leb c b'9'
    then some (c - b'0')
    else if leb b'a' c && leb c b'f'
    then some (c - b'a' + 10)
    else if leb b'A' c && leb c b'F'
    then some (c - b'A' + 10)
    else none

pub record ParseState : Type 0 where
  pub raw : Bytes
  pub nibbles : ℕ

abbrev pub start : ParseState
start = record { raw = replicate 16 0; nibbles = 0 }

unfoldable pub store_nibble : ParseState → ℕ → Result ParseState
store_nibble s v =
    let i : ℕ = s.nibbles / 2 in
    if leb 32 s.nibbles
    then err invalid_uuid
    else ok (record {
      raw = set s.raw i (if s.nibbles % 2 == 0 then v * 16 % 256 else bit_or (get_or s.raw i 0) v);
      nibbles = s.nibbles + 1;
    })

-- One round of the loop over the bytes.
unfoldable pub parse_step : ParseState → ℕ → Result ParseState
parse_step s c =
    if c == b'-' then ok s else (ok_or invalid_uuid (hex_value c) >>= λ v. store_nibble s v)

unfoldable pub parse_loop : ParseState → Bytes → Result ParseState
parse_loop s [] = ok s
parse_loop s (c ∷ cs) = parse_step s c >>= λ s'. parse_loop s' cs

-- data1, data2 and data3 are little-endian on the wire.
unfoldable pub reorder : Bytes → Bytes
reorder raw =
    get_or raw 3 0
    ∷ get_or raw 2 0
    ∷ get_or raw 1 0
    ∷ get_or raw 0 0
    ∷ get_or raw 5 0
    ∷ get_or raw 4 0
    ∷ get_or raw 7 0
    ∷ get_or raw 6 0
    ∷ get_or raw 8 0
    ∷ get_or raw 9 0
    ∷ get_or raw 10 0
    ∷ get_or raw 11 0
    ∷ get_or raw 12 0
    ∷ get_or raw 13 0
    ∷ get_or raw 14 0
    ∷ get_or raw 15 0
    ∷ []

unfoldable pub finish : ParseState → Result LoxoneUuid
finish s = if s.nibbles == 32 then ok (record { bytes = reorder s.raw }) else err invalid_uuid

unfoldable pub parse : Bytes → Result LoxoneUuid
parse s = parse_loop start s >>= finish

-- `offset.checked_add(16)?` on a 64-bit `usize`, then `buf.get(offset..end)?`.
unfoldable pub read_at : Bytes → ℕ → Option LoxoneUuid
read_at buf offset =
    if ltb (offset + 16) (2 ^ 64) && leb (offset + 16) (length buf)
    then some (record { bytes = take 16 (drop offset buf) })
    else none
