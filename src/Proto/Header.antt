-- ===== src/Proto/Header.antt =====
-- src/proto/header.rs: the 8-byte message header.
use Prim.Native.Nat.{bit_and}
use loxwebsocketclient_rs.Prelude.{
  ℕ, ◌≡◌, ◌↔◌, refl, sym, ap, suc, ◌∙◌, arith, Bool, not, Option, none, some, [], ◌∷◌, length,
  get_or, ◌==◌, if◌then◌else◌, Bytes, from_le_bytes, tabulate-get_or,
}
use loxwebsocketclient_rs.Error.{Result, ok}

pub data MessageType : Type 0 where
  text binary_file value_states text_states daytimer_states : MessageType
  out_of_service keepalive weather_states : MessageType

unfoldable pub from_u8 : ℕ → Option MessageType
from_u8 v =
    if v == 0
    then some text
    else if v == 1
    then some binary_file
    else if v == 2
    then some value_states
    else if v == 3
    then some text_states
    else if v == 4
    then some daytimer_states
    else if v == 5
    then some out_of_service
    else if v == 6
    then some keepalive
    else if v == 7
    then some weather_states
    else none

-- `MessageType::T as u8`.
abbrev pub to_u8 : MessageType → ℕ
to_u8 text = 0
to_u8 binary_file = 1
to_u8 value_states = 2
to_u8 text_states = 3
to_u8 daytimer_states = 4
to_u8 out_of_service = 5
to_u8 keepalive = 6
to_u8 weather_states = 7

pub record WsBinHdr : Type 0 where
  pub bin_type : ℕ
  pub identifier : ℕ
  pub info : ℕ
  pub reserved : ℕ
  pub len : Bytes

abbrev pub header_size : ℕ
header_size = 8

abbrev pub magic : ℕ
magic = 0x03

abbrev pub info_estimated : ℕ
info_estimated = 0x01

unfoldable pub payload_len : WsBinHdr → ℕ
payload_len h = from_le_bytes h.len

unfoldable pub is_estimated : WsBinHdr → Bool
is_estimated h = not (bit_and h.info info_estimated == 0)

unfoldable pub message_type : WsBinHdr → Option MessageType
unfolding from_u8
message_type h = from_u8 h.identifier

-- The fields of eight bytes, in wire order.
abbrev read_header : Bytes → WsBinHdr
read_header buf = record {
  bin_type = get_or buf 0 0;
  identifier = get_or buf 1 0;
  info = get_or buf 2 0;
  reserved = get_or buf 3 0;
  len = get_or buf 4 0 ∷ get_or buf 5 0 ∷ get_or buf 6 0 ∷ get_or buf 7 0 ∷ [];
}

unfoldable pub parse_header : Bytes → Result (Option WsBinHdr)
parse_header buf =
    if not (length buf == header_size)
    then ok none
    else let hdr = read_header buf in if not (hdr.bin_type == magic) then ok none else ok (some hdr)

-- The wire form of a header.
abbrev pub header_bytes : WsBinHdr → Bytes
header_bytes h = h.bin_type ∷ h.identifier ∷ h.info ∷ h.reserved ∷ h.len

header_of :
    (buf : Bytes) (h : WsBinHdr)
    → parse_header buf ≡ ok (some h)
    → (length buf ≡ 8) × (read_header buf ≡ h) × (get_or buf 0 0 ≡ 3)
unfolding parse_header
header_of buf h e = ground arith

parse_header_bytes :
    (h : WsBinHdr)
    → h.bin_type ≡ magic
    → length h.len ≡ 4
    → parse_header (header_bytes h) ≡ ok (some h)
unfolding parse_header
parse_header_bytes h m l =
    rw (ap (λ (n : ℕ). suc (suc (suc (suc n)))) l, m)
      (ap (λ len. ok (some (record h { bin_type = 3; len = len }))) (tabulate-get_or 4 h.len 0 l))

-- The parser finds a header exactly where the bytes are the wire form of one with the magic byte and
-- a four-byte length, and it finds that one.
pub parse_header_iff :
    (buf : Bytes) (h : WsBinHdr)
    → (parse_header buf ≡ ok (some h))
      ↔ ((buf ≡ header_bytes h) × (h.bin_type ≡ magic) × (length h.len ≡ 4))
unfolding parse_header
parse_header_iff buf h = (found, wire)
  where
    found :
        parse_header buf ≡ ok (some h)
        → (buf ≡ header_bytes h) × (h.bin_type ≡ magic) × (length h.len ≡ 4)
    found e =
        let (l, r, m) = header_of buf h e in
        (sym (tabulate-get_or 8 buf 0 l) ∙ ap header_bytes r, rw (← r) m, rw (← r) refl)

    wire :
        (buf ≡ header_bytes h) × (h.bin_type ≡ magic) × (length h.len ≡ 4)
        → parse_header buf ≡ ok (some h)
    wire (e, m, l) = rw e (parse_header_bytes h m l)

from_u8-to_u8 : (t : MessageType) → from_u8 (to_u8 t) ≡ some t
unfolding from_u8
from_u8-to_u8 text = refl
from_u8-to_u8 _ = refl

-- The wire codes of the eight message types are read back, and no other byte has a type.
pub from_u8_iff : (v : ℕ) (t : MessageType) → (from_u8 v ≡ some t) ↔ (to_u8 t ≡ v)
unfolding from_u8
from_u8_iff v t = (λ e. ground arith, λ e. rw (← e) (from_u8-to_u8 t))
