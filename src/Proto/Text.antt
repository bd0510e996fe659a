-- ===== src/Proto/Text.antt =====
-- src/proto/text.rs: the type-3 table of text states, records padded to a multiple of four bytes.
pub mod Walk
use mathlib.Core.Option
use loxwebsocketclient_rs.Prelude.{
  ℕ, zero, suc, ◌+◌, ◌-◌, ◌*◌, ◌/◌, ◌%◌, ◌^◌, ◌≤◌, ◌<◌, ◌≡◌, refl, ap, ◌∙◌, inl, inr, arith, false,
  Option, none, some, List, [], ◌∷◌, ◌++◌, append_assoc, append-nil, ltb, leb, if◌then◌else◌,
  lt→ltb, le→leb, Option-cases, length, take, drop, take_prefix, drop_prefix, length-append,
  length-take, length-drop, length-replicate, replicate, All, Bytes, from_le_bytes, to_le_bytes,
  length-to_le_bytes, from_le_bytes-to_le_bytes, get_to, get_from, get_to_prefix, get_from_prefix,
}
use loxwebsocketclient_rs.Uuid.{LoxoneUuid}
use loxwebsocketclient_rs.Proto.Elems.{write_elems}

abbrev pub text_header_size : ℕ
text_header_size = 36

pub record RecordHeader : Type 0 where
  pub uuid : Bytes
  pub uuid_icon : Bytes
  pub text_length : ℕ

-- `RecordHeader::ref_from_prefix`: the header and what follows it.
unfoldable pub read_header : Bytes → Option (RecordHeader × Bytes)
read_header rest =
    let after_uuid : Bytes = drop 16 rest in
    let after_icon : Bytes = drop 16 after_uuid in
    if ltb (length rest) text_header_size
    then none
    else some (
      record {
        uuid = take 16 rest;
        uuid_icon = take 16 after_uuid;
        text_length = from_le_bytes (take 4 after_icon);
      },
      drop 4 after_icon,
    )

-- One call of `f`.
pub record TextEvent : Type 0 where
  pub uuid : LoxoneUuid
  pub icon : LoxoneUuid
  pub text : Bytes

-- `(TEXT_HEADER_SIZE + text_len + 3) & !3`; the sum of a u32 and 39 does not wrap a 64-bit `usize`.
abbrev pub record_len : ℕ → ℕ
record_len text_len = (text_header_size + text_len + 3) / 4 * 4

abbrev event : RecordHeader → Bytes → TextEvent
event header text = record {
  uuid = record { bytes = header.uuid };
  icon = record { bytes = header.uuid_icon };
  text = text;
}

infixl 5 ◌>>=◌
abbrev ◌>>=◌ : {A B : Type 0} → Option A → (A → Option B) → Option B
none >>= f = none
some a >>= f = f a

-- The body of the loop: the call it makes, and the next position, if the loop goes on.
pub round : Bytes → Option (TextEvent × Option Bytes)
round rest = do
  (header, after_header) ← read_header rest
  text ← get_to header.text_length after_header
  some (event header text, get_from (record_len header.text_length) rest)

-- The `while let` loop, with fuel; `none` means that the fuel ran out.
pub text_loop : ℕ → Bytes → Option (List TextEvent)
text_loop zero rest = none
text_loop (suc fuel) rest = elim (round rest) [
  | none ↦ some []
  | some (e, none) ↦ some (e ∷ [])
  | some (e, some next) ↦ Option.map (◌∷◌ e) (text_loop fuel next)
]

-- Each round takes 36 bytes at least, so a round more than there are bytes is enough.
unfoldable pub walk_texts : Bytes → Option (List TextEvent)
unfolding text_loop round read_header
walk_texts payload = text_loop (suc (length payload)) payload

-- A record as the Miniserver sends it, and the zeros behind it.
abbrev pub unpadded : TextEvent → Bytes
unpadded e = e.uuid.bytes ++ (e.icon.bytes ++ (to_le_bytes 4 (length e.text) ++ e.text))

abbrev pub padding : TextEvent → Bytes
padding e = replicate ((4 - length e.text % 4) % 4) 0

abbrev pub padded : TextEvent → Bytes
padded e = unpadded e ++ padding e

pub record EventFits (e : TextEvent) : Type 0 where
  pub uuid_len : length e.uuid.bytes ≡ 16
  pub icon_len : length e.icon.bytes ≡ 16
  pub text_len : length e.text < 256 ^ 4

abbrev pub table_bytes : List TextEvent → Bytes
table_bytes = write_elems padded
