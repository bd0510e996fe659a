-- ===== src/Proto/Value.antt =====
-- src/proto/value.rs: the type-2 table of value states.
use loxwebsocketclient_rs.Prelude.{
  ℕ, ◌/◌, ◌^◌, ◌<◌, ◌≡◌, ap, ◌∙◌, arith, List, ◌++◌, length, take, drop, take_prefix, drop_prefix,
  length-append, All, Bytes, from_le_bytes, to_le_bytes, from_le_bytes-to_le_bytes,
}
use loxwebsocketclient_rs.Uuid.{LoxoneUuid}
use loxwebsocketclient_rs.Proto.Elems.{
  read_elems, write_elems, Layout, length-write_elems, read_elems-write_elems,
}

abbrev pub value_record_size : ℕ
value_record_size = 24

pub record ValueRecord : Type 0 where
  pub uuid : LoxoneUuid
  pub value : ℕ

-- The fields of 24 bytes.
abbrev pub read_record : Bytes → ValueRecord
read_record b = record {
  uuid = record { bytes = take 16 b };
  value = from_le_bytes (take 8 (drop 16 b));
}

-- The calls of `f`, in order.
unfoldable pub walk_values : Bytes → List ValueRecord
unfolding read_elems
walk_values payload =
    let count : ℕ = length payload / value_record_size in
    read_elems value_record_size read_record count payload

-- A record as the Miniserver sends it.
abbrev pub record_bytes : ValueRecord → Bytes
record_bytes r = r.uuid.bytes ++ to_le_bytes 8 r.value

abbrev pub RecordFits : ValueRecord → Type 0
RecordFits r = (length r.uuid.bytes ≡ 16) × (r.value < 256 ^ 8)

read-record_bytes : (r : ValueRecord) → RecordFits r → read_record (record_bytes r) ≡ r
read-record_bytes r (u, v) = rw (
  take_prefix 16 r.uuid.bytes (to_le_bytes 8 r.value) u,
  drop_prefix 16 r.uuid.bytes (to_le_bytes 8 r.value) u,
  from_le_bytes-to_le_bytes 8 r.value v,
)

record_layout : Layout ValueRecord
record_layout = record {
  size = value_record_size;
  read = read_record;
  write = record_bytes;
  Fits = RecordFits;
  length-write = λ r f. omega (arith, length-append r.uuid.bytes (to_le_bytes 8 r.value), f.0);
  read-write = read-record_bytes;
}

abbrev pub table_bytes : List ValueRecord → Bytes
table_bytes = write_elems record_bytes

-- Every record that was sent, with fields of the wire's widths, is delivered, in order and once;
-- fewer bytes than a record has, behind the last whole one, are ignored.
pub walk_values-table_bytes :
    (rs : List ValueRecord) (tail : Bytes)
    → All RecordFits rs
    → length tail < value_record_size
    → walk_values (table_bytes rs ++ tail) ≡ rs
unfolding walk_values record_layout
walk_values-table_bytes rs tail h short =
    ap (λ n. read_elems 24 read_record n (table_bytes rs ++ tail)) count
    ∙ read_elems-write_elems record_layout rs tail h
  where
    count : length (table_bytes rs ++ tail) / value_record_size ≡ length rs
    count =
        omega (arith, length-append (table_bytes rs) tail, length-write_elems record_layout rs h)
