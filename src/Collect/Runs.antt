-- ===== src/Collect/Runs.antt =====
-- A collected table of two records of one UUID.
use loxwebsocketclient_rs.Prelude.{
  ℕ, ◌≡◌, ◌≢◌, inl, ap, get_or, refl, arith, ◌++◌, replicate, Bytes, to_le_bytes,
}
use loxwebsocketclient_rs.Uuid.{LoxoneUuid, IsUuid, format_loxone_bytes}
use loxwebsocketclient_rs.Proto.Value.{walk_values}
use loxwebsocketclient_rs.Collect.{get, collect_values, collect_values_by_name}
use loxwebsocketclient_rs.Collect.Hasher.{add, write, write_chunks, hash_uuid}
use loxwebsocketclient_rs.Collect.Distinct.{hash_uuid-differs}
use loxwebsocketclient_rs.Collect.Last.{get-collect_values_by_name}

abbrev light : LoxoneUuid
light = record { bytes = replicate 16 7 }

light-IsUuid : IsUuid light
light-IsUuid = record { len = refl; range = omega arith }

abbrev table : Bytes
table = light.bytes ++ (to_le_bytes 8 1 ++ (light.bytes ++ to_le_bytes 8 2))

get-collect_values_by_name_example :
    get (format_loxone_bytes light) (collect_values_by_name table)
    ≡ get light.bytes (collect_values table)
unfolding walk_values
get-collect_values_by_name_example =
    get-collect_values_by_name light table light-IsUuid (light-IsUuid, (light-IsUuid, tt))

abbrev other : LoxoneUuid
other = record { bytes = replicate 8 7 ++ replicate 8 9 }

other-IsUuid : IsUuid other
other-IsUuid = record { len = refl; range = omega arith }

light-other : light.bytes ≢ other.bytes
light-other e = let last : ◌≡◌ {A = ℕ} 7 9 = ap (λ (b : Bytes). get_or b 15 0) e in omega arith

hash_uuid-differs_example : hash_uuid light ≢ hash_uuid other
hash_uuid-differs_example =
    hash_uuid-differs light other light-IsUuid other-IsUuid (inl refl) light-other

-- A word of eight bytes, and three bytes more.
write-eleven : write 0 (replicate 11 1) ≡ add (add 0 0x0101010101010101) 0x010101
unfolding write write_chunks
write-eleven = refl
