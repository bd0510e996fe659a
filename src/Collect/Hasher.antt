-- ===== src/Collect/Hasher.antt =====
-- src/collect.rs, LoxHasher, and the hash of a UUID in src/uuid.rs, as on a little-endian machine.
use Prim.Native.Nat.{bit_xor}
use loxwebsocketclient_rs.Prelude.{
  ℕ, zero, suc, ◌+◌, ◌*◌, ◌/◌, ◌%◌, ◌^◌, [], ◌∷◌, ◌++◌, take, drop, length, replicate, ◌-◌, Bytes,
  from_le_bytes,
}
use loxwebsocketclient_rs.Uuid.{LoxoneUuid}

abbrev pub seed : ℕ
seed = 0x51_7c_c1_b7_27_22_0a_95

-- `h.rotate_left(5)` of 64 bits.
unfoldable pub rotate_left_5 : ℕ → ℕ
rotate_left_5 h = h % 2 ^ 59 * 2 ^ 5 + h / 2 ^ 59

-- The hasher is the word `hash`.
unfoldable pub add : ℕ → ℕ → ℕ
add hash word = bit_xor (rotate_left_5 hash) word * seed % 2 ^ 64

abbrev pub write_rest : ℕ → Bytes → ℕ
write_rest hash [] = hash
write_rest hash (b ∷ bs) = add hash (from_le_bytes ((b ∷ bs) ++ replicate (7 - length bs) 0))

-- `as_chunks::<8>`, of so many chunks.
unfoldable pub write_chunks : ℕ → ℕ → Bytes → ℕ
write_chunks zero hash bytes = write_rest hash bytes
write_chunks (suc n) hash bytes =
    write_chunks n (add hash (from_le_bytes (take 8 bytes))) (drop 8 bytes)

unfoldable pub write : ℕ → Bytes → ℕ
write hash bytes = write_chunks (length bytes / 8) hash bytes

unfoldable pub write_u64 : ℕ → ℕ → ℕ
write_u64 hash n = add hash n

unfoldable pub as_u64_pair : LoxoneUuid → ℕ × ℕ
as_u64_pair u = (from_le_bytes (take 8 u.bytes), from_le_bytes (take 8 (drop 8 u.bytes)))

unfoldable pub hash_uuid : LoxoneUuid → ℕ
hash_uuid u = let (lo, hi) = as_u64_pair u in write_u64 (write_u64 0 lo) hi
