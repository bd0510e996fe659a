-- ===== src/Token.antt =====
-- src/auth/token.rs: a token and when it expires. An i64 is an integer in range, and its sums wrap as
-- in a release build; the clock is an argument.
use loxwebsocketclient_rs.Prelude.{
  ℕ, ◌-◌, ◌%◌, ◌^◌, Bool, true, false, [], ◌∷◌, ltb, if◌then◌else◌, Bytes,
}
use loxwebsocketclient_rs.Prelude.Int.{ℤ, pos, negsuc, ◌+ℤ◌, ◌-ℤ◌}
use loxwebsocketclient_rs.Hash.{HashAlg, sha1}

abbrev pub loxone_epoch : ℕ
loxone_epoch = 1230768000

pub record LxToken : Type 0 where
  pub token : Bytes
  pub valid_until : ℤ
  pub hash_alg : HashAlg

abbrev pub empty_token : LxToken
empty_token = record { token = []; valid_until = pos 0; hash_alg = sha1 }

unfoldable pub is_empty : LxToken → Bool
is_empty t = elim t.token [ [] ↦ true | c ∷ cs ↦ false ]

-- The i64 with the low 64 bits of an integer.
unfoldable pub wrap_i64 : ℤ → ℤ
wrap_i64 (pos n) =
    let low : ℕ = n % 2 ^ 64 in if ltb low (2 ^ 63) then pos low else negsuc (2 ^ 64 - 1 - low)
wrap_i64 (negsuc n) =
    let low : ℕ = n % 2 ^ 64 in if ltb low (2 ^ 63) then negsuc low else pos (2 ^ 64 - 1 - low)

-- `(LOXONE_EPOCH + self.valid_until) - now`.
unfoldable pub seconds_to_expire : ℕ → LxToken → ℤ
seconds_to_expire now t = wrap_i64 (wrap_i64 (pos loxone_epoch +ℤ t.valid_until) -ℤ pos now)

unfoldable pub clear : LxToken → LxToken
clear t = record t { token = []; valid_until = pos 0 }
