-- ===== src/Json.antt =====
-- What the client uses of the JSON crate: a parser and the accessors of a value.
use loxwebsocketclient_rs.Prelude.{ℕ, Bool, Option, Bytes}
use loxwebsocketclient_rs.Prelude.Int.{ℤ}

-- `from_slice`, `get` by a key, and the `as_` accessors.
pub record Json : Type 1 where
  pub Value : Type 0
  pub from_slice : Bytes → Option Value
  pub get : Bytes → Value → Option Value
  pub as_str : Value → Option Bytes
  pub as_u64 : Value → Option ℕ
  pub as_i64 : Value → Option ℤ
  pub as_bool : Value → Option Bool
  pub is_object : Value → Bool
