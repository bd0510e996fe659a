-- ===== src/Session.antt =====
-- src/crypto/session.rs: session keys, the command salt and the salted, padded and encoded command.
-- AES, Base64 and percent-decoding are other crates' code and enter as `Primitives`. Time and random
-- bytes are arguments. The scratch buffers are values: each call clears what it leaves in them.
pub mod Salt
pub mod Chain
pub mod Wire
mod Runs
use mathlib.Core.List.{reverse}
use loxwebsocketclient_rs.Prelude.{
  ℕ, zero, suc, ◌+◌, ◌-◌, ◌*◌, ◌/◌, ◌%◌, ◌^◌, ◌≡◌, Bool, true, false, not, ◌&&◌, ◌||◌, Option, none,
  some, List, [], ◌∷◌, ◌++◌, ltb, ◌==◌, if◌then◌else◌, length, replicate, get_or, Bytes,
}
use loxwebsocketclient_rs.Error.{Error, crypto, Result, ok, err, ◌>>=◌, ok_or}
use loxwebsocketclient_rs.Str.{
  codes, bytes_eq, strip_prefix, starts_with, contains, split_once, drop_nuls, trim_end_nul,
}
use loxwebsocketclient_rs.Uuid.{digits}

abbrev pub aes_block_size : ℕ
aes_block_size = 16

abbrev pub salt_max_age_seconds : ℕ
salt_max_age_seconds = 60 * 60

abbrev pub salt_max_use_count : ℕ
salt_max_use_count = 30

abbrev pub cmd_encrypt : Bytes
cmd_encrypt = codes "jdev/sys/enc/"

-- What the session uses of other crates. The ciphers get the key, the IV and whole blocks.
pub record Primitives : Type 0 where
  pub cbc_encrypt : Bytes → Bytes → Bytes → Option Bytes
  pub cbc_decrypt : Bytes → Bytes → Bytes → Option Bytes
  pub b64_encode : Bytes → Bytes
  pub b64_decode : Bytes → Option Bytes
  pub percent_decode : Bytes → Bytes
  pub is_utf8 : Bytes → Bool

pub record SessionKeys : Type 0 where
  pub key : Bytes
  pub iv : Bytes

-- `hex::encode`, lower case.
unfoldable pub hex_encode : Bytes → Bytes
hex_encode [] = []
hex_encode (b ∷ bs) = get_or digits (b / 16) 0 ∷ get_or digits (b % 16) 0 ∷ hex_encode bs

unfoldable pub session_payload : SessionKeys → Bytes
session_payload k = hex_encode k.key ++ (b':' ∷ hex_encode k.iv)

pub record SaltState : Type 0 where
  pub salt : Bytes
  pub salt_used_count : ℕ
  pub salt_time_stamp : ℕ

unfoldable pub new : SaltState
new = record { salt = []; salt_used_count = 0; salt_time_stamp = 0 }

-- What the clock and the random generator answer during one call.
pub record Env : Type 0 where
  pub now_secs : ℕ
  pub raw : Bytes

unfoldable pub reset : SaltState → SaltState
reset s = record { salt = []; salt_used_count = 0; salt_time_stamp = 0 }

unfoldable pub generate_salt : Env → SaltState → SaltState
generate_salt env s = record {
  salt = hex_encode env.raw;
  salt_used_count = 0;
  salt_time_stamp = env.now_secs;
}

-- `a.saturating_sub(b)` is the subtraction of ℕ. The counter is a u32.
unfoldable pub new_salt_needed : Env → SaltState → SaltState × Bool
new_salt_needed env s =
    let used : ℕ = (s.salt_used_count + 1) % 2 ^ 32 in
    (
      record s { salt_used_count = used },
      ltb salt_max_use_count used || ltb salt_max_age_seconds (env.now_secs - s.salt_time_stamp),
    )

abbrev pub is_empty : Bytes → Bool
is_empty [] = true
is_empty (x ∷ xs) = false

-- `nextSalt/{previous}/` or `salt/`, and the state behind it.
unfoldable pub salt_header : Env → SaltState → SaltState × Bytes
salt_header env s =
    if is_empty s.salt
    then (generate_salt env s, codes "salt/")
    else let (counted, needed) = new_salt_needed env s in
      if needed
      then (generate_salt env counted, codes "nextSalt/" ++ (s.salt ++ (b'/' ∷ [])))
      else (counted, codes "salt/")

-- The state after the call, and the scratch buffer.
unfoldable pub fill_salted_plaintext : Env → SaltState → Bytes → SaltState × Bytes
fill_salted_plaintext env s command =
    let (s', header) = salt_header env s in
    (s', header ++ (s'.salt ++ (b'/' ∷ command ++ (0 ∷ []))))

-- `scratch.resize(scratch.len().next_multiple_of(16), 0)`.
abbrev pub zero_pad : Bytes → Bytes
zero_pad data' =
    data' ++ replicate ((aes_block_size - length data' % aes_block_size) % aes_block_size) 0

-- Copies the runs between the escaped bytes.
unfoldable pub percent_encode_base64 : Bytes → Bytes
percent_encode_base64 [] = []
percent_encode_base64 (c ∷ cs) =
    (if c == b'+'
      then codes "%2B"
      else if c == b'/'
      then codes "%2F"
      else if c == b'='
      then codes "%3D"
      else c ∷ [])
    ++ percent_encode_base64 cs

-- `response.rsplit(CMD_ENCRYPT).next()`: what stands behind the last occurrence, or everything.
unfoldable pub after_last : Bytes → Bytes → Bytes
after_last pat [] = []
after_last pat (x ∷ xs) =
    let rest = after_last pat xs in
    if contains pat xs
    then rest
    else elim (strip_prefix pat (x ∷ xs)) [ none ↦ x ∷ xs | some tail ↦ tail ]

module _ (p : Primitives) where
  open p use {cbc_encrypt, cbc_decrypt, b64_encode, b64_decode, percent_decode, is_utf8}

  -- The Base64 text goes into a buffer of this length.
  abbrev pub b64_len : ℕ → ℕ
  b64_len padded = (padded + 2) / 3 * 4

  unfoldable pub seal : SessionKeys → Bytes → Result Bytes
  seal keys scratch = do
    cipher ← ok_or crypto (cbc_encrypt keys.key keys.iv (zero_pad scratch))
    let encoded = b64_encode cipher
    if ltb (b64_len (length (zero_pad scratch))) (length encoded)
        then err crypto
        else ok (cmd_encrypt ++ percent_encode_base64 encoded)

  unfoldable pub encrypt : SessionKeys → Env → SaltState → Bytes → SaltState × Result Bytes
  encrypt keys env s command =
      let (s', scratch) = fill_salted_plaintext env s command in (s', seal keys scratch)

  unfoldable pub aes_encrypt_zerobyte : Bytes → Bytes → Bytes → Result Bytes
  aes_encrypt_zerobyte key iv data' = ok_or crypto (cbc_encrypt key iv (zero_pad data'))

  unfoldable pub aes_decrypt_zerobyte : Bytes → Bytes → Bytes → Result Bytes
  aes_decrypt_zerobyte key iv data' =
      if length data' % 16 == 0
      then (ok_or crypto (cbc_decrypt key iv data') >>= λ buf. ok (trim_end_nul buf))
      else err crypto

  unfoldable pub decrypt_control_response : SessionKeys → Bytes → Result Bytes
  decrypt_control_response keys response =
      let decoded_pct : Bytes = percent_decode (after_last cmd_encrypt response) in
      if not (is_utf8 decoded_pct)
      then err crypto
      else (ok_or crypto (b64_decode decoded_pct) >>= λ encrypted.
          aes_decrypt_zerobyte keys.key keys.iv encrypted >>= λ plain.
          if is_utf8 plain then ok plain else err crypto)

-- The command behind one salt segment.
abbrev pub after_slash : Bytes → Option Bytes
after_slash s = elim (split_once b'/' s) [ none ↦ none | some (_, rest) ↦ some rest ]

abbrev pub unwrap_or : Bytes → Option Bytes → Bytes
unwrap_or d none = d
unwrap_or d (some s) = s

unfoldable pub strip_salts : Bytes → Bytes
strip_salts trimmed = elim (strip_prefix (codes "nextSalt/") trimmed) [
  | some rest ↦
      unwrap_or trimmed (elim (after_slash rest) [ none ↦ none | some second ↦ after_slash second ])
  | none ↦ elim (strip_prefix (codes "salt/") trimmed) [
    | some rest ↦ unwrap_or trimmed (after_slash rest)
    | none ↦ trimmed
  ]
]

unfoldable pub strip_salt_prefix : Bytes → Bytes
strip_salt_prefix plaintext = strip_salts (trim_end_nul plaintext)
