-- ===== src/Hash.antt =====
-- src/crypto/hash.rs: which algorithm, and what is hashed. The digests and the hex codec are other
-- crates' code and enter as `Digests`; an HMAC refuses some keys, as the crate's signature allows.
use loxwebsocketclient_rs.Prelude.{Option, ◌∷◌, ◌++◌, if◌then◌else◌, Bytes}
use loxwebsocketclient_rs.Error.{crypto, Result, ok, err, ◌>>=◌, ok_or}
use loxwebsocketclient_rs.Str.{codes, bytes_eq}

pub data HashAlg : Type 0 where
  sha1 sha256 : HashAlg

unfoldable pub parse : Bytes → Result HashAlg
parse s =
    if bytes_eq s (codes "SHA1")
    then ok sha1
    else if bytes_eq s (codes "SHA256")
    then ok sha256
    else err crypto

unfoldable pub as_str : HashAlg → Bytes
as_str sha1 = codes "SHA1"
as_str sha256 = codes "SHA256"

pub record KeySalt : Type 0 where
  pub key_hex : Bytes
  pub salt : Bytes
  pub hash_alg : HashAlg

-- `encode_upper` and `encode` are those of the crate `hex`, and so is `decode`.
pub record Digests : Type 0 where
  pub digest : HashAlg → Bytes → Bytes
  pub hmac : HashAlg → Bytes → Bytes → Option Bytes
  pub encode_upper : Bytes → Bytes
  pub encode : Bytes → Bytes
  pub decode : Bytes → Option Bytes

module _ (d : Digests) where
  unfoldable pub password_hash : HashAlg → Bytes → Bytes → Bytes
  password_hash alg password user_salt =
      d.encode_upper (d.digest alg (password ++ (b':' ∷ user_salt)))

  unfoldable pub hmac_hex : HashAlg → Bytes → Bytes → Result Bytes
  hmac_hex alg key data' = ok_or crypto (d.hmac alg key data') >>= λ mac. ok (d.encode mac)

  unfoldable pub hash_credentials : KeySalt → Bytes → Bytes → Result Bytes
  hash_credentials ks password username =
      let pw_hash = password_hash ks.hash_alg password ks.salt in
      ok_or crypto (d.decode ks.key_hex) >>= λ key.
      hmac_hex ks.hash_alg key (username ++ (b':' ∷ pw_hash))

  unfoldable pub hash_visu_password : KeySalt → Bytes → Result Bytes
  hash_visu_password ks visu_pw =
      let pw_hash = password_hash ks.hash_alg visu_pw ks.salt in
      ok_or crypto (d.decode ks.key_hex) >>= λ key. hmac_hex ks.hash_alg key pw_hash

  unfoldable pub hash_token : HashAlg → Bytes → Bytes → Result Bytes
  hash_token alg key_hex token = ok_or crypto (d.decode key_hex) >>= λ key. hmac_hex alg key token
