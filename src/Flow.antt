-- ===== src/Flow.antt =====
-- src/auth/flow.rs: the commands of the authentication, and what their answers say. A status is the
-- text that the Miniserver sends; the hints for logs are left out.
use loxwebsocketclient_rs.Prelude.{
  ℕ, Bool, not, ◌||◌, Option, none, some, [], ◌∷◌, ◌++◌, if◌then◌else◌, Bytes,
}
use loxwebsocketclient_rs.Prelude.Int.{ℤ, pos}
use loxwebsocketclient_rs.Error.{
  Error, json, protocol, auth, user_disabled, too_many_connections, Result, ok, err, ◌>>=◌, ok_or,
}
use loxwebsocketclient_rs.Str.{codes, bytes_eq}
use loxwebsocketclient_rs.Str.Decimal.{decimal, parse_i64}
use loxwebsocketclient_rs.Json.{Json}
use loxwebsocketclient_rs.Hash.{HashAlg, KeySalt, Digests, parse, hash_credentials, hash_token}
use loxwebsocketclient_rs.Token.{LxToken, wrap_i64}

pub data TokenPermission : Type 0 where
  web app : TokenPermission

unfoldable pub id : TokenPermission → ℕ
id web = 2
id app = 4

abbrev pub cmd_get_key : Bytes
cmd_get_key = codes "jdev/sys/getkey"

abbrev pub cmd_key_exchange : Bytes
cmd_key_exchange = codes "jdev/sys/keyexchange/"

abbrev pub cmd_enable_updates : Bytes
cmd_enable_updates = codes "jdev/sps/enablebinstatusupdate"

abbrev pub cmd_get_visual_passwd : Bytes
cmd_get_visual_passwd = codes "jdev/sys/getvisusalt/"

-- `{hash}/{user}` behind the verb.
abbrev pub hash_user : Bytes → Bytes → Bytes
hash_user token_hash username = token_hash ++ (b'/' ∷ username)

unfoldable pub cmd_getkey2 : Bytes → Bytes
cmd_getkey2 username = codes "jdev/sys/getkey2/" ++ username

unfoldable pub cmd_request_token : Bytes → Bytes → TokenPermission → Bytes → Bytes → Bytes
cmd_request_token cred_hash username permission client_uuid client_info =
    codes "jdev/sys/getjwt/"
    ++ (cred_hash
        ++ (b'/' ∷ username
            ++ (b'/' ∷ decimal (id permission) ++ (b'/' ∷ client_uuid ++ (b'/' ∷ client_info)))))

unfoldable pub cmd_auth_with_token : Bytes → Bytes → Bytes
cmd_auth_with_token token_hash username = codes "authwithtoken/" ++ hash_user token_hash username

unfoldable pub cmd_refresh_token : Bytes → Bytes → Bytes
cmd_refresh_token token_hash username =
    codes "jdev/sys/refreshjwt/" ++ hash_user token_hash username

unfoldable pub cmd_check_token : Bytes → Bytes → Bytes
cmd_check_token token_hash username = codes "jdev/sys/checktoken/" ++ hash_user token_hash username

unfoldable pub cmd_kill_token : Bytes → Bytes → Bytes
cmd_kill_token token_hash username = codes "jdev/sys/killtoken/" ++ hash_user token_hash username

unfoldable pub cmd_get_visu_salt : Bytes → Bytes
cmd_get_visu_salt username = cmd_get_visual_passwd ++ username

-- Whether a status says that the token is no longer usable.
unfoldable pub ll_status_invalidates_token : Bytes → Bool
ll_status_invalidates_token code = not (
    bytes_eq code (codes "200")
    || (bytes_eq code (codes "423")
        || (bytes_eq code (codes "500")
            || (bytes_eq code (codes "503") || bytes_eq code (codes "901")))))

unfoldable pub ll_status_error : Bytes → Error
ll_status_error code =
    if bytes_eq code (codes "423")
    then user_disabled
    else if bytes_eq code (codes "901")
    then too_many_connections
    else auth

-- `or_else`, and `filter` for a text that is not empty.
abbrev pub or_else {ℓ} : {A : Type ℓ} → Option A → Option A → Option A
or_else (some a) other = some a
or_else none other = other

abbrev pub and_then {ℓ κ} : {A : Type ℓ} {B : Type κ} → (A → Option B) → Option A → Option B
and_then f none = none
and_then f (some a) = f a

abbrev pub unwrap_or {ℓ} : {A : Type ℓ} → A → Option A → A
unwrap_or d none = d
unwrap_or d (some a) = a

abbrev pub ok_of {ℓ} : {A : Type ℓ} → Result A → Option A
ok_of (ok a) = some a
ok_of (err e) = none

module _ (j : Json) where
  open j use {Value, from_slice, get, as_str, as_u64, as_i64}

  abbrev pub get_str : Bytes → Value → Option Bytes
  get_str key v = and_then as_str (get key v)

  unfoldable pub ll_status_code : Value → Option Bytes
  ll_status_code ll = or_else (get_str (codes "Code") ll) (get_str (codes "code") ll)

  unfoldable pub parse_json : Bytes → Result Value
  parse_json payload = ok_or json (from_slice payload)

  unfoldable pub require_ll_ok : Value → Result Value
  require_ll_ok root = ok_or protocol (get (codes "LL") root) >>= λ ll.
      let code : Bytes = unwrap_or [] (ll_status_code ll) in
      if bytes_eq code (codes "200") then ok ll else err (ll_status_error code)

  unfoldable pub payload_ll_status : Bytes → Option Bytes
  payload_ll_status payload =
      and_then (λ root. and_then ll_status_code (get (codes "LL") root))
        (ok_of (parse_json payload))

  -- The value of an answer whose status is 200.
  unfoldable pub ll_value : Bytes → Result Value
  ll_value payload = parse_json payload >>= λ root.
      require_ll_ok root >>= λ ll. ok_or protocol (get (codes "value") ll)

  -- `KeySalt::from_ll_value` of src/crypto/hash.rs.
  unfoldable pub from_ll_value : Value → Result KeySalt
  from_ll_value value = ok_or protocol (get_str (codes "key") value) >>= λ key.
      ok_or protocol (get_str (codes "salt") value) >>= λ salt.
      parse (unwrap_or (codes "SHA1") (get_str (codes "hashAlg") value)) >>= λ alg.
      ok (record { key_hex = key; salt = salt; hash_alg = alg })

  unfoldable pub parse_key_salt : Bytes → Result KeySalt
  parse_key_salt payload = ll_value payload >>= from_ll_value

  -- `u as i64` wraps.
  unfoldable pub read_valid_until : Value → Result ℤ
  read_valid_until value = ok_or auth (
      and_then
        (λ v. or_else (as_i64 v) (
          or_else (and_then (λ u. some (wrap_i64 (pos u))) (as_u64 v))
            (and_then parse_i64 (as_str v))))
        (get (codes "validUntil") value))

  unfoldable pub parse_token_response : Bytes → HashAlg → Result LxToken
  parse_token_response payload alg = ll_value payload >>= λ value.
      read_valid_until value >>= λ valid_until. ok (record {
        token = unwrap_or [] (get_str (codes "token") value);
        valid_until = valid_until;
        hash_alg = alg;
      })

  -- An empty `token` leaves the old one.
  abbrev pub with_text : Option Bytes → LxToken → LxToken
  with_text none t = t
  with_text (some []) t = t
  with_text (some (c ∷ cs)) t = record t { token = c ∷ cs }

  unfoldable pub apply_valid_until : LxToken → Bytes → Result LxToken
  apply_valid_until t payload = ll_value payload >>= λ value.
      read_valid_until value >>= λ valid_until.
      ok (with_text (get_str (codes "token") value) (record t { valid_until = valid_until }))

  unfoldable pub parse_getkey_value : Bytes → Result Bytes
  parse_getkey_value payload = parse_json payload >>= λ root.
      require_ll_ok root >>= λ ll. ok_or protocol (get_str (codes "value") ll)

  module _ (d : Digests) where
    unfoldable pub build_acquire_token_cmd :
        Bytes → Bytes → Bytes → TokenPermission → Bytes → Bytes → Result (Bytes × HashAlg)
    build_acquire_token_cmd getkey2_payload username password permission client_uuid client_info =
        parse_key_salt getkey2_payload >>= λ ks. hash_credentials d ks password username >>= λ cred.
        ok (cmd_request_token cred username permission client_uuid client_info, ks.hash_alg)

    unfoldable pub build_token_hash : Bytes → LxToken → Result Bytes
    build_token_hash getkey_payload token =
        parse_getkey_value getkey_payload >>= λ key. hash_token d token.hash_alg key token.token
