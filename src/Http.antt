-- ===== src/Http.antt =====
-- src/client/http.rs and src/crypto/rsa_key.rs: what the client asks over HTTP before a session, and
-- how it reads the answers. A request is the parameter `get`: the status and the body, or an error.
pub mod Probe
pub mod Pem
mod Runs
use loxwebsocketclient_rs.Prelude.{
  ℕ, zero, suc, Bool, true, false, not, ◌&&◌, Option, none, some, List, [], ◌∷◌, ◌++◌, map, ltb,
  ◌==◌, if◌then◌else◌, Bytes,
}
use loxwebsocketclient_rs.Error.{Error, json, protocol, http_status, Result, ok, err, ◌>>=◌, ok_or}
use loxwebsocketclient_rs.Str.{codes, bytes_eq, contains, trim}
use loxwebsocketclient_rs.Str.Decimal.{decimal, parse_dec}
use loxwebsocketclient_rs.Json.{Json}
use loxwebsocketclient_rs.Flow.{or_else, and_then, ok_of, ll_status_code, parse_json}
use loxwebsocketclient_rs.Tls.{Certificates, TlsContext, spki_sha256_from_pem_chain, adopt_spki}
use loxwebsocketclient_rs.Http.Pem.{normalize_public_key_pem}

pub record ApiInfo : Type 0 where
  pub snr : Option Bytes
  pub version : Option Bytes
  pub https_status : Option ℕ
  pub local : Option Bool
  pub has_event_slots : Option Bool

unfoldable pub fill_from : ApiInfo → ApiInfo → ApiInfo
fill_from other info = record {
  snr = or_else info.snr other.snr;
  version = or_else info.version other.version;
  https_status = or_else info.https_status other.https_status;
  local = or_else info.local other.local;
  has_event_slots = or_else info.has_event_slots other.has_event_slots;
}

abbrev pub not_empty : Bytes → Option Bytes
not_empty [] = none
not_empty (c ∷ cs) = some (c ∷ cs)

-- `s.parse::<u64>()`, with an optional sign.
unfoldable pub parse_u64 : Bytes → Option ℕ
parse_u64 [] = none
parse_u64 (c ∷ cs) =
    and_then (λ n. if ltb n 0x10000000000000000 then some n else none)
      (if c == b'+' then parse_dec cs else parse_dec (c ∷ cs))

abbrev pub as_u8 : ℕ → Option ℕ
as_u8 n = if ltb n 256 then some n else none

unfoldable pub bool_text : Bytes → Option Bool
bool_text s =
    if bytes_eq s (codes "true")
    then some true
    else if bytes_eq s (codes "1")
    then some true
    else if bytes_eq s (codes "false")
    then some false
    else if bytes_eq s (codes "0")
    then some false
    else none

-- `raw.replace('\'', "\"")`.
abbrev pub double_quotes : Bytes → Bytes
double_quotes raw = map (λ c. if c == 39 then 34 else c) raw

module _ (j : Json) where
  open j use {Value, from_slice, get, as_str, as_u64, as_bool, is_object}

  unfoldable pub string_field : Value → Bytes → Option Bytes
  string_field v key =
      and_then
        (λ field.
          and_then not_empty
            (or_else (as_str field) (and_then (λ n. some (decimal n)) (as_u64 field))))
        (get key v)

  unfoldable pub u8_field : Value → Bytes → Option ℕ
  u8_field v key =
      and_then
        (λ field.
          and_then as_u8
            (or_else (as_u64 field) (and_then (λ s. parse_u64 (trim s)) (as_str field))))
        (get key v)

  unfoldable pub bool_field : Value → Bytes → Option Bool
  bool_field v key =
      and_then
        (λ field. or_else (as_bool field) (
          or_else (and_then (λ n. some (not (n == 0))) (as_u64 field))
            (and_then (λ s. bool_text (trim s)) (as_str field))))
        (get key v)

  unfoldable pub from_value : Value → ApiInfo
  from_value v = record {
    snr = string_field v (codes "snr");
    version = string_field v (codes "version");
    https_status = u8_field v (codes "httpsStatus");
    local = bool_field v (codes "local");
    has_event_slots = bool_field v (codes "hasEventSlots");
  }

  abbrev pub object_or : Error → Value → Result Value
  object_or e v = if is_object v then ok v else err e

  unfoldable pub parse_relaxed_object : Bytes → Result Value
  parse_relaxed_object raw = elim (and_then (λ v. ok_of (object_or protocol v)) (from_slice raw)) [
    | some v ↦ ok v
    | none ↦ ok_or json (from_slice (double_quotes raw)) >>= object_or protocol
  ]

  abbrev pub api_value : Value → Option Bytes → Result ApiInfo
  api_value value (some raw) = parse_relaxed_object raw >>= λ v. ok (from_value v)
  api_value value none = object_or protocol value >>= λ v. ok (from_value v)

  abbrev pub status_ok : Option Bytes → Result (Unit {0})
  status_ok none = ok tt
  status_ok (some code) = if bytes_eq code (codes "200") then ok tt else err protocol

  unfoldable pub parse_api_info : Bytes → Result ApiInfo
  parse_api_info payload = do
    root ← parse_json j payload
    ll ← ok_or protocol (get (codes "LL") root)
    _ ← status_ok (ll_status_code j ll)
    value ← ok_or protocol (get (codes "value") ll)
    api_value value (as_str value)

  module _ (request : Bytes → Option (Bytes × Bytes) → Result (ℕ × Bytes)) where
    unfoldable pub get_ll : Bytes → Option (Bytes × Bytes) → Result Bytes
    get_ll path credentials = do
      answer ← request path credentials
      if answer.0 == 200 then ok answer.1 else err (http_status answer.0)

    unfoldable pub fetch_api_info : Bytes → Result ApiInfo
    fetch_api_info path = get_ll path none >>= parse_api_info

    unfoldable pub merge : Result ApiInfo → Result ApiInfo → Result ApiInfo
    merge (ok info) (ok extra) = ok (fill_from extra info)
    merge (ok info) (err e) = ok info
    merge (err e) (ok info) = ok info
    merge (err e) (err e') = err e

    unfoldable pub api_info : Result ApiInfo
    api_info =
        merge (fetch_api_info (codes "jdev/cfg/apiKey")) (fetch_api_info (codes "jdev/cfg/api"))

    abbrev pub value_text : Value → Result Bytes
    value_text ll = ok_or protocol (and_then as_str (get (codes "value") ll))

    abbrev pub key_text : Bytes → Result (Option Bytes)
    key_text [] = err protocol
    key_text (c ∷ cs) = ok (normalize_public_key_pem (c ∷ cs))

    -- The key, or `none` where the call panics.
    unfoldable pub get_public_key : Bytes → Bytes → Result (Option Bytes)
    get_public_key username password = do
      body ← get_ll (codes "jdev/sys/getPublicKey") (some (username, password))
      root ← parse_json j body
      ll ← ok_or protocol (get (codes "LL") root)
      public_key ← value_text ll
      key_text public_key

    unfoldable pub get_certificate : Bytes → Bytes → Result Bytes
    get_certificate username password = do
      body ← get_ll (codes "jdev/sys/getcertificate") (some (username, password))
      root ← parse_json j body
      ll ← ok_or protocol (get (codes "LL") root)
      chain ← value_text ll
      if contains (codes "BEGIN CERTIFICATE") chain then ok chain else err protocol

    -- The context after it, which all connections share.
    abbrev pub adopt_chain : Result Bytes → TlsContext → TlsContext × Result Bytes
    adopt_chain (err e) c = (c, err e)
    adopt_chain (ok spki) c = let (c', r) = adopt_spki spki c in (c', r >>= λ _. ok spki)

    unfoldable pub bootstrap_pin :
        Certificates → Bytes → Bytes → TlsContext → TlsContext × Result Bytes
    bootstrap_pin x username password c =
        adopt_chain (get_certificate username password >>= spki_sha256_from_pem_chain x) c
