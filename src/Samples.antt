-- ===== src/Samples.antt =====
-- Concrete parameters for the tests: what other crates might compute.
pub mod Base64
use loxwebsocketclient_rs.Prelude.{ℕ, true, Option, none, some, [], ◌++◌, if◌then◌else◌, Bytes}
use loxwebsocketclient_rs.Str.{codes, bytes_eq}
use loxwebsocketclient_rs.Json.{Json}
use loxwebsocketclient_rs.Hash.{Digests}
use loxwebsocketclient_rs.Session.{Primitives, SessionKeys}

pub data Doc : Type 0 where
  envelope ll status value text_value number : Doc

abbrev doc_get : Bytes → Doc → Option Doc
doc_get key envelope = if bytes_eq key (codes "LL") then some ll else none
doc_get key ll =
    if bytes_eq key (codes "Code")
    then some status
    else if bytes_eq key (codes "value")
    then some value
    else none
doc_get key value =
    if bytes_eq key (codes "validUntil")
    then some number
    else if bytes_eq key (codes "hashAlg")
    then none
    else some text_value
doc_get key _ = none

abbrev doc_str : Doc → Option Bytes
doc_str status = some (codes "200")
doc_str value = some (codes "6b65")
doc_str text_value = some (codes "6b65")
doc_str _ = none

abbrev doc_u64 : Doc → Option ℕ
doc_u64 number = some 541728000
doc_u64 _ = none

-- Every text is an answer with status 200, a key, a salt and a token.
abbrev pub willing_json : Json
willing_json = record {
  Value = Doc;
  from_slice = λ payload. some envelope;
  get = doc_get;
  as_str = doc_str;
  as_u64 = doc_u64;
  as_i64 = λ v. none;
  as_bool = λ v. none;
  is_object = λ v. true;
}

abbrev pub plain_digests : Digests
plain_digests = record {
  digest = λ alg bytes. bytes;
  hmac = λ alg key bytes. some (key ++ bytes);
  encode_upper = λ bytes. bytes;
  encode = λ bytes. bytes;
  decode = λ text. some text;
}

abbrev pub plain_primitives : Primitives
plain_primitives = record {
  cbc_encrypt = λ key iv bytes. some bytes;
  cbc_decrypt = λ key iv bytes. some bytes;
  b64_encode = λ bytes. bytes;
  b64_decode = λ text. some text;
  percent_decode = λ text. text;
  is_utf8 = λ bytes. true;
}

abbrev pub zero_keys : SessionKeys
zero_keys = record { key = []; iv = [] }
