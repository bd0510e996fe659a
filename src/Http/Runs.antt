-- ===== src/Http/Runs.antt =====
-- Public keys, and the session key under one.
use loxwebsocketclient_rs.Prelude.{◌++◌, ◌≡◌, refl, none, some, [], ◌∷◌, Bytes}
use loxwebsocketclient_rs.Error.{ok}
use loxwebsocketclient_rs.Str.{codes, starts_with, trim, space_len}
use loxwebsocketclient_rs.Http.Pem.{
  Rsa, wrap_session_key, import_public_key, normalize_public_key_pem, pem_body, find, replace_from,
}

-- The markers share their dashes.
normalize_public_key_pem_overlapping :
    normalize_public_key_pem (codes "-----BEGIN PUBLIC KEY-----END PUBLIC KEY-----") ≡ none
unfolding normalize_public_key_pem pem_body trim space_len starts_with find replace_from
normalize_public_key_pem_overlapping = refl

-- A key of the PKCS#1 form, and an encryption that puts the key before the text.
abbrev toy_rsa : Rsa
toy_rsa = record {
  Key = Bytes;
  from_public_key_pem = λ pem. none;
  from_pkcs1_pem = λ pem. some (5 ∷ []);
  rsa_encrypt = λ random key text. some (key ++ text);
  b64_encode = λ bytes. bytes;
}

wrap_session_key_toy :
    wrap_session_key toy_rsa [] (codes "QUJD") (codes "ab") ≡ some (ok (5 ∷ codes "ab"))
unfolding wrap_session_key import_public_key normalize_public_key_pem pem_body find replace_from
    starts_with trim space_len
wrap_session_key_toy = refl
