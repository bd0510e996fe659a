-- ===== src/Tls.antt =====
-- src/client/tls.rs: which certificate a connection accepts, and the pin that all connections share.
-- Certificates, their digest and the WebPKI check are other crates' code and enter as `Certificates`;
-- the signatures of a TLS handshake are checked by rustls.
pub mod Pin
mod Runs
use loxwebsocketclient_rs.Prelude.{
  Bool, true, false, ◌&&◌, Option, none, some, List, [], ◌∷◌, if◌then◌else◌, Bytes,
}
use loxwebsocketclient_rs.Error.{tls, tls_pin_mismatch, Result, ok, err, ◌>>=◌, ok_or}
use loxwebsocketclient_rs.Str.{bytes_eq}

pub data TlsMode : Type 0 where
  web_pki pin_on_first_use insecure : TlsMode
  pinned : Bytes → TlsMode

unfoldable pub pins : TlsMode → Bool
pins web_pki = false
pins insecure = false
pins pin_on_first_use = true
pins (pinned spki_sha256) = true

pub record Certificates : Type 1 where
  pub Certificate : Type 0
  pub from_der : Bytes → Option Certificate
  pub load_pem_chain : Bytes → Option (List Certificate)
  pub spki_der : Certificate → Option Bytes
  pub sha256 : Bytes → Bytes
  pub web_pki_accepts : Bytes → Bool

-- The mutex holds the pin; the connector is rustls'.
pub record TlsContext : Type 0 where
  pub mode : TlsMode
  pub pin : Option Bytes

unfoldable pub new : TlsMode → TlsContext
new (pinned spki_sha256) = record { mode = pinned spki_sha256; pin = some spki_sha256 }
new web_pki = record { mode = web_pki; pin = none }
new pin_on_first_use = record { mode = pin_on_first_use; pin = none }
new insecure = record { mode = insecure; pin = none }

abbrev pub is_none {ℓ} : {A : Type ℓ} → Option A → Bool
is_none none = true
is_none (some a) = false

unfoldable pub needs_pin_bootstrap : TlsContext → Bool
needs_pin_bootstrap c = pins c.mode && is_none c.pin

abbrev pub adopt_into : Option Bytes → Bytes → TlsContext → TlsContext × Result (Unit {0})
adopt_into (some existing) spki c =
    if bytes_eq existing spki then (c, ok tt) else (c, err tls_pin_mismatch)
adopt_into none spki c = (record c { pin = some spki }, ok tt)

unfoldable pub adopt_spki : Bytes → TlsContext → TlsContext × Result (Unit {0})
adopt_spki spki c = if pins c.mode then adopt_into c.pin spki c else (c, ok tt)

abbrev pub last : {A : Type 0} → List A → Option A
last [] = none
last (x ∷ []) = some x
last (x ∷ y ∷ xs) = last (y ∷ xs)

-- `matches!(mode, TlsMode::PinOnFirstUse)`.
abbrev pub learns : TlsMode → Bool
learns pin_on_first_use = true
learns _ = false

module _ (x : Certificates) where
  unfoldable pub spki_sha256_of : x.Certificate → Result Bytes
  spki_sha256_of cert = ok_or tls (x.spki_der cert) >>= λ der. ok (x.sha256 der)

  unfoldable pub spki_sha256 : Bytes → Result Bytes
  spki_sha256 cert_der = ok_or tls (x.from_der cert_der) >>= λ cert. spki_sha256_of cert

  unfoldable pub spki_sha256_from_pem_chain : Bytes → Result Bytes
  spki_sha256_from_pem_chain pem = ok_or tls (x.load_pem_chain pem) >>= λ chain.
      ok_or tls (last chain) >>= λ leaf. spki_sha256_of leaf

  abbrev pub match_pin : Option Bytes → Bytes → TlsContext → TlsContext × Bool
  match_pin (some expected) presented c = (c, bytes_eq expected presented)
  match_pin none presented c =
      if learns c.mode then (record c { pin = some presented }, true) else (c, false)

  abbrev pub verify_digest : Result Bytes → TlsContext → TlsContext × Bool
  verify_digest (err e) c = (c, false)
  verify_digest (ok presented) c = match_pin c.pin presented c

  -- `SpkiPinVerifier::verify_server_cert`: whether it accepts the leaf.
  unfoldable pub verify_pin : Bytes → TlsContext → TlsContext × Bool
  verify_pin end_entity c = verify_digest (spki_sha256 end_entity) c

  -- The verifier that the mode installs.
  unfoldable pub verify_server_cert : Bytes → TlsContext → TlsContext × Bool
  verify_server_cert end_entity c = elim c.mode [
    | web_pki ↦ (c, x.web_pki_accepts end_entity)
    | insecure ↦ (c, true)
    | pin_on_first_use ↦ verify_pin end_entity c
    | pinned spki ↦ verify_pin end_entity c
  ]
