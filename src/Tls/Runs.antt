-- ===== src/Tls/Runs.antt =====
-- The pin against concrete certificates.
use loxwebsocketclient_rs.Prelude.{refl, true, none, some, List, [], ◌∷◌, Bytes}
use loxwebsocketclient_rs.Str.{codes}
use loxwebsocketclient_rs.Tls.{Certificates, pin_on_first_use, pins}
use loxwebsocketclient_rs.Tls.Pin.{
  Contact, handshake, announced, contacts, at, OneKey, contacts-OneKey,
}

-- A certificate is its key.
abbrev plain : Certificates
plain = record {
  Certificate = Bytes;
  from_der = λ der. some der;
  load_pem_chain = λ pem. none;
  spki_der = λ cert. some cert;
  sha256 = λ bytes. bytes;
  web_pki_accepts = λ der. true;
}

abbrev shown : List Contact
shown = handshake (codes "a") ∷ announced (codes "b") ∷ handshake (codes "a") ∷ []

contacts-OneKey_example : OneKey plain (contacts plain shown (at plain pin_on_first_use none))
unfolding pins
contacts-OneKey_example = contacts-OneKey plain pin_on_first_use shown refl
