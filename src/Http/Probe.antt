-- ===== src/Http/Probe.antt =====
-- What the two probes give together, and what the certificate chain does to the pin.
use loxwebsocketclient_rs.Prelude.{
  ℕ, ◌≡◌, refl, sym, ap, ◌∙◌, inl, inr, true, Option, none, some, List, [], ◌∷◌, ◌++◌, Bytes,
  Bool-cases,
}
use loxwebsocketclient_rs.Error.{Result, ok, err, ◌>>=◌}
use loxwebsocketclient_rs.Json.{Json}
use loxwebsocketclient_rs.Flow.{or_else}
use loxwebsocketclient_rs.Str.{codes, bytes_eq}
use loxwebsocketclient_rs.Str.Laws.{bytes_eq_iff}
use loxwebsocketclient_rs.Tls.{TlsMode, pins, Certificates, adopt_spki, spki_sha256_from_pem_chain}
use loxwebsocketclient_rs.Http.{
  ApiInfo, fill_from, fetch_api_info, merge, api_info, get_certificate, adopt_chain, bootstrap_pin,
}

-- The first of the answers that has the field.
abbrev pub first_of : {A : Type 0} → (ApiInfo → Option A) → List ApiInfo → Option A
first_of field [] = none
first_of field (info ∷ infos) = or_else (field info) (first_of field infos)

abbrev pub facts : List ApiInfo → ApiInfo
facts infos = record {
  snr = first_of (λ i. i.snr) infos;
  version = first_of (λ i. i.version) infos;
  https_status = first_of (λ i. i.https_status) infos;
  local = first_of (λ i. i.local) infos;
  has_event_slots = first_of (λ i. i.has_event_slots) infos;
}

abbrev pub answers : Result ApiInfo → List ApiInfo
answers (ok info) = info ∷ []
answers (err e) = []

or_else-none : {A : Type 0} (o : Option A) → or_else o none ≡ o
or_else-none none = refl
or_else-none (some a) = refl

facts-one : (i : ApiInfo) → facts (i ∷ []) ≡ i
facts-one i =
    rw
      (
        or_else-none i.snr,
        or_else-none i.version,
        or_else-none i.https_status,
        or_else-none i.local,
        or_else-none i.has_event_slots,
      )
      refl

facts-two : (i k : ApiInfo) → facts (i ∷ k ∷ []) ≡ fill_from k i
unfolding fill_from
facts-two i k =
    rw
      (
        or_else-none k.snr,
        or_else-none k.version,
        or_else-none k.https_status,
        or_else-none k.local,
        or_else-none k.has_event_slots,
      )
      refl

-- Which answers there are: an error where there is none.
abbrev pub Reports : Result ApiInfo → Result ApiInfo → Result ApiInfo → Type 0
Reports key (ok api) out = out ≡ ok (facts (answers key ++ (api ∷ [])))
Reports (ok key) (err e) out = out ≡ ok (facts (key ∷ []))
Reports (err e) (err e') out = out ≡ err e

module _ (j : Json) (request : Bytes → Option (Bytes × Bytes) → Result (ℕ × Bytes)) where
  merge-Reports : (key api : Result ApiInfo) → Reports key api (merge j request key api)
  unfolding merge
  merge-Reports (ok i) (ok k) = ap ok (sym (facts-two i k))
  merge-Reports (ok i) (err e) = ap ok (sym (facts-one i))
  merge-Reports (err e) (ok k) = ap ok (sym (facts-one k))
  merge-Reports (err e) (err e') = refl

  -- The probe succeeds as soon as one of its two requests does, and then each fact is that of the first
  -- answer that has it, `apiKey` before `api`; where both fail it fails as the first.
  pub api_info-Reports :
      Reports
        (fetch_api_info j request (codes "jdev/cfg/apiKey"))
        (fetch_api_info j request (codes "jdev/cfg/api"))
        (api_info j request)
  unfolding api_info
  api_info-Reports = merge-Reports _ _

  adopt_chain-pin :
      (x : Certificates) (r : Result Bytes) (mode : TlsMode) (key : Bytes)
      → pins mode ≡ true
      → let out = adopt_chain j request r (record { mode = mode; pin = some key }) in
        (out.0 ≡ record { mode = mode; pin = some key })
        × ((spki : Bytes) → out.1 ≡ ok spki → spki ≡ key)
  unfolding adopt_spki
  adopt_chain-pin x (err e) mode key h = (refl, λ spki q. cc)
  adopt_chain-pin x (ok spki) mode key h = elim (Bool-cases (bytes_eq key spki)) [
    | inl e ↦ rw (h, e) (refl, λ s q. sym (some_ok q) ∙ sym ((bytes_eq_iff key spki).0 e))
    | inr e ↦ rw (h, e) (refl, λ s q. cc)
  ]
    where
      some_ok : {a b : Bytes} → ok a ≡ ok b → a ≡ b
      some_ok q = cc

  -- Whatever the Miniserver answers to `getcertificate`, an enforced pin stays as it is, and the
  -- bootstrap succeeds only with that same key.
  pub bootstrap_pin-keeps :
      (x : Certificates) (username password : Bytes) (mode : TlsMode) (key : Bytes)
      → pins mode ≡ true
      → let out =
          bootstrap_pin j request x username password (record { mode = mode; pin = some key }) in
        (out.0 ≡ record { mode = mode; pin = some key })
        × ((spki : Bytes) → out.1 ≡ ok spki → spki ≡ key)
  unfolding bootstrap_pin
  bootstrap_pin-keeps x username password mode key h =
      adopt_chain-pin x
        (get_certificate j request username password >>= spki_sha256_from_pem_chain x) mode key h
