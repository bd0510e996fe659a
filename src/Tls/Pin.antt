-- ===== src/Tls/Pin.antt =====
-- One key for all connections of a client that pins.
use loxwebsocketclient_rs.Prelude.{
  ◌≡◌, refl, sym, ap, ◌∙◌, Bool, true, false, Option, none, some, List, [], ◌∷◌, if◌then◌else◌,
  Bytes, ◌⊎◌, inl, inr, Bool-cases, All,
}
use loxwebsocketclient_rs.Error.{Result, ok, err}
use loxwebsocketclient_rs.Str.{bytes_eq}
use loxwebsocketclient_rs.Str.Laws.{bytes_eq_iff}
use loxwebsocketclient_rs.Tls.{
  TlsMode, web_pki, pin_on_first_use, insecure, pinned, pins, Certificates, TlsContext, adopt_spki,
  spki_sha256, verify_digest, verify_pin, verify_server_cert,
}

-- A TLS handshake with this leaf, or a fingerprint from `jdev/sys/getcertificate`.
pub data Contact : Type 0 where
  handshake announced : Bytes → Contact

module _ (x : Certificates) where
  abbrev pub is_ok : Result (Unit {0}) → Bool
  is_ok (ok _) = true
  is_ok (err e) = false

  abbrev pub contact : Contact → TlsContext → TlsContext × Bool
  contact (handshake leaf) c = verify_server_cert x leaf c
  contact (announced spki) c = let (c', r) = adopt_spki spki c in (c', is_ok r)

  -- The context after the contacts, and those that it accepted, in order.
  abbrev pub contacts : List Contact → TlsContext → TlsContext × List Contact
  contacts [] c = (c, [])
  contacts (k ∷ ks) c =
      let (c', accepted) = contact k c in
      let (c'', rest) = contacts ks c' in (c'', if accepted then k ∷ rest else rest)

  -- The contact is about the key with this fingerprint.
  abbrev pub IsOf : Bytes → Contact → Type 0
  IsOf key (handshake leaf) = spki_sha256 x leaf ≡ ok key
  IsOf key (announced spki) = spki ≡ key

  abbrev pub at : TlsMode → Option Bytes → TlsContext
  at mode pin = record { mode = mode; pin = pin }

  -- What a contact does where a key is pinned, and where none is.
  abbrev Confirms : TlsMode → Bytes → Contact → TlsContext × Bool → Type 0
  Confirms mode key k out = (b : Bool) × (out ≡ (at mode (some key), b)) × (b ≡ true → IsOf key k)

  abbrev Learns : TlsMode → Contact → TlsContext × Bool → Type 0
  Learns mode k out =
      (out ≡ (at mode none, false))
      ⊎ ((key : Bytes) × (out ≡ (at mode (some key), true)) × IsOf key k)

  verify-Confirms :
      (mode : TlsMode) (key leaf : Bytes) (r : Result Bytes)
      → spki_sha256 x leaf ≡ r
      → Confirms mode key (handshake leaf) (verify_digest x r (at mode (some key)))
  verify-Confirms mode key leaf (err e) q = (false, refl, λ f. cc)
  verify-Confirms mode key leaf (ok presented) q =
      (bytes_eq key presented, refl, λ same. q ∙ ap ok (sym ((bytes_eq_iff key presented).0 same)))

  contact-Confirms :
      (k : Contact) (mode : TlsMode) (key : Bytes)
      → pins mode ≡ true
      → Confirms mode key k (contact k (at mode (some key)))
  unfolding pins verify_server_cert verify_pin adopt_spki
  contact-Confirms (handshake leaf) web_pki key h = absurd (cc)
  contact-Confirms (handshake leaf) insecure key h = absurd (cc)
  contact-Confirms (handshake leaf) pin_on_first_use key h =
      verify-Confirms pin_on_first_use key leaf (spki_sha256 x leaf) refl
  contact-Confirms (handshake leaf) (pinned spki) key h =
      verify-Confirms (pinned spki) key leaf (spki_sha256 x leaf) refl
  contact-Confirms (announced spki) mode key h = elim (Bool-cases (bytes_eq key spki)) [
    | inl e ↦ (true, rw (h, e) refl, λ f. sym ((bytes_eq_iff key spki).0 e))
    | inr e ↦ (false, rw (h, e) refl, λ f. cc)
  ]

  verify-Learns :
      (leaf : Bytes) (r : Result Bytes)
      → spki_sha256 x leaf ≡ r
      → Learns pin_on_first_use (handshake leaf) (verify_digest x r (at pin_on_first_use none))
  verify-Learns leaf (err e) q = inl refl
  verify-Learns leaf (ok presented) q = inr (presented, refl, q)

  refuses :
      (leaf spki : Bytes) (r : Result Bytes)
      → verify_digest x r (at (pinned spki) none) ≡ (at (pinned spki) none, false)
  refuses leaf spki (err e) = refl
  refuses leaf spki (ok presented) = refl

  contact-Learns :
      (k : Contact) (mode : TlsMode) → pins mode ≡ true → Learns mode k (contact k (at mode none))
  unfolding pins verify_server_cert verify_pin adopt_spki
  contact-Learns (handshake leaf) web_pki h = absurd (cc)
  contact-Learns (handshake leaf) insecure h = absurd (cc)
  contact-Learns (handshake leaf) pin_on_first_use h = verify-Learns leaf (spki_sha256 x leaf) refl
  contact-Learns (handshake leaf) (pinned spki) h = inl (refuses leaf spki (spki_sha256 x leaf))
  contact-Learns (announced spki) mode h = inr (spki, rw h refl, refl)

  -- The pin holds, and it is that of every contact that was accepted.
  abbrev pub IsPinned : Bytes → TlsContext × List Contact → Type 0
  IsPinned key (c, accepted) = (c.pin ≡ some key) × All (IsOf key) accepted

  add_accepted :
      (key : Bytes) (b : Bool) (k : Contact) (ks : List Contact)
      → (b ≡ true → IsOf key k)
      → All (IsOf key) ks
      → All (IsOf key) (if b then k ∷ ks else ks)
  add_accepted key true k ks h all = (h refl, all)
  add_accepted key false k ks h all = all

  -- A client that pins, once it has a pin, keeps that pin whatever certificates and fingerprints it
  -- is shown, and accepts only contacts of that key. For the mode `Pinned` this is the configured key.
  pub contacts-IsPinned :
      (mode : TlsMode) (key : Bytes) (ks : List Contact)
      → pins mode ≡ true
      → IsPinned key (contacts ks (at mode (some key)))
  contacts-IsPinned mode key [] h = (refl, tt)
  contacts-IsPinned mode key (k ∷ ks) h =
      let (b, out, is_of) = contact-Confirms k mode key h in
      let (pin, all) = contacts-IsPinned mode key ks h in
      rw out (pin, add_accepted key b k (contacts ks (at mode (some key))).1 is_of all)

  abbrev pub OneKey : TlsContext × List Contact → Type 0
  OneKey (c, accepted) =
      ((c.pin ≡ none) × (accepted ≡ [])) ⊎ ((key : Bytes) × IsPinned key (c, accepted))

  -- A client that pins and has no pin yet accepts, over all its connections and announcements, one key
  -- at most: that of the first that it accepts, which it pins.
  pub contacts-OneKey :
      (mode : TlsMode) (ks : List Contact) → pins mode ≡ true → OneKey (contacts ks (at mode none))
  contacts-OneKey mode [] h = inl (refl, refl)
  contacts-OneKey mode (k ∷ ks) h = elim (contact-Learns k mode h) [
    | inl out ↦ rw out (contacts-OneKey mode ks h)
    | inr (key, out, is_of) ↦
        let (pin, all) = contacts-IsPinned mode key ks h in rw out (inr (key, (pin, (is_of, all))))
  ]
