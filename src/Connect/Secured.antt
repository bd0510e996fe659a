-- ===== src/Connect/Secured.antt =====
-- What the client sends when the Miniserver's URL starts with `https://` in lower case.
use loxwebsocketclient_rs.Prelude.{
  ℕ, ◌≡◌, sym, ap, ◌∙◌, arith, Bool, true, false, ◌||◌, ◌&&◌, Option, none, some, List, [], ◌∷◌,
  ◌++◌, refl, take, zero, suc, Bytes,
}
use loxwebsocketclient_rs.Error.{ok, protocol, ok_or, ◌>>=◌, >>=-eq-ok, ok_or-eq-ok, ok_inv}
use loxwebsocketclient_rs.Str.{codes, bytes_eq, starts_with, strip_prefix, trim}
use loxwebsocketclient_rs.Str.Laws.{bytes_eq_refl}
use loxwebsocketclient_rs.Connect.{Urls, Endpoints, from_loxone_url, with_scheme, endpoints}
use loxwebsocketclient_rs.Connect.Net.{
  Act, dials, secures, sends, Network, HttpClient, new, ws_connect, get_inner, get,
}

-- A request goes out only once a TLS handshake with the host has succeeded.
pub IsSecured : Bytes → Bool → List Act → Type 0
IsSecured host done [] = Unit {0}
IsSecured host done (dials addr ∷ acts) = IsSecured host done acts
IsSecured host done (secures name succeeded ∷ acts) =
    IsSecured host (done || (bytes_eq name host && succeeded)) acts
IsSecured host done (sends req ∷ acts) = (done ≡ true) × IsSecured host done acts

take-IsSecured :
    (k : ℕ) (host : Bytes) (done : Bool) (acts : List Act)
    → IsSecured host done acts
    → IsSecured host done (take k acts)
unfolding IsSecured
take-IsSecured zero host done acts s = tt
take-IsSecured (suc k) host done [] s = tt
take-IsSecured (suc k) host done (dials addr ∷ acts) s = take-IsSecured k host done acts s
take-IsSecured (suc k) host done (secures name succeeded ∷ acts) s =
    take-IsSecured k host (done || (bytes_eq name host && succeeded)) acts s
take-IsSecured (suc k) host done (sends req ∷ acts) (d, s) = (d, take-IsSecured k host done acts s)

module _ (n : Network) where
  ws_connect-IsSecured :
      (e : Endpoints) → e.use_tls ≡ true → IsSecured e.host false (ws_connect n e).acts
  unfolding ws_connect IsSecured
  ws_connect-IsSecured e on = rw (on) (ground (arith, bytes_eq_refl e.host))

  get_inner-IsSecured :
      (c : HttpClient) (path : Bytes) (credentials : Option (Bytes × Bytes))
      → c.use_tls ≡ true
      → IsSecured c.host false (get_inner n c path credentials).acts
  unfolding get_inner IsSecured
  get_inner-IsSecured c path credentials on = rw (on) (ground (arith, bytes_eq_refl c.host))

  get-IsSecured :
      (expires : Option ℕ) (c : HttpClient) (path : Bytes) (credentials : Option (Bytes × Bytes))
      → c.use_tls ≡ true
      → IsSecured c.host false (get n expires c path credentials).acts
  get-IsSecured none c path credentials on = get_inner-IsSecured c path credentials on
  get-IsSecured (some k) c path credentials on =
      take-IsSecured k c.host false (get_inner n c path credentials).acts
        (get_inner-IsSecured c path credentials on)

-- `url` gives the scheme of an `https` URL back.
pub record UrlLaws (x : Urls) : Type 0 where
  pub https :
      (s : Bytes) (url : x.Url)
      → starts_with (codes "https://") s ≡ true
      → x.parse s ≡ some url
      → x.scheme url ≡ codes "https"

-- A text that starts with `https://` in lower case, white space aside.
abbrev pub HasHttps : Bytes → Type 0
HasHttps text = starts_with (codes "https://") (trim text) ≡ true

with_scheme-https : (s : Bytes) → starts_with (codes "https://") s ≡ true → with_scheme s ≡ s
unfolding with_scheme
with_scheme-https s e = ground arith

-- Any other spelling of the scheme is taken for a host.
pub with_scheme-upper :
    (s : Bytes) → with_scheme (codes "HTTPS://" ++ s) ≡ codes "http://" ++ (codes "HTTPS://" ++ s)
unfolding with_scheme starts_with strip_prefix
with_scheme-upper s = refl

module _ (x : Urls) (laws : UrlLaws x) where
  from_loxone_url-use_tls :
      (text : Bytes) (e : Endpoints)
      → HasHttps text
      → from_loxone_url x text ≡ ok e
      → e.use_tls ≡ true
  unfolding from_loxone_url bytes_eq
  from_loxone_url-use_tls text e asks parsed =
      let (url, found, rest) =
        >>=-eq-ok (ok_or protocol (x.parse (with_scheme (trim text))))
          (λ url. ok_or protocol (x.host_str url) >>= λ host. ok (endpoints x url host)) parsed in
      let (host, found', given) =
        >>=-eq-ok (ok_or protocol (x.host_str url)) (λ host. ok (endpoints x url host)) rest in
      sym (ap (λ (end : Endpoints). end.use_tls) (ok_inv given))
      ∙ ap (λ s. bytes_eq s (codes "https"))
          (laws.https (trim text) url asks (
            ap x.parse (sym (with_scheme-https (trim text) asks))
            ∙ ok_or-eq-ok protocol (x.parse (with_scheme (trim text))) found))

  -- From a text that starts with `https://` in lower case, white space aside (no other spelling of the
  -- scheme counts): whatever the network answers, neither the request that
  -- opens the WebSocket nor a request over HTTP, with its password, is sent before a TLS handshake
  -- with the URL's host has succeeded on that connection, also where the time for the request is over.
  pub from_loxone_url-IsSecured :
      (n : Network) (text : Bytes) (e : Endpoints) (expires : Option ℕ) (path : Bytes)
      (credentials : Option (Bytes × Bytes))
      → HasHttps text
      → from_loxone_url x text ≡ ok e
      → IsSecured e.host false (ws_connect n e).acts
        × IsSecured e.host false (get n expires (new e) path credentials).acts
  unfolding new
  from_loxone_url-IsSecured n text e expires path credentials asks parsed =
      let on = from_loxone_url-use_tls text e asks parsed in
      (ws_connect-IsSecured n e on, get-IsSecured n expires (new e) path credentials on)
