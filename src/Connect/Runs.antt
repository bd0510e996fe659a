-- ===== src/Connect/Runs.antt =====
-- Concrete addresses and connections.
use loxwebsocketclient_rs.Prelude.{
  ℕ, some_inv, drop, ◌≡◌, refl, ap, ◌∙◌, sym, Bool, true, false, Option, none, some, List, [], ◌∷◌,
  ◌++◌, if◌then◌else◌, Bytes,
}
use loxwebsocketclient_rs.Error.{ok}
use loxwebsocketclient_rs.Str.{
  codes, bytes_eq, starts_with, split_once, trim, strip_prefix, trim_front, space_len,
  space_len_back,
}
use loxwebsocketclient_rs.Str.Decimal.{decimal, to_dec}
use loxwebsocketclient_rs.Connect.{
  Urls, Endpoints, from_loxone_url, with_scheme, address, trim_end_slashes,
}
use loxwebsocketclient_rs.Connect.Net.{dials, secures, Network, new, ws_connect, get, get_inner}
use loxwebsocketclient_rs.Connect.Secured.{UrlLaws, IsSecured, from_loxone_url-IsSecured, HasHttps}
use loxwebsocketclient_rs.Connect.Abort.{
  Event, polls, aborts, inner, connection_aborted, cut, run, run-cut,
}
use loxwebsocketclient_rs.Connect.Abort
use mathlib.Core.Option

-- A parser of URLs without a path and a port.
abbrev scheme_of : Bytes → Bytes
scheme_of url = if starts_with (codes "https://") url then codes "https" else codes "http"

abbrev host_of : Bytes → Option Bytes
host_of url = Option.map (λ (p : Bytes × Bytes). drop 2 p.1) (split_once b':' url)

abbrev plain : Urls
plain = record {
  Url = Bytes;
  parse = λ s. some s;
  scheme = scheme_of;
  host_str = host_of;
  port = λ url. none;
  base = λ url. url ++ (b'/' ∷ []);
}

scheme_lem :
    (s url : Bytes)
    → starts_with (codes "https://") s ≡ true
    → ◌≡◌ {A = Option Bytes} (some s) (some url)
    → scheme_of url ≡ codes "https"
scheme_lem s url asks parsed =
    ap scheme_of (sym (some_inv parsed))
    ∙ ap (λ (b : Bool). if b then codes "https" else codes "http") asks

plain_laws : UrlLaws plain
plain_laws = record { https = λ s url asks parsed. scheme_lem s url asks parsed }

abbrev text : Bytes
text = codes " https://ms.example "

abbrev at : Endpoints
at = record {
  http_base = codes "https://ms.example";
  ws_url = codes "wss://ms.example:443/ws/rfc6455";
  host = codes "ms.example";
  port = 443;
  use_tls = true;
}

asks : HasHttps text
unfolding starts_with strip_prefix trim trim_front space_len space_len_back
asks = refl

text-at : from_loxone_url plain text ≡ ok at
unfolding from_loxone_url with_scheme address trim_end_slashes starts_with strip_prefix trim
    trim_front space_len space_len_back split_once decimal to_dec bytes_eq
text-at = refl

-- TCP and TLS succeed, and every request is answered.
abbrev up : Network
up = record {
  connects = λ addr. true;
  is_server_name = λ name. true;
  tls = λ name. true;
  http_handshake = true;
  builds = λ req. true;
  upgrades = λ req. true;
  answers = λ req. some (200, []);
  websocket_key = codes "dGhlIHNhbXBsZSBub25jZQ==";
  b64_encode = λ plain. plain;
}

get-upgraded : (get up none (new at) (codes "jdev/cfg/apiKey") none).result ≡ ok (200, [])
unfolding new get_inner
get-upgraded = refl

-- Over TLS that fails, nothing is sent.
get-refused :
    (get (record up { tls = λ name. false }) none (new at) [] none).acts
    ≡ dials (codes "ms.example:443") ∷ secures (codes "ms.example") false ∷ []
unfolding new get_inner address decimal to_dec
get-refused = refl

from_loxone_url-IsSecured_example :
    IsSecured at.host false (ws_connect up at).acts
    × IsSecured at.host false
        (get up
          (some 2)
          (new at)
          (codes "jdev/sys/getPublicKey")
          (some (codes "u", codes "p"))).acts
from_loxone_url-IsSecured_example =
    from_loxone_url-IsSecured plain plain_laws up text at (some 2) (codes "jdev/sys/getPublicKey")
      (some (codes "u", codes "p")) asks text-at

-- Two polls, the abort, and a poll while a frame waits.
abbrev events : List (Event ℕ)
events = polls 5 ∷ polls 6 ∷ aborts ∷ polls 7 ∷ []

events-cut : cut false events ≡ inner 5 ∷ inner 6 ∷ connection_aborted ∷ []
unfolding cut
events-cut = refl

run-cut_example : run events Abort.new ≡ some (cut false events)
run-cut_example = run-cut events
