-- ===== src/Connect/Net.antt =====
-- How src/client/connect.rs opens a WebSocket and src/client/http.rs sends a request. What a run does
-- to the network is the list of its acts; how the network and the crates `hyper`, `rustls` and
-- `fastwebsockets` answer is the parameter `Network`.
use loxwebsocketclient_rs.Prelude.{
  ℕ, Bool, true, false, not, ◌&&◌, ◌||◌, Option, none, some, List, [], ◌∷◌, ◌++◌, take, ◌==◌,
  if◌then◌else◌, Bytes,
}
use loxwebsocketclient_rs.Error.{Error, http, web_socket, tls, timeout, Result, ok, err}
use loxwebsocketclient_rs.Str.{codes}
use loxwebsocketclient_rs.Connect.{Endpoints, address}

-- A `GET` of `uri`.
pub record Request : Type 0 where
  pub uri : Bytes
  pub headers : List (Bytes × Bytes)

pub data Act : Type 0 where
  dials : Bytes → Act
  secures : Bytes → Bool → Act
  sends : Request → Act

-- `tls` is whether a TLS handshake with a server of that name succeeds, which is up to the context's
-- verifier too. `builds` is whether `hyper` accepts the header values.
pub record Network : Type 0 where
  pub connects : Bytes → Bool
  pub is_server_name : Bytes → Bool
  pub tls : Bytes → Bool
  pub http_handshake : Bool
  pub builds : Request → Bool
  pub upgrades : Request → Bool
  pub answers : Request → Option (ℕ × Bytes)
  pub websocket_key : Bytes
  pub b64_encode : Bytes → Bytes

pub record Run (R : Type 0) : Type 0 where
  pub acts : List Act
  pub result : Result R

abbrev pub fails : {R : Type 0} → Error → Run R
fails e = record { acts = []; result = err e }

abbrev pub gives : {R : Type 0} → R → Run R
gives r = record { acts = []; result = ok r }

abbrev pub follow : {A R : Type 0} → List Act → Result A → (A → Run R) → Run R
follow acts (err e) next = record { acts = acts; result = err e }
follow acts (ok a) next = record { acts = acts ++ (next a).acts; result = (next a).result }

infixl 5 ◌>>=◌
abbrev pub ◌>>=◌ : {A R : Type 0} → Run A → (A → Run R) → Run R
first >>= next = follow first.acts first.result next

abbrev pub check : Bool → Error → Run (Unit {0})
check true e = gives tt
check false e = fails e

abbrev pub acts_then : Act → Bool → Error → Run (Unit {0})
acts_then act true e = record { acts = act ∷ []; result = ok tt }
acts_then act false e = record { acts = act ∷ []; result = err e }

abbrev pub answered : Act → Option (ℕ × Bytes) → Run (ℕ × Bytes)
answered act (some answer) = record { acts = act ∷ []; result = ok answer }
answered act none = record { acts = act ∷ []; result = err http }

unfoldable pub host_header : Endpoints → Bytes
host_header e =
    if (not e.use_tls && e.port == 80) || (e.use_tls && e.port == 443)
    then e.host
    else address e.host e.port

pub record HttpClient : Type 0 where
  pub host : Bytes
  pub port : ℕ
  pub use_tls : Bool
  pub authority : Bytes

unfoldable pub new : Endpoints → HttpClient
new e = record {
  host = e.host;
  port = e.port;
  use_tls = e.use_tls;
  authority = if e.port == (if e.use_tls then 443 else 80) then e.host else address e.host e.port;
}

module _ (n : Network) where
  abbrev pub upgrade_request : Endpoints → Request
  upgrade_request e = record {
    uri = codes "/ws/rfc6455";
    headers =
        (codes "host", host_header e)
        ∷ (codes "upgrade", codes "websocket")
        ∷ (codes "connection", codes "Upgrade")
        ∷ (codes "sec-websocket-key", n.websocket_key)
        ∷ (codes "sec-websocket-version", codes "13")
        ∷ (codes "sec-websocket-protocol", codes "remotecontrol")
        ∷ [];
  }

  -- TCP, and with TLS the handshake with the host.
  abbrev pub secure : Bool → Bytes → Error → Run (Unit {0})
  secure false host name_error = gives tt
  secure true host name_error = do
    _ ← check (n.is_server_name host) name_error
    acts_then (secures host (n.tls host)) (n.tls host) Error.tls

  unfoldable pub ws_connect : Endpoints → Run (Unit {0})
  ws_connect e = do
    let addr = address e.host e.port
    _ ← acts_then (dials addr) (n.connects addr) web_socket
    let req = upgrade_request e
    _ ← check (n.builds req) web_socket
    _ ← secure e.use_tls e.host web_socket
    acts_then (sends req) (n.upgrades req) web_socket

  unfoldable pub basic_auth : Bytes → Bytes → Bytes
  basic_auth username password = codes "Basic " ++ n.b64_encode (username ++ (b':' ∷ password))

  abbrev pub authorization : Option (Bytes × Bytes) → List (Bytes × Bytes)
  authorization none = []
  authorization (some (username, password)) =
      (codes "authorization", basic_auth username password) ∷ []

  abbrev pub get_request : HttpClient → Bytes → Option (Bytes × Bytes) → Request
  get_request c path credentials = record {
    uri = b'/' ∷ path;
    headers = (codes "host", c.authority) ∷ authorization credentials;
  }

  unfoldable pub get_inner : HttpClient → Bytes → Option (Bytes × Bytes) → Run (ℕ × Bytes)
  get_inner c path credentials = do
    let addr = address c.host c.port
    _ ← acts_then (dials addr) (n.connects addr) http
    _ ← secure c.use_tls c.host tls
    _ ← check n.http_handshake http
    let req = get_request c path credentials
    _ ← check (n.builds req) http
    answered (sends req) (n.answers req)

  -- Where the time is over, after so many acts, the run is dropped.
  abbrev pub get : Option ℕ → HttpClient → Bytes → Option (Bytes × Bytes) → Run (ℕ × Bytes)
  get none c path credentials = get_inner c path credentials
  get (some acts) c path credentials = record {
    acts = take acts (get_inner c path credentials).acts;
    result = err timeout;
  }
