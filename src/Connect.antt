-- ===== src/Connect.antt =====
-- src/client/connect.rs: the addresses derived from the Miniserver's URL. The crate `url` is the
-- parameter `Urls`.
pub mod Net
pub mod Secured
pub mod Abort
mod Runs
use mathlib.Core.List.{reverse}
use loxwebsocketclient_rs.Prelude.{
  ℕ, ◌≡◌, Bool, true, false, not, ◌&&◌, ◌||◌, Option, none, some, List, [], ◌∷◌, ◌++◌, take, ◌==◌,
  if◌then◌else◌, Bytes,
}
use loxwebsocketclient_rs.Error.{protocol, Result, ok, ok_or, ◌>>=◌}
use loxwebsocketclient_rs.Str.{codes, bytes_eq, starts_with, trim}
use loxwebsocketclient_rs.Str.Decimal.{decimal}
use loxwebsocketclient_rs.Flow.{unwrap_or}

-- `base` is the URL as a text once its path, query and fragment are cleared.
pub record Urls : Type 1 where
  pub Url : Type 0
  pub parse : Bytes → Option Url
  pub scheme : Url → Bytes
  pub host_str : Url → Option Bytes
  pub port : Url → Option ℕ
  pub base : Url → Bytes

pub record Endpoints : Type 0 where
  pub http_base : Bytes
  pub ws_url : Bytes
  pub host : Bytes
  pub port : ℕ
  pub use_tls : Bool

unfoldable pub with_scheme : Bytes → Bytes
with_scheme url_str =
    if not (starts_with (codes "http://") url_str) && not (starts_with (codes "https://") url_str)
    then codes "http://" ++ url_str
    else url_str

abbrev pub drop_slashes : Bytes → Bytes
drop_slashes [] = []
drop_slashes (c ∷ cs) = let rest = drop_slashes cs in if c == b'/' then rest else c ∷ cs

unfoldable pub trim_end_slashes : Bytes → Bytes
trim_end_slashes s = reverse (drop_slashes (reverse s))

unfoldable pub address : Bytes → ℕ → Bytes
address host port = host ++ (b':' ∷ decimal port)

module _ (x : Urls) where
  abbrev pub endpoints : x.Url → Bytes → Endpoints
  endpoints url host =
      let use_tls = bytes_eq (x.scheme url) (codes "https") in
      let port = unwrap_or (if use_tls then 443 else 80) (x.port url) in
      record {
        http_base = trim_end_slashes (x.base url);
        ws_url =
            (if use_tls then codes "wss" else codes "ws")
            ++ (codes "://" ++ (address host port ++ codes "/ws/rfc6455"));
        host = host;
        port = port;
        use_tls = use_tls;
      }

  unfoldable pub from_loxone_url : Bytes → Result Endpoints
  from_loxone_url loxone_url = ok_or protocol (x.parse (with_scheme (trim loxone_url))) >>= λ url.
      ok_or protocol (x.host_str url) >>= λ host. ok (endpoints url host)
