-- ===== src/Facade/Config.antt =====
-- src/client/mod.rs, ConnectConfig and its defaults, with the constants of src/client/keepalive.rs, and
-- the parts of it that the supervisor, the handshake and the writer take.
use loxwebsocketclient_rs.Prelude.{ℕ, ◌*◌, Bool, true, false, Option, none, some, Bytes}
use loxwebsocketclient_rs.Str.{codes}
use loxwebsocketclient_rs.Flow.{TokenPermission, app}
use loxwebsocketclient_rs.Tls.{TlsMode, web_pki}
use loxwebsocketclient_rs.Policy.{
  keep_alive_period_secs, read_idle_timeout_secs, max_missed_keepalives,
}
use loxwebsocketclient_rs.Supervisor
use loxwebsocketclient_rs.Writer.{WriterConfig}
use loxwebsocketclient_rs.Handshake.{Credentials}

abbrev pub connect_delay_secs : ℕ
connect_delay_secs = 15

abbrev pub long_backoff_secs : ℕ
long_backoff_secs = 5 * 60

abbrev pub command_timeout_secs : ℕ
command_timeout_secs = 30

-- The store is an `S`, if there is one.
pub record ConnectConfig (S : Type 0) : Type 0 where
  pub loxone_url : Bytes
  pub username : Bytes
  pub password : Bytes
  pub tls : TlsMode
  pub receive_updates : Bool
  pub local_only : Bool
  pub max_reconnect_attempts : ℕ
  pub client_uuid : Bytes
  pub client_info : Bytes
  pub token_permission : TokenPermission
  pub keepalive_secs : ℕ
  pub connect_delay_secs : ℕ
  pub long_backoff_secs : ℕ
  pub command_timeout_secs : ℕ
  pub read_idle_timeout_secs : ℕ
  pub max_missed_keepalives : ℕ
  pub max_pending_commands : ℕ
  pub command_channel_depth : ℕ
  pub token_store : Option S
  pub kill_token_on_stop : Bool

unfoldable pub new : {S : Type 0} → Bytes → Bytes → Bytes → ConnectConfig S
new loxone_url username password = record {
  loxone_url = loxone_url;
  username = username;
  password = password;
  tls = web_pki;
  receive_updates = true;
  local_only = false;
  max_reconnect_attempts = 0;
  client_uuid = codes "edfc5f9a-df3f-4cad-9dddcdc42c732be2";
  client_info = codes "loxinflux";
  token_permission = app;
  keepalive_secs = keep_alive_period_secs;
  connect_delay_secs = connect_delay_secs;
  long_backoff_secs = long_backoff_secs;
  command_timeout_secs = command_timeout_secs;
  read_idle_timeout_secs = read_idle_timeout_secs;
  max_missed_keepalives = max_missed_keepalives;
  max_pending_commands = 32;
  command_channel_depth = 32;
  token_store = none;
  kill_token_on_stop = true;
}

module _ {S : Type 0} where
  unfoldable pub with_token_store : S → ConnectConfig S → ConnectConfig S
  with_token_store store c = record c { token_store = some store }

  unfoldable pub for_supervisor : ConnectConfig S → Supervisor.ConnectConfig
  for_supervisor c = record {
    max_reconnect_attempts = c.max_reconnect_attempts;
    receive_updates = c.receive_updates;
    local_only = c.local_only;
  }

  -- The writer's times are seconds; its keepalive period is the tick's, which is an event.
  unfoldable pub for_writer : ConnectConfig S → WriterConfig
  for_writer c = record {
    username = c.username;
    command_timeout = c.command_timeout_secs;
    max_missed_keepalives = c.max_missed_keepalives;
    max_pending = c.max_pending_commands;
    kill_token_on_stop = c.kill_token_on_stop;
  }

  unfoldable pub for_handshake : ConnectConfig S → Credentials
  for_handshake c = record {
    username = c.username;
    password = c.password;
    token_permission = c.token_permission;
    client_uuid = c.client_uuid;
    client_info = c.client_info;
  }
