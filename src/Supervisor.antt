-- ===== src/Supervisor.antt =====
-- src/client/io.rs: the supervisor that runs session after session. What the network, the Miniserver,
-- the clock and the `stopped` flag answer during one round of its loop is a `Session`; the loop runs
-- over a list of them.
pub mod Closing
pub mod Budget
pub mod Sleep
mod Runs
use loxwebsocketclient_rs.Prelude.{
  ℕ, zero, suc, ◌+◌, ◌≡◌, Bool, true, false, not, ◌&&◌, ◌||◌, Option, none, some, List, [], ◌∷◌,
  ◌++◌, leb, if◌then◌else◌,
}
use loxwebsocketclient_rs.Error.{
  Error, tls_pin_mismatch, not_local, no_event_slots, timeout, stopped, handler_panic, Result, ok,
  err, ◌>>=◌, is_terminal, needs_long_backoff,
}
use loxwebsocketclient_rs.Policy.{
  should_continue, Backoff, normal, long, backoff_for_close, terminal_close, token_survives_close,
  productive_session_secs,
}
use loxwebsocketclient_rs.Metrics.{ConnState, MetricsState, mark_connected, mark_disconnected}
use loxwebsocketclient_rs.Metrics
use loxwebsocketclient_rs.Reader.{ReadOutcome, read_closed, idle_timeout, read_failed}
use loxwebsocketclient_rs.Handler.{ClientEvent, HandlerGuard, lifecycle}
use loxwebsocketclient_rs.Handler

pub record ConnectConfig : Type 0 where
  pub max_reconnect_attempts : ℕ
  pub receive_updates : Bool
  pub local_only : Bool

pub record ApiInfo : Type 0 where
  pub local : Option Bool
  pub has_event_slots : Option Bool

pub data SessionOutcome : Type 0 where
  session_stopped : SessionOutcome
  disconnected : Option ℕ → SessionOutcome
  session_failed : Error → SessionOutcome

-- What one round of the loop meets.
pub record Session : Type 0 where
  pub stopped_before : Bool
  pub api_info : Result ApiInfo
  pub needs_pin_bootstrap : Bool
  pub bootstrap_pin : Result (Unit {0})
  pub get_public_key : Result (Unit {0})
  pub wrap_session_key : Result (Unit {0})
  pub ws_connect : Result (Unit {0})
  pub key_exchange : Result (Unit {0})
  pub authenticate : Result (Unit {0})
  pub authenticated_token : Option ℕ
  pub enable_updates : Result (Unit {0})
  pub connected_at : ℕ
  pub read_outcome : ReadOutcome
  pub panicked_in_reader : Bool
  pub stopped_after_read : Bool
  pub writer_joined : Bool
  pub stopped_at_end : Bool
  pub session_len : ℕ
  pub stopped_in_wait : Bool

-- The loop's variables, what the client shares, and what went into the `ready` channel.
pub record Client : Type 0 where
  pub conn : ConnState
  pub metrics : MetricsState
  pub token : Option ℕ
  pub handler : HandlerGuard
  pub attempt : ℕ
  pub ever_connected : Bool
  pub cmd_rx : Bool
  pub ready : Bool
  pub ready_sent : List (Result (Unit {0}))

abbrev pub start : Client
start = record {
  conn = Metrics.closed;
  metrics = Metrics.new;
  token = none;
  handler = Handler.new;
  attempt = 0;
  ever_connected = false;
  cmd_rx = true;
  ready = true;
  ready_sent = [];
}

-- `if let Some(tx) = ready.take() { let _ = tx.send(result) }`.
unfoldable pub send_ready : Result (Unit {0}) → Client → Client
send_ready result c =
    if c.ready then record c { ready = false; ready_sent = c.ready_sent ++ (result ∷ []) } else c

-- `info.local == Some(false)`.
abbrev pub is_some_false : Option Bool → Bool
is_some_false none = false
is_some_false (some b) = not b

unfoldable pub preflight : ConnectConfig → Result ApiInfo → Result (Unit {0})
preflight cfg answer =
    if not cfg.receive_updates && not cfg.local_only then ok tt else elim answer [
      | err e ↦ ok tt
      | ok info ↦
          if cfg.local_only && is_some_false info.local
          then err not_local
          else if cfg.receive_updates && is_some_false info.has_event_slots
          then err no_event_slots
          else ok tt
    ]

abbrev pub is_pin_mismatch : Error → Bool
is_pin_mismatch tls_pin_mismatch = true
is_pin_mismatch _ = false

unfoldable pub pin_step : Session → Result (Unit {0})
pin_step s =
    if s.needs_pin_bootstrap
    then elim s.bootstrap_pin [ ok _ ↦ ok tt | err e ↦ if is_pin_mismatch e then err e else ok tt ]
    else ok tt

-- The steps up to `authenticate`, each of which may bail out.
unfoldable pub reach_authenticate : ConnectConfig → Session → Result (Unit {0})
reach_authenticate cfg s = preflight cfg s.api_info >>= λ _. pin_step s >>= λ _.
    s.get_public_key >>= λ _. s.wrap_session_key >>= λ _. s.ws_connect >>= λ _. s.key_exchange

unfoldable pub establish : ConnectConfig → Session → Result (Unit {0})
establish cfg s = reach_authenticate cfg s >>= λ _.
    s.authenticate >>= λ _. if cfg.receive_updates then s.enable_updates else ok tt

abbrev pub is_ok : Result (Unit {0}) → Bool
is_ok (ok _) = true
is_ok (err _) = false

-- `authenticate` restores, replaces or clears the token.
unfoldable pub with_token : ConnectConfig → Session → Client → Client
with_token cfg s c = record c {
  token = if is_ok (reach_authenticate cfg s) then s.authenticated_token else c.token;
}

unfoldable pub outcome_of : Session → SessionOutcome
outcome_of s = if s.stopped_at_end then session_stopped else elim s.read_outcome [
  | read_closed code ↦ disconnected code
  | idle_timeout ↦ session_failed timeout
  | read_failed e ↦ session_failed e
]

-- The reader and the writer have ended.
unfoldable pub leave : Session → Client → Client
leave s c = record c {
  conn = if s.stopped_after_read then c.conn else Metrics.reconnecting;
  handler = record c.handler { panicked = c.handler.panicked || s.panicked_in_reader };
  cmd_rx = s.writer_joined;
}

-- `ever_connected` and the budget after a session.
unfoldable pub settle : Option ℕ → Client → Client
settle none c = c
settle (some session_len) c = record c {
  ever_connected = true;
  attempt = if leb productive_session_secs session_len then 0 else c.attempt;
}

unfoldable pub on_failed : Client → Client
on_failed c = record c {
  metrics = record c.metrics { reconnect_failures = c.metrics.reconnect_failures + 1 };
}

unfoldable pub counted_attempt : Client → Client
counted_attempt c = record c {
  attempt = c.attempt + 1;
  metrics = record c.metrics { reconnect_attempts = c.metrics.reconnect_attempts + 1 };
  conn = Metrics.reconnecting;
}

-- The state of a client that connects.
unfoldable pub begin : Client → Client
begin c = record c { conn = if c.ever_connected then Metrics.reconnecting else Metrics.connecting }

module _ (panics : List ClientEvent → ClientEvent → Bool) where
  unfoldable pub tell : ClientEvent → Client → Client
  tell event c = record c { handler = lifecycle panics event c.handler }

  unfoldable pub finish : Option Error → Client → Client
  finish error c = tell Handler.closed (
      send_ready (err (elim error [ none ↦ stopped | some e ↦ e ]))
        (record c { conn = Metrics.closed }))

  -- The handshake is over.
  unfoldable pub connected : Session → Client → Client
  connected s c =
      let m = mark_connected s.connected_at c.metrics in
      let counted : Client =
        if c.ever_connected
        then tell Handler.reconnected (record c {
          conn = Metrics.connected;
          metrics = record m { reconnects = m.reconnects + 1 };
        })
        else tell Handler.connected (record c {
          conn = Metrics.connected;
          metrics = record m { connects = m.connects + 1 };
        }) in
      send_ready (ok tt) counted

  unfoldable pub after_establish :
      Session → Client → Result (Unit {0}) → Client × (SessionOutcome × Option ℕ)
  after_establish s c (err e) = (record c { cmd_rx = true }, (session_failed e, none))
  after_establish s c (ok _) = (leave s (connected s c), (outcome_of s, some s.session_len))

  -- The client after the session, its outcome, and how long it was connected.
  unfoldable pub session_once :
      ConnectConfig → Session → Client → Client × (SessionOutcome × Option ℕ)
  session_once cfg s c = after_establish s (with_token cfg s c) (establish cfg s)

  unfoldable pub on_disconnected : Option ℕ → Client → Client
  on_disconnected code c =
      let told : Client =
        tell (Handler.connection_closed code)
          (record c { metrics = mark_disconnected code c.metrics }) in
      record told { token = if token_survives_close code then told.token else none }

  unfoldable pub abort_or_wait : Option ℕ → Client → Option Error → Client × Option Backoff
  abort_or_wait code c (some e) = (finish (some e) c, none)
  abort_or_wait code c none = (c, some (backoff_for_close code))

  -- The `match result.outcome`: the client, and the backoff unless it finished.
  unfoldable pub judge : SessionOutcome → Client → Client × Option Backoff
  judge session_stopped c = (finish (some stopped) c, none)
  judge (disconnected code) c = abort_or_wait code (on_disconnected code c) (terminal_close code)
  judge (session_failed e) c =
      if is_terminal e || not c.ever_connected
      then (finish (some e) (on_failed c), none)
      else (on_failed c, some (if needs_long_backoff e then long else normal))

  -- Gives up without the `ready` channel.
  unfoldable pub close : Client → Client
  close c = tell Handler.closed (record c { conn = Metrics.closed })

  -- The client, and whether the loop goes on. The delay only takes time.
  unfoldable pub wait_reconnect : ConnectConfig → Session → Client → Client × Bool
  wait_reconnect cfg s c =
      if not (should_continue c.attempt cfg.max_reconnect_attempts)
      then (close c, false)
      else if s.stopped_in_wait
      then (close (counted_attempt c), false)
      else (counted_attempt c, true)

  unfoldable pub conclude : ConnectConfig → Session → Client × Option Backoff → Client × Bool
  conclude cfg s (c, none) = (c, false)
  conclude cfg s (c, some backoff) = wait_reconnect cfg s c

  -- One round: the client after it, and whether the loop goes on.
  unfoldable pub round : ConnectConfig → Session → Client → Client × Bool
  round cfg s c =
      if s.stopped_before
      then (finish (some stopped) c, false)
      else if c.handler.panicked
      then (finish (some handler_panic) c, false)
      else if not c.cmd_rx
      then (finish none (begin c), false)
      else let (after, (outcome, len)) = session_once cfg s (record (begin c) { cmd_rx = false }) in
        conclude cfg s (judge outcome (settle len after))

  -- The loop, over what its rounds meet; whether it still runs at the end of them.
  unfoldable pub supervise : ConnectConfig → List Session → Client → Client × Bool
  supervise cfg [] c = (c, true)
  supervise cfg (s ∷ ss) c =
      let (next, goes_on) = round cfg s c in
      let rest = supervise cfg ss next in if goes_on then rest else (next, false)

  -- `setup` is what the URL and the TLS configuration give.
  unfoldable pub run_supervisor :
      ConnectConfig → Result (Unit {0}) → List Session → Client → Client × Bool
  run_supervisor cfg (err e) ss c = (finish (some e) c, false)
  run_supervisor cfg (ok _) ss c = supervise cfg ss c
