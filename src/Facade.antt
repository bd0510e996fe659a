-- ===== src/Facade.antt =====
-- src/client/mod.rs: the client's own methods. The channel to the writer is the list of the commands
-- in it; what the other tasks do is a step of theirs.
pub mod Queue
pub mod Config
pub mod Life
mod Runs
use loxwebsocketclient_rs.Prelude.{
  ℕ, zero, suc, ◌+◌, Bool, true, false, Option, none, some, List, [], ◌∷◌, ◌++◌, ltb, max, length,
  if◌then◌else◌, Bytes,
}
use loxwebsocketclient_rs.Error.{
  Error, not_connected, backpressure, channel_closed, Result, ok, err, ◌>>=◌,
}
use loxwebsocketclient_rs.Str.{codes, bytes_eq}
use loxwebsocketclient_rs.Json.{Json}
use loxwebsocketclient_rs.Hash.{Digests}
use loxwebsocketclient_rs.Token.{LxToken, is_empty}
use loxwebsocketclient_rs.Flow.{cmd_get_key, cmd_check_token, build_token_hash, payload_ll_status}
use loxwebsocketclient_rs.Metrics.{ConnState}
use loxwebsocketclient_rs.Metrics
use loxwebsocketclient_rs.Writer.{IoCommand, encrypted, control, visu_control}

-- `join` is whether the handle of the supervisor's task is still there.
pub record LoxClient : Type 0 where
  pub state : ConnState
  pub queue : List IoCommand
  pub capacity : ℕ
  pub receiver_open : Bool
  pub stopped : Bool
  pub join : Bool
  pub controls_rejected_offline : ℕ
  pub controls_rejected_backpressure : ℕ

-- `mpsc::channel(cfg.command_channel_depth.max(1))`.
unfoldable pub new : ℕ → LoxClient
new command_channel_depth = record {
  state = Metrics.closed;
  queue = [];
  capacity = max command_channel_depth 1;
  receiver_open = true;
  stopped = false;
  join = true;
  controls_rejected_offline = 0;
  controls_rejected_backpressure = 0;
}

abbrev pub is_connected : ConnState → Bool
is_connected Metrics.connected = true
is_connected _ = false

unfoldable pub live : LoxClient → Bool
live c = is_connected c.state

unfoldable pub require_live : LoxClient → LoxClient × Result (Unit {0})
require_live c = if live c then (c, ok tt) else (
  record c { controls_rejected_offline = c.controls_rejected_offline + 1 },
  err not_connected,
)

pub data Sent : Type 0 where
  queued full closed : Sent

-- `mpsc::Sender::try_send`.
unfoldable pub try_send : IoCommand → LoxClient → LoxClient × Sent
try_send cmd c =
    if c.receiver_open
    then (if ltb (length c.queue) c.capacity
        then (record c { queue = c.queue ++ (cmd ∷ []) }, queued)
        else (c, full))
    else (c, closed)

abbrev pub count_refused : LoxClient × Sent → LoxClient × Result (Unit {0})
count_refused (c, queued) = (c, ok tt)
count_refused (c, full) = (
  record c { controls_rejected_backpressure = c.controls_rejected_backpressure + 1 },
  err backpressure,
)
count_refused (c, closed) = (c, err channel_closed)

-- `self.require_live()?`, and then the rest.
unfoldable pub if_live :
    LoxClient × Result (Unit {0})
    → (LoxClient → LoxClient × Result (Unit {0}))
    → LoxClient × Result (Unit {0})
if_live (c, err e) next = (c, err e)
if_live (c, ok _) next = next c

unfoldable pub try_send_control : Bytes → Bytes → LoxClient → LoxClient × Result (Unit {0})
try_send_control uuid value c =
    if_live (require_live c) (λ c'. count_refused (try_send (control uuid value) c'))

-- `send(..).await`: `none` while it waits for room.
unfoldable pub send : IoCommand → LoxClient → Option (LoxClient × Result (Unit {0}))
send cmd c =
    if c.receiver_open
    then (if ltb (length c.queue) c.capacity
        then some (record c { queue = c.queue ++ (cmd ∷ []) }, ok tt)
        else none)
    else some (c, err channel_closed)

unfoldable pub send_if_live :
    IoCommand → LoxClient × Result (Unit {0}) → Option (LoxClient × Result (Unit {0}))
send_if_live cmd (c, err e) = some (c, err e)
send_if_live cmd (c, ok _) = send cmd c

unfoldable pub send_control : Bytes → Bytes → LoxClient → Option (LoxClient × Result (Unit {0}))
send_control uuid value c = send_if_live (control uuid value) (require_live c)

unfoldable pub send_visu_control :
    Bytes → Bytes → Bytes → LoxClient → Option (LoxClient × Result (Unit {0}))
send_visu_control uuid value visu_pw c =
    send_if_live (visu_control uuid value visu_pw) (require_live c)

-- What the writer sends into the channel of the command, or that it drops it.
abbrev pub reply_or_closed : Option (Result Bytes) → Result Bytes
reply_or_closed none = err channel_closed
reply_or_closed (some r) = r

abbrev pub await_answer :
    Option (Result Bytes)
    → Option (LoxClient × Result (Unit {0}))
    → Option (LoxClient × Result Bytes)
await_answer answer none = none
await_answer answer (some (c, err e)) = some (c, err channel_closed)
await_answer answer (some (c, ok _)) = some (c, reply_or_closed answer)

-- `resp` is the channel's number.
unfoldable pub send_command :
    Bytes → ℕ → Option (Result Bytes) → LoxClient → Option (LoxClient × Result Bytes)
send_command cmd resp answer c = await_answer answer (send (encrypted cmd resp) c)

abbrev pub is_ok_status : Option Bytes → Bool
is_ok_status none = false
is_ok_status (some code) = bytes_eq code (codes "200")

-- What `send_command` gives for a command is the parameter `answer`.
unfoldable pub check_token : Json → Digests → Bytes → (Bytes → Result Bytes) → LxToken → Result Bool
check_token j d username answer token =
    if is_empty token
    then ok false
    else answer cmd_get_key >>= λ key. build_token_hash j d key token >>= λ hash.
        answer (cmd_check_token hash username) >>= λ resp.
        ok (is_ok_status (payload_ll_status j resp))
