-- ===== src/Writer/Close.antt =====
-- src/client/writer.rs: the whole loop, the graceful close and the end of a session. What the socket
-- gives back for a frame, the clock, and what the reader does meanwhile to the queue that the two
-- share are the data of each round and of each request: the answers that come in.
mod Calm
pub mod Kept
mod Owed
mod Balance
pub mod Answered
mod Runs
use loxwebsocketclient_rs.Prelude.{
  ℕ, Bool, true, false, Option, none, some, List, [], ◌∷◌, ◌++◌, if◌then◌else◌, ◌+◌, Bytes,
}
use loxwebsocketclient_rs.Error.{Error, protocol, timeout, channel_closed, Result, ok, err}
use loxwebsocketclient_rs.Json.{Json}
use loxwebsocketclient_rs.Hash.{Digests}
use loxwebsocketclient_rs.Token.{LxToken, is_empty}
use loxwebsocketclient_rs.Flow.{cmd_get_key, cmd_kill_token, build_token_hash}
use loxwebsocketclient_rs.Str.{codes}
use loxwebsocketclient_rs.Session.{Primitives, SessionKeys, Env}
use loxwebsocketclient_rs.Pending.{PendingQueue, Resolved, Reply, fail_all, resolve}
use loxwebsocketclient_rs.Pending.Fifo.{noted, reply_of}
use loxwebsocketclient_rs.Reader.{close}
use loxwebsocketclient_rs.Shared.{TokenStore, SharedState, clear_token}
use loxwebsocketclient_rs.Writer.{
  Writer, WriterConfig, Event, Outgoing, text_out, control_out, stop_out, close_out, idle_out,
  Decision, prepare_command, decide, expire_pending,
}

-- How the wait for an answer ends: its time is up, the waiter is dropped, or it is answered.
pub data Waited : Type 0 where
  too_late dropped : Waited
  answered : Result Bytes → Waited

-- A text message that the reader gets: its `control` field and its payload.
abbrev pub Answer : Type 0
Answer = Option Bytes × Bytes

-- A request while the session closes. `channel` names its waiter.
pub record Request : Type 0 where
  pub env : Env
  pub now : ℕ
  pub channel : ℕ
  pub written : Result (Unit {0})
  pub answers : List Answer
  pub waited : Waited

-- A round of the loop, which ends its write at `done`. The answers that the reader gets during the
-- write are placed behind the round's expiry.
pub record Round : Type 0 where
  pub env : Env
  pub now : ℕ
  pub event : Event
  pub written : Result (Unit {0})
  pub done : ℕ
  pub answers : List Answer

-- `frames` are those that the writer has handed to the socket, `replies` what it told waiters.
-- `abort_reader` says whether the handle that stops the reader is still there.
pub record SessionState (S : Type 0) : Type 0 where
  pub writer : Writer
  pub shared : SharedState S
  pub frames : List Outgoing
  pub replies : List Reply
  pub abort_reader : Bool

abbrev pub awaited : Waited → Result Bytes
awaited too_late = err timeout
awaited dropped = err channel_closed
awaited (answered r) = r

module _ {S : Type 0} where
  abbrev pub decided : Decision → SessionState S → SessionState S
  decided d s = record s { writer = d.0; replies = s.replies ++ d.1.1 }

  abbrev pub write : Outgoing → SessionState S → SessionState S
  write out s = record s { frames = s.frames ++ (out ∷ []) }

  unfoldable pub finish : SessionState S → SessionState S
  finish s =
      let (queue, (replies, count)) = fail_all s.writer.pending in
      record s {
        writer = record s.writer { pending = queue; visu = [] };
        replies = s.replies ++ replies;
        abort_reader = false;
      }

  abbrev pub count_error : SessionState S → SessionState S
  count_error s = record s {
    writer = record s.writer { command_errors = s.writer.command_errors + 1 };
  }

-- `Frame::close`, which builds the payload of a close frame.
module _ (p : Primitives) (keys : SessionKeys) (cfg : WriterConfig) (j : Json) (d : Digests)
    (close_payload : ℕ → Bytes → Bytes) {S : Type 0} (store : TokenStore S) where
  -- What the reader does with each answer: it goes to the oldest command that waits.
  abbrev pub answered_to : Bytes → PendingQueue × Option Resolved → SessionState S → SessionState S
  answered_to payload found s = record s {
    writer = record s.writer { pending = noted found };
    replies = s.replies ++ reply_of payload found.1;
  }

  abbrev pub meanwhile : List Answer → SessionState S → SessionState S
  meanwhile [] s = s
  meanwhile ((control, payload) ∷ answers) s =
      meanwhile answers (answered_to payload (resolve p control keys s.writer.pending) s)

  abbrev pub answer_of : Result (Unit {0}) → Waited → Result Bytes
  answer_of (err e) waited = err e
  answer_of (ok _) waited = awaited waited

  abbrev pub requested : Request → Decision → SessionState S → SessionState S × Result Bytes
  requested r (w, (text_out text, replies)) s = (
    meanwhile r.answers (write (text_out text) (decided (w, (text_out text, replies)) s)),
    answer_of r.written r.waited,
  )
  requested r out s = (decided out s, err protocol)

  unfoldable pub request : Bytes → Request → SessionState S → SessionState S × Result Bytes
  request cmd r s =
      requested r (prepare_command p keys cfg r.env r.now cmd (some r.channel) s.writer) s

  abbrev pub send_kill :
      Request → SessionState S × Result Bytes → SessionState S × Result (Unit {0})
  send_kill r (s, err e) = (s, err e)
  send_kill r (s, ok hash) =
      let (after, answer) = request (cmd_kill_token hash cfg.username) r s in
      (after, elim answer [ err e ↦ err e | ok _ ↦ ok tt ])

  abbrev pub hashed : LxToken → SessionState S × Result Bytes → SessionState S × Result Bytes
  hashed token (s, err e) = (s, err e)
  hashed token (s, ok key_resp) = (s, build_token_hash j d key_resp token)

  unfoldable pub kill_token :
      Request → Request → SessionState S → SessionState S × Result (Unit {0})
  kill_token r1 r2 s =
      if is_empty s.shared.token
      then (s, ok tt)
      else send_kill r2 (hashed s.shared.token (request cmd_get_key r1 s))

  -- The outcome of `kill_token` is only logged.
  abbrev pub killed : SessionState S × Result (Unit {0}) → SessionState S
  killed (s, result) = record s { shared = clear_token store s.shared }

  unfoldable pub graceful_close : Request → Request → SessionState S → SessionState S
  graceful_close r1 r2 s =
      write (control_out close (close_payload 1000 (codes "bye")))
        (if cfg.kill_token_on_stop then killed (kill_token r1 r2 s) else s)

  abbrev pub expired : ℕ → SessionState S → SessionState S
  expired now s =
      let (w, replies) = expire_pending p keys cfg now s.writer in
      record s { writer = w; replies = s.replies ++ replies }

  -- The rest of a round that does not leave the loop.
  abbrev pub go_on :
      Round → (SessionState S → Option (SessionState S)) → SessionState S → Option (SessionState S)
  go_on r next s = next (meanwhile r.answers (expired r.done s))

  unfoldable pub handle :
      Round
      → Request
      → Request
      → (SessionState S → Option (SessionState S))
      → Outgoing
      → SessionState S
      → Option (SessionState S)
  handle r r1 r2 next idle_out s = go_on r next s
  handle r r1 r2 next (text_out text) s = elim r.written [
    | ok _ ↦ go_on r next (write (text_out text) s)
    | err e ↦ some (finish (count_error (write (text_out text) s)))
  ]
  handle r r1 r2 next (control_out opcode bytes) s = elim r.written [
    | ok _ ↦ go_on r next (write (control_out opcode bytes) s)
    | err e ↦ some (finish (write (control_out opcode bytes) s))
  ]
  handle r r1 r2 next stop_out s = some (finish s)
  handle r r1 r2 next close_out s =
      some
        (finish (graceful_close r1 r2 (record s { writer = record s.writer { stopped = true } })))

  -- `run`, over the rounds that happen: none while the session goes on.
  unfoldable pub run : Request → Request → List Round → SessionState S → Option (SessionState S)
  run r1 r2 [] s = none
  run r1 r2 (r ∷ rs) s =
      let d = decide p keys cfg r.env r.now r.event s.writer in
      handle r r1 r2 (run r1 r2 rs) d.1.0 (decided d s)
