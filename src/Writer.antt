-- ===== src/Writer.antt =====
-- src/client/writer.rs and src/client/visu.rs: what the writer decides for each message, command and
-- tick, and the state it shares with the reader. A round is given the clock, the random bytes and
-- how long the write takes. Close has the loop around these decisions, and its end.
pub mod Deadlines
pub mod Close
mod Runs
use loxwebsocketclient_rs.Prelude.{
  ℕ, zero, suc, ◌+◌, ◌≡◌, Bool, true, false, Option, none, some, List, [], ◌∷◌, ◌++◌, ltb, leb,
  length, if◌then◌else◌, Bytes,
}
use loxwebsocketclient_rs.Error.{Error, protocol, Result, ok, err}
use loxwebsocketclient_rs.Str.{codes}
use loxwebsocketclient_rs.Session.{Primitives, SessionKeys, SaltState, Env, encrypt}
use loxwebsocketclient_rs.Pending.{PendingEntry, PendingQueue, Reply, send, push, expire, fail_all}
use loxwebsocketclient_rs.Liveness.{Liveness, missed, on_keepalive_tick}
use loxwebsocketclient_rs.Reader.{OpCode}
use loxwebsocketclient_rs.Flow.{cmd_get_visu_salt}

pub record VisuPending : Type 0 where
  pub uuid : Bytes
  pub value : Bytes
  pub visu_pw : Bytes

-- The queue of src/client/visu.rs holds one item at most.
unfoldable pub visu_push : VisuPending → List VisuPending → List VisuPending
visu_push item [] = item ∷ []
visu_push item (oldest ∷ queue) = queue ++ (item ∷ [])

pub data WriterMsg : Type 0 where
  obligated : OpCode → Bytes → WriterMsg
  command : Bytes → Option ℕ → WriterMsg
  shutdown : WriterMsg

pub data IoCommand : Type 0 where
  encrypted : Bytes → ℕ → IoCommand
  control : Bytes → Bytes → IoCommand
  visu_control : Bytes → Bytes → Bytes → IoCommand
  drop_session stop : IoCommand

pub data Outgoing : Type 0 where
  text_out : Bytes → Outgoing
  control_out : OpCode → Bytes → Outgoing
  stop_out close_out idle_out : Outgoing

pub record WriterConfig : Type 0 where
  pub username : Bytes
  pub command_timeout : ℕ
  pub max_missed_keepalives : ℕ
  pub max_pending : ℕ
  pub kill_token_on_stop : Bool

pub record Writer : Type 0 where
  pub salt : SaltState
  pub pending : PendingQueue
  pub visu : List VisuPending
  pub liveness : Liveness
  pub commands_sent : ℕ
  pub command_errors : ℕ
  pub command_timeouts : ℕ
  pub keepalive_misses : ℕ
  pub stopped : Bool

-- What one turn of `select!` gives.
pub data Event : Type 0 where
  from_reader : Option WriterMsg → Event
  from_facade : Option IoCommand → Event
  tick expiry : Event

-- A decision: the writer's state, what goes out, and the replies made at once.
abbrev pub Decision : Type 0
Decision = Writer × (Outgoing × List Reply)

unfoldable pub count_sent : Writer → Writer
count_sent w = record w { commands_sent = w.commands_sent + 1 }

module _ (p : Primitives) (keys : SessionKeys) (cfg : WriterConfig) where
  abbrev pub prepared : ℕ → Bytes → Option ℕ → Writer → Result Bytes → Decision
  prepared now cmd resp w (ok wire) = (
    record w {
      pending =
          push
            (record {
              plaintext_cmd = cmd;
              wire_cmd = wire;
              resp = resp;
              deadline = now + cfg.command_timeout;
            })
            w.pending;
    },
    (text_out wire, []),
  )
  prepared now cmd resp w (err e) =
      (record w { command_errors = w.command_errors + 1 }, (idle_out, send resp (err e)))

  unfoldable pub prepare_command : Env → ℕ → Bytes → Option ℕ → Writer → Decision
  prepare_command env now cmd resp w =
      let (salt, result) = encrypt p keys env w.salt cmd in
      prepared now cmd resp (record w { salt = salt }) result

  unfoldable pub on_writer_msg : Env → ℕ → WriterMsg → Writer → Decision
  on_writer_msg env now (obligated opcode bytes) w = (w, (control_out opcode bytes, []))
  on_writer_msg env now (command cmd resp) w = prepare_command env now cmd resp w
  on_writer_msg env now shutdown w = (w, (stop_out, []))

  unfoldable pub on_io_command : Env → ℕ → IoCommand → Writer → Decision
  on_io_command env now stop w = (w, (close_out, []))
  on_io_command env now drop_session w = (w, (stop_out, []))
  on_io_command env now (encrypted cmd resp) w =
      let counted = count_sent w in
      if leb cfg.max_pending (length counted.pending.entries)
      then (
        record counted { command_errors = counted.command_errors + 1 },
        (idle_out, send (some resp) (err protocol)),
      )
      else prepare_command env now cmd (some resp) counted
  on_io_command env now (control uuid value) w =
      prepare_command env now (codes "jdev/sps/io/" ++ (uuid ++ (b'/' ∷ value))) none (count_sent w)
  on_io_command env now (visu_control uuid value visu_pw) w =
      let counted = count_sent w in
      prepare_command env now (cmd_get_visu_salt cfg.username) none (record counted {
        visu = visu_push (record { uuid = uuid; value = value; visu_pw = visu_pw }) counted.visu;
      })

  abbrev pub ticked : Writer → Liveness × Bool → Decision
  ticked w (l, true) = (record w { liveness = l }, (text_out (codes "keepalive"), []))
  ticked w (l, false) =
      (record w { keepalive_misses = w.keepalive_misses + missed w.liveness }, (stop_out, []))

  unfoldable pub on_tick : ℕ → Writer → Decision
  on_tick now w = ticked w (on_keepalive_tick cfg.max_missed_keepalives now w.liveness)

  unfoldable pub decide : Env → ℕ → Event → Writer → Decision
  decide env now (from_reader none) w = (w, (stop_out, []))
  decide env now (from_reader (some msg)) w = on_writer_msg env now msg w
  decide env now (from_facade none) w = (w, (close_out, []))
  decide env now (from_facade (some cmd)) w = on_io_command env now cmd w
  decide env now tick w = on_tick now w
  decide env now expiry w = (w, (idle_out, []))

  unfoldable pub expire_pending : ℕ → Writer → Writer × List Reply
  expire_pending now w =
      let (q, (replies, expired)) = expire now w.pending in
      (record w { pending = q; command_timeouts = w.command_timeouts + expired }, replies)
