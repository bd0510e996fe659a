-- ===== src/Writer/Close/Runs.antt =====
-- A session that a stop ends while a command waits.
use loxwebsocketclient_rs.Prelude.{
  ℕ, ◌+◌, ◌≡◌, ◌++◌, refl, true, false, Option, none, some, List, [], ◌∷◌, replicate,
}
use loxwebsocketclient_rs.Prelude.Int.{pos}
use loxwebsocketclient_rs.Error.{ok}
use loxwebsocketclient_rs.Str.{codes}
use loxwebsocketclient_rs.Session.{Env}
use loxwebsocketclient_rs.Session
use loxwebsocketclient_rs.Pending
use loxwebsocketclient_rs.Liveness
use loxwebsocketclient_rs.Metrics.{connected}
use loxwebsocketclient_rs.Token.{LxToken, empty_token}
use loxwebsocketclient_rs.Samples.{willing_json, plain_digests, plain_primitives, zero_keys}
use loxwebsocketclient_rs.Shared.{TokenStore}
use loxwebsocketclient_rs.Writer.{
  WriterConfig, Event, encrypted, stop, from_facade, prepare_command, on_io_command, decide,
  count_sent,
}
use loxwebsocketclient_rs.Writer.Close.{Request, Round, SessionState, too_late, run, handle}
use loxwebsocketclient_rs.Pending.Fifo.{channels, waiters}
use loxwebsocketclient_rs.Writer.Close.Owed.{times}
use loxwebsocketclient_rs.Writer.Close.Answered.{all_asked, run-answered}

abbrev memory : TokenStore (Option LxToken)
memory = record { load = λ b saved. saved; save = λ b t saved. some t; clear = λ b saved. none }

abbrev jwt : LxToken
jwt = record empty_token { token = codes "t"; valid_until = pos 7 }

abbrev env : Env
env = record { now_secs = 1000; raw = replicate 16 7 }

abbrev cfg : WriterConfig
cfg = record {
  username = codes "u";
  command_timeout = 10;
  max_missed_keepalives = 3;
  max_pending = 5;
  kill_token_on_stop = true;
}

abbrev opened : SessionState (Option LxToken)
opened = record {
  writer = record {
    salt = Session.new;
    pending = Pending.new;
    visu = [];
    liveness = Liveness.new;
    commands_sent = 0;
    command_errors = 0;
    command_timeouts = 0;
    keepalive_misses = 0;
    stopped = false;
  };
  shared = record { state = connected; token = jwt; binding = some []; saved = some jwt };
  frames = [];
  replies = [];
  abort_reader = true;
}

abbrev asked : ℕ → Request
asked channel = record {
  env = env;
  now = 3;
  channel = channel;
  written = ok tt;
  answers = [];
  waited = too_late;
}

abbrev round : ℕ → Event → Round
round now event = record {
  env = env;
  now = now;
  event = event;
  written = ok tt;
  done = now;
  answers = [];
}

abbrev rounds : List Round
rounds =
    round 1 (from_facade (some (encrypted (codes "jdev/cfg/api") 4)))
    ∷ round 2 (from_facade (some stop))
    ∷ []

abbrev result : Option (SessionState (Option LxToken))
result =
    run plain_primitives zero_keys cfg willing_json plain_digests (λ code reason. reason) memory
      (asked 8) (asked 9) rounds opened

abbrev or_opened : Option (SessionState (Option LxToken)) → SessionState (Option LxToken)
or_opened none = opened
or_opened (some s) = s

abbrev closed : SessionState (Option LxToken)
closed = or_opened result

result-closed : result ≡ some closed
unfolding run handle decide on_io_command count_sent Pending.new prepare_command Session.encrypt
    Session.seal Session.fill_salted_plaintext Session.salt_header Session.new Session.generate_salt
    Session.hex_encode
result-closed = refl

run-answered_example :
    (before after : List Round) × (rounds ≡ before ++ after)
    × (times 4 (channels closed.replies)
        ≡ times 4 (channels opened.replies)
          + times 4 (waiters opened.writer.pending.entries)
          + times 4 (all_asked before))
run-answered_example =
    run-answered 4 plain_primitives zero_keys cfg willing_json plain_digests (λ code reason. reason)
      memory (asked 8) (asked 9) rounds opened closed refl refl result-closed
