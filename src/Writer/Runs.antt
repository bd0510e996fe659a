-- ===== src/Writer/Runs.antt =====
-- The writer and the reader at concrete acts.
use loxwebsocketclient_rs.Prelude.{◌≡◌, refl, true, false, some, List, [], ◌∷◌, replicate}
use loxwebsocketclient_rs.Str.{codes}
use loxwebsocketclient_rs.Session.{Primitives, SessionKeys, Env}
use loxwebsocketclient_rs.Session
use loxwebsocketclient_rs.Pending
use loxwebsocketclient_rs.Pending.Expiry.{Sorted}
use loxwebsocketclient_rs.Liveness
use loxwebsocketclient_rs.Writer.{Writer, WriterConfig, encrypted, control, from_facade, tick}
use loxwebsocketclient_rs.Writer.Deadlines.{Act, writes, answers, run_acts, run_acts-Sorted}

-- A cipher that changes nothing.
abbrev plain : Primitives
plain = record {
  cbc_encrypt = λ k i d. some d;
  cbc_decrypt = λ k i d. some d;
  b64_encode = λ d. d;
  b64_decode = λ d. some d;
  percent_decode = λ d. d;
  is_utf8 = λ d. true;
}

abbrev no_keys : SessionKeys
no_keys = record { key = []; iv = [] }

abbrev cfg : WriterConfig
cfg = record {
  username = codes "u";
  command_timeout = 10;
  max_missed_keepalives = 3;
  max_pending = 5;
  kill_token_on_stop = true;
}

abbrev fresh : Writer
fresh = record {
  salt = Session.new;
  pending = Pending.new;
  visu = [];
  liveness = Liveness.new;
  commands_sent = 0;
  command_errors = 0;
  command_timeouts = 0;
  keepalive_misses = 0;
  stopped = false;
}

abbrev env : Env
env = record { now_secs = 1000; raw = replicate 16 7 }

abbrev acts : List Act
acts =
    writes 1 0 env (from_facade (some (encrypted (codes "jdev/cfg/api") 4)))
    ∷ writes 2 1 env (from_facade (some (control (codes "a") (codes "on"))))
    ∷ answers 1 (some (codes "jdev/cfg/api"))
    ∷ writes 60 0 env tick
    ∷ []

no_entries : fresh.pending.entries ≡ []
unfolding Pending.new
no_entries = refl

run_acts-Sorted_example : Sorted (run_acts plain no_keys cfg 0 acts fresh).pending.entries
run_acts-Sorted_example = run_acts-Sorted plain no_keys cfg acts 0 fresh no_entries
