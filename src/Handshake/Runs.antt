-- ===== src/Handshake/Runs.antt =====
-- The handshake against concrete frames.
use loxwebsocketclient_rs.Prelude.{
  ℕ, zero, suc, ◌<◌, ◌^◌, arith, false, some, List, [], ◌∷◌, replicate, All,
}
use loxwebsocketclient_rs.Metrics
use loxwebsocketclient_rs.Str.{codes}
use loxwebsocketclient_rs.Flow.{app}
use loxwebsocketclient_rs.Session.{Env, new}
use loxwebsocketclient_rs.Shared.{SharedState}
use loxwebsocketclient_rs.Store.{Disk}
use loxwebsocketclient_rs.Store.Refine.{file_store}
use loxwebsocketclient_rs.Store.Runs.{home, jwt, working, no_file}
use loxwebsocketclient_rs.Reader.Framing.{Message}
use loxwebsocketclient_rs.Samples.{willing_json, plain_digests, plain_primitives, zero_keys}
use loxwebsocketclient_rs.Handshake.{Received, Credentials, Handshake, authenticate}
use loxwebsocketclient_rs.Handshake.Payload.{at_frames}
use loxwebsocketclient_rs.Handshake.Script.{script, quiet, all_frames_before}
use loxwebsocketclient_rs.Handshake.Auth.{HasToken, authenticate-HasToken}

abbrev answer_message : Message
answer_message = record { msg_type = 0; estimates = 7 ∷ []; payload = codes "{}" }

-- An empty value table and a keepalive.
abbrev overtaking : List Message
overtaking =
    record { msg_type = 2; estimates = []; payload = [] }
    ∷ record { msg_type = 6; estimates = 3 ∷ []; payload = [] }
    ∷ []

abbrev env : Env
env = record { now_secs = 5; raw = 1 ∷ 2 ∷ [] }

abbrev idle_handshake : Handshake (List Received)
idle_handshake = record { peer = []; salt = new; handler = record { calls = []; panicked = false } }

-- 63 estimates and a keepalive.
abbrev chatter : List Message
chatter = record { msg_type = 6; estimates = replicate 63 1; payload = [] } ∷ []

replicate_below : (n : ℕ) → All (λ k. k < 256 ^ 4) (replicate n 1)
replicate_below zero = tt
replicate_below (suc n) = (omega arith, replicate_below n)

abbrev credentials : Credentials
credentials = record {
  username = codes "admin";
  password = codes "secret";
  token_permission = app;
  client_uuid = codes "c";
  client_info = codes "i";
}

abbrev without_token : SharedState Disk
without_token = record {
  state = Metrics.connecting;
  token = record jwt { token = [] };
  binding = some home;
  saved = no_file;
}

-- Two answers, to `getkey2` and to `getjwt`.
abbrev two_answers : Handshake (List Received)
two_answers =
    at_frames env idle_handshake (all_frames_before (answer_message ∷ answer_message ∷ []) []) []

authenticate-HasToken_example :
    HasToken
      (script env)
      quiet
      willing_json
      plain_digests
      plain_primitives
      zero_keys
      credentials
      (file_store working)
      (authenticate
        (script env)
        quiet
        willing_json
        plain_digests
        plain_primitives
        zero_keys
        credentials
        (file_store working)
        without_token
        two_answers)
authenticate-HasToken_example =
    authenticate-HasToken (script env) quiet willing_json plain_digests plain_primitives zero_keys
      credentials (file_store working) without_token two_answers
