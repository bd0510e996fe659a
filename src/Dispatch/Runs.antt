-- ===== src/Dispatch/Runs.antt =====
-- The dispatch of concrete messages.
use loxwebsocketclient_rs.Prelude.{ℕ, ◌≤◌, ◌+◌, Bool, true, false, some, List, [], ◌∷◌}
use loxwebsocketclient_rs.Str.{codes}
use loxwebsocketclient_rs.Metrics
use loxwebsocketclient_rs.Pending.{PendingEntry}
use loxwebsocketclient_rs.Reader.{start, run}
use loxwebsocketclient_rs.Reader.Framing.{Message, all_frames}
use loxwebsocketclient_rs.Samples.{willing_json, plain_digests, plain_primitives, zero_keys}
use loxwebsocketclient_rs.Dispatch.{HandlerCall, Inbox, dispatch}
use loxwebsocketclient_rs.Dispatch.Secured.{
  Act, queued, message, queued_by, budget, after_acts, after_acts-budget,
}
use loxwebsocketclient_rs.Writer.{VisuPending}

abbrev entry : ℕ → PendingEntry
entry channel = record {
  plaintext_cmd = codes "jdev/x";
  wire_cmd = codes "jdev/x";
  resp = some channel;
  deadline = 9;
}

abbrev inbox : Inbox
inbox = record {
  metrics = Metrics.new;
  liveness = record { sent = 1; acked = 0; sent_at = some 3 };
  handler = record { calls = []; panicked = false };
  pending = record {
    entries = entry 4 ∷ entry 5 ∷ [];
    mismatches = 0;
    unsolicited = 0;
    timeouts = 0;
  };
  visu = [];
  correlation_mismatches = 0;
  unsolicited_responses = 0;
  writer_open = true;
  sent = [];
  replies = [];
}

abbrev quiet : List HandlerCall → HandlerCall → Bool
quiet seen call = false

-- A keepalive and an answer behind an estimate.
abbrev messages : List Message
messages =
    record { msg_type = 6; estimates = []; payload = [] }
    ∷ record { msg_type = 0; estimates = 7 ∷ []; payload = codes "{}" }
    ∷ []

abbrev final : Inbox
final =
    (run (dispatch quiet willing_json plain_digests plain_primitives zero_keys) 150 start
      (all_frames messages) inbox).0.1

abbrev secured : VisuPending
secured = record { uuid = codes "a"; value = codes "on"; visu_pw = codes "pw" }

-- The first waiting command asked for a salt.
abbrev salted : Inbox
salted = record inbox {
  pending = record inbox.pending {
    entries = record (entry 4) { plaintext_cmd = codes "jdev/sys/getvisusalt/u" } ∷ [];
  };
}

abbrev acts : List Act
acts = queued secured ∷ message 0 (codes "{}") ∷ message 6 [] ∷ queued secured ∷ []

after_acts-budget_example :
    budget (after_acts quiet willing_json plain_digests plain_primitives zero_keys acts salted)
    ≤ budget salted + queued_by acts
after_acts-budget_example =
    after_acts-budget quiet willing_json plain_digests plain_primitives zero_keys acts salted
