-- ===== src/Handshake/Script.antt =====
-- A Miniserver that sends given messages, and what the handler is told of them.
use loxwebsocketclient_rs.Prelude.{
  ℕ, ◌+◌, ◌≡◌, sym, ap, ◌∙◌, Bool, true, false, List, [], ◌∷◌, ◌++◌, append_assoc, append-nil,
  length, Bytes,
}
use loxwebsocketclient_rs.Error.{ok}
use loxwebsocketclient_rs.Flow.{unwrap_or}
use loxwebsocketclient_rs.Session.{Env}
use loxwebsocketclient_rs.Proto.Header.{header_bytes}
use loxwebsocketclient_rs.Reader.{binary}
use loxwebsocketclient_rs.Reader.Framing.{Message, hdr}
use loxwebsocketclient_rs.Dispatch.{HandlerCall, on_raw_payload, dispatch_event, Told, call_all}
use loxwebsocketclient_rs.Handshake.{Received, received, timed_out, Peer}

-- A Miniserver that sends these frames, whatever it gets, and then nothing.
abbrev pub script : Env → Peer (List Received)
script env = record {
  write_frame = λ bytes frames. (frames, true);
  read_frame = λ frames. elim frames [ [] ↦ ([], timed_out) | f ∷ fs ↦ (fs, f) ];
  env = λ frames. env;
}

abbrev pub quiet : List HandlerCall → HandlerCall → Bool
quiet seen call = false

abbrev pub estimate_frames : ℕ → List ℕ → List Received → List Received
estimate_frames msg_type [] rest = rest
estimate_frames msg_type (n ∷ ns) rest =
    received binary (header_bytes (hdr 1 msg_type n)) ∷ estimate_frames msg_type ns rest

abbrev pub payload_frames : Bytes → List Received → List Received
payload_frames [] rest = rest
payload_frames (b ∷ bs) rest = received binary (b ∷ bs) ∷ rest

-- The frames of a message, in front of others.
abbrev pub frames_before : Message → List Received → List Received
frames_before m rest = estimate_frames m.msg_type m.estimates (
    received binary (header_bytes (hdr 0 m.msg_type (length m.payload)))
    ∷ payload_frames m.payload rest)

abbrev pub all_frames_before : List Message → List Received → List Received
all_frames_before [] rest = rest
all_frames_before (m ∷ ms) rest = frames_before m (all_frames_before ms rest)

-- The header frames of the messages.
abbrev pub headers : List Message → ℕ
headers [] = 0
headers (m ∷ ms) = length m.estimates + 1 + headers ms

abbrev pub calls_of : Message → List HandlerCall
calls_of m =
    on_raw_payload m.msg_type m.payload ∷ unwrap_or [] (dispatch_event m.msg_type m.payload)

abbrev pub all_calls : List Message → List HandlerCall
all_calls [] = []
all_calls (m ∷ ms) = calls_of m ++ all_calls ms

pub call_all-quiet :
    (cs : List HandlerCall) (h : Told)
    → call_all quiet cs h ≡ (record h { calls = h.calls ++ cs }, ok tt)
unfolding call_all
call_all-quiet [] h =
    ap (λ (z : List HandlerCall). (record h { calls = z }, ok tt)) (sym (append-nil h.calls))
call_all-quiet (c ∷ cs) h =
    call_all-quiet cs (record h { calls = h.calls ++ (c ∷ []) })
    ∙ ap (λ (z : List HandlerCall). (record h { calls = z }, ok tt))
        (append_assoc h.calls (c ∷ []) cs)
