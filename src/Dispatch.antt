-- ===== src/Dispatch.antt =====
-- src/client/reader.rs: what a message does. The handler is what it was told so far, and whether it
-- panics at a call is the parameter `panics`. Answers go into the channels as replies, and secured
-- commands to the writer as messages. The time of an answered keepalive is not kept.
mod Answered
pub mod Secured
pub mod Order
mod Runs
use loxwebsocketclient_rs.Prelude.{
  ℕ, ◌+◌, Bool, true, false, ◌&&◌, not, Option, none, some, List, [], ◌∷◌, ◌++◌, map, if◌then◌else◌,
  Bytes,
}
use loxwebsocketclient_rs.Error.{handler_panic, Result, ok, err, ◌>>=◌}
use loxwebsocketclient_rs.Str.{codes, starts_with}
use loxwebsocketclient_rs.Json.{Json}
use loxwebsocketclient_rs.Hash.{KeySalt, Digests, hash_visu_password}
use loxwebsocketclient_rs.Flow.{unwrap_or, parse_key_salt, cmd_get_visual_passwd}
use loxwebsocketclient_rs.Session.{Primitives, SessionKeys}
use loxwebsocketclient_rs.Proto.Header.{
  MessageType, from_u8, text, binary_file, value_states, text_states, daytimer_states,
  out_of_service, keepalive, weather_states,
}
use loxwebsocketclient_rs.Proto.Value.{ValueRecord, walk_values}
use loxwebsocketclient_rs.Proto.Text.{TextEvent, walk_texts}
use loxwebsocketclient_rs.Proto.Daytimer.{DaytimerEvent, walk_daytimers}
use loxwebsocketclient_rs.Proto.Weather.{WeatherEvent, walk_weather}
use loxwebsocketclient_rs.Metrics.{MetricsState, record_message}
use loxwebsocketclient_rs.Liveness.{Liveness, record_ack}
use loxwebsocketclient_rs.Pending.{PendingQueue, Resolved, Reply, send, resolve, note_unsolicited}
use loxwebsocketclient_rs.Pending.Scan.{extract_ll_control}
use loxwebsocketclient_rs.Writer.{VisuPending, WriterMsg, command}

-- The calls of the trait `LoxHandler` that a message makes.
pub data HandlerCall : Type 0 where
  on_raw_payload : ℕ → Bytes → HandlerCall
  on_binary : Bytes → HandlerCall
  on_value : ValueRecord → HandlerCall
  on_text : TextEvent → HandlerCall
  on_daytimer : DaytimerEvent → HandlerCall
  on_weather : WeatherEvent → HandlerCall
  on_json : Bytes → HandlerCall
  on_keepalive : HandlerCall

-- The walks return always.
abbrev pub events : {A : Type 0} → (A → HandlerCall) → Option (List A) → List HandlerCall
events call found = map call (unwrap_or [] found)

-- The calls for an event, or `none` for a message that is none.
abbrev pub event_calls : Option MessageType → Bytes → Option (List HandlerCall)
event_calls (some binary_file) payload = some (on_binary payload ∷ [])
event_calls (some value_states) payload = some (map on_value (walk_values payload))
event_calls (some text_states) payload = some (events on_text (walk_texts payload))
event_calls (some daytimer_states) payload = some (events on_daytimer (walk_daytimers payload))
event_calls (some weather_states) payload = some (events on_weather (walk_weather payload))
event_calls _ payload = none

unfoldable pub dispatch_event : ℕ → Bytes → Option (List HandlerCall)
dispatch_event msg_type payload = event_calls (from_u8 msg_type) payload

abbrev pub is_some {ℓ} : {A : Type ℓ} → Option A → Bool
is_some none = false
is_some (some a) = true

-- The guarded handler.
pub record Told : Type 0 where
  pub calls : List HandlerCall
  pub panicked : Bool

-- What the reader shares and keeps.
pub record Inbox : Type 0 where
  pub metrics : MetricsState
  pub liveness : Liveness
  pub handler : Told
  pub pending : PendingQueue
  pub visu : List VisuPending
  pub correlation_mismatches : ℕ
  pub unsolicited_responses : ℕ
  pub writer_open : Bool
  pub sent : List WriterMsg
  pub replies : List Reply

-- `VisuQueue::drain`: the queue after it and what it held.
abbrev pub drain : List VisuPending → List VisuPending × List VisuPending
drain queue = ([], queue)

module _ (panics : List HandlerCall → HandlerCall → Bool) where
  -- The calls one after the other, up to one that panics.
  unfoldable pub call_all : List HandlerCall → Told → Told × Result (Unit {0})
  call_all [] h = (h, ok tt)
  call_all (c ∷ cs) h =
      let h' : Told = record h { calls = h.calls ++ (c ∷ []) } in
      let rest = call_all cs h' in
      if panics h.calls c then (record h' { panicked = true }, err handler_panic) else rest

  -- `guard_or_fail`, for a closure that makes these calls.
  unfoldable pub guard_calls : List HandlerCall → Told → Told × Result (Unit {0})
  guard_calls cs h = if h.panicked then (h, err handler_panic) else call_all cs h

  abbrev pub tell : List HandlerCall → Inbox → Inbox × Result (Unit {0})
  tell cs s = let (h, r) = guard_calls cs s.handler in (record s { handler = h }, r)

  module _ (j : Json) (d : Digests) (p : Primitives) (keys : SessionKeys) where
    -- The command of one item, and how the loop goes on if the writer takes it.
    unfoldable pub send_item : Result Bytes → Bool → VisuPending → (Inbox → Inbox) → Inbox → Inbox
    send_item (err e) writer_open item next s = next s
    send_item (ok hash) false item next s = s
    send_item (ok hash) true item next s =
        let cmd = codes "jdev/sps/ios/" ++ (hash ++ (b'/' ∷ item.uuid ++ (b'/' ∷ item.value))) in
        next (record s { sent = s.sent ++ (command cmd none ∷ []) })

    unfoldable pub send_items : KeySalt → List VisuPending → Inbox → Inbox
    send_items ks [] s = s
    send_items ks (item ∷ items) s =
        send_item (hash_visu_password d ks item.visu_pw) s.writer_open item
          (λ s'. send_items ks items s') s

    unfoldable pub flush_with : Result KeySalt → List VisuPending → Inbox → Inbox
    flush_with (err e) items s = s
    flush_with (ok ks) items s = send_items ks items s

    unfoldable pub flush_visu : Bytes → Inbox → Inbox
    flush_visu payload s =
        let (queue, items) = drain s.visu in
        flush_with (parse_key_salt j payload) items (record s { visu = queue })

    abbrev pub is_empty : List VisuPending → Bool
    is_empty [] = true
    is_empty (item ∷ items) = false

    -- An answer to a command.
    abbrev pub count_mismatch : Bool → Inbox → Inbox
    count_mismatch true s = s
    count_mismatch false s = record s { correlation_mismatches = s.correlation_mismatches + 1 }

    abbrev pub flush_if : Bool → Bytes → Inbox → Inbox
    flush_if true payload s = flush_visu payload s
    flush_if false payload s = s

    abbrev pub reply : Option ℕ → Bytes → Inbox → Inbox
    reply resp payload s = record s { replies = s.replies ++ send resp (ok payload) }

    unfoldable pub on_resolved : Bytes → Resolved → Inbox → Inbox
    on_resolved payload r s =
        let counted = count_mismatch r.matched s in
        let salted =
          starts_with cmd_get_visual_passwd r.plaintext_cmd && not (is_empty counted.visu) in
        reply r.resp payload (flush_if salted payload counted)

    abbrev pub on_answer :
        Bytes → PendingQueue × Option Resolved → Inbox → Inbox × Result (Unit {0})
    on_answer payload (q, some r) s = (on_resolved payload r (record s { pending = q }), ok tt)
    on_answer payload (q, none) s = tell (on_json payload ∷ []) (record s {
      pending = note_unsolicited q;
      unsolicited_responses = s.unsolicited_responses + 1;
    })

    unfoldable pub on_text_message : Bytes → Inbox → Inbox × Result (Unit {0})
    on_text_message payload s =
        on_answer payload (resolve p (extract_ll_control p payload) keys s.pending) s

    -- The message types that are no events.
    unfoldable pub on_other : Option MessageType → Bytes → Inbox → Inbox × Result (Unit {0})
    on_other (some text) payload s = on_text_message payload s
    on_other (some keepalive) payload s =
        tell (on_keepalive ∷ []) (record s { liveness = (record_ack s.liveness).0 })
    on_other _ payload s = (s, ok tt)

    abbrev pub after_event :
        ℕ → Bytes → Bool → Inbox × Result (Unit {0}) → Inbox × Result (Unit {0})
    after_event msg_type payload event (s, err e) = (s, err e)
    after_event msg_type payload true (s, ok _) = (s, ok tt)
    after_event msg_type payload false (s, ok _) = on_other (from_u8 msg_type) payload s

    unfoldable pub dispatch : ℕ → Bytes → Inbox → Inbox × Result (Unit {0})
    dispatch msg_type payload s =
        let found = dispatch_event msg_type payload in
        after_event msg_type payload (is_some found) (
          tell (on_raw_payload msg_type payload ∷ unwrap_or [] found)
            (record s { metrics = record_message msg_type s.metrics }))
