-- ===== src/Dispatch/Secured.antt =====
-- What the reader sends for the secured commands that wait for a salt.
use loxwebsocketclient_rs.Prelude.{
  ℕ, suc, ◌+◌, ◌≤◌, ◌≡◌, refl, ap, arith, Bool, true, false, ◌&&◌, not, Option, none, some, List,
  [], ◌∷◌, length, length-append, subst, Bytes,
}
use loxwebsocketclient_rs.Error.{Result, ok, err}
use loxwebsocketclient_rs.Json.{Json}
use loxwebsocketclient_rs.Hash.{KeySalt, Digests, hash_visu_password}
use loxwebsocketclient_rs.Session.{Primitives, SessionKeys}
use loxwebsocketclient_rs.Proto.Header.{
  MessageType, from_u8, text, keepalive, binary_file, value_states, text_states, daytimer_states,
  out_of_service, weather_states,
}
use loxwebsocketclient_rs.Flow.{unwrap_or, parse_key_salt, cmd_get_visual_passwd}
use loxwebsocketclient_rs.Str.{starts_with}
use loxwebsocketclient_rs.Writer.{VisuPending, visu_push}
use loxwebsocketclient_rs.Metrics.{record_message}
use loxwebsocketclient_rs.Pending.{PendingQueue, Resolved}
use loxwebsocketclient_rs.Dispatch.{
  HandlerCall, on_raw_payload, Inbox, dispatch, dispatch_event, is_some, after_event, on_other,
  on_text_message, on_answer, on_resolved, flush_visu, send_items, send_item, flush_with, flush_if,
  count_mismatch, is_empty, tell,
}

-- The writer queues a secured command, or the reader gets a message.
pub data Act : Type 0 where
  queued : VisuPending → Act
  message : ℕ → Bytes → Act

abbrev pub queued_by : List Act → ℕ
queued_by [] = 0
queued_by (queued item ∷ acts) = 1 + queued_by acts
queued_by (message t payload ∷ acts) = queued_by acts

-- The secured commands that were sent or may still be.
abbrev pub budget : Inbox → ℕ
budget s = length s.sent + length s.visu

visu_push-length :
    (item : VisuPending) (q : List VisuPending) → length (visu_push item q) ≤ 1 + length q
unfolding visu_push
visu_push-length item [] = omega arith
visu_push-length item (o ∷ q) = rw (length-append q (item ∷ [])) (omega arith)

module _ (panics : List HandlerCall → HandlerCall → Bool) (j : Json) (d : Digests) (p : Primitives)
    (keys : SessionKeys) where
  abbrev Within : ℕ → Inbox → Inbox → Type 0
  Within n s t = (length t.sent ≤ n + length s.sent) × (t.visu ≡ s.visu)

  send_item-Within :
      (r : Result Bytes) (open_ : Bool) (item : VisuPending) (next : Inbox → Inbox) (n : ℕ)
      (s : Inbox)
      → ((s' : Inbox) → Within n s' (next s'))
      → Within (suc n) s (send_item panics j d p keys r open_ item next s)
  unfolding send_item
  send_item-Within (err e) open_ item next n s h = let (a, b) = h s in (omega arith, b)
  send_item-Within (ok hash) false item next n s h = (omega arith, refl)
  send_item-Within (ok hash) true item next n s h =
      let (a, b) = h _ in (omega (arith, a, length-append s.sent (_ ∷ [])), b)

  send_items-Within :
      (ks : KeySalt) (items : List VisuPending) (s : Inbox)
      → Within (length items) s (send_items panics j d p keys ks items s)
  unfolding send_items
  send_items-Within ks [] s = (omega arith, refl)
  send_items-Within ks (item ∷ items) s =
      send_item-Within (hash_visu_password d ks item.visu_pw) s.writer_open item
        (λ s'. send_items panics j d p keys ks items s') (length items) s
        (send_items-Within ks items)

  flush_with-Within :
      (r : Result KeySalt) (items : List VisuPending) (s : Inbox)
      → Within (length items) s (flush_with panics j d p keys r items s)
  unfolding flush_with
  flush_with-Within (err e) items s = (omega arith, refl)
  flush_with-Within (ok ks) items s = send_items-Within ks items s

  flush_if-budget :
      (b : Bool) (payload : Bytes) (s : Inbox)
      → budget (flush_if panics j d p keys b payload s) ≤ budget s
  unfolding flush_visu
  flush_if-budget false payload s = omega arith
  flush_if-budget true payload s =
      let (a, b) = flush_with-Within (parse_key_salt j payload) s.visu (record s { visu = [] }) in
      let c = ap length b in omega (arith, a, c)

  count_mismatch-budget :
      (b : Bool) (s : Inbox) → budget (count_mismatch panics j d p keys b s) ≡ budget s
  count_mismatch-budget true s = refl
  count_mismatch-budget false s = refl

  on_resolved-budget :
      (payload : Bytes) (r : Resolved) (s : Inbox)
      → budget (on_resolved panics j d p keys payload r s) ≤ budget s
  unfolding on_resolved
  on_resolved-budget payload r s =
      let counted = count_mismatch panics j d p keys r.matched s in
      subst
        (λ n.
          budget (
            flush_if panics j d p keys
              (starts_with cmd_get_visual_passwd r.plaintext_cmd
                && not (is_empty panics j d p keys counted.visu))
              payload counted)
          ≤ n)
        (count_mismatch-budget r.matched s) (flush_if-budget _ payload counted)

  on_answer-budget :
      (payload : Bytes) (found : PendingQueue × Option Resolved) (s : Inbox)
      → budget (on_answer panics j d p keys payload found s).0 ≤ budget s
  on_answer-budget payload (q, some r) s = on_resolved-budget payload r (record s { pending = q })
  on_answer-budget payload (q, none) s = omega arith

  on_other-budget :
      (t : Option MessageType) (payload : Bytes) (s : Inbox)
      → budget (on_other panics j d p keys t payload s).0 ≤ budget s
  unfolding on_other on_text_message
  on_other-budget none payload s = omega arith
  on_other-budget (some text) payload s = on_answer-budget payload _ s
  on_other-budget (some keepalive) payload s = omega arith
  on_other-budget (some binary_file) payload s = omega arith
  on_other-budget (some value_states) payload s = omega arith
  on_other-budget (some text_states) payload s = omega arith
  on_other-budget (some daytimer_states) payload s = omega arith
  on_other-budget (some weather_states) payload s = omega arith
  on_other-budget (some out_of_service) payload s = omega arith

  after_event-budget :
      (t : ℕ) (payload : Bytes) (event : Bool) (s : Inbox) (r : Result (Unit {0}))
      → budget (after_event panics j d p keys t payload event (s, r)).0 ≤ budget s
  after_event-budget t payload event s (err e) = omega arith
  after_event-budget t payload true s (ok u) = omega arith
  after_event-budget t payload false s (ok u) = on_other-budget (from_u8 t) payload s

  dispatch-budget :
      (t : ℕ) (payload : Bytes) (s : Inbox)
      → budget (dispatch panics j d p keys t payload s).0 ≤ budget s
  unfolding dispatch
  dispatch-budget t payload s =
      let counted = record s { metrics = record_message t s.metrics } in
      let told =
        tell panics (on_raw_payload t payload ∷ unwrap_or [] (dispatch_event t payload)) counted in
      after_event-budget t payload (is_some (dispatch_event t payload)) told.0 told.1

  abbrev pub after_acts : List Act → Inbox → Inbox
  after_acts [] s = s
  after_acts (queued item ∷ acts) s = after_acts acts (record s { visu = visu_push item s.visu })
  after_acts (message t payload ∷ acts) s =
      after_acts acts (dispatch panics j d p keys t payload s).0

  -- However messages and secured commands of the client interleave, and whatever the Miniserver
  -- answers, the secured commands that the reader has sent and those that still wait are together
  -- no more than what was there at first and what the client queued.
  pub after_acts-budget :
      (acts : List Act) (s : Inbox) → budget (after_acts acts s) ≤ budget s + queued_by acts
  after_acts-budget [] s = omega arith
  after_acts-budget (queued item ∷ acts) s =
      let rest = after_acts-budget acts (record s { visu = visu_push item s.visu }) in
      let here = visu_push-length item s.visu in omega (arith, rest, here)
  after_acts-budget (message t payload ∷ acts) s =
      let rest = after_acts-budget acts (dispatch panics j d p keys t payload s).0 in
      let here = dispatch-budget t payload s in omega (arith, rest, here)
