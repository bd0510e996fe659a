-- ===== src/Pending/Fifo.antt =====
-- The order in which waiting commands are answered.
use mathlib.Core.List.{append-nil}
use loxwebsocketclient_rs.Prelude.{
  ℕ, ◌≡◌, refl, sym, ap, ◌∙◌, inl, inr, Option, none, some, List, [], ◌∷◌, ◌++◌, append_assoc, map,
  ltb, Bool-cases, Bytes,
}
use loxwebsocketclient_rs.Error.{Result, ok, err, timeout, closed}
use loxwebsocketclient_rs.Session.{Primitives, SessionKeys}
use loxwebsocketclient_rs.Pending.{
  PendingEntry, PendingQueue, Resolved, Reply, send, new, push, expire_loop, expire, fail_replies,
  fail_all, note_unsolicited, resolve, resolve_head,
}

-- What the writer, the reader and the end of a session do with the queue.
pub data Op : Type 0 where
  push_op : PendingEntry → Op
  answer_op : Option Bytes → Bytes → Op
  expire_op : ℕ → Op
  fail_op : Op

-- A waiter gets the payload that its command resolved with.
abbrev pub reply_of : Bytes → Option Resolved → List Reply
reply_of payload none = []
reply_of payload (some r) = send r.resp (ok payload)

-- A text answer that finds no waiter is noted as unsolicited.
abbrev pub noted : PendingQueue × Option Resolved → PendingQueue
noted (q, none) = note_unsolicited q
noted (q, some r) = q

abbrev pub channels : List Reply → List ℕ
channels rs = map (λ (r : Reply). r.channel) rs

abbrev pub waiter : Option ℕ → List ℕ
waiter none = []
waiter (some c) = c ∷ []

abbrev pub waiters : List PendingEntry → List ℕ
waiters [] = []
waiters (e ∷ es) = waiter e.resp ++ waiters es

abbrev pub pushed : List Op → List ℕ
pushed [] = []
pushed (push_op e ∷ ops) = waiter e.resp ++ pushed ops
pushed (answer_op _ _ ∷ ops) = pushed ops
pushed (expire_op _ ∷ ops) = pushed ops
pushed (fail_op ∷ ops) = pushed ops

module _ (p : Primitives) (keys : SessionKeys) where
  abbrev pub step : Op → PendingQueue → PendingQueue × List Reply
  step (push_op e) q = (push e q, [])
  step (answer_op control payload) q =
      (noted (resolve p control keys q), reply_of payload (resolve p control keys q).1)
  step (expire_op now) q = ((expire now q).0, (expire now q).1.0)
  step fail_op q = ((fail_all q).0, (fail_all q).1.0)

  abbrev pub run : List Op → PendingQueue → PendingQueue × List Reply
  run [] q = (q, [])
  run (op ∷ ops) q = ((run ops (step op q).0).0, (step op q).1 ++ (run ops (step op q).0).1)

abbrev pub arrives : Op → List ℕ
arrives (push_op e) = waiter e.resp
arrives (answer_op _ _) = []
arrives (expire_op _) = []
arrives fail_op = []

pub channels-send : (o : Option ℕ) (r : Result Bytes) → channels (send o r) ≡ waiter o
channels-send none r = refl
channels-send (some c) r = refl

pub channels-append : (a b : List Reply) → channels (a ++ b) ≡ channels a ++ channels b
channels-append [] b = refl
channels-append (x ∷ a) b = ap (◌∷◌ x.channel) (channels-append a b)

pub waiters-append : (a b : List PendingEntry) → waiters (a ++ b) ≡ waiters a ++ waiters b
waiters-append [] b = refl
waiters-append (x ∷ a) b =
    ap (◌++◌ (waiter x.resp)) (waiters-append a b)
    ∙ sym (append_assoc (waiter x.resp) (waiters a) (waiters b))

-- Sending to a waiter and then to those of `rs`.
channels-send_append :
    (o : Option ℕ) (r : Result Bytes) (rs : List Reply) (left all : List ℕ)
    → channels rs ++ left ≡ all
    → channels (send o r ++ rs) ++ left ≡ waiter o ++ all
channels-send_append none r rs left all e = e
channels-send_append (some c) r rs left all e = ap (◌∷◌ c) e

expire_loop-waiters :
    (now : ℕ) (es : List PendingEntry)
    → channels (expire_loop now es).replies ++ waiters (expire_loop now es).left ≡ waiters es
unfolding expire_loop
expire_loop-waiters now [] = refl
expire_loop-waiters now (e ∷ es) = elim (Bool-cases (ltb now e.deadline)) [
  | inl h ↦ rw h refl
  | inr h ↦ rw h (channels-send_append e.resp (err timeout) _ _ _ (expire_loop-waiters now es))
]

fail_replies-waiters : (es : List PendingEntry) → channels (fail_replies es) ++ [] ≡ waiters es
unfolding fail_replies
fail_replies-waiters [] = refl
fail_replies-waiters (e ∷ es) =
    channels-send_append e.resp (err closed) _ [] _ (fail_replies-waiters es)

pushed_cons : (op : Op) (ops : List Op) → arrives op ++ pushed ops ≡ pushed (op ∷ ops)
pushed_cons (push_op e) ops = refl
pushed_cons (answer_op _ _) ops = refl
pushed_cons (expire_op _) ops = refl
pushed_cons fail_op ops = refl

answer-waiters :
    (p : Primitives) (keys : SessionKeys) (control : Option Bytes) (payload : Bytes)
    (es : List PendingEntry) (m u t : ℕ)
    → let q : PendingQueue = record {
      entries = es;
      mismatches = m;
      unsolicited = u;
      timeouts = t;
    } in
      channels (reply_of payload (resolve p control keys q).1)
        ++ waiters (noted (resolve p control keys q)).entries
      ≡ waiters es
unfolding resolve resolve_head note_unsolicited
answer-waiters p keys control payload [] m u t = refl
answer-waiters p keys control payload (e ∷ es) m u t =
    ap (λ (z : List ℕ). z ++ waiters es) (channels-send e.resp (ok payload))

-- One operation.
pub step-waiters :
    (p : Primitives) (keys : SessionKeys) (op : Op) (q : PendingQueue)
    → channels (step p keys op q).1 ++ waiters (step p keys op q).0.entries
      ≡ waiters q.entries ++ arrives op
unfolding push expire fail_all
step-waiters p keys (push_op e) q =
    waiters-append q.entries (e ∷ []) ∙ ap (◌++◌ (waiters q.entries)) (append-nil (waiter e.resp))
step-waiters p keys (expire_op now) q =
    expire_loop-waiters now q.entries ∙ sym (append-nil (waiters q.entries))
step-waiters p keys fail_op q =
    fail_replies-waiters q.entries ∙ sym (append-nil (waiters q.entries))
step-waiters p keys (answer_op control payload) q =
    answer-waiters p keys control payload q.entries q.mismatches q.unsolicited q.timeouts
    ∙ sym (append-nil (waiters q.entries))

run-waiters :
    (p : Primitives) (keys : SessionKeys) (ops : List Op) (q : PendingQueue)
    → channels (run p keys ops q).1 ++ waiters (run p keys ops q).0.entries
      ≡ waiters q.entries ++ pushed ops
run-waiters p keys [] q = sym (append-nil (waiters q.entries))
run-waiters p keys (op ∷ ops) q =
    ap (λ (z : List ℕ). z ++ waiters (run p keys (op ∷ ops) q).0.entries)
      (channels-append (step p keys op q).1 (run p keys ops (step p keys op q).0).1)
    ∙ append_assoc (channels (step p keys op q).1) _ _
    ∙ ap (◌++◌ (channels (step p keys op q).1)) (run-waiters p keys ops (step p keys op q).0)
    ∙ sym (
        append_assoc (channels (step p keys op q).1) (waiters (step p keys op q).0.entries)
          (pushed ops))
    ∙ ap (λ (z : List ℕ). z ++ pushed ops) (step-waiters p keys op q)
    ∙ append_assoc (waiters q.entries) (arrives op) (pushed ops)
    ∙ ap (◌++◌ (waiters q.entries)) (pushed_cons op ops)

-- Starting with an empty queue, whatever answers come, whatever expires and however often the queue
-- is failed: the channels that were replied to, followed by those of the commands that still wait,
-- are those of the commands that were pushed, in their order. So a command with a channel gets one
-- reply at most, in the order of pushing, and none is lost; and once the queue is failed at the end,
-- every one has had its reply.
pub run-fifo :
    (p : Primitives) (keys : SessionKeys) (ops : List Op)
    → (channels (run p keys ops new).1 ++ waiters (run p keys ops new).0.entries ≡ pushed ops)
      × (channels ((run p keys ops new).1 ++ (step p keys fail_op (run p keys ops new).0).1)
          ≡ pushed ops)
unfolding new fail_all
run-fifo p keys ops = (all, ended)
  where
    all : channels (run p keys ops new).1 ++ waiters (run p keys ops new).0.entries ≡ pushed ops
    all = run-waiters p keys ops new

    ended :
        channels ((run p keys ops new).1 ++ (step p keys fail_op (run p keys ops new).0).1)
        ≡ pushed ops
    ended =
        channels-append (run p keys ops new).1 _
        ∙ ap (◌++◌ (channels (run p keys ops new).1))
            (sym (append-nil _) ∙ fail_replies-waiters (run p keys ops new).0.entries)
        ∙ all
