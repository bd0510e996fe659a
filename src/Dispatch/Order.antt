-- ===== src/Dispatch/Order.antt =====
-- What the messages do to the commands that wait, and to the secured commands.
use loxwebsocketclient_rs.Prelude.{
  ℕ, ◌≡◌, Bool, true, false, Option, some, List, [], ◌∷◌, ◌++◌, if◌then◌else◌, Bytes,
}
use loxwebsocketclient_rs.Error.{ok}
use loxwebsocketclient_rs.Json.{Json}
use loxwebsocketclient_rs.Hash.{Digests}
use loxwebsocketclient_rs.Session.{Primitives, SessionKeys}
use loxwebsocketclient_rs.Proto.Header.{MessageType, from_u8, text}
use loxwebsocketclient_rs.Pending.{PendingEntry, Reply, send}
use loxwebsocketclient_rs.Reader.Framing.{Message}
use loxwebsocketclient_rs.Dispatch.{HandlerCall, Inbox}

-- A message whose type is text.
abbrev pub is_text_type : Option MessageType → Bool
is_text_type (some text) = true
is_text_type _ = false

abbrev pub is_text : ℕ → Bool
is_text msg_type = is_text_type (from_u8 msg_type)

abbrev pub rest_of : List PendingEntry → List PendingEntry
rest_of [] = []
rest_of (e ∷ es) = es

abbrev pub answer_to : List PendingEntry → Bytes → List Reply
answer_to [] payload = []
answer_to (e ∷ es) payload = send e.resp (ok payload)

-- The answers go to the waiting commands in their order, one each, and an answer that no command
-- waits for to none.
abbrev pub waiting : List Message → List PendingEntry → List PendingEntry
waiting [] es = es
waiting (m ∷ ms) es = waiting ms (if is_text m.msg_type then rest_of es else es)

abbrev pub answers : List Message → List PendingEntry → List Reply
answers [] es = []
answers (m ∷ ms) es =
    (if is_text m.msg_type then answer_to es m.payload else [])
    ++ answers ms (if is_text m.msg_type then rest_of es else es)

module _ (panics : List HandlerCall → HandlerCall → Bool) (j : Json) (d : Digests) (p : Primitives)
    (keys : SessionKeys) where
  -- What a message leaves of the waiting commands and the replies.
  abbrev Serves : Bool → Bytes → List PendingEntry → List Reply → Inbox → Type 0
  Serves b payload es rs t =
      (t.pending.entries ≡ (if b then rest_of es else es))
      × (t.replies ≡ rs ++ (if b then answer_to es payload else []))
