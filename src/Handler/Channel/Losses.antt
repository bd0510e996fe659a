-- ===== src/Handler/Channel/Losses.antt =====
-- What reaches the consumer of the channel, and what is counted as dropped.
use loxwebsocketclient_rs.Prelude.{ℕ, ◌+◌, ◌≤◌, ◌≡◌, false, List, [], ◌∷◌, ◌++◌, length}
use loxwebsocketclient_rs.Handler.{ClientEvent}
use loxwebsocketclient_rs.Dispatch.{HandlerCall}
use loxwebsocketclient_rs.Handler.Channel.{
  OwnedEvent, lifecycle, ChannelHandler, new, owned, call, on_event,
}

-- A call of the reader or of the supervisor; the consumer takes an event, or closes
-- its receiver (`Receiver::close`), which keeps what waits in it.
pub data Act : Type 0 where
  calls : HandlerCall → Act
  tells : ClientEvent → Act
  takes closes : Act

-- The handler, what the consumer took, and what the calls offered.
pub record Trace : Type 0 where
  pub handler : ChannelHandler
  pub taken : List OwnedEvent
  pub offered : List OwnedEvent

abbrev take_from : List OwnedEvent → Trace → Trace
take_from [] t = t
take_from (event ∷ rest) t = record {
  handler = record t.handler { queue = rest };
  taken = t.taken ++ (event ∷ []);
  offered = t.offered;
}

abbrev pub act : Act → Trace → Trace
act (calls c) t = record t { handler = call c t.handler; offered = t.offered ++ owned c }
act (tells event) t = record t {
  handler = on_event event t.handler;
  offered = t.offered ++ (lifecycle event ∷ []);
}
act takes t = take_from t.handler.queue t
act closes t = record t { handler = record t.handler { receiver_open = false } }

abbrev pub run : List Act → Trace → Trace
run [] t = t
run (a ∷ acts) t = run acts (act a t)

-- The first list is the second without so many of its elements.
pub data Thinned : List OwnedEvent → List OwnedEvent → ℕ → Type 0 where
  nothing : Thinned [] [] 0
  keep :
      {xs ys : List OwnedEvent} {n : ℕ} (x : OwnedEvent)
      → Thinned xs ys n
      → Thinned (x ∷ xs) (x ∷ ys) n
  skip :
      {xs ys : List OwnedEvent} {n m : ℕ} (y : OwnedEvent)
      → m ≡ n + 1
      → Thinned xs ys n
      → Thinned xs (y ∷ ys) m

-- What the consumer has or will get is what was offered, in its order and without the dropped, and
-- the channel holds no more than its buffer.
abbrev pub IsFaithful : Trace → Type 0
IsFaithful t =
    Thinned (t.taken ++ t.handler.queue) t.offered t.handler.dropped
    × (length t.handler.queue ≤ t.handler.buffer)

abbrev Faithful : List OwnedEvent → List OwnedEvent → ChannelHandler → Type 0
Faithful taken offered h =
    Thinned (taken ++ h.queue) offered h.dropped × (length h.queue ≤ h.buffer)

queued : OwnedEvent → ChannelHandler → ChannelHandler
queued event h = record h { queue = h.queue ++ (event ∷ []) }

unfoldable pub start : ℕ → Trace
unfolding new
start buffer = record { handler = new buffer; taken = []; offered = [] }
