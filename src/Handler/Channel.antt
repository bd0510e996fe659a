-- ===== src/Handler/Channel.antt =====
-- src/client/handler.rs, ChannelHandler: the handler that copies events into a bounded channel. The
-- channel is the events in it; what the consumer does is a step of its own.
pub mod Losses
mod Runs
use loxwebsocketclient_rs.Prelude.{
  ℕ, ◌+◌, Bool, true, false, List, [], ◌∷◌, ◌++◌, ltb, max, length, if◌then◌else◌, Bytes,
}
use loxwebsocketclient_rs.Proto.Value.{ValueRecord}
use loxwebsocketclient_rs.Proto.Text.{TextEvent}
use loxwebsocketclient_rs.Handler.{ClientEvent}
use loxwebsocketclient_rs.Dispatch.{
  HandlerCall, on_raw_payload, on_binary, on_value, on_text, on_daytimer, on_weather, on_json,
  on_keepalive,
}

pub data OwnedEvent : Type 0 where
  value : ValueRecord → OwnedEvent
  text : TextEvent → OwnedEvent
  json binary : Bytes → OwnedEvent
  keepalive : OwnedEvent
  lifecycle : ClientEvent → OwnedEvent

-- `buffer` is the channel's capacity, and `dropped` the counter that `DropCounter::get` reads.
pub record ChannelHandler : Type 0 where
  pub queue : List OwnedEvent
  pub buffer : ℕ
  pub receiver_open : Bool
  pub dropped : ℕ

-- `mpsc::channel` panics at a buffer of 0.
unfoldable pub new : ℕ → ChannelHandler
new buffer = record { queue = []; buffer = buffer; receiver_open = true; dropped = 0 }

unfoldable pub count_drop : ChannelHandler → ChannelHandler
count_drop h = record h { dropped = h.dropped + 1 }

unfoldable pub send : OwnedEvent → ChannelHandler → ChannelHandler
unfolding count_drop
send event h =
    if h.receiver_open
    then (if ltb (length h.queue) h.buffer
        then record h { queue = h.queue ++ (event ∷ []) }
        else count_drop h)
    else count_drop h

-- The events that a call is copied into; the trait's own methods do nothing.
unfoldable pub owned : HandlerCall → List OwnedEvent
owned (on_raw_payload msg_type payload) = []
owned (on_binary payload) = binary payload ∷ []
owned (on_value record_) = value record_ ∷ []
owned (on_text event) = text event ∷ []
owned (on_daytimer event) = []
owned (on_weather event) = []
owned (on_json payload) = json payload ∷ []
owned on_keepalive = keepalive ∷ []

abbrev pub send_all : List OwnedEvent → ChannelHandler → ChannelHandler
send_all [] h = h
send_all (event ∷ events) h = send_all events (send event h)

unfoldable pub call : HandlerCall → ChannelHandler → ChannelHandler
call c h = send_all (owned c) h

unfoldable pub on_event : ClientEvent → ChannelHandler → ChannelHandler
on_event event h = send (lifecycle event) h
