-- ===== src/Handler/Channel/Runs.antt =====
-- A run of the channel handler in which events are dropped, at a full and at a closed channel.
use loxwebsocketclient_rs.Prelude.{◌≡◌, refl, List, [], ◌∷◌}
use loxwebsocketclient_rs.Handler.{connected, reconnected, closed}
use loxwebsocketclient_rs.Dispatch.{on_json, on_keepalive, on_raw_payload}
use loxwebsocketclient_rs.Handler.Channel.{
  json, lifecycle, new, count_drop, send, owned, call, on_event,
}
use loxwebsocketclient_rs.Handler.Channel.Losses.{Act, calls, tells, takes, closes, run, start}

abbrev acts : List Act
acts =
    tells connected
    ∷ calls (on_json (5 ∷ []))
    ∷ calls on_keepalive
    ∷ takes
    ∷ calls (on_raw_payload 3 (1 ∷ []))
    ∷ tells reconnected
    ∷ closes
    ∷ tells closed
    ∷ []

acts-dropped : (run acts (start 2)).handler.dropped ≡ 2
unfolding start new send count_drop owned call on_event
acts-dropped = refl

acts-queued : (run acts (start 2)).handler.queue ≡ json (5 ∷ []) ∷ lifecycle reconnected ∷ []
unfolding start new send count_drop owned call on_event
acts-queued = refl
