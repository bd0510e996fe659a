-- ===== src/Facade/Runs.antt =====
-- Controls through a channel for one command, and the life of a client.
use loxwebsocketclient_rs.Prelude.{inl, ℕ, ◌≡◌, true, false, some, refl, arith, List, [], ◌∷◌}
use loxwebsocketclient_rs.Error.{err, timeout}
use loxwebsocketclient_rs.Writer.{control, stop}
use loxwebsocketclient_rs.Facade.Config.{ConnectConfig}
use loxwebsocketclient_rs.Facade.Config
use loxwebsocketclient_rs.Facade.Life.{late, stop_client, on_ready, answered}
use loxwebsocketclient_rs.Facade.{LoxClient, send}
use loxwebsocketclient_rs.Str.{codes}
use loxwebsocketclient_rs.Metrics
use loxwebsocketclient_rs.Facade.{new}
use loxwebsocketclient_rs.Facade.Queue.{
  Act, control_call, takes, closes, becomes, Trace, acts, IsDelivery, acts-IsDelivery,
}

-- The first and the third are refused: there is no session, and no room.
abbrev script : List Act
script =
    control_call (codes "a") (codes "on")
    ∷ becomes Metrics.connected
    ∷ control_call (codes "b") (codes "on")
    ∷ control_call (codes "c") (codes "on")
    ∷ takes
    ∷ control_call (codes "d") (codes "on")
    ∷ closes
    ∷ control_call (codes "e") (codes "on")
    ∷ []

abbrev start : Trace
start = record { client = new 0; taken = []; lost = []; accepted = [] }

acts-IsDelivery_example : IsDelivery (acts script start)
unfolding new
acts-IsDelivery_example = acts-IsDelivery script start (refl, omega arith, inl (refl, refl))

-- A client with one control in a channel for two commands.
abbrev busy : LoxClient
busy = record start.client {
  queue = control (codes "a") (codes "on") ∷ [];
  capacity = 2;
  join = true;
}

-- The task does not end in time.
busy-stopped :
    stop_client late busy
    ≡ some (
      record busy {
        queue = control (codes "a") (codes "on") ∷ stop ∷ [];
        stopped = true;
        join = false;
      },
      err timeout,
    )
unfolding stop_client send new
busy-stopped = refl

-- A refused connection leaves nothing running.
refused-stopped : (on_ready (answered (err timeout)) (new 3)).0.stopped ≡ true
unfolding on_ready new
refused-stopped = refl

default-idle : (Config.new {S = ℕ} (codes "h") (codes "u") (codes "p")).read_idle_timeout_secs ≡ 150
unfolding Config.new
default-idle = refl
