-- ===== src/Facade/Life.antt =====
-- src/client/mod.rs: how a client comes to be and how it ends. What the supervisor's task answers on
-- the `ready` channel, and how joining it ends, are arguments.
use loxwebsocketclient_rs.Prelude.{
  ◌↔◌, ℕ, ◌≤◌, ◌≡◌, Bool, true, false, not, Option, none, some, List, [], ◌∷◌, ◌++◌, length,
  if◌then◌else◌, Bytes,
}
use loxwebsocketclient_rs.Error.{web_socket, timeout, Result, ok, err}
use loxwebsocketclient_rs.Writer.{IoCommand, stop}
use loxwebsocketclient_rs.Shared.{TokenStore, SharedState, restore_token}
use loxwebsocketclient_rs.Shared
use loxwebsocketclient_rs.Store.{token_binding}
use loxwebsocketclient_rs.Facade.{LoxClient, queued, full, closed, try_send, send}
use loxwebsocketclient_rs.Facade
use loxwebsocketclient_rs.Facade.Config.{ConnectConfig}

pub data Ready : Type 0 where
  answered : Result (Unit {0}) → Ready
  dropped : Ready

-- The flag is set and the task awaited.
abbrev pub wound_down : LoxClient → LoxClient
wound_down c = record c { stopped = true; join = false }

unfoldable pub on_ready : Ready → LoxClient → LoxClient × Result (Unit {0})
on_ready (answered (ok _)) c = (c, ok tt)
on_ready (answered (err e)) c = (wound_down c, err e)
on_ready dropped c = (wound_down c, err web_socket)

module _ {S : Type 0} (store : TokenStore S) (sha256 : Bytes → Bytes) where
  abbrev pub open_with : Option S → ℕ → S → Bytes → SharedState S
  open_with none now nothing binding = Shared.new none nothing
  open_with (some saved) now nothing binding =
      restore_token store now (Shared.new (some binding) saved)

  -- The token of an earlier run is there before the task starts; `nothing` stands for no store.
  unfoldable pub open_shared : ConnectConfig S → ℕ → S → SharedState S
  open_shared cfg now nothing =
      open_with cfg.token_store now nothing
        (token_binding sha256 cfg.loxone_url cfg.username cfg.client_uuid)

  -- The task gets the shared state.
  unfoldable pub connect :
      ConnectConfig S
      → ℕ
      → S
      → (SharedState S → SharedState S × Ready)
      → SharedState S × (LoxClient × Result (Unit {0}))
  connect cfg now nothing run =
      let (shared, ready) = run (open_shared cfg now nothing) in
      (shared, on_ready ready (Facade.new cfg.command_channel_depth))

-- How the task ends within `SHUTDOWN_JOIN_TIMEOUT_SECS`.
pub data Joined : Type 0 where
  finished panicked late : Joined

abbrev pub join_result : Joined → Result (Unit {0})
join_result finished = ok tt
join_result panicked = err web_socket
join_result late = err timeout

abbrev pub take_join : Joined → LoxClient → LoxClient × Result (Unit {0})
take_join j c = if c.join then (record c { join = false }, join_result j) else (c, ok tt)

abbrev pub after_send :
    Joined → Option (LoxClient × Result (Unit {0})) → Option (LoxClient × Result (Unit {0}))
after_send j none = none
after_send j (some (c, sent)) = some (take_join j c)

-- `LoxClient::stop`: `none` while its command waits for room.
unfoldable pub stop_client : Joined → LoxClient → Option (LoxClient × Result (Unit {0}))
stop_client j c = after_send j (send stop (record c { stopped = true }))

-- How a drop winds the task down.
pub data WindDown : Type 0 where
  already_stopped stop_queued send_detached task_aborted : WindDown

-- Whether there is a runtime to spawn on.
unfoldable pub drop_client : Bool → LoxClient → LoxClient × WindDown
drop_client has_runtime c =
    if not c.join
    then (c, already_stopped)
    else let (c', sent) = try_send stop (record c { stopped = true; join = false }) in
      let otherwise : WindDown = if has_runtime then send_detached else task_aborted in
      (c', elim sent [ queued ↦ stop_queued | full ↦ otherwise | closed ↦ otherwise ])

-- The channel after one `Stop`.
abbrev pub with_stop : LoxClient → List IoCommand
with_stop c = if c.receiver_open then c.queue ++ (stop ∷ []) else c.queue

-- What a stop leaves: one `Stop` in an open channel, and nothing to do for a drop.
abbrev pub Stopped : Joined → Bool → LoxClient → Option (LoxClient × Result (Unit {0})) → Type 0
Stopped j has_runtime c none = (c.receiver_open ≡ true) × (c.capacity ≤ length c.queue)
Stopped j has_runtime c (some (c', r)) =
    (c'.stopped ≡ true)
    × ((c'.queue ≡ with_stop c)
        × ((((r ≡ ok tt) ↔ (j ≡ finished)) × ((r ≡ err timeout) ↔ (j ≡ late)))
            × (drop_client has_runtime c' ≡ (c', already_stopped))))
