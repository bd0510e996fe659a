-- ===== src/Handler.antt =====
-- src/client/handler.rs: lifecycle events and the guard around the user's handler. The handler is
-- what it was told so far, and whether it panics at an event is a parameter.
pub mod Channel
use loxwebsocketclient_rs.Prelude.{
  ℕ, Bool, true, false, ◌||◌, Option, none, some, List, [], ◌∷◌, ◌++◌, if◌then◌else◌,
}
use loxwebsocketclient_rs.Error.{Result, handler_panic, ok_or}

pub data ClientEvent : Type 0 where
  connected reconnected : ClientEvent
  connection_closed : Option ℕ → ClientEvent
  closed : ClientEvent

pub record HandlerGuard : Type 0 where
  pub events : List ClientEvent
  pub panicked : Bool

abbrev pub new : HandlerGuard
new = record { events = []; panicked = false }

-- A call of the handler: the handler after it and what it returns, or `none` if it unwinds.
unfoldable pub guard {ℓ} :
    {R : Type ℓ} → (List ClientEvent → Option R) → HandlerGuard → HandlerGuard × Option R
guard call h = if h.panicked then (h, none) else elim (call h.events) [
  | some value ↦ (h, some value)
  | none ↦ (record h { panicked = true }, none)
]

unfoldable pub guard_or_fail {ℓ} :
    {R : Type ℓ} → (List ClientEvent → Option R) → HandlerGuard → HandlerGuard × Result R
guard_or_fail call h = let (h', r) = guard call h in (h', ok_or handler_panic r)

module _ (panics : List ClientEvent → ClientEvent → Bool) where
  unfoldable pub lifecycle : ClientEvent → HandlerGuard → HandlerGuard
  lifecycle event h = record {
    events = h.events ++ (event ∷ []);
    panicked = h.panicked || panics h.events event;
  }
