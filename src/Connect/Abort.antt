-- ===== src/Connect/Abort.antt =====
-- src/client/connect.rs, AbortableRead: the read half of the stream, which another task can end. The
-- `oneshot` channel is the state of its receiver, whose poll panics once it has given its answer.
use loxwebsocketclient_rs.Prelude.{
  ◌≡◌, refl, ap, Bool, true, false, Option, none, some, List, [], ◌∷◌, if◌then◌else◌,
}
use mathlib.Core.Option

pub data Oneshot : Type 0 where
  empty filled taken : Oneshot

pub record AbortableRead : Type 0 where
  pub abort : Oneshot
  pub aborted : Bool

unfoldable pub new : AbortableRead
new = record { abort = empty; aborted = false }

-- The answer of the inner stream, or the error `ConnectionAborted`.
pub data Polled {ℓ} (A : Type ℓ) : Type ℓ where
  inner : A → Polled A
  connection_aborted : Polled A

module _ {A : Type 0} where
  -- A poll of the stream where the inner one would answer so, or `none` if it panics.
  unfoldable pub poll_read : A → AbortableRead → Option (AbortableRead × Polled A)
  poll_read answer r = if r.aborted then some (r, connection_aborted) else elim r.abort [
    | empty ↦ some (r, inner answer)
    | filled ↦ some (record { abort = taken; aborted = true }, connection_aborted)
    | taken ↦ none
  ]

-- The other task sends on the handle or drops it.
pub data Event (A : Type 0) : Type 0 where
  polls : A → Event A
  aborts : Event A

abbrev pub fill : Oneshot → Oneshot
fill empty = filled
fill filled = filled
fill taken = taken

module _ {A : Type 0} where
  abbrev pub polled :
      Option (AbortableRead × Polled A)
      → (AbortableRead → Option (List (Polled A)))
      → Option (List (Polled A))
  polled none next = none
  polled (some (r, p)) next = Option.map (λ ps. p ∷ ps) (next r)

  abbrev pub run : List (Event A) → AbortableRead → Option (List (Polled A))
  run [] r = some []
  run (polls a ∷ es) r = polled (poll_read a r) (run es)
  run (aborts ∷ es) r = run es (record r { abort = fill r.abort })

  -- Polls pass up to the abort, and none after it.
  unfoldable pub cut : Bool → List (Event A) → List (Polled A)
  cut asked [] = []
  cut asked (polls a ∷ es) = (if asked then connection_aborted else inner a) ∷ cut asked es
  cut asked (aborts ∷ es) = cut true es

  run-over :
      (es : List (Event A)) → run es (record { abort = taken; aborted = true }) ≡ some (cut true es)
  unfolding poll_read cut
  run-over [] = refl
  run-over (polls a ∷ es) = ap (Option.map (λ ps. connection_aborted ∷ ps)) (run-over es)
  run-over (aborts ∷ es) = run-over es

  run-asked :
      (es : List (Event A))
      → run es (record { abort = filled; aborted = false }) ≡ some (cut true es)
  unfolding poll_read cut
  run-asked [] = refl
  run-asked (polls a ∷ es) = ap (Option.map (λ ps. connection_aborted ∷ ps)) (run-over es)
  run-asked (aborts ∷ es) = run-asked es

  -- For every order of polls and of the other task's abort, no poll panics; a poll before the abort
  -- gives what the inner stream answers, and every poll after it the error, whatever waits in the
  -- inner stream.
  pub run-cut : (es : List (Event A)) → run es new ≡ some (cut false es)
  unfolding new poll_read cut
  run-cut [] = refl
  run-cut (polls a ∷ es) = ap (Option.map (λ ps. inner a ∷ ps)) (run-cut es)
  run-cut (aborts ∷ es) = run-asked es
