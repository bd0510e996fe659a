-- ===== src/Writer/Close/Kept.antt =====
-- What the end of a session leaves of the token and of the commands that wait.
use loxwebsocketclient_rs.Prelude.{
  ℕ, ◌≡◌, ◌⊎◌, Bool, true, false, Option, some, List, [], ◌∷◌, ◌++◌, if◌then◌else◌, Bytes,
}
use loxwebsocketclient_rs.Json.{Json}
use loxwebsocketclient_rs.Hash.{Digests}
use loxwebsocketclient_rs.Str.{codes}
use loxwebsocketclient_rs.Session.{Primitives, SessionKeys}
use loxwebsocketclient_rs.Reader.{close}
use loxwebsocketclient_rs.Shared.{TokenStore, SharedState, clear_token}
use loxwebsocketclient_rs.Writer.{WriterConfig, Outgoing, control_out}
use loxwebsocketclient_rs.Writer.Close.{SessionState}

module _ (p : Primitives) (keys : SessionKeys) (cfg : WriterConfig) (j : Json) (d : Digests)
    (close_payload : ℕ → Bytes → Bytes) {S : Type 0} (store : TokenStore S) where
  abbrev Same : SessionState S → SessionState S → Type 0
  Same s s' = (s'.shared ≡ s.shared) × (s'.writer.stopped ≡ s.writer.stopped)

  -- What is left when the session has ended: no command waits, and the reader is told to stop.
  abbrev Settled : SessionState S → Type 0
  Settled s' = (s'.writer.pending.entries ≡ []) × (s'.writer.visu ≡ []) × (s'.abort_reader ≡ false)

  abbrev after_stop : SharedState S → SharedState S
  after_stop shared = if cfg.kill_token_on_stop then clear_token store shared else shared

  abbrev Stopped : SharedState S → SessionState S → Type 0
  Stopped shared s' =
      (s'.shared ≡ after_stop shared)
      × (s'.writer.stopped ≡ true)
      × (frames : List Outgoing) × (s'.frames
          ≡ frames ++ (control_out close (close_payload 1000 (codes "bye")) ∷ []))

  -- The two ways in which the session ends: a loss keeps the token and leaves the client running.
  abbrev pub Ended : Bool → SharedState S → Bool → SessionState S → Type 0
  Ended asked shared stopped s' =
      Settled s'
      × (((s'.shared ≡ shared) × (s'.writer.stopped ≡ stopped))
          ⊎ ((asked ≡ true) × Stopped shared s'))

  abbrev Continues :
      Bool → SharedState S → Bool → (SessionState S → Option (SessionState S)) → Type 0
  Continues asked shared stopped next =
      (s s' : SessionState S)
      → s.shared ≡ shared
      → s.writer.stopped ≡ stopped
      → next s ≡ some s'
      → Ended asked shared stopped s'
