-- ===== src/Refresh.antt =====
-- src/client/refresh.rs: the task that refreshes the token. What the writer answers to a command, and
-- what the clock shows, is a `Try` for each attempt; the loop runs over a list of them.
pub mod Attempts
mod Runs
use loxwebsocketclient_rs.Prelude.{
  ℕ, zero, suc, ◌+◌, ◌-◌, ◌*◌, Bool, true, false, not, ◌||◌, Option, none, some, List, [], ◌∷◌,
  ◌++◌, leb, ◌==◌, max, if◌then◌else◌, Bytes,
}
use loxwebsocketclient_rs.Prelude.Int.{ℤ, pos, negsuc, ◌-ℤ◌}
use loxwebsocketclient_rs.Error.{Error, Result, ok, err, ◌>>=◌}
use loxwebsocketclient_rs.Str.{bytes_eq}
use loxwebsocketclient_rs.Json.{Json}
use loxwebsocketclient_rs.Hash.{Digests}
use loxwebsocketclient_rs.Token.{LxToken, is_empty, wrap_i64, seconds_to_expire}
use loxwebsocketclient_rs.Flow.{cmd_get_key, cmd_refresh_token, build_token_hash, apply_valid_until}
use loxwebsocketclient_rs.Shared.{TokenStore, SharedState, set_token, token_valid_until}
use loxwebsocketclient_rs.Writer.{IoCommand, drop_session}

abbrev pub max_refresh_attempts : ℕ
max_refresh_attempts = 3

abbrev pub token_refresh_seconds_before_expiry : ℕ
token_refresh_seconds_before_expiry = 24 * 60 * 60

abbrev pub token_refresh_default_seconds : ℕ
token_refresh_default_seconds = 2 * 24 * 60 * 60

abbrev pub token_refresh_min_delay_secs : ℕ
token_refresh_min_delay_secs = 15

-- `seconds.max(least)`, and never negative.
abbrev pub at_least : ℕ → ℤ → ℕ
at_least least (pos n) = max n least
at_least least (negsuc n) = least

unfoldable pub next_refresh_delay : {S : Type 0} → ℕ → SharedState S → ℕ
next_refresh_delay now s = elim (token_valid_until s) [
  | none ↦ token_refresh_default_seconds
  | some v ↦
      at_least token_refresh_min_delay_secs
        (wrap_i64 (seconds_to_expire now s.token -ℤ pos token_refresh_seconds_before_expiry))
]

-- What one attempt meets: the clock before it, the answers to the two commands, and what others make
-- of the shared state while it waits for each, and between the second look at the token and the
-- moment where the refreshed one is set, for the lock is free in between.
pub record Try (S : Type 0) : Type 0 where
  pub now : ℕ
  pub answer : Bytes → Result Bytes
  pub during_key : SharedState S → SharedState S
  pub during_refresh : SharedState S → SharedState S
  pub during_adopt : SharedState S → SharedState S

pub data Event : Type 0 where
  sleeps : ℕ → Event
  attempts : Event

module _ (j : Json) (d : Digests) {S : Type 0} (store : TokenStore S) (username : Bytes) where
  abbrev pub Outcome : Type 0
  Outcome = SharedState S × Result Bool

  abbrev pub adopt_refreshed : Try S → SharedState S → Result LxToken → Outcome
  adopt_refreshed t s (err e) = (s, err e)
  adopt_refreshed t s (ok current) = (set_token store current (t.during_adopt s), ok true)

  -- The token is read again before the answer to the refresh is used.
  unfoldable pub on_refresh_answer : Try S → LxToken → SharedState S → Result Bytes → Outcome
  on_refresh_answer t token s (err e) = (s, err e)
  on_refresh_answer t token s (ok resp) =
      if is_empty s.token || not (bytes_eq s.token.token token.token)
      then (s, ok false)
      else adopt_refreshed t s (apply_valid_until j s.token resp)

  unfoldable pub on_hash : Try S → LxToken → SharedState S → Result Bytes → Outcome
  on_hash t token s (err e) = (s, err e)
  on_hash t token s (ok hash) =
      on_refresh_answer t token (t.during_refresh s) (t.answer (cmd_refresh_token hash username))

  unfoldable pub refresh_once : Try S → SharedState S → Outcome
  refresh_once t s =
      if is_empty s.token
      then (s, ok false)
      else on_hash t s.token (t.during_key s)
          (t.answer cmd_get_key >>= λ key. build_token_hash j d key s.token)

  -- What the task did in its order, the commands that it sent at its end, and the state.
  pub record Task : Type 0 where
    pub log : List Event
    pub sent : List IoCommand
    pub shared : SharedState S

  unfoldable pub delay : ℕ → ℕ → SharedState S → ℕ
  delay failures now s =
      if failures == 0 then next_refresh_delay now s else token_refresh_min_delay_secs

  abbrev pub after : Event → Task → Task
  after event t = record t { log = event ∷ t.log }

  -- The failures and the state behind an attempt go into the next round, if there is one.
  unfoldable pub after_attempt : ℕ → (ℕ → SharedState S → Task) → Outcome → Task
  after_attempt failures next (s, ok refreshed) = next 0 s
  after_attempt failures next (s, err e) =
      if leb max_refresh_attempts (suc failures)
      then record { log = []; sent = drop_session ∷ []; shared = s }
      else next (suc failures) s

  unfoldable pub run_refresher : ℕ → List (Try S) → SharedState S → Task
  run_refresher failures [] s = record { log = []; sent = []; shared = s }
  run_refresher failures (t ∷ ts) s = after (sleeps (delay failures t.now s)) (
      after attempts
        (after_attempt failures (λ failures' s'. run_refresher failures' ts s') (refresh_once t s)))
