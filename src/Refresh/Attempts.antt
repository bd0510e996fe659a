-- ===== src/Refresh/Attempts.antt =====
-- How often the refresher tries, when it gives up, and which token it may change.
use loxwebsocketclient_rs.Prelude.{
  ◌≢◌, ℕ, suc, ◌≤◌, ◌≡◌, refl, ap, ◌∙◌, arith, inl, inr, ◌⊎◌, Bool, true, false, List, [], ◌∷◌, leb,
  ◌==◌, if◌then◌else◌, if-cases, Bool-cases, Option-cases, Bytes,
}
use loxwebsocketclient_rs.Prelude.Int.{ℤ, pos, negsuc}
use loxwebsocketclient_rs.Error.{Error, Result, ok, err, ◌>>=◌}
use loxwebsocketclient_rs.Json.{Json}
use loxwebsocketclient_rs.Hash.{Digests}
use loxwebsocketclient_rs.Str.{bytes_eq}
use loxwebsocketclient_rs.Token.{LxToken, is_empty}
use loxwebsocketclient_rs.Flow.{cmd_get_key, build_token_hash, cmd_refresh_token}
use loxwebsocketclient_rs.Shared.{TokenStore, SharedState, token_valid_until}
use loxwebsocketclient_rs.Writer.{drop_session}
use loxwebsocketclient_rs.Refresh.{
  Try, Task, Event, sleeps, attempts, after, at_least, next_refresh_delay, delay, after_attempt,
  refresh_once, on_hash, on_refresh_answer, run_refresher,
}

at_least-bound : (least : ℕ) (v : ℤ) → least ≤ at_least least v
at_least-bound least (pos n) = omega arith
at_least-bound least (negsuc n) = omega arith

next_refresh_delay-bound :
    {S : Type 0} (now : ℕ) (s : SharedState S) → 15 ≤ next_refresh_delay now s
unfolding next_refresh_delay
next_refresh_delay-bound now s = elim (Option-cases (token_valid_until s)) [
  | inl e ↦ rw (e, next_refresh_delay) (omega arith)
  | inr (v, e) ↦ rw (e, next_refresh_delay) (at_least-bound 15 _)
]

-- Each attempt comes right after a sleep of fifteen seconds at least, and each sleep before one.
abbrev pub IsPaced : List Event → Type 0
IsPaced [] = Unit
IsPaced (sleeps secs ∷ attempts ∷ events) = (15 ≤ secs) × IsPaced events
IsPaced _ = ⊥

module _ (j : Json) (d : Digests) {S : Type 0} (store : TokenStore S) (username : Bytes) where
  delay-bound :
      (failures now : ℕ) (s : SharedState S) → 15 ≤ delay j d store username failures now s
  unfolding delay
  delay-bound failures now s =
      if-cases (λ secs. 15 ≤ secs) (failures == 0) _ _ (λ _. next_refresh_delay-bound now s)
        (λ _. omega arith)

  after_attempt-IsPaced :
      (failures : ℕ) (next : ℕ → SharedState S → Task j d store username)
      (out : SharedState S × Result Bool)
      → ((f : ℕ) (s : SharedState S) → IsPaced (next f s).log)
      → IsPaced (after_attempt j d store username failures next out).log
  unfolding after_attempt
  after_attempt-IsPaced failures next (s, ok r) h = h 0 s
  after_attempt-IsPaced failures next (s, err e) h =
      if-cases (λ (t : Task j d store username). IsPaced t.log) (leb 3 (suc failures)) _ _ (λ _. tt)
        (λ _. h (suc failures) s)

  -- Whatever expiry the Miniserver announces and however the attempts end, the refresher sleeps for at
  -- least fifteen seconds right before each attempt, also after one that failed.
  pub run_refresher-IsPaced :
      (failures : ℕ) (ts : List (Try S)) (s : SharedState S)
      → IsPaced (run_refresher j d store username failures ts s).log
  unfolding run_refresher
  run_refresher-IsPaced failures [] s = tt
  run_refresher-IsPaced failures (t ∷ ts) s = (
    delay-bound failures t.now s,
    after_attempt-IsPaced failures (λ f s'. run_refresher j d store username f ts s')
        (refresh_once j d store username t s) (λ f s'. run_refresher-IsPaced f ts s'),
  )

  -- The answers that a refresh may not use.
  abbrev pub IsReplaced : LxToken → SharedState S → Type 0
  IsReplaced token s = (is_empty s.token ≡ true) ⊎ (bytes_eq s.token.token token.token ≡ false)

  abbrev got_hash : Result Bytes → Bool
  got_hash (ok hash) = true
  got_hash (err e) = false

  -- The hash of the token for the refresh, from the key that the Miniserver answers.
  abbrev token_hash : Try S → LxToken → Result Bytes
  token_hash t token = t.answer cmd_get_key >>= λ key. build_token_hash j d key token

  -- The shared state as the others leave it: the attempt waits for the key if there is a token, and
  -- for the refresh if there is a hash.
  abbrev pub met : Try S → SharedState S → SharedState S
  met t s =
      if is_empty s.token
      then s
      else if got_hash (token_hash t s.token)
      then t.during_refresh (t.during_key s)
      else t.during_key s

  -- The attempt sets nothing and does not report a refresh.
  abbrev pub Untouched : SharedState S → SharedState S × Result Bool → Type 0
  Untouched s out = (out.0 ≡ s) × (out.1 ≢ ok true)

  on_refresh_answer-replaced :
      (t : Try S) (token : LxToken) (s : SharedState S) (r : Result Bytes)
      → IsReplaced token s
      → Untouched s (on_refresh_answer j d store username t token s r)
  unfolding on_refresh_answer
  on_refresh_answer-replaced t token s (err e) h = (refl, λ q. cc)
  on_refresh_answer-replaced t token s (ok resp) (inl h) = rw h (refl, λ q. absurd (ground arith))
  on_refresh_answer-replaced t token s (ok resp) (inr h) = elim (Bool-cases (is_empty s.token)) [
    | inl e ↦ rw e (refl, λ q. absurd (ground arith))
    | inr e ↦ rw (e, h) (refl, λ q. absurd (ground arith))
  ]

  on_hash-replaced :
      (t : Try S) (token : LxToken) (s : SharedState S) (r : Result Bytes)
      → IsReplaced token (t.during_refresh s)
      → Untouched
          (if got_hash r then t.during_refresh s else s)
          (on_hash j d store username t token s r)
  unfolding on_hash
  on_hash-replaced t token s (err e) h = (refl, λ q. cc)
  on_hash-replaced t token s (ok hash) h =
      on_refresh_answer-replaced t token (t.during_refresh s)
        (t.answer (cmd_refresh_token hash username)) h

  -- Where the token has been replaced or cleared when the attempt looks at it again, the attempt leaves
  -- the shared state, the saved token with it, as the others left it last, and reports no refresh.
  pub refresh_once-replaced :
      (t : Try S) (s : SharedState S)
      → IsReplaced s.token (t.during_refresh (t.during_key s))
      → Untouched (met t s) (refresh_once j d store username t s)
  unfolding refresh_once
  refresh_once-replaced t s h = elim (Bool-cases (is_empty s.token)) [
    | inl e ↦ rw e (refl, λ q. absurd (ground arith))
    | inr e ↦ rw e (on_hash-replaced t s.token (t.during_key s) (token_hash t s.token) h)
  ]

  abbrev slept_and_tried : ℕ → Task j d store username → Task j d store username
  slept_and_tried secs t =
      after j d store username (sleeps secs) (after j d store username attempts t)

  -- The attempt fails and leaves this state.
  abbrev pub Fails : Try S → SharedState S → SharedState S → Type 0
  Fails t s s' = (e : Error) × (refresh_once j d store username t s ≡ (s', err e))

  fail_once :
      (failures : ℕ) (t : Try S) (ts : List (Try S)) (s s' : SharedState S)
      → Fails t s s'
      → run_refresher j d store username failures (t ∷ ts) s
        ≡ slept_and_tried (delay j d store username failures t.now s) (
            if leb 3 (suc failures)
            then record { log = []; sent = drop_session ∷ []; shared = s' }
            else run_refresher j d store username (suc failures) ts s')
  unfolding run_refresher after_attempt
  fail_once failures t ts s s' (e, q) = rw q refl

  -- Three attempts that fail one after the other, however the shared state changes between them, end the
  -- task: it sends one command, which drops the session, and tries no more. Between them it sleeps for
  -- fifteen seconds, however far away the token's expiry is.
  pub run_refresher-gives_up :
      (t1 t2 t3 : Try S) (ts : List (Try S)) (s s1 s2 s3 : SharedState S)
      → Fails t1 s s1
      → Fails t2 s1 s2
      → Fails t3 s2 s3
      → run_refresher j d store username 0 (t1 ∷ t2 ∷ t3 ∷ ts) s ≡ record {
        log =
            sleeps (next_refresh_delay t1.now s)
            ∷ attempts
            ∷ sleeps 15
            ∷ attempts
            ∷ sleeps 15
            ∷ attempts
            ∷ [];
        sent = drop_session ∷ [];
        shared = s3;
      }
  unfolding delay
  run_refresher-gives_up t1 t2 t3 ts s s1 s2 s3 f1 f2 f3 =
      fail_once 0 t1 (t2 ∷ t3 ∷ ts) s s1 f1
      ∙ ap (slept_and_tried (next_refresh_delay t1.now s))
          (fail_once 1 t2 (t3 ∷ ts) s1 s2 f2 ∙ ap (slept_and_tried 15) (fail_once 2 t3 ts s2 s3 f3))
