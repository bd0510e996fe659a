-- ===== src/Supervisor/Budget.antt =====
-- The budget of reconnect attempts.
use loxwebsocketclient_rs.Prelude.{
  ℕ, ◌+◌, ◌≤◌, ◌<◌, ◌≡◌, refl, ◌∙◌, arith, Bool, true, false, not, ◌||◌, leb, Option, none, some,
  List, [], ◌∷◌, length, if◌then◌else◌, if-cases, All,
}
use loxwebsocketclient_rs.Error.{Error, Result, ok, err, is_terminal}
use loxwebsocketclient_rs.Policy.{Backoff, should_continue, terminal_close, productive_session_secs}
use loxwebsocketclient_rs.Handler.{ClientEvent}
use loxwebsocketclient_rs.Supervisor.{
  ConnectConfig, Session, SessionOutcome, session_stopped, disconnected, session_failed, Client,
  start, send_ready, establish, with_token, tell, connected, leave, after_establish, session_once,
  begin, settle, on_disconnected, on_failed, abort_or_wait, judge, counted_attempt, wait_reconnect,
  conclude, round, supervise, run_supervisor,
}

-- A session that does not clear the budget.
abbrev pub Unproductive : Session → Type 0
Unproductive s = s.session_len < productive_session_secs

send_ready-attempt : (r : Result (Unit {0})) (c : Client) → (send_ready r c).attempt ≡ c.attempt
unfolding send_ready
send_ready-attempt r c = if-cases (λ d. d.attempt ≡ c.attempt) c.ready _ c (λ _. refl) (λ _. refl)

module _ (panics : List ClientEvent → ClientEvent → Bool) where
  connected-attempt : (s : Session) (c : Client) → (connected panics s c).attempt ≡ c.attempt
  unfolding connected tell
  connected-attempt s c =
      send_ready-attempt (ok tt) _
      ∙ if-cases (λ (d : Client). d.attempt ≡ c.attempt) c.ever_connected _ _ (λ _. refl)
          (λ _. refl)

  abbrev settled : Client × (SessionOutcome × Option ℕ) → Client
  settled (c, (outcome, len)) = settle len c

  after_establish-attempt :
      (s : Session) (c : Client) (r : Result (Unit {0}))
      → Unproductive s
      → (settled (after_establish panics s c r)).attempt ≡ c.attempt
  unfolding after_establish settle leave
  after_establish-attempt s c (err e) u = refl
  after_establish-attempt s c (ok _) u =
      let short : leb productive_session_secs s.session_len ≡ false = ground arith in
      rw short (connected-attempt s c)

  -- Where the loop waits, so many attempts were made.
  abbrev Made : ℕ → Client × Option Backoff → Type 0
  Made n (c, none) = Unit
  Made n (c, some _) = c.attempt ≡ n

  abort_or_wait-Made :
      (code : Option ℕ) (c : Client) (e : Option Error)
      → Made c.attempt (abort_or_wait panics code c e)
  unfolding abort_or_wait
  abort_or_wait-Made code c none = refl
  abort_or_wait-Made code c (some e) = tt

  judge-Made : (o : SessionOutcome) (c : Client) → Made c.attempt (judge panics o c)
  unfolding judge on_disconnected on_failed tell
  judge-Made session_stopped c = tt
  judge-Made (disconnected code) c =
      abort_or_wait-Made code (on_disconnected panics code c) (terminal_close code)
  judge-Made (session_failed e) c =
      if-cases (Made c.attempt) (is_terminal e || not c.ever_connected) _ _ (λ _. tt) (λ _. refl)

  judge-Made_at :
      (o : SessionOutcome) (c : Client) (n : ℕ) → c.attempt ≡ n → Made n (judge panics o c)
  judge-Made_at o c n e = rw (← e) (judge-Made o c)

  -- A round that goes on spent an attempt that the budget had.
  abbrev Spent : ℕ → ℕ → Client × Bool → Type 0
  Spent max n (c, false) = Unit
  Spent max n (c, true) = (c.attempt ≡ n + 1) × (should_continue n max ≡ true)

  wait_reconnect-Spent :
      (cfg : ConnectConfig) (s : Session) (c : Client)
      → Spent cfg.max_reconnect_attempts c.attempt (wait_reconnect panics cfg s c)
  unfolding wait_reconnect counted_attempt
  wait_reconnect-Spent cfg s c =
      if-cases (Spent cfg.max_reconnect_attempts c.attempt)
        (not (should_continue c.attempt cfg.max_reconnect_attempts)) _ _ (λ _. tt)
        (λ q.
          if-cases (Spent cfg.max_reconnect_attempts c.attempt) s.stopped_in_wait _ _ (λ _. tt)
            (λ _. (refl, ground arith)))

  conclude-Spent :
      (cfg : ConnectConfig) (s : Session) (p : Client × Option Backoff) (n : ℕ)
      → Made n p
      → Spent cfg.max_reconnect_attempts n (conclude panics cfg s p)
  unfolding conclude
  conclude-Spent cfg s (c, none) n h = tt
  conclude-Spent cfg s (c, some b) n h = rw (← h) (wait_reconnect-Spent cfg s c)

  round-Spent :
      (cfg : ConnectConfig) (s : Session) (c : Client)
      → Unproductive s
      → Spent cfg.max_reconnect_attempts c.attempt (round panics cfg s c)
  unfolding round session_once with_token begin
  round-Spent cfg s c u =
      if-cases (Spent cfg.max_reconnect_attempts c.attempt) s.stopped_before _ _ (λ _. tt)
        (λ _.
          if-cases (Spent cfg.max_reconnect_attempts c.attempt) c.handler.panicked _ _ (λ _. tt)
            (λ _.
              if-cases (Spent cfg.max_reconnect_attempts c.attempt) (not c.cmd_rx) _ _ (λ _. tt)
                (λ _.
                  let began : Client = with_token cfg s (record (begin c) { cmd_rx = false }) in
                  let same = after_establish-attempt s began (establish cfg s) u in
                  conclude-Spent cfg s _ c.attempt (judge-Made_at _ _ c.attempt same))))

  gives_up :
      (cfg : ConnectConfig) (ss : List Session) (c : Client)
      → 0 < cfg.max_reconnect_attempts
      → All Unproductive ss
      → cfg.max_reconnect_attempts < c.attempt + length ss
      → c.attempt ≤ cfg.max_reconnect_attempts
      → (supervise panics cfg ss c).1 ≡ false
  unfolding supervise
  gives_up cfg [] c m u h b = absurd (omega arith)
  gives_up cfg (s ∷ ss) c m u h b =
      rest (round panics cfg s c) (round-Spent cfg s c u.0) (λ next. gives_up cfg ss next m u.1)
    where
      rest :
          (p : Client × Bool)
          → Spent cfg.max_reconnect_attempts c.attempt p
          → ((next : Client)
              → cfg.max_reconnect_attempts < next.attempt + length ss
              → next.attempt ≤ cfg.max_reconnect_attempts
              → (supervise panics cfg ss next).1 ≡ false)
          → (if p.1 then supervise panics cfg ss p.0 else (p.0, false)).1 ≡ false
      rest (next, false) q go = refl
      rest (next, true) q go =
          let (one_more, allowed) = q in
          let below : c.attempt < cfg.max_reconnect_attempts =
            unfold should_continue in ground arith in
          go next (omega arith) (omega arith)

-- With a bound above 0 on the reconnect attempts, the supervisor gives up, whatever its setup gives:
-- where more sessions than the bound are on offer, all shorter than a productive one, it ends among
-- them, whatever else they meet.
pub run_supervisor-gives_up :
    (panics : List ClientEvent → ClientEvent → Bool) (cfg : ConnectConfig)
    (setup : Result (Unit {0})) (ss : List Session)
    → 0 < cfg.max_reconnect_attempts
    → All Unproductive ss
    → cfg.max_reconnect_attempts < length ss
    → (run_supervisor panics cfg setup ss start).1 ≡ false
unfolding run_supervisor
run_supervisor-gives_up panics cfg (err e) ss m u h = refl
run_supervisor-gives_up panics cfg (ok _) ss m u h =
    gives_up panics cfg ss start m u (omega arith) (omega arith)
