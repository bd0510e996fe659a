-- ===== src/Supervisor/Closing.antt =====
-- How a client ends.
use loxwebsocketclient_rs.Prelude.{
  ℕ, ◌≡◌, refl, ◌⊎◌, inl, inr, arith, Bool, true, false, not, ◌||◌, Option, none, some, List, [],
  ◌∷◌, ◌++◌, length, if◌then◌else◌, All, All-append, if-cases,
}
use loxwebsocketclient_rs.Error.{Error, Result, ok, err, stopped, handler_panic, is_terminal}
use loxwebsocketclient_rs.Policy.{Backoff, should_continue, terminal_close}
use loxwebsocketclient_rs.Metrics.{ConnState, MetricsState, mark_disconnected}
use loxwebsocketclient_rs.Metrics
use loxwebsocketclient_rs.Handler.{ClientEvent, HandlerGuard, lifecycle}
use loxwebsocketclient_rs.Handler
use loxwebsocketclient_rs.Supervisor.{
  ConnectConfig, Session, SessionOutcome, session_stopped, disconnected, session_failed, Client,
  start, send_ready, establish, with_token, tell, finish, connected, leave, session_once,
  after_establish, abort_or_wait, begin, settle, on_disconnected, on_failed, judge, close,
  counted_attempt, wait_reconnect, conclude, round, supervise, run_supervisor,
}

abbrev pub is_closed : ClientEvent → Bool
is_closed Handler.closed = true
is_closed _ = false

abbrev pub Open : List ClientEvent → Type 0
Open = All (λ (e : ClientEvent). is_closed e ≡ false)

-- Of a client that runs: it told no `Closed`, answered `ready` once at most, and once connected.
record Alive (events : List ClientEvent) (ready : Bool) (sent : List (Result (Unit {0})))
    (ever : Bool) : Type 0 where
  open_events : Open events
  answered : ((ready ≡ true) × (sent ≡ [])) ⊎ ((ready ≡ false) × (length sent ≡ 1))
  once_connected : ever ≡ true → ready ≡ false

abbrev Live : Client → Type 0
Live c = Alive c.handler.events c.ready c.ready_sent c.ever_connected

-- A client that has ended: its state is `Closed`, the last event and no other is `Closed`, and the
-- `ready` channel got one answer.
pub record Ended (c : Client) : Type 0 where
  pub conn_closed : c.conn ≡ Metrics.closed
  pub ready_taken : c.ready ≡ false
  pub answered_once : length c.ready_sent ≡ 1
  pub closed_last :
      (before : List ClientEvent) × (c.handler.events ≡ before ++ (Handler.closed ∷ []))
      × Open before

sent_once :
    (sent : List (Result (Unit {0}))) (r : Result (Unit {0}))
    → sent ≡ []
    → length (sent ++ (r ∷ [])) ≡ 1
sent_once sent r e = rw e refl

abbrev Answered : Client → Type 0
Answered c = Live c × (c.ready ≡ false)

send_ready-Answered : (r : Result (Unit {0})) (c : Client) → Live c → Answered (send_ready r c)
unfolding send_ready
send_ready-Answered r c l =
    if-cases Answered c.ready (record c { ready = false; ready_sent = c.ready_sent ++ (r ∷ []) }) c
      (λ e. (
        record {
          open_events = l.open_events;
          answered = elim l.answered [
            | inl (f, n) ↦ inr (refl, sent_once c.ready_sent r n)
            | inr (f, n) ↦ absurd (cc)
          ];
          once_connected = λ _. refl;
        },
        refl,
      ))
      (λ e. (l, e))

module _ (panics : List ClientEvent → ClientEvent → Bool) where
  tell-Live : (e : ClientEvent) (c : Client) → is_closed e ≡ false → Live c → Live (tell panics e c)
  unfolding tell lifecycle
  tell-Live e c o l = record {
    open_events =
        All-append (λ (x : ClientEvent). is_closed x ≡ false) c.handler.events (e ∷ [])
          l.open_events (o, tt);
    answered = l.answered;
    once_connected = l.once_connected;
  }

  ends : (c : Client) → Answered c → c.conn ≡ Metrics.closed → Ended (tell panics Handler.closed c)
  unfolding tell lifecycle
  ends c (l, taken) conn = record {
    conn_closed = conn;
    ready_taken = taken;
    answered_once = elim l.answered [ inl (e, n) ↦ absurd (cc) | inr (e, n) ↦ n ];
    closed_last = (c.handler.events, refl, l.open_events);
  }

  send_ready-conn : (r : Result (Unit {0})) (c : Client) → (send_ready r c).conn ≡ c.conn
  unfolding send_ready
  send_ready-conn r c = if-cases (λ d. d.conn ≡ c.conn) c.ready _ c (λ _. refl) (λ _. refl)

  finish-Ended : (error : Option Error) (c : Client) → Live c → Ended (finish panics error c)
  unfolding finish
  finish-Ended error c l =
      ends _ (send_ready-Answered _ (record c { conn = Metrics.closed }) l) (send_ready-conn _ _)

  close-Ended : (c : Client) → Answered c → Ended (close panics c)
  unfolding close
  close-Ended c a = ends (record c { conn = Metrics.closed }) a refl

  connected-Answered : (s : Session) (c : Client) → Live c → Answered (connected panics s c)
  unfolding connected
  connected-Answered s c l = send_ready-Answered (ok tt) _ (
      if-cases Live c.ever_connected _ _ (λ _. tell-Live Handler.reconnected _ refl l)
        (λ _. tell-Live Handler.connected _ refl l))

  -- A session that failed before it was connected, or one that was.
  abbrev Settled : Client × (SessionOutcome × Option ℕ) → Type 0
  Settled (c, (outcome, len)) =
      Live (settle len c)
      × (((e : Error) × (outcome ≡ session_failed e)) ⊎ ((settle len c).ready ≡ false))

  establish-Settled :
      (s : Session) (c : Client) (r : Result (Unit {0}))
      → Live c
      → Settled (after_establish panics s c r)
  unfolding after_establish settle leave
  establish-Settled s c (err e) l = (l, inl (e, refl))
  establish-Settled s c (ok _) l =
      let (live, taken) = connected-Answered s c l in
      (
        record {
          open_events = live.open_events;
          answered = live.answered;
          once_connected = λ _. taken;
        },
        inr taken,
      )

  abbrev Judged : Client × Option Backoff → Type 0
  Judged (c, none) = Ended c
  Judged (c, some _) = Answered c

  disconnected-Judged :
      (code : Option ℕ) (c : Client) (e : Option Error)
      → Answered c
      → Judged (abort_or_wait panics code c e)
  unfolding abort_or_wait
  disconnected-Judged code c none a = a
  disconnected-Judged code c (some e) (l, taken) = finish-Ended (some e) c l

  on_disconnected-Answered :
      (code : Option ℕ) (c : Client) → Answered c → Answered (on_disconnected panics code c)
  unfolding on_disconnected tell lifecycle
  on_disconnected-Answered code c (l, taken) = (
    tell-Live (Handler.connection_closed code)
        (record c { metrics = mark_disconnected code c.metrics }) refl l,
    taken,
  )

  failed-Judged : (e : Error) (c : Client) → Live c → Judged (judge panics (session_failed e) c)
  unfolding judge on_failed
  failed-Judged e c l =
      if-cases Judged (is_terminal e || not c.ever_connected) _ _ (λ _. finish-Ended (some e) _ l)
        (λ q. (l, l.once_connected (ground arith)))

  judge-Judged :
      (o : SessionOutcome) (c : Client)
      → Live c
      → ((e : Error) × (o ≡ session_failed e)) ⊎ (c.ready ≡ false)
      → Judged (judge panics o c)
  unfolding judge
  judge-Judged session_stopped c l h = finish-Ended (some stopped) c l
  judge-Judged (disconnected code) c l (inl (e, q)) = absurd (cc)
  judge-Judged (disconnected code) c l (inr taken) =
      disconnected-Judged code _ (terminal_close code) (on_disconnected-Answered code c (l, taken))
  judge-Judged (session_failed e) c l h = unfold judge in failed-Judged e c l

  -- A round that goes on leaves a client that runs, and one that ends an ended one.
  abbrev Went : Client × Bool → Type 0
  Went (c, true) = Live c
  Went (c, false) = Ended c

  wait_reconnect-Went :
      (cfg : ConnectConfig) (s : Session) (c : Client)
      → Answered c
      → Went (wait_reconnect panics cfg s c)
  unfolding wait_reconnect counted_attempt
  wait_reconnect-Went cfg s c (l, taken) =
      if-cases Went (not (should_continue c.attempt cfg.max_reconnect_attempts)) _ _
        (λ _. close-Ended c (l, taken))
        (λ _.
          if-cases Went s.stopped_in_wait _ _ (λ _. close-Ended (counted_attempt c) (l, taken))
            (λ _. l))

  conclude-Went :
      (cfg : ConnectConfig) (s : Session) (p : Client × Option Backoff)
      → Judged p
      → Went (conclude panics cfg s p)
  unfolding conclude
  conclude-Went cfg s (c, none) h = h
  conclude-Went cfg s (c, some b) h = wait_reconnect-Went cfg s c h

  round-Went :
      (cfg : ConnectConfig) (s : Session) (c : Client) → Live c → Went (round panics cfg s c)
  unfolding round session_once with_token begin
  round-Went cfg s c l =
      if-cases Went s.stopped_before _ _ (λ _. finish-Ended (some stopped) c l)
        (λ _.
          if-cases Went c.handler.panicked _ _ (λ _. finish-Ended (some handler_panic) c l)
            (λ _.
              if-cases Went (not c.cmd_rx) _ _ (λ _. finish-Ended none (begin c) l)
                (λ _.
                  let (live, h) =
                    establish-Settled s (with_token cfg s (record (begin c) { cmd_rx = false }))
                      (establish cfg s) l in
                  conclude-Went cfg s _ (judge-Judged _ _ live h))))

  run_rest :
      (cfg : ConnectConfig) (ss : List Session) (p : Client × Bool)
      → ((c : Client) → Live c → Went (supervise panics cfg ss c))
      → Went p
      → Went (if p.1 then supervise panics cfg ss p.0 else (p.0, false))
  run_rest cfg ss (next, true) go w = go next w
  run_rest cfg ss (next, false) go w = w

  run-Went :
      (cfg : ConnectConfig) (ss : List Session) (c : Client)
      → Live c
      → Went (supervise panics cfg ss c)
  unfolding supervise
  run-Went cfg [] c l = l
  run-Went cfg (s ∷ ss) c l =
      run_rest cfg ss (round panics cfg s c) (run-Went cfg ss) (round-Went cfg s c l)

live : Live start
live = record { open_events = tt; answered = inl (refl, refl); once_connected = λ h. cc }

-- When a supervisor that was just started ends, whether its setup failed, whatever its sessions met
-- and whatever the handler did: the client's state is `Closed`, the `ready` channel got exactly one
-- answer, and `Closed` was the last event that the handler was told, and was told once. A setup that
-- fails ends it at once.
pub run_supervisor-Ended :
    (panics : List ClientEvent → ClientEvent → Bool) (cfg : ConnectConfig)
    (setup : Result (Unit {0})) (ss : List Session)
    → (run_supervisor panics cfg setup ss start).1 ≡ false ⊎ ((e : Error) × (setup ≡ err e))
    → Ended (run_supervisor panics cfg setup ss start).0
unfolding run_supervisor
run_supervisor-Ended panics cfg (err x) ss e = finish-Ended panics (some x) start live
run_supervisor-Ended panics cfg (ok u) ss (inr (x, q)) = absurd (cc)
run_supervisor-Ended panics cfg (ok u) ss (inl e) =
    went (supervise panics cfg ss start) e (run-Went panics cfg ss start live)
  where
    went : (p : Client × Bool) → p.1 ≡ false → Went panics p → Ended p.0
    went (c, true) h w = absurd (cc)
    went (c, false) h w = w
