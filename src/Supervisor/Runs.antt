-- ===== src/Supervisor/Runs.antt =====
-- Runs of the supervisor at concrete inputs.
use loxwebsocketclient_rs.Prelude.{
  inl, ℕ, ◌+◌, ◌≤◌, leb, ◌≡◌, refl, arith, Bool, true, false, none, some, List, [], ◌∷◌,
}
use loxwebsocketclient_rs.Error.{ok, err, io, tls}
use loxwebsocketclient_rs.Handler.{ClientEvent, lifecycle}
use loxwebsocketclient_rs.Reader.{read_closed}
use loxwebsocketclient_rs.Supervisor.{
  ConnectConfig, Session, start, run_supervisor, finish, send_ready, tell,
}
use loxwebsocketclient_rs.Supervisor.Closing.{Ended, run_supervisor-Ended}
use loxwebsocketclient_rs.Supervisor.Sleep.{
  sleep_loop, sleep_unless_stopped, Returns, sleep_unless_stopped-Prompt,
}
use loxwebsocketclient_rs.Supervisor.Budget.{run_supervisor-gives_up}

abbrev calm : List ClientEvent → ClientEvent → Bool
calm events event = false

abbrev cfg : ConnectConfig
cfg = record { max_reconnect_attempts = 2; receive_updates = true; local_only = false }

-- A session that connects and is closed with the code 1006 after five seconds.
abbrev dropped : Session
dropped = record {
  stopped_before = false;
  api_info = ok (record { local = none; has_event_slots = some true });
  needs_pin_bootstrap = false;
  bootstrap_pin = ok tt;
  get_public_key = ok tt;
  wrap_session_key = ok tt;
  ws_connect = ok tt;
  key_exchange = ok tt;
  authenticate = ok tt;
  authenticated_token = some 1;
  enable_updates = ok tt;
  connected_at = 100;
  read_outcome = read_closed (some 1006);
  panicked_in_reader = false;
  stopped_after_read = false;
  writer_joined = true;
  stopped_at_end = false;
  session_len = 5;
  stopped_in_wait = false;
}

abbrev refused : Session
refused = record dropped { ws_connect = err io }

abbrev sessions : List Session
sessions = dropped ∷ refused ∷ dropped ∷ []

run_supervisor-gives_up_example : (run_supervisor calm cfg (ok tt) sessions start).1 ≡ false
run_supervisor-gives_up_example =
    run_supervisor-gives_up calm cfg (ok tt) sessions (omega arith)
      (omega arith, (omega arith, (omega arith, tt))) (omega arith)

run_supervisor-Ended_example : Ended (run_supervisor calm cfg (ok tt) sessions start).0
run_supervisor-Ended_example =
    run_supervisor-Ended calm cfg (ok tt) sessions (inl run_supervisor-gives_up_example)

-- A setup that fails is answered once.
not_set_up : (run_supervisor calm cfg (err tls) sessions start).0.ready_sent ≡ err tls ∷ []
unfolding run_supervisor finish send_ready tell lifecycle
not_set_up = refl

-- The flag is set one second into a wait of two, and a sleep may end 10 ms late.
abbrev set_at : ℕ → Bool
set_at t = leb 1600 t

stays_set : (s t : ℕ) → s ≤ t → set_at s ≡ true → set_at t ≡ true
stays_set s t le e = ground arith

ten_late : (t : ℕ) → 10 ≤ 10
ten_late t = omega arith

woken : sleep_unless_stopped set_at (λ t. 10) 9 2000 600 ≡ some (1640, false)
unfolding sleep_unless_stopped sleep_loop
woken = refl

sleep_unless_stopped-Prompt_example :
    Returns set_at (λ t. 10) 10 600 (600 + 2000) (sleep_unless_stopped set_at (λ t. 10) 9 2000 600)
sleep_unless_stopped-Prompt_example =
    sleep_unless_stopped-Prompt set_at (λ t. 10) stays_set 10 ten_late 8 2000 600 (omega arith)
