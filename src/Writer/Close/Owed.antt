-- ===== src/Writer/Close/Owed.antt =====
-- A decision of the writer owes one answer to the command that it takes.
use loxwebsocketclient_rs.Prelude.{
  ℕ, ◌+◌, ◌≡◌, ap, ◌∙◌, arith, Bool, true, false, Option, none, some, List, [], ◌∷◌, ◌++◌,
  append-nil, leb, length, ◌==◌, if-cases, if◌then◌else◌, Bytes,
}
use loxwebsocketclient_rs.Error.{Result, ok, err}
use loxwebsocketclient_rs.Session.{Primitives, SessionKeys, Env, encrypt}
use loxwebsocketclient_rs.Pending.{PendingEntry, Reply, push}
use loxwebsocketclient_rs.Pending.Fifo.{channels, waiter, waiters, channels-send, waiters-append}
use loxwebsocketclient_rs.Liveness.{Liveness, on_keepalive_tick}
use loxwebsocketclient_rs.Writer.{
  Writer, WriterConfig, obligated, command, shutdown, IoCommand, encrypted, control, visu_control,
  drop_session, stop, Event, from_reader, from_facade, tick, expiry, Decision, count_sent, prepared,
  prepare_command, on_writer_msg, on_io_command, ticked, on_tick, decide,
}

-- How often a channel is in a list.
abbrev pub times : ℕ → List ℕ → ℕ
times c [] = 0
times c (x ∷ xs) = (if x == c then 1 else 0) + times c xs

pub times-append : (c : ℕ) (xs ys : List ℕ) → times c (xs ++ ys) ≡ times c xs + times c ys
times-append c [] ys = omega arith
times-append c (x ∷ xs) ys = omega (arith, times-append c xs ys)

-- The channel of the command that an event brings.
abbrev pub asked : Event → List ℕ
asked (from_facade (some (encrypted cmd resp))) = resp ∷ []
asked (from_reader (some (command cmd resp))) = waiter resp
asked _ = []

module _ (c : ℕ) where
  -- How often the channel is replied to by these replies, or will be by this queue.
  abbrev pub owed : List Reply → Writer → ℕ
  owed replies w = times c (channels replies) + times c (waiters w.pending.entries)

  module _ (p : Primitives) (keys : SessionKeys) (cfg : WriterConfig) where
    -- A decision owes one answer to a command that it takes.
    abbrev Owes : List ℕ → Writer → Decision → Type 0
    Owes new w d = owed d.1.1 d.0 ≡ times c (waiters w.pending.entries) + times c new

    prepared-Owes :
        (now : ℕ) (cmd : Bytes) (resp : Option ℕ) (w : Writer) (r : Result Bytes)
        → Owes (waiter resp) w (prepared p keys cfg now cmd resp w r)
    unfolding push
    prepared-Owes now cmd resp w (ok wire) =
        let entry : PendingEntry = record {
          plaintext_cmd = cmd;
          wire_cmd = wire;
          resp = resp;
          deadline = now + cfg.command_timeout;
        } in
        omega (
          arith,
          ap (times c) (
              waiters-append w.pending.entries (entry ∷ [])
              ∙ ap (◌++◌ (waiters w.pending.entries)) (append-nil (waiter resp))),
          times-append c (waiters w.pending.entries) (waiter resp),
        )
    prepared-Owes now cmd resp w (err e) = omega (arith, ap (times c) (channels-send resp (err e)))

    pub prepare_command-Owes :
        (env : Env) (now : ℕ) (cmd : Bytes) (resp : Option ℕ) (w : Writer)
        → Owes (waiter resp) w (prepare_command p keys cfg env now cmd resp w)
    unfolding prepare_command
    prepare_command-Owes env now cmd resp w =
        prepared-Owes now cmd resp (record w { salt = (encrypt p keys env w.salt cmd).0 }) _

    ticked-Owes : (w : Writer) (out : Liveness × Bool) → Owes [] w (ticked p keys cfg w out)
    ticked-Owes w (l, true) = omega arith
    ticked-Owes w (l, false) = omega arith

    on_io_command-Owes :
        (env : Env) (now : ℕ) (cmd : IoCommand) (w : Writer)
        → Owes (asked (from_facade (some cmd))) w (on_io_command p keys cfg env now cmd w)
    unfolding on_io_command count_sent
    on_io_command-Owes env now stop w = omega arith
    on_io_command-Owes env now drop_session w = omega arith
    on_io_command-Owes env now (encrypted cmd resp) w =
        if-cases {A = Decision} (Owes (resp ∷ []) w)
          (leb cfg.max_pending (length w.pending.entries)) _ _ (λ _. omega arith)
          (λ _. prepare_command-Owes env now cmd (some resp) (count_sent w))
    on_io_command-Owes env now (control uuid value) w =
        prepare_command-Owes env now _ none (count_sent w)
    on_io_command-Owes env now (visu_control uuid value visu_pw) w =
        prepare_command-Owes env now _ none (record (count_sent w) { visu = _ })

    pub decide-Owes :
        (env : Env) (now : ℕ) (ev : Event) (w : Writer)
        → Owes (asked ev) w (decide p keys cfg env now ev w)
    unfolding decide on_writer_msg on_tick
    decide-Owes env now (from_reader none) w = omega arith
    decide-Owes env now (from_reader (some (obligated o bytes))) w = omega arith
    decide-Owes env now (from_reader (some (command cmd resp))) w =
        prepare_command-Owes env now cmd resp w
    decide-Owes env now (from_reader (some shutdown)) w = omega arith
    decide-Owes env now (from_facade none) w = omega arith
    decide-Owes env now (from_facade (some cmd)) w = on_io_command-Owes env now cmd w
    decide-Owes env now tick w =
        ticked-Owes w (on_keepalive_tick cfg.max_missed_keepalives now w.liveness)
    decide-Owes env now expiry w = omega arith
