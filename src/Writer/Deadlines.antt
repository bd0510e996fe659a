-- ===== src/Writer/Deadlines.antt =====
-- The deadlines of the queue that the writer and the reader share.
use loxwebsocketclient_rs.Prelude.{
  ℕ, ◌+◌, ◌≤◌, ◌≡◌, arith, inl, inr, Bool, true, false, Option, none, some, List, [], ◌∷◌, ltb, leb,
  length, Bool-cases, if-cases, All, All-append, Bytes,
}
use loxwebsocketclient_rs.Error.{Result, ok, err}
use loxwebsocketclient_rs.Session.{Primitives, SessionKeys, Env, encrypt}
use loxwebsocketclient_rs.Pending.{PendingEntry, push, expire_loop, expire, resolve, resolve_head}
use loxwebsocketclient_rs.Pending.Expiry.{Sorted, push-Sorted_loop}
use loxwebsocketclient_rs.Liveness.{Liveness, on_keepalive_tick}
use loxwebsocketclient_rs.Writer.{
  Writer, WriterConfig, obligated, command, shutdown, IoCommand, encrypted, control, visu_control,
  drop_session, stop, Event, from_reader, from_facade, tick, expiry, Decision, count_sent, prepared,
  prepare_command, on_writer_msg, on_io_command, ticked, on_tick, decide, expire_pending,
}

-- Deadlines in order, none beyond the bound.
abbrev Ordered : ℕ → List PendingEntry → Type 0
Ordered bound es = Sorted es × All (λ (e : PendingEntry). e.deadline ≤ bound) es

later-All :
    (b c : ℕ) (es : List PendingEntry)
    → b ≤ c
    → All (λ (e : PendingEntry). e.deadline ≤ b) es
    → All (λ (e : PendingEntry). e.deadline ≤ c) es
later-All b c [] h all = tt
later-All b c (e ∷ es) h all = let x = all.0 in (omega arith, later-All b c es h all.1)

expire_loop-Ordered :
    (b now : ℕ) (es : List PendingEntry) → Ordered b es → Ordered b (expire_loop now es).left
unfolding expire_loop
expire_loop-Ordered b now [] h = h
expire_loop-Ordered b now (e ∷ es) (s, all) = elim (Bool-cases (ltb now e.deadline)) [
  | inl q ↦ rw q (s, all)
  | inr q ↦ rw q (expire_loop-Ordered b now es (s.1, all.1))
]

resolve-Ordered :
    (p : Primitives) (keys : SessionKeys) (c : Option Bytes) (b : ℕ) (es : List PendingEntry)
    (m u t : ℕ)
    → Ordered b es
    → Ordered b
        (resolve p c keys
          (record { entries = es; mismatches = m; unsolicited = u; timeouts = t })).0.entries
unfolding resolve resolve_head
resolve-Ordered p keys c b [] m u t h = h
resolve-Ordered p keys c b (e ∷ es) m u t (s, all) = (s.1, all.1)

-- What the two tasks do with the queue, after so many seconds: a round of the writer's loop with
-- the time that the write takes, and an answer that the reader matches.
pub data Act : Type 0 where
  writes : ℕ → ℕ → Env → Event → Act
  answers : ℕ → Option Bytes → Act

module _ (p : Primitives) (keys : SessionKeys) (cfg : WriterConfig) where
  abbrev bound : ℕ → ℕ
  bound now = now + cfg.command_timeout

  abbrev Kept : ℕ → Decision → Type 0
  Kept now d = Ordered (bound now) d.0.pending.entries

  prepared-Kept :
      (now : ℕ) (cmd : Bytes) (resp : Option ℕ) (w : Writer) (r : Result Bytes)
      → Ordered (bound now) w.pending.entries
      → Kept now (prepared p keys cfg now cmd resp w r)
  unfolding push
  prepared-Kept now cmd resp w (err e) h = h
  prepared-Kept now cmd resp w (ok wire) (s, all) = (
    push-Sorted_loop w.pending.entries _ s all,
    All-append (λ (e : PendingEntry). e.deadline ≤ bound now) w.pending.entries _ all
        (omega arith, tt),
  )

  prepare_command-Kept :
      (env : Env) (now : ℕ) (cmd : Bytes) (resp : Option ℕ) (w : Writer)
      → Ordered (bound now) w.pending.entries
      → Kept now (prepare_command p keys cfg env now cmd resp w)
  unfolding prepare_command
  prepare_command-Kept env now cmd resp w h =
      prepared-Kept now cmd resp (record w { salt = (encrypt p keys env w.salt cmd).0 }) _ h

  ticked-Kept :
      (now : ℕ) (w : Writer) (out : Liveness × Bool)
      → Ordered (bound now) w.pending.entries
      → Kept now (ticked p keys cfg w out)
  ticked-Kept now w (l, true) h = h
  ticked-Kept now w (l, false) h = h

  on_io_command-Kept :
      (env : Env) (now : ℕ) (c : IoCommand) (w : Writer)
      → Ordered (bound now) w.pending.entries
      → Kept now (on_io_command p keys cfg env now c w)
  unfolding on_io_command count_sent
  on_io_command-Kept env now stop w h = h
  on_io_command-Kept env now drop_session w h = h
  on_io_command-Kept env now (encrypted cmd resp) w h =
      if-cases (Kept now) (leb cfg.max_pending (length w.pending.entries)) _ _ (λ _. h)
        (λ _. prepare_command-Kept env now cmd (some resp) (count_sent w) h)
  on_io_command-Kept env now (control uuid value) w h =
      prepare_command-Kept env now _ none (count_sent w) h
  on_io_command-Kept env now (visu_control uuid value visu_pw) w h =
      prepare_command-Kept env now _ none (record (count_sent w) { visu = _ }) h

  decide-Kept :
      (env : Env) (now : ℕ) (ev : Event) (w : Writer)
      → Ordered (bound now) w.pending.entries
      → Kept now (decide p keys cfg env now ev w)
  unfolding decide on_writer_msg on_tick
  decide-Kept env now (from_reader none) w h = h
  decide-Kept env now (from_reader (some (obligated o bytes))) w h = h
  decide-Kept env now (from_reader (some (command cmd resp))) w h =
      prepare_command-Kept env now cmd resp w h
  decide-Kept env now (from_reader (some shutdown)) w h = h
  decide-Kept env now (from_facade none) w h = h
  decide-Kept env now (from_facade (some c)) w h = on_io_command-Kept env now c w h
  decide-Kept env now tick w h =
      ticked-Kept now w (on_keepalive_tick cfg.max_missed_keepalives now w.liveness) h
  decide-Kept env now expiry w h = h

  -- The writer's state after the acts, from an instant on.
  abbrev pub run_acts : ℕ → List Act → Writer → Writer
  run_acts now [] w = w
  run_acts now (writes wait took env ev ∷ acts) w =
      run_acts (now + wait + took) acts
        (expire_pending p keys cfg (now + wait + took)
          (decide p keys cfg env (now + wait) ev w).0).0
  run_acts now (answers wait c ∷ acts) w =
      run_acts (now + wait) acts (record w { pending = (resolve p c keys w.pending).0 })

  run_acts-Ordered :
      (acts : List Act) (now : ℕ) (w : Writer)
      → Ordered (bound now) w.pending.entries
      → Sorted (run_acts now acts w).pending.entries
  unfolding expire_pending expire
  run_acts-Ordered [] now w h = h.0
  run_acts-Ordered (writes wait took env ev ∷ acts) now w (s, all) =
      let (s', all') =
        decide-Kept env (now + wait) ev w
          (s, later-All (bound now) (bound (now + wait)) _ (omega arith) all) in
      run_acts-Ordered acts (now + wait + took) _ (
        expire_loop-Ordered (bound (now + wait + took)) (now + wait + took) _
          (s', later-All (bound (now + wait)) (bound (now + wait + took)) _ (omega arith) all'))
  run_acts-Ordered (answers wait c ∷ acts) now w (s, all) = run_acts-Ordered acts (now + wait) _ (
      resolve-Ordered p keys c (bound (now + wait)) w.pending.entries _ _ _
        (s, later-All (bound now) (bound (now + wait)) _ (omega arith) all))

  -- From an empty queue on, however the rounds of the writer and the answers of the reader
  -- interleave, the queue keeps its commands in the order of their deadlines.
  pub run_acts-Sorted :
      (acts : List Act) (now : ℕ) (w : Writer)
      → w.pending.entries ≡ []
      → Sorted (run_acts now acts w).pending.entries
  run_acts-Sorted acts now w e = run_acts-Ordered acts now w (rw e (tt, tt))
