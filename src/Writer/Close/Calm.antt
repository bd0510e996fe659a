-- ===== src/Writer/Close/Calm.antt =====
-- What a decision of the writer leaves of the stop flag, and which one closes the session.
use loxwebsocketclient_rs.Prelude.{
  ℕ, ◌≡◌, refl, ap, ◌⊎◌, inl, inr, Bool, true, false, ◌||◌, Option, none, some, List, [], ◌∷◌, leb,
  length, Bool-cases, if-cases, Bytes,
}
use loxwebsocketclient_rs.Error.{Result, ok, err}
use loxwebsocketclient_rs.Session.{Primitives, SessionKeys, Env, encrypt}
use loxwebsocketclient_rs.Liveness.{Liveness, on_keepalive_tick}
use loxwebsocketclient_rs.Writer.{
  Writer, WriterConfig, obligated, command, shutdown, IoCommand, encrypted, control, visu_control,
  drop_session, stop, Event, from_reader, from_facade, tick, expiry, Outgoing, close_out, Decision,
  count_sent, prepared, prepare_command, on_writer_msg, on_io_command, ticked, on_tick, decide,
}
use loxwebsocketclient_rs.Writer.Close.{Round}

-- Whether the client asks to stop: by a command, or since its handle is gone.
abbrev pub asks_stop : Event → Bool
asks_stop (from_facade none) = true
asks_stop (from_facade (some stop)) = true
asks_stop _ = false

abbrev pub stop_asked : List Round → Bool
stop_asked [] = false
stop_asked (r ∷ rs) = asks_stop r.event || stop_asked rs

module _ (p : Primitives) (keys : SessionKeys) (cfg : WriterConfig) where
  abbrev pub is_close : Outgoing → Bool
  is_close close_out = true
  is_close _ = false

  -- A decision that neither stops the client nor closes the session.
  abbrev pub Calm : Writer → Decision → Type 0
  Calm w d = (d.0.stopped ≡ w.stopped) × (is_close d.1.0 ≡ false)

  prepared-Calm :
      (now : ℕ) (cmd : Bytes) (resp : Option ℕ) (w : Writer) (r : Result Bytes)
      → Calm w (prepared p keys cfg now cmd resp w r)
  prepared-Calm now cmd resp w (ok wire) = (refl, refl)
  prepared-Calm now cmd resp w (err e) = (refl, refl)

  pub prepare_command-Calm :
      (env : Env) (now : ℕ) (cmd : Bytes) (resp : Option ℕ) (w : Writer)
      → Calm w (prepare_command p keys cfg env now cmd resp w)
  unfolding prepare_command
  prepare_command-Calm env now cmd resp w =
      prepared-Calm now cmd resp (record w { salt = (encrypt p keys env w.salt cmd).0 }) _

  ticked-Calm : (w : Writer) (out : Liveness × Bool) → Calm w (ticked p keys cfg w out)
  ticked-Calm w (l, true) = (refl, refl)
  ticked-Calm w (l, false) = (refl, refl)

  on_io_command-Calm :
      (env : Env) (now : ℕ) (c : IoCommand) (w : Writer)
      → asks_stop (from_facade (some c)) ≡ false
      → Calm w (on_io_command p keys cfg env now c w)
  unfolding on_io_command count_sent
  on_io_command-Calm env now stop w h = cc
  on_io_command-Calm env now drop_session w h = (refl, refl)
  on_io_command-Calm env now (encrypted cmd resp) w h =
      if-cases (Calm w) (leb cfg.max_pending (length w.pending.entries)) _ _ (λ _. (refl, refl))
        (λ _. prepare_command-Calm env now cmd (some resp) (count_sent w))
  on_io_command-Calm env now (control uuid value) w h =
      prepare_command-Calm env now _ none (count_sent w)
  on_io_command-Calm env now (visu_control uuid value visu_pw) w h =
      prepare_command-Calm env now _ none (record (count_sent w) { visu = _ })

  decide-Calm :
      (env : Env) (now : ℕ) (ev : Event) (w : Writer)
      → asks_stop ev ≡ false
      → Calm w (decide p keys cfg env now ev w)
  unfolding decide on_writer_msg on_tick
  decide-Calm env now (from_reader none) w h = (refl, refl)
  decide-Calm env now (from_reader (some (obligated o bytes))) w h = (refl, refl)
  decide-Calm env now (from_reader (some (command cmd resp))) w h =
      prepare_command-Calm env now cmd resp w
  decide-Calm env now (from_reader (some shutdown)) w h = (refl, refl)
  decide-Calm env now (from_facade none) w h = cc
  decide-Calm env now (from_facade (some c)) w h = on_io_command-Calm env now c w h
  decide-Calm env now tick w h =
      ticked-Calm w (on_keepalive_tick cfg.max_missed_keepalives now w.liveness)
  decide-Calm env now expiry w h = (refl, refl)

  decide-asks_stop :
      (env : Env) (now : ℕ) (ev : Event) (w : Writer)
      → asks_stop ev ≡ true
      → decide p keys cfg env now ev w ≡ (w, (close_out, []))
  unfolding decide on_io_command
  decide-asks_stop env now (from_facade none) w h = refl
  decide-asks_stop env now (from_facade (some stop)) w h = refl
  decide-asks_stop env now (from_facade (some drop_session)) w h = cc
  decide-asks_stop env now (from_facade (some (encrypted cmd resp))) w h = cc
  decide-asks_stop env now (from_facade (some (control uuid value))) w h = cc
  decide-asks_stop env now (from_facade (some (visu_control uuid value visu_pw))) w h = cc
  decide-asks_stop env now (from_reader msg) w h = cc
  decide-asks_stop env now tick w h = cc
  decide-asks_stop env now expiry w h = cc

  pub decide-kept :
      (later : Bool) (env : Env) (now : ℕ) (ev : Event) (w : Writer)
      → let d = decide p keys cfg env now ev w in
        (d.0.stopped ≡ w.stopped) × ((is_close d.1.0 ≡ false) ⊎ ((asks_stop ev || later) ≡ true))
  decide-kept later env now ev w = elim (Bool-cases (asks_stop ev)) [
    | inl h ↦ (ap (λ d. d.0.stopped) (decide-asks_stop env now ev w h), inr (rw h refl))
    | inr h ↦ let calm = decide-Calm env now ev w h in (calm.0, inl calm.1)
  ]
