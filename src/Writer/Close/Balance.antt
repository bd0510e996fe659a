-- ===== src/Writer/Close/Balance.antt =====
-- What is replied to a channel, or will be: nothing that the session does on its own changes it.
use loxwebsocketclient_rs.Prelude.{
  ℕ, ◌+◌, ◌≡◌, refl, ap, ◌∙◌, arith, false, some, List, [], ◌∷◌, ◌++◌, ◌==◌, if-cases, Bytes,
}
use loxwebsocketclient_rs.Error.{Result, ok, err}
use loxwebsocketclient_rs.Json.{Json}
use loxwebsocketclient_rs.Hash.{Digests}
use loxwebsocketclient_rs.Token.{LxToken, is_empty}
use loxwebsocketclient_rs.Flow.{cmd_get_key, cmd_kill_token}
use loxwebsocketclient_rs.Session.{Primitives, SessionKeys}
use loxwebsocketclient_rs.Pending.{Reply, fail_all, resolve}
use loxwebsocketclient_rs.Pending.Fifo.{
  channels, waiters, Op, answer_op, expire_op, fail_op, arrives, step, channels-append,
  step-waiters,
}
use loxwebsocketclient_rs.Shared.{TokenStore}
use loxwebsocketclient_rs.Writer.{
  WriterConfig, text_out, control_out, stop_out, close_out, idle_out, Decision, prepare_command,
  expire_pending,
}
use loxwebsocketclient_rs.Writer.Close.{
  Request, SessionState, Answer, decided, write, finish, answered_to, meanwhile, requested, request,
  send_kill, hashed, kill_token, graceful_close, expired,
}
use loxwebsocketclient_rs.Writer.Close.Owed.{times, times-append, owed, prepare_command-Owes}

module _ (c : ℕ) {S : Type 0} where
  -- How often the channel has been replied to, or will be by the queue.
  abbrev pub balance : SessionState S → ℕ
  balance s = owed c s.replies s.writer

  -- An operation on the queue moves answers from the queue to the replies.
  op-balance :
      (p : Primitives) (keys : SessionKeys) (op : Op) (s t : SessionState S)
      → arrives op ≡ []
      → t.writer.pending ≡ (step p keys op s.writer.pending).0
      → t.replies ≡ s.replies ++ (step p keys op s.writer.pending).1
      → balance t ≡ balance s
  op-balance p keys op s t none_new queue replies =
      let moved = step-waiters p keys op s.writer.pending in
      let there : List ℕ = waiters (step p keys op s.writer.pending).0.entries in
      let sent : List ℕ = channels (step p keys op s.writer.pending).1 in
      omega (
        arith,
        ap (λ q. times c (waiters q.entries)) queue,
        ap (λ (rs : List Reply). times c (channels rs)) replies,
        ap (times c) (channels-append s.replies (step p keys op s.writer.pending).1),
        times-append c (channels s.replies) sent,
        ap (times c) moved,
        times-append c sent there,
        ap (times c) none_new,
        times-append c (waiters s.writer.pending.entries) (arrives op),
      )

  pub finish-balance :
      (p : Primitives) (keys : SessionKeys) (s : SessionState S)
      → times c (channels (finish s).replies) ≡ balance s
  unfolding finish fail_all
  finish-balance p keys s = omega (arith, op-balance p keys fail_op s (finish s) refl refl refl)

  module _ (p : Primitives) (keys : SessionKeys) (cfg : WriterConfig) (j : Json) (d : Digests)
      (close_payload : ℕ → Bytes → Bytes) (store : TokenStore S) where
    pub meanwhile-balance :
        (answers : List Answer) (s : SessionState S)
        → balance (meanwhile p keys cfg j d close_payload store answers s) ≡ balance s
    meanwhile-balance [] s = refl
    meanwhile-balance ((control, payload) ∷ answers) s =
        let after =
          answered_to p keys cfg j d close_payload store payload
            (resolve p control keys s.writer.pending) s in
        meanwhile-balance answers after
        ∙ op-balance p keys (answer_op control payload) s after refl refl refl

    pub expired-balance :
        (now : ℕ) (s : SessionState S)
        → balance (expired p keys cfg j d close_payload store now s) ≡ balance s
    unfolding expire_pending
    expired-balance now s =
        op-balance p keys (expire_op now) s (expired p keys cfg j d close_payload store now s) refl
          refl refl

    pub decided-balance :
        (made : Decision) (new : List ℕ) (s : SessionState S)
        → owed c made.1.1 made.0 ≡ times c (waiters s.writer.pending.entries) + times c new
        → balance (decided made s) ≡ balance s + times c new
    decided-balance made new s h = omega (
      arith,
      ap (times c) (channels-append s.replies made.1.1),
      times-append c (channels s.replies) (channels made.1.1),
    )

    request-balance :
        (cmd : Bytes) (r : Request) (s : SessionState S)
        → (r.channel == c) ≡ false
        → balance (request p keys cfg j d close_payload store cmd r s).0 ≡ balance s
    unfolding request
    request-balance cmd r s h =
        go (prepare_command p keys cfg r.env r.now cmd (some r.channel) s.writer)
          (prepare_command-Owes c p keys cfg r.env r.now cmd (some r.channel) s.writer)
      where
        other : times c (r.channel ∷ []) ≡ 0
        other = rw h (omega arith)

        go :
            (made : Decision)
            → owed c made.1.1 made.0
              ≡ times c (waiters s.writer.pending.entries) + times c (r.channel ∷ [])
            → balance (requested p keys cfg j d close_payload store r made s).0 ≡ balance s
        go (w, (text_out text, replies)) e = omega (
          arith,
          other,
          decided-balance (w, (text_out text, replies)) (r.channel ∷ []) s e,
          meanwhile-balance r.answers
              (write (text_out text) (decided (w, (text_out text, replies)) s)),
        )
        go (w, (control_out o bytes, replies)) e =
            omega (
              arith,
              other,
              decided-balance (w, (control_out o bytes, replies)) (r.channel ∷ []) s e,
            )
        go (w, (stop_out, replies)) e =
            omega (arith, other, decided-balance (w, (stop_out, replies)) (r.channel ∷ []) s e)
        go (w, (close_out, replies)) e =
            omega (arith, other, decided-balance (w, (close_out, replies)) (r.channel ∷ []) s e)
        go (w, (idle_out, replies)) e =
            omega (arith, other, decided-balance (w, (idle_out, replies)) (r.channel ∷ []) s e)

    send_kill-balance :
        (r : Request) (out : SessionState S × Result Bytes)
        → (r.channel == c) ≡ false
        → balance (send_kill p keys cfg j d close_payload store r out).0 ≡ balance out.0
    send_kill-balance r (s, err e) h = refl
    send_kill-balance r (s, ok hash) h = request-balance (cmd_kill_token hash cfg.username) r s h

    hashed-balance :
        (token : LxToken) (out : SessionState S × Result Bytes)
        → balance (hashed p keys cfg j d close_payload store token out).0 ≡ balance out.0
    hashed-balance token (s, err e) = refl
    hashed-balance token (s, ok key_resp) = refl

    kill_token-balance :
        (r1 r2 : Request) (s : SessionState S)
        → (r1.channel == c) ≡ false
        → (r2.channel == c) ≡ false
        → balance (kill_token p keys cfg j d close_payload store r1 r2 s).0 ≡ balance s
    unfolding kill_token
    kill_token-balance r1 r2 s h1 h2 =
        if-cases {A = SessionState S × Result (Unit {0})} (λ x. balance x.0 ≡ balance s)
          (is_empty s.shared.token) _ _ (λ _. refl)
          (λ _.
            send_kill-balance r2
              (hashed p keys cfg j d close_payload store s.shared.token
                (request p keys cfg j d close_payload store cmd_get_key r1 s))
              h2
            ∙ hashed-balance s.shared.token
                (request p keys cfg j d close_payload store cmd_get_key r1 s)
            ∙ request-balance cmd_get_key r1 s h1)

    pub graceful-balance :
        (r1 r2 : Request) (s : SessionState S)
        → (r1.channel == c) ≡ false
        → (r2.channel == c) ≡ false
        → balance (graceful_close p keys cfg j d close_payload store r1 r2 s) ≡ balance s
    unfolding graceful_close
    graceful-balance r1 r2 s h1 h2 =
        if-cases {A = SessionState S} (λ t. balance t ≡ balance s) cfg.kill_token_on_stop _ _
          (λ _. kill_token-balance r1 r2 s h1 h2) (λ _. refl)
