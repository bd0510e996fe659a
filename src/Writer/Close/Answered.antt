-- ===== src/Writer/Close/Answered.antt =====
-- Over a whole session every command gets one answer.
use loxwebsocketclient_rs.Prelude.{
  ℕ, ◌+◌, ◌≡◌, refl, sym, ap, ◌∙◌, arith, inl, inr, true, false, Option, some, some_inv, List, [],
  ◌∷◌, ◌++◌, ◌==◌, Bytes,
}
use loxwebsocketclient_rs.Error.{Result-cases}
use loxwebsocketclient_rs.Json.{Json}
use loxwebsocketclient_rs.Hash.{Digests}
use loxwebsocketclient_rs.Session.{Primitives, SessionKeys}
use loxwebsocketclient_rs.Pending.Fifo.{channels, waiters}
use loxwebsocketclient_rs.Shared.{TokenStore}
use loxwebsocketclient_rs.Writer.{
  WriterConfig, Outgoing, text_out, control_out, stop_out, close_out, idle_out, decide,
}
use loxwebsocketclient_rs.Writer.Close.{
  Request, Round, SessionState, decided, write, finish, count_error, meanwhile, graceful_close,
  expired, go_on, handle, run,
}
use loxwebsocketclient_rs.Writer.Close.Owed.{times, times-append, asked, decide-Owes}
use loxwebsocketclient_rs.Writer.Close.Balance.{
  balance, finish-balance, meanwhile-balance, expired-balance, decided-balance, graceful-balance,
}

-- The channels of the commands that the rounds bring.
abbrev pub all_asked : List Round → List ℕ
all_asked [] = []
all_asked (r ∷ rs) = asked r.event ++ all_asked rs

module _ (c : ℕ) {S : Type 0} (p : Primitives) (keys : SessionKeys) (cfg : WriterConfig) (j : Json)
    (d : Digests) (close_payload : ℕ → Bytes → Bytes) (store : TokenStore S) where
  -- The channel has been replied to so often when the session has ended.
  abbrev Total : ℕ → SessionState S → Type 0
  Total n s' = times c (channels s'.replies) ≡ n

  ended-Total : (s s' : SessionState S) → some (finish s) ≡ some s' → Total (balance c s) s'
  ended-Total s s' e =
      ap (λ (t : SessionState S). times c (channels t.replies)) (sym (some_inv e))
      ∙ finish-balance c p keys s

  -- A round ends the session, or the next round starts with the same balance.
  abbrev Goes :
      Type 0 → (SessionState S → Option (SessionState S)) → SessionState S → SessionState S → Type 0
  Goes X next s s' = (t : SessionState S) → balance c t ≡ balance c s → next t ≡ some s' → X

  go_on-Goes :
      (X : Type 0) (r : Round) (next : SessionState S → Option (SessionState S))
      (s s' : SessionState S)
      → Goes X next s s'
      → go_on p keys cfg j d close_payload store r next s ≡ some s'
      → X
  go_on-Goes X r next s s' goes e =
      let after = expired p keys cfg j d close_payload store r.done s in
      goes (meanwhile p keys cfg j d close_payload store r.answers after)
        (meanwhile-balance c p keys cfg j d close_payload store r.answers after
          ∙ expired-balance c p keys cfg j d close_payload store r.done s)
        e

  handle-Goes :
      (X : Type 0) (r : Round) (r1 r2 : Request) (next : SessionState S → Option (SessionState S))
      (out : Outgoing) (s s' : SessionState S)
      → (r1.channel == c) ≡ false
      → (r2.channel == c) ≡ false
      → (Total (balance c s) s' → X)
      → Goes X next s s'
      → handle p keys cfg j d close_payload store r r1 r2 next out s ≡ some s'
      → X
  unfolding handle
  handle-Goes X r r1 r2 next idle_out s s' h1 h2 ends goes e = go_on-Goes X r next s s' goes e
  handle-Goes X r r1 r2 next (text_out text) s s' h1 h2 ends goes e =
      elim (Result-cases r.written) [
        | inl (x, q) ↦ ends (ended-Total (count_error (write (text_out text) s)) s' (rw q at e))
        | inr (x, q) ↦ go_on-Goes X r next (write (text_out text) s) s' goes (rw q at e)
      ]
  handle-Goes X r r1 r2 next (control_out o bytes) s s' h1 h2 ends goes e =
      elim (Result-cases r.written) [
        | inl (x, q) ↦ ends (ended-Total (write (control_out o bytes) s) s' (rw q at e))
        | inr (x, q) ↦ go_on-Goes X r next (write (control_out o bytes) s) s' goes (rw q at e)
      ]
  handle-Goes X r r1 r2 next stop_out s s' h1 h2 ends goes e = ends (ended-Total s s' e)
  handle-Goes X r r1 r2 next close_out s s' h1 h2 ends goes e =
      let marked = record s { writer = record s.writer { stopped = true } } in
      let closed = graceful_close p keys cfg j d close_payload store r1 r2 marked in
      ends (
        ended-Total closed s' e
        ∙ graceful-balance c p keys cfg j d close_payload store r1 r2 marked h1 h2)

  -- When a session has ended, after some of the rounds: whatever the Miniserver answered or left
  -- unanswered, whatever expired, was refused or could not be written, a channel has been replied to
  -- exactly as often as commands with it were given in those rounds, or waited before, or had been
  -- replied to. The channel is none of the two that the shutdown itself makes. So each command gets
  -- one answer, and none is left waiting.
  pub run-answered :
      (r1 r2 : Request) (rs : List Round) (s s' : SessionState S)
      → (r1.channel == c) ≡ false
      → (r2.channel == c) ≡ false
      → run p keys cfg j d close_payload store r1 r2 rs s ≡ some s'
      → (before after : List Round) × (rs ≡ before ++ after)
        × (times c (channels s'.replies)
            ≡ times c (channels s.replies)
              + times c (waiters s.writer.pending.entries)
              + times c (all_asked before))
  unfolding run
  run-answered r1 r2 [] s s' h1 h2 e = cc
  run-answered r1 r2 (r ∷ rs) s s' h1 h2 e =
      let made = decide p keys cfg r.env r.now r.event s.writer in
      let taken =
        decided-balance c p keys cfg j d close_payload store made (asked r.event) s
          (decide-Owes c p keys cfg r.env r.now r.event s.writer) in
      handle-Goes _ r r1 r2 (run p keys cfg j d close_payload store r1 r2 rs) made.1.0
        (decided made s) s' h1 h2
        (λ total.
          (r ∷ [], rs, refl, omega (arith, total, taken, times-append c (asked r.event) [])))
        (λ t same next.
          let (before, after, split, total) = run-answered r1 r2 rs t s' h1 h2 next in
          (
            r ∷ before,
            after,
            ap (◌∷◌ r) split,
            omega (arith, total, same, taken, times-append c (asked r.event) (all_asked before)),
          ))
        e
