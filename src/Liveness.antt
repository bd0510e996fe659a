-- ===== src/Liveness.antt =====
-- src/client/state.rs, Liveness: keepalives sent and answered. The clock is an argument; a counter is
-- a u64 that is far from wrapping around.
mod Runs
use loxwebsocketclient_rs.Prelude.{
  ℕ, zero, suc, ◌+◌, ◌-◌, ◌≤◌, ◌<◌, ◌≡◌, refl, ap, ◌∙◌, min, arith, inl, inr, Bool, true, false,
  Option, none, some, List, [], ◌∷◌, ltb, leb, if◌then◌else◌, Bool-cases,
}

pub record Liveness : Type 0 where
  pub sent : ℕ
  pub acked : ℕ
  pub sent_at : Option ℕ

unfoldable pub new : Liveness
new = record { sent = 0; acked = 0; sent_at = none }

unfoldable pub record_sent : ℕ → Liveness → Liveness
record_sent now l = record l { sent_at = some now; sent = l.sent + 1 }

-- The state after it, and when the answered keepalive went out.
unfoldable pub record_ack : Liveness → Liveness × Option ℕ
record_ack l = (
  record l { acked = if ltb l.acked l.sent then l.acked + 1 else l.acked; sent_at = none },
  l.sent_at,
)

unfoldable pub missed : Liveness → ℕ
missed l = l.sent - l.acked

-- src/client/writer.rs, on_keepalive_tick: the state after it and whether a keepalive goes out.
unfoldable pub on_keepalive_tick : ℕ → ℕ → Liveness → Liveness × Bool
on_keepalive_tick max_missed now l =
    if leb max_missed (missed l) then (l, false) else (record_sent now l, true)

pub data Beat : Type 0 where
  sent_beat : ℕ → Beat
  ack_beat : Beat

abbrev pub beat : Beat → Liveness → Liveness
beat (sent_beat now) l = record_sent now l
beat ack_beat l = (record_ack l).0

abbrev pub beats : List Beat → Liveness → Liveness
beats [] l = l
beats (b ∷ bs) l = beats bs (beat b l)

-- A counter that goes up with each keepalive and down with each answer, but not below zero.
abbrev pub outstanding : List Beat → ℕ → ℕ
outstanding [] n = n
outstanding (sent_beat _ ∷ bs) n = outstanding bs (n + 1)
outstanding (ack_beat ∷ bs) n = outstanding bs (n - 1)

abbrev Capped : Liveness → Type 0
Capped l = l.acked ≤ l.sent

sent-Capped :
    (now : ℕ) (l : Liveness)
    → Capped l
    → Capped (record_sent now l) × (missed (record_sent now l) ≡ missed l + 1)
unfolding record_sent missed
sent-Capped now l h = (omega arith, omega arith)

ack-Capped :
    (l : Liveness) → Capped l → Capped (record_ack l).0 × (missed (record_ack l).0 ≡ missed l - 1)
unfolding record_ack missed
ack-Capped l h = (ground arith, ground arith)

missed-beats :
    (bs : List Beat) (l : Liveness) → Capped l → missed (beats bs l) ≡ outstanding bs (missed l)
missed-beats [] l h = refl
missed-beats (sent_beat now ∷ bs) l h =
    let (capped, one) = sent-Capped now l h in
    missed-beats bs (record_sent now l) capped ∙ ap (outstanding bs) one
missed-beats (ack_beat ∷ bs) l h =
    let (capped, one) = ack-Capped l h in
    missed-beats bs (record_ack l).0 capped ∙ ap (outstanding bs) one

-- The missed keepalives are those sent and not answered, where an answer counts for one keepalive
-- and an answer to none counts for nothing.
pub missed-outstanding : (bs : List Beat) → missed (beats bs new) ≡ outstanding bs 0
unfolding new missed
missed-outstanding bs = missed-beats bs new (omega arith)

-- Ticks without an answer.
abbrev pub silent_ticks : ℕ → ℕ → Liveness → Liveness
silent_ticks max_missed zero l = l
silent_ticks max_missed (suc n) l = (on_keepalive_tick max_missed n (silent_ticks max_missed n l)).0

tick-Capped :
    (max_missed now : ℕ) (l : Liveness)
    → Capped l
    → Capped (on_keepalive_tick max_missed now l).0
      × (missed (on_keepalive_tick max_missed now l).0
          ≡ (if leb max_missed (missed l) then missed l else missed l + 1))
unfolding on_keepalive_tick
tick-Capped max_missed now l h = elim (Bool-cases (leb max_missed (missed l))) [
  | inl e ↦ rw e (h, refl)
  | inr e ↦ rw e (sent-Capped now l h)
]

silent-Capped :
    (max_missed n : ℕ)
    → Capped (silent_ticks max_missed n new)
      × (missed (silent_ticks max_missed n new) ≡ min n max_missed)
silent-Capped max_missed zero = unfold new in unfold missed in (omega arith, omega arith)
silent-Capped max_missed (suc n) =
    let (h, m) = silent-Capped max_missed n in
    let (h', m') = tick-Capped max_missed n (silent_ticks max_missed n new) h in (h', ground arith)

-- On a connection that answers no keepalive, exactly `max_missed_keepalives` of them go out: the
-- tick after that many, and every later one, ends the session instead.
pub on_keepalive_tick-silent :
    (max_missed n now : ℕ)
    → (on_keepalive_tick max_missed now (silent_ticks max_missed n new)).1 ≡ ltb n max_missed
on_keepalive_tick-silent max_missed n now =
    let (h, m) = silent-Capped max_missed n in
    unfold on_keepalive_tick in
    elim (Bool-cases (leb max_missed (missed (silent_ticks max_missed n new)))) [
      | inl e ↦ rw e (ground arith)
      | inr e ↦ rw e (ground arith)
    ]
