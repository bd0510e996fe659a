-- ===== src/Supervisor/Sleep.antt =====
-- src/client/io.rs, sleep_unless_stopped: the wait between two connections, in slices. Times are
-- milliseconds. When the stop flag reads as set, and how much later than asked a sleep ends, are
-- functions of the time.
use loxwebsocketclient_rs.Prelude.{
  ℕ, zero, suc, ◌+◌, ◌-◌, ◌*◌, ◌⊎◌, ◌≤◌, ◌<◌, min, ◌≡◌, arith, inl, inr, Bool, true, false,
  Bool-cases, Option, some, none, leb, le→leb, gt→leb, refl, if◌then◌else◌,
}

abbrev pub slice : ℕ
slice = 250

le_or_lt : (a b : ℕ) → (a ≤ b) ⊎ (b < a)
le_or_lt a b = ground arith

module _ (stopped : ℕ → Bool) (late : ℕ → ℕ) where
  -- The time at which it returns, and what.
  unfoldable pub sleep_loop : ℕ → ℕ → ℕ → Option (ℕ × Bool)
  sleep_loop zero deadline now = none
  sleep_loop (suc fuel) deadline now =
      let rest = sleep_loop fuel deadline (now + min slice (deadline - now) + late now) in
      if stopped now then some (now, false) else if leb deadline now then some (now, true) else rest

  unfoldable pub sleep_unless_stopped : ℕ → ℕ → ℕ → Option (ℕ × Bool)
  sleep_unless_stopped fuel total now = sleep_loop fuel (now + total) now

  -- What a wait from `now` to `deadline` gives where no sleep ends more than `slack` late.
  pub record Prompt (slack now deadline : ℕ) (r : ℕ × Bool) : Type 0 where
    pub from : now ≤ r.0
    pub ends : (r.0 ≤ now) ⊎ (r.0 ≤ deadline + slack)
    pub whole : r.1 ≡ true → deadline ≤ r.0
    pub asked : r.1 ≡ false → stopped r.0 ≡ true
    pub at_once : stopped now ≡ true → r.0 ≡ now
    pub noticed : (at : ℕ) → now ≤ at → stopped at ≡ true → r.0 ≤ at + slice + slack

  abbrev pub Returns : ℕ → ℕ → ℕ → Option (ℕ × Bool) → Type 0
  Returns slack now deadline o = (r : ℕ × Bool) × (o ≡ some r) × Prompt slack now deadline r

  module _ (stays : (s t : ℕ) → s ≤ t → stopped s ≡ true → stopped t ≡ true) where
    later-Prompt :
        (slack deadline now next : ℕ) (r : ℕ × Bool)
        → stopped now ≡ false
        → now ≤ next
        → next ≤ deadline + slack
        → next ≤ now + slice + slack
        → Prompt slack next deadline r
        → Prompt slack now deadline r
    later-Prompt slack deadline now next r running on_ends in_bound by_slice p = record {
      from = omega (arith, p.from);
      ends = inr (elim p.ends [ inl e ↦ omega arith | inr e ↦ e ]);
      whole = p.whole;
      asked = p.asked;
      at_once = λ on. absurd (ground arith);
      noticed = λ at le on. elim (le_or_lt next at) [
        | inl e ↦ p.noticed at e on
        | inr e ↦ omega (arith, p.at_once (stays at next (omega arith) on))
      ];
    }

    stopped-Prompt :
        (slack deadline now : ℕ) → stopped now ≡ true → Prompt slack now deadline (now, false)
    stopped-Prompt slack deadline now e = record {
      from = omega arith;
      ends = inl (omega arith);
      whole = λ f. absurd (ground arith);
      asked = λ _. e;
      at_once = λ _. refl;
      noticed = λ at le on. omega arith;
    }

    over-Prompt :
        (slack deadline now : ℕ)
        → stopped now ≡ false
        → deadline ≤ now
        → Prompt slack now deadline (now, true)
    over-Prompt slack deadline now e past = record {
      from = omega arith;
      ends = inl (omega arith);
      whole = λ _. past;
      asked = λ f. absurd (ground arith);
      at_once = λ _. refl;
      noticed = λ at le on. omega arith;
    }

    -- A round that does not sleep, or else what `goes_on` says.
    round-Prompt :
        (slack fuel deadline now : ℕ)
        → (stopped now ≡ false
            → now < deadline
            → Returns slack now deadline (sleep_loop (suc fuel) deadline now))
        → Returns slack now deadline (sleep_loop (suc fuel) deadline now)
    unfolding sleep_loop
    round-Prompt slack fuel deadline now goes_on = elim (Bool-cases (stopped now)) [
      | inl e ↦ ((now, false), (rw e), stopped-Prompt slack deadline now e)
      | inr e ↦ elim (le_or_lt deadline now) [
        | inl past ↦
            ((now, true), (rw (e, le→leb deadline now past)), over-Prompt slack deadline now e past)
        | inr before ↦ goes_on e before
      ]
    ]

    slept-Prompt :
        (slack fuel deadline now : ℕ)
        → late now ≤ slack
        → (let next = now + min slice (deadline - now) + late now in
            Returns slack next deadline (sleep_loop (suc fuel) deadline next))
        → stopped now ≡ false
        → now < deadline
        → Returns slack now deadline (sleep_loop (suc (suc fuel)) deadline now)
    unfolding sleep_loop
    slept-Prompt slack fuel deadline now in_time (r, q, p) e before = (
      r,
      (rw (e, gt→leb deadline now before) q),
      later-Prompt slack deadline now (now + min slice (deadline - now) + late now) r e
          (omega arith) (omega arith) (omega arith) p,
    )

    sleep_loop-Prompt :
        (slack : ℕ)
        → ((t : ℕ) → late t ≤ slack)
        → (fuel deadline now : ℕ) → deadline ≤ now + fuel * slice
        → Returns slack now deadline (sleep_loop (suc fuel) deadline now)
    sleep_loop-Prompt slack in_time zero deadline now enough =
        round-Prompt slack zero deadline now (λ e before. absurd (omega arith))
    sleep_loop-Prompt slack in_time (suc f) deadline now enough =
        round-Prompt slack (suc f) deadline now (
          slept-Prompt slack f deadline now (in_time now) (
            sleep_loop-Prompt slack in_time f deadline (now + min slice (deadline - now) + late now)
              (omega arith)))

    -- A wait of `total`, where the flag once set stays set and no sleep ends more than `slack` late,
    -- returns after at most one look at the flag for each slice of it and one more. It ends no more
    -- than `slack` after the deadline (or at once), gives `true` only when the time is over and
    -- `false` only when the flag is set, and at most a slice and `slack` after the flag was set.
    pub sleep_unless_stopped-Prompt :
        (slack : ℕ)
        → ((t : ℕ) → late t ≤ slack)
        → (fuel total now : ℕ) → total ≤ fuel * slice
        → Returns slack now (now + total) (sleep_unless_stopped (suc fuel) total now)
    unfolding sleep_unless_stopped
    sleep_unless_stopped-Prompt slack in_time fuel total now enough =
        sleep_loop-Prompt slack in_time fuel (now + total) now (omega arith)
