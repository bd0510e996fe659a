-- ===== src/Pending/Expiry.antt =====
-- Which commands time out.
use loxwebsocketclient_rs.Prelude.{
  ℕ, ◌+◌, ◌≤◌, ◌<◌, ◌≡◌, refl, inl, inr, arith, true, some, List, [], ◌∷◌, ◌++◌, length, ltb,
  ltb→lt, if◌then◌else◌, Bool-cases, some_inv, All,
}
use loxwebsocketclient_rs.Pending.{
  PendingEntry, PendingQueue, push, next_deadline, expire_loop, expire,
}

-- Deadlines in the order of the queue.
abbrev pub Sorted : List PendingEntry → Type 0
Sorted [] = Unit
Sorted (e ∷ es) = All (λ (f : PendingEntry). e.deadline ≤ f.deadline) es × Sorted es

abbrev pub unexpired : ℕ → List PendingEntry → List PendingEntry
unexpired now [] = []
unexpired now (e ∷ es) =
    let rest = unexpired now es in if ltb now e.deadline then e ∷ rest else rest

unexpired-later :
    (now d : ℕ) (es : List PendingEntry)
    → now < d
    → All (λ (f : PendingEntry). d ≤ f.deadline) es
    → unexpired now es ≡ es
unexpired-later now d [] h all = refl
unexpired-later now d (e ∷ es) h all =
    let first = all.0 in
    let later : ltb now e.deadline ≡ true = ground arith in
    rw (later, unexpired-later now d es h all.1)

expire_loop-Sorted :
    (now : ℕ) (es : List PendingEntry)
    → Sorted es
    → ((expire_loop now es).left ≡ unexpired now es)
      × ((expire_loop now es).count + length (expire_loop now es).left ≡ length es)
unfolding expire_loop
expire_loop-Sorted now [] h = (refl, refl)
expire_loop-Sorted now (e ∷ es) h = elim (Bool-cases (ltb now e.deadline)) [
  | inl later ↦ (
    rw (later, unexpired-later now e.deadline es (ltb→lt _ _ later) h.0) refl,
    rw later (omega arith),
  )
  | inr due ↦
      let (left, count) = expire_loop-Sorted now es h.1 in
      (rw (due, left) refl, rw due (omega arith))
]

pub push-Sorted_loop :
    (es : List PendingEntry) (e : PendingEntry)
    → Sorted es
    → All (λ (f : PendingEntry). f.deadline ≤ e.deadline) es
    → Sorted (es ++ (e ∷ []))
push-Sorted_loop [] e h all = (tt, tt)
push-Sorted_loop (x ∷ xs) e h all = (snoc x.deadline xs h.0 all.0, push-Sorted_loop xs e h.1 all.1)
  where
    snoc :
        (d : ℕ) (ys : List PendingEntry)
        → All (λ (f : PendingEntry). d ≤ f.deadline) ys
        → d ≤ e.deadline
        → All (λ (f : PendingEntry). d ≤ f.deadline) (ys ++ (e ∷ []))
    snoc d [] k m = (m, tt)
    snoc d (y ∷ ys) k m = (k.0, snoc d ys k.1 m)

-- A queue whose deadlines are in order stays so when a command with no earlier deadline is pushed, and
-- then `expire` drops exactly the commands whose deadline has come, and counts them.
pub expire-push :
    (now : ℕ) (e : PendingEntry) (q : PendingQueue)
    → Sorted q.entries
    → All (λ (f : PendingEntry). f.deadline ≤ e.deadline) q.entries
    → Sorted (push e q).entries
      × ((expire now (push e q)).0.entries ≡ unexpired now (q.entries ++ (e ∷ [])))
      × ((expire now (push e q)).1.1 + length (expire now (push e q)).0.entries
          ≡ length (q.entries ++ (e ∷ [])))
      × ((expire now (push e q)).0.timeouts ≡ q.timeouts + (expire now (push e q)).1.1)
unfolding push expire
expire-push now e q h all =
    let sorted = push-Sorted_loop q.entries e h all in
    let (left, count) = expire_loop-Sorted now (q.entries ++ (e ∷ [])) sorted in
    (sorted, left, count, refl)

abbrev Ahead : ℕ → List PendingEntry → Type 0
Ahead now [] = Unit
Ahead now (e ∷ es) = now < e.deadline

expire_loop-Ahead : (now : ℕ) (es : List PendingEntry) → Ahead now (expire_loop now es).left
unfolding expire_loop
expire_loop-Ahead now [] = tt
expire_loop-Ahead now (e ∷ es) = elim (Bool-cases (ltb now e.deadline)) [
  | inl later ↦ rw later (ltb→lt _ _ later)
  | inr due ↦ rw due (expire_loop-Ahead now es)
]

next-Ahead :
    (now d : ℕ) (es : List PendingEntry) (m u t : ℕ)
    → Ahead now es
    → next_deadline (record { entries = es; mismatches = m; unsolicited = u; timeouts = t })
      ≡ some d
    → now < d
unfolding next_deadline
next-Ahead now d [] m u t a h = absurd (cc)
next-Ahead now d (e ∷ es) m u t a h = rw (← some_inv h) a

-- After `expire` the next deadline lies ahead, whatever the order of the deadlines is.
pub next_deadline-expire :
    (now d : ℕ) (q : PendingQueue) → next_deadline (expire now q).0 ≡ some d → now < d
unfolding expire
next_deadline-expire now d q h = next-Ahead now d _ _ _ _ (expire_loop-Ahead now q.entries) h
