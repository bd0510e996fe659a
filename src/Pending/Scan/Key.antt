-- ===== src/Pending/Scan/Key.antt =====
-- The search for the key from quote to quote against the search at every place.
use loxwebsocketclient_rs.Prelude.{
  All-drop, ℕ, zero, suc, ◌+◌, ◌-◌, ◌≤◌, ◌<◌, ◌≡◌, refl, sym, ap, ◌∙◌, inl, inr, arith, Bool, true,
  false, ◌&&◌, Option, none, some, Option-cases, ltb, leb, ◌==◌, if◌then◌else◌, Bool-cases, length,
  take, drop, get_or, length-drop, All, Bytes, IsByte,
}
use loxwebsocketclient_rs.Str.{starts_with}
use loxwebsocketclient_rs.Pending.Scan.{
  word_at, position, shift, find_byte, control_key, key_loop, find_control_key,
}
use loxwebsocketclient_rs.Pending.Scan.Find.{find_either-position}
use loxwebsocketclient_rs.Pending.Scan.Occurrence.{
  occurrence, key_test, occurrence_short, shift_zero, shift-shift, is_quote, occurrence-no_quote,
  occurrence-quote, drop-drop, get_or-drop, occurrence-step,
}

-- A round of the loop, branch by branch.
abbrev stands_at : Bytes → ℕ → Bool
stands_at window at =
    (word_at (take 8 (drop at window)) == word_at (take 8 control_key))
    && (get_or window (at + 8) 256 == b'"')

module _ (rounds : ℕ) (window : Bytes) (last from : ℕ) where
  loop_over : leb from last ≡ false → key_loop (suc rounds) window last from ≡ none
  unfolding key_loop
  loop_over h = rw (h, key_loop) refl

  module _ (inside : leb from last ≡ true) where
    loop_no_quote :
        find_byte (drop from window) b'"' ≡ none → key_loop (suc rounds) window last from ≡ none
    unfolding key_loop
    loop_no_quote h = rw (inside, h, key_loop) refl

    module _ (i : ℕ) (quote : find_byte (drop from window) b'"' ≡ some i) where
      loop_late : ltb last (from + i) ≡ true → key_loop (suc rounds) window last from ≡ none
      unfolding key_loop
      loop_late h = rw (inside, quote, h, key_loop) refl

      loop_here :
          ltb last (from + i) ≡ false
          → stands_at window (from + i) ≡ true
          → key_loop (suc rounds) window last from ≡ some (from + i)
      unfolding key_loop
      loop_here h here = rw (inside, quote, h, here, key_loop) refl

      loop_on :
          ltb last (from + i) ≡ false
          → stands_at window (from + i) ≡ false
          → key_loop (suc rounds) window last from ≡ key_loop rounds window last (from + i + 1)
      unfolding key_loop
      loop_on h here = rw (inside, quote, h, here, key_loop) refl

module _ (window : Bytes) (bytes : All IsByte window) where
  -- What is to be found from a place on.
  abbrev from_on : ℕ → Option ℕ
  from_on from = shift from (occurrence control_key (drop from window))

  from_on_short : (from : ℕ) → length window < from + 9 → from_on from ≡ none
  from_on_short from h =
      ap (shift from)
        (occurrence_short control_key (drop from window) (omega (arith, length-drop from window)))

  -- From a quote on, the key stands there or is to be found behind it.
  at_quote :
      (at : ℕ)
      → at + 9 ≤ length window
      → from_on at ≡ (if stands_at window at then some at else from_on (at + 1))
  at_quote at h =
      let rest = drop at window in
      let size = length-drop at window in
      let test : stands_at window at ≡ starts_with control_key rest =
        ap (λ (b : ℕ). (word_at (take 8 rest) == word_at (take 8 control_key)) && (b == b'"'))
          (sym (get_or-drop at 8 window))
        ∙ key_test rest (All-drop at window bytes) (omega (arith, size)) in
      ap (shift at) (occurrence-step rest (omega (arith, size)))
      ∙ go (starts_with control_key rest)
      ∙ ap (λ (b : Bool). if b then some at else from_on (at + 1)) (sym test)
    where
      go :
          (b : Bool)
          → shift at
              (if b then some 0 else shift 1 (occurrence control_key (drop 1 (drop at window))))
            ≡ (if b then some at else from_on (at + 1))
      go true = ap some (omega arith)
      go false =
          shift-shift at 1 (occurrence control_key (drop 1 (drop at window)))
          ∙ ap (λ (s : Bytes). shift (at + 1) (occurrence control_key s)) (drop-drop at 1 window)

  find_quote : (from : ℕ) → find_byte (drop from window) b'"' ≡ position is_quote (drop from window)
  unfolding find_byte
  find_quote from =
      find_either-position b'"' b'"' (omega arith) (omega arith) (drop from window)
        (All-drop from window bytes)

  to_quote :
      (from i : ℕ) → find_byte (drop from window) b'"' ≡ some i → from_on from ≡ from_on (from + i)
  to_quote from i quote =
      ap (shift from) (occurrence-quote (drop from window) i (sym (find_quote from) ∙ quote))
      ∙ shift-shift from i (occurrence control_key (drop i (drop from window)))
      ∙ ap (λ (s : Bytes). shift (from + i) (occurrence control_key s)) (drop-drop from i window)

  at_quote_is :
      (at : ℕ) (b : Bool)
      → at + 9 ≤ length window
      → stands_at window at ≡ b
      → (if b then some at else from_on (at + 1)) ≡ from_on at
  at_quote_is at b h e =
      ap (λ (t : Bool). if t then some at else from_on (at + 1)) (sym e) ∙ sym (at_quote at h)

  key_loop-from_on :
      (rounds from : ℕ)
      → length window < rounds + from + 9
      → 9 ≤ length window
      → key_loop rounds window (length window - 9) from ≡ from_on from
  key_loop-from_on zero from h long = unfold key_loop in sym (from_on_short from (omega arith))
  key_loop-from_on (suc rounds) from h long = elim (Bool-cases (leb from (length window - 9))) [
    | inr q ↦ loop_over rounds window _ from q ∙ sym (from_on_short from (ground arith))
    | inl q ↦ elim (Option-cases (find_byte (drop from window) b'"')) [
      | inl none_ ↦
          loop_no_quote rounds window _ from q none_
          ∙ sym (
              ap (shift from)
                (occurrence-no_quote (drop from window) (sym (find_quote from) ∙ none_)))
      | inr (i, quote) ↦
          let there = to_quote from i quote in
          elim (Bool-cases (ltb (length window - 9) (from + i))) [
            | inl late ↦
                loop_late rounds window _ from q i quote late
                ∙ sym (there ∙ from_on_short (from + i) (ground arith))
            | inr soon ↦ elim (Bool-cases (stands_at window (from + i))) [
              | inl here ↦
                  loop_here rounds window _ from q i quote soon here
                  ∙ at_quote_is (from + i) true (ground arith) here
                  ∙ sym there
              | inr gone ↦
                  loop_on rounds window _ from q i quote soon gone
                  ∙ key_loop-from_on rounds (from + i + 1) (omega arith) long
                  ∙ at_quote_is (from + i) false (ground arith) gone
                  ∙ sym there
            ]
          ]
    ]
  ]

-- The scan that jumps from quote to quote finds the first place at which the key stands, as trying
-- every place does, or nothing where it stands nowhere. The window is any sequence of bytes.
pub find_control_key-occurrence :
    (window : Bytes) → All IsByte window → find_control_key window ≡ occurrence control_key window
unfolding find_control_key
find_control_key-occurrence window h = elim (Bool-cases (ltb (length window) 9)) [
  | inl short ↦ rw short (sym (occurrence_short control_key window (ground arith)))
  | inr long ↦ rw long (
      key_loop-from_on window h (length window) 0 (omega arith) (ground arith)
      ∙ shift_zero (occurrence control_key window))
]
