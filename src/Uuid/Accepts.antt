-- ===== src/Uuid/Accepts.antt =====
-- Which texts the parser takes.
use Prim.Native.Nat.{bit_or}
use loxwebsocketclient_rs.Prelude.{
  ℕ, ◌+◌, ◌*◌, ◌≤◌, ◌<◌, ◌≡◌, ◌↔◌, inl, inr, refl, sym, ap, fun_ext, ◌∙◌, arith, leb, ◌/◌, ◌%◌,
  get_or, ◌&&◌, true, false, none, some, [], ◌∷◌, ◌==◌, if◌then◌else◌, Bool-cases, Option-cases,
  length, set, length-set, All, Bytes,
}
use loxwebsocketclient_rs.Error.{ok, err, ◌>>=◌, >>=-eq-ok, invalid_uuid}
use loxwebsocketclient_rs.Uuid.{
  LoxoneUuid, ParseState, start, hex_value, store_nibble, parse_step, parse_loop, finish, reorder,
  parse,
}

-- The text without its dashes.
unfoldable pub without_dashes : Bytes → Bytes
without_dashes [] = []
without_dashes (c ∷ cs) = if c == b'-' then without_dashes cs else c ∷ without_dashes cs

parse_step_dash : (s : ParseState) (c : ℕ) → (c == b'-') ≡ true → parse_step s c ≡ ok s
unfolding parse_step
parse_step_dash s c e = rw e

parse_loop-without_dashes :
    (s : ParseState) (cs : Bytes) → parse_loop s (without_dashes cs) ≡ parse_loop s cs
unfolding parse_loop without_dashes
parse_loop-without_dashes s [] = refl
parse_loop-without_dashes s (c ∷ cs) = elim (Bool-cases (c == b'-')) [
  | inl e ↦
      rw (e, without_dashes)
        (parse_loop-without_dashes s cs
          ∙ ap (λ r. r >>= λ s'. parse_loop s' cs) (sym (parse_step_dash s c e)))
  | inr e ↦
      rw (e, without_dashes)
        (ap (λ k. parse_step s c >>= k) (fun_ext (λ s'. parse_loop-without_dashes s' cs)))
]

-- Dashes do not matter, wherever they stand.
pub parse-without_dashes : (s : Bytes) → parse (without_dashes s) ≡ parse s
unfolding parse
parse-without_dashes s = rw (parse_loop-without_dashes start s)

-- A dash, or a hex digit of either case.
pub data IsTextByte (c : ℕ) : Type 0 where
  dash : c ≡ b'-' → IsTextByte c
  decimal : b'0' ≤ c → c ≤ b'9' → IsTextByte c
  lower : b'a' ≤ c → c ≤ b'f' → IsTextByte c
  upper : b'A' ≤ c → c ≤ b'F' → IsTextByte c

-- The digits that the parser has a value for.
hex_value-IsTextByte : (c v : ℕ) → hex_value c ≡ some v → IsTextByte c
unfolding hex_value
hex_value-IsTextByte c v h = elim (Bool-cases (leb b'0' c && leb c b'9')) [
  | inl d ↦ decimal (ground arith) (ground arith)
  | inr d ↦ elim (Bool-cases (leb b'a' c && leb c b'f')) [
    | inl l ↦ lower (ground arith) (ground arith)
    | inr l ↦ elim (Bool-cases (leb b'A' c && leb c b'F')) [
      | inl u ↦ upper (ground arith) (ground arith)
      | inr u ↦ absurd (ground arith)
    ]
  ]
]

abbrev pub count : Bytes → ℕ
count cs = length (without_dashes cs)

-- What one round does.
data StepCases (s : ParseState) (c : ℕ) : Type 0 where
  skipped : (c == b'-') ≡ true → parse_step s c ≡ ok s → StepCases s c
  stored :
      (v : ℕ) (t : ParseState)
      → (c == b'-') ≡ false
      → hex_value c ≡ some v
      → s.nibbles < 32
      → parse_step s c ≡ ok t
      → t.nibbles ≡ s.nibbles + 1
      → length t.raw ≡ length s.raw
      → StepCases s c
  full :
      (v : ℕ)
      → (c == b'-') ≡ false
      → hex_value c ≡ some v
      → 32 ≤ s.nibbles
      → parse_step s c ≡ err invalid_uuid
      → StepCases s c
  no_digit :
      (c == b'-') ≡ false → hex_value c ≡ none → parse_step s c ≡ err invalid_uuid → StepCases s c

step_cases : (s : ParseState) (c : ℕ) → StepCases s c
unfolding parse_step store_nibble
step_cases s c = elim (Bool-cases (c == b'-')) [
  | inl e ↦ skipped e (ground arith)
  | inr e ↦ elim (Option-cases (hex_value c)) [
    | inl n ↦ no_digit e n (ground arith)
    | inr (v, h) ↦ elim (Bool-cases (leb 32 s.nibbles)) [
      | inl f ↦ full v e h (ground arith) (ground arith)
      | inr f ↦
          stored v
            (record {
              raw = set s.raw (s.nibbles / 2) (
                  if s.nibbles % 2 == 0
                  then v * 16 % 256
                  else bit_or (get_or s.raw (s.nibbles / 2) 0) v);
              nibbles = s.nibbles + 1;
            })
            e h (ground arith) (ground arith) refl (length-set s.raw _ _)
    ]
  ]
]

abbrev pub IsText : Bytes → Type 0
IsText cs = All IsTextByte cs

parse_loop_inv :
    (cs : Bytes) (s t : ParseState)
    → parse_loop s cs ≡ ok t
    → IsText cs × (t.nibbles ≡ s.nibbles + count cs) × (length t.raw ≡ length s.raw)
unfolding parse_loop without_dashes
parse_loop_inv [] s t e = (tt, ground arith, ground arith)
parse_loop_inv (c ∷ cs) s t e = elim (step_cases s c) [
  | skipped d p ↦
      let (a, n, l) = parse_loop_inv cs s t (rw p at e) in
      ((dash (ground arith), a), ground arith, ground arith)
  | stored v u d h room p nu lu ↦
      let (a, n, l) = parse_loop_inv cs u t (rw p at e) in
      ((hex_value-IsTextByte c v h, a), ground arith, ground arith)
  | full v d h room p ↦ absurd (cc)
  | no_digit d h p ↦ absurd (cc)
]

not-IsTextByte : {c : ℕ} → IsTextByte c → (c == b'-') ≡ false → hex_value c ≡ none → ⊥
unfolding hex_value
not-IsTextByte (dash e) d n = ground arith
not-IsTextByte (decimal a b) d n = ground arith
not-IsTextByte (lower a b) d n = ground arith
not-IsTextByte (upper a b) d n = ground arith

parse_loop_run :
    (cs : Bytes) (s : ParseState)
    → IsText cs
    → s.nibbles + count cs ≤ 32
    → (t : ParseState) × (parse_loop s cs ≡ ok t) × (t.nibbles ≡ s.nibbles + count cs)
unfolding parse_loop without_dashes
parse_loop_run [] s a h = (s, refl, omega arith)
parse_loop_run (c ∷ cs) s (b, a) h = elim (step_cases s c) [
  | skipped d p ↦ let (t, q, n) = parse_loop_run cs s a (ground arith) in (t, rw p q, ground arith)
  | stored v u d g room p nu lu ↦
      let (t, q, n) = parse_loop_run cs u a (ground arith) in (t, rw p q, ground arith)
  | full v d g room p ↦ absurd (ground arith)
  | no_digit d g p ↦ absurd (not-IsTextByte b d g)
]

-- A text parses exactly when all its bytes are dashes and hex digits, `0` to `9`, `a` to `f` and `A`
-- to `F`, and it has 32 hex digits.
pub parse-ok_iff : (s : Bytes) → ((u : LoxoneUuid) × (parse s ≡ ok u)) ↔ (IsText s × (count s ≡ 32))
unfolding parse finish
parse-ok_iff s = (only, enough)
  where
    only : (u : LoxoneUuid) × (parse s ≡ ok u) → IsText s × (count s ≡ 32)
    only (u, e) =
        let (t, p, q) = >>=-eq-ok (parse_loop start s) finish e in
        let (a, n, _) = parse_loop_inv s start t p in (a, ground arith)

    enough : IsText s × (count s ≡ 32) → (u : LoxoneUuid) × (parse s ≡ ok u)
    enough (a, n) =
        let (t, e, m) = parse_loop_run s start a (omega arith) in
        (record { bytes = reorder t.raw }, rw e (ground arith))
