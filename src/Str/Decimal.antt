-- ===== src/Str/Decimal.antt =====
-- Decimal numbers: `to_string` and `parse` of integers.
use loxwebsocketclient_rs.Prelude.{
  ℕ, zero, suc, ◌+◌, ◌-◌, ◌*◌, ◌/◌, ◌%◌, ◌^◌, ◌≤◌, ◌<◌, ◌≡◌, refl, sym, ap, ◌∙◌, inl, inr, arith,
  Bool, true, false, ◌&&◌, Option, none, some, [], ◌∷◌, ltb, leb, ◌==◌, if◌then◌else◌, Bool-cases,
  Bytes,
}
use loxwebsocketclient_rs.Prelude.Int.{ℤ, pos, negsuc}
use loxwebsocketclient_rs.Str.Laws.{Free}

-- The digits of a number in front of what follows. Each round divides by ten, so `n + 1` rounds are
-- enough for `n`.
unfoldable pub to_dec : ℕ → ℕ → Bytes → Bytes
to_dec zero n acc = acc
to_dec (suc rounds) n acc = elim (ltb n 10) [
  | true ↦ (48 + n) ∷ acc
  | false ↦ to_dec rounds (n / 10) ((48 + n % 10) ∷ acc)
]

unfoldable pub decimal : ℕ → Bytes
decimal n = to_dec (suc n) n []

abbrev pub is_digit : ℕ → Bool
is_digit c = leb 48 c && leb c 57

unfoldable pub from_dec : ℕ → Bytes → Option ℕ
from_dec v [] = some v
from_dec v (c ∷ cs) = if is_digit c then from_dec (v * 10 + (c - 48)) cs else none

-- One digit at least.
unfoldable pub parse_dec : Bytes → Option ℕ
parse_dec [] = none
parse_dec (c ∷ cs) = from_dec 0 (c ∷ cs)

-- The range of an i64.
abbrev pub IsI64 : ℤ → Type 0
IsI64 (pos n) = n < 2 ^ 63
IsI64 (negsuc n) = n < 2 ^ 63

unfoldable pub print_i64 : ℤ → Bytes
print_i64 (pos n) = decimal n
print_i64 (negsuc n) = b'-' ∷ decimal (suc n)

unfoldable pub in_positive : Option ℕ → Option ℤ
in_positive none = none
in_positive (some n) = if ltb n (2 ^ 63) then some (pos n) else none

unfoldable pub in_negative : Option ℕ → Option ℤ
in_negative none = none
in_negative (some zero) = some (pos 0)
in_negative (some (suc n)) = if ltb n (2 ^ 63) then some (negsuc n) else none

-- `s.parse::<i64>().ok()`.
unfoldable pub parse_i64 : Bytes → Option ℤ
parse_i64 [] = none
parse_i64 (c ∷ cs) =
    if c == b'-'
    then in_negative (parse_dec cs)
    else if c == b'+'
    then in_positive (parse_dec cs)
    else in_positive (parse_dec (c ∷ cs))

from_dec-to_dec :
    (rounds n : ℕ) (acc : Bytes) → n < rounds → from_dec 0 (to_dec rounds n acc) ≡ from_dec n acc
unfolding to_dec from_dec
from_dec-to_dec zero n acc h = elim h [ ]
from_dec-to_dec (suc rounds) n acc h = elim (Bool-cases (ltb n 10)) [
  | inl e ↦
      let digit : is_digit (48 + n) ≡ true = ground arith in
      let value : 0 + (48 + n - 48) ≡ n = omega arith in
      rw (e, to_dec, digit) (ap (λ v. from_dec v acc) value)
  | inr e ↦
      let big : 10 ≤ n = ground arith in
      let digit : is_digit (48 + n % 10) ≡ true = ground arith in
      rw (e, to_dec)
        (from_dec-to_dec rounds (n / 10) ((48 + n % 10) ∷ acc) (omega arith)
          ∙ rw digit (ap (λ v. from_dec v acc) (omega arith)))
]

-- A digit stands first.
to_dec-head :
    (rounds n : ℕ) (acc : Bytes)
    → (c : ℕ) × (cs : Bytes) × (to_dec (suc rounds) n acc ≡ c ∷ cs) × (48 ≤ c)
unfolding to_dec
to_dec-head zero n acc = elim (Bool-cases (ltb n 10)) [
  | inl e ↦ (48 + n, acc, rw (e, to_dec) refl, omega arith)
  | inr e ↦ (48 + n % 10, acc, rw (e, to_dec) refl, omega arith)
]
to_dec-head (suc rounds) n acc = elim (Bool-cases (ltb n 10)) [
  | inl e ↦ (48 + n, acc, rw (e, to_dec) refl, omega arith)
  | inr e ↦
      let (c, cs, q, d) = to_dec-head rounds (n / 10) ((48 + n % 10) ∷ acc) in
      (c, cs, rw (e, to_dec) q, d)
]

parse_dec-decimal : (n : ℕ) → parse_dec (decimal n) ≡ some n
unfolding decimal from_dec
parse_dec-decimal n =
    let (c, cs, q, d) = to_dec-head n n [] in
    ap parse_dec q
    ∙ unfold parse_dec in ap (from_dec 0) (sym q) ∙ from_dec-to_dec (suc n) n [] (omega arith)

pub parse_i64-print_i64 : (v : ℤ) → IsI64 v → parse_i64 (print_i64 v) ≡ some v
unfolding print_i64 parse_i64 in_positive in_negative
parse_i64-print_i64 (pos n) h = signless (to_dec-head n n [])
  where
    signless :
        (c : ℕ) × (cs : Bytes) × (to_dec (suc n) n [] ≡ c ∷ cs) × (48 ≤ c)
        → parse_i64 (decimal n) ≡ some (pos n)
    signless (c, cs, q, d) =
        let same : decimal n ≡ c ∷ cs = unfold decimal in q in
        let minus : (c == b'-') ≡ false = ground arith in
        let plus : (c == b'+') ≡ false = ground arith in
        let small : ltb n (2 ^ 63) ≡ true = ground arith in
        rw same (
          rw (minus, plus)
            (ap in_positive (ap parse_dec (sym same) ∙ parse_dec-decimal n) ∙ rw small refl))
parse_i64-print_i64 (negsuc n) h =
    let small : ltb n (2 ^ 63) ≡ true = ground arith in
    ap in_negative (parse_dec-decimal (suc n)) ∙ rw small refl

-- No character before the digits stands in a number.
to_dec-Free : (c rounds n : ℕ) (acc : Bytes) → c < 48 → Free c acc → Free c (to_dec rounds n acc)
unfolding to_dec
to_dec-Free c zero n acc h f = f
to_dec-Free c (suc rounds) n acc h f = elim (Bool-cases (ltb n 10)) [
  | inl e ↦ rw (e, to_dec) (ground arith, f)
  | inr e ↦ rw (e, to_dec) (to_dec-Free c rounds (n / 10) _ h (ground arith, f))
]

pub print_i64-Free : (c : ℕ) (v : ℤ) → c < 45 → Free c (print_i64 v)
unfolding print_i64 decimal
print_i64-Free c (pos n) h = to_dec-Free c (suc n) n [] (omega arith) tt
print_i64-Free c (negsuc n) h =
    (ground arith, to_dec-Free c (suc (suc n)) (suc n) [] (omega arith) tt)
