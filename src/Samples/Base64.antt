-- ===== src/Samples/Base64.antt =====
-- Base64 and percent-decoding as they are specified, for the tests.
use loxwebsocketclient_rs.Prelude.{
  ℕ, ◌+◌, ◌-◌, ◌*◌, ◌/◌, ◌%◌, ◌<◌, ◌≡◌, refl, ap, ap₂, arith, Bool, true, false, ◌&&◌, Option, none,
  some, [], ◌∷◌, ltb, leb, ◌==◌, ==_iff, if◌then◌else◌, all_below, all_below_sound, not, not-true,
  length, All, IsByte, Bytes,
}
use loxwebsocketclient_rs.Session.Wire.{is_base64, IsBase64, upper_digit, Decodes}

abbrev letter : ℕ → ℕ
letter d =
    if ltb d 26
    then b'A' + d
    else if ltb d 52
    then b'a' + (d - 26)
    else if ltb d 62
    then b'0' + (d - 52)
    else if d == 62
    then b'+'
    else b'/'

abbrev value : ℕ → ℕ
value c =
    if leb b'A' c && leb c b'Z'
    then c - b'A'
    else if leb b'a' c && leb c b'z'
    then c - b'a' + 26
    else if leb b'0' c && leb c b'9'
    then c - b'0' + 52
    else if c == b'+'
    then 62
    else 63

unfoldable pub encode : Bytes → Bytes
encode [] = []
encode (a ∷ []) = letter (a / 4) ∷ letter (a % 4 * 16) ∷ b'=' ∷ b'=' ∷ []
encode (a ∷ b ∷ []) =
    letter (a / 4) ∷ letter (a % 4 * 16 + b / 16) ∷ letter (b % 16 * 4) ∷ b'=' ∷ []
encode (a ∷ b ∷ c ∷ rest) =
    letter (a / 4)
    ∷ letter (a % 4 * 16 + b / 16)
    ∷ letter (b % 16 * 4 + c / 64)
    ∷ letter (c % 64)
    ∷ encode rest

abbrev first : ℕ → ℕ → ℕ
first u v = value u * 4 + value v / 16

abbrev second : ℕ → ℕ → ℕ
second v w = value v % 16 * 16 + value w / 4

abbrev third : ℕ → ℕ → ℕ
third w x = value w % 4 * 64 + value x

unfoldable pub decode : Bytes → Option Bytes
decode (u ∷ v ∷ w ∷ x ∷ rest) =
    let more = decode rest in
    if x == b'='
    then some (if w == b'=' then first u v ∷ [] else first u v ∷ second v w ∷ [])
    else elim more [ none ↦ none | some bytes ↦ some (first u v ∷ second v w ∷ third w x ∷ bytes) ]
decode _ = some []

-- A digit is a letter, other than the padding, and has its value back.
digit_table :
    all_below 64 (λ d. (value (letter d) == d) && (is_base64 (letter d) && not (letter d == b'=')))
    ≡ true
digit_table = unfold all_below in refl

and_parts : (a b : Bool) → (a && b) ≡ true → (a ≡ true) × (b ≡ true)
and_parts true b h = (refl, h)
and_parts false b h = cc

letter_lem :
    (d : ℕ) → d < 64 → (value (letter d) ≡ d) × IsBase64 (letter d) × ((letter d == b'=') ≡ false)
letter_lem d h =
    let (same, rest) = and_parts _ _ (all_below_sound 64 _ d digit_table h) in
    let (base, other) = and_parts _ _ rest in
    ((==_iff (value (letter d)) d).0 same, base, not-true other)

cons3 :
    {a b c a' b' c' : ℕ}
    → a ≡ a'
    → b ≡ b'
    → c ≡ c'
    → (s : Bytes) → ◌≡◌ {A = Bytes} (a ∷ b ∷ c ∷ s) (a' ∷ b' ∷ c' ∷ s)
cons3 p q r s = cc

pub encode-IsBase64 : (bs : Bytes) → All IsByte bs → All IsBase64 (encode bs)
unfolding encode
encode-IsBase64 [] h = tt
encode-IsBase64 (a ∷ []) h =
    let ha = h.0 in
    (
      (letter_lem (a / 4) (omega arith)).1,
      ((letter_lem (a % 4 * 16) (omega arith)).1, (refl, (refl, tt))),
    )
encode-IsBase64 (a ∷ b ∷ []) h =
    let ha = h.0 in
    let hb = h.1.0 in
    (
      (letter_lem (a / 4) (omega arith)).1,
      (
        (letter_lem (a % 4 * 16 + b / 16) (omega arith)).1,
        ((letter_lem (b % 16 * 4) (omega arith)).1, (refl, tt)),
      ),
    )
encode-IsBase64 (a ∷ b ∷ c ∷ rest) h =
    let ha = h.0 in
    let hb = h.1.0 in
    let hc = h.1.1.0 in
    (
      (letter_lem (a / 4) (omega arith)).1,
      (
        (letter_lem (a % 4 * 16 + b / 16) (omega arith)).1,
        (
          (letter_lem (b % 16 * 4 + c / 64) (omega arith)).1,
          ((letter_lem (c % 64) (omega arith)).1, encode-IsBase64 rest h.1.1.1),
        ),
      ),
    )

pub length-encode : (bs : Bytes) → length (encode bs) ≡ (length bs + 2) / 3 * 4
unfolding encode
length-encode [] = omega arith
length-encode (a ∷ []) = omega arith
length-encode (a ∷ b ∷ []) = omega arith
length-encode (a ∷ b ∷ c ∷ rest) = omega (arith, length-encode rest)

pub decode-encode : (bs : Bytes) → All IsByte bs → decode (encode bs) ≡ some bs
unfolding decode encode
decode-encode [] h = refl
decode-encode (a ∷ []) h =
    let ha = h.0 in
    let (u, _, _) = letter_lem (a / 4) (omega arith) in
    let (v, _, _) = letter_lem (a % 4 * 16) (omega arith) in
    ap (λ (x : ℕ). some (x ∷ [])) (omega (arith, u, v))
decode-encode (a ∷ b ∷ []) h =
    let ha = h.0 in
    let hb = h.1.0 in
    let (u, _, _) = letter_lem (a / 4) (omega arith) in
    let (v, _, _) = letter_lem (a % 4 * 16 + b / 16) (omega arith) in
    let (w, _, other) = letter_lem (b % 16 * 4) (omega arith) in
    rw other (ap₂ (λ (x y : ℕ). some (x ∷ y ∷ [])) (omega (arith, u, v)) (omega (arith, v, w)))
decode-encode (a ∷ b ∷ c ∷ rest) h =
    let ha = h.0 in
    let hb = h.1.0 in
    let hc = h.1.1.0 in
    let (u, _, _) = letter_lem (a / 4) (omega arith) in
    let (v, _, _) = letter_lem (a % 4 * 16 + b / 16) (omega arith) in
    let (w, _, _) = letter_lem (b % 16 * 4 + c / 64) (omega arith) in
    let (x, _, other) = letter_lem (c % 64) (omega arith) in
    rw (other, decode-encode rest h.1.1.1)
      (ap some (cons3 (omega (arith, u, v)) (omega (arith, v, w)) (omega (arith, w, x)) rest))

-- Percent-decoding.
abbrev digit_value : ℕ → ℕ
digit_value c = if leb b'0' c && leb c b'9' then c - b'0' else c - b'A' + 10

unfoldable pub percent_decode : Bytes → Bytes
percent_decode (c ∷ hi ∷ lo ∷ s) =
    let escaped = percent_decode s in
    let other = percent_decode (hi ∷ lo ∷ s) in
    if c == b'%' then (digit_value hi * 16 + digit_value lo) ∷ escaped else c ∷ other
percent_decode s = s

digit_table' : all_below 16 (λ d. digit_value (upper_digit d) == d) ≡ true
digit_table' = unfold all_below in refl

digit_lem : (d : ℕ) → d < 16 → digit_value (upper_digit d) ≡ d
digit_lem d h = (==_iff (digit_value (upper_digit d)) d).0 (all_below_sound 16 _ d digit_table' h)

pub percent_decode-Decodes : Decodes percent_decode
unfolding percent_decode
percent_decode-Decodes = record { nothing = refl; other = plain; escape = escaped }
  where
    plain :
        (c : ℕ) (s : Bytes) → (c == b'%') ≡ false → percent_decode (c ∷ s) ≡ c ∷ percent_decode s
    plain c [] h = refl
    plain c (x ∷ []) h = refl
    plain c (x ∷ y ∷ s) h = rw h refl

    escaped :
        (hi lo : ℕ) (s : Bytes)
        → hi < 16
        → lo < 16
        → percent_decode (b'%' ∷ upper_digit hi ∷ upper_digit lo ∷ s)
          ≡ (hi * 16 + lo) ∷ percent_decode s
    escaped hi lo s h l =
        ap₂ (λ (a b : ℕ). (a * 16 + b) ∷ percent_decode s) (digit_lem hi h) (digit_lem lo l)
