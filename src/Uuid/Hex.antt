-- ===== src/Uuid/Hex.antt =====
-- The hex digits: what the table holds, and how a written pair of digits is read back.
use Prim.Native.Nat.{bit_or}
use loxwebsocketclient_rs.Prelude.{
  ℕ, ◌+◌, ◌*◌, ◌/◌, ◌%◌, ◌<◌, ◌≡◌, refl, Bool, true, false, not, Option, none, some, arith, ◌==◌,
  ==_iff, ◌∷◌, length, get_or, set, get_or-set_self, set-set_self, Bytes, all_below,
  all_below_sound, not-true,
}
use loxwebsocketclient_rs.Error.{ok}
use loxwebsocketclient_rs.Uuid.{
  digits, build_hex_lut, hex_value, ParseState, store_nibble, parse_step, parse_loop,
}

-- The two digits of a byte.
abbrev pub hi_digit : ℕ → ℕ
hi_digit b = get_or digits (b / 16) 0

abbrev pub lo_digit : ℕ → ℕ
lo_digit b = get_or digits (b % 16) 0

pub lut_hi : (b : ℕ) → b < 256 → get_or build_hex_lut (b * 2) 0 ≡ hi_digit b
lut_hi b h = (==_iff _ _).0 (all_below_sound 256 _ b table h)
  where
    table : all_below 256 (λ c. get_or build_hex_lut (c * 2) 0 == hi_digit c) ≡ true
    table = unfold all_below build_hex_lut in refl

pub lut_lo : (b : ℕ) → b < 256 → get_or build_hex_lut (b * 2 + 1) 0 ≡ lo_digit b
lut_lo b h = (==_iff _ _).0 (all_below_sound 256 _ b table h)
  where
    table : all_below 256 (λ c. get_or build_hex_lut (c * 2 + 1) 0 == lo_digit c) ≡ true
    table = unfold all_below build_hex_lut in refl

reads : Option ℕ → ℕ → Bool
reads none d = false
reads (some v) d = v == d

reads_iff : (o : Option ℕ) (d : ℕ) → reads o d ≡ true → o ≡ some d
unfolding reads
reads_iff none d h = cc
reads_iff (some v) d h = ground arith

digit_value : (d : ℕ) → d < 16 → hex_value (get_or digits d 0) ≡ some d
digit_value d h = reads_iff _ _ (all_below_sound 16 _ d table h)
  where
    table : all_below 16 (λ c. reads (hex_value (get_or digits c 0)) c) ≡ true
    table = unfold all_below reads hex_value in refl

digit-ne-dash : (d : ℕ) → d < 16 → (get_or digits d 0 == b'-') ≡ false
digit-ne-dash d h = not-true (all_below_sound 16 _ d table h)
  where
    table : all_below 16 (λ c. not (get_or digits c 0 == b'-')) ≡ true
    table = unfold all_below in refl

join_nibbles : (b : ℕ) → b < 256 → bit_or (b / 16 * 16 % 256) (b % 16) ≡ b
join_nibbles b h = (==_iff _ _).0 (all_below_sound 256 _ b table h)
  where
    table : all_below 256 (λ c. bit_or (c / 16 * 16 % 256) (c % 16) == c) ≡ true
    table = unfold all_below in refl

-- A digit moves the parser on by one nibble.
parse_step_digit :
    (s : ParseState) (d : ℕ) → d < 16 → parse_step s (get_or digits d 0) ≡ store_nibble s d
unfolding parse_step
parse_step_digit s d h = rw (digit-ne-dash d h, digit_value d h)

store_nibble_hi :
    (v k : ℕ) (raw : Bytes)
    → k < 16
    → store_nibble (record { raw = raw; nibbles = k * 2 }) v
      ≡ ok (record { raw = set raw k (v * 16 % 256); nibbles = k * 2 + 1 })
unfolding store_nibble
store_nibble_hi v k raw hk = ground (arith, half)
  where
    half : k * 2 / 2 ≡ k
    half = omega arith

store_nibble_lo :
    (v k : ℕ) (raw : Bytes)
    → k < 16
    → store_nibble (record { raw = raw; nibbles = k * 2 + 1 }) v
      ≡ ok (record { raw = set raw k (bit_or (get_or raw k 0) v); nibbles = k * 2 + 2 })
unfolding store_nibble
store_nibble_lo v k raw hk = ground (arith, half)
  where
    half : (k * 2 + 1) / 2 ≡ k
    half = omega arith

pub parse_loop_pair :
    (b k : ℕ) (raw rest : Bytes)
    → b < 256
    → k < 16
    → length raw ≡ 16
    → parse_loop (record { raw = raw; nibbles = k * 2 }) (hi_digit b ∷ lo_digit b ∷ rest)
      ≡ parse_loop (record { raw = set raw k b; nibbles = k * 2 + 2 }) rest
unfolding parse_loop
parse_loop_pair b k raw rest hb hk len = rw (
  parse_step_digit _ (b / 16) (omega arith),
  store_nibble_hi (b / 16) k raw hk,
  parse_step_digit _ (b % 16) (omega arith),
  store_nibble_lo (b % 16) k (set raw k (b / 16 * 16 % 256)) hk,
  get_or-set_self raw k (b / 16 * 16 % 256) 0 (omega arith),
  join_nibbles b hb,
  set-set_self raw k (b / 16 * 16 % 256) b,
)
