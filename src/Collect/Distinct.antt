-- ===== src/Collect/Distinct.antt =====
-- Which UUIDs the hasher cannot confuse.
use Prim.Native.Nat.{bit_xor}
use loxwebsocketclient_rs.Prelude.{
  ℕ, zero, suc, ◌*◌, ◌%◌, ◌^◌, ◌<◌, ◌≤◌, ◌≡◌, ◌≢◌, refl, sym, ap, ◌∙◌, arith, [], ◌∷◌, ◌++◌, take,
  drop, length, ◌⊎◌, inl, inr, All, Bytes, from_le_bytes, IsByte, All-take, All-drop,
  take-append-drop, take_prefix, append-nil, length-take, length-drop, ap₂,
}
use loxwebsocketclient_rs.Bits.{xor_twice, xor-below, xor_comm}
use native.Mathlib.Nat.{pow-suc}
use loxwebsocketclient_rs.Uuid.{LoxoneUuid, IsUuid}
use loxwebsocketclient_rs.Collect.Hasher.{
  seed, rotate_left_5, add, write_u64, as_u64_pair, hash_uuid,
}

-- The seed is odd, so a multiplication by it can be undone.
times_seed-inj : (x y : ℕ) → x < 2 ^ 64 → y < 2 ^ 64 → x * seed % 2 ^ 64 ≡ y * seed % 2 ^ 64 → x ≡ y
times_seed-inj x y hx hy e =
    undo x hx ∙ (ap (λ (r : ℕ). r * 0x2040003d780970bd % 2 ^ 64) e ∙ sym (undo y hy))
  where
    undo : (x : ℕ) → x < 2 ^ 64 → x ≡ (x * seed % 2 ^ 64) * 0x2040003d780970bd % 2 ^ 64
    undo x h = omega arith

rotate_left_5-inj : (x y : ℕ) → x < 2 ^ 64 → y < 2 ^ 64 → rotate_left_5 x ≡ rotate_left_5 y → x ≡ y
unfolding rotate_left_5
rotate_left_5-inj x y hx hy e = omega arith

rotate_left_5-lt : (x : ℕ) → x < 2 ^ 64 → rotate_left_5 x < 2 ^ 64
unfolding rotate_left_5
rotate_left_5-lt x h = omega arith

xor-inj : (c a b : ℕ) → c < 2 ^ 64 → a < 2 ^ 64 → b < 2 ^ 64 → bit_xor c a ≡ bit_xor c b → a ≡ b
xor-inj c a b hc ha hb e =
    sym (xor_twice 64 c a hc ha) ∙ (ap (bit_xor c) e ∙ xor_twice 64 c b hc hb)

add-inj_word : (h v w : ℕ) → h < 2 ^ 64 → v < 2 ^ 64 → w < 2 ^ 64 → add h v ≡ add h w → v ≡ w
unfolding add
add-inj_word h v w hh hv hw e =
    let r = rotate_left_5-lt h hh in
    xor-inj (rotate_left_5 h) v w r hv hw (
      times_seed-inj (bit_xor (rotate_left_5 h) v) (bit_xor (rotate_left_5 h) w)
        (xor-below 64 (rotate_left_5 h) v r hv).0 (xor-below 64 (rotate_left_5 h) w r hw).0 e)

add-inj_state : (h g w : ℕ) → h < 2 ^ 64 → g < 2 ^ 64 → w < 2 ^ 64 → add h w ≡ add g w → h ≡ g
unfolding add
add-inj_state h g w hh hg hw e =
    let rh = rotate_left_5-lt h hh in
    let rg = rotate_left_5-lt g hg in
    rotate_left_5-inj h g hh hg (
      xor-inj w (rotate_left_5 h) (rotate_left_5 g) hw rh rg (
        xor_comm 64 w (rotate_left_5 h) hw rh
        ∙ (times_seed-inj (bit_xor (rotate_left_5 h) w) (bit_xor (rotate_left_5 g) w)
              (xor-below 64 (rotate_left_5 h) w rh hw).0 (xor-below 64 (rotate_left_5 g) w rg hw).0
              e
            ∙ xor_comm 64 (rotate_left_5 g) w rg hw)))

add-lt : (h w : ℕ) → add h w < 2 ^ 64
unfolding add
add-lt h w = omega arith

from_le_bytes-inj :
    (a b : Bytes)
    → All IsByte a
    → All IsByte b
    → length a ≡ length b
    → from_le_bytes a ≡ from_le_bytes b
    → a ≡ b
from_le_bytes-inj [] [] ra rb l e = refl
from_le_bytes-inj [] (y ∷ b) ra rb l e = absurd (omega arith)
from_le_bytes-inj (x ∷ a) [] ra rb l e = absurd (omega arith)
from_le_bytes-inj (x ∷ a) (y ∷ b) (hx, ra) (hy, rb) l e =
    ap₂ (λ (h : ℕ) (t : Bytes). h ∷ t) (omega arith)
      (from_le_bytes-inj a b ra rb (omega arith) (omega arith))

from_le_bytes-lt : (n : ℕ) (a : Bytes) → All IsByte a → length a ≡ n → from_le_bytes a < 256 ^ n
from_le_bytes-lt zero [] ra l = omega arith
from_le_bytes-lt zero (x ∷ a) ra l = absurd (omega arith)
from_le_bytes-lt (suc n) [] ra l = absurd (omega arith)
from_le_bytes-lt (suc n) (x ∷ a) (hx, ra) l =
    omega (arith, from_le_bytes-lt n a ra (omega arith), pow-suc 256 n)

take_whole : (n : ℕ) (bs : Bytes) → length bs ≡ n → take n bs ≡ bs
take_whole n bs l = ap (take n) (sym (append-nil bs)) ∙ take_prefix n bs [] l

-- Eight bytes are told apart by their word.
word-inj :
    (a b : Bytes)
    → All IsByte a
    → All IsByte b
    → length a ≡ 8
    → length b ≡ 8
    → from_le_bytes (take 8 a) ≡ from_le_bytes (take 8 b)
    → a ≡ b
word-inj a b ra rb la lb e =
    sym (take_whole 8 a la)
    ∙ (from_le_bytes-inj (take 8 a) (take 8 b) (All-take 8 a ra) (All-take 8 b rb)
          (omega (arith, length-take 8 a, length-take 8 b)) e
        ∙ take_whole 8 b lb)

word-lt : (a : Bytes) → All IsByte a → 8 ≤ length a → from_le_bytes (take 8 a) < 2 ^ 64
word-lt a ra l = from_le_bytes-lt 8 (take 8 a) (All-take 8 a ra) (omega (arith, length-take 8 a))

abbrev low : LoxoneUuid → ℕ
low u = from_le_bytes (take 8 u.bytes)

abbrev high : LoxoneUuid → ℕ
high u = from_le_bytes (take 8 (drop 8 u.bytes))

low-lt : (u : LoxoneUuid) → IsUuid u → low u < 2 ^ 64
low-lt u h = word-lt u.bytes h.range (omega (arith, h.len))

high-lt : (u : LoxoneUuid) → IsUuid u → high u < 2 ^ 64
high-lt u h =
    word-lt (drop 8 u.bytes) (All-drop 8 u.bytes h.range)
      (omega (arith, length-drop 8 u.bytes, h.len))

halves-inj :
    (u v : LoxoneUuid)
    → take 8 u.bytes ≡ take 8 v.bytes
    → drop 8 u.bytes ≡ drop 8 v.bytes
    → u.bytes ≡ v.bytes
halves-inj u v front back =
    sym (take-append-drop 8 u.bytes)
    ∙ (ap₂ (λ (a b : Bytes). a ++ b) front back ∙ take-append-drop 8 v.bytes)

hash_uuid-inj :
    (u v : LoxoneUuid)
    → IsUuid u
    → IsUuid v
    → (take 8 u.bytes ≡ take 8 v.bytes) ⊎ (drop 8 u.bytes ≡ drop 8 v.bytes)
    → hash_uuid u ≡ hash_uuid v
    → u.bytes ≡ v.bytes
unfolding hash_uuid as_u64_pair write_u64
hash_uuid-inj u v hu hv (inl same) e =
    let lo = ap from_le_bytes same in
    let hi =
      add-inj_word (add 0 (low u)) (high u) (high v) (add-lt 0 (low u)) (high-lt u hu)
        (high-lt v hv) (e ∙ ap (λ (l : ℕ). add (add 0 l) (high v)) (sym lo)) in
    halves-inj u v same (
      word-inj (drop 8 u.bytes) (drop 8 v.bytes) (All-drop 8 u.bytes hu.range)
        (All-drop 8 v.bytes hv.range) (omega (arith, length-drop 8 u.bytes, hu.len))
        (omega (arith, length-drop 8 v.bytes, hv.len)) hi)
hash_uuid-inj u v hu hv (inr same) e =
    let hi = ap (λ (d : Bytes). from_le_bytes (take 8 d)) same in
    let lo = add-inj_word 0 (low u) (low v) (omega arith) (low-lt u hu) (low-lt v hv) (
      add-inj_state (add 0 (low u)) (add 0 (low v)) (high u) (add-lt 0 (low u)) (add-lt 0 (low v))
        (high-lt u hu) (e ∙ ap (λ (h : ℕ). add (add 0 (low v)) h) (sym hi))) in
    halves-inj u v
      (from_le_bytes-inj (take 8 u.bytes) (take 8 v.bytes) (All-take 8 u.bytes hu.range)
        (All-take 8 v.bytes hv.range)
        (omega (arith, length-take 8 u.bytes, length-take 8 v.bytes, hu.len, hv.len)) lo)
      same

-- Two different UUIDs that agree in their first eight bytes or in their last eight have different
-- hashes.
pub hash_uuid-differs :
    (u v : LoxoneUuid)
    → IsUuid u
    → IsUuid v
    → (take 8 u.bytes ≡ take 8 v.bytes) ⊎ (drop 8 u.bytes ≡ drop 8 v.bytes)
    → u.bytes ≢ v.bytes
    → hash_uuid u ≢ hash_uuid v
hash_uuid-differs u v hu hv half differ e = differ (hash_uuid-inj u v hu hv half e)
