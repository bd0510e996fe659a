-- ===== src/Pending/Scan/Mask.antt =====
-- The mask of the zero bytes, at every number of bytes: its lowest mark is exact.
use Prim.Native.Nat.{bit_and}
use loxwebsocketclient_rs.Prelude.{
  ℕ, zero, suc, ◌+◌, ◌-◌, ◌*◌, ◌^◌, ◌<◌, ◌≡◌, refl, ap, ◌∙◌, ap₂, inl, inr, arith, Bool, true,
  false, ◌&&◌, ◌||◌, if◌then◌else◌, ltb, ◌==◌, Bool-cases, all_below, all_below_sound,
}
use loxwebsocketclient_rs.Bits.{and-byte}
use native.Mathlib.Nat.{pow-suc}

-- A byte repeated.
abbrev pub repeated : ℕ → ℕ → ℕ
repeated zero byte = 0
repeated (suc n) byte = byte + 256 * repeated n byte

-- `wrapping_sub` of the ones, in so many bytes.
abbrev pub less_ones : ℕ → ℕ → ℕ
less_ones n w = if ltb w (repeated n 1) then w + 256 ^ n - repeated n 1 else w - repeated n 1

abbrev pub mask : ℕ → ℕ → ℕ
mask n w = bit_and (bit_and (less_ones n w) (256 ^ n - 1 - w)) (repeated n 128)

repeated-below : (n byte : ℕ) → byte < 256 → repeated n byte < 256 ^ n
repeated-below zero byte h = omega arith
repeated-below (suc n) byte h = omega (arith, pow-suc 256 n, repeated-below n byte h)

-- What the two operations make of one byte.
abbrev marks_none : ℕ → Bool
marks_none x =
    ltb (bit_and (x - 1) (255 - x)) 256 && (x == 0 || bit_and (bit_and (x - 1) (255 - x)) 128 == 0)

byte_marks : (x : ℕ) → x < 256 → marks_none x ≡ true
byte_marks x h = all_below_sound 256 marks_none x (unfold all_below in refl) h

less_ones-zero :
    (n w : ℕ) → w < 256 ^ n → (s : ℕ) × (less_ones (suc n) (0 + 256 * w) ≡ 255 + 256 * s)
less_ones-zero n w h = elim (Bool-cases (ltb (0 + 256 * w) (repeated (suc n) 1))) [
  | inl e ↦ (
    w + 256 ^ n - repeated n 1 - 1,
    rw e (omega (arith, pow-suc 256 n, repeated-below n 1 (omega arith))),
  )
  | inr e ↦ (w - repeated n 1 - 1, rw e (ground arith))
]

less_ones-byte :
    (n x w : ℕ)
    → 0 < x
    → x < 256
    → w < 256 ^ n
    → less_ones (suc n) (x + 256 * w) ≡ x - 1 + 256 * less_ones n w
less_ones-byte n x w p h hw = elim (Bool-cases (ltb w (repeated n 1))) [
  | inl e ↦
      let carried : ltb (x + 256 * w) (repeated (suc n) 1) ≡ true = ground arith in
      rw (e, carried) (omega (arith, pow-suc 256 n, repeated-below n 1 (omega arith)))
  | inr e ↦
      let kept : ltb (x + 256 * w) (repeated (suc n) 1) ≡ false = ground arith in
      rw (e, kept) (ground arith)
]

complement-byte :
    (n x w : ℕ)
    → x < 256
    → w < 256 ^ n
    → 256 ^ suc n - 1 - (x + 256 * w) ≡ 255 - x + 256 * (256 ^ n - 1 - w)
complement-byte n x w h hw = omega (arith, pow-suc 256 n)

and_and-byte :
    (a b c a' b' c' : ℕ)
    → a < 256
    → b < 256
    → c < 256
    → bit_and a b < 256
    → bit_and (bit_and (a + 256 * a') (b + 256 * b')) (c + 256 * c')
      ≡ bit_and (bit_and a b) c + 256 * bit_and (bit_and a' b') c'
and_and-byte a b c a' b' c' ha hb hc hab =
    ap (λ (t : ℕ). bit_and t (c + 256 * c')) (and-byte a b a' b' ha hb)
    ∙ and-byte (bit_and a b) c (bit_and a' b') c' hab hc

-- A zero byte is marked, whatever stands above it, and another byte leaves no mark and borrows nothing.
pub mask-zero : (n w : ℕ) → w < 256 ^ n → (u : ℕ) × (mask (suc n) (0 + 256 * w) ≡ 128 + 256 * u)
mask-zero n w h =
    let (s, e) = less_ones-zero n w h in
    (
      bit_and (bit_and s (256 ^ n - 1 - w)) (repeated n 128),
      ap₂ (λ (x y : ℕ). bit_and (bit_and x y) (repeated (suc n) 128)) e
            (complement-byte n 0 w (omega arith) h)
          ∙ and_and-byte 255 255 128 s (256 ^ n - 1 - w) (repeated n 128) (omega arith)
              (omega arith) (omega arith) (omega arith),
    )

pub mask-byte :
    (n x w : ℕ) → 0 < x → x < 256 → w < 256 ^ n → mask (suc n) (x + 256 * w) ≡ 256 * mask n w
mask-byte n x w p h hw =
    let marks = byte_marks x h in
    let small : bit_and (x - 1) (255 - x) < 256 = ground arith in
    let unmarked : bit_and (bit_and (x - 1) (255 - x)) 128 ≡ 0 = ground arith in
    ap₂ (λ (s c : ℕ). bit_and (bit_and s c) (repeated (suc n) 128)) (less_ones-byte n x w p h hw)
      (complement-byte n x w h hw)
    ∙ and_and-byte (x - 1) (255 - x) 128 (less_ones n w) (256 ^ n - 1 - w) (repeated n 128)
        (omega arith) (omega arith) (omega arith) small
    ∙ omega (arith, unmarked)
