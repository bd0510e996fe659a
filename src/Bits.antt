-- ===== src/Bits.antt =====
-- The operations on binary digits, a digit at a time and a byte at a time.
use Prim.Native.Nat.{
  digits, bitwise, differ, bit_and, bit_or, bit_xor, bit_and-bitwise, bit_or-bitwise,
  bit_xor-bitwise, max,
}
use loxwebsocketclient_rs.Prelude.{
  ℕ, zero, suc, ◌+◌, ◌*◌, ◌/◌, ◌%◌, ◌^◌, ◌≤◌, ◌<◌, ◌≡◌, refl, sym, ap, ◌∙◌, ap₂, arith, min,
}
use native.Mathlib.Nat.{pow-suc}

-- More rounds than the first number has digits change nothing.
module _ (z : ℕ → ℕ) (f : ℕ → ℕ → ℕ) where
  enough_rounds : (n m a b : ℕ) → a ≤ n → a ≤ m → digits z f n a b ≡ digits z f m a b
  enough_rounds zero zero a b hn hm = refl
  enough_rounds zero (suc m) zero b hn hm = refl
  enough_rounds zero (suc m) (suc a) b hn hm = absurd (omega arith)
  enough_rounds (suc n) zero zero b hn hm = refl
  enough_rounds (suc n) zero (suc a) b hn hm = absurd (omega arith)
  enough_rounds (suc n) (suc m) zero b hn hm = refl
  enough_rounds (suc n) (suc m) (suc a) b hn hm =
      ap (λ (r : ℕ). r * 2 + f (suc a % 2) (b % 2))
        (enough_rounds n m (suc a / 2) (b / 2) (omega arith) (omega arith))

  lowest_digit :
      (a b : ℕ)
      → bitwise z f (suc a) b ≡ bitwise z f (suc a / 2) (b / 2) * 2 + f (suc a % 2) (b % 2)
  lowest_digit a b =
      ap (λ (r : ℕ). r * 2 + f (suc a % 2) (b % 2))
        (enough_rounds a (suc a / 2) (suc a / 2) (b / 2) (omega arith) (omega arith))

-- An operation that takes the digits one by one.
record Digitwise (op : ℕ → ℕ → ℕ) (f : ℕ → ℕ → ℕ) : Type 0 where
  pub digit : (a b : ℕ) → op a b ≡ op (a / 2) (b / 2) * 2 + f (a % 2) (b % 2)
  pub nothing : op 0 0 ≡ 0

and-Digitwise : Digitwise bit_and min
and-Digitwise = record { digit = λ a b. by_cases a b; nothing = refl }
  where
    by_cases : (a b : ℕ) → bit_and a b ≡ bit_and (a / 2) (b / 2) * 2 + min (a % 2) (b % 2)
    by_cases zero b = simp bit_and-bitwise (omega arith)
    by_cases (suc a) b = simp bit_and-bitwise (lowest_digit (λ y. 0) min a b)

or-Digitwise : Digitwise bit_or max
or-Digitwise = record { digit = λ a b. by_cases a b; nothing = refl }
  where
    by_cases : (a b : ℕ) → bit_or a b ≡ bit_or (a / 2) (b / 2) * 2 + max (a % 2) (b % 2)
    by_cases zero b = simp bit_or-bitwise (omega arith)
    by_cases (suc a) b = simp bit_or-bitwise (lowest_digit (λ y. y) max a b)

differ_zero : (y : ℕ) → differ 0 y ≡ y
differ_zero y = refl

xor-Digitwise : Digitwise bit_xor differ
xor-Digitwise = record { digit = λ a b. by_cases a b; nothing = refl }
  where
    by_cases : (a b : ℕ) → bit_xor a b ≡ bit_xor (a / 2) (b / 2) * 2 + differ (a % 2) (b % 2)
    by_cases zero b = simp bit_xor-bitwise (omega arith)
    by_cases (suc a) b = simp bit_xor-bitwise (lowest_digit (λ y. y) differ a b)

module _ (op f : ℕ → ℕ → ℕ) (d : Digitwise op f) where
  -- A low field of `k` digits stands for itself.
  fields :
      (k a b a' b' : ℕ)
      → a < 2 ^ k
      → b < 2 ^ k
      → op (a + 2 ^ k * a') (b + 2 ^ k * b') ≡ op a b + 2 ^ k * op a' b'
  fields zero a b a' b' ha hb =
      let no_a : a ≡ 0 = omega arith in
      let no_b : b ≡ 0 = omega arith in
      let both : op a b ≡ 0 = ap₂ op no_a no_b ∙ d.nothing in
      let all_a : a + 2 ^ 0 * a' ≡ a' = omega arith in
      let all_b : b + 2 ^ 0 * b' ≡ b' = omega arith in ap₂ op all_a all_b ∙ omega (arith, both)
  fields (suc k) a b a' b' ha hb =
      let two_a : 2 ^ suc k * a' ≡ 2 * (2 ^ k * a') =
        omega (arith, ap (λ (t : ℕ). t * a') (pow-suc 2 k)) in
      let two_b : 2 ^ suc k * b' ≡ 2 * (2 ^ k * b') =
        omega (arith, ap (λ (t : ℕ). t * b') (pow-suc 2 k)) in
      let two_op : 2 ^ suc k * op a' b' ≡ 2 * (2 ^ k * op a' b') =
        omega (arith, ap (λ (t : ℕ). t * op a' b') (pow-suc 2 k)) in
      let half_a : (a + 2 ^ suc k * a') / 2 ≡ a / 2 + 2 ^ k * a' = omega arith in
      let half_b : (b + 2 ^ suc k * b') / 2 ≡ b / 2 + 2 ^ k * b' = omega arith in
      let low_a : (a + 2 ^ suc k * a') % 2 ≡ a % 2 = omega arith in
      let low_b : (b + 2 ^ suc k * b') % 2 ≡ b % 2 = omega arith in
      let rest =
        ap₂ op half_a half_b
        ∙ fields k (a / 2) (b / 2) a' b' (omega (arith, pow-suc 2 k))
            (omega (arith, pow-suc 2 k)) in
      d.digit (a + 2 ^ suc k * a') (b + 2 ^ suc k * b')
      ∙ ap₂ (λ (x y : ℕ). x * 2 + y) rest (ap₂ f low_a low_b)
      ∙ omega (arith, d.digit a b, two_op)

-- A byte and what stands above it.
pub and-byte :
    (a b a' b' : ℕ)
    → a < 256
    → b < 256
    → bit_and (a + 256 * a') (b + 256 * b') ≡ bit_and a b + 256 * bit_and a' b'
and-byte = fields bit_and min and-Digitwise 8

pub or-byte :
    (a b a' b' : ℕ)
    → a < 256
    → b < 256
    → bit_or (a + 256 * a') (b + 256 * b') ≡ bit_or a b + 256 * bit_or a' b'
or-byte = fields bit_or max or-Digitwise 8

pub xor-byte :
    (a b a' b' : ℕ)
    → a < 256
    → b < 256
    → bit_xor (a + 256 * a') (b + 256 * b') ≡ bit_xor a b + 256 * bit_xor a' b'
xor-byte = fields bit_xor differ xor-Digitwise 8

-- Of numbers below `2 ^ k`, which differ in no digit only if they are the same.
pub xor-below :
    (k a b : ℕ)
    → a < 2 ^ k
    → b < 2 ^ k
    → (bit_xor a b < 2 ^ k) × ((bit_xor a b ≡ 0 → a ≡ b) × (a ≡ b → bit_xor a b ≡ 0))
xor-below zero a b ha hb =
    let no_a : a ≡ 0 = omega arith in
    let no_b : b ≡ 0 = omega arith in
    let none_left : bit_xor a b ≡ 0 = ap₂ bit_xor no_a no_b in
    (omega arith, ((λ e. omega arith), (λ e. none_left)))
xor-below (suc k) a b ha hb =
    let (small, (same, none_left)) =
      xor-below k (a / 2) (b / 2) (omega (arith, pow-suc 2 k)) (omega (arith, pow-suc 2 k)) in
    let (bit, (bit_same, bit_none)) = differ_bit (a % 2) (b % 2) (omega arith) (omega arith) in
    let step = xor-Digitwise.digit a b in
    (
      omega (arith, step, pow-suc 2 k, bit, small),
      (
        (λ e.
            let high : a / 2 ≡ b / 2 = same (omega (arith, step, e)) in
            let low : a % 2 ≡ b % 2 = bit_same (omega (arith, step, e)) in
            omega (arith, high, low)),
        (λ e.
            omega (
              arith,
              step,
              none_left (ap (λ (t : ℕ). t / 2) e),
              bit_none (ap (λ (t : ℕ). t % 2) e),
            )),
      ),
    )
  where
    differ_bit :
        (x y : ℕ)
        → x < 2
        → y < 2
        → (differ x y < 2) × ((differ x y ≡ 0 → x ≡ y) × (x ≡ y → differ x y ≡ 0))
    differ_bit zero y hx hy = (hy, ((λ e. sym e), (λ e. sym e)))
    differ_bit (suc zero) zero hx hy = (omega arith, ((λ e. e), (λ e. e)))
    differ_bit (suc zero) (suc zero) hx hy = (omega arith, ((λ e. refl), (λ e. refl)))
    differ_bit (suc zero) (suc (suc y)) hx hy = absurd (omega arith)
    differ_bit (suc (suc x)) y hx hy = absurd (omega arith)

pub xor-IsByte :
    (a b : ℕ)
    → a < 256
    → b < 256
    → (bit_xor a b < 256) × ((bit_xor a b ≡ 0 → a ≡ b) × (a ≡ b → bit_xor a b ≡ 0))
xor-IsByte = xor-below 8

differ_lem : (x y : ℕ) → x < 2 → y < 2 → differ x y ≡ (x + y) % 2
differ_lem zero y hx hy = omega arith
differ_lem (suc x) zero hx hy = omega arith
differ_lem (suc zero) (suc zero) hx hy = refl
differ_lem (suc zero) (suc (suc y)) hx hy = absurd (omega arith)
differ_lem (suc (suc x)) (suc y) hx hy = absurd (omega arith)

xor_step : (a b : ℕ) → bit_xor a b ≡ bit_xor (a / 2) (b / 2) * 2 + (a % 2 + b % 2) % 2
xor_step a b =
    xor-Digitwise.digit a b
    ∙ ap (λ (d : ℕ). bit_xor (a / 2) (b / 2) * 2 + d)
        (differ_lem (a % 2) (b % 2) (omega arith) (omega arith))

-- A second exclusive or undoes the first.
pub xor_twice : (k c a : ℕ) → c < 2 ^ k → a < 2 ^ k → bit_xor c (bit_xor c a) ≡ a
xor_twice zero c a hc ha =
    let no_c : c ≡ 0 = omega arith in
    let no_a : a ≡ 0 = omega arith in
    ap₂ (λ (x y : ℕ). bit_xor x (bit_xor x y)) no_c no_a ∙ sym no_a
xor_twice (suc k) c a hc ha =
    let inner : bit_xor c a / 2 ≡ bit_xor (c / 2) (a / 2) = omega (arith, xor_step c a) in
    let ih =
      xor_twice k (c / 2) (a / 2) (omega (arith, pow-suc 2 k)) (omega (arith, pow-suc 2 k)) in
    let half : bit_xor (c / 2) (bit_xor c a / 2) ≡ a / 2 = ap (bit_xor (c / 2)) inner ∙ ih in
    omega (arith, xor_step c a, xor_step c (bit_xor c a), half)

pub xor_comm : (k a b : ℕ) → a < 2 ^ k → b < 2 ^ k → bit_xor a b ≡ bit_xor b a
xor_comm zero a b ha hb =
    let no_a : a ≡ 0 = omega arith in
    let no_b : b ≡ 0 = omega arith in ap₂ bit_xor no_a no_b ∙ sym (ap₂ bit_xor no_b no_a)
xor_comm (suc k) a b ha hb =
    let ih = xor_comm k (a / 2) (b / 2) (omega (arith, pow-suc 2 k)) (omega (arith, pow-suc 2 k)) in
    omega (arith, xor_step a b, xor_step b a, ih)
