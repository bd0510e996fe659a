-- ===== src/Pending/Scan/Word.antt =====
-- A word searched for one of two bytes.
use Prim.Native.Nat.{bit_or, bit_xor}
use loxwebsocketclient_rs.Prelude.{
  ℕ, zero, suc, ◌+◌, ◌*◌, ◌/◌, ◌%◌, ◌^◌, ◌<◌, ◌≡◌, refl, sym, ap, ◌∙◌, ap₂, inl, inr, ◌⊎◌, arith,
  true, false, Option, none, some, [], ◌∷◌, ◌==◌, ==_iff, if◌then◌else◌, Bool-cases, subst, length,
  All, Bytes, IsByte, from_le_bytes,
}
use loxwebsocketclient_rs.Pending.Scan.{trailing_zeros, position, is_either}
use loxwebsocketclient_rs.Bits.{or-byte, xor-byte, xor-IsByte}
use loxwebsocketclient_rs.Pending.Scan.Mask.{repeated, mask, mask-zero, mask-byte}
use native.Mathlib.Nat.{pow-suc}

trailing_zeros-even : (bits m : ℕ) → trailing_zeros (suc bits) (2 * m) ≡ suc (trailing_zeros bits m)
unfolding trailing_zeros
trailing_zeros-even bits m =
    let even : (2 * m % 2 == 0) ≡ true = ground arith in
    let half : 2 * m / 2 ≡ m = omega arith in rw (even, half) refl

trailing_zeros-odd : (bits m : ℕ) → trailing_zeros (suc bits) (1 + 2 * m) ≡ 0
unfolding trailing_zeros
trailing_zeros-odd bits m = let odd : ((1 + 2 * m) % 2 == 0) ≡ false = ground arith in rw odd refl

trailing_zeros-shifted :
    (k bits m : ℕ) → trailing_zeros (k + bits) (2 ^ k * m) ≡ k + trailing_zeros bits m
trailing_zeros-shifted zero bits m =
    let all_bits : 0 + bits ≡ bits = omega arith in
    let all_of : 2 ^ 0 * m ≡ m = omega arith in ap₂ trailing_zeros all_bits all_of ∙ omega arith
trailing_zeros-shifted (suc k) bits m =
    let more : suc k + bits ≡ suc (k + bits) = omega arith in
    let twice : 2 ^ suc k * m ≡ 2 * (2 ^ k * m) =
      omega (arith, ap (λ (t : ℕ). t * m) (pow-suc 2 k)) in
    ap₂ trailing_zeros more twice
    ∙ trailing_zeros-even (k + bits) (2 ^ k * m)
    ∙ omega (arith, trailing_zeros-shifted k bits m)

trailing_zeros-mark : (bits v : ℕ) → trailing_zeros (8 + bits) (128 + 256 * v) ≡ 7
trailing_zeros-mark bits v =
    let more : 8 + bits ≡ 7 + suc bits = omega arith in
    let shifted : 128 + 256 * v ≡ 2 ^ 7 * (1 + 2 * v) = omega arith in
    ap₂ trailing_zeros more shifted
    ∙ trailing_zeros-shifted 7 (suc bits) (1 + 2 * v)
    ∙ omega (arith, trailing_zeros-odd bits v)

trailing_zeros-byte : (bits m : ℕ) → trailing_zeros (8 + bits) (256 * m) ≡ 8 + trailing_zeros bits m
trailing_zeros-byte bits m = trailing_zeros-shifted 8 bits m

module _ (c : ℕ) (hc : c < 256) where
  -- The word of the bytes against a repeated byte.
  abbrev pub against : Bytes → ℕ
  against bs = bit_xor (from_le_bytes bs) (repeated (length bs) c)

  against-cons : (x : ℕ) (xs : Bytes) → x < 256 → against (x ∷ xs) ≡ bit_xor x c + 256 * against xs
  against-cons x xs h = xor-byte x c (from_le_bytes xs) (repeated (length xs) c) h hc

  pub against-below : (bs : Bytes) → All IsByte bs → against bs < 256 ^ length bs
  against-below [] h = omega arith
  against-below (x ∷ xs) h = omega (
    arith,
    against-cons x xs h.0,
    (xor-IsByte x c h.0 hc).0,
    against-below xs h.1,
    pow-suc 256 (length xs),
  )

  abbrev pub marks : Bytes → ℕ
  marks bs = mask (length bs) (against bs)

  -- The marks of a word, by its first byte.
  marks-cons :
      (x : ℕ) (xs : Bytes)
      → x < 256
      → All IsByte xs
      → (((x == c) ≡ true) × ((u : ℕ) × (marks (x ∷ xs) ≡ 128 + 256 * u)))
        ⊎ (((x == c) ≡ false) × (marks (x ∷ xs) ≡ 256 * marks xs))
  marks-cons x xs h hs =
      let (small, (same, none_left)) = xor-IsByte x c h hc in
      let split = against-cons x xs h in
      elim (Bool-cases (x == c)) [
        | inl e ↦
            let zero_byte : bit_xor x c ≡ 0 = none_left ((==_iff x c).0 e) in
            let (u, q) = mask-zero (length xs) (against xs) (against-below xs hs) in
            inl (
              e,
              (
                u,
                ap (mask (suc (length xs))) (split ∙ ap (λ (t : ℕ). t + 256 * against xs) zero_byte)
                    ∙ q,
              ),
            )
        | inr e ↦
            let other : 0 < bit_xor x c = nonzero (bit_xor x c) same e in
            inr (
              e,
              ap (mask (suc (length xs))) split
                  ∙ mask-byte (length xs) (bit_xor x c) (against xs) other small
                      (against-below xs hs),
            )
      ]
    where
      nonzero : (m : ℕ) → (m ≡ 0 → x ≡ c) → (x == c) ≡ false → 0 < m
      nonzero zero same e = let equal : (x == c) ≡ true = (==_iff x c).1 (same refl) in absurd (cc)
      nonzero (suc m) same e = omega arith

-- What a mask says of a search through so many bytes.
abbrev pub Finds : ℕ → ℕ → Option ℕ → Type 0
Finds n m found =
    (((m == 0) ≡ true) × (found ≡ none))
    ⊎ (((m == 0) ≡ false) × (found ≡ some (trailing_zeros (8 * n) m / 8)))

abbrev pub next_place : Option ℕ → Option ℕ
next_place none = none
next_place (some i) = some (suc i)

Finds-here : (n v : ℕ) (m : ℕ) → m ≡ 128 + 256 * v → Finds (suc n) m (some 0)
Finds-here n v m e =
    let marked : (m == 0) ≡ false = ground arith in
    let bits : 8 * suc n ≡ 8 + 8 * n = omega arith in
    let zeros : trailing_zeros (8 * suc n) m ≡ 7 =
      ap₂ trailing_zeros bits e ∙ trailing_zeros-mark (8 * n) v in
    inr (marked, ap some (omega (arith, zeros)))

Finds-next :
    (n m m' : ℕ) (found : Option ℕ)
    → m' ≡ 256 * m
    → Finds n m found
    → Finds (suc n) m' (next_place found)
Finds-next n m m' found e (inl (z, f)) =
    let still : (m' == 0) ≡ true = ground arith in inl (still, ap next_place f)
Finds-next n m m' found e (inr (z, f)) =
    let marked : (m' == 0) ≡ false = ground arith in
    let bits : 8 * suc n ≡ 8 + 8 * n = omega arith in
    let zeros : trailing_zeros (8 * suc n) m' ≡ 8 + trailing_zeros (8 * n) m =
      ap₂ trailing_zeros bits e ∙ trailing_zeros-byte (8 * n) m in
    inr (marked, ap next_place f ∙ ap some (omega (arith, zeros)))

module _ (a b : ℕ) (ha : a < 256) (hb : b < 256) where
  abbrev pub either_marks : Bytes → ℕ
  either_marks bs = bit_or (marks a ha bs) (marks b hb bs)

  position-cons :
      (x : ℕ) (xs : Bytes)
      → position (is_either a b) (x ∷ xs)
        ≡ (if is_either a b x then some 0 else next_place (position (is_either a b) xs))
  unfolding position
  position-cons x xs = refl

  joined :
      (x y u v : ℕ) (m m' : ℕ)
      → x < 256
      → y < 256
      → m ≡ x + 256 * u
      → m' ≡ y + 256 * v
      → bit_or m m' ≡ bit_or x y + 256 * bit_or u v
  joined x y u v m m' hx hy e e' = ap₂ bit_or e e' ∙ or-byte x y u v hx hy

  pub either_marks-Finds :
      (bs : Bytes)
      → All IsByte bs
      → Finds (length bs) (either_marks bs) (position (is_either a b) bs)
  either_marks-Finds [] h = unfold position in inl (refl, refl)
  either_marks-Finds (x ∷ xs) h =
      subst (λ found. Finds (suc (length xs)) (either_marks (x ∷ xs)) found)
        (sym (position-cons x xs))
        (by_marks (marks-cons a ha x xs h.0 h.1) (marks-cons b hb x xs h.0 h.1)
          (either_marks-Finds xs h.1))
    where
      here :
          (v : ℕ)
          → is_either a b x ≡ true
          → either_marks (x ∷ xs) ≡ 128 + 256 * v
          → Finds
              (suc (length xs))
              (either_marks (x ∷ xs))
              (if is_either a b x then some 0 else next_place (position (is_either a b) xs))
      here v t e = rw t (Finds-here (length xs) v (either_marks (x ∷ xs)) e)

      by_marks :
          (((x == a) ≡ true) × ((u : ℕ) × (marks a ha (x ∷ xs) ≡ 128 + 256 * u)))
            ⊎ (((x == a) ≡ false) × (marks a ha (x ∷ xs) ≡ 256 * marks a ha xs))
          → (((x == b) ≡ true) × ((u : ℕ) × (marks b hb (x ∷ xs) ≡ 128 + 256 * u)))
            ⊎ (((x == b) ≡ false) × (marks b hb (x ∷ xs) ≡ 256 * marks b hb xs))
          → Finds (length xs) (either_marks xs) (position (is_either a b) xs)
          → Finds
              (suc (length xs))
              (either_marks (x ∷ xs))
              (if is_either a b x then some 0 else next_place (position (is_either a b) xs))
      by_marks (inl (ea, (u, qa))) (inl (eb, (v, qb))) rest = here (bit_or u v) (rw ea refl) (
          joined 128 128 u v (marks a ha (x ∷ xs)) (marks b hb (x ∷ xs)) (omega arith) (omega arith)
            qa qb)
      by_marks (inl (ea, (u, qa))) (inr (eb, qb)) rest =
          here (bit_or u (marks b hb xs)) (rw ea refl) (
            joined 128 0 u (marks b hb xs) (marks a ha (x ∷ xs)) (marks b hb (x ∷ xs)) (omega arith)
              (omega arith) qa (omega (arith, qb)))
      by_marks (inr (ea, qa)) (inl (eb, (v, qb))) rest =
          here (bit_or (marks a ha xs) v) (rw (ea, eb) refl) (
            joined 0 128 (marks a ha xs) v (marks a ha (x ∷ xs)) (marks b hb (x ∷ xs)) (omega arith)
              (omega arith) (omega (arith, qa)) qb)
      by_marks (inr (ea, qa)) (inr (eb, qb)) rest =
          rw (ea, eb)
            (Finds-next (length xs) (either_marks xs) (either_marks (x ∷ xs))
              (position (is_either a b) xs)
              (omega (
                arith,
                joined 0 0 (marks a ha xs) (marks b hb xs) (marks a ha (x ∷ xs))
                    (marks b hb (x ∷ xs)) (omega arith) (omega arith) (omega (arith, qa))
                    (omega (arith, qb)),
              ))
              rest)
