-- ===== src/Pending/Scan/Find.antt =====
-- The search by words against the search by bytes.
use Prim.Native.Nat.{bit_and, bit_or, bit_xor}
use loxwebsocketclient_rs.Prelude.{
  All-take, All-drop, ℕ, zero, suc, ◌+◌, ◌-◌, ◌*◌, ◌/◌, ◌%◌, ◌^◌, ◌≤◌, ◌<◌, ◌≡◌, refl, sym, ap, ◌∙◌,
  ap₂, inl, inr, arith, Bool, true, false, Option, none, some, [], ◌∷◌, ◌++◌, ltb, ◌==◌, Bool-cases,
  subst, length, take, drop, take-append-drop, length-take, length-drop, All, Bytes, IsByte,
  from_le_bytes,
}
use loxwebsocketclient_rs.Flow.{or_else}
use loxwebsocketclient_rs.Pending.Scan.{
  ones, repeat_byte, word_at, zero_byte_mask, trailing_zeros, position, is_either, shift,
  chunk_loop, find_either,
}
use loxwebsocketclient_rs.Pending.Scan.Mask.{repeated, less_ones, mask}
use loxwebsocketclient_rs.Pending.Scan.Word.{
  against-below, either_marks, either_marks-Finds, Finds, next_place,
}

zero_byte_mask-mask : (w : ℕ) → w < 2 ^ 64 → zero_byte_mask w ≡ mask 8 w
unfolding zero_byte_mask
zero_byte_mask-mask w h =
    ap (λ (t : ℕ). bit_and (bit_and t (2 ^ 64 - 1 - w)) (repeated 8 128))
      (borrowed (ltb w ones) refl)
  where
    borrowed : (b : Bool) → ltb w ones ≡ b → (w + 2 ^ 64 - ones) % 2 ^ 64 ≡ less_ones 8 w
    borrowed true e = rw e (ground arith)
    borrowed false e = rw e (ground arith)

repeat_byte-repeated : (c : ℕ) → repeat_byte c ≡ repeated 8 c
unfolding repeat_byte
repeat_byte-repeated c = omega arith

-- The mask of a chunk, as the loop computes it.
abbrev chunk_mask : ℕ → ℕ → Bytes → ℕ
chunk_mask a b chunk =
    bit_or (zero_byte_mask (bit_xor (word_at chunk) (repeat_byte a)))
      (zero_byte_mask (bit_xor (word_at chunk) (repeat_byte b)))

position-append :
    (test : ℕ → Bool) (xs ys : Bytes)
    → position test (xs ++ ys) ≡ or_else (position test xs) (shift (length xs) (position test ys))
unfolding position
position-append test [] ys = from_start (position test ys)
  where
    from_start : (o : Option ℕ) → o ≡ shift 0 o
    from_start none = refl
    from_start (some i) = ap some (omega arith)
position-append test (x ∷ xs) ys = elim (Bool-cases (test x)) [
  | inl e ↦ rw e refl
  | inr e ↦ rw (e, position-append test xs ys) (one_more (position test xs) (position test ys))
]
  where
    one_more :
        (o p : Option ℕ)
        → next_place (or_else o (shift (length xs) p))
          ≡ or_else (next_place o) (shift (suc (length xs)) p)
    one_more (some i) p = refl
    one_more none none = refl
    one_more none (some i) = ap some (omega arith)

module _ (a b : ℕ) (ha : a < 256) (hb : b < 256) where
  chunk_mask-Finds :
      (chunk : Bytes)
      → length chunk ≡ 8
      → All IsByte chunk
      → Finds 8 (chunk_mask a b chunk) (position (is_either a b) chunk)
  unfolding word_at
  chunk_mask-Finds chunk len h =
      subst (λ m. Finds 8 m (position (is_either a b) chunk))
        (sym (ap₂ bit_or (one a ha) (one b hb)))
        (subst (λ n. Finds n (either_marks a b ha hb chunk) (position (is_either a b) chunk)) len
          (either_marks-Finds a b ha hb chunk h))
    where
      one :
          (c : ℕ)
          → c < 256
          → zero_byte_mask (bit_xor (from_le_bytes chunk) (repeat_byte c))
            ≡ mask (length chunk) (bit_xor (from_le_bytes chunk) (repeated (length chunk) c))
      one c hc =
          ap (λ (t : ℕ). zero_byte_mask (bit_xor (from_le_bytes chunk) t)) (repeat_byte-repeated c)
          ∙ zero_byte_mask-mask (bit_xor (from_le_bytes chunk) (repeated 8 c)) (
              subst (λ n. bit_xor (from_le_bytes chunk) (repeated n c) < 256 ^ n) len
                (against-below c hc chunk h))
          ∙ ap (λ (n : ℕ). mask n (bit_xor (from_le_bytes chunk) (repeated n c))) (sym len)

  chunk_loop-position :
      (chunks offset : ℕ) (rest : Bytes)
      → 8 * chunks ≤ length rest
      → All IsByte rest
      → chunk_loop chunks a b offset rest ≡ shift offset (position (is_either a b) rest)
  unfolding chunk_loop
  chunk_loop-position zero offset rest h all = refl
  chunk_loop-position (suc chunks) offset rest h all =
      let len : length (take 8 rest) ≡ 8 = omega (arith, length-take 8 rest) in
      let left : 8 * chunks ≤ length (drop 8 rest) = omega (arith, length-drop 8 rest) in
      let later =
        chunk_loop-position chunks (offset + 8) (drop 8 rest) left (All-drop 8 rest all) in
      let parts = position-append (is_either a b) (take 8 rest) (drop 8 rest) in
      let whole : position (is_either a b) rest
          ≡ position (is_either a b) (take 8 rest ++ drop 8 rest) =
        ap (position (is_either a b)) (sym (take-append-drop 8 rest)) in
      rw (whole, parts)
        (decide (chunk_mask a b (take 8 rest)) (position (is_either a b) (take 8 rest)) len later
          (chunk_mask-Finds (take 8 rest) len (All-take 8 rest all)))
    where
      decide :
          (m : ℕ) (found : Option ℕ)
          → length (take 8 rest) ≡ 8
          → chunk_loop chunks a b (offset + 8) (drop 8 rest)
            ≡ shift (offset + 8) (position (is_either a b) (drop 8 rest))
          → Finds 8 m found
          → ◌≡◌ {A = Option ℕ}
              (elim (m == 0) [
                | false ↦ some (offset + trailing_zeros 64 m / 8)
                | true ↦ chunk_loop chunks a b (offset + 8) (drop 8 rest)
              ])
              (shift offset (
                or_else found
                  (shift (length (take 8 rest)) (position (is_either a b) (drop 8 rest)))))
      decide m found len later (inr (z, f)) = rw (z, f) refl
      decide m found len later (inl (z, f)) =
          rw (z, f, later, len) (farther (position (is_either a b) (drop 8 rest)))
        where
          farther : (o : Option ℕ) → shift (offset + 8) o ≡ shift offset (shift 8 o)
          farther none = refl
          farther (some i) = ap some (omega arith)

  -- The search that compares eight bytes at a time by arithmetic on words finds what a search byte by
  -- byte finds: the first of the two bytes, or nothing. The haystack is any sequence of bytes.
  pub find_either-position :
      (haystack : Bytes)
      → All IsByte haystack
      → find_either haystack a b ≡ position (is_either a b) haystack
  unfolding find_either
  find_either-position haystack h =
      chunk_loop-position (length haystack / 8) 0 haystack (omega arith) h
      ∙ from_start (position (is_either a b) haystack)
    where
      from_start : (o : Option ℕ) → shift 0 o ≡ o
      from_start none = refl
      from_start (some i) = ap some (omega arith)
