-- ===== src/Proto/Elems.antt =====
-- Arrays of fixed-size records, read in place (`ref_from_prefix_with_elems`), and written back.
use loxwebsocketclient_rs.Prelude.{
  ℕ, zero, suc, ◌*◌, ◌≡◌, refl, ap, arith, List, [], ◌∷◌, ◌++◌, length, take, drop, take_prefix,
  drop_prefix, length-append, append_assoc, All, Bytes, ◌+◌, ◌<◌, ◌^◌, from_le_bytes, to_le_bytes,
  length-to_le_bytes, from_le_bytes-to_le_bytes,
}

-- `count` records of `size` bytes from the front.
unfoldable pub read_elems {ℓ} : {A : Type ℓ} → ℕ → (Bytes → A) → ℕ → Bytes → List A
read_elems size read zero bytes = []
read_elems size read (suc count) bytes =
    read (take size bytes) ∷ read_elems size read count (drop size bytes)

pub length-read_elems {ℓ} :
    {A : Type ℓ} (size : ℕ) (read : Bytes → A) (count : ℕ) (bytes : Bytes)
    → length (read_elems size read count bytes) ≡ count
unfolding read_elems
length-read_elems size read zero bytes = refl
length-read_elems size read (suc count) bytes =
    ap suc (length-read_elems size read count (drop size bytes))

abbrev pub write_elems {ℓ} : {A : Type ℓ} → (A → Bytes) → List A → Bytes
write_elems write [] = []
write_elems write (x ∷ xs) = write x ++ write_elems write xs

-- A record type whose well-formed values are written in `size` bytes and read back from them.
pub record Layout {ℓ} (A : Type ℓ) : Type (ℓ + 1) where
  pub size : ℕ
  pub read : Bytes → A
  pub write : A → Bytes
  pub Fits : A → Type ℓ
  pub length-write : (x : A) → Fits x → length (write x) ≡ size
  pub read-write : (x : A) → Fits x → read (write x) ≡ x

module _ {ℓ} {A : Type ℓ} (l : Layout A) where
  open l use {size, read, write, Fits, length-write, read-write}

  pub length-write_elems :
      (xs : List A) → All Fits xs → length (write_elems write xs) ≡ length xs * size
  length-write_elems [] h = omega arith
  length-write_elems (x ∷ xs) h = omega (
    arith,
    length-append (write x) (write_elems write xs),
    length-write x h.0,
    length-write_elems xs h.1,
  )

  pub read_elems-write_elems :
      (xs : List A) (tail : Bytes)
      → All Fits xs
      → read_elems size read (length xs) (write_elems write xs ++ tail) ≡ xs
  unfolding read_elems
  read_elems-write_elems [] tail h = refl
  read_elems-write_elems (x ∷ xs) tail h = rw (
    append_assoc (write x) (write_elems write xs) tail,
    take_prefix size (write x) (write_elems write xs ++ tail) (length-write x h.0),
    drop_prefix size (write x) (write_elems write xs ++ tail) (length-write x h.0),
    read-write x h.0,
    read_elems-write_elems xs tail h.1,
  )

-- Little-endian words of the given widths, one behind the other (a packed `repr(C)` struct).
abbrev pub read_words : List ℕ → Bytes → List ℕ
read_words [] b = []
read_words (w ∷ ws) b = from_le_bytes (take w b) ∷ read_words ws (drop w b)

abbrev pub write_words : List ℕ → List ℕ → Bytes
write_words [] vs = []
write_words (w ∷ ws) [] = []
write_words (w ∷ ws) (v ∷ vs) = to_le_bytes w v ++ write_words ws vs

abbrev pub WordsFit : List ℕ → List ℕ → Type 0
WordsFit [] [] = Unit
WordsFit [] (v ∷ vs) = ⊥
WordsFit (w ∷ ws) [] = ⊥
WordsFit (w ∷ ws) (v ∷ vs) = (v < 256 ^ w) × WordsFit ws vs

abbrev pub sum : List ℕ → ℕ
sum [] = 0
sum (w ∷ ws) = w + sum ws

pub length-write_words : (ws vs : List ℕ) → WordsFit ws vs → length (write_words ws vs) ≡ sum ws
length-write_words [] [] h = refl
length-write_words [] (v ∷ vs) h = elim h [ ]
length-write_words (w ∷ ws) [] h = elim h [ ]
length-write_words (w ∷ ws) (v ∷ vs) h = omega (
  arith,
  length-append (to_le_bytes w v) (write_words ws vs),
  length-to_le_bytes w v,
  length-write_words ws vs h.1,
)

pub read_words-write_words :
    (ws vs : List ℕ) (tail : Bytes)
    → WordsFit ws vs
    → read_words ws (write_words ws vs ++ tail) ≡ vs
read_words-write_words [] [] tail h = refl
read_words-write_words [] (v ∷ vs) tail h = elim h [ ]
read_words-write_words (w ∷ ws) [] tail h = elim h [ ]
read_words-write_words (w ∷ ws) (v ∷ vs) tail h = rw (
  append_assoc (to_le_bytes w v) (write_words ws vs) tail,
  take_prefix w (to_le_bytes w v) (write_words ws vs ++ tail) (length-to_le_bytes w v),
  drop_prefix w (to_le_bytes w v) (write_words ws vs ++ tail) (length-to_le_bytes w v),
  from_le_bytes-to_le_bytes w v h.0,
  read_words-write_words ws vs tail h.1,
)
