-- ===== src/Pending/Scan/Occurrence.antt =====
-- The first place at which a text stands, and where that of the key can be.
use loxwebsocketclient_rs.Prelude.{
  All-take, ℕ, zero, suc, ◌+◌, ◌≤◌, ◌<◌, ◌≡◌, refl, sym, ap, ◌∙◌, inl, inr, arith, Bool, true,
  false, ◌&&◌, Option, none, some, some_inv, [], ◌∷◌, ◌++◌, ◌==◌, ==_iff, if◌then◌else◌, Bool-cases,
  length, take, drop, get_or, length-take, All, Bytes, IsByte, from_le_bytes,
}
use loxwebsocketclient_rs.Str.{codes, bytes_eq, starts_with, strip_prefix}
use loxwebsocketclient_rs.Str.Laws.{bytes_eq_iff}
use loxwebsocketclient_rs.Pending.Scan.{word_at, position, is_either, shift, control_key}
use loxwebsocketclient_rs.Pending.Scan.Word.{next_place}

-- The first place at which a text stands, found by trying them all.
unfoldable pub occurrence : Bytes → Bytes → Option ℕ
occurrence p [] = if starts_with p [] then some 0 else none
occurrence p (x ∷ xs) =
    let rest = next_place (occurrence p xs) in if starts_with p (x ∷ xs) then some 0 else rest

-- Little-endian words of as many bytes are equal where the bytes are.
from_le_bytes_inj :
    (xs ys : Bytes)
    → length xs ≡ length ys
    → All IsByte xs
    → All IsByte ys
    → from_le_bytes xs ≡ from_le_bytes ys
    → xs ≡ ys
from_le_bytes_inj [] [] l hx hy e = refl
from_le_bytes_inj [] (y ∷ ys) l hx hy e = absurd (omega arith)
from_le_bytes_inj (x ∷ xs) [] l hx hy e = absurd (omega arith)
from_le_bytes_inj (x ∷ xs) (y ∷ ys) l hx hy e =
    let bx = hx.0 in
    let by = hy.0 in
    let first : x ≡ y = omega arith in
    let rest = from_le_bytes_inj xs ys (omega arith) hx.1 hy.1 (omega arith) in cc

bool_ext : (a b : Bool) → (a ≡ true → b ≡ true) → (b ≡ true → a ≡ true) → a ≡ b
bool_ext true b f g = sym (f refl)
bool_ext false true f g = g refl
bool_ext false false f g = refl

word-bytes_eq :
    (xs ys : Bytes)
    → length xs ≡ length ys
    → All IsByte xs
    → All IsByte ys
    → (word_at xs == word_at ys) ≡ bytes_eq xs ys
unfolding word_at
word-bytes_eq xs ys l hx hy =
    bool_ext (word_at xs == word_at ys) (bytes_eq xs ys)
      (λ e.
        (bytes_eq_iff xs ys).1
          (from_le_bytes_inj xs ys l hx hy ((==_iff (word_at xs) (word_at ys)).0 e)))
      (λ e. (==_iff (word_at xs) (word_at ys)).1 (ap from_le_bytes ((bytes_eq_iff xs ys).0 e)))

-- A text that starts with a prefix and one more character.
starts_with-snoc :
    (a : Bytes) (c : ℕ) (s : Bytes)
    → c < 256
    → starts_with (a ++ c ∷ []) s ≡ bytes_eq (take (length a) s) a && (get_or s (length a) 256 == c)
unfolding starts_with strip_prefix bytes_eq
starts_with-snoc [] c [] h = ground arith
starts_with-snoc [] c (x ∷ xs) h = ground arith
starts_with-snoc (y ∷ a) c [] h = refl
starts_with-snoc (y ∷ a) c (x ∷ xs) h = ground (arith, starts_with-snoc a c xs h)

-- The comparison of a word and a byte is the comparison with the key.
pub key_test :
    (s : Bytes)
    → All IsByte s
    → 9 ≤ length s
    → ((word_at (take 8 s) == word_at (take 8 control_key)) && (get_or s 8 256 == b'"'))
      ≡ starts_with control_key s
key_test s h long =
    ap (λ (b : Bool). b && (get_or s 8 256 == b'"'))
      (word-bytes_eq (take 8 s) (codes "\"control") (omega (arith, length-take 8 s))
        (All-take 8 s h) (omega arith))
    ∙ sym (starts_with-snoc (codes "\"control") b'"' s (omega arith))

pub starts_with_short : (p s : Bytes) → length s < length p → starts_with p s ≡ false
unfolding starts_with strip_prefix
starts_with_short [] s h = absurd (omega arith)
starts_with_short (y ∷ p) [] h = refl
starts_with_short (y ∷ p) (x ∷ xs) h = ground (arith, starts_with_short p xs)

pub occurrence_short : (p s : Bytes) → length s < length p → occurrence p s ≡ none
unfolding occurrence
occurrence_short p [] h = rw (starts_with_short p [] h) refl
occurrence_short p (x ∷ xs) h =
    rw (starts_with_short p (x ∷ xs) h, occurrence_short p xs (omega arith)) refl

pub shift_zero : (o : Option ℕ) → shift 0 o ≡ o
shift_zero none = refl
shift_zero (some i) = ap some (omega arith)

shift-suc : (i : ℕ) (o : Option ℕ) → next_place (shift i o) ≡ shift (suc i) o
shift-suc i none = refl
shift-suc i (some k) = ap some (omega arith)

pub shift-shift : (i k : ℕ) (o : Option ℕ) → shift i (shift k o) ≡ shift (i + k) o
shift-shift i k none = refl
shift-shift i k (some m) = ap some (omega arith)

-- Where the key does not stand, it stands further on or nowhere.
occurrence_next :
    (x : ℕ) (xs : Bytes)
    → starts_with control_key (x ∷ xs) ≡ false
    → occurrence control_key (x ∷ xs) ≡ next_place (occurrence control_key xs)
unfolding occurrence
occurrence_next x xs h = rw h refl

-- The key begins with a quote.
no_quote : (x : ℕ) (xs : Bytes) → (x == b'"') ≡ false → starts_with control_key (x ∷ xs) ≡ false
unfolding starts_with strip_prefix
no_quote x xs h = ground arith

abbrev pub is_quote : ℕ → Bool
is_quote = is_either b'"' b'"'

-- Up to the first quote the key does not stand anywhere.
pub occurrence-no_quote : (s : Bytes) → position is_quote s ≡ none → occurrence control_key s ≡ none
unfolding position
occurrence-no_quote [] e = unfold occurrence in unfold starts_with in unfold strip_prefix in refl
occurrence-no_quote (x ∷ xs) e = elim (Bool-cases (x == b'"')) [
  | inl q ↦ let bad : ◌≡◌ {A = Option ℕ} (some 0) none = (rw q at e) in cc
  | inr q ↦
      occurrence_next x xs (no_quote x xs q)
      ∙ ap next_place (occurrence-no_quote xs (none_next (position is_quote xs) (rw q at e)))
]
  where
    none_next : (o : Option ℕ) → next_place o ≡ none → o ≡ none
    none_next none e' = refl
    none_next (some i) e' = cc

pub occurrence-quote :
    (s : Bytes) (i : ℕ)
    → position is_quote s ≡ some i
    → occurrence control_key s ≡ shift i (occurrence control_key (drop i s))
unfolding position
occurrence-quote [] i e = cc
occurrence-quote (x ∷ xs) i e = elim (Bool-cases (x == b'"')) [
  | inl q ↦
      let zero_is : 0 ≡ i = some_inv (rw q at e) in
      rw (← zero_is) (sym (shift_zero (occurrence control_key (x ∷ xs))))
  | inr q ↦
      occurrence_next x xs (no_quote x xs q)
      ∙ later (occurrence-quote xs) i (position is_quote xs) refl (rw q at e)
]
  where
    later :
        ((m : ℕ)
          → position is_quote xs ≡ some m
          → occurrence control_key xs ≡ shift m (occurrence control_key (drop m xs)))
        → (k : ℕ) (o : Option ℕ) → position is_quote xs ≡ o
        → next_place o ≡ some k
        → next_place (occurrence control_key xs)
          ≡ shift k (occurrence control_key (drop k (x ∷ xs)))
    later ih k none eo e' = cc
    later ih k (some m) eo e' =
        rw (← some_inv e')
          (ap next_place (ih m eo) ∙ shift-suc m (occurrence control_key (drop m xs)))

drop_nil : (n : ℕ) → drop {A = ℕ} n [] ≡ []
drop_nil zero = refl
drop_nil (suc n) = refl

pub drop-drop : (i k : ℕ) (s : Bytes) → drop k (drop i s) ≡ drop (i + k) s
drop-drop i k [] = ap (drop k) (drop_nil i) ∙ drop_nil k ∙ sym (drop_nil (i + k))
drop-drop zero k (x ∷ xs) = let e : k ≡ 0 + k = omega arith in ap (λ (n : ℕ). drop n (x ∷ xs)) e
drop-drop (suc i) k (x ∷ xs) =
    let e : suc (i + k) ≡ suc i + k = omega arith in
    drop-drop i k xs ∙ ap (λ (n : ℕ). drop n (x ∷ xs)) e

pub get_or-drop : (i k : ℕ) (s : Bytes) → get_or (drop i s) k 256 ≡ get_or s (i + k) 256
get_or-drop i k [] = ap (λ (s : Bytes). get_or s k 256) (drop_nil i)
get_or-drop zero k (x ∷ xs) =
    let e : k ≡ 0 + k = omega arith in ap (λ (n : ℕ). get_or (x ∷ xs) n 256) e
get_or-drop (suc i) k (x ∷ xs) =
    let e : suc (i + k) ≡ suc i + k = omega arith in
    get_or-drop i k xs ∙ ap (λ (n : ℕ). get_or (x ∷ xs) n 256) e

-- A text that is no shorter than the key, by its start.
pub occurrence-step :
    (s : Bytes)
    → 0 < length s
    → occurrence control_key s
      ≡ (if starts_with control_key s then some 0 else shift 1 (occurrence control_key (drop 1 s)))
unfolding occurrence
occurrence-step [] h = absurd (omega arith)
occurrence-step (x ∷ xs) h =
    ap (λ (o : Option ℕ). if starts_with control_key (x ∷ xs) then some 0 else o)
      (ap next_place (sym (shift_zero (occurrence control_key xs)))
        ∙ shift-suc 0 (occurrence control_key xs))
