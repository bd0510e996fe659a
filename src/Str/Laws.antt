-- ===== src/Str/Laws.antt =====
-- Laws of the text methods.
use mathlib.Core.List.{reverse, reverse-cons, reverse-append, reverse-reverse}
use loxwebsocketclient_rs.Prelude.{
  ℕ, zero, suc, ◌≡◌, ◌↔◌, refl, ap, ◌∙◌, arith, true, false, some, [], ◌∷◌, ◌++◌, ◌==◌, replicate,
  All, Bytes,
}
use loxwebsocketclient_rs.Str.{
  bytes_eq, strip_prefix, starts_with, split_once, split, drop_nuls, trim_end_nul,
}

pub bytes_eq_iff : (a b : Bytes) → (bytes_eq a b ≡ true) ↔ (a ≡ b)
unfolding bytes_eq
bytes_eq_iff [] [] = (λ _. refl, λ _. refl)
bytes_eq_iff [] (y ∷ ys) = (λ e. cc, λ e. cc)
bytes_eq_iff (x ∷ xs) [] = (λ e. cc, λ e. cc)
bytes_eq_iff (x ∷ xs) (y ∷ ys) =
    (λ e. ground (arith, bytes_eq_iff xs ys), λ e. ground (arith, bytes_eq_iff xs ys))

pub bytes_eq_refl : (a : Bytes) → bytes_eq a a ≡ true
bytes_eq_refl a = (bytes_eq_iff a a).1 refl

pub strip_prefix-append : (p s : Bytes) → strip_prefix p (p ++ s) ≡ some s
unfolding strip_prefix
strip_prefix-append [] s = refl
strip_prefix-append (x ∷ xs) s = ground (arith, strip_prefix-append xs s)

pub starts_with-append : (p s : Bytes) → starts_with p (p ++ s) ≡ true
unfolding starts_with
starts_with-append p s = rw (strip_prefix-append p s, starts_with)

-- Without the separator a text is one segment.
abbrev pub Free : ℕ → Bytes → Type 0
Free c = All (λ x. (x == c) ≡ false)

pub split_once-append : (c : ℕ) (a b : Bytes) → Free c a → split_once c (a ++ c ∷ b) ≡ some (a, b)
unfolding split_once
split_once-append c [] b h = ground arith
split_once-append c (x ∷ xs) b h = rw (h.0, split_once-append c xs b h.1)

==_self : (c : ℕ) → (c == c) ≡ true
==_self c = ground arith

pub split-Free : (c : ℕ) (a : Bytes) → Free c a → split c a ≡ (a, [])
unfolding split
split-Free c [] h = refl
split-Free c (x ∷ xs) h = rw (h.0, split-Free c xs h.1)

pub split-append :
    (c : ℕ) (a b : Bytes) → Free c a → split c (a ++ c ∷ b) ≡ (a, (split c b).0 ∷ (split c b).1)
unfolding split
split-append c [] b h = rw (==_self c)
split-append c (x ∷ xs) b h = rw (h.0, split-append c xs b h.1)

-- A text without zero bytes, and the zeros behind it.
abbrev pub NoNul : Bytes → Type 0
NoNul = Free 0

pub Free-append : (c : ℕ) (a b : Bytes) → Free c a → Free c b → Free c (a ++ b)
Free-append c [] b ha hb = hb
Free-append c (x ∷ xs) b ha hb = (ha.0, Free-append c xs b ha.1 hb)

Free-reverse : (c : ℕ) (a : Bytes) → Free c a → Free c (reverse a)
Free-reverse c [] h = tt
Free-reverse c (x ∷ xs) h =
    rw (reverse-cons x xs) (Free-append c (reverse xs) (x ∷ []) (Free-reverse c xs h.1) (h.0, tt))

drop_nuls-Free : (a : Bytes) → NoNul a → drop_nuls a ≡ a
unfolding drop_nuls
drop_nuls-Free [] h = refl
drop_nuls-Free (x ∷ xs) h = rw h.0

drop_nuls-zeros : (n : ℕ) (a : Bytes) → drop_nuls (replicate n 0 ++ a) ≡ drop_nuls a
unfolding drop_nuls
drop_nuls-zeros zero a = refl
drop_nuls-zeros (suc n) a = drop_nuls-zeros n a

replicate_snoc : (n : ℕ) → replicate n 0 ++ 0 ∷ [] ≡ replicate {A = ℕ} (suc n) 0
replicate_snoc zero = refl
replicate_snoc (suc n) = ap (◌∷◌ 0) (replicate_snoc n)

reverse-zeros : (n : ℕ) → reverse (replicate n 0) ≡ replicate {A = ℕ} n 0
reverse-zeros zero = refl
reverse-zeros (suc n) =
    reverse-cons 0 (replicate n 0)
    ∙ ap (λ (z : Bytes). z ++ 0 ∷ []) (reverse-zeros n)
    ∙ replicate_snoc n

-- Zeros behind a text that has none are trimmed, and nothing else.
pub trim_end_nul-append : (s : Bytes) (n : ℕ) → NoNul s → trim_end_nul (s ++ replicate n 0) ≡ s
unfolding trim_end_nul
trim_end_nul-append s n h =
    rw
      (
        reverse-append s (replicate n 0),
        reverse-zeros n,
        drop_nuls-zeros n (reverse s),
        drop_nuls-Free (reverse s) (Free-reverse 0 s h),
      )
      (reverse-reverse s)
