-- ===== src/Session/Wire.antt =====
-- The text of an encrypted command on the wire: Base64 in percent encoding behind the prefix.
use loxwebsocketclient_rs.Prelude.{
  ℕ, ◌+◌, ◌*◌, ◌<◌, ◌≡◌, refl, sym, ap, ◌∙◌, arith, inl, inr, Bool, true, false, ◌||◌, ◌&&◌, none,
  [], ◌∷◌, ◌++◌, leb, ◌==◌, Bool-cases, all_below, all_below_sound, not-true, not, get_or, All,
  Bytes,
}
use loxwebsocketclient_rs.Str.{codes, strip_prefix, starts_with, contains}
use loxwebsocketclient_rs.Str.Laws.{Free, Free-append, starts_with-append}
use loxwebsocketclient_rs.Session.{cmd_encrypt, percent_encode_base64, after_last}

-- The letters of Base64, its padding included.
abbrev pub is_base64 : ℕ → Bool
is_base64 c =
    (leb b'A' c && leb c b'Z')
    || (leb b'a' c && leb c b'z')
    || (leb b'0' c && leb c b'9')
    || c == b'+'
    || c == b'/'
    || c == b'='

abbrev pub IsBase64 : ℕ → Type 0
IsBase64 c = is_base64 c ≡ true

abbrev pub upper_digit : ℕ → ℕ
upper_digit d = get_or (codes "0123456789ABCDEF") d 0

-- Percent-decoding as it is specified: an escape stands for its byte, another character for itself.
pub record Decodes (decode : Bytes → Bytes) : Type 0 where
  pub nothing : decode [] ≡ []
  pub other : (c : ℕ) (s : Bytes) → (c == b'%') ≡ false → decode (c ∷ s) ≡ c ∷ decode s
  pub escape :
      (hi lo : ℕ) (s : Bytes)
      → hi < 16
      → lo < 16
      → decode (b'%' ∷ upper_digit hi ∷ upper_digit lo ∷ s) ≡ (hi * 16 + lo) ∷ decode s

strip_prefix-Free : (c : ℕ) (a b s : Bytes) → Free c s → strip_prefix (a ++ c ∷ b) s ≡ none
unfolding strip_prefix
strip_prefix-Free c [] b [] h = refl
strip_prefix-Free c [] b (x ∷ xs) h = ground (arith, h.0)
strip_prefix-Free c (y ∷ a) b [] h = refl
strip_prefix-Free c (y ∷ a) b (x ∷ xs) h = ground (arith, strip_prefix-Free c a b xs h.1)

-- A pattern with a character that a text lacks does not occur in it.
contains-Free : (c : ℕ) (a b s : Bytes) → Free c s → contains (a ++ c ∷ b) s ≡ false
unfolding contains starts_with
contains-Free c a b [] h = rw (strip_prefix-Free c a b [] h, starts_with)
contains-Free c a b (x ∷ xs) h =
    rw (strip_prefix-Free c a b (x ∷ xs) h, starts_with, contains-Free c a b xs h.1)

pub contains-wire : (s : Bytes) → contains cmd_encrypt (cmd_encrypt ++ s) ≡ true
unfolding contains
contains-wire s = rw (starts_with-append cmd_encrypt s)

-- The text behind the prefix, if it has no slash.
pub after_last-wire : (s : Bytes) → Free b'/' s → after_last cmd_encrypt (cmd_encrypt ++ s) ≡ s
unfolding after_last contains starts_with strip_prefix
after_last-wire s h = rw (contains-Free b'/' (codes "jdev") (codes "sys/enc/") s h)

-- A character that is escaped, or one that stands for itself.
data Written (c : ℕ) : Bytes → Type 0 where
  escaped :
      (hi lo : ℕ)
      → hi < 16
      → lo < 16
      → c ≡ hi * 16 + lo
      → Written c (b'%' ∷ upper_digit hi ∷ upper_digit lo ∷ [])
  kept : (c == b'%') ≡ false → (c == b'/') ≡ false → Written c (c ∷ [])

written :
    (c : ℕ) (cs : Bytes)
    → IsBase64 c
    → (w : Bytes) × Written c w × (percent_encode_base64 (c ∷ cs) ≡ w ++ percent_encode_base64 cs)
unfolding percent_encode_base64
written c cs h = elim (Bool-cases (c == b'+')) [
  | inl a ↦ (codes "%2B", escaped 2 11 (omega arith) (omega arith) (ground arith), rw a)
  | inr a ↦ elim (Bool-cases (c == b'/')) [
    | inl b ↦ (codes "%2F", escaped 2 15 (omega arith) (omega arith) (ground arith), rw (a, b))
    | inr b ↦ elim (Bool-cases (c == b'=')) [
      | inl e ↦ (codes "%3D", escaped 3 13 (omega arith) (omega arith) (ground arith), rw (a, b, e))
      | inr e ↦ (c ∷ [], kept (ground arith) b, rw (a, b, e))
    ]
  ]
]

digit_Free : (d : ℕ) → d < 16 → (upper_digit d == b'/') ≡ false
digit_Free d h = not-true (all_below_sound 16 (λ c. not (upper_digit c == b'/')) d table h)
  where
    table : all_below 16 (λ c. not (upper_digit c == b'/')) ≡ true
    table = unfold all_below in refl

written-Free : (c : ℕ) (w : Bytes) → Written c w → Free b'/' w
written-Free c w (escaped hi lo h l e) = (refl, (digit_Free hi h, (digit_Free lo l, tt)))
written-Free c w (kept a b) = (b, tt)

pub percent_encode_base64-Free : (s : Bytes) → All IsBase64 s → Free b'/' (percent_encode_base64 s)
percent_encode_base64-Free [] h = unfold percent_encode_base64 in tt
percent_encode_base64-Free (c ∷ cs) h =
    let (w, is, e) = written c cs h.0 in
    rw e (Free-append b'/' w _ (written-Free c w is) (percent_encode_base64-Free cs h.1))

decode-written :
    (decode : Bytes → Bytes) (c : ℕ) (w s : Bytes)
    → Decodes decode
    → Written c w
    → decode (w ++ s) ≡ c ∷ decode s
decode-written decode c w s d (escaped hi lo h l e) =
    d.escape hi lo s h l ∙ ap (λ (x : ℕ). x ∷ decode s) (sym e)
decode-written decode c w s d (kept a b) = d.other c s a

-- What percent-decoding makes of the encoding.
pub decode-percent_encode :
    (decode : Bytes → Bytes) (s : Bytes)
    → Decodes decode
    → All IsBase64 s
    → decode (percent_encode_base64 s) ≡ s
decode-percent_encode decode [] d h = unfold percent_encode_base64 in d.nothing
decode-percent_encode decode (c ∷ cs) d h =
    let (w, is, e) = written c cs h.0 in
    ap decode e
    ∙ decode-written decode c w (percent_encode_base64 cs) d is
    ∙ ap (◌∷◌ c) (decode-percent_encode decode cs d h.1)
