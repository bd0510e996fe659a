-- ===== src/Pending/Scan/Field.antt =====
-- The `control` field of an answer that is laid out as the Miniserver's are.
use loxwebsocketclient_rs.Prelude.{
  All-take, ℕ, zero, suc, ◌+◌, ◌-◌, ◌≤◌, ◌<◌, ◌≡◌, refl, sym, ap, ◌∙◌, inl, inr, arith, Bool, true,
  false, min, Option, none, some, [], ◌∷◌, ◌++◌, append_assoc, ltb, Bool-cases, subst, length, take,
  drop, get_or, length-append, take_prefix, drop_prefix, All, Bytes, IsByte,
}
use loxwebsocketclient_rs.Str.{starts_with, strip_prefix}
use loxwebsocketclient_rs.Str.Laws.{Free}
use loxwebsocketclient_rs.Session.{Primitives}
use loxwebsocketclient_rs.Pending.Scan.{
  position, is_either, find_either, find_byte, control_key, find_control_key, is_ascii_whitespace,
  not_space, quoted_value, extract_ll_control,
}
use loxwebsocketclient_rs.Pending.Scan.Word.{next_place}
use loxwebsocketclient_rs.Pending.Scan.Find.{find_either-position}
use loxwebsocketclient_rs.Pending.Scan.Key.{find_control_key-occurrence}
use loxwebsocketclient_rs.Pending.Scan.Occurrence.{occurrence, starts_with_short, occurrence_short}

starts_with-append_long :
    (p s t : Bytes) → length p ≤ length s → starts_with p (s ++ t) ≡ starts_with p s
unfolding starts_with strip_prefix
starts_with-append_long [] s t h = refl
starts_with-append_long (y ∷ p) [] t h = absurd (omega arith)
starts_with-append_long (y ∷ p) (x ∷ xs) t h = ground (arith, starts_with-append_long p xs t)

starts_fits : (p s : Bytes) → starts_with p s ≡ true → length p ≤ length s
starts_fits p s e = elim (Bool-cases (ltb (length s) (length p))) [
  | inl short ↦ let bad : true ≡ false = sym e ∙ starts_with_short p s (ground arith) in absurd (cc)
  | inr long ↦ ground arith
]

occurrence_fits : (p s : Bytes) (i : ℕ) → occurrence p s ≡ some i → length p ≤ length s
occurrence_fits p s i e = elim (Bool-cases (ltb (length s) (length p))) [
  | inl short ↦
      let bad : ◌≡◌ {A = Option ℕ} (some i) none = sym e ∙ occurrence_short p s (ground arith) in
      absurd (cc)
  | inr long ↦ ground arith
]

-- A place where a text stands is left where it is by what comes behind.
occurrence-append :
    (p s t : Bytes) (i : ℕ)
    → 0 < length p
    → occurrence p s ≡ some i
    → occurrence p (s ++ t) ≡ some i
unfolding occurrence
occurrence-append p [] t i h e =
    let bad : ◌≡◌ {A = Option ℕ} none (some i) = (rw (starts_with_short p [] h) at e) in cc
occurrence-append p (x ∷ xs) t i h e = elim (Bool-cases (starts_with p (x ∷ xs))) [
  | inl q ↦
      let fits = starts_fits p (x ∷ xs) q in
      rw (starts_with-append_long p (x ∷ xs) t fits, q) (rw q at e)
  | inr q ↦ later q (occurrence p xs) refl (occurrence-append p xs t) (rw q at e)
]
  where
    later :
        starts_with p (x ∷ xs) ≡ false
        → (o : Option ℕ) → occurrence p xs ≡ o
        → ((m : ℕ) → 0 < length p → occurrence p xs ≡ some m → occurrence p (xs ++ t) ≡ some m)
        → next_place o ≡ some i
        → occurrence p (x ∷ xs ++ t) ≡ some i
    later q none eo ih e' = cc
    later q (some m) eo ih e' =
        let fits = occurrence_fits p xs m eo in
        rw (starts_with-append_long p (x ∷ xs) t (omega arith), q, ih m h eo) e'

-- The first byte that passes a test.
position-here :
    (test : ℕ → Bool) (a : Bytes) (c : ℕ) (b : Bytes)
    → All (λ x. test x ≡ false) a
    → test c ≡ true
    → position test (a ++ c ∷ b) ≡ some (length a)
unfolding position
position-here test [] c b h e = rw e refl
position-here test (x ∷ a) c b h e = rw (h.0, position-here test a c b h.1 e) refl

get_or-here : (a : Bytes) (c : ℕ) (b : Bytes) → get_or (a ++ c ∷ b) (length a) 256 ≡ c
get_or-here [] c b = refl
get_or-here (x ∷ a) c b = get_or-here a c b

drop-here : (a : Bytes) (c : ℕ) (b : Bytes) → drop (length a + 1) (a ++ c ∷ b) ≡ b
drop-here a c b =
    ap (drop (length a + 1)) (sym (append_assoc a (c ∷ []) b))
    ∙ drop_prefix (length a + 1) (a ++ c ∷ []) b (length-append a (c ∷ []))

take-append_long :
    (n : ℕ) (xs ys : Bytes) → length xs ≤ n → take n (xs ++ ys) ≡ xs ++ take (n - length xs) ys
take-append_long n [] ys h = let e : n ≡ n - 0 = omega arith in ap (λ (k : ℕ). take k ys) e
take-append_long zero (x ∷ xs) ys h = absurd (omega arith)
take-append_long (suc n) (x ∷ xs) ys h =
    let e : n - length xs ≡ suc n - suc (length xs) = omega arith in
    ap (◌∷◌ x) (take-append_long n xs ys (omega arith) ∙ ap (λ (k : ℕ). xs ++ take k ys) e)

-- The text of an answer around its `control` field.
abbrev pub field_tail : Bytes → Bytes → Bytes → Bytes → Bytes
field_tail gap space value rest = gap ++ (b':' ∷ (space ++ (b'"' ∷ (value ++ (b'"' ∷ rest)))))

abbrev pub field_text : Bytes → Bytes → Bytes → Bytes → Bytes → Bytes
field_text before gap space value rest = (before ++ control_key) ++ field_tail gap space value rest

both_Free : (a b : ℕ) (s : Bytes) → Free a s → Free b s → All (λ x. is_either a b x ≡ false) s
both_Free a b [] ha hb = tt
both_Free a b (x ∷ xs) ha hb = (rw (ha.0, hb.0) refl, both_Free a b xs ha.1 hb.1)

spaces : (s : Bytes) → All (λ c. is_ascii_whitespace c ≡ true) s → All (λ c. not_space c ≡ false) s
spaces [] h = tt
spaces (c ∷ cs) h = (rw h.0 refl, spaces cs h.1)

All-behind : (xs ys : Bytes) → All IsByte (xs ++ ys) → All IsByte ys
All-behind [] ys h = h
All-behind (x ∷ xs) ys h = All-behind xs ys h.1

quoted_value-here :
    (p : Primitives) (value rest : Bytes)
    → All IsByte (value ++ (b'"' ∷ rest))
    → Free b'"' value
    → Free b'\\' value
    → length value < 8192
    → p.is_utf8 value ≡ true
    → quoted_value p (value ++ (b'"' ∷ rest)) ≡ some value
unfolding quoted_value
quoted_value-here p value rest bytes hq hb size u =
    rw
      (
        window,
        found,
        get_or-here value b'"' cut,
        take_prefix (length value) value (b'"' ∷ cut) refl,
        u,
      )
      refl
  where
    cut : Bytes
    cut = take (min (length (value ++ (b'"' ∷ rest))) 8192 - length (value ++ (b'"' ∷ []))) rest

    window :
        take (min (length (value ++ (b'"' ∷ rest))) 8192) (value ++ (b'"' ∷ rest))
        ≡ value ++ (b'"' ∷ cut)
    window =
        ap (take (min (length (value ++ (b'"' ∷ rest))) 8192))
          (sym (append_assoc value (b'"' ∷ []) rest))
        ∙ take-append_long (min (length (value ++ (b'"' ∷ rest))) 8192) (value ++ (b'"' ∷ [])) rest
            (omega (arith, length-append value (b'"' ∷ rest), length-append value (b'"' ∷ [])))
        ∙ append_assoc value (b'"' ∷ []) cut

    found : find_either (value ++ (b'"' ∷ cut)) b'"' b'\\' ≡ some (length value)
    found =
        find_either-position b'"' b'\\' (omega arith) (omega arith) (value ++ (b'"' ∷ cut)) (
          subst (All IsByte) window
            (All-take (min (length (value ++ (b'"' ∷ rest))) 8192) (value ++ (b'"' ∷ rest)) bytes))
        ∙ position-here (is_either b'"' b'\\') value b'"' cut (both_Free b'"' b'\\' value hq hb)
            refl

-- An answer whose `control` field is laid out as usual gives the field's value: the key lies wholly
-- in the first 512 bytes and stands nowhere before, then come a colon, white space and the quoted value,
-- which is UTF-8, has no quote and no backslash and is shorter than 8192 bytes. What stands before
-- the key, between key and colon and behind the value does not matter.
pub extract_ll_control-field :
    (p : Primitives) (before gap space value rest : Bytes)
    → All IsByte (field_text before gap space value rest)
    → occurrence control_key (before ++ control_key) ≡ some (length before)
    → length before + 9 ≤ 512
    → Free b':' gap
    → All (λ c. is_ascii_whitespace c ≡ true) space
    → Free b'"' value
    → Free b'\\' value
    → length value < 8192
    → p.is_utf8 value ≡ true
    → extract_ll_control p (field_text before gap space value rest) ≡ some value
unfolding extract_ll_control is_ascii_whitespace
extract_ll_control-field p before gap space value rest bytes first near hg hs hq hb size u =
    rw
      (
        key_found,
        behind_key,
        colon,
        behind_colon,
        position-here not_space space b'"' quoted (spaces space hs) refl,
        get_or-here space b'"' quoted,
        drop-here space b'"' quoted,
      )
      (quoted_value-here p value rest
        (All-behind (space ++ (b'"' ∷ [])) quoted
          (subst (All IsByte) (sym (append_assoc space (b'"' ∷ []) quoted)) after_bytes))
        hq hb size u)
  where
    tail : Bytes
    tail = field_tail gap space value rest

    text : Bytes
    text = field_text before gap space value rest

    quoted : Bytes
    quoted = value ++ (b'"' ∷ rest)

    after_colon : Bytes
    after_colon = space ++ (b'"' ∷ quoted)

    key_found : find_control_key (take (min (length text) 512) text) ≡ some (length before)
    key_found =
        find_control_key-occurrence (take (min (length text) 512) text)
          (All-take (min (length text) 512) text bytes)
        ∙ ap (occurrence control_key) (
            take-append_long (min (length text) 512) (before ++ control_key) tail (
              omega (
                arith,
                length-append before control_key,
                length-append (before ++ control_key) tail,
              )))
        ∙ occurrence-append control_key (before ++ control_key) _ (length before) (omega arith)
            first

    tail_bytes : All IsByte tail
    tail_bytes = All-behind (before ++ control_key) tail bytes

    after_bytes : All IsByte after_colon
    after_bytes =
        All-behind (gap ++ (b':' ∷ [])) after_colon
          (subst (All IsByte) (sym (append_assoc gap (b':' ∷ []) after_colon)) tail_bytes)

    behind_key : drop (length before + 9) text ≡ tail
    behind_key =
        drop_prefix (length before + 9) (before ++ control_key) tail
          (length-append before control_key)

    colon : find_byte tail b':' ≡ some (length gap)
    colon =
        unfold find_byte in
        find_either-position b':' b':' (omega arith) (omega arith) tail tail_bytes
        ∙ position-here (is_either b':' b':') gap b':' after_colon (both_Free b':' b':' gap hg hg)
            refl

    behind_colon : drop (length gap + 1) tail ≡ after_colon
    behind_colon = drop-here gap b':' after_colon
