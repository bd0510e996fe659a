-- ===== src/Pending/Echo.antt =====
-- The Miniserver's spellings of a command that it echoes.
use mathlib.Core.List.{reverse, reverse-cons, reverse-reverse, reverse-append}
use loxwebsocketclient_rs.Prelude.{
  ℕ, zero, suc, ◌<◌, ◌≤◌, length, length-append, ◌≡◌, refl, sym, ap, ◌∙◌, arith, true, none, some,
  List, [], ◌∷◌, ◌++◌, ◌==◌, replicate, All, All-append, Bytes, append-nil, ◌⊎◌, inl, inr,
}
use loxwebsocketclient_rs.Str.{
  codes, bytes_eq, strip_prefix, starts_with, space_len, space_len_back, trim_front, trim,
  trim_end_nul,
}
use loxwebsocketclient_rs.Str.Laws.{NoNul, trim_end_nul-append, bytes_eq_refl}
use loxwebsocketclient_rs.Session.{Primitives, SessionKeys}
use loxwebsocketclient_rs.Pending.{
  PendingEntry, unwrap_or, fold_jdev, canonical, matches, resolve_head, resolve,
}

-- No white space, and ASCII.
abbrev Calm : ℕ → Type 0
Calm x = ((x == 0) ≡ true ⊎ 32 < x) × (x < 128)

-- The printable ASCII characters but the space.
abbrev pub Graphic : ℕ → Type 0
Graphic x = (32 < x) × (x < 127)

space_len-Calm : (x : ℕ) (xs : Bytes) → Calm x → space_len (x ∷ xs) ≡ 0
unfolding space_len
space_len-Calm x xs h = let (a, b) = h in ground arith

space_len_back-Calm : (x : ℕ) (xs : Bytes) → Calm x → space_len_back (x ∷ xs) ≡ 0
unfolding space_len_back
space_len_back-Calm x xs h = let (a, b) = h in ground arith

trim_front-Calm :
    (measure : Bytes → ℕ)
    → ((x : ℕ) (xs : Bytes) → Calm x → measure (x ∷ xs) ≡ 0)
    → (s : Bytes) → All Calm s
    → trim_front measure 0 s ≡ s
unfolding trim_front
trim_front-Calm measure zero_at [] h = refl
trim_front-Calm measure zero_at (x ∷ xs) h = rw (zero_at x xs h.0, trim_front)

All-reverse : (P : ℕ → Type 0) (s : Bytes) → All P s → All P (reverse s)
All-reverse P [] h = tt
All-reverse P (x ∷ xs) h =
    rw (reverse-cons x xs) (All-append P (reverse xs) (x ∷ []) (All-reverse P xs h.1) (h.0, tt))

-- The ASCII white space of `str::trim`.
abbrev pub IsSpace : ℕ → Type 0
IsSpace x = ((9 ≤ x) × (x ≤ 13)) ⊎ (x ≡ 32)

space_len-IsSpace : (x : ℕ) (xs : Bytes) → IsSpace x → space_len (x ∷ xs) ≡ 1
unfolding space_len
space_len-IsSpace x xs h = ground arith

space_len_back-IsSpace : (x : ℕ) (xs : Bytes) → IsSpace x → space_len_back (x ∷ xs) ≡ 1
unfolding space_len_back
space_len_back-IsSpace x xs h = ground arith

trim_front-IsSpace :
    (measure : Bytes → ℕ)
    → ((x : ℕ) (xs : Bytes) → IsSpace x → measure (x ∷ xs) ≡ 1)
    → (before s : Bytes) → All IsSpace before
    → trim_front measure 0 s ≡ s
    → trim_front measure 0 (before ++ s) ≡ s
unfolding trim_front
trim_front-IsSpace measure one_at [] s h stops = stops
trim_front-IsSpace measure one_at (x ∷ xs) s h stops =
    rw (one_at x (xs ++ s) h.0, trim_front) (trim_front-IsSpace measure one_at xs s h.1 stops)

trim_front_stops :
    (s behind : Bytes)
    → 0 < length s
    → All Calm s
    → trim_front space_len 0 (s ++ behind) ≡ s ++ behind
unfolding trim_front
trim_front_stops [] behind full h = absurd (omega arith)
trim_front_stops (x ∷ xs) behind full h = rw (space_len-Calm x (xs ++ behind) h.0, trim_front) refl

-- White space around a text is trimmed.
trim-Calm :
    (before s behind : Bytes)
    → All IsSpace before
    → All IsSpace behind
    → 0 < length s
    → All Calm s
    → trim (before ++ (s ++ behind)) ≡ s
unfolding trim
trim-Calm before s behind hb hh full h =
    ap (λ (z : Bytes). reverse (trim_front space_len_back 0 (reverse z)))
      (trim_front-IsSpace space_len space_len-IsSpace before (s ++ behind) hb
        (trim_front_stops s behind full h))
    ∙ ap (λ (z : Bytes). reverse (trim_front space_len_back 0 z)) (reverse-append s behind)
    ∙ ap reverse (
        trim_front-IsSpace space_len_back space_len_back-IsSpace (reverse behind) (reverse s)
          (All-reverse IsSpace behind hh)
          (trim_front-Calm space_len_back space_len_back-Calm (reverse s) (All-reverse Calm s h)))
    ∙ reverse-reverse s

zeros-Calm : (n : ℕ) → All Calm (replicate n 0)
zeros-Calm zero = tt
zeros-Calm (suc n) = ((inl refl, omega arith), zeros-Calm n)

Graphic-Calm : (s : Bytes) → All Graphic s → All Calm s
Graphic-Calm [] h = tt
Graphic-Calm (x ∷ xs) h = let (a, b) = h.0 in ((inr a, omega arith), Graphic-Calm xs h.1)

Graphic-NoNul : (s : Bytes) → All Graphic s → NoNul s
Graphic-NoNul [] h = tt
Graphic-NoNul (x ∷ xs) h = let (a, b) = h.0 in (ground arith, Graphic-NoNul xs h.1)

-- A text with zero bytes behind it and white space around both.
abbrev pub padded : Bytes → Bytes → ℕ → Bytes → Bytes
padded before s n behind = before ++ ((s ++ replicate n 0) ++ behind)

canonical-Graphic :
    (before s behind : Bytes) (n : ℕ)
    → All IsSpace before
    → All IsSpace behind
    → 0 < length s
    → All Graphic s
    → canonical (padded before s n behind) ≡ fold_jdev (unwrap_or s (strip_prefix (codes "/") s))
unfolding canonical
canonical-Graphic before s behind n hb hh full h =
    ap (λ (z : Bytes). fold_jdev (unwrap_or z (strip_prefix (codes "/") z)))
      (ap trim_end_nul (
          trim-Calm before (s ++ replicate n 0) behind hb hh
            (omega (arith, full, length-append s (replicate n 0)))
            (All-append Calm s (replicate n 0) (Graphic-Calm s h) (zeros-Calm n)))
        ∙ trim_end_nul-append s n (Graphic-NoNul s h))

-- How the Miniserver may spell `jdev/` and the rest of a command.
pub data Spelling (rest : Bytes) : Bytes → Type 0 where
  verbatim : Spelling rest (codes "jdev/" ++ rest)
  slashed : Spelling rest (codes "/jdev/" ++ rest)
  without_j : Spelling rest (codes "dev/" ++ rest)
  slashed_without_j : Spelling rest (codes "/dev/" ++ rest)

fold-Spelling :
    (rest s : Bytes)
    → Spelling rest s
    → fold_jdev (unwrap_or s (strip_prefix (codes "/") s)) ≡ codes "dev/" ++ rest
unfolding fold_jdev unwrap_or strip_prefix starts_with
fold-Spelling rest _ verbatim = refl
fold-Spelling rest _ slashed = refl
fold-Spelling rest _ without_j = refl
fold-Spelling rest _ slashed_without_j = refl

dev-Graphic : (rest : Bytes) → All Graphic rest → All Graphic (codes "dev/" ++ rest)
dev-Graphic rest h = (
  (omega arith, omega arith),
  ((omega arith, omega arith), ((omega arith, omega arith), ((omega arith, omega arith), h))),
)

Spelling-Graphic : (rest s : Bytes) → Spelling rest s → All Graphic rest → All Graphic s
Spelling-Graphic rest _ verbatim h = ((omega arith, omega arith), dev-Graphic rest h)
Spelling-Graphic rest _ slashed h =
    ((omega arith, omega arith), ((omega arith, omega arith), dev-Graphic rest h))
Spelling-Graphic rest _ without_j h = dev-Graphic rest h
Spelling-Graphic rest _ slashed_without_j h = ((omega arith, omega arith), dev-Graphic rest h)

Spelling-full : (rest s : Bytes) → Spelling rest s → 0 < length s
Spelling-full rest _ verbatim = omega arith
Spelling-full rest _ slashed = omega arith
Spelling-full rest _ without_j = omega arith
Spelling-full rest _ slashed_without_j = omega arith

canonical-Spelling :
    (rest before s behind : Bytes) (n : ℕ)
    → All Graphic rest
    → All IsSpace before
    → All IsSpace behind
    → Spelling rest s
    → canonical (padded before s n behind) ≡ codes "dev/" ++ rest
canonical-Spelling rest before s behind n h hb hh sp =
    canonical-Graphic before s behind n hb hh (Spelling-full rest s sp)
      (Spelling-Graphic rest s sp h)
    ∙ fold-Spelling rest s sp

-- An echo of what was sent, with or without a slash before it and the `j` of `jdev`, with any zero bytes
-- behind it and any ASCII white space around both, matches: the first command is answered, nothing is
-- decrypted and no mismatch is counted. The text that was sent is `jdev/` and printable ASCII
-- characters but the space.
pub resolve-Spelling :
    (p : Primitives) (keys : SessionKeys) (e : PendingEntry) (es : List PendingEntry) (m u t n : ℕ)
    (rest before echo behind : Bytes)
    → All Graphic rest
    → All IsSpace before
    → All IsSpace behind
    → e.wire_cmd ≡ codes "jdev/" ++ rest
    → Spelling rest echo
    → resolve p
        (some (padded before echo n behind))
        keys
        (record { entries = e ∷ es; mismatches = m; unsolicited = u; timeouts = t })
      ≡ (
        record { entries = es; mismatches = m; unsolicited = u; timeouts = t },
        some (record {
          plaintext_cmd = e.plaintext_cmd;
          resp = e.resp;
          matched = true;
          actual = none;
        }),
      )
unfolding resolve resolve_head matches
resolve-Spelling p keys e es m u t n rest before echo behind h hb hh w sp = rw equal
  where
    bare : padded [] (codes "jdev/" ++ rest) 0 [] ≡ codes "jdev/" ++ rest
    bare = append-nil ((codes "jdev/" ++ rest) ++ []) ∙ append-nil (codes "jdev/" ++ rest)

    wire : canonical e.wire_cmd ≡ codes "dev/" ++ rest
    wire = rw w (
        ap canonical (sym bare)
        ∙ canonical-Spelling rest [] (codes "jdev/" ++ rest) [] 0 h tt tt verbatim)

    equal : bytes_eq (canonical (padded before echo n behind)) (canonical e.wire_cmd) ≡ true
    equal =
        rw (canonical-Spelling rest before echo behind n h hb hh sp, wire)
          (bytes_eq_refl (codes "dev/" ++ rest))
