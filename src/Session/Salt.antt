-- ===== src/Session/Salt.antt =====
-- The salt sequence: what the Miniserver is sent, command after command.
use loxwebsocketclient_rs.Prelude.{
  ℕ, ◌+◌, ◌/◌, ◌%◌, ◌^◌, ◌≤◌, ◌<◌, ◌≡◌, refl, sym, ap, ◌∙◌, inl, inr, arith, true, false, some, [],
  ◌∷◌, ◌++◌, append_assoc, ◌==◌, Bool-cases, ltb, ltb→lt, all_below, all_below_sound, not-true, not,
  get_or, length, replicate, All, IsByte, Bytes,
}
use loxwebsocketclient_rs.Str.{codes, strip_prefix}
use loxwebsocketclient_rs.Str.Laws.{
  split_once-append, trim_end_nul-append, Free, NoNul, Free-append,
}
use loxwebsocketclient_rs.Uuid.{digits}
use loxwebsocketclient_rs.Session.{
  salt_max_use_count, hex_encode, SaltState, new, Env, generate_salt, new_salt_needed, is_empty,
  salt_header, strip_salts, strip_salt_prefix, after_slash, unwrap_or,
}

-- What the random generator hands out.
pub record IsEnv (env : Env) : Type 0 where
  pub raw_len : length env.raw ≡ 16
  pub raw_range : All IsByte env.raw

abbrev pub IsAscii : ℕ → Type 0
IsAscii c = c < 128

-- A salt is empty before the first command, and hex digits from then on; it is not worn out.
pub record IsSalt (s : SaltState) : Type 0 where
  pub no_slash : Free b'/' s.salt
  pub no_nul : NoNul s.salt
  pub ascii : All IsAscii s.salt
  pub used : s.salt_used_count ≤ salt_max_use_count

digit_Free :
    (d : ℕ) → d < 16 → ((get_or digits d 0 == b'/') ≡ false) × ((get_or digits d 0 == 0) ≡ false)
digit_Free d h =
    (not-true (all_below_sound 16 _ d slash h), not-true (all_below_sound 16 _ d nul h))
  where
    slash : all_below 16 (λ c. not (get_or digits c 0 == b'/')) ≡ true
    slash = unfold all_below in refl

    nul : all_below 16 (λ c. not (get_or digits c 0 == 0)) ≡ true
    nul = unfold all_below in refl

hex_encode-Free : (bs : Bytes) → All IsByte bs → Free b'/' (hex_encode bs) × NoNul (hex_encode bs)
unfolding hex_encode
hex_encode-Free [] h = (tt, tt)
hex_encode-Free (b ∷ bs) h =
    let (s, n) = hex_encode-Free bs h.1 in
    let (hs, hn) = digit_Free (b / 16) (omega arith) in
    let (ls, ln) = digit_Free (b % 16) (omega arith) in ((hs, (ls, s)), (hn, (ln, n)))

digit-IsAscii : (d : ℕ) → d < 16 → IsAscii (get_or digits d 0)
digit-IsAscii d h =
    ltb→lt (get_or digits d 0) 128 (all_below_sound 16 (λ c. ltb (get_or digits c 0) 128) d table h)
  where
    table : all_below 16 (λ c. ltb (get_or digits c 0) 128) ≡ true
    table = unfold all_below in refl

hex_encode-IsAscii : (bs : Bytes) → All IsByte bs → All IsAscii (hex_encode bs)
unfolding hex_encode
hex_encode-IsAscii [] h = tt
hex_encode-IsAscii (b ∷ bs) h = (
  digit-IsAscii (b / 16) (omega arith),
  (digit-IsAscii (b % 16) (omega arith), hex_encode-IsAscii bs h.1),
)

hex_encode-ne-nil : (bs : Bytes) → length bs ≡ 16 → is_empty (hex_encode bs) ≡ false
unfolding hex_encode
hex_encode-ne-nil [] h = absurd (omega arith)
hex_encode-ne-nil (b ∷ bs) h = refl

pub generate_salt-IsSalt : (env : Env) (s : SaltState) → IsEnv env → IsSalt (generate_salt env s)
unfolding generate_salt
generate_salt-IsSalt env s e =
    let (slash, nul) = hex_encode-Free env.raw e.raw_range in
    record {
      no_slash = slash;
      no_nul = nul;
      ascii = hex_encode-IsAscii env.raw e.raw_range;
      used = omega arith;
    }

pub generate_salt-fresh :
    (env : Env) (s : SaltState)
    → IsEnv env
    → (is_empty (generate_salt env s).salt ≡ false) × ((generate_salt env s).salt_used_count ≡ 0)
unfolding generate_salt
generate_salt-fresh env s e = (hex_encode-ne-nil env.raw e.raw_len, refl)

pub new-IsSalt : IsSalt new
unfolding new
new-IsSalt = record { no_slash = tt; no_nul = tt; ascii = tt; used = omega arith }

-- The two forms of a header.
pub data HeaderCases (env : Env) (s : SaltState) : Type 0 where
  first :
      is_empty s.salt ≡ true
      → salt_header env s ≡ (generate_salt env s, codes "salt/")
      → HeaderCases env s
  again :
      (t : SaltState)
      → is_empty s.salt ≡ false
      → t.salt ≡ s.salt
      → t.salt_used_count ≤ salt_max_use_count
      → t.salt_used_count ≡ s.salt_used_count + 1
      → salt_header env s ≡ (t, codes "salt/")
      → HeaderCases env s
  renewed :
      (t : SaltState)
      → is_empty s.salt ≡ false
      → salt_header env s ≡ (generate_salt env t, codes "nextSalt/" ++ (s.salt ++ (b'/' ∷ [])))
      → HeaderCases env s

used_once : (s : SaltState) → IsSalt s → (s.salt_used_count + 1) % 2 ^ 32 ≡ s.salt_used_count + 1
used_once s h = let used = h.used in omega arith

pub header_cases : (env : Env) (s : SaltState) → IsSalt s → HeaderCases env s
unfolding salt_header new_salt_needed
header_cases env s h = elim (Bool-cases (is_empty s.salt)) [
  | inl e ↦ first e (rw e)
  | inr e ↦ elim (Bool-cases (new_salt_needed env s).1) [
    | inl n ↦ renewed (new_salt_needed env s).0 e (rw (e, n))
    | inr n ↦ again (new_salt_needed env s).0 e refl (ground arith) (used_once s h) (rw (e, n))
  ]
]

-- Every salted plaintext is a header, the salt in use, the command and a zero byte.
abbrev pub plain : Bytes → Bytes → Bytes → Bytes
plain header salt command = header ++ (salt ++ (b'/' ∷ command))

pub plain-NoNul :
    (header salt command : Bytes)
    → NoNul header
    → NoNul salt
    → NoNul command
    → NoNul (plain header salt command)
plain-NoNul header salt command h s c = Free-append 0 header _ h (Free-append 0 salt _ s (refl, c))

pub scratch-plain :
    (header salt command : Bytes)
    → header ++ (salt ++ (b'/' ∷ command ++ (0 ∷ []))) ≡ plain header salt command ++ replicate 1 0
scratch-plain header salt command = sym (
    append_assoc header (salt ++ (b'/' ∷ command)) (replicate 1 0)
    ∙ ap (◌++◌ header) (append_assoc salt (b'/' ∷ command) (replicate 1 0)))

-- What the Miniserver reads behind the padding: the command, for both forms of the header.
abbrev pub next_header : Bytes → Bytes
next_header previous = codes "nextSalt/" ++ (previous ++ (b'/' ∷ []))

pub next_header-NoNul : (previous : Bytes) → NoNul previous → NoNul (next_header previous)
next_header-NoNul previous h = (
  refl,
  (
    refl,
    (refl, (refl, (refl, (refl, (refl, (refl, (refl, Free-append 0 previous _ h (refl, tt)))))))),
  ),
)

after_slash-append :
    (salt command : Bytes) → Free b'/' salt → after_slash (salt ++ (b'/' ∷ command)) ≡ some command
after_slash-append salt command h = rw (split_once-append b'/' salt command h, after_slash)

pub strips_first :
    (salt command : Bytes)
    → Free b'/' salt
    → strip_salts (plain (codes "salt/") salt command) ≡ command
unfolding strip_salts strip_prefix
strips_first salt command s =
    ap (unwrap_or (plain (codes "salt/") salt command)) (after_slash-append salt command s)

pub strips_next :
    (previous salt command : Bytes)
    → Free b'/' previous
    → Free b'/' salt
    → strip_salts (plain (next_header previous) salt command) ≡ command
unfolding strip_salts strip_prefix
strips_next previous salt command p s = rw (
  append_assoc previous (b'/' ∷ []) (salt ++ (b'/' ∷ command)),
  after_slash-append previous (salt ++ (b'/' ∷ command)) p,
  after_slash-append salt command s,
)

pub strip_padded :
    (text command : Bytes) (n : ℕ)
    → NoNul text
    → strip_salts text ≡ command
    → strip_salt_prefix (text ++ replicate n 0) ≡ command
unfolding strip_salt_prefix
strip_padded text command n h e = ap strip_salts (trim_end_nul-append text n h) ∙ e
