-- ===== src/Pending/RoundTrip.antt =====
-- What the reader makes of an encrypted command that the Miniserver echoes: src/crypto/session.rs
-- from `encrypt` to `decode_control` of src/client/pending.rs.
use loxwebsocketclient_rs.Prelude.{
  ℕ, zero, suc, ◌+◌, ◌-◌, ◌*◌, ◌/◌, ◌%◌, ◌≡◌, refl, sym, ap, ◌∙◌, arith, true, false, some, [], ◌∷◌,
  ◌++◌, append_assoc, append-nil, length, length-append, length-replicate, replicate, All,
  All-append, IsByte, Bytes, ltb,
}
use loxwebsocketclient_rs.Error.{ok}
use loxwebsocketclient_rs.Str.{codes, trim_end_nul}
use loxwebsocketclient_rs.Str.Laws.{NoNul, trim_end_nul-append}
use loxwebsocketclient_rs.Session.{
  Primitives, SessionKeys, SaltState, Env, cmd_encrypt, zero_pad, b64_len, seal, encrypt,
  fill_salted_plaintext, percent_encode_base64, aes_decrypt_zerobyte, decrypt_control_response,
  strip_salts, strip_salt_prefix,
}
use loxwebsocketclient_rs.Session.Salt.{
  IsEnv, IsSalt, IsAscii, generate_salt-IsSalt, plain, plain-NoNul, next_header, next_header-NoNul,
  strips_first, strips_next, strip_padded,
}
use loxwebsocketclient_rs.Session.Chain.{begins, repeats, renews, fill_cases, salt_text-NoNul}
use loxwebsocketclient_rs.Session.Wire.{
  IsBase64, Decodes, contains-wire, after_last-wire, percent_encode_base64-Free,
  decode-percent_encode,
}
use loxwebsocketclient_rs.Pending.{decode_control}

-- What the code relies on in AES-CBC, Base64, percent-decoding and UTF-8.
pub record CryptoLaws (p : Primitives) (keys : SessionKeys) : Type 0 where
  pub cipher :
      (text : Bytes)
      → All IsByte text
      → length text % 16 ≡ 0
      → (out : Bytes) × (p.cbc_encrypt keys.key keys.iv text ≡ some out)
        × (p.cbc_decrypt keys.key keys.iv out ≡ some text)
        × (length out ≡ length text)
        × All IsByte out
  pub base64 :
      (raw : Bytes)
      → All IsByte raw
      → (p.b64_decode (p.b64_encode raw) ≡ some raw)
        × All IsBase64 (p.b64_encode raw)
        × (length (p.b64_encode raw) ≡ (length raw + 2) / 3 * 4)
  pub percent : Decodes p.percent_decode
  pub utf8_nothing : p.is_utf8 [] ≡ true
  pub utf8_ascii : (a b : Bytes) → All IsAscii a → p.is_utf8 (a ++ b) ≡ p.is_utf8 b

IsBase64-IsAscii : (s : Bytes) → All IsBase64 s → All IsAscii s
IsBase64-IsAscii [] h = tt
IsBase64-IsAscii (c ∷ cs) h = (let x = h.0 in ground arith, IsBase64-IsAscii cs h.1)

IsAscii-IsByte : (s : Bytes) → All IsAscii s → All IsByte s
IsAscii-IsByte [] h = tt
IsAscii-IsByte (c ∷ cs) h = (let x = h.0 in omega arith, IsAscii-IsByte cs h.1)

replicate-IsByte : (n : ℕ) → All IsByte (replicate n 0)
replicate-IsByte zero = tt
replicate-IsByte (suc n) = (omega arith, replicate-IsByte n)

zero_pad-aligned : (s : Bytes) → length (zero_pad s) % 16 ≡ 0
zero_pad-aligned s = omega (
  arith,
  length-append s (replicate ((16 - length s % 16) % 16) 0),
  length-replicate {A = ℕ} ((16 - length s % 16) % 16) 0,
)

-- The salted text that is encrypted: a zero byte behind `head`, ASCII, and the command.
record Salted (p : Primitives) (scratch command : Bytes) : Type 0 where
  head : Bytes
  head_ascii : All IsAscii head
  no_nul : NoNul (head ++ command)
  is_scratch : scratch ≡ (head ++ command) ++ replicate 1 0
  stripped : strip_salt_prefix (head ++ command) ≡ command

plain-Salted :
    (p : Primitives) (header salt command scratch : Bytes)
    → All IsAscii header
    → All IsAscii salt
    → NoNul (plain header salt command)
    → scratch ≡ plain header salt command ++ replicate 1 0
    → strip_salts (plain header salt command) ≡ command
    → Salted p scratch command
plain-Salted p header salt command scratch ha sa n e st = record {
  head = header ++ (salt ++ (b'/' ∷ []));
  head_ascii = All-append IsAscii header _ ha (All-append IsAscii salt _ sa (omega arith, tt));
  no_nul = rw regroup n;
  is_scratch = rw regroup e;
  stripped = rw regroup (
      ap strip_salt_prefix (sym (append-nil (plain header salt command)))
      ∙ strip_padded (plain header salt command) command 0 n st);
}
  where
    regroup : (header ++ (salt ++ (b'/' ∷ []))) ++ command ≡ plain header salt command
    regroup =
        append_assoc header (salt ++ (b'/' ∷ [])) command
        ∙ ap (◌++◌ header) (append_assoc salt (b'/' ∷ []) command)

salt_text-IsAscii : All IsAscii (codes "salt/")
salt_text-IsAscii = (omega arith, (omega arith, (omega arith, (omega arith, (omega arith, tt)))))

next_header-IsAscii : (previous : Bytes) → All IsAscii previous → All IsAscii (next_header previous)
next_header-IsAscii previous h =
    All-append IsAscii (codes "nextSalt/") _
      (
        omega arith,
        (
          omega arith,
          (
            omega arith,
            (
              omega arith,
              (omega arith, (omega arith, (omega arith, (omega arith, (omega arith, tt))))),
            ),
          ),
        ),
      )
      (All-append IsAscii previous _ h (omega arith, tt))

fill-Salted :
    (p : Primitives) (env : Env) (s : SaltState) (command : Bytes)
    → IsEnv env
    → IsSalt s
    → NoNul command
    → Salted p (fill_salted_plaintext env s command).1 command
fill-Salted p env s command e h c = elim (fill_cases env s command h) [
  | begins _ q ↦
      let i = generate_salt-IsSalt env s e in
      plain-Salted p (codes "salt/") _ command _ salt_text-IsAscii i.ascii
        (plain-NoNul (codes "salt/") _ command salt_text-NoNul i.no_nul c) (ap (λ z. z.1) q)
        (strips_first _ command i.no_slash)
  | repeats t _ i eq _ q ↦
      plain-Salted p (codes "salt/") _ command _ salt_text-IsAscii h.ascii
        (plain-NoNul (codes "salt/") _ command salt_text-NoNul h.no_nul c) (ap (λ z. z.1) q)
        (strips_first _ command h.no_slash)
  | renews t _ q ↦
      let i = generate_salt-IsSalt env t e in
      plain-Salted p (next_header s.salt) _ command _ (next_header-IsAscii s.salt h.ascii) i.ascii
        (plain-NoNul (next_header s.salt) _ command (next_header-NoNul s.salt h.no_nul) i.no_nul c)
        (ap (λ z. z.1) q) (strips_next _ _ command h.no_slash i.no_slash)
]

Salted-IsByte :
    (p : Primitives) (scratch command : Bytes)
    → All IsByte command
    → Salted p scratch command
    → All IsByte (zero_pad scratch)
Salted-IsByte p scratch command h x =
    All-append IsByte scratch _
      (rw x.is_scratch (
        All-append IsByte (x.head ++ command) _
          (All-append IsByte x.head command (IsAscii-IsByte x.head x.head_ascii) h)
          (omega arith, tt)))
      (replicate-IsByte ((16 - length scratch % 16) % 16))

Salted-trim :
    (p : Primitives) (scratch command : Bytes)
    → (x : Salted p scratch command) → trim_end_nul (zero_pad scratch) ≡ x.head ++ command
Salted-trim p scratch command x = go ((16 - length scratch % 16) % 16)
  where
    go : (n : ℕ) → trim_end_nul (scratch ++ replicate n 0) ≡ x.head ++ command
    go n =
        ap (λ (z : Bytes). trim_end_nul (z ++ replicate n 0)) x.is_scratch
        ∙ ap trim_end_nul (append_assoc (x.head ++ command) (replicate 1 0) (replicate n 0))
        ∙ trim_end_nul-append (x.head ++ command) (suc n) x.no_nul

module _ (p : Primitives) (keys : SessionKeys) (laws : CryptoLaws p keys) where
  IsAscii-utf8 : (s : Bytes) → All IsAscii s → p.is_utf8 s ≡ true
  IsAscii-utf8 s h = ap p.is_utf8 (sym (append-nil s)) ∙ laws.utf8_ascii s [] h ∙ laws.utf8_nothing

  not_less : (n : ℕ) → ltb n n ≡ false
  not_less n = ground arith

  seal-encode :
      (scratch out : Bytes)
      → p.cbc_encrypt keys.key keys.iv (zero_pad scratch) ≡ some out
      → length (p.b64_encode out) ≡ b64_len p (length (zero_pad scratch))
      → seal p keys scratch ≡ ok (cmd_encrypt ++ percent_encode_base64 (p.b64_encode out))
  unfolding seal
  seal-encode scratch out enc size =
      rw (enc, size, not_less (b64_len p (length (zero_pad scratch)))) refl

  decrypt_out :
      (scratch command out : Bytes)
      → (x : Salted p scratch command)
      → p.cbc_decrypt keys.key keys.iv out ≡ some (zero_pad scratch)
      → length out % 16 ≡ 0
      → aes_decrypt_zerobyte p keys.key keys.iv out ≡ ok (x.head ++ command)
  unfolding aes_decrypt_zerobyte
  decrypt_out scratch command out x dec len =
      rw (len, dec) (ap ok (Salted-trim p scratch command x))

  decode-wire :
      (text out plain : Bytes)
      → All IsBase64 text
      → p.b64_decode text ≡ some out
      → aes_decrypt_zerobyte p keys.key keys.iv out ≡ ok plain
      → p.is_utf8 plain ≡ true
      → decode_control p (cmd_encrypt ++ percent_encode_base64 text) keys
        ≡ some (strip_salt_prefix plain)
  unfolding decode_control decrypt_control_response
  decode-wire text out plain letters b64 dec u =
      rw
        (
          contains-wire (percent_encode_base64 text),
          after_last-wire (percent_encode_base64 text) (percent_encode_base64-Free text letters),
          decode-percent_encode p.percent_decode text laws.percent letters,
          IsAscii-utf8 text (IsBase64-IsAscii text letters),
          b64,
          dec,
          u,
        )
        refl

  -- What the Miniserver's echo of a sealed text decrypts to.
  seal-decode :
      (scratch command : Bytes)
      → All IsByte command
      → p.is_utf8 command ≡ true
      → Salted p scratch command
      → (wire : Bytes) × (seal p keys scratch ≡ ok wire)
        × (decode_control p wire keys ≡ some command)
  seal-decode scratch command h u x =
      let (out, enc, dec, len, byte) =
        laws.cipher (zero_pad scratch) (Salted-IsByte p scratch command h x)
          (zero_pad-aligned scratch) in
      let (b64, letters, size) = laws.base64 out byte in
      (
        cmd_encrypt ++ percent_encode_base64 (p.b64_encode out),
        seal-encode scratch out enc (size ∙ ap (b64_len p) len),
        decode-wire (p.b64_encode out) out (x.head ++ command) letters b64
              (decrypt_out scratch command out x dec
                (ap (λ (n : ℕ). n % 16) len ∙ zero_pad-aligned scratch))
              (laws.utf8_ascii x.head command x.head_ascii ∙ u)
            ∙ ap some x.stripped,
      )

  -- An encrypted command, sent in any salt state, is echoed as the very command: `encrypt` gives a
  -- wire text, and `decode_control` of that text the command that went in. The command has no zero
  -- byte and is UTF-8, the salt state is one that the client can reach, and AES, Base64,
  -- percent-decoding and UTF-8 do what they are specified to do.
  pub decode_control-encrypt :
      (env : Env) (s : SaltState) (command : Bytes)
      → IsEnv env
      → IsSalt s
      → NoNul command
      → All IsByte command
      → p.is_utf8 command ≡ true
      → (wire : Bytes) × ((encrypt p keys env s command).1 ≡ ok wire)
        × (decode_control p wire keys ≡ some command)
  unfolding encrypt
  decode_control-encrypt env s command e h c b u =
      seal-decode (fill_salted_plaintext env s command).1 command b u
        (fill-Salted p env s command e h c)
