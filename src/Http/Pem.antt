-- ===== src/Http/Pem.antt =====
-- src/crypto/rsa_key.rs: the text of the public key, its import and the encryption of the session key.
use loxwebsocketclient_rs.Prelude.{
  ℕ, zero, suc, ◌+◌, ◌-◌, true, false, Option, none, some, [], ◌∷◌, ◌++◌, ltb, ◌==◌, if◌then◌else◌,
  length, take, drop, Bytes,
}
use loxwebsocketclient_rs.Error.{crypto, Result, ok, err, ◌>>=◌, ok_or}
use loxwebsocketclient_rs.Str.{codes, starts_with, trim, space_len}

abbrev pub begin_key : Bytes
begin_key = codes "-----BEGIN PUBLIC KEY-----"

abbrev pub end_key : Bytes
end_key = codes "-----END PUBLIC KEY-----"

-- `s.find(pat)`.
unfoldable pub find : Bytes → Bytes → Option ℕ
find pat [] = if starts_with pat [] then some 0 else none
find pat (x ∷ xs) =
    let rest = find pat xs in
    if starts_with pat (x ∷ xs) then some 0 else elim rest [ none ↦ none | some i ↦ some (suc i) ]

-- `s.replace(pat, by)` for a pattern that is not empty; `skip` bytes of a match are left to drop.
unfoldable pub replace_from : Bytes → Bytes → ℕ → Bytes → Bytes
replace_from pat by skip [] = []
replace_from pat by (suc skip) (x ∷ xs) = replace_from pat by skip xs
replace_from pat by zero (x ∷ xs) = elim (starts_with pat (x ∷ xs)) [
  | true ↦ by ++ replace_from pat by (length pat - 1) xs
  | false ↦ x ∷ replace_from pat by 0 xs
]

-- `chars().filter(|c| !c.is_whitespace())`; `skip` bytes of a white-space character are left to drop.
unfoldable pub without_spaces : ℕ → Bytes → Bytes
without_spaces skip [] = []
without_spaces (suc skip) (x ∷ xs) = without_spaces skip xs
without_spaces zero (x ∷ xs) = elim (space_len (x ∷ xs)) [
  | zero ↦ x ∷ without_spaces 0 xs
  | suc k ↦ without_spaces k xs
]

abbrev pub without_dashes : Bytes → Bytes
without_dashes [] = []
without_dashes (x ∷ xs) = if x == b'-' then without_dashes xs else x ∷ without_dashes xs

-- The text between the markers; `none` where the range `start..b` has its end before its start, which
-- panics.
abbrev pub between : Option ℕ → Option ℕ → Bytes → Option Bytes
between (some a) (some b) s =
    let start = a + length begin_key in
    if ltb b start then none else some (without_spaces 0 (take (b - start) (drop start s)))
between (some a) none s = some (without_dashes (without_spaces 0 s))
between none b s = some (without_dashes (without_spaces 0 s))

-- A line for each 64 bytes; so many rounds are left.
unfoldable pub chunk_lines : ℕ → Bytes → Bytes
chunk_lines rounds [] = []
chunk_lines zero (x ∷ xs) = []
chunk_lines (suc rounds) (x ∷ xs) = take 64 (x ∷ xs) ++ (10 ∷ chunk_lines rounds (drop 64 (x ∷ xs)))

unfoldable pub pem_body : Bytes → Option Bytes
pem_body pem =
    let s = replace_from (13 ∷ []) [] 0 (trim pem) in
    let marked =
      replace_from (codes "-----END CERTIFICATE-----") end_key 0
        (replace_from (codes "-----BEGIN CERTIFICATE-----") begin_key 0 s) in
    between (find begin_key marked) (find end_key marked) marked

-- Each line takes a byte at least.
abbrev pub wrapped : Bytes → Bytes
wrapped body = begin_key ++ (10 ∷ chunk_lines (length body) body ++ (end_key ++ (10 ∷ [])))

unfoldable pub normalize_public_key_pem : Bytes → Option Bytes
normalize_public_key_pem pem = elim (pem_body pem) [ none ↦ none | some body ↦ some (wrapped body) ]

-- What the crates `rsa` and `base64` do; `rsa_encrypt` takes its random bytes, a key and a text.
pub record Rsa : Type 1 where
  pub Key : Type 0
  pub from_public_key_pem : Bytes → Option Key
  pub from_pkcs1_pem : Bytes → Option Key
  pub rsa_encrypt : Bytes → Key → Bytes → Option Bytes
  pub b64_encode : Bytes → Bytes

module _ (x : Rsa) where
  abbrev pub or_pkcs1 : Option x.Key → Bytes → Result x.Key
  or_pkcs1 (some key) normalized = ok key
  or_pkcs1 none normalized = ok_or crypto (x.from_pkcs1_pem normalized)

  abbrev pub import_normalized : Option Bytes → Option (Result x.Key)
  import_normalized none = none
  import_normalized (some normalized) =
      some (or_pkcs1 (x.from_public_key_pem normalized) normalized)

  -- `none` where the call panics, here and below.
  unfoldable pub import_public_key : Bytes → Option (Result x.Key)
  import_public_key pem = import_normalized (normalize_public_key_pem pem)

  abbrev pub wrap_with : Bytes → Bytes → Option (Result x.Key) → Option (Result Bytes)
  wrap_with random session_payload none = none
  wrap_with random session_payload (some (err e)) = some (err e)
  wrap_with random session_payload (some (ok key)) = some (
      ok_or crypto (x.rsa_encrypt random key session_payload) >>= λ encrypted.
      ok (x.b64_encode encrypted))

  unfoldable pub wrap_session_key : Bytes → Bytes → Bytes → Option (Result Bytes)
  wrap_session_key random public_key_pem session_payload =
      wrap_with random session_payload (import_public_key public_key_pem)
