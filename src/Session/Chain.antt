-- ===== src/Session/Chain.antt =====
-- The salt sequence of one connection, as the Miniserver sees it.
use loxwebsocketclient_rs.Prelude.{
  ℕ, ◌+◌, ◌≤◌, ◌<◌, ◌≡◌, refl, sym, ap, ◌∙◌, arith, true, false, List, [], ◌∷◌, ◌++◌, append_assoc,
  suc, replicate, All, Bytes, map,
}
use loxwebsocketclient_rs.Str.{codes}
use loxwebsocketclient_rs.Str.Laws.{NoNul}
use loxwebsocketclient_rs.Session.{
  salt_max_use_count, SaltState, new, Env, generate_salt, is_empty, salt_header,
  fill_salted_plaintext, strip_salts, strip_salt_prefix,
}
use loxwebsocketclient_rs.Session.Salt.{
  IsEnv, IsSalt, generate_salt-IsSalt, generate_salt-fresh, new-IsSalt, first, again, renewed,
  header_cases, plain, plain-NoNul, next_header, next_header-NoNul, scratch-plain, strips_first,
  strips_next, strip_padded,
}

-- What one call leaves and what it sends.
pub data FillCases (env : Env) (s : SaltState) (command : Bytes) : Type 0 where
  begins :
      is_empty s.salt ≡ true
      → fill_salted_plaintext env s command ≡ (
        generate_salt env s,
        plain (codes "salt/") (generate_salt env s).salt command ++ replicate 1 0,
      )
      → FillCases env s command
  repeats :
      (t : SaltState)
      → is_empty s.salt ≡ false
      → IsSalt t
      → t.salt ≡ s.salt
      → t.salt_used_count ≡ s.salt_used_count + 1
      → fill_salted_plaintext env s command
        ≡ (t, plain (codes "salt/") s.salt command ++ replicate 1 0)
      → FillCases env s command
  renews :
      (t : SaltState)
      → is_empty s.salt ≡ false
      → fill_salted_plaintext env s command ≡ (
        generate_salt env t,
        plain (next_header s.salt) (generate_salt env t).salt command ++ replicate 1 0,
      )
      → FillCases env s command

fill_header :
    (env : Env) (s t : SaltState) (header command : Bytes)
    → salt_header env s ≡ (t, header)
    → fill_salted_plaintext env s command ≡ (t, plain header t.salt command ++ replicate 1 0)
unfolding fill_salted_plaintext
fill_header env s t header command e =
    ap (λ (p : SaltState × Bytes). (p.0, p.1 ++ (p.0.salt ++ (b'/' ∷ command ++ (0 ∷ []))))) e
    ∙ ap (λ (z : Bytes). (t, z)) (scratch-plain header t.salt command)

again-IsSalt :
    (s t : SaltState)
    → IsSalt s
    → t.salt ≡ s.salt
    → t.salt_used_count ≤ salt_max_use_count
    → IsSalt t
again-IsSalt s t h eq bound = record {
  no_slash = rw eq h.no_slash;
  no_nul = rw eq h.no_nul;
  ascii = rw eq h.ascii;
  used = bound;
}

pub fill_cases : (env : Env) (s : SaltState) (command : Bytes) → IsSalt s → FillCases env s command
fill_cases env s command h = elim (header_cases env s h) [
  | first e q ↦ begins e (fill_header env s _ _ command q)
  | again t e eq bound used q ↦ repeats t e (again-IsSalt s t h eq bound) eq used (
      fill_header env s t _ command q
      ∙ ap (λ (z : Bytes). (t, plain (codes "salt/") z command ++ replicate 1 0)) eq)
  | renewed t e q ↦ renews t e (fill_header env s _ _ command q)
]

-- After any call the state is a salt again.
fill-IsSalt :
    (env : Env) (s : SaltState) (command : Bytes)
    → IsEnv env
    → IsSalt s
    → IsSalt (fill_salted_plaintext env s command).0
fill-IsSalt env s command e h = elim (fill_cases env s command h) [
  | begins _ q ↦ rw q (generate_salt-IsSalt env s e)
  | repeats t _ i _ _ q ↦ rw q i
  | renews t _ q ↦ rw q (generate_salt-IsSalt env t e)
]

strip_out :
    (out : SaltState × Bytes) (t : SaltState) (text command : Bytes) (n : ℕ)
    → out ≡ (t, text ++ replicate 1 0)
    → NoNul text
    → strip_salts text ≡ command
    → strip_salt_prefix (out.1 ++ replicate n 0) ≡ command
strip_out out t text command n e h s = rw e (
    ap strip_salt_prefix (append_assoc text (replicate 1 0) (replicate n 0))
    ∙ strip_padded text command (suc n) h s)

pub salt_text-NoNul : NoNul (codes "salt/")
salt_text-NoNul = (refl, (refl, (refl, (refl, (refl, tt)))))

-- The plaintext under encryption, with the zeros of the padding, gives the command back to whoever
-- strips the salts: for every command without a zero byte, every clock and every 16 random bytes, and
-- for every state whose salt has no slash and no zero byte and whose use count is 30 at most.
pub strip_salt_prefix-fill :
    (env : Env) (s : SaltState) (command : Bytes) (n : ℕ)
    → IsEnv env
    → IsSalt s
    → NoNul command
    → strip_salt_prefix ((fill_salted_plaintext env s command).1 ++ replicate n 0) ≡ command
strip_salt_prefix-fill env s command n e h c = elim (fill_cases env s command h) [
  | begins _ q ↦
      let i = generate_salt-IsSalt env s e in
      strip_out _ _ _ command n q (plain-NoNul (codes "salt/") _ command salt_text-NoNul i.no_nul c)
        (strips_first _ command i.no_slash)
  | repeats t _ i eq _ q ↦
      strip_out _ _ _ command n q (plain-NoNul (codes "salt/") _ command salt_text-NoNul h.no_nul c)
        (strips_first _ command h.no_slash)
  | renews t _ q ↦
      let i = generate_salt-IsSalt env t e in
      strip_out _ _ _ command n q
        (plain-NoNul (next_header s.salt) _ command (next_header-NoNul s.salt h.no_nul) i.no_nul c)
        (strips_next _ _ command h.no_slash i.no_slash)
]

-- What the Miniserver takes on one connection: the current salt, how many commands it carried, the
-- texts in their order, and the commands they stand for. A salt is announced before it is used, the
-- renewal names the salt it replaces, and no salt carries more than 31 commands.
pub data Serves : Bytes → ℕ → List Bytes → List Bytes → Type 0 where
  stop : (cur : Bytes) (n : ℕ) → Serves cur n [] []
  announce :
      (cur salt command : Bytes) (n : ℕ) (texts commands : List Bytes)
      → is_empty cur ≡ true
      → is_empty salt ≡ false
      → Serves salt 1 texts commands
      → Serves cur n
          ((plain (codes "salt/") salt command ++ replicate 1 0) ∷ texts)
          (command ∷ commands)
  reuse :
      (cur command : Bytes) (n : ℕ) (texts commands : List Bytes)
      → is_empty cur ≡ false
      → n < 31
      → Serves cur (n + 1) texts commands
      → Serves cur n
          ((plain (codes "salt/") cur command ++ replicate 1 0) ∷ texts)
          (command ∷ commands)
  replace :
      (cur salt command : Bytes) (n : ℕ) (texts commands : List Bytes)
      → is_empty cur ≡ false
      → is_empty salt ≡ false
      → Serves salt 1 texts commands
      → Serves cur n
          ((plain (next_header cur) salt command ++ replicate 1 0) ∷ texts)
          (command ∷ commands)

-- The writer's commands, each with what clock and generator answer.
abbrev pub fill_all : SaltState → List (Env × Bytes) → List Bytes
fill_all s [] = []
fill_all s ((env, command) ∷ rest) =
    (fill_salted_plaintext env s command).1 ∷ fill_all (fill_salted_plaintext env s command).0 rest

fill_all-Serves-from :
    (s : SaltState) (n : ℕ) (sends : List (Env × Bytes))
    → IsSalt s
    → All (λ (p : Env × Bytes). IsEnv p.0) sends
    → (is_empty s.salt ≡ false → n ≡ s.salt_used_count + 1)
    → Serves s.salt n (fill_all s sends) (map (λ (p : Env × Bytes). p.1) sends)
fill_all-Serves-from s n [] h all count = stop s.salt n
fill_all-Serves-from s n ((env, command) ∷ rest) h all count =
    elim (fill_cases env s command h)
      as (λ _.
        Serves s.salt n (fill_all s ((env, command) ∷ rest))
          (command ∷ map (λ (p : Env × Bytes). p.1) rest)) [
            | begins e q ↦
                let (filled, zero_used) = generate_salt-fresh env s all.0 in
                rw q (
                  announce s.salt _ command n _ _ e filled (
                    fill_all-Serves-from (generate_salt env s) 1 rest
                      (generate_salt-IsSalt env s all.0) all.1 (λ _. omega arith)))
            | repeats t e i eq used q ↦
                let n_is = count e in
                let bound = i.used in
                rw q (
                  reuse s.salt command n _ _ e (omega arith)
                    (rw (sym eq) (fill_all-Serves-from t (n + 1) rest i all.1 (λ _. omega arith))))
            | renews t e q ↦
                let (filled, zero_used) = generate_salt-fresh env t all.0 in
                rw q (
                  replace s.salt _ command n _ _ e filled (
                    fill_all-Serves-from (generate_salt env t) 1 rest
                      (generate_salt-IsSalt env t all.0) all.1 (λ _. omega arith)))
          ]

-- The plaintexts that a new connection encrypts, whatever the clock and the generator (16 bytes each
-- time) answer, are ones that the Miniserver takes: they stand for the commands in their order, the
-- first salt is announced, a renewal names the salt before it, and no salt carries more than 31
-- commands.
pub fill_all-Serves :
    (sends : List (Env × Bytes))
    → All (λ (p : Env × Bytes). IsEnv p.0) sends
    → Serves [] 0 (fill_all new sends) (map (λ (p : Env × Bytes). p.1) sends)
unfolding new
fill_all-Serves sends all = fill_all-Serves-from new 0 sends new-IsSalt all (λ e. cc)
