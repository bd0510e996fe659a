-- ===== src/Shared/Mirror.antt =====
-- The store and the token in memory.
use loxwebsocketclient_rs.Prelude.{
  ℕ, ◌≡◌, refl, ap, inl, inr, true, Option, none, some, List, [], ◌∷◌, if◌then◌else◌, Bool-cases,
  All, Bytes,
}
use loxwebsocketclient_rs.Token.{LxToken, is_empty, seconds_to_expire}
use loxwebsocketclient_rs.Token
use loxwebsocketclient_rs.Shared.{
  TokenStore, SharedState, not_positive, set_token, clear_token, persist, adopt, restore_from,
  restore_token,
}

-- The contract of the trait, for the tokens that the store can take.
pub record StoreLaws (S : Type 0) (store : TokenStore S) : Type 1 where
  pub IsStorable : Bytes → LxToken → Type 0
  pub load-save :
      (b : Bytes) (t : LxToken) (s : S)
      → IsStorable b t
      → store.load b (store.save b t s) ≡ (if is_empty t then none else some t)
  pub load-clear : (b : Bytes) (s : S) → store.load b (store.clear b s) ≡ none

pub data TokenOp : Type 0 where
  set_to : LxToken → TokenOp
  forget : TokenOp

module _ {S : Type 0} (store : TokenStore S) where
  abbrev pub token_op : TokenOp → SharedState S → SharedState S
  token_op (set_to t) s = set_token store t s
  token_op forget s = clear_token store s

  abbrev pub token_ops : List TokenOp → SharedState S → SharedState S
  token_ops [] s = s
  token_ops (o ∷ os) s = token_ops os (token_op o s)

  -- What is loaded for a binding is the token in memory, and nothing if there is none.
  abbrev pub Mirrors : Bytes → SharedState S → Type 0
  Mirrors b s =
      (s.binding ≡ some b)
      × (store.load b s.saved ≡ (if is_empty s.token then none else some s.token))

persist-some :
    {S : Type 0} (f : Bytes → S → S) (b : Bytes) (s : SharedState S)
    → s.binding ≡ some b
    → persist f s.binding s ≡ record s { saved = f b s.saved }
unfolding persist
persist-some {S} f b s e = ap (λ (o : Option Bytes). persist f o s) e

restore_from-some :
    {S : Type 0} (store : TokenStore S) (now : ℕ) (b : Bytes) (s : SharedState S)
    → s.binding ≡ some b
    → restore_from store now s.binding s ≡ adopt store now b (store.load b s.saved) s
unfolding restore_from
restore_from-some store now b s e = ap (λ (o : Option Bytes). restore_from store now o s) e

module _ {S : Type 0} (store : TokenStore S) (laws : StoreLaws S store) where
  abbrev pub IsTaken : Bytes → TokenOp → Type 0
  IsTaken b (set_to t) = laws.IsStorable b t
  IsTaken b forget = Unit

  set_token-Mirrors :
      (b : Bytes) (t : LxToken) (s : SharedState S)
      → s.binding ≡ some b
      → laws.IsStorable b t
      → Mirrors store b (set_token store t s)
  unfolding set_token
  set_token-Mirrors b t s e h =
      rw (persist-some (λ b' saved. store.save b' t saved) b (record s { token = t }) e)
        (e, laws.load-save b t s.saved h)

  clear_token-Mirrors :
      (b : Bytes) (s : SharedState S) → s.binding ≡ some b → Mirrors store b (clear_token store s)
  unfolding clear_token is_empty Token.clear
  clear_token-Mirrors b s e =
      rw (persist-some store.clear b (record s { token = Token.clear s.token }) e)
        (e, laws.load-clear b s.saved)

  token_ops-Mirrors :
      (b : Bytes) (os : List TokenOp) (s : SharedState S)
      → All (IsTaken b) os
      → Mirrors store b s
      → Mirrors store b (token_ops store os s)
  token_ops-Mirrors b [] s h m = m
  token_ops-Mirrors b (set_to t ∷ os) s h m =
      token_ops-Mirrors b os (set_token store t s) h.1 (set_token-Mirrors b t s m.0 h.0)
  token_ops-Mirrors b (forget ∷ os) s h m =
      token_ops-Mirrors b os (clear_token store s) h.1 (clear_token-Mirrors b s m.0)

  adopt-Mirrors :
      (now : ℕ) (b : Bytes) (found : Option LxToken) (s : SharedState S)
      → s.binding ≡ some b
      → is_empty s.token ≡ true
      → store.load b s.saved ≡ found
      → Mirrors store b (adopt store now b found s)
  unfolding adopt
  adopt-Mirrors now b none s e h l = (e, rw h l)
  adopt-Mirrors now b (some t) s e h l = elim (Bool-cases (is_empty t)) [
    | inl q ↦ rw q (e, rw h (laws.load-clear b s.saved))
    | inr q ↦ rw q (elim (Bool-cases (not_positive (seconds_to_expire now t))) [
      | inl x ↦ rw x (e, rw h (laws.load-clear b s.saved))
      | inr x ↦ rw x (e, rw q l)
    ])
  ]

  -- Once `restore_token` has run on a fresh client, whatever tokens are set and cleared afterwards, a
  -- store that keeps its contract holds exactly the token that is in memory: a token that was cleared
  -- or found expired is not in the store any more, and no other can be loaded. Each token that is set
  -- is one that the store can take.
  pub token_ops-restore_token :
      (now : ℕ) (b : Bytes) (os : List TokenOp) (s : SharedState S)
      → s.binding ≡ some b
      → is_empty s.token ≡ true
      → All (IsTaken b) os
      → Mirrors store b (token_ops store os (restore_token store now s))
  unfolding restore_token
  token_ops-restore_token now b os s e h taken =
      token_ops-Mirrors b os (restore_token store now s) taken (
        rw (restore_from-some store now b s e)
          (adopt-Mirrors now b (store.load b s.saved) s e h refl))
