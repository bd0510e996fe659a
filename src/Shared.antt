-- ===== src/Shared.antt =====
-- src/client/state.rs, SharedState: the token in memory and its copy in a store. The store is any
-- implementation of the trait `TokenStore` of src/auth/store.rs; what it keeps is an `S`.
pub mod Mirror
mod Runs
use loxwebsocketclient_rs.Prelude.{
  ℕ, zero, suc, Bool, true, false, ◌||◌, Option, none, some, [], if◌then◌else◌, Bytes,
}
use loxwebsocketclient_rs.Prelude.Int.{ℤ, pos, negsuc}
use loxwebsocketclient_rs.Metrics.{ConnState, closed}
use loxwebsocketclient_rs.Token.{LxToken, empty_token, is_empty, seconds_to_expire}
use loxwebsocketclient_rs.Token

pub record TokenStore (S : Type 0) : Type 0 where
  pub load : Bytes → S → Option LxToken
  pub save : Bytes → LxToken → S → S
  pub clear : Bytes → S → S

-- The metrics are a component of their own. `binding` is there if the client has a store.
pub record SharedState (S : Type 0) : Type 0 where
  pub state : ConnState
  pub token : LxToken
  pub binding : Option Bytes
  pub saved : S

module _ {S : Type 0} where
  unfoldable pub new : Option Bytes → S → SharedState S
  new binding saved = record {
    state = closed;
    token = empty_token;
    binding = binding;
    saved = saved;
  }

  unfoldable pub set_state : ConnState → SharedState S → SharedState S
  set_state c s = record s { state = c }

  -- `if let Some(persist) = &self.persist { .. }`.
  unfoldable pub persist : (Bytes → S → S) → Option Bytes → SharedState S → SharedState S
  persist f none s = s
  persist f (some b) s = record s { saved = f b s.saved }

  unfoldable pub token_valid_until : SharedState S → Option ℤ
  token_valid_until s = if is_empty s.token then none else some s.token.valid_until

abbrev pub not_positive : ℤ → Bool
not_positive (pos zero) = true
not_positive (pos (suc n)) = false
not_positive (negsuc n) = true

module _ {S : Type 0} (store : TokenStore S) where
  unfoldable pub set_token : LxToken → SharedState S → SharedState S
  set_token t s = persist (λ b saved. store.save b t saved) s.binding (record s { token = t })

  unfoldable pub clear_token : SharedState S → SharedState S
  clear_token s = persist store.clear s.binding (record s { token = Token.clear s.token })

  unfoldable pub adopt : ℕ → Bytes → Option LxToken → SharedState S → SharedState S
  adopt now b none s = s
  adopt now b (some t) s =
      if is_empty t || not_positive (seconds_to_expire now t)
      then record s { saved = store.clear b s.saved }
      else record s { token = t }

  unfoldable pub restore_from : ℕ → Option Bytes → SharedState S → SharedState S
  restore_from now none s = s
  restore_from now (some b) s = adopt now b (store.load b s.saved) s

  unfoldable pub restore_token : ℕ → SharedState S → SharedState S
  restore_token now s = restore_from now s.binding s
