-- ===== src/Handshake/Auth.antt =====
-- The token that an authentication leaves in the shared state when it succeeds.
use loxwebsocketclient_rs.Prelude.{
  ◌≡◌, refl, sym, ap, ◌∙◌, Bool, true, false, Option, none, some, List, [], ◌∷◌, if◌then◌else◌,
  if-cases, subst, Bytes,
}
use loxwebsocketclient_rs.Prelude.Int.{ℤ}
use loxwebsocketclient_rs.Error.{ok_inv, Error, auth, Result, ok, err, map_err, in_step, >>=-eq-ok}
use loxwebsocketclient_rs.Error
use loxwebsocketclient_rs.Json.{Json}
use loxwebsocketclient_rs.Hash.{Digests}
use loxwebsocketclient_rs.Token.{LxToken, is_empty, seconds_to_expire}
use loxwebsocketclient_rs.Flow.{with_text, get_str, apply_valid_until, ll_value, read_valid_until}
use loxwebsocketclient_rs.Str.{codes}
use loxwebsocketclient_rs.Session.{Primitives, SessionKeys}
use loxwebsocketclient_rs.Dispatch.{HandlerCall}
use loxwebsocketclient_rs.Shared.{TokenStore, SharedState, persist, set_token, clear_token}
use loxwebsocketclient_rs.Handshake.{
  Peer, Credentials, Handshake, LlOutcome, accepted, token_rejected, failed, reused, reuse_token,
  not_empty, request_token, acquire_token, kill_displaced, adopt, after_reuse, authenticate,
  classify, below, token_min_remaining_secs,
}
use loxwebsocketclient_rs.Handshake.Steps.{Yields, bind-Yields, answer-Yields}

with_text-not_empty :
    (j : Json) (s : Option Bytes) (t : LxToken) (v : ℤ)
    → is_empty t ≡ false
    → is_empty (with_text j s (record t { valid_until = v })) ≡ false
unfolding is_empty
with_text-not_empty j none t v h = h
with_text-not_empty j (some []) t v h = h
with_text-not_empty j (some (c ∷ cs)) t v h = refl

apply_valid_until-not_empty :
    (j : Json) (t t' : LxToken) (payload : Bytes)
    → is_empty t ≡ false
    → apply_valid_until j t payload ≡ ok t'
    → is_empty t' ≡ false
unfolding apply_valid_until
apply_valid_until-not_empty j t t' payload h e =
    let (value, _, e1) = >>=-eq-ok (ll_value j payload) _ e in
    let (valid_until, _, e2) = >>=-eq-ok (read_valid_until j value) _ e1 in
    sym (ap is_empty (ok_inv e2))
    ∙ with_text-not_empty j (get_str j (codes "token") value) t valid_until h

module _ {P : Type 0} where
  module _ (net : Peer P) (panics : List HandlerCall → HandlerCall → Bool) (j : Json) (d : Digests)
      (p : Primitives) (keys : SessionKeys) (cfg : Credentials) where
    -- A token that is there.
    abbrev pub IsToken : LxToken → Type 0
    IsToken t = is_empty t ≡ false

    not_empty-ok : (t a : LxToken) → not_empty net panics j d p keys cfg t ≡ ok a → IsToken a
    unfolding not_empty
    not_empty-ok t a e = go (is_empty t) refl e
      where
        go : (b : Bool) → is_empty t ≡ b → (if b then err auth else ok t) ≡ ok a → IsToken a
        go true q e' = absurd (cc)
        go false q e' = subst IsToken (ok_inv e') q

    request_token-Yields : Yields IsToken (request_token net panics j d p keys cfg)
    unfolding request_token
    request_token-Yields = bind-Yields IsToken _ _ (λ getkey2. bind-Yields IsToken _ _ (λ command.
        bind-Yields IsToken _ _ (λ resp.
          bind-Yields IsToken _ _ (λ token. answer-Yields IsToken _ (not_empty-ok token)))))

    abbrev IsKept : Option LxToken → Type 0
    IsKept none = Unit
    IsKept (some t) = IsToken t

    reused-IsKept :
        (t : LxToken) (payload : Bytes) (out : LlOutcome) (o : Option LxToken)
        → IsToken t
        → reused net panics j d p keys cfg t payload out ≡ ok o
        → IsKept o
    unfolding reused
    reused-IsKept t payload (token_rejected code) none h e = tt
    reused-IsKept t payload (token_rejected code) (some t') h e = absurd (cc)
    reused-IsKept t payload (failed x) o h e = absurd (cc)
    reused-IsKept t payload accepted o h e = go (apply_valid_until j t payload) refl e
      where
        go :
            (r : Result LxToken)
            → apply_valid_until j t payload ≡ r
            → map_err in_step (Error.◌>>=◌ r (λ t'. ok (some t'))) ≡ ok o
            → IsKept o
        go (err x) q e' = absurd (cc)
        go (ok t') q e' = subst IsKept (ok_inv e') (apply_valid_until-not_empty j t t' payload h q)

    reuse_token-Yields :
        (t : LxToken) → IsToken t → Yields IsKept (reuse_token net panics j d p keys cfg t)
    unfolding reuse_token
    reuse_token-Yields t ht = bind-Yields IsKept _ _ (λ key. bind-Yields IsKept _ _ (λ hash.
        bind-Yields IsKept _ _ (λ payload.
          answer-Yields IsKept _
            (λ o. reused-IsKept t payload (classify net panics j d p keys cfg payload) o ht))))

    module _ {S : Type 0} (store : TokenStore S) where
      set_token-token : (t : LxToken) (s : SharedState S) → (set_token store t s).token ≡ t
      unfolding set_token persist
      set_token-token t s = go s.binding
        where
          go :
              (o : Option Bytes)
              → (persist (λ b saved. store.save b t saved) o (record s { token = t })).token ≡ t
          go none = refl
          go (some b) = refl

      -- What is shared after the handshake's outcome.
      abbrev pub HasToken : (Handshake P × SharedState S) × Result (Unit {0}) → Type 0
      HasToken ((h, s), ok _) = IsToken s.token
      HasToken ((h, s), err e) = Unit

      adopt-HasToken :
          (s : SharedState S) (r : Handshake P × Result LxToken)
          → ((h : Handshake P) (t : LxToken) → r ≡ (h, ok t) → IsToken t)
          → HasToken (adopt net panics j d p keys cfg store s r)
      adopt-HasToken s (h, ok t) f = subst IsToken (sym (set_token-token t s)) (f h t refl)
      adopt-HasToken s (h, err e) f = tt

      acquired :
          (o : Option LxToken) (s : SharedState S) (h : Handshake P)
          → HasToken (
              adopt net panics j d p keys cfg store s (acquire_token net panics j d p keys cfg o h))
      unfolding acquire_token
      acquired o s h =
          adopt-HasToken s _
            (λ h' t e. request_token-Yields (kill_displaced net panics j d p keys cfg o h) h' t e)

      after_reuse-HasToken :
          (s : SharedState S) (r : Handshake P × Result (Option LxToken))
          → ((h : Handshake P) (o : Option LxToken) → r ≡ (h, ok o) → IsKept o)
          → HasToken (after_reuse net panics j d p keys cfg store s r)
      unfolding after_reuse
      after_reuse-HasToken s (h, err e) f = tt
      after_reuse-HasToken s (h, ok none) f = acquired none (clear_token store s) h
      after_reuse-HasToken s (h, ok (some t)) f =
          subst IsToken (sym (set_token-token t s)) (f h (some t) refl)

      -- However the Miniserver answers, a session that was authenticated has a token in the shared
      -- state that is not empty, taken over or new, whatever was there before.
      pub authenticate-HasToken :
          (s : SharedState S) (h : Handshake P)
          → HasToken (authenticate net panics j d p keys cfg store s h)
      unfolding authenticate
      authenticate-HasToken s h = go (is_empty s.token) refl
        where
          go :
              (b : Bool)
              → is_empty s.token ≡ b
              → HasToken (
                  if b
                  then adopt net panics j d p keys cfg store s
                      (acquire_token net panics j d p keys cfg none h)
                  else if below
                      (seconds_to_expire (net.env h.peer).now_secs s.token)
                      token_min_remaining_secs
                  then adopt net panics j d p keys cfg store s
                      (acquire_token net panics j d p keys cfg (some s.token) h)
                  else after_reuse net panics j d p keys cfg store s
                      (reuse_token net panics j d p keys cfg s.token h))
          go true q = acquired none s h
          go false q =
              if-cases HasToken
                (below (seconds_to_expire (net.env h.peer).now_secs s.token)
                  token_min_remaining_secs)
                _ _ (λ _. acquired (some s.token) s h)
                (λ _. after_reuse-HasToken s _ (λ h' o e. reuse_token-Yields s.token q h h' o e))
