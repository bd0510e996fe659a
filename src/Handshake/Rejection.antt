-- ===== src/Handshake/Rejection.antt =====
-- What a failed authentication does to the token that the client shares.
use loxwebsocketclient_rs.Prelude.{◌≡◌, ◌⊎◌, Bool, true, false, some, List, Bytes}
use loxwebsocketclient_rs.Error.{Error, auth, Result, ok, err, >>=-eq-ok}
use loxwebsocketclient_rs.Error
use loxwebsocketclient_rs.Json.{Json}
use loxwebsocketclient_rs.Hash.{Digests}
use loxwebsocketclient_rs.Token.{LxToken, is_empty, seconds_to_expire}
use loxwebsocketclient_rs.Flow.{
  cmd_get_key, build_token_hash, cmd_auth_with_token, payload_ll_status,
  ll_status_invalidates_token,
}
use loxwebsocketclient_rs.Session.{Primitives, SessionKeys}
use loxwebsocketclient_rs.Dispatch.{HandlerCall}
use loxwebsocketclient_rs.Shared.{TokenStore, SharedState, clear_token}
use loxwebsocketclient_rs.Handshake.{
  answer, Peer, Credentials, Handshake, LlOutcome, token_rejected, within, request, below,
  token_min_remaining_secs,
}

module _ {P : Type 0} where
  module _ (net : Peer P) (panics : List HandlerCall → HandlerCall → Bool) (j : Json) (d : Digests)
      (p : Primitives) (keys : SessionKeys) (cfg : Credentials) where
    -- A token that an authentication from `h` offers.
    abbrev pub Offered : LxToken → Handshake P → Type 0
    Offered t h =
        (is_empty t ≡ false)
        × (below (seconds_to_expire (net.env h.peer).now_secs t) token_min_remaining_secs ≡ false)

    -- The token `t` is offered from `h`: the key for its hash is answered, and then the
    -- `authwithtoken` with this hash, by a status that invalidates the token.
    abbrev pub Rejected : LxToken → Handshake P → Type 0
    Rejected t h =
        Offered t h
        × (key hash payload code : Bytes) × (h1 h2 h3 : Handshake P) × (within
              (request net panics j d p keys cfg cmd_get_key) h
            ≡ (h1, ok key))
        × (within (answer (build_token_hash j d key t)) h1 ≡ (h2, ok hash))
        × (within (request net panics j d p keys cfg (cmd_auth_with_token hash cfg.username)) h2
            ≡ (h3, ok payload))
        × (payload_ll_status j payload ≡ some code)
        × (ll_status_invalidates_token code ≡ true)

    abbrev Invalid : Bytes → LlOutcome → Type 0
    Invalid payload (token_rejected code) =
        (payload_ll_status j payload ≡ some code) × (ll_status_invalidates_token code ≡ true)
    Invalid payload _ = Unit

    module _ {S : Type 0} (store : TokenStore S) where
      -- What is shared after an authentication from `from` that failed.
      abbrev pub KeepsToken :
          Handshake P → SharedState S → (Handshake P × SharedState S) × Result (Unit {0}) → Type 0
      KeepsToken from s ((h, s'), ok _) = Unit
      KeepsToken from s ((h, s'), err e) =
          (s' ≡ s) ⊎ ((s' ≡ clear_token store s) × Rejected s.token from)
