-- ===== src/Handshake.antt =====
-- src/client/handshake.rs: the requests that open a session. The socket, the clock and the random
-- generator are a `Peer` with a state `P`: the other crates' code, and the Miniserver behind it.
pub mod Script
pub mod Payload
mod Steps
pub mod Auth
pub mod Rejection
mod Runs
use loxwebsocketclient_rs.Prelude.{
  ℕ, zero, suc, Bool, true, false, Option, none, some, List, [], ◌∷◌, ◌++◌, ltb, ◌==◌,
  if◌then◌else◌, Bytes,
}
use loxwebsocketclient_rs.Prelude.Int.{ℤ, pos, negsuc}
use loxwebsocketclient_rs.Error.{
  Error, web_socket, protocol, auth, timeout, closed, Result, ok, err, ok_or, map_err, in_step,
}
use loxwebsocketclient_rs.Error
use loxwebsocketclient_rs.Str.{codes, bytes_eq}
use loxwebsocketclient_rs.Json.{Json}
use loxwebsocketclient_rs.Hash.{HashAlg, Digests}
use loxwebsocketclient_rs.Token.{LxToken, is_empty, seconds_to_expire}
use loxwebsocketclient_rs.Flow.{
  TokenPermission, cmd_get_key, cmd_key_exchange, cmd_enable_updates, cmd_getkey2,
  cmd_auth_with_token, cmd_kill_token, ll_status_invalidates_token, ll_status_error, unwrap_or,
  parse_json, require_ll_ok, payload_ll_status, parse_token_response, apply_valid_until,
  build_acquire_token_cmd, build_token_hash,
}
use loxwebsocketclient_rs.Session.{Primitives, SessionKeys, SaltState, Env, encrypt}
use loxwebsocketclient_rs.Proto.Header.{
  WsBinHdr, parse_header, payload_len, is_estimated, to_u8, text, out_of_service,
}
use loxwebsocketclient_rs.Reader.{OpCode}
use loxwebsocketclient_rs.Reader
use loxwebsocketclient_rs.Dispatch.{HandlerCall, on_raw_payload, dispatch_event, Told, guard_calls}
use loxwebsocketclient_rs.Shared.{TokenStore, SharedState, set_token, clear_token}

abbrev pub token_min_remaining_secs : ℕ
token_min_remaining_secs = 300

abbrev pub max_interleaved_frames : ℕ
max_interleaved_frames = 64

-- What a read within the timeout gives.
pub data Received : Type 0 where
  received : OpCode → Bytes → Received
  timed_out broken : Received

pub record Peer (P : Type 0) : Type 0 where
  pub write_frame : Bytes → P → P × Bool
  pub read_frame : P → P × Received
  pub env : P → Env

pub record Credentials : Type 0 where
  pub username : Bytes
  pub password : Bytes
  pub token_permission : TokenPermission
  pub client_uuid : Bytes
  pub client_info : Bytes

pub record Handshake (P : Type 0) : Type 0 where
  pub peer : P
  pub salt : SaltState
  pub handler : Told

pub data LlOutcome : Type 0 where
  accepted : LlOutcome
  token_rejected : Bytes → LlOutcome
  failed : Error → LlOutcome

abbrev pub below : ℤ → ℕ → Bool
below (pos n) k = ltb n k
below (negsuc n) k = true

-- A step of the handshake, that may fail.
abbrev pub Step : Type 0 → Type 0 → Type 0
Step P A = Handshake P → Handshake P × Result A

module _ {P : Type 0} where
  unfoldable pub continue_with :
      {A B : Type 0} → Handshake P × Result A → (A → Step P B) → Handshake P × Result B
  continue_with (h, ok a) f = f a h
  continue_with (h, err e) f = (h, err e)

  infixl 5 ◌>>=◌
  abbrev pub ◌>>=◌ : {A B : Type 0} → Step P A → (A → Step P B) → Step P B
  m >>= f = λ h. continue_with (m h) f

  abbrev pub answer : {A : Type 0} → Result A → Step P A
  answer r h = (h, r)

  -- `.map_err(|e| e.in_step(..))`.
  abbrev pub within : {A : Type 0} → Step P A → Step P A
  within m h = let (h', r) = m h in (h', map_err in_step r)

  module _ (net : Peer P) (panics : List HandlerCall → HandlerCall → Bool) where
    abbrev pub written : Bool → Result (Unit {0})
    written true = ok tt
    written false = err web_socket

    unfoldable pub send_text : Bytes → Step P (Unit {0})
    send_text text' h =
        let (peer, sent) = net.write_frame text' h.peer in (record h { peer = peer }, written sent)

    abbrev pub bytes_of : Received → Result Bytes
    bytes_of timed_out = err timeout
    bytes_of broken = err web_socket
    bytes_of (received OpCode.close payload) = err closed
    bytes_of (received _ payload) = ok payload

    unfoldable pub read_frame_bytes : Step P Bytes
    read_frame_bytes h =
        let (peer, got) = net.read_frame h.peer in (record h { peer = peer }, bytes_of got)

    unfoldable pub read_header : Step P WsBinHdr
    read_header = do
      bytes ← read_frame_bytes
      hdr ← answer (parse_header bytes)
      answer (ok_or protocol hdr)

    abbrev pub tell : List HandlerCall → Step P (Unit {0})
    tell calls h =
        let (told, r) = guard_calls panics calls h.handler in (record h { handler = told }, r)

    -- The last argument is the next round of the loop.
    unfoldable pub on_payload : ℕ → Bytes → Step P Bytes → Step P Bytes
    on_payload identifier payload next =
        if identifier == to_u8 text
        then (tell (on_raw_payload identifier payload ∷ []) >>= λ _. answer (ok payload))
        else tell
            (on_raw_payload identifier payload ∷ unwrap_or [] (dispatch_event identifier payload))
          >>= λ _. next

    unfoldable pub on_header : WsBinHdr → Step P Bytes → Step P Bytes
    on_header hdr next =
        if is_estimated hdr
        then next
        else if hdr.identifier == to_u8 out_of_service
        then answer (err closed)
        else (if payload_len hdr == 0 then answer (ok []) else read_frame_bytes) >>= λ payload.
            on_payload hdr.identifier payload next

    unfoldable pub payload_loop : ℕ → Step P Bytes
    payload_loop zero = answer (err protocol)
    payload_loop (suc frames) = read_header >>= λ hdr. on_header hdr (payload_loop frames)

    unfoldable pub read_payload : Step P Bytes
    read_payload = payload_loop max_interleaved_frames

    module _ (j : Json) (d : Digests) (p : Primitives) (keys : SessionKeys)
        (cfg : Credentials) where
      abbrev pub classify_status : Option Bytes → LlOutcome
      classify_status none = failed protocol
      classify_status (some code) =
          if bytes_eq code (codes "200")
          then accepted
          else if ll_status_invalidates_token code
          then token_rejected code
          else failed (ll_status_error code)

      unfoldable pub classify : Bytes → LlOutcome
      classify payload = classify_status (payload_ll_status j payload)

      abbrev pub encrypted : Bytes → Step P Bytes
      encrypted cmd h =
          let (salt, wire) = encrypt p keys (net.env h.peer) h.salt cmd in
          (record h { salt = salt }, wire)

      unfoldable pub request : Bytes → Step P Bytes
      request cmd = do wire ← encrypted cmd; _ ← send_text wire; read_payload

      unfoldable pub exchange : Bytes → Step P (Unit {0})
      exchange session_b64 = do
        _ ← send_text (cmd_key_exchange ++ session_b64)
        resp ← read_payload
        root ← answer (parse_json j resp)
        _ ← answer (require_ll_ok j root)
        answer (ok tt)

      unfoldable pub key_exchange : Bytes → Step P (Unit {0})
      key_exchange session_b64 = within (exchange session_b64)

      abbrev pub update_answer : Option Bytes → Result (Unit {0})
      update_answer none = ok tt
      update_answer (some code) =
          if bytes_eq code (codes "200") then ok tt else err (in_step (ll_status_error code))

      unfoldable pub enable_updates : Step P (Unit {0})
      enable_updates = do
        resp ← request cmd_enable_updates
        answer (update_answer (payload_ll_status j resp))

      unfoldable pub reused : LxToken → Bytes → LlOutcome → Result (Option LxToken)
      reused token payload accepted =
          map_err in_step (Error.◌>>=◌ (apply_valid_until j token payload) (λ t. ok (some t)))
      reused token payload (token_rejected code) = ok none
      reused token payload (failed e) = err (in_step e)

      unfoldable pub reuse_token : LxToken → Step P (Option LxToken)
      reuse_token token = do
        key_resp ← within (request cmd_get_key)
        hash ← within (answer (build_token_hash j d key_resp token))
        payload ← within (request (cmd_auth_with_token hash cfg.username))
        answer (reused token payload (classify payload))

      unfoldable pub kill_token : LxToken → Step P (Unit {0})
      kill_token token = do
        key_resp ← request cmd_get_key
        hash ← answer (build_token_hash j d key_resp token)
        _ ← request (cmd_kill_token hash cfg.username)
        answer (ok tt)

      -- Its failure is only logged.
      abbrev pub kill_displaced : Option LxToken → Handshake P → Handshake P
      kill_displaced none h = h
      kill_displaced (some old) h = (kill_token old h).0

      unfoldable pub not_empty : LxToken → Result LxToken
      not_empty token = if is_empty token then err auth else ok token

      unfoldable pub request_token : Step P LxToken
      request_token = do
        getkey2 ← within (request (cmd_getkey2 cfg.username))
        command ← within (
            answer (
              build_acquire_token_cmd j d getkey2 cfg.username cfg.password cfg.token_permission
                cfg.client_uuid cfg.client_info))
        resp ← within (request command.0)
        token ← answer (parse_token_response j resp command.1)
        answer (not_empty token)

      unfoldable pub acquire_token : Option LxToken → Step P LxToken
      acquire_token displaced h = request_token (kill_displaced displaced h)

      module _ {S : Type 0} (store : TokenStore S) where
        abbrev pub Outcome : Type 0
        Outcome = (Handshake P × SharedState S) × Result (Unit {0})

        -- `shared.set_token(token?)`.
        abbrev pub adopt : SharedState S → Handshake P × Result LxToken → Outcome
        adopt shared (h, ok token) = ((h, set_token store token shared), ok tt)
        adopt shared (h, err e) = ((h, shared), err e)

        unfoldable pub after_reuse : SharedState S → Handshake P × Result (Option LxToken) → Outcome
        after_reuse shared (h, err e) = ((h, shared), err e)
        after_reuse shared (h, ok (some token)) = ((h, set_token store token shared), ok tt)
        after_reuse shared (h, ok none) =
            let cleared = clear_token store shared in adopt cleared (acquire_token none h)

        unfoldable pub authenticate : SharedState S → Handshake P → Outcome
        authenticate shared h =
            if is_empty shared.token
            then adopt shared (acquire_token none h)
            else if below (seconds_to_expire (net.env h.peer).now_secs shared.token)
                token_min_remaining_secs
            then adopt shared (acquire_token (some shared.token) h)
            else after_reuse shared (reuse_token shared.token h)
