-- ===== src/Handshake/Payload.antt =====
-- How an answer is found among the messages that overtake it.
use loxwebsocketclient_rs.Prelude.{
  ℕ, suc, ◌+◌, ◌<◌, ◌^◌, ◌≡◌, refl, sym, ap, ◌∙◌, arith, false, List, [], ◌∷◌, ◌++◌, append_assoc,
  append-nil, ◌==◌, length, All, Bytes, length-to_le_bytes, from_le_bytes-to_le_bytes,
}
use loxwebsocketclient_rs.Error.{protocol, ok, err}
use loxwebsocketclient_rs.Session.{Env}
use loxwebsocketclient_rs.Proto.Header.{
  header_bytes, parse_header_iff, payload_len, is_estimated, to_u8, out_of_service,
}
use loxwebsocketclient_rs.Reader.{binary}
use loxwebsocketclient_rs.Reader.Framing.{Message, Sendable, hdr}
use loxwebsocketclient_rs.Dispatch.{HandlerCall, guard_calls}
use loxwebsocketclient_rs.Handshake.{
  Received, received, Handshake, Step, continue_with, read_frame_bytes, read_header, on_header,
  on_payload, payload_loop, read_payload,
}
use loxwebsocketclient_rs.Handshake.Script.{
  script, quiet, estimate_frames, payload_frames, frames_before, all_frames_before, headers,
  calls_of, all_calls, call_all-quiet,
}

module _ (env : Env) where
  -- The handshake at these frames, with a handler that was told these calls.
  abbrev pub at_frames :
      Handshake (List Received) → List Received → List HandlerCall → Handshake (List Received)
  at_frames h frames calls = record h {
    peer = frames;
    handler = record { calls = calls; panicked = false };
  }

  read_header-frame :
      (h : Handshake (List Received)) (rest : List Received) (calls : List HandlerCall)
      (info msg_type n : ℕ)
      → read_header
          (script env)
          quiet
          (at_frames h (received binary (header_bytes (hdr info msg_type n)) ∷ rest) calls)
        ≡ (at_frames h rest calls, ok (hdr info msg_type n))
  unfolding read_header read_frame_bytes continue_with
  read_header-frame h rest calls info msg_type n =
      rw
        ((parse_header_iff (header_bytes (hdr info msg_type n)) (hdr info msg_type n)).1
          (refl, refl, length-to_le_bytes 4 n))
        refl

  loop-estimate :
      (h : Handshake (List Received)) (rest : List Received) (calls : List HandlerCall)
      (msg_type n k : ℕ)
      → payload_loop
          (script env)
          quiet
          (suc k)
          (at_frames h (received binary (header_bytes (hdr 1 msg_type n)) ∷ rest) calls)
        ≡ payload_loop (script env) quiet k (at_frames h rest calls)
  unfolding payload_loop on_header is_estimated continue_with
  loop-estimate h rest calls msg_type n k = rw (read_header-frame h rest calls 1 msg_type n) refl

  loop-exact :
      (h : Handshake (List Received)) (rest : List Received) (calls : List HandlerCall) (t : ℕ)
      (payload : Bytes) (k : ℕ)
      → (t == to_u8 out_of_service) ≡ false
      → length payload < 256 ^ 4
      → payload_loop (script env) quiet (suc k) (
          at_frames h
            (received binary (header_bytes (hdr 0 t (length payload)))
              ∷ payload_frames payload rest)
            calls)
        ≡ on_payload
            (script env)
            quiet
            t
            payload
            (payload_loop (script env) quiet k)
            (at_frames h rest calls)
  unfolding payload_loop on_header is_estimated payload_len continue_with read_frame_bytes
  loop-exact h rest calls t [] k serv size = rw (read_header-frame h rest calls 0 t 0, serv) refl
  loop-exact h rest calls t (b ∷ bs) k serv size =
      let some_bytes : (length (b ∷ bs) == 0) ≡ false = ground arith in
      rw
        (
          read_header-frame h (received binary (b ∷ bs) ∷ rest) calls 0 t (length (b ∷ bs)),
          serv,
          from_le_bytes-to_le_bytes 4 (length (b ∷ bs)) size,
          some_bytes,
        )
        refl

  on_payload-event :
      (h : Handshake (List Received)) (rest : List Received) (calls : List HandlerCall)
      (m : Message) (next : Step (List Received) Bytes)
      → (m.msg_type == 0) ≡ false
      → on_payload (script env) quiet m.msg_type m.payload next (at_frames h rest calls)
        ≡ next (at_frames h rest (calls ++ calls_of m))
  unfolding on_payload continue_with guard_calls
  on_payload-event h rest calls m next e =
      rw (e, call_all-quiet (calls_of m) (record { calls = calls; panicked = false })) refl

  rounds :
      (a b : ℕ) (h : Handshake (List Received))
      → a ≡ b
      → payload_loop (script env) quiet a h ≡ payload_loop (script env) quiet b h
  rounds a b h e = ap (λ k. payload_loop (script env) quiet k h) e

  loop-estimates :
      (h : Handshake (List Received)) (rest : List Received) (calls : List HandlerCall) (t : ℕ)
      (ns : List ℕ) (k : ℕ)
      → payload_loop
          (script env)
          quiet
          (length ns + k)
          (at_frames h (estimate_frames t ns rest) calls)
        ≡ payload_loop (script env) quiet k (at_frames h rest calls)
  loop-estimates h rest calls t [] k = rounds (0 + k) k (at_frames h rest calls) (omega arith)
  loop-estimates h rest calls t (n ∷ ns) k =
      rounds (suc (length ns) + k) (suc (length ns + k))
        (at_frames h (estimate_frames t (n ∷ ns) rest) calls) (omega arith)
      ∙ loop-estimate h (estimate_frames t ns rest) calls t n (length ns + k)
      ∙ loop-estimates h rest calls t ns k

  loop-message :
      (h : Handshake (List Received)) (rest : List Received) (calls : List HandlerCall)
      (m : Message) (k : ℕ)
      → Sendable m
      → payload_loop
          (script env)
          quiet
          (length m.estimates + suc k)
          (at_frames h (frames_before m rest) calls)
        ≡ on_payload
            (script env)
            quiet
            m.msg_type
            m.payload
            (payload_loop (script env) quiet k)
            (at_frames h rest calls)
  loop-message h rest calls m k s =
      loop-estimates h
        (received binary (header_bytes (hdr 0 m.msg_type (length m.payload)))
          ∷ payload_frames m.payload rest)
        calls m.msg_type m.estimates (suc k)
      ∙ loop-exact h rest calls m.msg_type m.payload k s.in_service s.size

  -- Other messages than answers.
  abbrev pub IsPassed : Message → Type 0
  IsPassed m = Sendable m × ((m.msg_type == 0) ≡ false)

  loop-messages :
      (h : Handshake (List Received)) (ms : List Message) (rest : List Received)
      (calls : List HandlerCall) (k : ℕ)
      → All IsPassed ms
      → payload_loop
          (script env)
          quiet
          (headers ms + k)
          (at_frames h (all_frames_before ms rest) calls)
        ≡ payload_loop (script env) quiet k (at_frames h rest (calls ++ all_calls ms))
  loop-messages h [] rest calls k p =
      rounds (0 + k) k (at_frames h rest calls) (omega arith)
      ∙ ap (λ (z : List HandlerCall). payload_loop (script env) quiet k (at_frames h rest z))
          (sym (append-nil calls))
  loop-messages h (m ∷ ms) rest calls k p =
      rounds (length m.estimates + 1 + headers ms + k) (length m.estimates + suc (headers ms + k))
        (at_frames h (frames_before m (all_frames_before ms rest)) calls) (omega arith)
      ∙ loop-message h (all_frames_before ms rest) calls m (headers ms + k) p.0.0
      ∙ on_payload-event h (all_frames_before ms rest) calls m
          (payload_loop (script env) quiet (headers ms + k)) p.0.1
      ∙ loop-messages h ms rest (calls ++ calls_of m) k p.1
      ∙ ap (λ (z : List HandlerCall). payload_loop (script env) quiet k (at_frames h rest z))
          (append_assoc calls (calls_of m) (all_calls ms))

  -- Where 64 header frames bring no answer, the request fails as a protocol error and reads no more.
  pub read_payload-budget :
      (h : Handshake (List Received)) (ms : List Message) (rest : List Received)
      (calls : List HandlerCall)
      → All IsPassed ms
      → headers ms ≡ 64
      → read_payload (script env) quiet (at_frames h (all_frames_before ms rest) calls)
        ≡ (at_frames h rest (calls ++ all_calls ms), err protocol)
  unfolding read_payload payload_loop
  read_payload-budget h ms rest calls p e =
      rounds 64 (headers ms + 0) (at_frames h (all_frames_before ms rest) calls) (omega arith)
      ∙ loop-messages h ms rest calls 0 p
