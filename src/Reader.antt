-- ===== src/Reader.antt =====
-- src/client/reader.rs: the loop that takes frames apart. What a message does is the parameter
-- `dispatch`, on a state `S`. A frame arrives some seconds after the reader began to wait; the
-- reassembling of fragments and the answers to control frames are the WebSocket library's.
pub mod Framing
mod Runs
use loxwebsocketclient_rs.Prelude.{
  ℕ, zero, suc, ◌+◌, ◌*◌, ◌≡◌, Bool, true, false, Option, none, some, List, [], ◌∷◌, ltb, ◌==◌,
  if◌then◌else◌, Bytes,
}
use loxwebsocketclient_rs.Error.{Error, Result, ok, err}
use loxwebsocketclient_rs.Policy.{read_timeout}
use loxwebsocketclient_rs.Proto.Header.{
  WsBinHdr, parse_header, payload_len, is_estimated, to_u8, out_of_service,
}

-- Why the reader stopped.
pub data ReadOutcome : Type 0 where
  read_closed : Option ℕ → ReadOutcome
  idle_timeout : ReadOutcome
  read_failed : Error → ReadOutcome

pub data FrameExpect : Type 0 where
  header : ℕ → FrameExpect
  payload : ℕ → ℕ → FrameExpect

abbrev pub start : FrameExpect
start = header 0

unfoldable pub announced_len : FrameExpect → ℕ
announced_len (header announced) = announced
announced_len (payload msg_type len) = len

unfoldable pub parse_close_code : Bytes → Option ℕ
parse_close_code [] = none
parse_close_code (a ∷ []) = none
parse_close_code (a ∷ b ∷ rest) = some (a * 256 + b)

pub data OpCode : Type 0 where
  continuation text binary close ping pong : OpCode

-- What the socket gives: a frame or an error of the stream, after so many seconds.
pub data Incoming : Type 0 where
  frame : ℕ → OpCode → Bytes → Incoming
  broken : ℕ → Error → Incoming

abbrev pub after : Incoming → ℕ
after (frame seconds opcode bytes) = seconds
after (broken seconds e) = seconds

module _ {S : Type 0} (dispatch : ℕ → Bytes → S → S × Result (Unit {0})) where
  -- The expectation and the state after a frame, and whether the session ends.
  abbrev pub Step : Type 0
  Step = (FrameExpect × S) × Result (Option ReadOutcome)

  -- `self.dispatch(..).await?; *expect = FrameExpect::START`.
  abbrev pub dispatched : FrameExpect → S × Result (Unit {0}) → Step
  dispatched expect (s, ok _) = ((start, s), ok none)
  dispatched expect (s, err e) = ((expect, s), err e)

  unfoldable pub on_header : FrameExpect → WsBinHdr → S → Step
  on_header expect hdr s =
      if is_estimated hdr
      then ((header (payload_len hdr), s), ok none)
      else if hdr.identifier == to_u8 out_of_service
      then ((expect, s), ok (some (read_closed (some 1012))))
      else if payload_len hdr == 0
      then dispatched expect (dispatch hdr.identifier [] s)
      else ((payload hdr.identifier (payload_len hdr), s), ok none)

  abbrev pub on_parsed : FrameExpect → Result (Option WsBinHdr) → S → Step
  on_parsed expect (ok (some hdr)) s = on_header expect hdr s
  on_parsed expect (ok none) s = ((expect, s), ok none)
  on_parsed expect (err e) s = ((expect, s), ok none)

  unfoldable pub on_data_frame : FrameExpect → Bytes → S → Step
  on_data_frame (header announced) bytes s = on_parsed (header announced) (parse_header bytes) s
  on_data_frame (payload msg_type len) bytes s =
      dispatched (payload msg_type len) (dispatch msg_type bytes s)

  -- One frame or error that came in time.
  unfoldable pub on_incoming : FrameExpect → Incoming → S → Step
  on_incoming expect (broken seconds e) s = ((expect, s), err e)
  on_incoming expect (frame seconds close bytes) s =
      ((expect, s), ok (some (read_closed (parse_close_code bytes))))
  on_incoming expect (frame seconds text bytes) s = on_data_frame expect bytes s
  on_incoming expect (frame seconds binary bytes) s = on_data_frame expect bytes s
  on_incoming expect (frame seconds continuation bytes) s = ((expect, s), ok none)
  on_incoming expect (frame seconds ping bytes) s = ((expect, s), ok none)
  on_incoming expect (frame seconds pong bytes) s = ((expect, s), ok none)

  -- What the loop returns; its last component is `none` while it reads.
  abbrev pub Stopped : Type 0
  Stopped = (FrameExpect × S) × Option ReadOutcome

  unfoldable pub proceed : (FrameExpect → S → Stopped) → Step → Stopped
  proceed loop ((expect, s), err e) = ((expect, s), some (read_failed e))
  proceed loop ((expect, s), ok (some outcome)) = ((expect, s), some outcome)
  proceed loop ((expect, s), ok none) = loop expect s

  -- The loop, over what the socket gives.
  unfoldable pub run : ℕ → FrameExpect → List Incoming → S → Stopped
  run idle expect [] s = ((expect, s), none)
  run idle expect (i ∷ is) s =
      if ltb (read_timeout idle (announced_len expect)) (after i)
      then ((expect, s), some idle_timeout)
      else proceed (λ expect' s'. run idle expect' is s') (on_incoming expect i s)
