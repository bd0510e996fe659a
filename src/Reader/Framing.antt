-- ===== src/Reader/Framing.antt =====
-- The frames of a message, and what the reader makes of them.
use loxwebsocketclient_rs.Prelude.{
  ℕ, ◌^◌, ◌<◌, ◌≡◌, false, Option, some, List, [], ◌∷◌, ◌++◌, ◌==◌, length, All, Bytes, to_le_bytes,
}
use loxwebsocketclient_rs.Error.{Result, ok, err}
use loxwebsocketclient_rs.Proto.Header.{WsBinHdr, to_u8, out_of_service, header_bytes}
use loxwebsocketclient_rs.Reader.{
  ReadOutcome, read_failed, FrameExpect, payload, start, binary, Incoming, frame, run,
}

-- A message, and how the Miniserver sends it: with the lengths that estimated headers announce
-- before the exact one.
pub record Message : Type 0 where
  pub msg_type : ℕ
  pub estimates : List ℕ
  pub payload : Bytes

pub record Sendable (m : Message) : Type 0 where
  pub in_service : (m.msg_type == to_u8 out_of_service) ≡ false
  pub size : length m.payload < 256 ^ 4
  pub estimate_sizes : All (λ n. n < 256 ^ 4) m.estimates

abbrev pub hdr : ℕ → ℕ → ℕ → WsBinHdr
hdr info msg_type len = record {
  bin_type = 3;
  identifier = msg_type;
  info = info;
  reserved = 0;
  len = to_le_bytes 4 len;
}

abbrev pub estimated : ℕ → List ℕ → List Incoming
estimated msg_type [] = []
estimated msg_type (n ∷ ns) =
    frame 0 binary (header_bytes (hdr 1 msg_type n)) ∷ estimated msg_type ns

-- An empty payload has no frame.
abbrev pub payload_frame : Bytes → List Incoming
payload_frame [] = []
payload_frame (b ∷ bs) = frame 0 binary (b ∷ bs) ∷ []

abbrev pub frames : Message → List Incoming
frames m =
    estimated m.msg_type m.estimates
    ++ (frame 0 binary (header_bytes (hdr 0 m.msg_type (length m.payload)))
        ∷ payload_frame m.payload)

abbrev pub all_frames : List Message → List Incoming
all_frames [] = []
all_frames (m ∷ ms) = frames m ++ all_frames ms

module _ {S : Type 0} (dispatch : ℕ → Bytes → S → S × Result (Unit {0})) where
  -- The messages handed on in order, up to the first that fails.
  abbrev pub deliver : List Message → S → S × Result (Unit {0})
  deliver [] s = (s, ok tt)
  deliver (m ∷ ms) s =
      let out = dispatch m.msg_type m.payload s in
      let rest = deliver ms out.0 in elim out.1 [ ok _ ↦ rest | err e ↦ (out.0, err e) ]

module _ {S : Type 0} (dispatch : ℕ → Bytes → S → S × Result (Unit {0})) (idle : ℕ) where
  -- What the loop does with a message that was handed on.
  abbrev handed :
      FrameExpect → List Incoming → S × Result (Unit {0}) → (FrameExpect × S) × Option ReadOutcome
  handed x is (t, ok _) = run dispatch idle start is t
  handed x is (t, err e) = ((x, t), some (read_failed e))

  -- The reader against a delivery: after messages that were all handed on it goes on with what
  -- follows, expecting a header, and at one that failed it stops with that error.
  abbrev pub Delivered :
      List Incoming → S × Result (Unit {0}) → (FrameExpect × S) × Option ReadOutcome → Type 0
  Delivered is (t, ok _) out = out ≡ run dispatch idle start is t
  Delivered is (t, err e) out = (out.0.1 ≡ t) × (out.1 ≡ some (read_failed e))
