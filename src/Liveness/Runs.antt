-- ===== src/Liveness/Runs.antt =====
-- Keepalives at concrete inputs.
use loxwebsocketclient_rs.Prelude.{◌≡◌, List, [], ◌∷◌}
use loxwebsocketclient_rs.Liveness.{
  new, missed, Beat, sent_beat, ack_beat, beats, missed-outstanding,
}

abbrev some_beats : List Beat
some_beats = ack_beat ∷ sent_beat 1 ∷ sent_beat 2 ∷ ack_beat ∷ sent_beat 3 ∷ []

missed-outstanding_example : missed (beats some_beats new) ≡ 2
missed-outstanding_example = missed-outstanding some_beats
