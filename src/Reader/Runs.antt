-- ===== src/Reader/Runs.antt =====
-- The reader at concrete frames.
use loxwebsocketclient_rs.Prelude.{ℕ, List, [], ◌∷◌, ◌++◌, Bytes}
use loxwebsocketclient_rs.Error.{Result, ok}
use loxwebsocketclient_rs.Reader.Framing.{Message}

-- Collects the messages.
abbrev collect : ℕ → Bytes → List (ℕ × Bytes) → List (ℕ × Bytes) × Result (Unit {0})
collect msg_type payload seen = (seen ++ ((msg_type, payload) ∷ []), ok tt)

abbrev messages : List Message
messages =
    record { msg_type = 2; estimates = 9 ∷ 5 ∷ []; payload = 1 ∷ 2 ∷ 3 ∷ [] }
    ∷ record { msg_type = 6; estimates = []; payload = [] }
    ∷ []
