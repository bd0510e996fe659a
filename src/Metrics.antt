-- ===== src/Metrics.antt =====
-- src/metrics.rs: the connection's state, and the counters of the supervisor, of messages and of
-- disconnects; those of commands stand in Writer. A counter is a u64 that is far from
-- wrapping around.
use loxwebsocketclient_rs.Prelude.{
  ℕ, ◌+◌, ◌≡◌, refl, ap, ◌∙◌, arith, inl, inr, Bool, true, false, Option, none, some, List, [], ◌∷◌,
  ltb, ◌==◌, if◌then◌else◌, Bool-cases, get_or, set, replicate,
}

pub data ConnState : Type 0 where
  closed connecting connected reconnecting : ConnState

unfoldable pub as_u8 : ConnState → ℕ
as_u8 closed = 0
as_u8 connecting = 1
as_u8 connected = 2
as_u8 reconnecting = 3

unfoldable pub from_u8 : ℕ → ConnState
from_u8 v =
    if v == 1
    then connecting
    else if v == 2
    then connected
    else if v == 3
    then reconnecting
    else closed

pub record MetricsState : Type 0 where
  pub connects : ℕ
  pub reconnects : ℕ
  pub reconnect_attempts : ℕ
  pub reconnect_failures : ℕ
  pub disconnects : ℕ
  pub messages_received : ℕ
  pub by_type : List ℕ
  pub by_close_code : List (Option ℕ × ℕ)
  pub connected_since : Option ℕ

abbrev pub message_type_count : ℕ
message_type_count = 8

abbrev pub new : MetricsState
new = record {
  connects = 0;
  reconnects = 0;
  reconnect_attempts = 0;
  reconnect_failures = 0;
  disconnects = 0;
  messages_received = 0;
  by_type = replicate message_type_count 0;
  by_close_code = [];
  connected_since = none;
}

unfoldable pub mark_connected : ℕ → MetricsState → MetricsState
mark_connected now m = record m { connected_since = some now }

abbrev same_code : Option ℕ → Option ℕ → Bool
same_code none none = true
same_code none (some c) = false
same_code (some c) none = false
same_code (some c) (some d) = c == d

-- `*map.entry(code).or_insert(0) += 1`.
unfoldable pub count_code : Option ℕ → List (Option ℕ × ℕ) → List (Option ℕ × ℕ)
count_code code [] = (code, 1) ∷ []
count_code code ((c, n) ∷ rest) =
    let others = count_code code rest in
    if same_code c code then (c, n + 1) ∷ rest else (c, n) ∷ others

unfoldable pub mark_disconnected : Option ℕ → MetricsState → MetricsState
mark_disconnected code m = record m {
  disconnects = m.disconnects + 1;
  by_close_code = count_code code m.by_close_code;
  connected_since = none;
}

unfoldable pub record_message : ℕ → MetricsState → MetricsState
record_message msg_type m =
    let counted : List ℕ = set m.by_type msg_type (get_or m.by_type msg_type 0 + 1) in
    record m {
      messages_received = m.messages_received + 1;
      by_type = if ltb msg_type message_type_count then counted else m.by_type;
    }

abbrev pub total : List (Option ℕ × ℕ) → ℕ
total [] = 0
total ((c, n) ∷ rest) = n + total rest

count_code-total :
    (code : Option ℕ) (counts : List (Option ℕ × ℕ))
    → total (count_code code counts) ≡ total counts + 1
unfolding count_code
count_code-total code [] = refl
count_code-total code ((c, n) ∷ rest) = elim (Bool-cases (same_code c code)) [
  | inl e ↦ rw e (omega arith)
  | inr e ↦ let ih = count_code-total code rest in rw e (omega arith)
]

mark_disconnected-total :
    (code : Option ℕ) (m : MetricsState)
    → total m.by_close_code ≡ m.disconnects
    → total (mark_disconnected code m).by_close_code ≡ (mark_disconnected code m).disconnects
unfolding mark_disconnected
mark_disconnected-total code m h = count_code-total code m.by_close_code ∙ ap (λ n. n + 1) h

-- What happens to the counters.
pub data Count : Type 0 where
  connect_count : ℕ → Count
  disconnect_count : Option ℕ → Count
  message_count : ℕ → Count

abbrev pub count : Count → MetricsState → MetricsState
count (connect_count now) m = mark_connected now m
count (disconnect_count code) m = mark_disconnected code m
count (message_count msg_type) m = record_message msg_type m

abbrev pub count_all : List Count → MetricsState → MetricsState
count_all [] m = m
count_all (c ∷ cs) m = count_all cs (count c m)

count-total :
    (c : Count) (m : MetricsState)
    → total m.by_close_code ≡ m.disconnects
    → total (count c m).by_close_code ≡ (count c m).disconnects
unfolding mark_connected record_message
count-total (connect_count now) m h = h
count-total (disconnect_count code) m h = mark_disconnected-total code m h
count-total (message_count msg_type) m h = h

count_all-total_from :
    (cs : List Count) (m : MetricsState)
    → total m.by_close_code ≡ m.disconnects
    → total (count_all cs m).by_close_code ≡ (count_all cs m).disconnects
count_all-total_from [] m h = h
count_all-total_from (c ∷ cs) m h = count_all-total_from cs (count c m) (count-total c m h)

-- Whatever is counted, the disconnects by close code add up to the disconnects.
pub count_all-total :
    (cs : List Count) → total (count_all cs new).by_close_code ≡ (count_all cs new).disconnects
count_all-total cs = count_all-total_from cs new refl
