-- ===== src/Facade/Queue.antt =====
-- Which controls reach the writer.
use loxwebsocketclient_rs.Prelude.{
  ap₂, append-nil, ◌⊎◌, inl, inr, true, ◌+◌, ◌≤◌, ◌≡◌, refl, sym, ap, ◌∙◌, arith, false, List, [],
  ◌∷◌, ◌++◌, append_assoc, ltb, length, length-append, if-cases, Bytes,
}
use loxwebsocketclient_rs.Error.{Result, ok, err}
use loxwebsocketclient_rs.Metrics.{ConnState}
use loxwebsocketclient_rs.Writer.{IoCommand, control}
use loxwebsocketclient_rs.Facade.{
  LoxClient, live, require_live, Sent, try_send, count_refused, if_live, try_send_control,
}

-- A call of `try_send_control`, and what the other tasks do: the writer takes a command, the session's
-- state changes, the receiver goes away with what waits in it.
pub data Act : Type 0 where
  control_call : Bytes → Bytes → Act
  takes closes : Act
  becomes : ConnState → Act

-- The client, what the writer took, what was lost with the receiver, and the controls whose calls
-- returned `Ok`.
pub record Trace : Type 0 where
  pub client : LoxClient
  pub taken : List IoCommand
  pub lost : List IoCommand
  pub accepted : List IoCommand

abbrev called : IoCommand → Trace → LoxClient × Result (Unit {0}) → Trace
called cmd t (c, ok _) = record t { client = c; accepted = t.accepted ++ (cmd ∷ []) }
called cmd t (c, err e) = record t { client = c }

abbrev took : List IoCommand → Trace → Trace
took [] t = t
took (cmd ∷ rest) t = record {
  client = record t.client { queue = rest };
  taken = t.taken ++ (cmd ∷ []);
  lost = t.lost;
  accepted = t.accepted;
}

abbrev pub act : Act → Trace → Trace
act (control_call uuid value) t =
    called (control uuid value) t (try_send_control uuid value t.client)
act takes t = took t.client.queue t
act closes t = record t {
  client = record t.client { receiver_open = false; queue = [] };
  lost = t.lost ++ t.client.queue;
}
act (becomes s) t = record t { client = record t.client { state = s } }

abbrev pub acts : List Act → Trace → Trace
acts [] t = t
acts (a ∷ as') t = acts as' (act a t)

-- What was accepted is what the writer took, then what was lost, then what waits in the channel, in
-- this order; nothing is lost before the receiver goes away and nothing waits after it; and the
-- channel is not over its capacity.
abbrev pub IsDelivery : Trace → Type 0
IsDelivery t =
    (t.accepted ≡ t.taken ++ (t.lost ++ t.client.queue))
    × (length t.client.queue ≤ t.client.capacity)
    × (((t.client.receiver_open ≡ true) × (t.lost ≡ []))
        ⊎ ((t.client.receiver_open ≡ false) × (t.client.queue ≡ [])))

-- The outcomes of a call: the channel as before, or with the command behind it and not over its
-- capacity.
abbrev Sends : IoCommand → LoxClient → LoxClient × Result (Unit {0}) → Type 0
Sends cmd c (c', ok _) =
    (c'.queue ≡ c.queue ++ (cmd ∷ []))
    × (length c.queue + 1 ≤ c.capacity)
    × (c'.capacity ≡ c.capacity)
    × (c.receiver_open ≡ true)
    × (c'.receiver_open ≡ c.receiver_open)
Sends cmd c (c', err e) =
    (c'.queue ≡ c.queue) × (c'.capacity ≡ c.capacity) × (c'.receiver_open ≡ c.receiver_open)

try_send-Sends : (cmd : IoCommand) (c : LoxClient) → Sends cmd c (count_refused (try_send cmd c))
unfolding try_send
try_send-Sends cmd c =
    if-cases P c.receiver_open _ _
      (λ opened.
        if-cases P (ltb (length c.queue) c.capacity) _ _
          (λ room. (refl, ground arith, refl, opened, refl)) (λ _. (refl, refl, refl)))
      (λ _. (refl, refl, refl))
  where
    P : LoxClient × Sent → Type 0
    P out = Sends cmd c (count_refused out)

if_live-Sends :
    (cmd : IoCommand) (c : LoxClient)
    → Sends cmd c (if_live (require_live c) (λ c'. count_refused (try_send cmd c')))
unfolding if_live require_live
if_live-Sends cmd c =
    if-cases (λ r. Sends cmd c (if_live r (λ c'. count_refused (try_send cmd c')))) (live c) _ _
      (λ _. try_send-Sends cmd c) (λ _. (refl, refl, refl))

-- A command behind the others, where nothing was lost.
accept :
    (accepted taken lost queue : List IoCommand) (cmd : IoCommand)
    → accepted ≡ taken ++ (lost ++ queue)
    → accepted ++ (cmd ∷ []) ≡ taken ++ (lost ++ (queue ++ (cmd ∷ [])))
accept accepted taken lost queue cmd e =
    ap (λ (z : List IoCommand). z ++ (cmd ∷ [])) e
    ∙ append_assoc taken (lost ++ queue) (cmd ∷ [])
    ∙ ap (λ (z : List IoCommand). taken ++ z) (append_assoc lost queue (cmd ∷ []))

called-IsDelivery :
    (cmd : IoCommand) (t : Trace) (out : LoxClient × Result (Unit {0}))
    → Sends cmd t.client out
    → IsDelivery t
    → IsDelivery (called cmd t out)
called-IsDelivery cmd t (c, ok _) (q, room, cap, opened, same) (e, fits, inl (o, none_lost)) = (
  accept t.accepted t.taken t.lost t.client.queue cmd e
      ∙ ap (λ (z : List IoCommand). t.taken ++ (t.lost ++ z)) (sym q),
  rw (q, cap, length-append t.client.queue (cmd ∷ [])) room,
  inl (same ∙ o, none_lost),
)
called-IsDelivery cmd t (c, ok _) (q, room, cap, opened, same) (e, fits, inr (shut, _)) =
    absurd (cc)
called-IsDelivery cmd t (c, err x) (q, cap, same) (e, fits, inl (o, none_lost)) = (
  e ∙ ap (λ (z : List IoCommand). t.taken ++ (t.lost ++ z)) (sym q),
  rw (q, cap) fits,
  inl (same ∙ o, none_lost),
)
called-IsDelivery cmd t (c, err x) (q, cap, same) (e, fits, inr (shut, empty)) = (
  e ∙ ap (λ (z : List IoCommand). t.taken ++ (t.lost ++ z)) (sym q),
  rw (q, cap) fits,
  inr (same ∙ shut, q ∙ empty),
)

took-IsDelivery :
    (q : List IoCommand) (t : Trace) → t.client.queue ≡ q → IsDelivery t → IsDelivery (took q t)
took-IsDelivery [] t e h = h
took-IsDelivery (cmd ∷ rest) t e (all, fits, inl (o, none_lost)) = (
  all
      ∙ ap₂ (λ (l q : List IoCommand). t.taken ++ (l ++ q)) none_lost e
      ∙ sym (append_assoc t.taken (cmd ∷ []) rest)
      ∙ ap (λ (l : List IoCommand). (t.taken ++ (cmd ∷ [])) ++ (l ++ rest)) (sym none_lost),
  omega (arith, ap length e, fits),
  inl (o, none_lost),
)
took-IsDelivery (cmd ∷ rest) t e (all, fits, inr (shut, empty)) =
    let never : cmd ∷ rest ≡ [] = sym e ∙ empty in absurd (cc)

closes-IsDelivery : (t : Trace) → IsDelivery t → IsDelivery (act closes t)
closes-IsDelivery t (all, fits, h) = (
  all ∙ ap (λ (z : List IoCommand). t.taken ++ z) (sym (append-nil (t.lost ++ t.client.queue))),
  omega arith,
  inr (refl, refl),
)

act-IsDelivery : (a : Act) (t : Trace) → IsDelivery t → IsDelivery (act a t)
unfolding try_send_control
act-IsDelivery (control_call uuid value) t h =
    called-IsDelivery (control uuid value) t _ (if_live-Sends (control uuid value) t.client) h
act-IsDelivery takes t h = took-IsDelivery t.client.queue t refl h
act-IsDelivery closes t h = closes-IsDelivery t h
act-IsDelivery (becomes s) t h = h

-- However calls of `try_send_control` interleave with the writer, with changes of the session's state
-- and with its end: the writer took a first part of the controls whose calls returned `Ok`, each once and
-- in the order of the calls; while the channel is open, the rest of them wait in it, and no more than
-- its capacity; when the receiver goes away, what waited in it is lost, and nothing is accepted after
-- that. All this, if it holds at the start.
pub acts-IsDelivery : (as' : List Act) (t : Trace) → IsDelivery t → IsDelivery (acts as' t)
acts-IsDelivery [] t h = h
acts-IsDelivery (a ∷ as') t h = acts-IsDelivery as' (act a t) (act-IsDelivery a t h)
