-- ===== src/Pending.antt =====
-- src/client/pending.rs: the queue of commands that wait for an answer, and how an answer is matched
-- with its command. A oneshot sender is the number of its channel, and a send is a reply that an
-- operation returns; an instant is a number.
pub mod Fifo
pub mod Expiry
pub mod Label
pub mod Echo
pub mod RoundTrip
pub mod Scan
mod Runs
use loxwebsocketclient_rs.Prelude.{
  ℕ, zero, suc, ◌+◌, ◌-◌, ◌≡◌, min, Bool, true, false, Option, none, some, List, [], ◌∷◌, ◌++◌, ltb,
  if◌then◌else◌, length, take, Bytes,
}
use loxwebsocketclient_rs.Error.{timeout, closed, Result, ok, err}
use loxwebsocketclient_rs.Str.{
  codes, bytes_eq, strip_prefix, starts_with, contains, split, trim, trim_end_nul,
}
use loxwebsocketclient_rs.Session.{
  Primitives, SessionKeys, cmd_encrypt, decrypt_control_response, strip_salt_prefix,
}

pub record PendingEntry : Type 0 where
  pub plaintext_cmd : Bytes
  pub wire_cmd : Bytes
  pub resp : Option ℕ
  pub deadline : ℕ

pub record Resolved : Type 0 where
  pub plaintext_cmd : Bytes
  pub resp : Option ℕ
  pub matched : Bool
  pub actual : Option Bytes

pub record PendingQueue : Type 0 where
  pub entries : List PendingEntry
  pub mismatches : ℕ
  pub unsolicited : ℕ
  pub timeouts : ℕ

-- What goes into a channel.
pub record Reply : Type 0 where
  pub channel : ℕ
  pub result : Result Bytes

-- `if let Some(resp) = resp { let _ = resp.send(result) }`.
abbrev pub send : Option ℕ → Result Bytes → List Reply
send none result = []
send (some channel) result = record { channel = channel; result = result } ∷ []

unfoldable pub new : PendingQueue
new = record { entries = []; mismatches = 0; unsolicited = 0; timeouts = 0 }

unfoldable pub next_deadline : PendingQueue → Option ℕ
next_deadline q = elim q.entries [ [] ↦ none | e ∷ es ↦ some e.deadline ]

unfoldable pub push : PendingEntry → PendingQueue → PendingQueue
push e q = record q { entries = q.entries ++ (e ∷ []) }

unfoldable pub unwrap_or : Bytes → Option Bytes → Bytes
unwrap_or d none = d
unwrap_or d (some s) = s

-- Without the `j` of `jdev/`.
unfoldable pub fold_jdev : Bytes → Bytes
fold_jdev s = elim (strip_prefix (codes "j") s) [
  | none ↦ s
  | some rest ↦ if starts_with (codes "dev/") rest then rest else s
]

unfoldable pub canonical : Bytes → Bytes
canonical cmd =
    let s : Bytes = trim_end_nul (trim cmd) in fold_jdev (unwrap_or s (strip_prefix (codes "/") s))

-- The `for` loop: the segments left, whether one went before, and `end`.
unfoldable pub segments_end : Bool → ℕ → List Bytes → ℕ
segments_end later end [] = end
segments_end later end (segment ∷ segments) =
    segments_end true ((if later then end + 1 else end) + length segment) segments

abbrev pub take_list : ℕ → List Bytes → List Bytes
take_list zero ss = []
take_list (suc n) [] = []
take_list (suc n) (s ∷ ss) = s ∷ take_list n ss

unfoldable pub take_segments : Bytes → ℕ → Bytes
take_segments s n =
    let parts = split b'/' s in
    take (min (segments_end false 0 (take_list n (parts.0 ∷ parts.1))) (length s)) s

unfoldable pub verb : Bytes → Bytes
verb cmd =
    let s : Bytes = canonical cmd in take_segments s (if starts_with (codes "dev/") s then 3 else 1)

unfoldable pub control_matches : Bytes → Bytes → Bool
control_matches control plaintext_cmd = bytes_eq (verb control) (verb plaintext_cmd)

unfoldable pub cmd_label : Bytes → Bytes
cmd_label cmd =
    if starts_with (codes "jdev/") cmd
    then take_segments cmd 3
    else if starts_with (codes "dev/") cmd
    then take_segments cmd 3
    else take_segments cmd 1

-- The loop of `expire`: what is left, the replies, and `expired`.
pub record Expired : Type 0 where
  pub left : List PendingEntry
  pub replies : List Reply
  pub count : ℕ

unfoldable pub expire_loop : ℕ → List PendingEntry → Expired
expire_loop now [] = record { left = []; replies = []; count = 0 }
expire_loop now (e ∷ es) =
    let rest = expire_loop now es in
    if ltb now e.deadline then record { left = e ∷ es; replies = []; count = 0 } else record {
      left = rest.left;
      replies = send e.resp (err timeout) ++ rest.replies;
      count = suc rest.count;
    }

unfoldable pub expire : ℕ → PendingQueue → PendingQueue × (List Reply × ℕ)
expire now q =
    let out = expire_loop now q.entries in
    (record q { entries = out.left; timeouts = q.timeouts + out.count }, (out.replies, out.count))

unfoldable pub fail_replies : List PendingEntry → List Reply
fail_replies [] = []
fail_replies (e ∷ es) = send e.resp (err closed) ++ fail_replies es

unfoldable pub fail_all : PendingQueue → PendingQueue × (List Reply × ℕ)
fail_all q = (record q { entries = [] }, (fail_replies q.entries, length q.entries))

unfoldable pub note_unsolicited : PendingQueue → PendingQueue
note_unsolicited q = record q { unsolicited = q.unsolicited + 1 }

module _ (p : Primitives) where
  unfoldable pub decode_control : Bytes → SessionKeys → Option Bytes
  decode_control control keys =
      if contains cmd_encrypt control
      then elim (decrypt_control_response p keys control) [
        | ok plain ↦ some (strip_salt_prefix plain)
        | err e ↦ none
      ]
      else some control

  abbrev pub is_some_and : (Bytes → Bool) → Option Bytes → Bool
  is_some_and test none = false
  is_some_and test (some s) = test s

  -- Whether the answer fits the entry, and the decoded control.
  unfoldable pub matches : Option Bytes → SessionKeys → PendingEntry → Bool × Option Bytes
  matches none keys e = (true, none)
  matches (some ctrl) keys e =
      if bytes_eq (canonical ctrl) (canonical e.wire_cmd)
      then (true, none)
      else let decoded = decode_control ctrl keys in
        (is_some_and (λ plain. control_matches plain e.plaintext_cmd) decoded, decoded)

  -- The first entry answered, against the queue of the others.
  unfoldable pub resolve_head :
      Option Bytes → SessionKeys → PendingEntry → PendingQueue → PendingQueue × Option Resolved
  resolve_head control keys e q =
      let (matched, actual) = matches control keys e in
      (
        record q { mismatches = if matched then q.mismatches else q.mismatches + 1 },
        some (record {
          plaintext_cmd = e.plaintext_cmd;
          resp = e.resp;
          matched = matched;
          actual = actual;
        }),
      )

  unfoldable pub resolve :
      Option Bytes → SessionKeys → PendingQueue → PendingQueue × Option Resolved
  resolve control keys q = elim q.entries [
    | [] ↦ (q, none)
    | e ∷ es ↦ resolve_head control keys e (record q { entries = es })
  ]
