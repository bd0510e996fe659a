-- ===== src/Pending/Runs.antt =====
-- Runs of the queue at concrete inputs.
use loxwebsocketclient_rs.Prelude.{
  inl, inr, ℕ, ◌≡◌, refl, arith, true, Option, none, some, List, [], ◌∷◌, ◌++◌, replicate, IsByte,
  Bytes,
}
use loxwebsocketclient_rs.Str.{codes}
use loxwebsocketclient_rs.Pending.{
  PendingEntry, PendingQueue, resolve, new, push, next_deadline, expire, cmd_label, decode_control,
}
use loxwebsocketclient_rs.Pending.Fifo.{
  Op, push_op, answer_op, expire_op, fail_op, run, step, channels, waiters, run-fifo,
}
use loxwebsocketclient_rs.Pending.Echo.{padded, slashed_without_j, resolve-Spelling}
use loxwebsocketclient_rs.Session.{Primitives, SessionKeys, Env, encrypt}
use loxwebsocketclient_rs.Session
use loxwebsocketclient_rs.Session.Salt.{IsEnv, new-IsSalt}
use loxwebsocketclient_rs.Error.{ok}
use loxwebsocketclient_rs.Samples.Base64
use loxwebsocketclient_rs.Pending.RoundTrip.{CryptoLaws, decode_control-encrypt}

-- A cipher that changes nothing.
abbrev plain : Primitives
plain = record {
  cbc_encrypt = λ k i d. some d;
  cbc_decrypt = λ k i d. some d;
  b64_encode = λ d. d;
  b64_decode = λ d. some d;
  percent_decode = λ d. d;
  is_utf8 = λ d. true;
}

abbrev no_keys : SessionKeys
no_keys = record { key = []; iv = [] }

abbrev command : Bytes → Option ℕ → ℕ → PendingEntry
command text resp deadline = record {
  plaintext_cmd = text;
  wire_cmd = text;
  resp = resp;
  deadline = deadline;
}

abbrev ops : List Op
ops =
    push_op (command (codes "jdev/sys/getkey") (some 7) 10)
    ∷ push_op (command (codes "jdev/sps/io/a/on") none 11)
    ∷ push_op (command (codes "jdev/cfg/api") (some 9) 30)
    ∷ answer_op (some (codes "dev/sys/getkey")) (codes "{}")
    ∷ expire_op 20
    ∷ []

run-fifo_example :
    (channels (run plain no_keys ops new).1 ++ waiters (run plain no_keys ops new).0.entries
      ≡ 7 ∷ 9 ∷ [])
    × (channels (
          (run plain no_keys ops new).1
          ++ (step plain no_keys fail_op (run plain no_keys ops new).0).1)
        ≡ 7 ∷ 9 ∷ [])
run-fifo_example = run-fifo plain no_keys ops

abbrev two_waiting : PendingQueue
two_waiting = record {
  entries = command (codes "a") (some 1) 5 ∷ command (codes "b") none 8 ∷ [];
  mismatches = 0;
  unsolicited = 0;
  timeouts = 3;
}

abbrev third : PendingEntry
third = command (codes "c") (some 2) 8

head_left : next_deadline (expire 5 two_waiting).0 ≡ some 8
unfolding next_deadline expire loxwebsocketclient_rs.Pending.expire_loop
head_left = refl

resolve-Spelling_example :
    resolve plain (some (padded (codes " ") (codes "/dev/x") 2 (13 ∷ 10 ∷ []))) no_keys (record {
      entries = command (codes "jdev/x") (some 4) 9 ∷ [];
      mismatches = 0;
      unsolicited = 0;
      timeouts = 0;
    })
    ≡ (
      record { entries = []; mismatches = 0; unsolicited = 0; timeouts = 0 },
      some
          (record { plaintext_cmd = codes "jdev/x"; resp = some 4; matched = true; actual = none }),
    )
resolve-Spelling_example =
    resolve-Spelling plain no_keys (command (codes "jdev/x") (some 4) 9) [] 0 0 0 2 (codes "x")
      (codes " ") (codes "/dev/x") (13 ∷ 10 ∷ []) ((omega arith, omega arith), tt) (inr refl, tt)
      (inl (omega arith, omega arith), (inl (omega arith, omega arith), tt)) refl slashed_without_j

-- Base64 and percent-decoding, and a cipher that changes nothing.
abbrev with_base64 : Primitives
with_base64 = record plain {
  b64_encode = Base64.encode;
  b64_decode = Base64.decode;
  percent_decode = Base64.percent_decode;
}

with_base64-CryptoLaws : CryptoLaws with_base64 no_keys
with_base64-CryptoLaws = record {
  cipher = λ text bytes aligned. (text, refl, refl, refl, bytes);
  base64 = λ raw bytes.
      (Base64.decode-encode raw bytes, Base64.encode-IsBase64 raw bytes, Base64.length-encode raw);
  percent = Base64.percent_decode-Decodes;
  utf8_nothing = refl;
  utf8_ascii = λ a b h. refl;
}

abbrev salt_env : Env
salt_env = record { now_secs = 1000; raw = replicate 16 171 }

salt_env-IsEnv : IsEnv salt_env
salt_env-IsEnv = record {
  raw_len = refl;
  raw_range =
      let h : IsByte 171 = omega arith in
      (h, (h, (h, (h, (h, (h, (h, (h, (h, (h, (h, (h, (h, (h, (h, (h, tt))))))))))))))));
}

decode_control-encrypt_example :
    (wire : Bytes) × ((encrypt with_base64 no_keys salt_env Session.new (codes "dev/x")).1
      ≡ ok wire)
    × (decode_control with_base64 wire no_keys ≡ some (codes "dev/x"))
decode_control-encrypt_example =
    decode_control-encrypt with_base64 no_keys with_base64-CryptoLaws salt_env Session.new
      (codes "dev/x") salt_env-IsEnv new-IsSalt (refl, (refl, (refl, (refl, (refl, tt)))))
      (omega arith) refl
