-- ===== src/Pending/Scan/Runs.antt =====
-- The search in a concrete text.
use loxwebsocketclient_rs.Prelude.{◌≡◌, refl, arith, some, [], ◌++◌, Bytes}
use loxwebsocketclient_rs.Str.{codes, starts_with, strip_prefix}
use loxwebsocketclient_rs.Pending.Scan.{
  find_either, position, control_key, find_control_key, is_ascii_whitespace, extract_ll_control,
}
use loxwebsocketclient_rs.Samples.{plain_primitives}
use loxwebsocketclient_rs.Pending.Scan.Occurrence.{occurrence}
use loxwebsocketclient_rs.Pending.Scan.Key.{find_control_key-occurrence}
use loxwebsocketclient_rs.Pending.Scan.Field.{extract_ll_control-field}
use loxwebsocketclient_rs.Pending.Scan.Find.{find_either-position}

abbrev text : Bytes
text = codes "0123456789abcdefx\"y"

-- The quote stands behind two words.
find_either-position_example : find_either text b'"' b'z' ≡ some 17
unfolding position
find_either-position_example =
    find_either-position b'"' b'z' (omega arith) (omega arith) text (omega arith)

abbrev answer : Bytes
answer = codes "{\"LL\":{\"control\": \"dev/x\",\"Code\":\"200\"}}"

find_control_key-occurrence_example : find_control_key answer ≡ some 7
unfolding occurrence starts_with strip_prefix
find_control_key-occurrence_example = find_control_key-occurrence answer (omega arith)

key_first : occurrence control_key (codes "{\"LL\":{" ++ control_key) ≡ some 7
unfolding occurrence starts_with strip_prefix
key_first = refl

extract_ll_control-field_example : extract_ll_control plain_primitives answer ≡ some (codes "dev/x")
unfolding is_ascii_whitespace
extract_ll_control-field_example =
    extract_ll_control-field plain_primitives (codes "{\"LL\":{") [] (codes " ") (codes "dev/x")
      (codes ",\"Code\":\"200\"}}") (omega arith) key_first (omega arith) tt (refl, tt)
      (refl, (refl, (refl, (refl, (refl, tt))))) (refl, (refl, (refl, (refl, (refl, tt)))))
      (omega arith) refl
