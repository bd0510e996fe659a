-- ===== src/Collect.antt =====
-- src/collect.rs: a table collected into a map. A `HashMap` is a list of entries with different keys;
-- its hasher and its capacity decide nothing but its speed.
pub mod Last
pub mod Hasher
pub mod Distinct
mod Runs
use loxwebsocketclient_rs.Prelude.{
  ℕ, ◌≡◌, Bool, true, false, Option, none, some, List, [], ◌∷◌, map, if◌then◌else◌, Bytes,
}
use loxwebsocketclient_rs.Str.{bytes_eq}
use loxwebsocketclient_rs.Flow.{unwrap_or}
use loxwebsocketclient_rs.Uuid.{format_loxone_bytes}
use loxwebsocketclient_rs.Proto.Value.{walk_values}
use loxwebsocketclient_rs.Proto.Text.{walk_texts}

abbrev pub Map : Type 0 → Type 0
Map V = List (Bytes × V)

module _ {V : Type 0} where
  -- `map.insert(key, value)`.
  unfoldable pub insert : Bytes → V → Map V → Map V
  insert key value [] = (key, value) ∷ []
  insert key value ((k, v) ∷ rest) =
      let others = insert key value rest in
      if bytes_eq k key then (k, value) ∷ rest else (k, v) ∷ others

  -- `map.get(key)`.
  unfoldable pub get : Bytes → Map V → Option V
  get key [] = none
  get key ((k, v) ∷ rest) = let others = get key rest in if bytes_eq k key then some v else others

  -- An insertion for each call.
  unfoldable pub insert_all : List (Bytes × V) → Map V → Map V
  insert_all [] m = m
  insert_all ((key, value) ∷ rest) m = insert_all rest (insert key value m)

unfoldable pub collect_values : Bytes → Map ℕ
collect_values payload = insert_all (map (λ r. (r.uuid.bytes, r.value)) (walk_values payload)) []

-- The walk returns always.
unfoldable pub collect_texts : Bytes → Map Bytes
collect_texts payload =
    insert_all (map (λ e. (e.uuid.bytes, e.text)) (unwrap_or [] (walk_texts payload))) []

unfoldable pub collect_values_by_name : Bytes → Map ℕ
collect_values_by_name payload =
    insert_all (map (λ r. (format_loxone_bytes r.uuid, r.value)) (walk_values payload)) []

unfoldable pub collect_texts_by_name : Bytes → Map Bytes
collect_texts_by_name payload =
    insert_all (map (λ e. (format_loxone_bytes e.uuid, e.text)) (unwrap_or [] (walk_texts payload)))
      []
