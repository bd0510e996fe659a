-- ===== src/Collect/Last.antt =====
-- What a collected map holds for a key.
use loxwebsocketclient_rs.Prelude.{
  ◌≡◌, refl, sym, ap, ◌∙◌, inl, inr, Bool, true, false, Option, none, some, List, [], ◌∷◌, map,
  if◌then◌else◌, Bool-cases, subst, All, Bytes,
}
use loxwebsocketclient_rs.Error.{ok}
use loxwebsocketclient_rs.Str.{bytes_eq}
use loxwebsocketclient_rs.Str.Laws.{bytes_eq_iff, bytes_eq_refl}
use loxwebsocketclient_rs.Flow.{or_else}
use loxwebsocketclient_rs.Uuid.{LoxoneUuid, IsUuid, format_loxone_bytes, parse}
use loxwebsocketclient_rs.Uuid.RoundTrip.{parse-format}
use loxwebsocketclient_rs.Proto.Value.{ValueRecord, walk_values}
use loxwebsocketclient_rs.Collect.{
  Map, insert, get, insert_all, collect_values, collect_values_by_name,
}

differs_sym : (a b : Bytes) → bytes_eq a b ≡ false → bytes_eq b a ≡ false
differs_sym a b e = elim (Bool-cases (bytes_eq b a)) [
  | inr x ↦ x
  | inl x ↦
      let same : b ≡ a = (bytes_eq_iff b a).0 x in
      let self : bytes_eq a b ≡ true =
        subst (λ z. bytes_eq a z ≡ true) (sym same) (bytes_eq_refl a) in
      absurd (cc)
]

module _ {V : Type 0} where
  -- The value of the last entry with this key.
  abbrev pub last_for : Bytes → List (Bytes × V) → Option V
  last_for key [] = none
  last_for key ((k, v) ∷ rest) =
      or_else (last_for key rest) (if bytes_eq k key then some v else none)

  get-insert :
      (key k : Bytes) (v : V) (m : Map V)
      → get key (insert k v m) ≡ (if bytes_eq k key then some v else get key m)
  unfolding get insert
  get-insert key k v [] = refl
  get-insert key k v ((k', v') ∷ rest) = elim (Bool-cases (bytes_eq k' k)) [
    | inl e ↦
        let same : k' ≡ k = (bytes_eq_iff k' k).0 e in
        rw (e, ← same)
          (elim (Bool-cases (bytes_eq k' key)) [ inl x ↦ rw x refl | inr x ↦ rw x refl ])
    | inr e ↦ rw e (elim (Bool-cases (bytes_eq k' key)) [
      | inl x ↦
          let other : bytes_eq k key ≡ false =
            subst (λ z. bytes_eq k z ≡ false) ((bytes_eq_iff k' key).0 x) (differs_sym k' k e) in
          rw (x, other) refl
      | inr x ↦ rw x (get-insert key k v rest)
    ])
  ]

  get-insert_all :
      (key : Bytes) (entries : List (Bytes × V)) (m : Map V)
      → get key (insert_all entries m) ≡ or_else (last_for key entries) (get key m)
  unfolding insert_all
  get-insert_all key [] m = refl
  get-insert_all key ((k, v) ∷ rest) m =
      get-insert_all key rest (insert k v m)
      ∙ rw (get-insert key k v m) (chain (last_for key rest) (bytes_eq k key))
    where
      chain :
          (o : Option V) (b : Bool)
          → or_else o (if b then some v else get key m)
            ≡ or_else (or_else o (if b then some v else none)) (get key m)
      chain (some w) b = refl
      chain none true = refl
      chain none false = refl

or_else-none : {A : Type 0} (o : Option A) → or_else o none ≡ o
or_else-none none = refl
or_else-none (some a) = refl

-- The value of a key in a collected map is that of the last record of the table with this UUID: later
-- records win, and no other record changes it.
pub get-collect_values :
    (key payload : Bytes)
    → get key (collect_values payload)
      ≡ last_for key (map (λ r. (r.uuid.bytes, r.value)) (walk_values payload))
unfolding collect_values get
get-collect_values key payload =
    get-insert_all key (map (λ r. (r.uuid.bytes, r.value)) (walk_values payload)) []
    ∙ or_else-none _

-- Different UUIDs have different texts.
format-bytes_eq :
    (a b : LoxoneUuid)
    → IsUuid a
    → IsUuid b
    → bytes_eq (format_loxone_bytes a) (format_loxone_bytes b) ≡ bytes_eq a.bytes b.bytes
format-bytes_eq a b ha hb = elim (Bool-cases (bytes_eq a.bytes b.bytes)) [
  | inl e ↦
      let same : a ≡ b =
        ap (λ (z : Bytes). record { bytes = z }) ((bytes_eq_iff a.bytes b.bytes).0 e) in
      subst (λ z. bytes_eq (format_loxone_bytes a) (format_loxone_bytes z) ≡ true) same
        (bytes_eq_refl (format_loxone_bytes a))
      ∙ sym e
  | inr e ↦ elim (Bool-cases (bytes_eq (format_loxone_bytes a) (format_loxone_bytes b))) [
    | inr x ↦ x ∙ sym e
    | inl x ↦
        let texts = (bytes_eq_iff (format_loxone_bytes a) (format_loxone_bytes b)).0 x in
        let same : ok a ≡ ok b = sym (parse-format a ha) ∙ ap parse texts ∙ parse-format b hb in
        let self : bytes_eq a.bytes b.bytes ≡ true =
          subst (λ z. bytes_eq a.bytes z ≡ true) (bytes_of same) (bytes_eq_refl a.bytes) in
        absurd (cc)
  ]
]
  where
    bytes_of : ok a ≡ ok b → a.bytes ≡ b.bytes
    bytes_of q = ap (λ (z : LoxoneUuid). z.bytes) (inv q)
      where
        inv : ok a ≡ ok b → a ≡ b
        inv q' = cc

last_for-format :
    (u : LoxoneUuid) (rs : List ValueRecord)
    → IsUuid u
    → All (λ r. IsUuid r.uuid) rs
    → last_for (format_loxone_bytes u) (map (λ r. (format_loxone_bytes r.uuid, r.value)) rs)
      ≡ last_for u.bytes (map (λ r. (r.uuid.bytes, r.value)) rs)
last_for-format u [] hu h = refl
last_for-format u (r ∷ rs) hu h =
    rw (last_for-format u rs hu h.1, format-bytes_eq r.uuid u h.0 hu) refl

-- The map by name agrees with the map by UUID: the Loxone text of a UUID finds in the one what its
-- sixteen bytes find in the other.
pub get-collect_values_by_name :
    (u : LoxoneUuid) (payload : Bytes)
    → IsUuid u
    → All (λ r. IsUuid r.uuid) (walk_values payload)
    → get (format_loxone_bytes u) (collect_values_by_name payload)
      ≡ get u.bytes (collect_values payload)
unfolding collect_values_by_name get
get-collect_values_by_name u payload hu h =
    get-insert_all (format_loxone_bytes u)
      (map (λ r. (format_loxone_bytes r.uuid, r.value)) (walk_values payload)) []
    ∙ or_else-none _
    ∙ last_for-format u (walk_values payload) hu h
    ∙ sym (get-collect_values u.bytes payload)
