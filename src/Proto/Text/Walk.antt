-- ===== src/Proto/Text/Walk.antt =====
-- The walk over a text table of src/proto/text.rs, against an encoder of such tables.
use mathlib.Core.Option
use loxwebsocketclient_rs.Prelude.{
  ℕ, zero, suc, ◌+◌, ◌-◌, ◌%◌, ◌^◌, ◌<◌, ◌≡◌, refl, ap, ◌∙◌, inl, inr, arith, false, none, some,
  List, [], ◌∷◌, ◌++◌, append_assoc, append-nil, ltb, lt→ltb, Option-cases, length, take_prefix,
  drop_prefix, length-append, length-drop, length-replicate, All, Bytes, to_le_bytes,
  from_le_bytes-to_le_bytes, get_to, get_from, get_to_prefix, get_from_prefix,
}
use loxwebsocketclient_rs.Proto.Text.{
  text_header_size, RecordHeader, read_header, TextEvent, record_len, round, text_loop, walk_texts,
  unpadded, padding, padded, EventFits, table_bytes,
}

get_from_shorter : (n : ℕ) (xs ys : Bytes) → get_from n xs ≡ some ys → length ys + n ≡ length xs
get_from_shorter n xs ys h = ground (arith, length-drop n xs)

round_shorter :
    (rest : Bytes) (e : TextEvent) (next : Bytes)
    → round rest ≡ some (e, some next)
    → length next < length rest
unfolding round
round_shorter rest e next h = elim (Option-cases (read_header rest)) [
  | inl p ↦ absurd (cc)
  | inr ((header, after), p) ↦ elim (Option-cases (get_to header.text_length after)) [
    | inl q ↦ absurd (cc)
    | inr (text, q) ↦
        let r = get_from_shorter (record_len header.text_length) rest next (cc) in omega arith
  ]
]

text_loop_total :
    (fuel : ℕ) (rest : Bytes)
    → length rest < fuel
    → (es : List TextEvent) × (text_loop fuel rest ≡ some es)
unfolding text_loop
text_loop_total zero rest h = elim h [ ]
text_loop_total (suc fuel) rest h = elim (Option-cases (round rest)) [
  | inl e ↦ ([], rw (e, text_loop))
  | inr ((x, none), e) ↦ (x ∷ [], rw (e, text_loop))
  | inr ((x, some next), e) ↦
      let (es, r) = text_loop_total fuel next (omega (arith, round_shorter rest x next e)) in
      (x ∷ es, rw (e, text_loop, r))
]

-- `walk_texts` ends on every payload: its fuel never runs out.
pub walk_texts_total : (payload : Bytes) → (es : List TextEvent) × (walk_texts payload ≡ some es)
unfolding walk_texts
walk_texts_total payload = text_loop_total (suc (length payload)) payload (omega arith)

read_header_wire :
    (uuid icon : Bytes) (n : ℕ) (more : Bytes)
    → length uuid ≡ 16
    → length icon ≡ 16
    → n < 256 ^ 4
    → read_header (uuid ++ (icon ++ (to_le_bytes 4 n ++ more)))
      ≡ some (record { uuid = uuid; uuid_icon = icon; text_length = n }, more)
unfolding read_header
read_header_wire uuid icon n more u i h = rw (
  take_prefix 16 uuid (icon ++ (to_le_bytes 4 n ++ more)) u,
  drop_prefix 16 uuid (icon ++ (to_le_bytes 4 n ++ more)) u,
  take_prefix 16 icon (to_le_bytes 4 n ++ more) i,
  drop_prefix 16 icon (to_le_bytes 4 n ++ more) i,
  from_le_bytes-to_le_bytes 4 n h,
  long,
)
  where
    long : ltb (length (uuid ++ (icon ++ (to_le_bytes 4 n ++ more)))) 36 ≡ false
    long = ground (
      arith,
      length-append uuid (icon ++ (to_le_bytes 4 n ++ more)),
      length-append icon (to_le_bytes 4 n ++ more),
    )

module _ (e : TextEvent) (f : EventFits e) where
  abbrev header_of : RecordHeader
  header_of = record { uuid = e.uuid.bytes; uuid_icon = e.icon.bytes; text_length = length e.text }

  length-unpadded : length (unpadded e) ≡ 36 + length e.text
  length-unpadded = omega (
    arith,
    length-append e.uuid.bytes (e.icon.bytes ++ (to_le_bytes 4 (length e.text) ++ e.text)),
    length-append e.icon.bytes (to_le_bytes 4 (length e.text) ++ e.text),
    f.uuid_len,
    f.icon_len,
  )

  length-padded : length (padded e) ≡ record_len (length e.text)
  length-padded = omega (
    arith,
    length-append (unpadded e) (padding e),
    length-unpadded,
    length-replicate {A = ℕ} ((4 - length e.text % 4) % 4) 0,
  )

  read_header-unpadded :
      (more : Bytes) → read_header (unpadded e ++ more) ≡ some (header_of, e.text ++ more)
  read_header-unpadded more =
      rw
        (
          append_assoc e.uuid.bytes (e.icon.bytes ++ (to_le_bytes 4 (length e.text) ++ e.text))
              more,
          append_assoc e.icon.bytes (to_le_bytes 4 (length e.text) ++ e.text) more,
        )
        (read_header_wire e.uuid.bytes e.icon.bytes (length e.text) (e.text ++ more) f.uuid_len
          f.icon_len f.text_len)

  -- One round at a record, whatever follows.
  round-unpadded :
      (more : Bytes)
      → round (unpadded e ++ more)
        ≡ some (e, get_from (record_len (length e.text)) (unpadded e ++ more))
  unfolding round
  round-unpadded more =
      rw (read_header-unpadded more, get_to_prefix (length e.text) e.text more refl)

  round-padded : (more : Bytes) → round (padded e ++ more) ≡ some (e, some more)
  round-padded more = rw (
    append_assoc (unpadded e) (padding e) more,
    round-unpadded (padding e ++ more),
    ← append_assoc (unpadded e) (padding e) more,
    get_from_prefix (record_len (length e.text)) (padded e) more length-padded,
  )

-- Any fuel above the length gives the same walk.
text_loop_fuel :
    (f g : ℕ) (rest : Bytes)
    → length rest < f
    → length rest < g
    → text_loop f rest ≡ text_loop g rest
unfolding text_loop
text_loop_fuel zero g rest hf hg = elim hf [ ]
text_loop_fuel (suc f) zero rest hf hg = elim hg [ ]
text_loop_fuel (suc f) (suc g) rest hf hg = elim (Option-cases (round rest)) [
  | inl e ↦ rw (e, text_loop)
  | inr ((x, none), e) ↦ rw (e, text_loop)
  | inr ((x, some next), e) ↦
      let shorter = round_shorter rest x next e in
      rw (e, text_loop)
        (ap (Option.map (◌∷◌ x)) (text_loop_fuel f g next (omega arith) (omega arith)))
]

walk_texts-padded :
    (e : TextEvent) (tail : Bytes)
    → EventFits e
    → walk_texts (padded e ++ tail) ≡ Option.map (◌∷◌ e) (walk_texts tail)
unfolding walk_texts
walk_texts-padded e tail f =
    rw (round-padded e f tail, text_loop)
      (ap (Option.map (◌∷◌ e))
        (text_loop_fuel (length (padded e ++ tail)) (suc (length tail)) tail longer (omega arith)))
  where
    longer : length tail < length (padded e ++ tail)
    longer = omega (arith, length-append (padded e) tail, length-padded e f)

-- The records of a text table, with fields of the wire's widths, are delivered in order and once each, whatever bytes follow, and then the
-- walk goes on with those bytes.
pub walk_texts-table_bytes :
    (es : List TextEvent) (tail : Bytes)
    → All EventFits es
    → walk_texts (table_bytes es ++ tail) ≡ Option.map (◌++◌ es) (walk_texts tail)
walk_texts-table_bytes [] tail h = let (out, r) = walk_texts_total tail in rw r
walk_texts-table_bytes (e ∷ es) tail h =
    let (out, r) = walk_texts_total tail in
    ap walk_texts (append_assoc (padded e) (table_bytes es) tail)
    ∙ walk_texts-padded e (table_bytes es ++ tail) h.0
    ∙ rw (walk_texts-table_bytes es tail h.1, r)

-- A tail that is shorter than a record header is ignored.
read_header_short : (tail : Bytes) → length tail < text_header_size → read_header tail ≡ none
unfolding read_header
read_header_short tail h = rw (lt→ltb (length tail) text_header_size h)

round_short : (tail : Bytes) → length tail < text_header_size → round tail ≡ none
unfolding round
round_short tail h = rw (read_header_short tail h)

walk_texts_short : (tail : Bytes) → length tail < text_header_size → walk_texts tail ≡ some []
unfolding walk_texts
walk_texts_short tail h = rw (round_short tail h, text_loop)

round-unpadded_end :
    (e : TextEvent)
    → EventFits e
    → round (unpadded e) ≡ some (e, get_from (record_len (length e.text)) (unpadded e))
round-unpadded_end e f = rw append-nil at (round-unpadded e f [])

walk_texts-unpadded : (e : TextEvent) → EventFits e → walk_texts (unpadded e) ≡ some (e ∷ [])
unfolding walk_texts
walk_texts-unpadded e f = elim (Option-cases (get_from (record_len (length e.text)) (unpadded e))) [
  | inl g ↦ rw (round-unpadded_end e f, g, text_loop)
  | inr (next, g) ↦
      let gone : length next < text_header_size = omega (
        arith,
        get_from_shorter (record_len (length e.text)) (unpadded e) next g,
        length-unpadded e f,
      ) in
      let rest : text_loop (length (unpadded e)) next ≡ some [] =
        text_loop_fuel (length (unpadded e)) (suc (length next)) next
          (omega (arith, length-unpadded e f)) (omega arith)
        ∙ walk_texts_short next gone in
      rw (round-unpadded_end e f, g, rest, text_loop)
]

-- A table whose last record lacks its padding, or that is followed by fewer bytes than a record
-- header has, is delivered whole.
pub walk_texts_cut :
    (es : List TextEvent) (e : TextEvent) (tail : Bytes)
    → All EventFits es
    → EventFits e
    → length tail < text_header_size
    → (walk_texts (table_bytes es ++ unpadded e) ≡ some (es ++ e ∷ []))
      × (walk_texts (table_bytes es ++ tail) ≡ some es)
walk_texts_cut es e tail h f short = (
  rw (walk_texts-table_bytes es (unpadded e) h, walk_texts-unpadded e f),
  rw (walk_texts-table_bytes es tail h, walk_texts_short tail short, append-nil),
)
