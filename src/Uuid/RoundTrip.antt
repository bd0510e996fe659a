-- ===== src/Uuid/RoundTrip.antt =====
-- The formatter and the parser of src/uuid.rs, one after the other.
use loxwebsocketclient_rs.Prelude.{
  ℕ, suc, ◌+◌, ◌*◌, ◌≤◌, ◌<◌, ◌≡◌, refl, sym, ap, ◌∙◌, arith, List, [], ◌∷◌, ◌++◌, map, append-nil,
  length, get_or, set, replicate, All, All-get_or, length-set, tabulate-get_or, Bytes, IsByte,
}
use loxwebsocketclient_rs.Error.{ok}
use loxwebsocketclient_rs.Uuid.{
  LoxoneUuid, IsUuid, build_hex_lut, format_loxone_bytes, ParseState, start, parse_step, parse_loop,
  reorder, finish, parse,
}
use loxwebsocketclient_rs.Uuid.Hex.{hi_digit, lo_digit, lut_hi, lut_lo, parse_loop_pair}

-- The digits of some bytes, and the bytes written into an array from an index on.
abbrev pairs : Bytes → Bytes
pairs [] = []
pairs (b ∷ bs) = hi_digit b ∷ lo_digit b ∷ pairs bs

abbrev write : Bytes → ℕ → Bytes → Bytes
write raw k [] = raw
write raw k (b ∷ bs) = write (set raw k b) (suc k) bs

parse_loop-pairs :
    (bs rest : Bytes) (k : ℕ) (raw : Bytes)
    → All IsByte bs
    → k + length bs ≤ 16
    → length raw ≡ 16
    → parse_loop (record { raw = raw; nibbles = k * 2 }) (pairs bs ++ rest)
      ≡ parse_loop (record { raw = write raw k bs; nibbles = (k + length bs) * 2 }) rest
parse_loop-pairs [] rest k raw h hk len =
    ap (λ n. parse_loop (record { raw = raw; nibbles = n }) rest) (omega arith)
parse_loop-pairs (b ∷ bs) rest k raw h hk len =
    parse_loop_pair b k raw (pairs bs ++ rest) h.0 (omega arith) len
    ∙ ap (λ n. parse_loop (record { raw = set raw k b; nibbles = n }) (pairs bs ++ rest))
        (omega arith)
    ∙ parse_loop-pairs bs rest (suc k) (set raw k b) h.1 (omega arith) (length-set raw k b ∙ len)
    ∙ ap (λ n. parse_loop (record { raw = write (set raw k b) (suc k) bs; nibbles = n }) rest)
        (omega arith)

parse_loop_end : (s : ParseState) → parse_loop s [] ≡ ok s
unfolding parse_loop
parse_loop_end s = refl

parse_loop_dash : (s : ParseState) (rest : Bytes) → parse_loop s (b'-' ∷ rest) ≡ parse_loop s rest
unfolding parse_loop parse_step
parse_loop_dash s rest = refl

-- The text that a UUID is formatted to.
abbrev data1 : List ℕ
data1 = 3 ∷ 2 ∷ 1 ∷ 0 ∷ []

abbrev data2 : List ℕ
data2 = 5 ∷ 4 ∷ []

abbrev data3 : List ℕ
data3 = 7 ∷ 6 ∷ []

abbrev data4 : List ℕ
data4 = 8 ∷ 9 ∷ 10 ∷ 11 ∷ 12 ∷ 13 ∷ 14 ∷ 15 ∷ []

abbrev pub layout : (ℕ → ℕ) → Bytes
layout b =
    pairs (map b data1)
    ++ (b'-' ∷ pairs (map b data2) ++ (b'-' ∷ pairs (map b data3) ++ (b'-' ∷ pairs (map b data4))))

All-map : (f : ℕ → ℕ) (is : List ℕ) → ((i : ℕ) → IsByte (f i)) → All IsByte (map f is)
All-map f [] h = tt
All-map f (i ∷ is) h = (h i, All-map f is h)

abbrev byte_of : LoxoneUuid → ℕ → ℕ
byte_of u i = get_or u.bytes i 0

module _ (u : LoxoneUuid) (v : IsUuid u) where
  byte_of-IsByte : (i : ℕ) → byte_of u i < 256
  byte_of-IsByte i = All-get_or IsByte u.bytes i 0 v.range (omega arith)

  lut_hi_byte : (i : ℕ) → get_or build_hex_lut (byte_of u i * 2) 0 ≡ hi_digit (byte_of u i)
  lut_hi_byte i = lut_hi (byte_of u i) (byte_of-IsByte i)

  lut_lo_byte : (i : ℕ) → get_or build_hex_lut (byte_of u i * 2 + 1) 0 ≡ lo_digit (byte_of u i)
  lut_lo_byte i = lut_lo (byte_of u i) (byte_of-IsByte i)

  -- The string form is 8-4-4-16 hex digits, the first three groups with their bytes reversed.
  pub format-layout : format_loxone_bytes u ≡ layout (byte_of u)
  unfolding format_loxone_bytes
  format-layout = simp (lut_hi_byte, lut_lo_byte)

  parse_loop-layout :
      parse_loop start (layout (byte_of u))
      ≡ ok (record {
        raw = write (replicate 16 0) 0 (map (byte_of u) (data1 ++ data2 ++ data3 ++ data4));
        nibbles = 32;
      })
  parse_loop-layout =
      group data1 0 (replicate 16 0) _ (omega arith) refl
      ∙ parse_loop_dash _ _
      ∙ group data2 4 _ _ (omega arith) refl
      ∙ parse_loop_dash _ _
      ∙ group data3 6 _ _ (omega arith) refl
      ∙ parse_loop_dash _ _
      ∙ ap (parse_loop _) (sym (append-nil _))
      ∙ group data4 8 _ [] (omega arith) refl
      ∙ parse_loop_end _
    where
      group :
          (is : List ℕ) (k : ℕ) (raw rest : Bytes)
          → k + length (map (byte_of u) is) ≤ 16
          → length raw ≡ 16
          → parse_loop (record { raw = raw; nibbles = k * 2 }) (pairs (map (byte_of u) is) ++ rest)
            ≡ parse_loop
                (record {
                  raw = write raw k (map (byte_of u) is);
                  nibbles = (k + length (map (byte_of u) is)) * 2;
                })
                rest
      group is k raw rest =
          parse_loop-pairs (map (byte_of u) is) rest k raw (All-map (byte_of u) is byte_of-IsByte)

  -- Parsing the string form of any 16 wire bytes gives them back.
  pub parse-format : parse (format_loxone_bytes u) ≡ ok u
  unfolding parse finish reorder
  parse-format =
      rw (format-layout, parse_loop-layout)
        (ap (λ b. ok (record { bytes = b })) (tabulate-get_or 16 u.bytes 0 v.len))
