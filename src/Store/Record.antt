-- ===== src/Store/Record.antt =====
-- The token file's record, written and read back.
use loxwebsocketclient_rs.Prelude.{
  ◌≡◌, refl, ap, ◌∙◌, arith, false, some, List, [], ◌∷◌, ◌++◌, All, Bytes,
}
use loxwebsocketclient_rs.Str.{codes, split, bytes_eq, split_once}
use loxwebsocketclient_rs.Str.Laws.{Free, Free-append, split-append, bytes_eq_refl}
use loxwebsocketclient_rs.Str.Decimal.{IsI64, print_i64, parse_i64-print_i64, print_i64-Free}
use loxwebsocketclient_rs.Hash.{HashAlg, sha1, sha256, parse, as_str}
use loxwebsocketclient_rs.Token.{LxToken, is_empty}
use loxwebsocketclient_rs.Flow.{ok_of}
use loxwebsocketclient_rs.Store.{
  magic, strip_cr, to_lines, lines, line, no_fields, set_field, read_line, read_lines, complete,
  parse_lines, parse_record, format_record, has_break,
}

-- Neither of the characters that end a line.
abbrev pub IsOneLine : Bytes → Type 0
IsOneLine s = Free 10 s × Free 13 s

strip_cr-Free : (s : Bytes) → Free 13 s → strip_cr s ≡ s
unfolding strip_cr
strip_cr-Free [] h = refl
strip_cr-Free (x ∷ []) h = rw h.0
strip_cr-Free (x ∷ y ∷ s) h = ap (◌∷◌ x) (strip_cr-Free (y ∷ s) h.1)

to_lines-cons :
    (first next : Bytes) (rest : _)
    → to_lines first (next ∷ rest) ≡ strip_cr first ∷ to_lines next rest
unfolding to_lines
to_lines-cons [] next rest = refl
to_lines-cons (x ∷ xs) next rest = refl

lines-line :
    (content rest : Bytes) → IsOneLine content → lines (line content rest) ≡ content ∷ lines rest
lines-line content rest h =
    rw
      (
        split-append 10 content rest h.0,
        to_lines-cons content (split 10 rest).0 (split 10 rest).1,
        strip_cr-Free content h.1,
      )
      refl

IsOneLine-append : (a b : Bytes) → IsOneLine a → IsOneLine b → IsOneLine (a ++ b)
IsOneLine-append a b ha hb = (Free-append 10 a b ha.0 hb.0, Free-append 13 a b ha.1 hb.1)

-- What `has_break` looks for.
pub has_break-IsOneLine : (s : Bytes) → has_break s ≡ false → IsOneLine s
unfolding has_break
has_break-IsOneLine [] h = (tt, tt)
has_break-IsOneLine (c ∷ cs) h =
    let rest = has_break-IsOneLine cs (ground arith) in
    ((ground arith, rest.0), (ground arith, rest.1))

as_str-IsOneLine : (alg : HashAlg) → IsOneLine (as_str alg)
unfolding as_str has_break
as_str-IsOneLine sha1 = has_break-IsOneLine (codes "SHA1") refl
as_str-IsOneLine sha256 = has_break-IsOneLine (codes "SHA256") refl

field-IsOneLine :
    (key value : Bytes) → has_break key ≡ false → IsOneLine value → IsOneLine (key ++ value)
field-IsOneLine key value h hv = IsOneLine-append key value (has_break-IsOneLine key h) hv

-- Lines, one below the other.
abbrev joined : List Bytes → Bytes
joined [] = []
joined (l ∷ ls) = line l (joined ls)

lines-joined : (ls : List Bytes) → All IsOneLine ls → lines (joined ls) ≡ ls
unfolding to_lines split
lines-joined [] h = refl
lines-joined (l ∷ ls) h = lines-line l (joined ls) h.0 ∙ ap (◌∷◌ l) (lines-joined ls h.1)

abbrev fields_of : Bytes → LxToken → List Bytes
fields_of binding t =
    (codes "binding=" ++ binding)
    ∷ (codes "hash_alg=" ++ as_str t.hash_alg)
    ∷ (codes "valid_until=" ++ print_i64 t.valid_until)
    ∷ (codes "token=" ++ t.token)
    ∷ []

-- The lines of a record that is written.
lines-format_record :
    (binding : Bytes) (t : LxToken)
    → IsOneLine binding
    → IsOneLine t.token
    → lines (format_record binding t) ≡ magic ∷ fields_of binding t
unfolding format_record has_break
lines-format_record binding t hb ht =
    let number : IsOneLine (print_i64 t.valid_until) = (
      print_i64-Free 10 t.valid_until (omega arith),
      print_i64-Free 13 t.valid_until (omega arith),
    ) in
    lines-joined (magic ∷ fields_of binding t) (
      has_break-IsOneLine magic refl,
      (
        field-IsOneLine (codes "binding=") binding refl hb,
        (
          field-IsOneLine (codes "hash_alg=") (as_str t.hash_alg) refl
              (as_str-IsOneLine t.hash_alg),
          (
            field-IsOneLine (codes "valid_until=") (print_i64 t.valid_until) refl number,
            (field-IsOneLine (codes "token=") t.token refl ht, tt),
          ),
        ),
      ),
    )

parse-as_str : (alg : HashAlg) → ok_of (parse (as_str alg)) ≡ some alg
unfolding parse as_str bytes_eq
parse-as_str sha1 = refl
parse-as_str sha256 = refl

-- The four fields of a record that is written.
read_lines-written :
    (binding : Bytes) (t : LxToken)
    → IsI64 t.valid_until
    → read_lines (fields_of binding t) no_fields ≡ record {
      binding = some binding;
      token = some t.token;
      valid_until = some t.valid_until;
      hash_alg = some t.hash_alg;
    }
unfolding read_lines read_line split_once set_field bytes_eq
read_lines-written binding t h =
    rw (parse-as_str t.hash_alg, parse_i64-print_i64 t.valid_until h) refl

-- What `write_record` writes for a token that is not empty, on lines of their own, `read_record` reads
-- back: the binding, and the token with its expiry and its algorithm.
pub parse_record-format_record :
    (binding : Bytes) (t : LxToken)
    → IsOneLine binding
    → IsOneLine t.token
    → IsI64 t.valid_until
    → is_empty t ≡ false
    → parse_record (format_record binding t) ≡ some (binding, t)
unfolding parse_record parse_lines complete
parse_record-format_record binding t hb ht hv he =
    rw
      (
        lines-format_record binding t hb ht,
        parse_lines,
        bytes_eq_refl magic,
        read_lines-written binding t hv,
        he,
      )
      refl
