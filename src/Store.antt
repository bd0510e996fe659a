-- ===== src/Store.antt =====
-- src/auth/store.rs: the token file. Its directory is two files, the record and the temporary beside
-- it; a call of the file system succeeds or fails as the `Io` of an operation says.
pub mod Record
pub mod Refine
pub mod Runs
use loxwebsocketclient_rs.Prelude.{
  ℕ, zero, suc, ◌+◌, Bool, true, false, not, ◌||◌, Option, none, some, List, [], ◌∷◌, ◌++◌, ◌==◌,
  if◌then◌else◌, length, Bytes, to_le_bytes,
}
use loxwebsocketclient_rs.Prelude.Int.{ℤ}
use loxwebsocketclient_rs.Error.{ok, err}
use loxwebsocketclient_rs.Str.{codes, bytes_eq, split_once, split}
use loxwebsocketclient_rs.Str.Decimal.{print_i64, parse_i64}
use loxwebsocketclient_rs.Hash.{HashAlg, parse, as_str}
use loxwebsocketclient_rs.Token.{LxToken, is_empty}
use loxwebsocketclient_rs.Flow.{ok_of, and_then}
use loxwebsocketclient_rs.Session.{hex_encode}

abbrev pub magic : Bytes
magic = codes "loxwebsocket-token 1"

-- `part.len()` as eight bytes, and the part.
abbrev pub prefixed : Bytes → Bytes
prefixed part = to_le_bytes 8 (length part) ++ part

-- The digest is that of the crate `sha2`.
unfoldable pub token_binding : (Bytes → Bytes) → Bytes → Bytes → Bytes → Bytes
token_binding sha256 loxone_url username client_uuid =
    hex_encode (sha256 (prefixed loxone_url ++ (prefixed username ++ prefixed client_uuid)))

-- `raw.lines()`: without the line feed and a carriage return before it.
unfoldable pub strip_cr : Bytes → Bytes
strip_cr [] = []
strip_cr (x ∷ []) = if x == 13 then [] else x ∷ []
strip_cr (x ∷ y ∷ rest) = x ∷ strip_cr (y ∷ rest)

unfoldable pub to_lines : Bytes → List Bytes → List Bytes
to_lines [] [] = []
to_lines (c ∷ cs) [] = (c ∷ cs) ∷ []
to_lines first (next ∷ rest) = strip_cr first ∷ to_lines next rest

abbrev pub lines : Bytes → List Bytes
lines raw = let parts = split 10 raw in to_lines parts.0 parts.1

-- The variables of the loop over the lines.
pub record Fields : Type 0 where
  pub binding : Option Bytes
  pub token : Option Bytes
  pub valid_until : Option ℤ
  pub hash_alg : Option HashAlg

abbrev pub no_fields : Fields
no_fields = record { binding = none; token = none; valid_until = none; hash_alg = none }

-- The first occurrence wins.
abbrev pub keep_first {ℓ} : {A : Type ℓ} → Option A → Option A → Option A
keep_first (some old) new = some old
keep_first none new = new

unfoldable pub set_field : Bytes → Bytes → Fields → Fields
set_field key value f =
    if bytes_eq key (codes "binding")
    then record f { binding = keep_first f.binding (some value) }
    else if bytes_eq key (codes "token")
    then record f { token = keep_first f.token (some value) }
    else if bytes_eq key (codes "valid_until")
    then record f { valid_until = keep_first f.valid_until (parse_i64 value) }
    else if bytes_eq key (codes "hash_alg")
    then record f { hash_alg = keep_first f.hash_alg (ok_of (parse value)) }
    else f

unfoldable pub read_line : Bytes → Fields → Fields
read_line line f = elim (split_once b'=' line) [
  | none ↦ f
  | some (key, value) ↦ set_field key value f
]

unfoldable pub read_lines : List Bytes → Fields → Fields
read_lines [] f = f
read_lines (line ∷ rest) f = read_lines rest (read_line line f)

unfoldable pub complete : Fields → Option (Bytes × LxToken)
complete f =
    and_then
      (λ binding.
        and_then
          (λ token.
            and_then
              (λ valid_until.
                and_then
                  (λ hash_alg.
                    let t : LxToken = record {
                      token = token;
                      valid_until = valid_until;
                      hash_alg = hash_alg;
                    } in
                    if is_empty t then none else some (binding, t))
                  f.hash_alg)
              f.valid_until)
          f.token)
      f.binding

unfoldable pub parse_lines : List Bytes → Option (Bytes × LxToken)
parse_lines [] = none
parse_lines (first ∷ rest) =
    if bytes_eq first magic then complete (read_lines rest no_fields) else none

unfoldable pub parse_record : Bytes → Option (Bytes × LxToken)
parse_record raw = parse_lines (lines raw)

abbrev pub line : Bytes → Bytes → Bytes
line content rest = content ++ (10 ∷ rest)

-- The text that is written.
unfoldable pub format_record : Bytes → LxToken → Bytes
format_record binding t = line magic (
    line (codes "binding=" ++ binding) (
      line (codes "hash_alg=" ++ as_str t.hash_alg) (
        line (codes "valid_until=" ++ print_i64 t.valid_until)
          (line (codes "token=" ++ t.token) []))))

pub record Disk : Type 0 where
  pub path : Option Bytes
  pub tmp : Option Bytes

-- Which calls of the file system succeed; a write that fails may leave any text behind.
pub record Io : Type 0 where
  pub create_dir : Bool
  pub remove_tmp : Bool
  pub create_file : Bool
  pub write_all : Option Bytes
  pub sync_all : Bool
  pub rename : Bool
  pub remove_file : Bool

-- `token.contains(['\n', '\r'])`.
unfoldable pub has_break : Bytes → Bool
has_break [] = false
has_break (c ∷ cs) = (c == 10 || c == 13) || has_break cs

-- `file.write_all(..)?; file.sync_all()?; fs::rename(..)`, in the new temporary file.
unfoldable pub fill_file : Io → Bytes → Disk → Disk
fill_file io text d = elim io.write_all [
  | some partial ↦ record d { tmp = some partial }
  | none ↦
      if io.sync_all
      then (if io.rename
          then record { path = some text; tmp = none }
          else record d { tmp = some text })
      else record d { tmp = some text }
]

-- What the call leaves on the disk; its error is only logged.
unfoldable pub write_record : Io → Bytes → LxToken → Disk → Disk
write_record io binding t d =
    if has_break t.token
    then d
    else if not io.create_dir
    then d
    else let cleaned : Disk = record d { tmp = if io.remove_tmp then none else d.tmp } in
      if io.create_file
      then fill_file io (format_record binding t) (record cleaned { tmp = some [] })
      else cleaned

-- An unreadable file, or one that is no UTF-8, is like none.
unfoldable pub read_record : Bool → Disk → Option (Bytes × LxToken)
read_record readable d = if readable then and_then parse_record d.path else none

unfoldable pub clear : Io → Disk → Disk
clear io d = if io.remove_file then record d { path = none } else d

unfoldable pub save : Io → Bytes → LxToken → Disk → Disk
save io binding t d = if is_empty t then clear io d else write_record io binding t d

abbrev pub same_binding : Bytes → Bytes × LxToken → Option LxToken
same_binding binding (saved_binding, t) = if bytes_eq saved_binding binding then some t else none

unfoldable pub load : Bool → Bytes → Disk → Option LxToken
load readable binding d = and_then (same_binding binding) (read_record readable d)
