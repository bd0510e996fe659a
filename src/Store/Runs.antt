-- ===== src/Store/Runs.antt =====
-- The token file on concrete records.
use loxwebsocketclient_rs.Prelude.{◌≡◌, refl, arith, true, none, some, Bytes}
use loxwebsocketclient_rs.Prelude.Int.{pos}
use loxwebsocketclient_rs.Str.{codes}
use loxwebsocketclient_rs.Hash.{sha256}
use loxwebsocketclient_rs.Token.{LxToken, is_empty}
use loxwebsocketclient_rs.Store.{Disk, Io, parse_record, format_record, has_break}
use loxwebsocketclient_rs.Store.Record.{has_break-IsOneLine, parse_record-format_record}

abbrev pub home : Bytes
home = codes "a1b2"

abbrev pub jwt : LxToken
jwt = record { token = codes "ey.x=y"; valid_until = pos 541728000; hash_alg = sha256 }

abbrev pub working : Io
working = record {
  create_dir = true;
  remove_tmp = true;
  create_file = true;
  write_all = none;
  sync_all = true;
  rename = true;
  remove_file = true;
}

-- A full disk: a part of the record is written.
abbrev full : Io
full = record working { write_all = some (codes "loxweb") }

abbrev pub no_file : Disk
no_file = record { path = none; tmp = none }

parse_record-format_record_example : parse_record (format_record home jwt) ≡ some (home, jwt)
unfolding has_break is_empty
parse_record-format_record_example =
    parse_record-format_record home jwt (has_break-IsOneLine home refl)
      (has_break-IsOneLine jwt.token refl) (omega arith) refl
