-- ===== src/Store/Refine.antt =====
-- The token file as an implementation of a store that keeps one token or none.
use loxwebsocketclient_rs.Prelude.{
  ◌≡◌, ◌∙◌, inl, inr, Bool, true, false, ◌&&◌, Option, Option-cases, none, some, List, [], ◌∷◌,
  if◌then◌else◌, Bool-cases, Bytes,
}
use loxwebsocketclient_rs.Str.Decimal.{IsI64}
use loxwebsocketclient_rs.Token.{LxToken, is_empty}
use loxwebsocketclient_rs.Flow.{and_then}
use loxwebsocketclient_rs.Str.Laws.{bytes_eq_refl}
use loxwebsocketclient_rs.Shared.{TokenStore}
use loxwebsocketclient_rs.Shared.Mirror.{StoreLaws}
use loxwebsocketclient_rs.Store.{
  Disk, Io, has_break, fill_file, write_record, read_record, clear, save, load, parse_record,
  format_record,
}
use loxwebsocketclient_rs.Store.Record.{IsOneLine, has_break-IsOneLine, parse_record-format_record}

-- What the store promises to keep.
abbrev pub Kept : Type 0
Kept = Option (Bytes × LxToken)

pub data Change : Type 0 where
  saved : Bytes → LxToken → Change
  cleared : Change

abbrev none_failed : Option Bytes → Bool
none_failed none = true
none_failed (some partial) = false

-- Every call of the file system that a save makes succeeds.
abbrev pub completes : Io → Bool
completes io =
    io.create_dir && (io.create_file && (none_failed io.write_all && (io.sync_all && io.rename)))

-- A save replaces what is kept or leaves it as it is.
abbrev pub promised : Io → Change → Kept → Kept
promised io cleared kept = if io.remove_file then none else kept
promised io (saved binding t) kept =
    if is_empty t
    then (if io.remove_file then none else kept)
    else if has_break t.token
    then kept
    else if completes io
    then some (binding, t)
    else kept

abbrev pub promised_run : List (Io × Change) → Kept → Kept
promised_run [] kept = kept
promised_run ((io, c) ∷ cs) kept = promised_run cs (promised io c kept)

abbrev pub change : Io → Change → Disk → Disk
change io cleared d = clear io d
change io (saved binding t) d = save io binding t d

abbrev pub change_run : List (Io × Change) → Disk → Disk
change_run [] d = d
change_run ((io, c) ∷ cs) d = change_run cs (change io c d)

abbrev pub kept_by : Disk → Kept
kept_by d = and_then parse_record d.path

-- The bindings are lines, and the expiries are i64.
abbrev pub IsChange : Io × Change → Type 0
IsChange (io, cleared) = Unit
IsChange (io, saved binding t) = IsOneLine binding × IsI64 t.valid_until

clear-promised :
    (io : Io) (d : Disk) → kept_by (clear io d) ≡ (if io.remove_file then none else kept_by d)
unfolding clear
clear-promised io d = elim (Bool-cases io.remove_file) [ inl e ↦ rw e | inr e ↦ rw e ]

fill_file-kept :
    (io : Io) (text : Bytes) (d : Disk)
    → kept_by (fill_file io text d) ≡ (
        if none_failed io.write_all && (io.sync_all && io.rename)
        then parse_record text
        else kept_by d)
unfolding fill_file
fill_file-kept io text d = elim (Option-cases io.write_all) [
  | inl e ↦ rw e (elim (Bool-cases io.sync_all) [
    | inl s ↦ rw s (elim (Bool-cases io.rename) [ inl r ↦ rw r | inr r ↦ rw r ])
    | inr s ↦ rw s
  ])
  | inr (partial, e) ↦ rw e
]

write_record-promised :
    (io : Io) (binding : Bytes) (t : LxToken) (d : Disk)
    → IsOneLine binding
    → IsI64 t.valid_until
    → is_empty t ≡ false
    → kept_by (write_record io binding t d) ≡ (
        if has_break t.token
        then kept_by d
        else if completes io
        then some (binding, t)
        else kept_by d)
unfolding write_record
write_record-promised io binding t d hb hv he = elim (Bool-cases (has_break t.token)) [
  | inl b ↦ rw b
  | inr b ↦
      let back = parse_record-format_record binding t hb (has_break-IsOneLine t.token b) hv he in
      rw b (elim (Bool-cases io.create_dir) [
        | inr c ↦ rw c
        | inl c ↦ rw c (elim (Bool-cases io.create_file) [
          | inr f ↦ rw f
          | inl f ↦ rw f (
              fill_file-kept (record io { create_dir = true; create_file = true })
                (format_record binding t) (record d { tmp = some [] })
              ∙ rw back)
        ])
      ])
]

change-promised :
    (io : Io) (c : Change) (d : Disk)
    → IsChange (io, c)
    → kept_by (change io c d) ≡ promised io c (kept_by d)
unfolding save
change-promised io cleared d h = clear-promised io d
change-promised io (saved binding t) d h = elim (Bool-cases (is_empty t)) [
  | inl e ↦ rw e (clear-promised io d)
  | inr e ↦ rw e (write_record-promised io binding t d h.0 h.1 e)
]

-- The file as the store of the trait.
abbrev pub file_store : Io → TokenStore Disk
file_store io = record {
  load = load true;
  save = λ binding t d. save io binding t d;
  clear = λ binding d. clear io d;
}

pub load-save_lem :
    (io : Io) (b : Bytes) (t : LxToken) (d : Disk)
    → completes io ≡ true
    → io.remove_file ≡ true
    → IsOneLine b × (IsI64 t.valid_until × (has_break t.token ≡ false))
    → load true b (save io b t d) ≡ (if is_empty t then none else some t)
unfolding load read_record
load-save_lem io b t d done removed (hb, (hv, hn)) =
    rw (change-promised io (saved b t) d (hb, hv), hn, done, removed)
      (elim (Bool-cases (is_empty t)) [ inl e ↦ rw e | inr e ↦ rw (e, bytes_eq_refl b) ])

pub load-clear_lem :
    (io : Io) (b : Bytes) (d : Disk) → io.remove_file ≡ true → load true b (clear io d) ≡ none
unfolding load read_record
load-clear_lem io b d removed = rw (clear-promised io d, removed)

-- It keeps the trait's contract as long as the file system does what it is asked, for tokens without
-- line breaks.
abbrev pub file_store_laws :
    (io : Io) → completes io ≡ true → io.remove_file ≡ true → StoreLaws Disk (file_store io)
file_store_laws io done removed = record {
  IsStorable = λ b t. IsOneLine b × (IsI64 t.valid_until × (has_break t.token ≡ false));
  load-save = λ b t d h. load-save_lem io b t d done removed h;
  load-clear = λ b d. load-clear_lem io b d removed;
}
