-- ===== src/Str.antt =====
-- The methods of `str` that the client uses, over the bytes of a text.
pub mod Laws
pub mod Decimal
use Prim.Native.Char.{code}
use Prim.Native.String.{String}
use Prim.Native.String
use mathlib.Core.List.{reverse}
use loxwebsocketclient_rs.Prelude.{
  ℕ, zero, suc, ◌+◌, ◌≡◌, Bool, true, false, ◌&&◌, ◌||◌, Option, none, some, List, [], ◌∷◌, ◌++◌,
  leb, ◌==◌, if◌then◌else◌, length, drop, get_or, Bytes,
}

-- The bytes of an ASCII literal.
abbrev pub codes : String → Bytes
codes String.[] = []
codes (String.◌∷◌ c s) = code c ∷ codes s

unfoldable pub bytes_eq : Bytes → Bytes → Bool
bytes_eq [] [] = true
bytes_eq [] (y ∷ ys) = false
bytes_eq (x ∷ xs) [] = false
bytes_eq (x ∷ xs) (y ∷ ys) = x == y && bytes_eq xs ys

-- `s.strip_prefix(p)`.
unfoldable pub strip_prefix : Bytes → Bytes → Option Bytes
strip_prefix [] s = some s
strip_prefix (x ∷ xs) [] = none
strip_prefix (x ∷ xs) (y ∷ ys) = if x == y then strip_prefix xs ys else none

unfoldable pub starts_with : Bytes → Bytes → Bool
unfolding strip_prefix
starts_with p s = elim (strip_prefix p s) [ none ↦ false | some _ ↦ true ]

-- `s.contains(p)`.
unfoldable pub contains : Bytes → Bytes → Bool
unfolding starts_with
contains p [] = starts_with p []
contains p (x ∷ xs) = starts_with p (x ∷ xs) || contains p xs

-- `s.split_once(c)`.
unfoldable pub split_once : ℕ → Bytes → Option (Bytes × Bytes)
split_once c [] = none
split_once c (x ∷ xs) =
    let rest = split_once c xs in
    if x == c then some ([], xs) else elim rest [ none ↦ none | some (a, b) ↦ some (x ∷ a, b) ]

-- `s.split(c)`: the first segment and the others.
unfoldable pub split : ℕ → Bytes → Bytes × List Bytes
split c [] = ([], [])
split c (x ∷ xs) =
    let rest = split c xs in if x == c then ([], rest.0 ∷ rest.1) else (x ∷ rest.0, rest.1)

-- The length of the white-space character that starts a text, and of the one that ends a text that
-- is read backwards; 0 if there is none.
is_ascii_space : ℕ → Bool
is_ascii_space c = (leb 9 c && leb c 13) || c == 32

is_space3 : ℕ → ℕ → ℕ → Bool
is_space3 a b c =
    (a == 0xe1 && b == 0x9a && c == 0x80)
    || (a == 0xe2 && b == 0x80 && (leb 0x80 c && leb c 0x8a || c == 0xa8 || c == 0xa9 || c == 0xaf))
    || (a == 0xe2 && b == 0x81 && c == 0x9f)
    || (a == 0xe3 && b == 0x80 && c == 0x80)

is_space2 : ℕ → ℕ → Bool
is_space2 a b = a == 0xc2 && (b == 0x85 || b == 0xa0)

unfoldable pub space_len : Bytes → ℕ
unfolding is_ascii_space is_space2 is_space3
space_len s =
    let a : ℕ = get_or s 0 256 in
    let b : ℕ = get_or s 1 256 in
    let c : ℕ = get_or s 2 256 in
    if is_ascii_space a then 1 else if is_space2 a b then 2 else if is_space3 a b c then 3 else 0

unfoldable pub space_len_back : Bytes → ℕ
unfolding is_ascii_space is_space2 is_space3
space_len_back s =
    let a : ℕ = get_or s 0 256 in
    let b : ℕ = get_or s 1 256 in
    let c : ℕ = get_or s 2 256 in
    if is_ascii_space a then 1 else if is_space2 b a then 2 else if is_space3 c b a then 3 else 0

-- Drops what the first argument measures while that is not 0; `skip` bytes of it are left to drop.
unfoldable pub trim_front : (Bytes → ℕ) → ℕ → Bytes → Bytes
trim_front measure skip [] = []
trim_front measure (suc skip) (x ∷ xs) = trim_front measure skip xs
trim_front measure zero (x ∷ xs) = elim (measure (x ∷ xs)) [
  | zero ↦ x ∷ xs
  | suc k ↦ trim_front measure k xs
]

-- `s.trim()`.
unfoldable pub trim : Bytes → Bytes
unfolding trim_front space_len space_len_back
trim s = reverse (trim_front space_len_back 0 (reverse (trim_front space_len 0 s)))

-- `s.trim_end_matches('\0')`.
unfoldable pub drop_nuls : Bytes → Bytes
drop_nuls [] = []
drop_nuls (x ∷ xs) = if x == 0 then drop_nuls xs else x ∷ xs

unfoldable pub trim_end_nul : Bytes → Bytes
unfolding drop_nuls
trim_end_nul s = reverse (drop_nuls (reverse s))
