-- ===== src/Proto/Fields.antt =====
-- Checked conversions that the table parsers share, and the chain of steps that may fail.
use loxwebsocketclient_rs.Prelude.{
  ℕ, ◌*◌, ◌^◌, ◌≤◌, ◌<◌, ◌≡◌, ◌⊎◌, arith, Option, none, some, ◌++◌, ltb, if◌then◌else◌, lt→ltb,
  length, take, drop, Bytes, get_to, get_from, get_to_prefix, get_from_prefix,
}

infixl 5 ◌>>=◌
abbrev pub ◌>>=◌ : {A B : Type 0} → Option A → (A → Option B) → Option B
none >>= f = none
some a >>= f = f a

-- `usize::try_from(n).ok()` of the `i32` with this bit pattern: the negative numbers fail.
abbrev pub try_usize : ℕ → Option ℕ
try_usize bits = if ltb bits (2 ^ 31) then some bits else none

-- `a.checked_mul(b)` on a 64-bit `usize`.
abbrev pub checked_mul : ℕ → ℕ → Option ℕ
checked_mul a b = if ltb (a * b) (2 ^ 64) then some (a * b) else none

-- The entries of a table and the rest of the payload, from the bytes behind the table's header: the
-- lines that the two `split_table` functions share.
unfoldable pub carve : ℕ → ℕ → Bytes → Option (Bytes × Bytes)
carve size nr_entries after_header = do
  count ← try_usize nr_entries
  entries_len ← checked_mul count size
  entries ← get_to entries_len after_header
  rest ← get_from entries_len after_header
  some (entries, rest)

pub record Carved (size nr_entries : ℕ) (after entries rest : Bytes) : Type 0 where
  pub counted : nr_entries < 2 ^ 31
  pub sized : nr_entries * size ≤ length after
  pub entries_are : entries ≡ take (nr_entries * size) after
  pub rest_is : rest ≡ drop (nr_entries * size) after

pub carve_inv :
    (size nr_entries : ℕ) (after entries rest : Bytes)
    → carve size nr_entries after ≡ some (entries, rest)
    → Carved size nr_entries after entries rest
unfolding carve
carve_inv size nr_entries after entries rest e = ground arith

-- A negative count, or entries that run past the payload.
pub carve-none :
    (size nr_entries : ℕ) (after : Bytes)
    → 2 ^ 31 ≤ nr_entries ⊎ length after < nr_entries * size
    → carve size nr_entries after ≡ none
unfolding carve
carve-none size nr_entries after bad = ground arith

pub carve_prefix :
    (size nr_entries : ℕ) (entries rest : Bytes)
    → nr_entries < 2 ^ 31
    → size < 2 ^ 31
    → length entries ≡ nr_entries * size
    → carve size nr_entries (entries ++ rest) ≡ some (entries, rest)
unfolding carve
carve_prefix size nr_entries entries rest h s len = rw (
  lt→ltb nr_entries (2 ^ 31) h,
  lt→ltb (nr_entries * size) (2 ^ 64) (grind arith),
  get_to_prefix (nr_entries * size) entries rest len,
  get_from_prefix (nr_entries * size) entries rest len,
)
