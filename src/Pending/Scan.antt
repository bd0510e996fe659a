-- ===== src/Pending/Scan.antt =====
-- src/client/pending.rs, extract_ll_control: the scan of an answer for its `control` field. A word
-- of 64 bits is a number, and `wrapping_sub` and `!` keep it below 2 ^ 64.
mod Mask
mod Word
pub mod Find
pub mod Occurrence
pub mod Key
pub mod Field
mod Runs
use Prim.Native.Nat.{bit_and, bit_or, bit_xor}
use loxwebsocketclient_rs.Prelude.{
  ℕ, zero, suc, ◌+◌, ◌-◌, ◌*◌, ◌/◌, ◌%◌, ◌^◌, min, Bool, true, false, ◌&&◌, ◌||◌, Option, none,
  some, [], ◌∷◌, ltb, leb, ◌==◌, if◌then◌else◌, length, take, drop, get_or, Bytes, from_le_bytes,
}
use loxwebsocketclient_rs.Str.{codes}
use loxwebsocketclient_rs.Session.{Primitives}

abbrev pub control_key_scan_limit : ℕ
control_key_scan_limit = 512

abbrev pub control_value_limit : ℕ
control_value_limit = 8 * 1024

unfoldable pub word_at : Bytes → ℕ
word_at chunk = from_le_bytes chunk

abbrev pub ones : ℕ
ones = 0x0101010101010101

unfoldable pub repeat_byte : ℕ → ℕ
repeat_byte byte = byte * ones

unfoldable pub zero_byte_mask : ℕ → ℕ
zero_byte_mask word =
    bit_and (bit_and ((word + 2 ^ 64 - ones) % 2 ^ 64) (2 ^ 64 - 1 - word)) 0x8080808080808080

-- `mask.trailing_zeros()`, for at most so many bits.
unfoldable pub trailing_zeros : ℕ → ℕ → ℕ
trailing_zeros zero n = 0
trailing_zeros (suc bits) n =
    let rest = trailing_zeros bits (n / 2) in if n % 2 == 0 then suc rest else 0

-- `iter().position(test)`.
unfoldable pub position : (ℕ → Bool) → Bytes → Option ℕ
position test [] = none
position test (x ∷ xs) =
    let rest = position test xs in
    if test x then some 0 else elim rest [ none ↦ none | some i ↦ some (suc i) ]

abbrev pub shift : ℕ → Option ℕ → Option ℕ
shift offset none = none
shift offset (some i) = some (offset + i)

abbrev pub is_either : ℕ → ℕ → ℕ → Bool
is_either a b x = x == a || x == b

-- The loop over the whole chunks of eight bytes, of which so many are left, and then the remainder.
unfoldable pub chunk_loop : ℕ → ℕ → ℕ → ℕ → Bytes → Option ℕ
chunk_loop zero a b offset rest = shift offset (position (is_either a b) rest)
chunk_loop (suc chunks) a b offset rest =
    let word = word_at (take 8 rest) in
    let mask =
      bit_or (zero_byte_mask (bit_xor word (repeat_byte a)))
        (zero_byte_mask (bit_xor word (repeat_byte b))) in
    elim (mask == 0) [
      | false ↦ some (offset + trailing_zeros 64 mask / 8)
      | true ↦ chunk_loop chunks a b (offset + 8) (drop 8 rest)
    ]

unfoldable pub find_either : Bytes → ℕ → ℕ → Option ℕ
find_either haystack a b = chunk_loop (length haystack / 8) a b 0 haystack

unfoldable pub find_byte : Bytes → ℕ → Option ℕ
find_byte haystack needle = find_either haystack needle needle

abbrev pub control_key : Bytes
control_key = codes "\"control\""

-- The `while` loop; each round but the last goes on behind a quote.
unfoldable pub key_loop : ℕ → Bytes → ℕ → ℕ → Option ℕ
key_loop zero window last from = none
key_loop (suc rounds) window last from = elim (leb from last) [
  | false ↦ none
  | true ↦ elim (shift from (find_byte (drop from window) b'"')) [
    | none ↦ none
    | some at ↦ elim (ltb last at) [
      | true ↦ none
      | false ↦
          elim (word_at (take 8 (drop at window)) == word_at (take 8 control_key)
            && get_or window (at + 8) 256 == b'"') [
              | true ↦ some at
              | false ↦ key_loop rounds window last (at + 1)
            ]
    ]
  ]
]

-- `from` grows in each round, so a round for each byte is enough.
unfoldable pub find_control_key : Bytes → Option ℕ
find_control_key window =
    if ltb (length window) (length control_key)
    then none
    else key_loop (length window) window (length window - length control_key) 0

-- `u8::is_ascii_whitespace`.
unfoldable pub is_ascii_whitespace : ℕ → Bool
is_ascii_whitespace c = c == 9 || c == 10 || c == 12 || c == 13 || c == 32

abbrev pub not_space : ℕ → Bool
not_space c = if is_ascii_whitespace c then false else true

infixl 5 ◌>>=◌
abbrev pub ◌>>=◌ : {A B : Type 0} → Option A → (A → Option B) → Option B
none >>= f = none
some a >>= f = f a

-- The value behind the opening quote.
unfoldable pub quoted_value : Primitives → Bytes → Option Bytes
quoted_value p tail = do
  let value = take (min (length tail) control_value_limit) tail
  end ← find_either value b'"' b'\\'
  if get_or value end 256 == b'"' && p.is_utf8 (take end value) then some (take end value) else none

unfoldable pub extract_ll_control : Primitives → Bytes → Option Bytes
extract_ll_control p payload = do
  key_at ← find_control_key (take (min (length payload) control_key_scan_limit) payload)
  let after_key = drop (key_at + length control_key) payload
  colon ← find_byte after_key b':'
  let after_colon = drop (colon + 1) after_key
  quote ← position not_space after_colon
  if get_or after_colon quote 256 == b'"'
      then quoted_value p (drop (quote + 1) after_colon)
      else none
