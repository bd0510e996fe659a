-- ===== src/Prelude/Slices.antt =====
-- Byte slices as lists of numbers: checked ranges, and little-endian words of a given width.
use Prim.Native.Nat.{ℕ, zero, suc, ◌+◌, ◌*◌, ◌/◌, ◌%◌, ◌^◌, ◌<◌}
use mathlib.Core.Path.{◌≡◌, refl, ap}
use mathlib.Core.List.{List, [], ◌∷◌, ◌++◌}
use mathlib.Core.Option.{Option, none, some}
use native.Mathlib.Omega.{arith}
use native.Mathlib.Nat.{pow-suc}
use loxwebsocketclient_rs.Prelude.Tests.{leb, if◌then◌else◌, le→leb}
use loxwebsocketclient_rs.Prelude.Lists.{
  length, take, drop, All, length-append, take_prefix, drop_prefix,
}

abbrev pub Bytes : Type 0
Bytes = List ℕ

abbrev pub IsByte : ℕ → Type 0
IsByte b = b < 256

module _ {ℓ} {A : Type ℓ} where
  -- `xs.get(..n)` and `xs.get(n..)`.
  abbrev pub get_to : ℕ → List A → Option (List A)
  get_to n xs = if leb n (length xs) then some (take n xs) else none

  abbrev pub get_from : ℕ → List A → Option (List A)
  get_from n xs = if leb n (length xs) then some (drop n xs) else none

  pub get_to_prefix : (n : ℕ) (xs ys : List A) → length xs ≡ n → get_to n (xs ++ ys) ≡ some xs
  get_to_prefix n xs ys h =
      rw (le→leb n (length (xs ++ ys)) (omega (arith, length-append xs ys)))
        (ap some (take_prefix n xs ys h))

  pub get_from_prefix : (n : ℕ) (xs ys : List A) → length xs ≡ n → get_from n (xs ++ ys) ≡ some ys
  get_from_prefix n xs ys h =
      rw (le→leb n (length (xs ++ ys)) (omega (arith, length-append xs ys)))
        (ap some (drop_prefix n xs ys h))

-- The number that little-endian bytes stand for, and the bytes of a number in a width.
abbrev pub from_le_bytes : Bytes → ℕ
from_le_bytes [] = 0
from_le_bytes (b ∷ bs) = b + 256 * from_le_bytes bs

abbrev pub to_le_bytes : ℕ → ℕ → Bytes
to_le_bytes zero v = []
to_le_bytes (suc w) v = (v % 256) ∷ to_le_bytes w (v / 256)

pub length-to_le_bytes : (w v : ℕ) → length (to_le_bytes w v) ≡ w
length-to_le_bytes zero v = refl
length-to_le_bytes (suc w) v = ap suc (length-to_le_bytes w (v / 256))

pub from_le_bytes-to_le_bytes : (w v : ℕ) → v < 256 ^ w → from_le_bytes (to_le_bytes w v) ≡ v
from_le_bytes-to_le_bytes zero v h = omega arith
from_le_bytes-to_le_bytes (suc w) v h =
    omega (arith, from_le_bytes-to_le_bytes w (v / 256) (omega (arith, pow-suc 256 w)))

pub to_le_bytes-IsByte : (w v : ℕ) → All IsByte (to_le_bytes w v)
to_le_bytes-IsByte zero v = tt
to_le_bytes-IsByte (suc w) v = (omega arith, to_le_bytes-IsByte w (v / 256))

pub All-take : (n : ℕ) (bs : Bytes) → All IsByte bs → All IsByte (take n bs)
All-take zero bs h = tt
All-take (suc n) [] h = tt
All-take (suc n) (x ∷ xs) h = (h.0, All-take n xs h.1)

pub All-drop : (n : ℕ) (bs : Bytes) → All IsByte bs → All IsByte (drop n bs)
All-drop zero bs h = h
All-drop (suc n) [] h = tt
All-drop (suc n) (x ∷ xs) h = All-drop n xs h.1
