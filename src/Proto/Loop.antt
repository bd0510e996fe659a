-- ===== src/Proto/Loop.antt =====
-- `while let Some((x, tail)) = split(rest) { rest = tail; f(x) }` over a payload, with fuel.
use mathlib.Core.Option
use loxwebsocketclient_rs.Prelude.{
  ℕ, zero, suc, ◌<◌, ◌≡◌, refl, ap, inl, inr, arith, Option, none, some, Option-cases, List, [],
  ◌∷◌, map, length, Bytes,
}

module _ {A : Type 0} (split : Bytes → Option (A × Bytes)) where
  -- `none` means that the fuel ran out.
  unfoldable pub while_some : ℕ → Bytes → Option (List A)
  while_some zero rest = none
  while_some (suc fuel) rest = elim (split rest) [
    | none ↦ some []
    | some (a, tail) ↦ Option.map (◌∷◌ a) (while_some fuel tail)
  ]

  -- A round more than there are bytes is enough where each round takes a byte at least.
  unfoldable pub walk : Bytes → Option (List A)
  unfolding while_some
  walk payload = while_some (suc (length payload)) payload

  pub walk-none : (rest : Bytes) → split rest ≡ none → walk rest ≡ some []
  unfolding walk
  walk-none rest e = rw (e, while_some)

module _ {A : Type 0} (split : Bytes → Option (A × Bytes))
    (shorter : (rest : Bytes) (a : A) (tail : Bytes)
      → split rest ≡ some (a, tail)
      → length tail < length rest) where
  while_some_total :
      (fuel : ℕ) (rest : Bytes)
      → length rest < fuel
      → (xs : List A) × (while_some split fuel rest ≡ some xs)
  unfolding while_some
  while_some_total zero rest h = elim h [ ]
  while_some_total (suc fuel) rest h = elim (Option-cases (split rest)) [
    | inl e ↦ ([], rw (e, while_some))
    | inr ((a, tail), e) ↦
        let (xs, r) = while_some_total fuel tail (omega (arith, shorter rest a tail e)) in
        (a ∷ xs, rw (e, while_some, r))
  ]

  pub walk_total : (payload : Bytes) → (xs : List A) × (walk split payload ≡ some xs)
  unfolding walk
  walk_total payload = while_some_total (suc (length payload)) payload (omega arith)

  while_some_fuel :
      (f g : ℕ) (rest : Bytes)
      → length rest < f
      → length rest < g
      → while_some split f rest ≡ while_some split g rest
  unfolding while_some
  while_some_fuel zero g rest hf hg = elim hf [ ]
  while_some_fuel (suc f) zero rest hf hg = elim hg [ ]
  while_some_fuel (suc f) (suc g) rest hf hg = elim (Option-cases (split rest)) [
    | inl e ↦ rw (e, while_some)
    | inr ((a, tail), e) ↦
        let less = shorter rest a tail e in
        rw (e, while_some)
          (ap (Option.map (◌∷◌ a)) (while_some_fuel f g tail (omega arith) (omega arith)))
  ]

  -- One round.
  pub walk-some :
      (rest : Bytes) (a : A) (tail : Bytes)
      → split rest ≡ some (a, tail)
      → walk split rest ≡ Option.map (◌∷◌ a) (walk split tail)
  unfolding walk
  walk-some rest a tail e =
      let less = shorter rest a tail e in
      rw (e, while_some)
        (ap (Option.map (◌∷◌ a))
          (while_some_fuel (length rest) (suc (length tail)) tail (omega arith) (omega arith)))

-- Two loops that split alike, where the second calls `g` of what the first does.
module _ {A B : Type 0} (g : A → B) (split : Bytes → Option (A × Bytes))
    (other : Bytes → Option (B × Bytes))
    (stops : (rest : Bytes) → split rest ≡ none → other rest ≡ none)
    (goes_on : (rest : Bytes) (a : A) (tail : Bytes)
      → split rest ≡ some (a, tail)
      → other rest ≡ some (g a, tail)) where
  while_some-map :
      (fuel : ℕ) (rest : Bytes)
      → while_some other fuel rest ≡ Option.map (map g) (while_some split fuel rest)
  unfolding while_some
  while_some-map zero rest = refl
  while_some-map (suc fuel) rest = elim (Option-cases (split rest)) [
    | inl e ↦ rw (e, stops rest e, while_some)
    | inr ((a, tail), e) ↦
        rw (e, goes_on rest a tail e, while_some)
          (rw (while_some-map fuel tail) (cons_map a (while_some split fuel tail)))
  ]
    where
      cons_map :
          (a : A) (o : Option (List A))
          → Option.map (◌∷◌ (g a)) (Option.map (map g) o)
            ≡ Option.map (map g) (Option.map (◌∷◌ a) o)
      cons_map a none = refl
      cons_map a (some xs) = refl

  pub walk-map : (payload : Bytes) → walk other payload ≡ Option.map (map g) (walk split payload)
  unfolding walk
  walk-map payload = while_some-map (suc (length payload)) payload
