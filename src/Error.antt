-- ===== src/Error.antt =====
-- src/error.rs: the error variants and their classification. The texts that the variants carry are
-- only shown and logged, never branched on, and are left out.
use loxwebsocketclient_rs.Prelude.{
  ℕ, Bool, true, false, ◌||◌, ◌≡◌, refl, ◌⊎◌, inl, inr, if◌then◌else◌, Option, none, some,
}

pub data Error : Type 0 where
  http : Error
  http_status : ℕ → Error
  web_socket tls tls_pin_mismatch protocol auth crypto json io timeout closed : Error
  reconnect_exhausted : ℕ → Error
  no_event_slots too_many_connections user_disabled not_local handler_panic stopped : Error
  invalid_uuid not_connected backpressure channel_closed : Error

pub data Result {ℓ} (T : Type ℓ) : Type ℓ where
  err : Error → Result T
  ok : T → Result T

-- The `?` operator.
infixl 5 ◌>>=◌
abbrev pub ◌>>=◌ {ℓ μ} : {T : Type ℓ} {R : Type μ} → Result T → (T → Result R) → Result R
err failure >>= next = err failure
ok value >>= next = next value

-- Inversion of a chain that succeeds.
pub >>=-eq-ok {ℓ μ} :
    {T : Type ℓ} {R : Type μ} (first : Result T) (next : T → Result R) {out : R}
    → (first >>= next) ≡ ok out
    → (value : T) × (first ≡ ok value) × (next value ≡ ok out)
>>=-eq-ok (err failure) next e = cc
>>=-eq-ok (ok value) next e = (value, refl, e)

pub Result-cases {ℓ} :
    {T : Type ℓ} (r : Result T) → ((e : Error) × (r ≡ err e)) ⊎ ((value : T) × (r ≡ ok value))
Result-cases (err e) = inl (e, refl)
Result-cases (ok value) = inr (value, refl)

pub ok_inv {ℓ} : {A : Type ℓ} {a b : A} → ok a ≡ ok b → a ≡ b
ok_inv q = cc

-- `Option::ok_or`, and `Result::map_err`.
abbrev pub ok_or {ℓ} : {A : Type ℓ} → Error → Option A → Result A
ok_or e none = err e
ok_or e (some a) = ok a

pub ok_or-eq-ok {ℓ} :
    {A : Type ℓ} (e : Error) (o : Option A) {a : A} → ok_or e o ≡ ok a → o ≡ some a
ok_or-eq-ok e none q = cc
ok_or-eq-ok e (some b) q = cc

abbrev pub map_err {ℓ} : {A : Type ℓ} → (Error → Error) → Result A → Result A
map_err f (ok a) = ok a
map_err f (err e) = err (f e)

unfoldable pub is_terminal : Error → Bool
is_terminal not_local = true
is_terminal user_disabled = true
is_terminal handler_panic = true
is_terminal _ = false

unfoldable pub needs_long_backoff : Error → Bool
needs_long_backoff no_event_slots = true
needs_long_backoff too_many_connections = true
needs_long_backoff _ = false

unfoldable pub in_step : Error → Error
unfolding is_terminal needs_long_backoff
in_step e = if is_terminal e || needs_long_backoff e then e else auth
