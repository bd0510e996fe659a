-- ===== src/Policy.antt =====
-- src/client/reconnect.rs and src/client/keepalive.rs: what a close code means, and the timing rules.
-- A close code is a u16 that may be missing; a duration is a number of seconds.
use loxwebsocketclient_rs.Prelude.{
  ℕ, ◌+◌, ◌-◌, ◌*◌, ◌/◌, ◌≤◌, ◌≡◌, ◌≢◌, refl, arith, min, Bool, true, false, not, ◌||◌, Option,
  none, some, ltb, ◌==◌, if◌then◌else◌,
}
use loxwebsocketclient_rs.Error.{Error, user_disabled}

abbrev pub keep_alive_period_secs : ℕ
keep_alive_period_secs = 60

abbrev pub productive_session_secs : ℕ
productive_session_secs = 60

abbrev pub read_idle_timeout_secs : ℕ
read_idle_timeout_secs = 2 * keep_alive_period_secs + 30

abbrev pub max_missed_keepalives : ℕ
max_missed_keepalives = 3

abbrev pub min_payload_throughput_bytes_per_sec : ℕ
min_payload_throughput_bytes_per_sec = 32 * 1024

abbrev pub max_payload_extension_secs : ℕ
max_payload_extension_secs = 10 * 60

unfoldable pub should_continue : ℕ → ℕ → Bool
should_continue attempt max_attempts = max_attempts == 0 || ltb attempt max_attempts

pub data Backoff : Type 0 where
  normal long : Backoff

-- `matches!(code, Some(n))`.
abbrev pub is_code : ℕ → Option ℕ → Bool
is_code n none = false
is_code n (some c) = c == n

unfoldable pub backoff_for_close : Option ℕ → Backoff
backoff_for_close code =
    if is_code 4003 code
    then long
    else if is_code 4007 code
    then long
    else if is_code 4008 code
    then long
    else normal

unfoldable pub terminal_close : Option ℕ → Option Error
terminal_close code = if is_code 4006 code then some user_disabled else none

unfoldable pub token_survives_close : Option ℕ → Bool
token_survives_close code = not (is_code 4004 code || is_code 4005 code || is_code 4006 code)

-- `a.div_ceil(b)`.
abbrev pub div_ceil : ℕ → ℕ → ℕ
div_ceil a b = (a + b - 1) / b

unfoldable pub read_timeout : ℕ → ℕ → ℕ
read_timeout base announced_len =
    if announced_len == 0
    then base
    else base
      + min (div_ceil announced_len min_payload_throughput_bytes_per_sec) max_payload_extension_secs

-- What a close code means for the client, the token and the delay: a code that ends the client also
-- costs the token, and no code asks for the long delay and costs the token as well.
pub terminal_close-token_survives_close :
    (code : Option ℕ)
    → (terminal_close code ≢ none → token_survives_close code ≡ false)
      × (backoff_for_close code ≡ long → token_survives_close code ≡ true)
unfolding terminal_close token_survives_close backoff_for_close
terminal_close-token_survives_close none = (λ h. absurd (h refl), λ e. refl)
terminal_close-token_survives_close (some c) = (λ h. ground arith, λ e. ground arith)

-- A frame is waited for at least as long as the base says, at most ten minutes longer, and not
-- less long for a longer payload.
pub read_timeout-bounds :
    (base short_len long_len : ℕ)
    → short_len ≤ long_len
    → (base ≤ read_timeout base short_len)
      × (read_timeout base short_len ≤ read_timeout base long_len)
      × (read_timeout base long_len ≤ base + 600)
unfolding read_timeout
read_timeout-bounds base short_len long_len h = (ground arith, ground arith, ground arith)
