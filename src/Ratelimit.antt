-- ===== src/Ratelimit.antt =====
-- The back-off of src/ph_ratelimit.h and src/ph_ratelimit.c: one definition for each function on the
-- deadline. Times are `uint64_t` nanoseconds, and windows `uint64_t` milliseconds.
pub mod RetryAfter
pub mod Calendar
pub mod Delay
pub mod Hold
mod Tests
use posthog_c.Base.{
  ℕ, ◌+◌, ◌-◌, ◌*◌, ◌/◌, ◌%◌, ◌^◌, Bool, true, Option, ltb, leb, ◌==◌, if◌then◌else◌, Bytes, false,
  ◌||◌,
}
use posthog_c.Base.Int.{ℤ, pos, negsuc}
use posthog_c.Ratelimit.RetryAfter.{max_backoff_ms, parse_retry_after}

abbrev pub default_backoff_ms : ℕ
default_backoff_ms = 60000

pub record Ratelimit : Type 0 where
  pub disabled_until : ℕ

unfoldable pub init : Ratelimit
init = record { disabled_until = 0 }

-- The window with its jitter, below the ceiling.
unfoldable pub hold_ms : ℕ → ℕ → ℕ
hold_ms window now =
    let jittered = (window + now % (window / 8 + 1)) % 2 ^ 64 in
    if ltb max_backoff_ms jittered then max_backoff_ms else jittered

unfoldable pub arm : Ratelimit → ℕ → ℕ → Ratelimit
arm rl window now = record rl { disabled_until = (now + hold_ms window now * 1000000) % 2 ^ 64 }

unfoldable pub blocked : Ratelimit → ℕ → Bool
blocked rl now = ltb now rl.disabled_until

unfoldable pub remaining_ms : Ratelimit → ℕ → ℕ
remaining_ms rl now = if leb rl.disabled_until now then 0 else (rl.disabled_until - now) / 1000000

-- `status == code` on an `int`.
unfoldable pub is_status : ℤ → ℕ → Bool
is_status (pos n) code = n == code
is_status (negsuc n) code = false

-- The part behind the parse: `ra` is what the header said, -1 for nothing usable.
unfoldable pub note_delay : Ratelimit → ℤ → ℤ → ℕ → Ratelimit × Bool
note_delay rl status (pos ra) now = (arm rl ra now, true)
note_delay rl status (negsuc _) now =
    if is_status status 503 then (rl, blocked rl now) else (arm rl default_backoff_ms now, true)

-- The new deadline and the return value.
unfoldable pub note_response : Ratelimit → ℤ → Option Bytes → ℕ → ℕ → Ratelimit × Bool
note_response rl status retry_after now_mono now_wall =
    if is_status status 429 || is_status status 503
    then note_delay rl status (parse_retry_after retry_after now_wall) now_mono
    else (rl, blocked rl now_mono)
