-- ===== src/Ratelimit/Hold.antt =====
-- ph_ratelimit_arm, ph_ratelimit_blocked and ph_ratelimit_remaining_ms: how long a hold lasts.
use posthog_c.Base.{
  ℕ, ◌+◌, ◌*◌, ◌^◌, ◌≤◌, ◌<◌, ◌≡◌, min, true, false, Option, Bytes, arith, refl, ◌⊎◌, inl, inr,
  Bool-cases,
}
use posthog_c.Base.Int.{ℤ, pos, negsuc}
use posthog_c.Ratelimit.{
  Ratelimit, hold_ms, arm, blocked, remaining_ms, is_status, note_delay, note_response,
  default_backoff_ms,
}
use posthog_c.Ratelimit.RetryAfter.{max_backoff_ms, parse_retry_after}

-- The hold is the window at least, and the ceiling at most.
hold_ms-bounds :
    (window now : ℕ)
    → window < 2 ^ 63
    → (min window max_backoff_ms ≤ hold_ms window now) × (hold_ms window now ≤ max_backoff_ms)
unfolding hold_ms
hold_ms-bounds window now h = ground arith

-- While the clock is a day away from its wrap, an armed limiter blocks at every instant of the window
-- that was asked for, or of the ceiling where the window is longer.
pub blocked-arm :
    (rl : Ratelimit) (window now t : ℕ)
    → window < 2 ^ 63
    → now + max_backoff_ms * 1000000 < 2 ^ 64
    → t < now + min window max_backoff_ms * 1000000
    → blocked (arm rl window now) t ≡ true
unfolding blocked arm
blocked-arm rl window now t hw hn h = ground (arith, hold_ms-bounds window now hw)

-- Whatever window a server asks for, a day after it was armed the limiter blocks no longer; and on the way there
-- the time it reports as remaining is at most a day.
pub blocked-arm_day :
    (rl : Ratelimit) (window now t t' : ℕ)
    → window < 2 ^ 63
    → now + max_backoff_ms * 1000000 < 2 ^ 64
    → now + max_backoff_ms * 1000000 ≤ t
    → now ≤ t'
    → (blocked (arm rl window now) t ≡ false)
      × (remaining_ms (arm rl window now) t' ≤ max_backoff_ms)
unfolding blocked arm remaining_ms
blocked-arm_day rl window now t t' hw hn h h' =
    (ground (arith, hold_ms-bounds window now hw), ground (arith, hold_ms-bounds window now hw))

-- The window that a 429 asks for: what its header says, or else a minute.
abbrev pub asked : ℤ → ℕ
asked (pos ra) = ra
asked (negsuc _) = default_backoff_ms

-- A 503 whose Retry-After cannot be read, and any status but 429 and 503, leave the deadline as it is,
-- and the return value says whether it still holds.
pub note_response_other :
    (rl : Ratelimit) (status : ℤ) (header : Option Bytes) (now wall : ℕ)
    → (is_status status 429 ≡ false)
    → (is_status status 503 ≡ false) ⊎ (parse_retry_after header wall ≡ negsuc 0)
    → note_response rl status header now wall ≡ (rl, blocked rl now)
unfolding note_response note_delay
note_response_other rl status header now wall h (inl e) = rw (h, e) refl
note_response_other rl status header now wall h (inr e) = elim (Bool-cases (is_status status 503)) [
  | inl f ↦ rw (h, f, e, note_delay) (rw f refl)
  | inr f ↦ rw (h, f) refl
]

-- A 429 whose Retry-After is 0 leaves the limiter open at once, while the return value says that it is
-- engaged, whatever the clock and the state before.
pub note_response_zero :
    (rl : Ratelimit) (header : Option Bytes) (now wall : ℕ)
    → parse_retry_after header wall ≡ pos 0
    → now < 2 ^ 64
    → let (rl', engaged) = note_response rl (pos 429) header now wall in
      (blocked rl' now ≡ false) × (engaged ≡ true)
unfolding note_response is_status note_delay blocked arm hold_ms
note_response_zero rl header now wall e h = rw e (ground arith, refl)
