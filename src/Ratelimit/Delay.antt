-- ===== src/Ratelimit/Delay.antt =====
-- What ph_ratelimit_parse_retry_after returns.
use posthog_c.Base.{
  ℕ, ◌+◌, ◌-◌, ◌*◌, ◌^◌, ◌≤◌, ◌<◌, ◌≡◌, refl, ap, ◌∙◌, min, false, not, ◌&&◌, ◌||◌, Option, none,
  some, List, [], ◌∷◌, ltb, ◌==◌, Bytes, length, All, arith, Bool-cases, Option-cases, inl, inr,
}
use posthog_c.Base.Int.{ℤ, pos, negsuc}
use posthog_c.Ratelimit.RetryAfter.{
  max_backoff_ms, parse_retry_after, seconds_ms, strtol, http_date, date_delay, scan_date, Date,
  skip_spaces, after_comma, skip_blank, skip_line_space, digit_token, decimal, is_line_space,
  only_space, month_num,
}

-- A delay of at most a day, or -1.
abbrev pub IsDelay : ℤ → Type 0
IsDelay (pos ms) = ms ≤ max_backoff_ms
IsDelay (negsuc n) = n ≡ 0

seconds_ms-IsDelay : (secs : ℕ) → IsDelay (seconds_ms secs)
unfolding seconds_ms
seconds_ms-IsDelay secs = ground arith

date_delay-IsDelay : (t : Date) (wall : ℕ) → IsDelay (date_delay t wall)
unfolding date_delay
date_delay-IsDelay t wall =
    elim (Bool-cases
      (month_num t.mon == 0 || ltb 23 t.hour || ltb 59 t.minute || ltb 60 t.second)) [
        | inl e ↦ rw e refl
        | inr e ↦ rw e (seconds_ms-IsDelay _)
      ]

http_date-IsDelay : (value : Bytes) (wall : ℕ) → IsDelay (http_date value wall)
unfolding http_date
http_date-IsDelay value wall =
    elim (Option-cases
      (scan_date (skip_spaces (elim (after_comma value) [ none ↦ value | some r ↦ r ])))) [
        | inl e ↦ rw (e, http_date) refl
        | inr (t, e) ↦ rw (e, http_date) (date_delay-IsDelay t wall)
      ]

value_IsDelay :
    (s : Bytes) (wall : ℕ) (value : Bytes)
    → skip_blank s ≡ value
    → IsDelay (parse_retry_after (some s) wall)
unfolding parse_retry_after
value_IsDelay s wall [] e = rw (e, parse_retry_after) refl
value_IsDelay s wall (c ∷ value) e =
    elim (Bool-cases (not (is_line_space c) && only_space (digit_token (c ∷ value)))) [
      | inl t ↦ rw (e, parse_retry_after, t) (seconds_ms-IsDelay _)
      | inr f ↦ rw (e, parse_retry_after, f) (http_date-IsDelay (c ∷ value) wall)
    ]

-- Whatever a server sends as Retry-After, the parser returns -1 or a delay of at most a day.
pub parse_retry_after-IsDelay :
    (header : Option Bytes) (wall : ℕ) → IsDelay (parse_retry_after header wall)
parse_retry_after-IsDelay none wall = unfold parse_retry_after in refl
parse_retry_after-IsDelay (some s) wall = value_IsDelay s wall (skip_blank s) refl

-- The number that decimal digits spell, the highest first.
unfoldable pub number : List ℕ → ℕ
number [] = 0
number (d ∷ ds) = d * 10 ^ length ds + number ds

unfoldable pub spell : List ℕ → Bytes
spell [] = []
spell (d ∷ ds) = (b'0' + d) ∷ spell ds

abbrev pub IsDigit : ℕ → Type 0
IsDigit d = d < 10

shift_digit : (acc d p n : ℕ) → (acc * 10 + d) * p + n ≡ acc * (10 * p) + (d * p + n)
shift_digit acc d p n = grind arith

decimal-spell :
    (ds : List ℕ) (acc : ℕ)
    → All IsDigit ds
    → decimal acc (spell ds) ≡ (acc * 10 ^ length ds + number ds, [])
unfolding decimal spell number
decimal-spell [] acc h = ground arith
decimal-spell (d ∷ ds) acc (h, hs) =
    ground
      (arith, decimal-spell ds (acc * 10 + d) hs, shift_digit acc d (10 ^ length ds) (number ds))

digit_token-spell : (ds : List ℕ) → All IsDigit ds → digit_token (spell ds) ≡ some []
unfolding digit_token spell
digit_token-spell [] h = refl
digit_token-spell (d ∷ ds) (h, hs) = ground (arith, digit_token-spell ds hs)

skip_blank-spell : (d : ℕ) (ds : List ℕ) → d < 10 → skip_blank (spell (d ∷ ds)) ≡ spell (d ∷ ds)
unfolding skip_blank spell
skip_blank-spell d ds h = ground arith

seconds_ms-strtol : (n : ℕ) → seconds_ms (min n (2 ^ 63 - 1)) ≡ pos (min (n * 1000) max_backoff_ms)
unfolding seconds_ms
seconds_ms-strtol n = ground arith

seconds_read :
    (s : Bytes) (c : ℕ) (value : Bytes) (n wall : ℕ)
    → skip_blank s ≡ c ∷ value
    → is_line_space c ≡ false
    → digit_token (c ∷ value) ≡ some []
    → decimal 0 (c ∷ value) ≡ (n, [])
    → parse_retry_after (some s) wall ≡ pos (min (n * 1000) max_backoff_ms)
unfolding parse_retry_after strtol skip_line_space
seconds_read s c value n wall hb hl ht hd =
    rw (hb, parse_retry_after, hl, ht, hd) (seconds_ms-strtol n)

-- A count of seconds in decimal digits, however many, is that many milliseconds times a thousand, or a
-- day where it is more.
pub parse_retry_after_seconds :
    (d : ℕ) (ds : List ℕ) (wall : ℕ)
    → All IsDigit (d ∷ ds)
    → parse_retry_after (some (spell (d ∷ ds))) wall
      ≡ pos (min (number (d ∷ ds) * 1000) max_backoff_ms)
unfolding spell
parse_retry_after_seconds d ds wall (h, hs) =
    seconds_read (spell (d ∷ ds)) (b'0' + d) (spell ds) (number (d ∷ ds)) wall
      (skip_blank-spell d ds h) (ground arith) (digit_token-spell (d ∷ ds) (h, hs))
      (decimal-spell (d ∷ ds) 0 (h, hs) ∙ ap (λ n. (n, [])) (omega arith))
