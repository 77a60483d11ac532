-- ===== src/Ratelimit/Tests.antt =====
-- Concrete headers and clocks, and the theorems of the back-off at concrete inputs.
use posthog_c.Base.{
  ◌*◌, ◌≤◌, ◌≡◌, refl, bytes_eq, true, false, some, [], ◌∷◌, inr, min, Bytes, codes, arith,
}
use posthog_c.Base.Int.{pos, negsuc}
use posthog_c.Ratelimit.{Ratelimit, arm, blocked, remaining_ms, is_status, note_response}
use posthog_c.Ratelimit.RetryAfter.{
  max_backoff_ms, parse_retry_after, seconds_ms, strtol, http_date, date_delay, scan_date,
  scan_uint, scan_word, scan_sign, word, colon, skip_spaces, skip_space, after_comma, skip_blank,
  skip_line_space, digit_token, decimal, delta_s, month_num, month_from, days_from_civil,
  difference, march_year, era, year_of_era, day_of_era, era_days,
}
use posthog_c.Ratelimit.Hold.{blocked-arm, blocked-arm_day, note_response_other, note_response_zero}
use posthog_c.Ratelimit.Delay.{
  IsDelay, parse_retry_after-IsDelay, number, spell, parse_retry_after_seconds,
}
use posthog_c.Ratelimit.Calendar.{plus, days_from_civil-next_day}

epoch : days_from_civil 1970 1 1 ≡ pos 0
unfolding days_from_civil difference march_year era year_of_era day_of_era era_days
epoch = refl

year_zero : days_from_civil 0 1 1 ≡ negsuc 719527
unfolding days_from_civil difference march_year era year_of_era day_of_era era_days
year_zero = refl

abbrev new_year : Bytes
new_year = codes "Fri, 31 Dec 1999 23:59:59 GMT"

-- 946684799 is the second before the year 2000.
date_read : parse_retry_after (some new_year) 946684789000000000 ≡ pos 10000
unfolding parse_retry_after skip_blank digit_token http_date after_comma skip_spaces scan_date
    scan_uint scan_word scan_sign word colon skip_space decimal date_delay month_num month_from
    days_from_civil difference march_year era year_of_era day_of_era era_days delta_s seconds_ms
    bytes_eq
date_read = refl

zero_read : parse_retry_after (some (codes "0")) 5 ≡ pos 0
unfolding parse_retry_after skip_blank skip_line_space digit_token strtol decimal seconds_ms
zero_read = refl

rubbish_read : parse_retry_after (some (codes "soon")) 5 ≡ negsuc 0
unfolding parse_retry_after skip_blank digit_token http_date after_comma skip_spaces scan_date
    scan_uint scan_sign skip_space decimal
rubbish_read = refl

abbrev open_limit : Ratelimit
open_limit = record { disabled_until = 0 }

days_from_civil-next_day_example : days_from_civil 2024 2 29 ≡ plus (days_from_civil 2024 2 28) 1
days_from_civil-next_day_example =
    days_from_civil-next_day 2024 2 28 (omega arith) (omega arith) (omega arith) (omega arith)
      (omega arith)

parse_retry_after-IsDelay_example : IsDelay (parse_retry_after (some new_year) 7)
parse_retry_after-IsDelay_example = parse_retry_after-IsDelay (some new_year) 7

parse_retry_after_seconds_example :
    parse_retry_after (some (spell (1 ∷ 2 ∷ 0 ∷ []))) 7
    ≡ pos (min (number (1 ∷ 2 ∷ 0 ∷ []) * 1000) max_backoff_ms)
parse_retry_after_seconds_example = parse_retry_after_seconds 1 (2 ∷ 0 ∷ []) 7 (omega arith)

blocked-arm_example : blocked (arm open_limit 60000 1000) 60000000999 ≡ true
blocked-arm_example =
    blocked-arm open_limit 60000 1000 60000000999 (omega arith) (omega arith) (omega arith)

blocked-arm_day_example :
    (blocked (arm open_limit 900000000 1000) 86400000001000 ≡ false)
    × (remaining_ms (arm open_limit 900000000 1000) 1000 ≤ max_backoff_ms)
blocked-arm_day_example =
    blocked-arm_day open_limit 900000000 1000 86400000001000 1000 (omega arith) (omega arith)
      (omega arith) (omega arith)

note_response_other_test :
    note_response open_limit (pos 503) (some (codes "soon")) 1000 5
    ≡ (open_limit, blocked open_limit 1000)
note_response_other_test =
    note_response_other open_limit (pos 503) (some (codes "soon")) 1000 5 (unfold is_status in refl)
      (inr rubbish_read)

note_response_zero_example :
    let (rl', engaged) = note_response open_limit (pos 429) (some (codes "0")) 1000 5 in
    (blocked rl' 1000 ≡ false) × (engaged ≡ true)
note_response_zero_example =
    note_response_zero open_limit (some (codes "0")) 1000 5 zero_read (omega arith)
