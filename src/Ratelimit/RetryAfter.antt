-- ===== src/Ratelimit/RetryAfter.antt =====
-- ph_ratelimit_parse_retry_after, days_from_civil and month_num of src/ph_ratelimit.c, with what they use of the C
-- library: strtol on digits, strchr, and sscanf with "%u %3s %u %u:%u:%u". `long` has 64 bits.
use posthog_c.Base.{
  ℕ, zero, suc, ◌+◌, ◌-◌, ◌*◌, ◌/◌, ◌%◌, ◌^◌, min, Bool, true, false, not, ◌&&◌, ◌||◌, Option, none,
  some, List, [], ◌∷◌, ltb, leb, ◌==◌, if◌then◌else◌, ◌>>=◌, Bytes, codes, bytes_eq, take,
}
use posthog_c.Base.Int.{ℤ, pos, negsuc}

abbrev pub max_backoff_ms : ℕ
max_backoff_ms = 86400000

-- a - b.
unfoldable pub difference : ℕ → ℕ → ℤ
difference a b = if ltb a b then negsuc (b - a - 1) else pos (a - b)

-- The year that starts in March.
unfoldable pub march_year : ℕ → ℕ → ℤ
march_year y m = if leb m 2 then difference y 1 else pos y

-- Division by 400 rounds down: `(y - 399) / 400` rounds up for a negative y.
unfoldable pub era : ℤ → ℤ
era (pos y) = pos (y / 400)
era (negsuc n) = negsuc (n / 400)

-- y - era * 400.
unfoldable pub year_of_era : ℤ → ℕ
year_of_era (pos y) = y - y / 400 * 400
year_of_era (negsuc n) = (n / 400 + 1) * 400 - (n + 1)

-- `unsigned` wraps: `d - 1` for d = 0, and the sum for a large d.
unfoldable pub day_of_era : ℕ → ℕ → ℕ → ℕ
day_of_era yoe m d =
    let doy = ((153 * (if ltb 2 m then m - 3 else m + 9) + 2) / 5 + d + (2 ^ 32 - 1)) % 2 ^ 32 in
    (yoe * 365 + yoe / 4 - yoe / 100 + doy) % 2 ^ 32

-- era * 146097 + doe - 719468.
unfoldable pub era_days : ℤ → ℕ → ℤ
era_days (pos e) doe = difference (e * 146097 + doe) 719468
era_days (negsuc e) doe = difference doe ((e + 1) * 146097 + 719468)

unfoldable pub days_from_civil : ℕ → ℕ → ℕ → ℤ
days_from_civil y m d =
    let march = march_year y m in era_days (era march) (day_of_era (year_of_era march) m d)

abbrev pub month_names : List Bytes
month_names =
    codes "Jan"
    ∷ codes "Feb"
    ∷ codes "Mar"
    ∷ codes "Apr"
    ∷ codes "May"
    ∷ codes "Jun"
    ∷ codes "Jul"
    ∷ codes "Aug"
    ∷ codes "Sep"
    ∷ codes "Oct"
    ∷ codes "Nov"
    ∷ codes "Dec"
    ∷ []

-- The loop over the names; `i` is the number of the first of them.
unfoldable pub month_from : ℕ → List Bytes → Bytes → ℕ
month_from i [] mon = 0
month_from i (name ∷ names) mon =
    let rest = month_from (suc i) names mon in if bytes_eq (take 3 mon) name then i else rest

unfoldable pub month_num : Bytes → ℕ
month_num mon = month_from 1 month_names mon

abbrev pub is_blank : ℕ → Bool
is_blank c = c == b' ' || c == 9

abbrev pub is_line_space : ℕ → Bool
is_line_space c = is_blank c || c == 13 || c == 10

abbrev pub is_digit : ℕ → Bool
is_digit c = leb b'0' c && leb c b'9'

unfoldable pub skip_blank : Bytes → Bytes
skip_blank [] = []
skip_blank (c ∷ s) = let rest = skip_blank s in if is_blank c then rest else c ∷ s

unfoldable pub skip_line_space : Bytes → Bytes
skip_line_space [] = []
skip_line_space (c ∷ s) = let rest = skip_line_space s in if is_line_space c then rest else c ∷ s

-- The token loop: what follows the digits, `none` where another character stops it.
unfoldable pub digit_token : Bytes → Option Bytes
digit_token [] = some []
digit_token (c ∷ s) =
    let rest = digit_token s in
    if is_line_space c then some (c ∷ s) else if is_digit c then rest else none

-- The number that the digits in front spell, and what follows them.
unfoldable pub decimal : ℕ → Bytes → ℕ × Bytes
decimal acc [] = (acc, [])
decimal acc (c ∷ s) =
    let rest = decimal (acc * 10 + (c - b'0')) s in if is_digit c then rest else (acc, c ∷ s)

-- strtol on a text that starts with a digit.
unfoldable pub strtol : Bytes → ℕ
strtol s = min (decimal 0 s).0 (2 ^ 63 - 1)

unfoldable pub seconds_ms : ℕ → ℤ
seconds_ms secs = if ltb (max_backoff_ms / 1000) secs then pos max_backoff_ms else pos (secs * 1000)

-- strchr to the comma: what follows it.
unfoldable pub after_comma : Bytes → Option Bytes
after_comma [] = none
after_comma (c ∷ s) = let rest = after_comma s in if c == b',' then some s else rest

unfoldable pub skip_spaces : Bytes → Bytes
skip_spaces [] = []
skip_spaces (c ∷ s) = let rest = skip_spaces s in if c == b' ' then rest else c ∷ s

abbrev pub is_space : ℕ → Bool
is_space c = c == b' ' || (leb 9 c && leb c 13)

unfoldable pub skip_space : Bytes → Bytes
skip_space [] = []
skip_space (c ∷ s) = let rest = skip_space s in if is_space c then rest else c ∷ s

-- The sign that "%u" admits, and what follows it.
unfoldable pub scan_sign : Bytes → Bool × Bytes
scan_sign [] = (false, [])
scan_sign (c ∷ s) =
    if c == b'-' then (true, s) else if c == b'+' then (false, s) else (false, c ∷ s)

-- "%u": strtoul, then the conversion to 32 bits.
unfoldable pub scan_uint : Bytes → Option (ℕ × Bytes)
scan_uint s =
    let (minus, t) = scan_sign (skip_space s) in
    elim t [
      | [] ↦ none
      | c ∷ t' ↦
          let (n, rest) = decimal 0 (c ∷ t') in
          let wide =
            if ltb (2 ^ 64 - 1) n then 2 ^ 64 - 1 else if minus then (2 ^ 64 - n) % 2 ^ 64 else n in
          if is_digit c then some (wide % 2 ^ 32, rest) else none
    ]

-- At most `n` characters that are not white space.
unfoldable pub word : ℕ → Bytes → Bytes × Bytes
word zero s = ([], s)
word (suc n) [] = ([], [])
word (suc n) (c ∷ s) = let (w, rest) = word n s in if is_space c then ([], c ∷ s) else (c ∷ w, rest)

-- "%3s".
unfoldable pub scan_word : Bytes → Option (Bytes × Bytes)
scan_word s =
    let (w, rest) = word 3 (skip_space s) in elim w [ [] ↦ none | c ∷ w' ↦ some (c ∷ w', rest) ]

-- ":" of the format.
unfoldable pub colon : Bytes → Option Bytes
colon [] = none
colon (c ∷ s) = if c == b':' then some s else none

pub record Date : Type 0 where
  pub day : ℕ
  pub mon : Bytes
  pub year : ℕ
  pub hour : ℕ
  pub minute : ℕ
  pub second : ℕ

unfoldable pub scan_date : Bytes → Option Date
scan_date s = scan_uint s >>= λ d. scan_word d.1 >>= λ mon. scan_uint mon.1 >>= λ y.
    scan_uint y.1 >>= λ hh. colon hh.1 >>= λ r. scan_uint r >>= λ mm. colon mm.1 >>= λ r'.
    scan_uint r' >>= λ ss.
    some (record { day = d.0; mon = mon.0; year = y.0; hour = hh.0; minute = mm.0; second = ss.0 })

-- The seconds from `now` to the given day and second of the day; 0 for the past.
unfoldable pub delta_s : ℤ → ℕ → ℕ → ℕ
delta_s (pos days) second now = days * 86400 + second - now
delta_s (negsuc days) second now = second - ((days + 1) * 86400 + now)

unfoldable pub date_delay : Date → ℕ → ℤ
date_delay t now_wall =
    let m = month_num t.mon in
    let days = days_from_civil t.year m t.day in
    if m == 0 || ltb 23 t.hour || ltb 59 t.minute || ltb 60 t.second
    then negsuc 0
    else seconds_ms
        (delta_s days (t.hour * 3600 + t.minute * 60 + t.second) (now_wall / 1000000000))

unfoldable pub http_date : Bytes → ℕ → ℤ
http_date value now_wall =
    elim (scan_date (skip_spaces (elim (after_comma value) [ none ↦ value | some r ↦ r ]))) [
      | none ↦ negsuc 0
      | some t ↦ date_delay t now_wall
    ]

-- Nothing but white space is left.
abbrev pub only_space : Option Bytes → Bool
only_space none = false
only_space (some s) = elim (skip_line_space s) [ [] ↦ true | c ∷ r ↦ false ]

unfoldable pub parse_retry_after : Option Bytes → ℕ → ℤ
parse_retry_after none now_wall = negsuc 0
parse_retry_after (some s) now_wall = elim (skip_blank s) [
  | [] ↦ negsuc 0
  | c ∷ value ↦
      if not (is_line_space c) && only_space (digit_token (c ∷ value))
      then seconds_ms (strtol (c ∷ value))
      else http_date (c ∷ value) now_wall
]
