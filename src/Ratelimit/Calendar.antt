-- ===== src/Ratelimit/Calendar.antt =====
-- days_from_civil of src/ph_ratelimit.c against the calendar.
use posthog_c.Base.{
  ℕ, zero, suc, ◌+◌, ◌-◌, ◌*◌, ◌/◌, ◌%◌, ◌≤◌, ◌<◌, ◌≡◌, refl, ◌∙◌, sym, ap, Bool, false, not, ◌&&◌,
  ◌||◌, ltb, leb, ◌==◌, if◌then◌else◌, arith, dec_lt, Bool-cases, inl, inr, ltb→lt,
}
use posthog_c.Base.Int.{ℤ, pos, negsuc}
use posthog_c.Ratelimit.RetryAfter.{
  difference, march_year, era, year_of_era, day_of_era, era_days, days_from_civil,
}

-- The Gregorian rule.
abbrev pub leap : ℕ → Bool
leap y = (y % 4 == 0) && (not (y % 100 == 0) || (y % 400 == 0))

abbrev pub month_days : ℕ → ℕ → ℕ
month_days y m =
    if m == 2
    then (if leap y then 29 else 28)
    else if m == 4 || m == 6 || m == 9 || m == 11
    then 30
    else 31

-- The days since 1 March of year 0, for a date from then on, as the code counts them.
march_days : ℕ → ℕ → ℕ → ℕ
march_days z mp d =
    z / 400 * 146097 + (z % 400 * 365 + z % 400 / 4 - z % 400 / 100 + ((153 * mp + 2) / 5 + d - 1))

march_leap :
    (z : ℕ) → march_days (suc z) 0 1 ≡ march_days z 11 1 + (if leap (suc z) then 29 else 28)
unfolding march_days
march_leap z = ground arith

-- The day after a date.
abbrev pub next_day : ℕ × ℕ × ℕ → ℕ × ℕ × ℕ
next_day (y, m, d) =
    if ltb d (month_days y m)
    then (y, m, d + 1)
    else if ltb m 12
    then (y, m + 1, 1)
    else (y + 1, 1, 1)

abbrev pub plus : ℤ → ℕ → ℤ
plus (pos a) n = pos (a + n)
plus (negsuc a) n = difference n (a + 1)

plus-difference : (a b n : ℕ) → plus (difference a b) n ≡ difference (a + n) b
unfolding difference
plus-difference a b n = ground arith

-- The month counted from March.
abbrev march_month : ℕ → ℕ
march_month m = if ltb 2 m then m - 3 else m + 9

abbrev march_start : ℕ → ℕ → ℕ
march_start y m = if leb m 2 then y - 1 else y

march_year_lem : (y m : ℕ) → 1 ≤ y → march_year y m ≡ pos (march_start y m)
unfolding march_year difference
march_year_lem y m h = ground arith

day_of_era_lem :
    (z m d : ℕ)
    → m ≤ 12
    → 1 ≤ d
    → d ≤ 31
    → day_of_era (z - z / 400 * 400) m d
      ≡ z % 400 * 365 + z % 400 / 4 - z % 400 / 100 + ((153 * march_month m + 2) / 5 + d - 1)
unfolding day_of_era
day_of_era_lem z m d hm hd hd' = ground arith

days_from_civil-march_days :
    (y m d : ℕ)
    → 1 ≤ y
    → m ≤ 12
    → 1 ≤ d
    → d ≤ 31
    → days_from_civil y m d ≡ difference (march_days (march_start y m) (march_month m) d) 719468
unfolding days_from_civil era year_of_era era_days march_days
days_from_civil-march_days y m d hy hm hd hd' =
    rw (march_year_lem y m hy, day_of_era_lem (march_start y m) m d hm hd hd') refl

month_days_le : (y m : ℕ) → (28 ≤ month_days y m) × (month_days y m ≤ 31)
month_days_le y m = ground arith

-- The last day of a month of the same March year, from March to January.
short_step :
    (z mp : ℕ)
    → mp < 11
    → march_days z (mp + 1) 1
      ≡ march_days z mp 1 + (if mp == 1 || mp == 3 || mp == 6 || mp == 8 then 30 else 31)
unfolding march_days
short_step z mp h = ground arith

march_days_suc : (z mp d : ℕ) → 1 ≤ d → march_days z mp (d + 1) ≡ march_days z mp d + 1
unfolding march_days
march_days_suc z mp d h = ground arith

march_days_first : (z mp n : ℕ) → 1 ≤ n → march_days z mp n + 1 ≡ march_days z mp 1 + n
unfolding march_days
march_days_first z mp n h = ground arith

-- A month further is as many days as the month has.
month_step :
    (y m : ℕ)
    → 1 ≤ m
    → m < 12
    → march_days (march_start (suc y) (m + 1)) (march_month (m + 1)) 1
      ≡ march_days (march_start (suc y) m) (march_month m) 1 + month_days (suc y) m
month_step y m h h' = elim (dec_lt 2 m) [
  | yes big ↦ ground (arith, short_step (suc y) (m - 3) (omega arith))
  | no small ↦ elim (dec_lt 1 m) [
    | yes two ↦
        let e : m ≡ 2 = omega arith in
        let p : suc y - 1 ≡ y = omega arith in rw (e, p) (march_leap y)
    | no one ↦
        let e : m ≡ 1 = omega arith in
        let p : suc y - 1 ≡ y = omega arith in rw (e, p) (short_step y 10 (omega arith))
  ]
]

year_step : (y : ℕ) → march_days (march_start (suc y + 1) 1) 10 1 ≡ march_days (suc y) 9 1 + 31
year_step y =
    let p : suc y + 1 - 1 ≡ suc y = omega arith in rw p (short_step (suc y) 9 (omega arith))

reached : (a b : ℕ) → a ≤ b → ltb a b ≡ false → a ≡ b
reached a b h f = ground arith

december :
    (y m d : ℕ)
    → m ≡ 12
    → march_days (march_start (suc y) m) (march_month m) d + 1
      ≡ march_days (march_start (suc y) m) (march_month m) 1 + d
    → d ≡ month_days (suc y) m
    → march_days (march_start (suc y + 1) 1) 10 1
      ≡ march_days (march_start (suc y) m) (march_month m) d + 1
december y m d e last full = year_step y ∙ sym (last ∙ rw (full, e) refl)

civil_step :
    (y m d y' m' d' : ℕ)
    → (1 ≤ y) × (m ≤ 12) × (1 ≤ d) × (d ≤ 31)
    → (1 ≤ y') × (m' ≤ 12) × (1 ≤ d') × (d' ≤ 31)
    → march_days (march_start y' m') (march_month m') d'
      ≡ march_days (march_start y m) (march_month m) d + 1
    → days_from_civil y' m' d' ≡ plus (days_from_civil y m d) 1
civil_step y m d y' m' d' (a, b, c, e) (a', b', c', e') h =
    days_from_civil-march_days y' m' d' a' b' c' e'
    ∙ ap (λ n. difference n 719468) h
    ∙ sym (plus-difference (march_days (march_start y m) (march_month m) d) 719468 1)
    ∙ ap (λ n. plus n 1) (sym (days_from_civil-march_days y m d a b c e))

-- From every date of the Gregorian calendar from year 1 on, the next date is one day later.
pub days_from_civil-next_day :
    (y m d : ℕ)
    → 1 ≤ y
    → 1 ≤ m
    → m ≤ 12
    → 1 ≤ d
    → d ≤ month_days y m
    → let (y', m', d') = next_day (y, m, d) in
      days_from_civil y' m' d' ≡ plus (days_from_civil y m d) 1
days_from_civil-next_day zero m d hy hm hm' hd hd' = absurd (omega arith)
days_from_civil-next_day (suc y) m d hy hm hm' hd hd' =
    let le = month_days_le (suc y) m in
    let short : d ≤ 31 = omega (arith, le.1) in
    let here : (1 ≤ suc y) × (m ≤ 12) × (1 ≤ d) × (d ≤ 31) = (hy, hm', hd, short) in
    elim (Bool-cases (ltb d (month_days (suc y) m))) [
      | inl t ↦ rw t (
          civil_step (suc y) m d (suc y) m (d + 1) here
            (hy, hm', omega arith, omega (arith, le.1, ltb→lt d (month_days (suc y) m) t))
            (march_days_suc (march_start (suc y) m) (march_month m) d hd))
      | inr f ↦
          let last = march_days_first (march_start (suc y) m) (march_month m) d hd in
          let full = reached d (month_days (suc y) m) hd' f in
          elim (Bool-cases (ltb m 12)) [
            | inl t ↦
                rw (f, t)
                  (civil_step (suc y) m d (suc y) (m + 1) 1 here
                    (hy, omega (arith, ltb→lt m 12 t), omega arith, omega arith)
                    (omega (arith, month_step y m hm (ltb→lt m 12 t), last, full)))
            | inr f' ↦
                rw (f, f')
                  (civil_step (suc y) m d (suc y + 1) 1 1 here
                    (omega arith, omega arith, omega arith, omega arith)
                    (december y m d (reached m 12 hm' f') last full))
          ]
    ]
