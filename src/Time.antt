-- ===== src/Time.antt =====
-- src/ph_time.c, less the clocks: the epoch correction, the time stamp and the UUID. `gmtime_r` is an
-- argument of the formatter.
pub mod Epoch
pub mod Uuid
mod Tests
use posthog_c.Base.{
  ℕ, zero, suc, ◌+◌, ◌-◌, ◌*◌, ◌/◌, ◌%◌, ◌^◌, Bool, true, false, List, [], ◌∷◌, ◌++◌, ltb, leb,
  ◌==◌, if◌then◌else◌, bit_and, bit_or, bit_xor, ◌||◌, Bytes, codes,
}
use posthog_c.Json.{hex_digit}

abbrev pub uint64_max : ℕ
uint64_max = 2 ^ 64 - 1

-- `a + b`, or the largest `uint64_t` where that overflows.
unfoldable pub add_saturating : ℕ → ℕ → ℕ
add_saturating a b = if ltb (uint64_max - a) b then uint64_max else a + b

unfoldable pub distance : ℕ → ℕ → ℕ
distance a b = if leb b a then a - b else b - a

-- `ph_correct_wall_epoch`
unfoldable pub correct_wall_epoch : ℕ → ℕ → ℕ → ℕ → ℕ → ℕ
correct_wall_epoch epoch_wall epoch_mono now_wall now_mono threshold =
    let predicted = add_saturating epoch_wall (now_mono - epoch_mono) in
    let skew = distance now_wall predicted in
    if ltb now_mono epoch_mono
    then epoch_wall
    else if leb skew threshold
    then epoch_wall
    else if leb predicted now_wall
    then add_saturating epoch_wall skew
    else if ltb epoch_wall skew
    then 0
    else epoch_wall - skew

-- `struct tm`, with the year and the month counted as they are printed.
pub record Tm : Type 0 where
  pub year : ℕ
  pub month : ℕ
  pub day : ℕ
  pub hour : ℕ
  pub minute : ℕ
  pub second : ℕ

abbrev digit : ℕ → ℕ
digit n = b'0' + n % 10

abbrev pub two_digits : ℕ → Bytes
two_digits n = digit (n / 10) ∷ digit n ∷ []

abbrev pub three_digits : ℕ → Bytes
three_digits n = digit (n / 100) ∷ two_digits n

abbrev pub four_digits : ℕ → Bytes
four_digits n = digit (n / 1000) ∷ three_digits n

-- `ph_format_iso8601` for the years 0 to 9999, where "%04d" has four digits.
unfoldable pub format_iso8601 : (ℕ → Tm) → ℕ → Bytes
format_iso8601 gmtime wall_ns =
    let t = gmtime (wall_ns / 1000000000) in
    four_digits t.year
    ++ (b'-' ∷ two_digits t.month
        ++ (b'-' ∷ two_digits t.day
            ++ (b'T' ∷ two_digits t.hour
                ++ (b':' ∷ two_digits t.minute
                    ++ (b':' ∷ two_digits t.second
                        ++ (b'.' ∷ three_digits (wall_ns / 1000000 % 1000) ++ (b'Z' ∷ [])))))))

abbrev word : ℕ
word = 2 ^ 64

unfoldable pub mix : ℕ → ℕ → ℕ → ℕ
mix shift factor x = bit_xor x (x / 2 ^ shift) * factor % word

unfoldable pub splitmix64 : ℕ → ℕ
splitmix64 x =
    let y = (x + 0x9E3779B97F4A7C15) % word in
    let z = mix 27 0x94D049BB133111EB (mix 30 0xBF58476D1CE4E5B9 y) in bit_xor z (z / 2 ^ 31)

abbrev pub byte_at : ℕ → ℕ → ℕ
byte_at shift x = x / 2 ^ shift % 256

-- The sixteen bytes of `u`, from the time and the two random words.
unfoldable pub uuid_bytes : ℕ → ℕ → ℕ → Bytes
uuid_bytes wall_ms r0 r1 =
    byte_at 40 wall_ms
    ∷ byte_at 32 wall_ms
    ∷ byte_at 24 wall_ms
    ∷ byte_at 16 wall_ms
    ∷ byte_at 8 wall_ms
    ∷ byte_at 0 wall_ms
    ∷ bit_or 0x70 (r0 / 2 ^ 8 % 16)
    ∷ r0 % 256
    ∷ bit_or 0x80 (r0 / 2 ^ 16 % 64)
    ∷ byte_at 24 r0
    ∷ byte_at 0 r1
    ∷ byte_at 8 r1
    ∷ byte_at 16 r1
    ∷ byte_at 24 r1
    ∷ byte_at 32 r1
    ∷ byte_at 40 r1
    ∷ []

abbrev dash_before : ℕ → Bool
dash_before i = i == 4 || i == 6 || i == 8 || i == 10

-- The loop that writes the digits from byte `i` on.
unfoldable pub uuid_text : ℕ → Bytes → Bytes
uuid_text i [] = []
uuid_text i (b ∷ bs) =
    let rest = hex_digit (b / 16 % 16) ∷ hex_digit (b % 16) ∷ uuid_text (suc i) bs in
    if dash_before i then b'-' ∷ rest else rest

-- `ph_uuid_v7`
unfoldable pub uuid_v7 : ℕ → ℕ → ℕ → Bytes
uuid_v7 wall_ms salt seq =
    let r0 = splitmix64 (bit_xor salt (seq * 0x9E3779B97F4A7C15 % word)) in
    let r1 = splitmix64 (bit_xor r0 0xD1B54A32D192ED03) in uuid_text 0 (uuid_bytes wall_ms r0 r1)
