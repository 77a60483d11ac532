-- ===== src/Time/Uuid.antt =====
-- ph_uuid_v7 of src/ph_time.c.
use posthog_c.Base.{
  ℕ, suc, ◌+◌, ◌-◌, ◌*◌, ◌/◌, ◌%◌, ◌^◌, ◌<◌, ◌≡◌, refl, ap, ◌∙◌, Bool, true, false, not, [], ◌∷◌,
  leb, ◌==◌, ◌&&◌, if◌then◌else◌, bit_or, take, length, Bytes, IsByte, All, passes-below,
  passes_below, arith, Bool-cases, inl, inr, get_or,
}
use posthog_c.Json.{hex_digit}
use posthog_c.Time.{dash_before, uuid_bytes, uuid_text, uuid_v7}

-- The value of a lower-case hexadecimal digit.
abbrev hex_value : ℕ → ℕ
hex_value c = if leb c b'9' then c - b'0' else c - 87

-- The bytes whose digits a text lists; dashes are passed over.
unfoldable pub read_uuid : Bytes → Bytes
read_uuid [] = []
read_uuid (c ∷ []) = []
read_uuid (c ∷ d ∷ s) =
    let plain = (hex_value c * 16 + hex_value d) ∷ read_uuid s in
    let skipped = read_uuid (d ∷ s) in if c == b'-' then skipped else plain

-- The number that the bytes make, highest first.
unfoldable pub big_endian : ℕ → Bytes → ℕ
big_endian acc [] = acc
big_endian acc (b ∷ bs) = big_endian (acc * 256 + b) bs

digit_test : ℕ → Bool
digit_test n = (hex_value (hex_digit n) == n) && not (hex_digit n == b'-')

digit_table : passes_below digit_test 16 ≡ true
unfolding digit_test passes_below hex_digit
digit_table = refl

digit_lem : (n : ℕ) → n < 16 → (hex_value (hex_digit n) ≡ n) × ((hex_digit n == b'-') ≡ false)
unfolding digit_test
digit_lem n h = ground (arith, passes-below digit_test 16 n digit_table h)

read_pair :
    (b : ℕ) (s : Bytes)
    → b < 256
    → read_uuid (hex_digit (b / 16 % 16) ∷ hex_digit (b % 16) ∷ s) ≡ b ∷ read_uuid s
unfolding read_uuid
read_pair b s h =
    let hi = digit_lem (b / 16 % 16) (omega arith) in
    let lo = digit_lem (b % 16) (omega arith) in
    rw (hi.1) (ap (λ n. n ∷ read_uuid s) (omega (arith, hi.0, lo.0)))

read_dash : (c : ℕ) (s : Bytes) → read_uuid (b'-' ∷ c ∷ s) ≡ read_uuid (c ∷ s)
unfolding read_uuid
read_dash c s = refl

read-uuid_text : (i : ℕ) (bs : Bytes) → All IsByte bs → read_uuid (uuid_text i bs) ≡ bs
unfolding uuid_text
read-uuid_text i [] h = unfold read_uuid in refl
read-uuid_text i (b ∷ bs) (hb, hs) =
    let one =
      read_pair b (uuid_text (suc i) bs) hb ∙ ap (λ t. b ∷ t) (read-uuid_text (suc i) bs hs) in
    elim (Bool-cases (dash_before i)) [ inl e ↦ rw e (read_dash _ _ ∙ one) | inr e ↦ rw e one ]

version_test : ℕ → Bool
version_test n = bit_or 0x70 n / 16 == 7

variant_test : ℕ → Bool
variant_test n = bit_or 0x80 n / 64 == 2

version_table : passes_below version_test 16 ≡ true
unfolding version_test passes_below
version_table = refl

variant_table : passes_below variant_test 64 ≡ true
unfolding variant_test passes_below
variant_table = refl

version_lem : (n : ℕ) → n < 16 → bit_or 0x70 n / 16 ≡ 7
unfolding version_test
version_lem n h = ground (arith, passes-below version_test 16 n version_table h)

variant_lem : (n : ℕ) → n < 64 → bit_or 0x80 n / 64 ≡ 2
unfolding variant_test
variant_lem n h = ground (arith, passes-below variant_test 64 n variant_table h)

uuid_bytes-IsByte : (wall_ms r0 r1 : ℕ) → All IsByte (uuid_bytes wall_ms r0 r1)
unfolding uuid_bytes
uuid_bytes-IsByte wall_ms r0 r1 =
    ground (arith, version_lem (r0 / 2 ^ 8 % 16), variant_lem (r0 / 2 ^ 16 % 64))

six_bytes :
    (wall_ms r0 r1 : ℕ)
    → wall_ms < 2 ^ 48
    → big_endian 0 (take 6 (uuid_bytes wall_ms r0 r1)) ≡ wall_ms
unfolding uuid_bytes big_endian
six_bytes wall_ms r0 r1 h = omega arith

-- The UUID of an event is a text of 36 characters that reads back as sixteen bytes: the first six are
-- the millisecond of the event, highest first, where that has 48 bits, so UUIDs sort by time; the
-- version is 7 and the variant is binary 10, whatever the salt and the sequence number are.
pub uuid_v7_lem :
    (wall_ms salt seq : ℕ)
    → wall_ms < 2 ^ 48
    → let u = uuid_v7 wall_ms salt seq in
      (length u ≡ 36)
      × (length (read_uuid u) ≡ 16)
      × (big_endian 0 (take 6 (read_uuid u)) ≡ wall_ms)
      × (get_or (read_uuid u) 6 0 / 16 ≡ 7)
      × (get_or (read_uuid u) 8 0 / 64 ≡ 2)
unfolding uuid_v7
uuid_v7_lem wall_ms salt seq h =
    rw (read-uuid_text 0 (uuid_bytes wall_ms _ _) (uuid_bytes-IsByte wall_ms _ _)) (
      unfold uuid_text uuid_bytes in refl,
      unfold uuid_bytes in refl,
      six_bytes wall_ms _ _ h,
      unfold uuid_bytes in version_lem _ (omega arith),
      unfold uuid_bytes in variant_lem _ (omega arith),
    )
