-- ===== src/Serialize/Reads.antt =====
-- What src/ph_jsonval.c makes of the scalars that src/ph_json.c writes.
use posthog_c.Base.{
  ℕ, zero, suc, ◌+◌, ◌-◌, ◌*◌, ◌/◌, ◌%◌, ◌^◌, ◌≤◌, ◌<◌, ◌≡◌, ◌⊎◌, inl, inr, refl, sym, ap, ◌∙◌,
  Bool, true, false, ◌||◌, some, List, [], ◌∷◌, ◌++◌, ltb, leb, ◌==◌, if◌then◌else◌, arith, dec_lt,
  by_cases, Bool-cases, append_assoc, append-nil, Bytes, IsChar, All, codes,
}
use native.Mathlib.Nat.{pow-suc}
use posthog_c.Json.{json_str, json_bool}
use posthog_c.Jsonval.{skip_ws}
use posthog_c.Jsonval.RoundTrip.{scrub}
use posthog_c.Jsonval.Scrub.{parse_string_raw-json_str}
use posthog_c.Jsonval.Value.{
  null, boolean, num, str, Number, is_digit, starts_digit, digits, number_whole, number_fraction,
  number_exponent, number_sign, parse_number, behind, parse_literal, parse_string, dispatch,
  parse_value,
}
use posthog_c.Serialize.{decimal, json_int}

-- The digits of a number, as values.
unfoldable pub places : ℕ → ℕ → List ℕ
places zero n = []
places (suc fuel) n =
    let front = places fuel (n / 10) in if ltb n 10 then n ∷ [] else front ++ ((n % 10) ∷ [])

-- The number that digits make.
unfoldable pub value_of : ℕ → List ℕ → ℕ
value_of acc [] = acc
value_of acc (d ∷ ds) = value_of (acc * 10 + d) ds

value_of-append :
    (acc : ℕ) (xs ys : List ℕ) → value_of acc (xs ++ ys) ≡ value_of (value_of acc xs) ys
unfolding value_of
value_of-append acc [] ys = refl
value_of-append acc (x ∷ xs) ys = value_of-append (acc * 10 + x) xs ys

tenth : (fuel n : ℕ) → n < 10 ^ suc fuel → n / 10 < 10 ^ fuel
tenth fuel n h = omega (arith, pow-suc 10 fuel)

value_of-places : (fuel n : ℕ) → n < 10 ^ fuel → value_of 0 (places fuel n) ≡ n
unfolding value_of places
value_of-places zero n h = omega arith
value_of-places (suc fuel) n h =
    by_cases (λ ds. value_of 0 ds ≡ n) (ltb n 10) (λ small. omega arith)
      (λ large.
        value_of-append 0 (places fuel (n / 10)) ((n % 10) ∷ [])
        ∙ omega (arith, value_of-places fuel (n / 10) (tenth fuel n h)))

digit_first :
    (d : ℕ) (t : Bytes) → d < 10 → digits ((48 + d) ∷ t) ≡ (d ∷ (digits t).0, (digits t).1)
unfolding digits
digit_first d t h = ground arith

digits-decimal :
    (fuel n : ℕ) (t : Bytes)
    → digits (decimal fuel n ++ t) ≡ (places fuel n ++ (digits t).0, (digits t).1)
unfolding digits decimal places
digits-decimal zero n t = refl
digits-decimal (suc fuel) n t = elim (Bool-cases (ltb n 10)) [
  | inl small ↦ rw small (digit_first n t (ground arith))
  | inr large ↦ rw large (
      ap digits (append_assoc (decimal fuel (n / 10)) ((48 + n % 10) ∷ []) t)
      ∙ digits-decimal fuel (n / 10) ((48 + n % 10) ∷ t)
      ∙ ap (λ (r : List ℕ × Bytes). (places fuel (n / 10) ++ r.0, r.1))
          (digit_first (n % 10) t (omega arith))
      ∙ ap (λ ds. (ds, (digits t).1))
          (sym (append_assoc (places fuel (n / 10)) ((n % 10) ∷ []) (digits t).0)))
]

-- The first digit of a number that is not 0.
decimal_head :
    (fuel n : ℕ)
    → 0 < n
    → n < 10 ^ fuel
    → (ch : ℕ) × (p : Bytes) × (decimal fuel n ≡ ch ∷ p) × (49 ≤ ch) × (ch ≤ 57)
unfolding decimal
decimal_head zero n pos h = absurd (omega arith)
decimal_head (suc fuel) n pos h = elim (Bool-cases (ltb n 10)) [
  | inl small ↦ (48 + n, [], rw small refl, omega arith, ground arith)
  | inr large ↦
      let (ch, p, e, lo, hi) = decimal_head fuel (n / 10) (ground arith) (tenth fuel n h) in
      (ch, p ++ ((48 + n % 10) ∷ []), rw (large, e) refl, lo, hi)
]

-- What may follow a value in an object.
abbrev pub Ends : ℕ → Type 0
Ends c = (c ≡ b',') ⊎ (c ≡ b'}')

no_more_digits :
    (c : ℕ) (r : Bytes) → Ends c → (digits (c ∷ r) ≡ ([], c ∷ r)) × (starts_digit (c ∷ r) ≡ false)
unfolding digits
no_more_digits c r (inl e) = rw e (refl, refl)
no_more_digits c r (inr e) = rw e (refl, refl)

no_fraction :
    (c : ℕ) (r : Bytes)
    → Ends c
    → (number_fraction (c ∷ r) ≡ some ([], c ∷ r))
      × (number_exponent (c ∷ r) ≡ some (false, 0, c ∷ r))
unfolding number_fraction number_exponent
no_fraction c r (inl e) = rw e (refl, refl)
no_fraction c r (inr e) = rw e (refl, refl)

-- The digits that the reader keeps of a magnitude; none for 0.
unfoldable pub kept_places : ℕ → List ℕ
kept_places n = if n == 0 then [] else places 20 n

leading : (ch : ℕ) (t : Bytes) → 49 ≤ ch → ch ≤ 57 → number_whole (ch ∷ t) ≡ some (digits (ch ∷ t))
unfolding number_whole
leading ch t lo hi = ground arith

all_digits :
    (n c : ℕ) (r : Bytes) → Ends c → digits (decimal 20 n ++ (c ∷ r)) ≡ (places 20 n, c ∷ r)
all_digits n c r ends =
    digits-decimal 20 n (c ∷ r)
    ∙ ap (λ (d : List ℕ × Bytes). (places 20 n ++ d.0, d.1)) (no_more_digits c r ends).0
    ∙ ap (λ ds. (ds, c ∷ r)) (append-nil (places 20 n))

kept_pos : (n : ℕ) → 0 < n → kept_places n ≡ places 20 n
unfolding kept_places
kept_pos n h = by_cases (λ ds. ds ≡ places 20 n) (n == 0) (λ z. absurd (ground arith)) (λ nz. refl)

whole_places :
    (n c : ℕ) (r : Bytes)
    → n < 10 ^ 20
    → Ends c
    → number_whole (decimal 20 n ++ (c ∷ r)) ≡ some (kept_places n, c ∷ r)
whole_places n c r h ends = elim (dec_lt 0 n) [
  | no zero_n ↦
      let e : n ≡ 0 = omega arith in
      rw e (unfold decimal number_whole kept_places in rw (no_more_digits c r ends).1 refl)
  | yes pos ↦
      let (ch, p, e, lo, hi) = decimal_head 20 n pos h in
      ap (λ w. number_whole (w ++ (c ∷ r))) e
      ∙ leading ch (p ++ (c ∷ r)) lo hi
      ∙ ap (λ w. some (digits (w ++ (c ∷ r)))) (sym e)
      ∙ ap some (all_digits n c r ends)
      ∙ ap (λ ds. some (ds, c ∷ r)) (sym (kept_pos n pos))
]

value_of-kept_places : (n : ℕ) → n < 10 ^ 20 → value_of 0 (kept_places n) ≡ n
unfolding kept_places value_of
value_of-kept_places n h =
    by_cases (λ ds. value_of 0 ds ≡ n) (n == 0) (λ z. ground arith) (λ nz. value_of-places 20 n h)

-- A text that starts as a number does.
NumberHead : Bytes → Type 0
NumberHead [] = ⊥
NumberHead (ch ∷ t) = ((ch == b'-') || is_digit ch) ≡ true

number_value : (levels : ℕ) (t : Bytes) → NumberHead t → parse_value (suc levels) t ≡ parse_number t
unfolding NumberHead parse_value skip_ws dispatch
number_value levels [] h = absurd h
number_value levels (ch ∷ t) h =
    let range : (ch ≡ 45) ⊎ ((48 ≤ ch) × (ch ≤ 57)) = ground arith in
    elim range [ inl e ↦ rw e refl | inr (lo, hi) ↦ ground arith ]

-- The number of a sign and a magnitude.
unfoldable pub plain_number : Bool → ℕ → Number
plain_number negative n = record {
  negative = negative;
  whole = kept_places n;
  fraction = [];
  exp_negative = false;
  exp = 0;
}

signed_number :
    (negative : Bool) (t : Bytes) (n c : ℕ) (r : Bytes)
    → number_sign t ≡ (negative, decimal 20 n ++ (c ∷ r))
    → n < 10 ^ 20
    → Ends c
    → parse_number t ≡ some (num (plain_number negative n), c ∷ r)
unfolding parse_number plain_number
signed_number negative t n c r sign h ends =
    let more = no_fraction c r ends in rw (sign, whole_places n c r h ends, more.0, more.1) refl

decimal_cons :
    (n : ℕ) → n < 10 ^ 20 → (ch : ℕ) × (p : Bytes) × (decimal 20 n ≡ ch ∷ p) × (48 ≤ ch) × (ch ≤ 57)
decimal_cons n h = elim (dec_lt 0 n) [
  | yes pos ↦ let (ch, p, e, lo, hi) = decimal_head 20 n pos h in (ch, p, e, omega arith, hi)
  | no z ↦
      let e : n ≡ 0 = omega arith in
      (48, [], ap (decimal 20) e ∙ (unfold decimal in refl), omega arith, omega arith)
]

unsigned_value :
    (levels n c : ℕ) (r : Bytes)
    → n < 10 ^ 20
    → Ends c
    → parse_value (suc levels) (decimal 20 n ++ (c ∷ r)) ≡ some (num (plain_number false n), c ∷ r)
unfolding NumberHead number_sign
unsigned_value levels n c r h ends =
    let (ch, p, e, lo, hi) = decimal_cons n h in
    let head : NumberHead (ch ∷ (p ++ (c ∷ r))) = ground arith in
    let sign : number_sign (ch ∷ (p ++ (c ∷ r))) ≡ (false, ch ∷ (p ++ (c ∷ r))) = ground arith in
    ap (λ w. parse_value (suc levels) (w ++ (c ∷ r))) e
    ∙ number_value levels (ch ∷ (p ++ (c ∷ r))) head
    ∙ signed_number false (ch ∷ (p ++ (c ∷ r))) n c r
        (sign ∙ ap (λ w. (false, w ++ (c ∷ r))) (sym e)) h ends

negative_value :
    (levels n c : ℕ) (r : Bytes)
    → n < 10 ^ 20
    → Ends c
    → parse_value (suc levels) (b'-' ∷ (decimal 20 n ++ (c ∷ r)))
      ≡ some (num (plain_number true n), c ∷ r)
unfolding NumberHead number_sign
negative_value levels n c r h ends =
    number_value levels (b'-' ∷ (decimal 20 n ++ (c ∷ r))) refl
    ∙ signed_number true (b'-' ∷ (decimal 20 n ++ (c ∷ r))) n c r refl h ends

-- The number that the reader makes of an `int64_t` pattern.
unfoldable pub int_number : ℕ → Number
unfolding plain_number
int_number i = if ltb i (2 ^ 63) then plain_number false i else plain_number true (2 ^ 64 - i)

pub read_int :
    (levels i c : ℕ) (r : Bytes)
    → i < 2 ^ 64
    → Ends c
    → parse_value (suc levels) (json_int i ++ (c ∷ r)) ≡ some (num (int_number i), c ∷ r)
unfolding json_int int_number
read_int levels i c r h ends = elim (Bool-cases (ltb i (2 ^ 63))) [
  | inl small ↦ rw (small, json_int, int_number) (unsigned_value levels i c r (omega arith) ends)
  | inr large ↦
      rw (large, json_int, int_number) (negative_value levels (2 ^ 64 - i) c r (omega arith) ends)
]

pub read_bool :
    (levels : ℕ) (b : Bool) (r : Bytes)
    → parse_value (suc levels) (json_bool b ++ r) ≡ some (boolean b, r)
unfolding json_bool parse_value skip_ws dispatch parse_literal behind
read_bool levels true r = refl
read_bool levels false r = refl

pub read_null :
    (levels : ℕ) (r : Bytes) → parse_value (suc levels) (codes "null" ++ r) ≡ some (null, r)
unfolding parse_value skip_ws dispatch parse_literal behind
read_null levels r = refl

pub read_str :
    (levels : ℕ) (s r : Bytes)
    → All IsChar s
    → parse_value (suc levels) (json_str s ++ r) ≡ some (str (scrub 0 s), r)
unfolding parse_value skip_ws dispatch parse_string json_str
read_str levels s r h = rw (parse_string_raw-json_str s r h) refl

-- The number has the sign of the integer, and its digits make the magnitude.
pub int_number_lem :
    (i : ℕ)
    → i < 2 ^ 64
    → ((int_number i).negative ≡ leb (2 ^ 63) i)
      × (value_of 0 (int_number i).whole ≡ (if ltb i (2 ^ 63) then i else 2 ^ 64 - i))
      × ((int_number i).fraction ≡ [])
      × ((int_number i).exp ≡ 0)
unfolding int_number plain_number
int_number_lem i h = elim (Bool-cases (ltb i (2 ^ 63))) [
  | inl small ↦
      rw (small, int_number) (ground arith, value_of-kept_places i (omega arith), refl, refl)
  | inr large ↦
      rw (large, int_number)
        (ground arith, value_of-kept_places (2 ^ 64 - i) (omega arith), refl, refl)
]
