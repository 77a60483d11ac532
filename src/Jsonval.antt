-- ===== src/Jsonval.antt =====
-- The JSON reader of src/ph_jsonval.c, its strings first. A cursor is the list of the bytes from `p`
-- to `end`. The allocations are taken to succeed; where the source returns NULL, the result is
-- `none`.
pub mod Value
pub mod Text
pub mod Strings
pub mod RoundTrip
pub mod Scrub
mod Tests
use posthog_c.Base.{
  ℕ, zero, suc, ◌+◌, ◌-◌, ◌*◌, ◌/◌, ◌%◌, ◌^◌, Bool, true, false, ◌&&◌, ◌||◌, not, Option, none,
  some, List, [], ◌∷◌, ◌++◌, ltb, leb, ◌==◌, if◌then◌else◌, bit_and, bit_or, length, Bytes,
}
use posthog_c.Json.{between, is_continuation}

abbrev pub is_space : ℕ → Bool
is_space ch = ch == b' ' || ch == 9 || ch == 10 || ch == 13

unfoldable pub skip_ws : Bytes → Bytes
skip_ws [] = []
skip_ws (ch ∷ c) = let rest = skip_ws c in if is_space ch then rest else ch ∷ c

-- `utf8_encode`; each element is what the cast to `char` keeps.
unfoldable pub utf8_encode : ℕ → Bytes
utf8_encode cp =
    if ltb cp 0x80
    then (cp % 256) ∷ []
    else if ltb cp 0x800
    then (bit_or 0xC0 (cp / 2 ^ 6) % 256) ∷ (bit_or 0x80 (bit_and cp 0x3F) % 256) ∷ []
    else if ltb cp 0x10000
    then (bit_or 0xE0 (cp / 2 ^ 12) % 256)
      ∷ (bit_or 0x80 (bit_and (cp / 2 ^ 6) 0x3F) % 256)
      ∷ (bit_or 0x80 (bit_and cp 0x3F) % 256)
      ∷ []
    else (bit_or 0xF0 (cp / 2 ^ 18) % 256)
      ∷ (bit_or 0x80 (bit_and (cp / 2 ^ 12) 0x3F) % 256)
      ∷ (bit_or 0x80 (bit_and (cp / 2 ^ 6) 0x3F) % 256)
      ∷ (bit_or 0x80 (bit_and cp 0x3F) % 256)
      ∷ []

-- One round of `utf8_valid`: how far `i` moves on; 0 is the `return 0`.
unfoldable pub valid_two : Bytes → ℕ
valid_two (s1 ∷ rest) = if is_continuation s1 then 2 else 0
valid_two [] = 0

unfoldable pub valid_three : ℕ → Bytes → ℕ
valid_three c (s1 ∷ s2 ∷ rest) =
    if not (is_continuation s2)
    then 0
    else if c == 0xE0
    then if ltb s1 0xA0 || ltb 0xBF s1 then 0 else 3
    else if c == 0xED
    then if ltb s1 0x80 || ltb 0x9F s1 then 0 else 3
    else if not (is_continuation s1)
    then 0
    else 3
valid_three c _ = 0

unfoldable pub valid_four : ℕ → Bytes → ℕ
valid_four c (s1 ∷ s2 ∷ s3 ∷ rest) =
    if not (is_continuation s2) || not (is_continuation s3)
    then 0
    else if c == 0xF0
    then if ltb s1 0x90 || ltb 0xBF s1 then 0 else 4
    else if c == 0xF4
    then if ltb s1 0x80 || ltb 0x8F s1 then 0 else 4
    else if not (is_continuation s1)
    then 0
    else 4
valid_four c _ = 0

unfoldable pub valid_step : ℕ → Bytes → ℕ
valid_step c rest =
    if ltb c 0x80
    then 1
    else if between 0xC2 c 0xDF
    then valid_two rest
    else if between 0xE0 c 0xEF
    then valid_three c rest
    else if between 0xF0 c 0xF4
    then valid_four c rest
    else 0

-- The loop of `utf8_valid`. The first argument counts the bytes that `i` still steps over.
unfoldable pub utf8_valid_from : ℕ → Bytes → Bool
utf8_valid_from skip [] = true
utf8_valid_from (suc skip) (b ∷ bs) = utf8_valid_from skip bs
utf8_valid_from zero (b ∷ bs) =
    let step = valid_step b bs in ltb 0 step && utf8_valid_from (step - 1) bs

unfoldable pub utf8_valid : Bytes → Bool
utf8_valid s = utf8_valid_from 0 s

-- The value of one hexadecimal digit.
unfoldable pub hex_value : ℕ → Option ℕ
hex_value ch =
    if between b'0' ch b'9'
    then some (ch - b'0')
    else if between b'a' ch b'f'
    then some (ch - b'a' + 10)
    else if between b'A' ch b'F'
    then some (ch - b'A' + 10)
    else none

-- `hex4` over the bytes at `p`, with the bytes behind; each round is `v <<= 4; v |= digit`.
unfoldable pub hex_loop : ℕ → ℕ → Bytes → Option (ℕ × Bytes)
hex_loop zero v p = some (v, p)
hex_loop (suc n) v [] = none
hex_loop (suc n) v (ch ∷ p) = elim (hex_value ch) [
  | none ↦ none
  | some d ↦ hex_loop n (v * 16 + d) p
]

unfoldable pub hex4 : Bytes → Option (ℕ × Bytes)
hex4 p = hex_loop 4 0 p

-- What one round of the loop of `parse_string_raw` does: it ends behind the closing quote, appends
-- bytes and moves on, or returns NULL.
pub data Step : Type 0 where
  close : Bytes → Step
  emit : Bytes → Bytes → Step
  fail : Step

unfoldable pub emit_code : ℕ → Bytes → Step
emit_code cp p = if cp == 0 || between 0xDC00 cp 0xDFFF then fail else emit (utf8_encode cp) p

-- Behind a high surrogate: the low one has to follow as an escape of its own.
unfoldable pub low_surrogate : ℕ → Bytes → Step
low_surrogate cp (b ∷ u ∷ p) =
    if b == b'\\' && u == b'u'
    then elim (hex4 p) [
      | none ↦ fail
      | some (lo, p') ↦
          if between 0xDC00 lo 0xDFFF
          then emit_code (0x10000 + (cp - 0xD800) * 2 ^ 10 + (lo - 0xDC00)) p'
          else fail
    ]
    else fail
low_surrogate cp _ = fail

unfoldable pub unicode_escape : Bytes → Step
unicode_escape p = elim (hex4 p) [
  | none ↦ fail
  | some (cp, p') ↦ if between 0xD800 cp 0xDBFF then low_surrogate cp p' else emit_code cp p'
]

-- Behind a backslash.
unfoldable pub escape_step : Bytes → Step
escape_step [] = fail
escape_step (e ∷ p) =
    if e == b'"'
    then emit (b'"' ∷ []) p
    else if e == b'\\'
    then emit (b'\\' ∷ []) p
    else if e == b'/'
    then emit (b'/' ∷ []) p
    else if e == b'b'
    then emit (8 ∷ []) p
    else if e == b'f'
    then emit (12 ∷ []) p
    else if e == b'n'
    then emit (10 ∷ []) p
    else if e == b'r'
    then emit (13 ∷ []) p
    else if e == b't'
    then emit (9 ∷ []) p
    else if e == b'u'
    then unicode_escape p
    else fail

unfoldable pub string_step : Bytes → Step
string_step [] = fail
string_step (ch ∷ p) =
    if ch == b'"'
    then close p
    else if ch == b'\\'
    then escape_step p
    else if leb 0x20 ch
    then emit (ch ∷ []) p
    else fail

-- The loop; each round takes a byte at least, so one round for each byte and one more are enough.
unfoldable pub string_loop : ℕ → Bytes → Bytes → Option (Bytes × Bytes)
string_loop zero out p = none
string_loop (suc fuel) out p = elim (string_step p) [
  | close rest ↦ if utf8_valid out then some (out, rest) else none
  | emit bytes rest ↦ string_loop fuel (out ++ bytes) rest
  | fail ↦ none
]

-- The unescaped string and the cursor behind the closing quote.
unfoldable pub parse_string_raw : Bytes → Option (Bytes × Bytes)
parse_string_raw [] = none
parse_string_raw (q ∷ p) = if q == b'"' then string_loop (suc (length p)) [] p else none
