-- ===== src/Json.antt =====
-- The string writer of src/ph_json.c: what `ph_json_str` and its kin append to the buffer while the
-- buffer has memory.
pub mod Utf8
use posthog_c.Base.{
  ℕ, zero, suc, ◌+◌, ◌-◌, ◌/◌, ◌%◌, Bool, true, false, ◌&&◌, ◌||◌, not, Option, none, some, List,
  [], ◌∷◌, ◌++◌, ltb, leb, ◌==◌, if◌then◌else◌, bit_and, take, Bytes, codes, get_or,
}

-- `(b & 0xC0) == 0x80`
unfoldable pub is_continuation : ℕ → Bool
is_continuation b = bit_and b 0xC0 == 0x80

abbrev pub between : ℕ → ℕ → ℕ → Bool
between lo b hi = leb lo b && leb b hi

-- The branches of `utf8_seq_len` behind a lead byte, over the bytes after it.
unfoldable pub seq_len_two : Bytes → ℕ
unfolding is_continuation
seq_len_two (s1 ∷ rest) = if is_continuation s1 then 2 else 0
seq_len_two [] = 0

unfoldable pub seq_len_three : ℕ → Bytes → ℕ
seq_len_three c (s1 ∷ s2 ∷ rest) =
    if not (is_continuation s2)
    then 0
    else if c == 0xE0
    then if between 0xA0 s1 0xBF then 3 else 0
    else if c == 0xED
    then if between 0x80 s1 0x9F then 3 else 0
    else if is_continuation s1
    then 3
    else 0
seq_len_three c _ = 0

unfoldable pub seq_len_four : ℕ → Bytes → ℕ
seq_len_four c (s1 ∷ s2 ∷ s3 ∷ rest) =
    if not (is_continuation s2) || not (is_continuation s3)
    then 0
    else if c == 0xF0
    then if between 0x90 s1 0xBF then 4 else 0
    else if c == 0xF4
    then if between 0x80 s1 0x8F then 4 else 0
    else if is_continuation s1
    then 4
    else 0
seq_len_four c _ = 0

-- The length of the well-formed UTF-8 sequence at the front, or 0.
unfoldable pub utf8_seq_len : Bytes → ℕ
utf8_seq_len [] = 0
utf8_seq_len (c ∷ rest) =
    if ltb c 0x80
    then 1
    else if between 0xC2 c 0xDF
    then seq_len_two rest
    else if between 0xE0 c 0xEF
    then seq_len_three c rest
    else if between 0xF0 c 0xF4
    then seq_len_four c rest
    else 0

-- `k_hex`
unfoldable pub hex_digit : ℕ → ℕ
hex_digit n = get_or (codes "0123456789abcdef") n 0

-- What the `switch` of `ph_json_str` writes for a byte below 0x80.
unfoldable pub escape : ℕ → Bytes
escape c =
    if c == b'"'
    then b'\\' ∷ b'"' ∷ []
    else if c == b'\\'
    then b'\\' ∷ b'\\' ∷ []
    else if c == 8
    then b'\\' ∷ b'b' ∷ []
    else if c == 12
    then b'\\' ∷ b'f' ∷ []
    else if c == 10
    then b'\\' ∷ b'n' ∷ []
    else if c == 13
    then b'\\' ∷ b'r' ∷ []
    else if c == 9
    then b'\\' ∷ b't' ∷ []
    else if ltb c 0x20
    then b'\\'
      ∷ b'u'
      ∷ b'0'
      ∷ b'0'
      ∷ hex_digit (bit_and (c / 16) 0xF)
      ∷ hex_digit (bit_and c 0xF)
      ∷ []
    else c ∷ []

abbrev pub replacement : Bytes
replacement = 0xEF ∷ 0xBF ∷ 0xBD ∷ []

-- The loop of `ph_json_str`. The first argument counts the bytes of a sequence that was copied whole
-- and over which `i` moves on.
unfoldable pub json_body : ℕ → Bytes → Bytes
json_body skip [] = []
json_body (suc skip) (b ∷ bs) = json_body skip bs
json_body zero (b ∷ bs) =
    let seq = utf8_seq_len (b ∷ bs) in
    let ascii = ltb b 0x80 in
    (if ascii then escape b else if ltb 0 seq then take seq (b ∷ bs) else replacement)
    ++ json_body (if ascii then 0 else seq - 1) bs

unfoldable pub json_str : Bytes → Bytes
json_str s = (b'"' ∷ json_body 0 s) ++ (b'"' ∷ [])

-- `none` is the NULL that is written as an empty string.
unfoldable pub json_cstr : Option Bytes → Bytes
json_cstr none = json_str []
json_cstr (some s) = json_str s

unfoldable pub json_bool : Bool → Bytes
json_bool true = codes "true"
json_bool false = codes "false"
