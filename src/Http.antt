-- ===== src/Http.antt =====
-- The framing of HTTP response bodies in src/ph_http.c: decode_chunked_full and what it scans. A position
-- in the body is the list of the bytes from there on. `size_t` has 64 bits.
pub mod Lines
pub mod Frames
pub mod Bounds
pub mod Rounds
pub mod Head
pub mod Fields
pub mod Codings
pub mod Tokens
pub mod Url
pub mod Responses
mod Tests
use posthog_c.Base.{
  ℕ, zero, suc, ◌+◌, ◌-◌, ◌*◌, ◌/◌, ◌^◌, Bool, true, false, ◌&&◌, ◌||◌, Option, none, some, [], ◌∷◌,
  ◌++◌, ltb, leb, ◌==◌, if◌then◌else◌, length, take, drop, Bytes,
}

abbrev pub size_max : ℕ
size_max = 2 ^ 64 - 1

-- `none` is the return value -1.
unfoldable pub hex_value : ℕ → Option ℕ
hex_value c =
    if leb b'0' c && leb c b'9'
    then some (c - b'0')
    else if leb b'a' c && leb c b'f'
    then some (c - b'a' + 10)
    else if leb b'A' c && leb c b'F'
    then some (c - b'A' + 10)
    else none

-- The loop over the digits of a chunk size: the size, whether there were digits, and what follows;
-- `none` where the size would not fit.
unfoldable pub hex_size : ℕ → Bool → Bytes → Option (ℕ × Bool × Bytes)
hex_size len digits [] = some (len, digits, [])
hex_size len digits (c ∷ p) = elim (hex_value c) [
  | none ↦ some (len, digits, c ∷ p)
  | some hv ↦
      let next = hex_size (len * 16 + hv) true p in
      if ltb ((size_max - hv) / 16) len then none else next
]

abbrev pub ends_line : ℕ → Bool
ends_line c = c == 13 || c == 10

unfoldable pub to_line_end : Bytes → Bytes
to_line_end [] = []
to_line_end (c ∷ p) = let rest = to_line_end p in if ends_line c then c ∷ p else rest

-- What decode_chunked_full returns: 1 with the decoded bytes, 0, -1, -2.
pub data Verdict : Type 0 where
  complete : Bytes → Verdict
  truncated : Verdict
  malformed : Verdict
  too_large : Verdict

-- The check for CR LF that both loops make, and what it does behind them.
unfoldable pub crlf : Bytes → (Bytes → Verdict) → Verdict
crlf (a ∷ b ∷ p) next = if (a == 13) && (b == 10) then next p else malformed
crlf _ next = truncated

-- The loop over the trailer fields; each round takes two bytes at least.
unfoldable pub trailers : ℕ → Bytes → Bytes → Verdict
trailers zero out p = truncated
trailers (suc fuel) out p = crlf (to_line_end p) (λ r.
    let next = trailers fuel out r in
    if length (to_line_end p) == length p then complete out else next)

-- Whether `n` more bytes overrun `out`; `none` is a NULL `out`.
unfoldable pub overruns : Option ℕ → Bytes → ℕ → Bool
overruns none out n = false
overruns (some cap) out n = cap == 0 || leb cap (length out) || leb (cap - length out) n

-- What follows the size line: the data and its CR LF, then the next chunk by `next`.
unfoldable pub chunk_data : (Bytes → Bytes → Verdict) → Option ℕ → Bytes → ℕ → Bytes → Verdict
chunk_data next cap out len p =
    if ltb (length p) len
    then truncated
    else if ltb (size_max - length out) len
    then malformed
    else if overruns cap out len
    then too_large
    else crlf (drop len p) (next (out ++ take len p))

-- The loop over chunks; each round takes a byte at least. `out` is what was decoded before.
unfoldable pub chunks : ℕ → Option ℕ → Bytes → Bytes → Verdict
chunks zero cap out p = truncated
chunks (suc fuel) cap out p = elim (hex_size 0 false p) [
  | none ↦ malformed
  | some (len, digits, q) ↦
      if digits
      then crlf (to_line_end q) (λ r.
        if len == 0
        then trailers (suc (length r)) out r
        else chunk_data (chunks fuel cap) cap out len r)
      else if length q == 0
      then truncated
      else malformed
]

unfoldable pub decode_chunked_full : Option ℕ → Bytes → Verdict
decode_chunked_full cap body = chunks (suc (length body)) cap [] body
