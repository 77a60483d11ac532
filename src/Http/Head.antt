-- ===== src/Http/Head.antt =====
-- The head of an HTTP response in src/ph_http.c: status line, header fields, and
-- ph__http_decode_response_body. tolower is that of the "C" locale; `long` has at least 32 bits.
use posthog_c.Base.{
  ℕ, zero, suc, ◌+◌, ◌-◌, ◌*◌, Bool, true, false, ◌&&◌, ◌||◌, Option, none, some, [], ◌∷◌, ltb, leb,
  ◌==◌, if◌then◌else◌, length, take, Bytes, codes, bytes_eq, map,
}
use posthog_c.Base.Int.{ℤ, pos, negsuc}
use posthog_c.Http.{
  ends_line, Verdict, complete, truncated, malformed, too_large, decode_chunked_full,
}

-- What follows CR LF CR LF at the front.
unfoldable pub blank_line : Bytes → Option Bytes
blank_line (a ∷ b ∷ c ∷ d ∷ p) =
    if (a == 13) && (b == 10) && (c == 13) && (d == 10) then some p else none
blank_line _ = none

-- The bytes before the first blank line and those behind it; `none` is NULL.
unfoldable pub find_header_end : Bytes → Option (Bytes × Bytes)
find_header_end [] = none
find_header_end (c ∷ p) = elim (blank_line (c ∷ p)) [
  | some body ↦ some ([], body)
  | none ↦ elim (find_header_end p) [ none ↦ none | some (head, body) ↦ some (c ∷ head, body) ]
]

abbrev pub is_digit : ℕ → Bool
is_digit c = leb b'0' c && leb c b'9'

unfoldable pub to_space : Bytes → Bytes
to_space [] = []
to_space (c ∷ p) = let rest = to_space p in if c == b' ' then c ∷ p else rest

unfoldable pub skip_spaces : Bytes → Bytes
skip_spaces [] = []
skip_spaces (c ∷ p) = let rest = skip_spaces p in if c == b' ' then rest else c ∷ p

unfoldable pub three_digits : Bytes → ℤ
three_digits (a ∷ b ∷ c ∷ p) =
    if is_digit a && is_digit b && is_digit c
    then pos ((a - b'0') * 100 + (b - b'0') * 10 + (c - b'0'))
    else negsuc 0
three_digits _ = negsuc 0

unfoldable pub parse_status : Bytes → ℤ
parse_status resp = three_digits (skip_spaces (to_space resp))

abbrev pub tolower : ℕ → ℕ
tolower c = if leb b'A' c && leb c b'Z' then c + 32 else c

-- What follows the key at the front, whatever its case.
unfoldable pub match_key : Bytes → Bytes → Option Bytes
match_key [] p = some p
match_key (k ∷ key) [] = none
match_key (k ∷ key) (c ∷ p) = let rest = match_key key p in if tolower c == k then rest else none

-- The loop over the lines of the head that the scanners share; the flag says whether a line starts here.
unfoldable pub find_field : Bytes → Bool → Bytes → Option Bytes
find_field key start [] = none
find_field key start (c ∷ p) =
    let next = find_field key (c == 10) p in
    if start then elim (match_key key (c ∷ p)) [ some r ↦ some r | none ↦ next ] else next

abbrev pub max_content_len : ℕ
max_content_len = 100000000

unfoldable pub skip_blank : Bytes → Bytes
skip_blank [] = []
skip_blank (c ∷ p) = let rest = skip_blank p in if c == b' ' || c == 9 then rest else c ∷ p

unfoldable pub content_digits : ℕ → Bytes → ℕ
content_digits len [] = len
content_digits len (c ∷ p) =
    let rest = content_digits (len * 10 + (c - b'0')) p in
    if is_digit c then if ltb max_content_len len then max_content_len else rest else len

unfoldable pub content_value : Bytes → ℤ
content_value [] = negsuc 0
content_value (c ∷ p) = if is_digit c then pos (content_digits 0 (c ∷ p)) else negsuc 0

unfoldable pub scan_content_length : Bytes → ℤ
scan_content_length head = elim (find_field (codes "content-length:") true head) [
  | none ↦ negsuc 0
  | some r ↦ content_value (skip_blank r)
]

abbrev pub is_gap : ℕ → Bool
is_gap c = c == b' ' || c == 9 || c == b','

unfoldable pub skip_gap : Bytes → Bytes
skip_gap [] = []
skip_gap (c ∷ p) = let rest = skip_gap p in if is_gap c then rest else c ∷ p

-- The token at the front, and what follows it.
unfoldable pub token : Bytes → Bytes × Bytes
token [] = ([], [])
token (c ∷ p) =
    let (t, rest) = token p in if is_gap c || ends_line c then ([], c ∷ p) else (c ∷ t, rest)

unfoldable pub to_comma : Bytes → Bytes
to_comma [] = []
to_comma (c ∷ p) = let rest = to_comma p in if c == b',' || ends_line c then c ∷ p else rest

abbrev pub at_line_end : Bytes → Bool
at_line_end [] = true
at_line_end (c ∷ p) = ends_line c

-- The loop over the tokens of the field; each round takes a byte at least.
unfoldable pub lists_chunked : ℕ → Bytes → Bool
lists_chunked zero p = false
lists_chunked (suc fuel) p =
    let (t, rest) = token (skip_gap p) in
    let next = lists_chunked fuel (to_comma rest) in
    if at_line_end p
    then false
    else if bytes_eq (map tolower t) (codes "chunked")
    then true
    else next

unfoldable pub scan_transfer_chunked : Bytes → Bool
scan_transfer_chunked head = elim (find_field (codes "transfer-encoding:") true head) [
  | none ↦ false
  | some r ↦ lists_chunked (suc (length r)) r
]

-- The status and the bytes left in `out`, or one of the two negative codes.
pub data Response : Type 0 where
  answer : ℕ → Bytes → Response
  cut : Response
  no_fit : Response

abbrev pub stored : Option ℕ → Bytes → Bytes
stored none out = []
stored (some cap) out = out

unfoldable pub chunked_response : Option ℕ → ℕ → Verdict → Response
chunked_response cap status (complete out) = answer status (stored cap out)
chunked_response cap status truncated = cut
chunked_response cap status malformed = cut
chunked_response cap status too_large = no_fit

abbrev pub does_not_fit : Option ℕ → ℕ → Bool
does_not_fit none n = ltb 0 n
does_not_fit (some cap) n = ltb 0 n && (cap == 0 || leb cap n)

unfoldable pub plain_response : Option ℕ → ℕ → ℤ → Bytes → Response
plain_response cap status (pos len) body =
    if ltb (length body) len
    then cut
    else if does_not_fit cap len
    then no_fit
    else answer status (take len body)
plain_response cap status (negsuc _) body =
    if does_not_fit cap (length body) then no_fit else answer status body

unfoldable pub head_response : Option ℕ → ℤ → Bytes → Bytes → Response
head_response cap (negsuc _) head body = cut
head_response cap (pos status) head body =
    if scan_transfer_chunked head
    then chunked_response cap status (decode_chunked_full cap body)
    else plain_response cap status (scan_content_length head) body

-- ph__http_decode_response_body: `none` is a NULL `resp`, and a NULL `out`.
unfoldable pub decode_response_body : Option Bytes → Option ℕ → Response
decode_response_body none cap = cut
decode_response_body (some resp) cap = elim (find_header_end resp) [
  | none ↦ cut
  | some (head, body) ↦ head_response cap (parse_status head) head body
]
