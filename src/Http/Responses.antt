-- ===== src/Http/Responses.antt =====
-- What ph__http_decode_response_body of src/ph_http.c makes of a response.
use posthog_c.Base.{
  ℕ, ◌+◌, ◌-◌, ◌*◌, ◌^◌, ◌≤◌, ◌<◌, ◌≡◌, refl, true, Option, none, some, [], ◌∷◌, ltb, length, Bytes,
  codes, arith, Bool-cases, Option-cases, inl, inr, length-take,
}
use posthog_c.Base.Int.{ℤ, pos, negsuc}
use posthog_c.Http.{Verdict, complete, truncated, malformed, too_large, decode_chunked_full}
use posthog_c.Http.Bounds.{Within, decode_chunked_full-Within}
use posthog_c.Http.Head.{
  find_header_end, parse_status, find_field, max_content_len, is_digit, skip_blank, content_digits,
  content_value, scan_content_length, scan_transfer_chunked, Response, answer, cut, no_fit,
  chunked_response, does_not_fit, plain_response, head_response, decode_response_body,
}

-- The bytes of an answer, with their NUL, fit `cap` bytes.
abbrev pub Fits : ℕ → Response → Type 0
Fits cap (answer status out) = length out ≤ cap - 1
Fits cap cut = Unit
Fits cap no_fit = Unit

chunked-Fits :
    (cap status : ℕ) (v : Verdict) → Within cap v → Fits cap (chunked_response (some cap) status v)
unfolding chunked_response
chunked-Fits cap status (complete out) h = h
chunked-Fits cap status truncated h = tt
chunked-Fits cap status malformed h = tt
chunked-Fits cap status too_large h = tt

plain-Fits :
    (cap status : ℕ) (len : ℤ) (body : Bytes) → Fits cap (plain_response (some cap) status len body)
unfolding plain_response
plain-Fits cap status (pos len) body = elim (Bool-cases (ltb (length body) len)) [
  | inl e ↦ rw e tt
  | inr e ↦ elim (Bool-cases (does_not_fit (some cap) len)) [
    | inl f ↦ rw (e, f) tt
    | inr f ↦ rw (e, f) (ground (arith, length-take len body))
  ]
]
plain-Fits cap status (negsuc n) body = elim (Bool-cases (does_not_fit (some cap) (length body))) [
  | inl f ↦ rw f tt
  | inr f ↦ rw f (ground arith)
]

head-Fits :
    (cap : ℕ) (status : ℤ) (head body : Bytes)
    → Fits cap (head_response (some cap) status head body)
unfolding head_response
head-Fits cap (negsuc n) head body = tt
head-Fits cap (pos status) head body = elim (Bool-cases (scan_transfer_chunked head)) [
  | inl e ↦ rw e (
      chunked-Fits cap status (decode_chunked_full (some cap) body)
        (decode_chunked_full-Within cap body))
  | inr e ↦ rw e (plain-Fits cap status (scan_content_length head) body)
]

-- Whatever a server sends, the body that is returned fits the buffer together with its NUL.
pub decode_response_body-Fits :
    (resp : Option Bytes) (cap : ℕ) → Fits cap (decode_response_body resp (some cap))
unfolding decode_response_body
decode_response_body-Fits none cap = tt
decode_response_body-Fits (some resp) cap = elim (Option-cases (find_header_end resp)) [
  | inl e ↦ rw (e, decode_response_body) tt
  | inr ((head, body), e) ↦
      rw (e, decode_response_body) (head-Fits cap (parse_status head) head body)
]

content_digits_le :
    (p : Bytes) (len : ℕ)
    → len ≤ 10 * max_content_len + 9
    → content_digits len p ≤ 10 * max_content_len + 9
unfolding content_digits
content_digits_le [] len h = h
content_digits_le (c ∷ p) len h = ground (arith, content_digits_le p (len * 10 + (c - b'0')))

-- -1, or a length below 2 ^ 30.
abbrev pub IsLength : ℤ → Type 0
IsLength (pos n) = n < 2 ^ 30
IsLength (negsuc n) = n ≡ 0

content_value-IsLength : (p : Bytes) → IsLength (content_value p)
unfolding content_value
content_value-IsLength [] = refl
content_value-IsLength (c ∷ p) = elim (Bool-cases (is_digit c)) [
  | inl e ↦ rw e (omega (arith, content_digits_le (c ∷ p) 0 (omega arith)))
  | inr e ↦ rw e refl
]

-- However many digits a Content-Length has, the scanner returns -1 or a length below 2 ^ 30, which a
-- `long` of 32 bits holds.
pub scan_content_length-IsLength : (head : Bytes) → IsLength (scan_content_length head)
unfolding scan_content_length
scan_content_length-IsLength head =
    elim (Option-cases (find_field (codes "content-length:") true head)) [
      | inl e ↦ rw (e, scan_content_length) refl
      | inr (r, e) ↦ rw (e, scan_content_length) (content_value-IsLength (skip_blank r))
    ]
