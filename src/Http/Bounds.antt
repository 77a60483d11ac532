-- ===== src/Http/Bounds.antt =====
-- decode_chunked_full of src/ph_http.c writes within its buffer.
use posthog_c.Base.{
  ℕ, zero, suc, ◌-◌, ◌≤◌, ◌≡◌, false, some, [], ◌∷◌, ◌++◌, ltb, ◌==◌, length, take, drop, Bytes,
  arith, length-append, length-take, Bool-cases, Option-cases, inl, inr, ◌&&◌,
}
use posthog_c.Http.{
  size_max, hex_size, to_line_end, Verdict, complete, truncated, malformed, too_large, crlf,
  trailers, overruns, chunk_data, chunks, decode_chunked_full,
}

-- The decoded bytes, with a NUL, fit `cap` bytes; nothing at all is written where `cap` is 0.
abbrev pub Within : ℕ → Verdict → Type 0
Within cap (complete out) = length out ≤ cap - 1
Within cap truncated = Unit
Within cap malformed = Unit
Within cap too_large = Unit

crlf-Within :
    (cap : ℕ) (p : Bytes) (next : Bytes → Verdict)
    → ((r : Bytes) → Within cap (next r))
    → Within cap (crlf p next)
unfolding crlf
crlf-Within cap [] next h = tt
crlf-Within cap (_ ∷ []) next h = tt
crlf-Within cap (a ∷ b ∷ p) next h = elim (Bool-cases ((a == 13) && (b == 10))) [
  | inl e ↦ rw e (h p)
  | inr e ↦ rw e tt
]

trailers-Within :
    (cap fuel : ℕ) (out p : Bytes) → length out ≤ cap - 1 → Within cap (trailers fuel out p)
unfolding trailers
trailers-Within cap zero out p h = tt
trailers-Within cap (suc fuel) out p h = crlf-Within cap (to_line_end p) _ (λ r.
    elim (Bool-cases (length (to_line_end p) == length p)) [
      | inl e ↦ rw e h
      | inr e ↦ rw e (trailers-Within cap fuel out r h)
    ])

no_overrun :
    (cap n : ℕ) (out p : Bytes)
    → overruns (some cap) out n ≡ false
    → length (out ++ take n p) ≤ cap - 1
unfolding overruns
no_overrun cap n out p h = ground (arith, length-append out (take n p), length-take n p)

chunk_data-Within :
    (cap : ℕ) (next : Bytes → Bytes → Verdict) (out : Bytes) (len : ℕ) (p : Bytes)
    → ((out' r : Bytes) → length out' ≤ cap - 1 → Within cap (next out' r))
    → Within cap (chunk_data next (some cap) out len p)
unfolding chunk_data
chunk_data-Within cap next out len p h = elim (Bool-cases (ltb (length p) len)) [
  | inl e ↦ rw e tt
  | inr e ↦ elim (Bool-cases (ltb (size_max - length out) len)) [
    | inl e' ↦ rw (e, e') tt
    | inr e' ↦ elim (Bool-cases (overruns (some cap) out len)) [
      | inl f ↦ rw (e, e', f) tt
      | inr f ↦
          rw (e, e', f)
            (crlf-Within cap (drop len p) (next (out ++ take len p))
              (λ r. h (out ++ take len p) r (no_overrun cap len out p f)))
    ]
  ]
]

chunks-Within :
    (cap fuel : ℕ) (out p : Bytes)
    → length out ≤ cap - 1
    → Within cap (chunks fuel (some cap) out p)
unfolding chunks
chunks-Within cap zero out p h = tt
chunks-Within cap (suc fuel) out p h = elim (Option-cases (hex_size 0 false p)) [
  | inl e ↦ rw (e, chunks) tt
  | inr ((len, digits, q), e) ↦ elim (Bool-cases digits) [
    | inl d ↦
        rw (e, chunks, d)
          (crlf-Within cap (to_line_end q) _ (λ r. elim (Bool-cases (len == 0)) [
            | inl z ↦ rw z (trailers-Within cap (suc (length r)) out r h)
            | inr z ↦ rw z (
                chunk_data-Within cap (chunks fuel (some cap)) out len r
                  (λ out' r'. chunks-Within cap fuel out' r'))
          ]))
    | inr d ↦ elim (Bool-cases (length q == 0)) [
      | inl z ↦ rw (e, chunks, d, z) tt
      | inr z ↦ rw (e, chunks, d, z) tt
    ]
  ]
]

-- Whatever the server sends, what decode_chunked_full returns as decoded fits the buffer with its NUL,
-- and is empty for a buffer of no bytes.
pub decode_chunked_full-Within :
    (cap : ℕ) (body : Bytes) → Within cap (decode_chunked_full (some cap) body)
unfolding decode_chunked_full
decode_chunked_full-Within cap body = chunks-Within cap (suc (length body)) [] body (omega arith)
