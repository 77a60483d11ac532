-- ===== src/Http/Tokens.antt =====
-- The loop of scan_transfer_chunked in src/ph_http.c ends.
use posthog_c.Base.{
  ℕ, zero, suc, ◌≤◌, ◌<◌, ◌≡◌, refl, false, [], ◌∷◌, length, Bytes, arith, Bool-cases, inl, inr,
}
use posthog_c.Http.{ends_line}
use posthog_c.Http.Head.{is_gap, skip_gap, token, to_comma, lists_chunked}

to_comma_le : (p : Bytes) → length (to_comma p) ≤ length p
unfolding to_comma
to_comma_le [] = omega arith
to_comma_le (c ∷ p) = ground (arith, to_comma_le p)

token_le : (p : Bytes) → length (token p).1 ≤ length p
unfolding token
token_le [] = omega arith
token_le (c ∷ p) = ground (arith, token_le p)

skip_gap_le : (p : Bytes) → length (skip_gap p) ≤ length p
unfolding skip_gap
skip_gap_le [] = omega arith
skip_gap_le (c ∷ p) = ground (arith, skip_gap_le p)

-- A round that does not stop at the end of the line takes a byte.
token_takes :
    (c : ℕ) (p : Bytes) → ends_line c ≡ false → length (token (skip_gap (c ∷ p))).1 ≤ length p
unfolding token skip_gap
token_takes c p h = elim (Bool-cases (is_gap c)) [
  | inl e ↦ rw (e, skip_gap) (omega (arith, token_le (skip_gap p), skip_gap_le p))
  | inr e ↦ rw (e, skip_gap, token, e, h) (token_le p)
]

-- More rounds than the field has bytes change nothing for the loop over its codings.
pub lists_chunked_enough :
    (f g : ℕ) (p : Bytes) → length p < f → length p < g → lists_chunked f p ≡ lists_chunked g p
unfolding lists_chunked
lists_chunked_enough zero g p hf hg = absurd (omega arith)
lists_chunked_enough (suc f) zero p hf hg = absurd (omega arith)
lists_chunked_enough (suc f) (suc g) [] hf hg = refl
lists_chunked_enough (suc f) (suc g) (c ∷ p) hf hg = elim (Bool-cases (ends_line c)) [
  | inl e ↦ rw e refl
  | inr e ↦
      let rest = (token (skip_gap (c ∷ p))).1 in
      let le : length (to_comma rest) ≤ length p =
        omega (arith, to_comma_le rest, token_takes c p e) in
      rw (lists_chunked_enough f g (to_comma rest) (omega (arith, le)) (omega (arith, le))) refl
]
