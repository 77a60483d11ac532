-- ===== src/Http/Rounds.antt =====
-- The loops of decode_chunked_full in src/ph_http.c end: each round takes bytes.
use posthog_c.Base.{
  ℕ, zero, suc, ◌+◌, ◌*◌, ◌≤◌, ◌<◌, ◌≡◌, refl, Bool, true, false, Option, some, [], ◌∷◌, ◌++◌, ◌==◌,
  length, take, drop, Bytes, arith, length-drop, Bool-cases, Option-cases, inl, inr,
}
use posthog_c.Http.{hex_value, hex_size, to_line_end, Verdict, crlf, trailers, chunk_data, chunks}

hex_size_le :
    (p : Bytes) (len : ℕ) (b : Bool) (n : ℕ) (d : Bool) (q : Bytes)
    → hex_size len b p ≡ some (n, d, q)
    → length q ≤ length p
unfolding hex_size
hex_size_le [] len b n d q h = ground arith
hex_size_le (c ∷ p) len b n d q h = elim (Option-cases (hex_value c)) [
  | inl e ↦ ground (arith, e)
  | inr (hv, e) ↦ ground (arith, e, hex_size_le p (len * 16 + hv) true n d q)
]

to_line_end_le : (p : Bytes) → length (to_line_end p) ≤ length p
unfolding to_line_end
to_line_end_le [] = omega arith
to_line_end_le (c ∷ p) = ground (arith, to_line_end_le p)

crlf_agree :
    (p : Bytes) (next next' : Bytes → Verdict)
    → ((r : Bytes) → length r < length p → next r ≡ next' r)
    → crlf p next ≡ crlf p next'
unfolding crlf
crlf_agree [] next next' h = refl
crlf_agree (_ ∷ []) next next' h = refl
crlf_agree (a ∷ b ∷ p) next next' h = rw (h p (omega arith)) refl

-- More rounds than bytes change nothing for the trailer.
pub trailers_enough :
    (f g : ℕ) (out p : Bytes) → length p < f → length p < g → trailers f out p ≡ trailers g out p
unfolding trailers
trailers_enough zero g out p hf hg = absurd (omega arith)
trailers_enough (suc f) zero out p hf hg = absurd (omega arith)
trailers_enough (suc f) (suc g) out p hf hg = crlf_agree (to_line_end p) _ _ (λ r h.
    rw
      (trailers_enough f g out r (omega (arith, to_line_end_le p))
        (omega (arith, to_line_end_le p)))
      refl)

chunk_data_agree :
    (next next' : Bytes → Bytes → Verdict) (cap : Option ℕ) (out : Bytes) (len : ℕ) (p : Bytes)
    → ((out' r : Bytes) → length r < length p → next out' r ≡ next' out' r)
    → chunk_data next cap out len p ≡ chunk_data next' cap out len p
unfolding chunk_data
chunk_data_agree next next' cap out len p h =
    rw
      (crlf_agree (drop len p) (next (out ++ take len p)) (next' (out ++ take len p))
        (λ r l. h (out ++ take len p) r (omega (arith, length-drop len p))))
      refl

-- More rounds than the body has bytes change nothing for the chunks either, so that the loop, which C
-- runs without a bound, is the one that is modelled here.
pub chunks_enough :
    (f g : ℕ) (cap : Option ℕ) (out p : Bytes)
    → length p < f
    → length p < g
    → chunks f cap out p ≡ chunks g cap out p
unfolding chunks
chunks_enough zero g cap out p hf hg = absurd (omega arith)
chunks_enough (suc f) zero cap out p hf hg = absurd (omega arith)
chunks_enough (suc f) (suc g) cap out p hf hg = elim (Option-cases (hex_size 0 false p)) [
  | inl e ↦ rw (e, chunks) refl
  | inr ((len, digits, q), e) ↦
      let le = hex_size_le p 0 false len digits q e in
      elim (Bool-cases digits) [
        | inr d ↦ rw (e, chunks, d) refl
        | inl d ↦
            rw (e, chunks, d)
              (crlf_agree (to_line_end q) _ _ (λ r h. elim (Bool-cases (len == 0)) [
                | inl z ↦ rw z refl
                | inr z ↦ rw z (
                    chunk_data_agree (chunks f cap) (chunks g cap) cap out len r (λ out' r' h'.
                      chunks_enough f g cap out' r' (omega (arith, le, to_line_end_le q))
                        (omega (arith, le, to_line_end_le q))))
              ]))
      ]
]
