-- ===== src/Json/Utf8.antt =====
-- The bytes that `utf8_seq_len` accepts.
use posthog_c.Base.{
  ℕ, ◌-◌, ◌≤◌, ◌<◌, ◌≡◌, refl, Bool, true, false, not, [], ◌∷◌, ◌++◌, ltb, ◌==◌, if◌then◌else◌,
  take, length, Bytes, IsByte, All, arith, bit_and, passes_below, passes-below, Bool-cases, inl,
  inr, subst, sym,
}
use posthog_c.Json.{
  is_continuation, between, seq_len_two, seq_len_three, seq_len_four, utf8_seq_len,
}

-- A byte of a sequence of two bytes or more.
abbrev pub IsHigh : ℕ → Type 0
IsHigh b = (128 ≤ b) × (b < 256)

le→ltb_false : (a b : ℕ) → b ≤ a → ltb a b ≡ false
le→ltb_false a b h = ground arith

same : Bool → Bool → Bool
same a b = if a then b else not b

same→eq : (a b : Bool) → same a b ≡ true → a ≡ b
unfolding same
same→eq a b h = ground arith

mask_test : ℕ → Bool
mask_test b = same (bit_and b 0xC0 == 0x80) (between 0x80 b 0xBF)

mask_table : passes_below mask_test 256 ≡ true
unfolding mask_test same passes_below
mask_table = refl

-- What the mask test means for a byte.
pub is_continuation_lem : (b : ℕ) → IsByte b → is_continuation b ≡ between 0x80 b 0xBF
unfolding is_continuation mask_test
is_continuation_lem b h = same→eq _ _ (passes-below mask_test 256 b mask_table h)

-- The bytes behind the lead byte of a sequence of `n` bytes: there are `n - 1`, none of them ASCII.
abbrev pub Follows : ℕ → Bytes → Type 0
Follows n rest = (0 < n) × (length (take (n - 1) rest) ≡ n - 1) × All IsHigh (take (n - 1) rest)

pub seq_len_two-Follows :
    (rest : Bytes)
    → All IsByte rest
    → 0 < seq_len_two rest
    → (seq_len_two rest ≡ 2) × Follows 2 rest
unfolding seq_len_two
seq_len_two-Follows [] h p = absurd (omega arith)
seq_len_two-Follows (s1 ∷ rest) (h1, hs) p = ground (arith, is_continuation_lem s1 h1)

pub seq_len_three-Follows :
    (c : ℕ) (rest : Bytes)
    → All IsByte rest
    → 0 < seq_len_three c rest
    → (seq_len_three c rest ≡ 3) × Follows 3 rest
unfolding seq_len_three
seq_len_three-Follows c [] h p = absurd (omega arith)
seq_len_three-Follows c (_ ∷ []) h p = absurd (omega arith)
seq_len_three-Follows c (s1 ∷ s2 ∷ rest) (h1, (h2, hs)) p =
    ground (arith, is_continuation_lem s1 h1, is_continuation_lem s2 h2)

pub seq_len_four-Follows :
    (c : ℕ) (rest : Bytes)
    → All IsByte rest
    → 0 < seq_len_four c rest
    → (seq_len_four c rest ≡ 4) × Follows 4 rest
unfolding seq_len_four
seq_len_four-Follows c [] h p = absurd (omega arith)
seq_len_four-Follows c (_ ∷ []) h p = absurd (omega arith)
seq_len_four-Follows c (_ ∷ _ ∷ []) h p = absurd (omega arith)
seq_len_four-Follows c (s1 ∷ s2 ∷ s3 ∷ rest) (h1, (h2, (h3, hs))) p =
    ground (arith, is_continuation_lem s1 h1, is_continuation_lem s2 h2, is_continuation_lem s3 h3)

-- A sequence of two bytes or more behind a lead byte.
abbrev pub IsSeq : ℕ → Bytes → Type 0
IsSeq n rest = (2 ≤ n) × Follows n rest

IsSeq-of : (n k : ℕ) (rest : Bytes) → 2 ≤ k → (n ≡ k) × Follows k rest → IsSeq n rest
IsSeq-of n k rest h (e, f) = subst (λ m. IsSeq m rest) (sym e) (h, f)

-- A sequence that does not start with an ASCII byte.
pub utf8_seq_len-IsSeq :
    (c : ℕ) (rest : Bytes)
    → All IsByte rest
    → 128 ≤ c
    → 0 < utf8_seq_len (c ∷ rest)
    → IsSeq (utf8_seq_len (c ∷ rest)) rest
unfolding utf8_seq_len
utf8_seq_len-IsSeq c rest h hc =
    rw (le→ltb_false c 128 hc) (elim (Bool-cases (between 0xC2 c 0xDF)) [
      | inl t ↦ rw t (λ p. IsSeq-of _ 2 rest (omega arith) (seq_len_two-Follows rest h p))
      | inr n2 ↦ elim (Bool-cases (between 0xE0 c 0xEF)) [
        | inl t ↦
            rw (n2, t) (λ p. IsSeq-of _ 3 rest (omega arith) (seq_len_three-Follows c rest h p))
        | inr n3 ↦ elim (Bool-cases (between 0xF0 c 0xF4)) [
          | inl t ↦
              rw (n2, n3, t)
                (λ p. IsSeq-of _ 4 rest (omega arith) (seq_len_four-Follows c rest h p))
          | inr n4 ↦ rw (n2, n3, n4) (λ p. absurd (omega arith))
        ]
      ]
    ])

prefix_two :
    (rest t : Bytes)
    → 0 < seq_len_two rest
    → seq_len_two (take (seq_len_two rest - 1) rest ++ t) ≡ seq_len_two rest
unfolding seq_len_two
prefix_two [] t p = absurd (omega arith)
prefix_two (s1 ∷ rest) t p = ground arith

prefix_three :
    (c : ℕ) (rest t : Bytes)
    → 0 < seq_len_three c rest
    → seq_len_three c (take (seq_len_three c rest - 1) rest ++ t) ≡ seq_len_three c rest
unfolding seq_len_three
prefix_three c [] t p = absurd (omega arith)
prefix_three c (_ ∷ []) t p = absurd (omega arith)
prefix_three c (s1 ∷ s2 ∷ rest) t p = ground arith

prefix_four :
    (c : ℕ) (rest t : Bytes)
    → 0 < seq_len_four c rest
    → seq_len_four c (take (seq_len_four c rest - 1) rest ++ t) ≡ seq_len_four c rest
unfolding seq_len_four
prefix_four c [] t p = absurd (omega arith)
prefix_four c (_ ∷ []) t p = absurd (omega arith)
prefix_four c (_ ∷ _ ∷ []) t p = absurd (omega arith)
prefix_four c (s1 ∷ s2 ∷ s3 ∷ rest) t p = ground arith

-- The length of a sequence depends on its own bytes alone.
pub utf8_seq_len_prefix :
    (c : ℕ) (rest t : Bytes)
    → 0 < utf8_seq_len (c ∷ rest)
    → utf8_seq_len (c ∷ (take (utf8_seq_len (c ∷ rest) - 1) rest ++ t)) ≡ utf8_seq_len (c ∷ rest)
unfolding utf8_seq_len
utf8_seq_len_prefix c rest t =
    ground (arith, prefix_two rest t, prefix_three c rest t, prefix_four c rest t)
