-- ===== src/Jsonval/Text.antt =====
-- utf8_valid of src/ph_jsonval.c against utf8_seq_len of src/ph_json.c: two implementations of one
-- notion of a well-formed sequence.
use posthog_c.Base.{ℕ, ◌≡◌, refl, [], ◌∷◌, Bytes, arith}
use posthog_c.Json.{seq_len_two, seq_len_three, seq_len_four, utf8_seq_len}
use posthog_c.Jsonval.{valid_two, valid_three, valid_four, valid_step}

-- The two agree on every lead byte and all that follows.
two_agree : (rest : Bytes) → valid_two rest ≡ seq_len_two rest
unfolding valid_two seq_len_two
two_agree [] = refl
two_agree (s1 ∷ rest) = refl

three_agree : (c : ℕ) (rest : Bytes) → valid_three c rest ≡ seq_len_three c rest
unfolding valid_three seq_len_three
three_agree c [] = refl
three_agree c (_ ∷ []) = refl
three_agree c (s1 ∷ s2 ∷ rest) = ground arith

four_agree : (c : ℕ) (rest : Bytes) → valid_four c rest ≡ seq_len_four c rest
unfolding valid_four seq_len_four
four_agree c [] = refl
four_agree c (_ ∷ []) = refl
four_agree c (_ ∷ _ ∷ []) = refl
four_agree c (s1 ∷ s2 ∷ s3 ∷ rest) = ground arith

-- The writer and the reader accept the same sequences: a round of utf8_valid steps over exactly the
-- length that utf8_seq_len finds, and rejects exactly where that is 0.
pub valid_step-utf8_seq_len : (c : ℕ) (rest : Bytes) → valid_step c rest ≡ utf8_seq_len (c ∷ rest)
unfolding valid_step utf8_seq_len
valid_step-utf8_seq_len c rest =
    ground (arith, two_agree rest, three_agree c rest, four_agree c rest)
