-- ===== src/Jsonval/Scrub.antt =====
-- The scrubbed text is well-formed UTF-8, and a well-formed text is its own scrubbed text.
use posthog_c.Base.{
  ℕ, zero, suc, ◌-◌, ◌≤◌, ◌<◌, ◌≡◌, refl, sym, subst, ap, ap₂, ◌∙◌, true, [], ◌∷◌, ◌++◌, take, drop,
  length, Bytes, IsByte, IsChar, All, arith, dec_lt, append_assoc, length-drop, drop-append_length,
  take-append-drop, some,
}
use posthog_c.Json.{is_continuation, seq_len_three, replacement, json_str, json_body, utf8_seq_len}
use posthog_c.Json.Utf8.{utf8_seq_len-IsSeq, utf8_seq_len_prefix}
use posthog_c.Jsonval.{string_step, utf8_valid, utf8_valid_from, parse_string_raw}
use posthog_c.Jsonval.Text.{valid_step-utf8_seq_len}
use posthog_c.Jsonval.Strings.{read, read-close}
use posthog_c.Jsonval.RoundTrip.{scrub, scrub-drop, seq_len_ascii, read-json_body, bytes_of}

valid_drop : (k : ℕ) (s : Bytes) → utf8_valid_from k s ≡ utf8_valid_from 0 (drop k s)
unfolding utf8_valid_from
valid_drop zero s = refl
valid_drop (suc k) [] = refl
valid_drop (suc k) (b ∷ bs) = valid_drop k bs

-- A sequence has all the bytes that its length says.
whole :
    (b : ℕ) (bs : Bytes)
    → All IsByte bs
    → 0 < utf8_seq_len (b ∷ bs)
    → length (take (utf8_seq_len (b ∷ bs) - 1) bs) ≡ utf8_seq_len (b ∷ bs) - 1
whole b bs h p = elim (dec_lt b 128) [
  | yes ascii ↦ rw (seq_len_ascii b bs ascii) refl
  | no high ↦ (utf8_seq_len-IsSeq b bs h (omega arith) p).1.1
]

take_suc : (k b : ℕ) (bs : Bytes) → 0 < k → take k (b ∷ bs) ≡ b ∷ take (k - 1) bs
take_suc zero b bs h = absurd (omega arith)
take_suc (suc k) b bs h = ap (λ n. b ∷ take n bs) (omega arith)

drop_exact : (n : ℕ) (xs t : Bytes) → length xs ≡ n → drop n (xs ++ t) ≡ t
drop_exact n xs t h = subst (λ m. drop m (xs ++ t) ≡ t) h (drop-append_length xs t)

valid_cons :
    (b k : ℕ) (bs : Bytes)
    → utf8_seq_len (b ∷ bs) ≡ k
    → 0 < k
    → utf8_valid_from 0 (b ∷ bs) ≡ utf8_valid_from 0 (drop (k - 1) bs)
unfolding utf8_valid_from
valid_cons b k bs e h = ground (arith, valid_step-utf8_seq_len b bs, valid_drop (k - 1) bs)

-- One well-formed sequence in front does not matter.
valid_seq :
    (b : ℕ) (bs t : Bytes)
    → All IsByte bs
    → 0 < utf8_seq_len (b ∷ bs)
    → utf8_valid_from 0 (take (utf8_seq_len (b ∷ bs)) (b ∷ bs) ++ t) ≡ utf8_valid_from 0 t
valid_seq b bs t h p =
    let k = utf8_seq_len (b ∷ bs) in
    ap (λ w. utf8_valid_from 0 (w ++ t)) (take_suc k b bs p)
    ∙ valid_cons b k (take (k - 1) bs ++ t) (utf8_seq_len_prefix b bs t p) p
    ∙ ap (utf8_valid_from 0) (drop_exact (k - 1) (take (k - 1) bs) t (whole b bs h p))

valid_replacement : (t : Bytes) → utf8_valid_from 0 (replacement ++ t) ≡ utf8_valid_from 0 t
unfolding utf8_seq_len seq_len_three is_continuation
valid_replacement t = valid_seq 0xEF (0xBF ∷ 0xBD ∷ []) t (omega arith) (omega arith)

scrub_seq :
    (b : ℕ) (bs : Bytes)
    → 0 < utf8_seq_len (b ∷ bs)
    → scrub 0 (b ∷ bs)
      ≡ take (utf8_seq_len (b ∷ bs)) (b ∷ bs) ++ scrub 0 (drop (utf8_seq_len (b ∷ bs) - 1) bs)
unfolding scrub
scrub_seq b bs p = ground (arith, scrub-drop (utf8_seq_len (b ∷ bs) - 1) bs)

scrub_bad :
    (b : ℕ) (bs : Bytes) → utf8_seq_len (b ∷ bs) ≡ 0 → scrub 0 (b ∷ bs) ≡ replacement ++ scrub 0 bs
unfolding scrub
scrub_bad b bs e = ground arith

All-drop : (k : ℕ) (s : Bytes) → All IsByte s → All IsByte (drop k s)
All-drop zero s h = h
All-drop (suc k) [] h = tt
All-drop (suc k) (b ∷ s) (hb, hs) = All-drop k s hs

scrub_valid :
    (n : ℕ) (s : Bytes) → length s ≤ n → All IsByte s → utf8_valid_from 0 (scrub 0 s) ≡ true
scrub_valid n [] hn h = unfold utf8_valid_from scrub in refl
scrub_valid zero (b ∷ bs) hn h = absurd (omega arith)
scrub_valid (suc n) (b ∷ bs) hn (hb, hs) = elim (dec_lt 0 (utf8_seq_len (b ∷ bs))) [
  | yes p ↦
      let k = utf8_seq_len (b ∷ bs) in
      ap (utf8_valid_from 0) (scrub_seq b bs p)
      ∙ valid_seq b bs (scrub 0 (drop (k - 1) bs)) hs p
      ∙ scrub_valid n (drop (k - 1) bs) (omega (arith, length-drop (k - 1) bs))
          (All-drop (k - 1) bs hs)
  | no p ↦
      ap (utf8_valid_from 0) (scrub_bad b bs (omega arith))
      ∙ valid_replacement (scrub 0 bs)
      ∙ scrub_valid n bs (omega arith) hs
]

valid_has_seq : (b : ℕ) (bs : Bytes) → utf8_valid_from 0 (b ∷ bs) ≡ true → 0 < utf8_seq_len (b ∷ bs)
unfolding utf8_valid_from
valid_has_seq b bs h = ground (arith, valid_step-utf8_seq_len b bs)

scrub_same : (n : ℕ) (s : Bytes) → length s ≤ n → utf8_valid_from 0 s ≡ true → scrub 0 s ≡ s
scrub_same n [] hn h = unfold scrub in refl
scrub_same zero (b ∷ bs) hn h = absurd (omega arith)
scrub_same (suc n) (b ∷ bs) hn h =
    let k = utf8_seq_len (b ∷ bs) in
    let p : 0 < utf8_seq_len (b ∷ bs) = valid_has_seq b bs h in
    scrub_seq b bs p
    ∙ ap₂ ◌++◌ (take_suc k b bs p) (
        scrub_same n (drop (k - 1) bs) (omega (arith, length-drop (k - 1) bs))
          (sym (valid_cons b k bs refl p) ∙ h))
    ∙ ap (λ t. b ∷ t) (take-append-drop (k - 1) bs)

-- Every text without a NUL byte that ph_json_str is given, well-formed UTF-8 or not, is read back by
-- parse_string_raw, with each byte that starts no well-formed sequence replaced by U+FFFD, and what follows it is left.
pub parse_string_raw-json_str :
    (s rest : Bytes) → All IsChar s → parse_string_raw (json_str s ++ rest) ≡ some (scrub 0 s, rest)
unfolding parse_string_raw json_str read
parse_string_raw-json_str s rest h =
    ap (read []) (append_assoc (json_body 0 s) (b'"' ∷ []) rest)
    ∙ read-json_body (length s) s [] (b'"' ∷ rest) (omega arith) h
    ∙ read-close (scrub 0 s) (b'"' ∷ rest) rest (unfold string_step in refl)
        (unfold utf8_valid in scrub_valid (length s) s (omega arith) (bytes_of s h))

-- A well-formed text comes back unchanged.
pub parse_string_raw-json_str_valid :
    (s rest : Bytes)
    → All IsChar s
    → utf8_valid s ≡ true
    → parse_string_raw (json_str s ++ rest) ≡ some (s, rest)
unfolding utf8_valid
parse_string_raw-json_str_valid s rest h v =
    parse_string_raw-json_str s rest h
    ∙ ap (λ t. some (t, rest)) (scrub_same (length s) s (omega arith) v)
