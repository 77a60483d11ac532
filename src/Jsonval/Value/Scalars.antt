-- ===== src/Jsonval/Value/Scalars.antt =====
-- The parsers of strings, literals and numbers in src/ph_jsonval.c move the cursor on.
use posthog_c.Base.{
  ℕ, zero, suc, ◌+◌, ◌≤◌, ◌<◌, ◌≡◌, refl, subst, Bool, true, Option, none, some, [], ◌∷◌, ◌++◌,
  length, Bytes, codes, ◌==◌, arith, Bool-cases, Option-cases, inl, inr,
}
use posthog_c.Jsonval.{
  skip_ws, parse_string_raw, Step, close, emit, fail, string_step, string_loop, utf8_valid,
}
use posthog_c.Jsonval.Strings.{emit_shorter, close_shorter}
use posthog_c.Jsonval.Value.{
  behind, parse_string, parse_literal, parse_number, is_digit, digits, number_whole,
  number_fraction, number_exponent, number_sign, exponent_sign, exponent_digits,
}

-- A result that leaves fewer than `n` bytes.
module _ {A : Type 0} where
  abbrev pub Leaves : ℕ → Option (A × Bytes) → Type 0
  Leaves n none = Unit
  Leaves n (some (a, r)) = length r < n

  pub Leaves-mono : (m n : ℕ) (o : Option (A × Bytes)) → m ≤ n → Leaves m o → Leaves n o
  Leaves-mono m n none h l = tt
  Leaves-mono m n (some (a, r)) h l = omega arith

pub skip_ws_le : (c : Bytes) → length (skip_ws c) ≤ length c
unfolding skip_ws
skip_ws_le [] = omega arith
skip_ws_le (ch ∷ c) = ground (arith, skip_ws_le c)

pub behind_le : (word c r : Bytes) → behind word c ≡ some r → length r + length word ≤ length c
unfolding behind
behind_le [] c r h = ground arith
behind_le (w ∷ word) [] r h = cc
behind_le (w ∷ word) (ch ∷ c) r h = ground (arith, behind_le word c r)

digits_le : (c : Bytes) → length (digits c).1 ≤ length c
unfolding digits
digits_le [] = omega arith
digits_le (ch ∷ c) = ground (arith, digits_le c)

string_round :
    (f : ℕ) (out p : Bytes) (s : Step)
    → string_step p ≡ s
    → ((w r : Bytes) → Leaves (length r) (string_loop f (out ++ w) r))
    → Leaves (length p) (string_loop (suc f) out p)
unfolding string_loop
string_round f out p (close r) e rest = elim (Bool-cases (utf8_valid out)) [
  | inl v ↦ rw (e, string_loop, v) (close_shorter p r e)
  | inr v ↦ rw (e, string_loop, v) tt
]
string_round f out p (emit w r) e rest =
    rw (e, string_loop)
      (Leaves-mono (length r) (length p) _ (omega (arith, emit_shorter p w r e)) (rest w r))
string_round f out p fail e rest = rw (e, string_loop) tt

string_loop-Leaves : (f : ℕ) (out p : Bytes) → Leaves (length p) (string_loop f out p)
string_loop-Leaves zero out p = unfold string_loop in tt
string_loop-Leaves (suc f) out p =
    string_round f out p (string_step p) refl (λ w r. string_loop-Leaves f (out ++ w) r)

pub raw-Leaves : (c : Bytes) → Leaves (length c) (parse_string_raw c)
unfolding parse_string_raw
raw-Leaves [] = tt
raw-Leaves (q ∷ p) = elim (Bool-cases (q == b'"')) [
  | inl e ↦ rw e (
      Leaves-mono (length p) (suc (length p)) _ (omega arith)
        (string_loop-Leaves (suc (length p)) [] p))
  | inr e ↦ rw e tt
]

pub string-Leaves : (c : Bytes) → Leaves (length c) (parse_string c)
unfolding parse_string
string-Leaves c = elim (Option-cases (parse_string_raw c)) [
  | inl e ↦ rw (e, parse_string) tt
  | inr ((s, r), e) ↦ rw (e, parse_string) (subst (Leaves (length c)) e (raw-Leaves c))
]

pub literal-Leaves : (c : Bytes) → Leaves (length c) (parse_literal c)
unfolding parse_literal
literal-Leaves c = elim (Option-cases (behind (codes "true") c)) [
  | inr (r, e) ↦ rw (e, parse_literal) (omega (arith, behind_le (codes "true") c r e))
  | inl e ↦ elim (Option-cases (behind (codes "false") c)) [
    | inr (r, f) ↦ rw (e, parse_literal, f) (omega (arith, behind_le (codes "false") c r f))
    | inl f ↦ elim (Option-cases (behind (codes "null") c)) [
      | inr (r, g) ↦ rw (e, parse_literal, f, g) (omega (arith, behind_le (codes "null") c r g))
      | inl g ↦ rw (e, parse_literal, f, g) tt
    ]
  ]
]

sign_le : (c : Bytes) → length (number_sign c).1 ≤ length c
unfolding number_sign
sign_le [] = omega arith
sign_le (ch ∷ c) = ground arith

digits_first : (ch : ℕ) (c : Bytes) → is_digit ch ≡ true → length (digits (ch ∷ c)).1 ≤ length c
unfolding digits
digits_first ch c h = ground (arith, digits_le c)

whole-Leaves : (c : Bytes) → Leaves (length c) (number_whole c)
unfolding number_whole
whole-Leaves [] = tt
whole-Leaves (ch ∷ c) = ground (arith, digits_first ch c)

fraction-Leaves : (c : Bytes) → Leaves (suc (length c)) (number_fraction c)
unfolding number_fraction
fraction-Leaves [] = omega arith
fraction-Leaves (ch ∷ c) = ground (arith, digits_le c)

exponent_sign_le : (c : Bytes) → length (exponent_sign c).1 ≤ length c
unfolding exponent_sign
exponent_sign_le [] = omega arith
exponent_sign_le (ch ∷ c) = ground arith

exponent_le :
    (c : Bytes) (negative : Bool) (exp : ℕ) (r : Bytes)
    → number_exponent c ≡ some (negative, exp, r)
    → length r ≤ length c
unfolding number_exponent exponent_digits
exponent_le [] negative exp r h = ground arith
exponent_le (ch ∷ c) negative exp r h =
    ground (arith, exponent_sign_le c, digits_le (exponent_sign c).1)

pub number-Leaves : (c : Bytes) → Leaves (length c) (parse_number c)
unfolding parse_number
number-Leaves c = elim (Option-cases (number_whole (number_sign c).1)) [
  | inl e ↦ rw (e, parse_number) tt
  | inr ((whole, p), e) ↦ elim (Option-cases (number_fraction p)) [
    | inl f ↦ rw (e, parse_number, f) tt
    | inr ((fraction, p'), f) ↦ elim (Option-cases (number_exponent p')) [
      | inl g ↦ rw (e, parse_number, f, g) tt
      | inr ((negative, exp, p''), g) ↦
          let w : length p < length (number_sign c).1 =
            subst (Leaves (length (number_sign c).1)) e (whole-Leaves (number_sign c).1) in
          let x : length p' < suc (length p) =
            subst (Leaves (suc (length p))) f (fraction-Leaves p) in
          rw (e, parse_number, f, g)
            (omega (arith, w, x, sign_le c, exponent_le p' negative exp p'' g))
    ]
  ]
]
