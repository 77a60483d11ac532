-- ===== src/Jsonval/Strings.antt =====
-- The loop of parse_string_raw: it ends, and its rounds can be taken one at a time.
use posthog_c.Base.{
  ℕ, zero, suc, ◌+◌, ◌*◌, ◌≤◌, ◌<◌, ◌≡◌, refl, subst, Bool, true, false, ◌&&◌, ◌||◌, Option, some,
  [], ◌∷◌, ◌++◌, leb, ◌==◌, if◌then◌else◌, length, Bytes, arith, Bool-cases, Option-cases, inl, inr,
}
use posthog_c.Json.{between}
use posthog_c.Jsonval.{
  Step, close, emit, fail, hex_value, hex_loop, hex4, emit_code, low_surrogate, unicode_escape,
  escape_step, string_step, string_loop, utf8_valid,
}

-- A round that emits leaves fewer bytes than it was given; one that ends too.
Shorter : Step → ℕ → Type 0
Shorter (close r) n = length r < n
Shorter (emit w r) n = length r < n
Shorter fail n = Unit

Shorter-close : (r : Bytes) (n : ℕ) → length r < n → Shorter (close r) n
unfolding Shorter
Shorter-close r n h = h

Shorter-emit : (w r : Bytes) (n : ℕ) → length r < n → Shorter (emit w r) n
unfolding Shorter
Shorter-emit w r n h = h

Shorter-fail : (n : ℕ) → Shorter fail n
unfolding Shorter
Shorter-fail n = tt

hex_loop_shorter :
    (n v : ℕ) (p : Bytes) (w : ℕ) (r : Bytes) → hex_loop n v p ≡ some (w, r) → length r ≤ length p
unfolding hex_loop
hex_loop_shorter zero v p w r h = ground arith
hex_loop_shorter (suc n) v [] w r h = cc
hex_loop_shorter (suc n) v (ch ∷ p) w r h = elim (Option-cases (hex_value ch)) [
  | inl e ↦ ground (arith, e)
  | inr (d, e) ↦ ground (arith, e, hex_loop_shorter n (v * 16 + d) p w r)
]

hex4_shorter : (p : Bytes) (w : ℕ) (r : Bytes) → hex4 p ≡ some (w, r) → length r ≤ length p
unfolding hex4
hex4_shorter p w r h = hex_loop_shorter 4 0 p w r h

emit_code-Shorter : (cp : ℕ) (p : Bytes) (n : ℕ) → length p < n → Shorter (emit_code cp p) n
unfolding emit_code
emit_code-Shorter cp p n h = elim (Bool-cases (cp == 0 || between 0xDC00 cp 0xDFFF)) [
  | inl e ↦ rw e (Shorter-fail n)
  | inr e ↦ rw e (Shorter-emit _ p n h)
]

low_surrogate-Shorter : (cp : ℕ) (p : Bytes) (n : ℕ) → length p < n → Shorter (low_surrogate cp p) n
unfolding low_surrogate
low_surrogate-Shorter cp [] n h = Shorter-fail n
low_surrogate-Shorter cp (_ ∷ []) n h = Shorter-fail n
low_surrogate-Shorter cp (b ∷ u ∷ p) n h = elim (Bool-cases (b == b'\\' && u == b'u')) [
  | inr e ↦ rw e (Shorter-fail n)
  | inl e ↦ elim (Option-cases (hex4 p)) [
    | inl f ↦ rw (e, f) (Shorter-fail n)
    | inr ((lo, p'), f) ↦ elim (Bool-cases (between 0xDC00 lo 0xDFFF)) [
      | inr g ↦ rw (e, f, g) (Shorter-fail n)
      | inl g ↦ rw (e, f, g) (emit_code-Shorter _ p' n (omega (arith, hex4_shorter p lo p' f)))
    ]
  ]
]

unicode_escape-Shorter : (p : Bytes) (n : ℕ) → length p < n → Shorter (unicode_escape p) n
unfolding unicode_escape
unicode_escape-Shorter p n h = elim (Option-cases (hex4 p)) [
  | inl f ↦ rw (f, unicode_escape) (Shorter-fail n)
  | inr ((cp, p'), f) ↦
      let less : length p' < n = omega (arith, hex4_shorter p cp p' f) in
      elim (Bool-cases (between 0xD800 cp 0xDBFF)) [
        | inl g ↦ rw (f, unicode_escape, g) (low_surrogate-Shorter cp p' n less)
        | inr g ↦ rw (f, unicode_escape, g) (emit_code-Shorter cp p' n less)
      ]
]

if_Shorter :
    (b : Bool) (s t : Step) (n : ℕ) → Shorter s n → Shorter t n → Shorter (if b then s else t) n
if_Shorter true s t n h k = h
if_Shorter false s t n h k = k

escape_step-Shorter : (p : Bytes) (n : ℕ) → length p < n → Shorter (escape_step p) n
unfolding escape_step
escape_step-Shorter [] n h = Shorter-fail n
escape_step-Shorter (e ∷ p) n h = one (e == b'"') (b'"' ∷ []) _ (
    one (e == b'\\') (b'\\' ∷ []) _ (
      one (e == b'/') (b'/' ∷ []) _ (
        one (e == b'b') (8 ∷ []) _ (
          one (e == b'f') (12 ∷ []) _ (
            one (e == b'n') (10 ∷ []) _ (
              one (e == b'r') (13 ∷ []) _ (
                one (e == b't') (9 ∷ []) _ (
                  if_Shorter (e == b'u') (unicode_escape p) fail n (unicode_escape-Shorter p n less)
                    (Shorter-fail n)))))))))
  where
    less : length p < n
    less = omega arith

    one : (b : Bool) (w : Bytes) (s : Step) → Shorter s n → Shorter (if b then emit w p else s) n
    one b w s h = if_Shorter _ _ _ n (Shorter-emit _ p n less) h

string_step-Shorter : (p : Bytes) → Shorter (string_step p) (length p)
unfolding string_step
string_step-Shorter [] = Shorter-fail 0
string_step-Shorter (ch ∷ p) = if_Shorter (ch == b'"') (close p) _ n (Shorter-close p n less) (
    if_Shorter (ch == b'\\') (escape_step p) _ n (escape_step-Shorter p n less) (
      if_Shorter (leb 0x20 ch) (emit (ch ∷ []) p) fail n (Shorter-emit (ch ∷ []) p n less)
        (Shorter-fail n)))
  where
    n : ℕ
    n = suc (length p)

    less : length p < n
    less = omega arith

-- A round that emits leaves fewer bytes than it was given.
pub emit_shorter : (p w r : Bytes) → string_step p ≡ emit w r → length r < length p
unfolding Shorter
emit_shorter p w r h = subst (λ s. Shorter s (length p)) h (string_step-Shorter p)

pub close_shorter : (p r : Bytes) → string_step p ≡ close r → length r < length p
unfolding Shorter
close_shorter p r h = subst (λ s. Shorter s (length p)) h (string_step-Shorter p)

-- Two loops agree if they agree behind a round that emits.
loop_round :
    (f g : ℕ) (out p : Bytes) (s : Step)
    → string_step p ≡ s
    → ((w r : Bytes) → s ≡ emit w r → string_loop f (out ++ w) r ≡ string_loop g (out ++ w) r)
    → string_loop (suc f) out p ≡ string_loop (suc g) out p
unfolding string_loop
loop_round f g out p (close r) e agree = rw (e, string_loop)
loop_round f g out p (emit w r) e agree = rw (e, string_loop) (agree w r refl)
loop_round f g out p fail e agree = rw (e, string_loop)

-- Two amounts of fuel that exceed the bytes left give one result.
pub string_loop_enough :
    (f g : ℕ) (out p : Bytes)
    → length p < f
    → length p < g
    → string_loop f out p ≡ string_loop g out p
string_loop_enough zero g out p hf hg = absurd (omega arith)
string_loop_enough (suc f) zero out p hf hg = absurd (omega arith)
string_loop_enough (suc f) (suc g) out p hf hg = loop_round f g out p (string_step p) refl (λ w r e.
    string_loop_enough f g (out ++ w) r (omega (arith, emit_shorter p w r e))
      (omega (arith, emit_shorter p w r e)))

-- The loop with enough fuel.
unfoldable pub read : Bytes → Bytes → Option (Bytes × Bytes)
read out p = string_loop (suc (length p)) out p

-- A round that emits, and the end.
pub read-emit : (out p w r : Bytes) → string_step p ≡ emit w r → read out p ≡ read (out ++ w) r
unfolding read string_loop
read-emit out p w r e =
    rw (e, string_loop)
      (string_loop_enough (length p) (suc (length r)) (out ++ w) r less (omega arith))
  where
    less : length r < length p
    less = emit_shorter p w r e

pub read-close :
    (out p r : Bytes) → string_step p ≡ close r → utf8_valid out ≡ true → read out p ≡ some (out, r)
unfolding read string_loop
read-close out p r e v = rw (e, string_loop, v)
