-- ===== src/Jsonval/RoundTrip.antt =====
-- What ph_json_str writes, ph_jsonval.c reads back.
use posthog_c.Base.{
  ℕ, zero, suc, ◌+◌, ◌-◌, ◌*◌, ◌/◌, ◌%◌, ◌≤◌, ◌<◌, ◌≡◌, refl, sym, subst, ap, ◌∙◌, Bool, true,
  false, ◌&&◌, Option, none, some, [], ◌∷◌, ◌++◌, ltb, ◌==◌, if◌then◌else◌, take, drop, length,
  Bytes, IsByte, IsChar, All, arith, dec_lt, length-drop, append_assoc, append-nil, bit_and,
  passes_below, passes-below,
}
use posthog_c.Json.{hex_digit, escape, replacement, json_body, utf8_seq_len}
use posthog_c.Json.Utf8.{IsHigh, IsSeq, utf8_seq_len-IsSeq}
use posthog_c.Jsonval.{
  emit, hex_value, hex_loop, hex4, emit_code, unicode_escape, escape_step, string_step, utf8_encode,
}
use posthog_c.Jsonval.Strings.{read, read-emit}

hex_test : ℕ → Bool
hex_test n = elim (hex_value (hex_digit n)) [ none ↦ false | some d ↦ d == n ]

hex_table : passes_below hex_test 16 ≡ true
unfolding hex_test passes_below hex_value hex_digit
hex_table = refl

is_some_eq :
    (o : Option ℕ) (n : ℕ) → (elim o [ none ↦ false | some d ↦ d == n ]) ≡ true → o ≡ some n
is_some_eq none n h = cc
is_some_eq (some d) n h = ground arith

hex_value-hex_digit : (n : ℕ) → n < 16 → hex_value (hex_digit n) ≡ some n
unfolding hex_test
hex_value-hex_digit n h =
    is_some_eq (hex_value (hex_digit n)) n (passes-below hex_test 16 n hex_table h)

nibble_test : ℕ → Bool
nibble_test c = (bit_and (c / 16) 0xF == c / 16) && ((bit_and c 0xF) == (c % 16))

nibble_table : passes_below nibble_test 256 ≡ true
unfolding nibble_test passes_below
nibble_table = refl

nibbles : (c : ℕ) → c < 256 → (bit_and (c / 16) 0xF ≡ c / 16) × (bit_and c 0xF ≡ c % 16)
unfolding nibble_test
nibbles c h = ground (arith, passes-below nibble_test 256 c nibble_table h)

zero_digit : hex_value b'0' ≡ some 0
unfolding hex_value
zero_digit = refl

hex4_escape :
    (h l : ℕ) (r : Bytes)
    → h < 16
    → l < 16
    → hex4 (b'0' ∷ b'0' ∷ hex_digit h ∷ hex_digit l ∷ r) ≡ some (h * 16 + l, r)
unfolding hex4 hex_loop
hex4_escape h l r hh hl =
    ground (arith, hex_value-hex_digit h hh, hex_value-hex_digit l hl, zero_digit)

-- The escape of an ASCII byte is read in one round as that byte.
escape_reads : (b : ℕ) (r : Bytes) → 0 < b → b < 128 → string_step (escape b ++ r) ≡ emit (b ∷ []) r
unfolding escape string_step escape_step unicode_escape emit_code utf8_encode
escape_reads b r pos ascii = ground (arith, nibbles b, hex4_escape (b / 16) (b % 16) r)

-- What a reader gets of a text: each byte that starts no well-formed sequence becomes U+FFFD.
unfoldable pub scrub : ℕ → Bytes → Bytes
scrub skip [] = []
scrub (suc skip) (b ∷ bs) = scrub skip bs
scrub zero (b ∷ bs) =
    let seq = utf8_seq_len (b ∷ bs) in
    (if ltb 0 seq then take seq (b ∷ bs) else replacement) ++ scrub (seq - 1) bs

high_reads : (b : ℕ) (r : Bytes) → 128 ≤ b → string_step (b ∷ r) ≡ emit (b ∷ []) r
unfolding string_step
high_reads b r h = ground arith

read-high : (w out r : Bytes) → All IsHigh w → read out (w ++ r) ≡ read (out ++ w) r
read-high [] out r h = ap (λ t. read t r) (sym (append-nil out))
read-high (b ∷ w) out r (hb, hs) =
    read-emit out (b ∷ (w ++ r)) (b ∷ []) (w ++ r) (high_reads b (w ++ r) hb.0)
    ∙ read-high w (out ++ (b ∷ [])) r hs
    ∙ ap (λ t. read t r) (append_assoc out (b ∷ []) w)

json_body-drop : (k : ℕ) (s : Bytes) → json_body k s ≡ json_body 0 (drop k s)
unfolding json_body
json_body-drop zero s = refl
json_body-drop (suc k) [] = refl
json_body-drop (suc k) (b ∷ bs) = json_body-drop k bs

pub scrub-drop : (k : ℕ) (s : Bytes) → scrub k s ≡ scrub 0 (drop k s)
unfolding scrub
scrub-drop zero s = refl
scrub-drop (suc k) [] = refl
scrub-drop (suc k) (b ∷ bs) = scrub-drop k bs

pub seq_len_ascii : (b : ℕ) (bs : Bytes) → b < 128 → utf8_seq_len (b ∷ bs) ≡ 1
unfolding utf8_seq_len
seq_len_ascii b bs h = ground arith

-- The three kinds of byte, as the writer and the reader treat them.
body_ascii : (b : ℕ) (bs : Bytes) → b < 128 → json_body 0 (b ∷ bs) ≡ escape b ++ json_body 0 bs
unfolding json_body
body_ascii b bs h = ground arith

scrub_ascii : (b : ℕ) (bs : Bytes) → b < 128 → scrub 0 (b ∷ bs) ≡ b ∷ scrub 0 bs
unfolding scrub
scrub_ascii b bs h = ground (arith, seq_len_ascii b bs h)

body_seq :
    (b : ℕ) (bs : Bytes)
    → 128 ≤ b
    → 0 < utf8_seq_len (b ∷ bs)
    → let k = utf8_seq_len (b ∷ bs) in
      (json_body 0 (b ∷ bs) ≡ take k (b ∷ bs) ++ json_body 0 (drop (k - 1) bs))
      × (scrub 0 (b ∷ bs) ≡ take k (b ∷ bs) ++ scrub 0 (drop (k - 1) bs))
unfolding json_body scrub
body_seq b bs h p = ground (
  arith,
  json_body-drop (utf8_seq_len (b ∷ bs) - 1) bs,
  scrub-drop (utf8_seq_len (b ∷ bs) - 1) bs,
)

body_bad :
    (b : ℕ) (bs : Bytes)
    → 128 ≤ b
    → utf8_seq_len (b ∷ bs) ≡ 0
    → (json_body 0 (b ∷ bs) ≡ replacement ++ json_body 0 bs)
      × (scrub 0 (b ∷ bs) ≡ replacement ++ scrub 0 bs)
unfolding json_body scrub
body_bad b bs h e = ground arith

replacement-IsHigh : All IsHigh replacement
replacement-IsHigh = omega arith

All-drop : (k : ℕ) (s : Bytes) → All IsChar s → All IsChar (drop k s)
All-drop zero s h = h
All-drop (suc k) [] h = tt
All-drop (suc k) (b ∷ s) (hb, hs) = All-drop k s hs

pub bytes_of : (s : Bytes) → All IsChar s → All IsByte s
bytes_of [] h = tt
bytes_of (b ∷ s) (hb, hs) = (hb.1, bytes_of s hs)

-- One chunk of the writer's output, which the reader takes as `u`, and what follows it.
chunk :
    (w u s s' out r : Bytes)
    → json_body 0 s ≡ w ++ json_body 0 s'
    → scrub 0 s ≡ u ++ scrub 0 s'
    → ((o t : Bytes) → read o (w ++ t) ≡ read (o ++ u) t)
    → ((o : Bytes) → read o (json_body 0 s' ++ r) ≡ read (o ++ scrub 0 s') r)
    → read out (json_body 0 s ++ r) ≡ read (out ++ scrub 0 s) r
chunk w u s s' out r body text first rest =
    ap (λ t. read out (t ++ r)) body
    ∙ ap (read out) (append_assoc w (json_body 0 s') r)
    ∙ first out (json_body 0 s' ++ r)
    ∙ rest (out ++ u)
    ∙ ap (λ t. read t r) (append_assoc out u (scrub 0 s') ∙ ap (λ t. out ++ t) (sym text))

high_chunk : (w : Bytes) → All IsHigh w → (o t : Bytes) → read o (w ++ t) ≡ read (o ++ w) t
high_chunk w h o t = read-high w o t h

take-IsHigh : (k b : ℕ) (bs : Bytes) → 128 ≤ b → b < 256 → IsSeq k bs → All IsHigh (take k (b ∷ bs))
take-IsHigh zero b bs h hb q = tt
take-IsHigh (suc k) b bs h hb q = ((h, hb), subst (λ n. All IsHigh (take n bs)) (omega arith) q.1.2)

-- The reader takes the body of a written string as the scrubbed text.
pub read-json_body :
    (n : ℕ) (s out r : Bytes)
    → length s ≤ n
    → All IsChar s
    → read out (json_body 0 s ++ r) ≡ read (out ++ scrub 0 s) r
unfolding json_body scrub
read-json_body n [] out r hn h = ap (λ t. read t r) (sym (append-nil out))
read-json_body zero (b ∷ bs) out r hn h = absurd (omega arith)
read-json_body (suc n) (b ∷ bs) out r hn (hb, hs) = elim (dec_lt b 128) [
  | yes ascii ↦
      chunk (escape b) (b ∷ []) (b ∷ bs) bs out r (body_ascii b bs ascii) (scrub_ascii b bs ascii)
        (λ o t. read-emit o (escape b ++ t) (b ∷ []) t (escape_reads b t hb.0 ascii))
        (λ o. read-json_body n bs o r (omega arith) hs)
  | no high ↦
      let high' : 128 ≤ b = omega arith in
      elim (dec_lt 0 (utf8_seq_len (b ∷ bs))) [
        | yes p ↦
            let k = utf8_seq_len (b ∷ bs) in
            let cut = drop (k - 1) bs in
            let both = body_seq b bs high' p in
            chunk (take k (b ∷ bs)) (take k (b ∷ bs)) (b ∷ bs) cut out r both.0 both.1
              (high_chunk (take k (b ∷ bs))
                (take-IsHigh k b bs high' hb.1 (utf8_seq_len-IsSeq b bs (bytes_of bs hs) high' p)))
              (λ o.
                read-json_body n cut o r (omega (arith, length-drop (k - 1) bs))
                  (All-drop (k - 1) bs hs))
        | no p ↦
            let both = body_bad b bs high' (omega arith) in
            chunk replacement replacement (b ∷ bs) bs out r both.0 both.1
              (high_chunk replacement replacement-IsHigh)
              (λ o. read-json_body n bs o r (omega arith) hs)
      ]
]
