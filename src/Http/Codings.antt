-- ===== src/Http/Codings.antt =====
-- scan_transfer_chunked of src/ph_http.c on a head as it is laid out.
use posthog_c.Base.{
  ℕ, zero, suc, ◌+◌, ◌≤◌, ◌<◌, ◌≡◌, refl, ap, ◌∙◌, true, false, ◌||◌, none, some, List, [], ◌∷◌,
  ◌++◌, ◌==◌, if◌then◌else◌, length, Bytes, All, codes, bytes_eq, map, arith, length-append,
}
use posthog_c.Http.{ends_line}
use posthog_c.Http.Lines.{InLine}
use posthog_c.Http.Head.{
  tolower, match_key, find_field, is_gap, skip_gap, token, to_comma, at_line_end, lists_chunked,
  scan_transfer_chunked,
}
use posthog_c.Http.Fields.{
  lines_text, IsFull, Field, field_text, NoColon, IsOther, Coding, IsGap, InToken, IsCoding,
  codings_text, Status, IsStatus, code_text, HeadLines, IsHead, fields_text, head_text,
  named-IsFull, named_line, digit_line,
}

-- The key is matched by a name that is the same but for the case of its letters, and by no other.
match_key-name :
    (key name r : Bytes)
    → All NoColon key
    → All NoColon name
    → match_key (key ++ (b':' ∷ [])) (name ++ (b':' ∷ r))
      ≡ (if bytes_eq (map tolower name) key then some r else none)
unfolding match_key bytes_eq
match_key-name [] [] r h k = refl
match_key-name [] (c ∷ name) r h (k, ks) = ground arith
match_key-name (x ∷ key) [] r (h, hs) k = ground arith
match_key-name (x ∷ key) (c ∷ name) r (h, hs) (k, ks) =
    ground (arith, match_key-name key name r hs ks)

abbrev transfer_key : Bytes
transfer_key = codes "transfer-encoding:"

-- Within a line no field is looked for.
rest_of_line :
    (l r : Bytes)
    → All InLine l
    → find_field transfer_key false (l ++ r) ≡ find_field transfer_key false r
unfolding find_field
rest_of_line [] r h = refl
rest_of_line (c ∷ l) r (h, hs) =
    let inside : (c == 10) ≡ false = ground arith in rw inside (rest_of_line l r hs)

next_line :
    (r : Bytes) → find_field transfer_key false (13 ∷ 10 ∷ r) ≡ find_field transfer_key true r
unfolding find_field
next_line r = refl

other_line :
    (l r : Bytes)
    → IsFull l
    → match_key transfer_key (l ++ r) ≡ none
    → find_field transfer_key true (l ++ r) ≡ find_field transfer_key false r
unfolding find_field
other_line [] r (n, v) e = absurd (omega arith)
other_line (c ∷ l) r (n, (v, vs)) e =
    let inside : (c == 10) ≡ false = ground arith in
    rw (e, find_field, inside) (rest_of_line l r vs)

field_key : (f : Field) (r : Bytes) → IsOther f → match_key transfer_key (field_text f ++ r) ≡ none
field_key f r v =
    ap (match_key transfer_key) (named_line f.name f.content r)
    ∙ match_key-name (codes "transfer-encoding") f.name (f.content ++ r) (ground arith) v.name_chars
    ∙ rw v.other_name refl

others_skipped :
    (fs : List Field) (r : Bytes)
    → All IsOther fs
    → find_field transfer_key false (fields_text fs (13 ∷ 10 ∷ r)) ≡ find_field transfer_key true r
others_skipped [] r h = next_line r
others_skipped (f ∷ fs) r (h, hs) =
    next_line (field_text f ++ fields_text fs (13 ∷ 10 ∷ r))
    ∙ other_line (field_text f) _ (named-IsFull f.name f.content h.name_line h.content_line)
        (field_key f _ h)
    ∙ others_skipped fs r hs

status_skipped :
    (s : Status) (r : Bytes)
    → IsStatus s
    → find_field transfer_key true (codes "HTTP/" ++ (s.version ++ code_text s r))
      ≡ find_field transfer_key false r
status_skipped s r v =
    other_line (codes "HTTP/") (s.version ++ code_text s r)
      (omega arith, (refl, (refl, (refl, (refl, (refl, tt)))))) (unfold match_key in refl)
    ∙ rest_of_line s.version _ v.version_line
    ∙ rest_of_line (b' ' ∷ (b'0' + s.hundreds) ∷ (b'0' + s.tens) ∷ (b'0' + s.units) ∷ s.reason) r (
      refl,
      (
        digit_line _ v.digits.0,
        (digit_line _ v.digits.1, (digit_line _ v.digits.2, v.reason_line)),
      ),
    )

field_found :
    (p r : Bytes)
    → match_key transfer_key p ≡ some r
    → 0 < length p
    → find_field transfer_key true p ≡ some r
unfolding find_field
field_found [] r e n = absurd (omega arith)
field_found (c ∷ p) r e n = rw (e, find_field) refl

transfer_found :
    (h : HeadLines) (rest : Bytes)
    → IsHead h
    → find_field transfer_key true (head_text h rest)
      ≡ some (codings_text h.codings h.last (lines_text h.after rest))
transfer_found h rest v =
    let r = codings_text h.codings h.last (lines_text h.after rest) in
    status_skipped h.status _ v.status_fits
    ∙ others_skipped h.before _ v.others
    ∙ field_found (h.name ++ (b':' ∷ r)) r
        (match_key-name (codes "transfer-encoding") h.name r (ground arith) v.name_chars
          ∙ rw v.is_name refl)
        (omega (arith, length-append h.name (b':' ∷ r)))

gap_skipped : (g p : Bytes) → All IsGap g → skip_gap (g ++ p) ≡ skip_gap p
unfolding skip_gap
gap_skipped [] p h = refl
gap_skipped (c ∷ g) p (h, hs) = rw h (gap_skipped g p hs)

-- What ends a token.
abbrev Stops : Bytes → Type 0
Stops [] = Unit
Stops (c ∷ p) = (is_gap c || ends_line c) ≡ true

token_read : (w p : Bytes) → All InToken w → Stops p → token (w ++ p) ≡ (w, p)
unfolding token
token_read [] [] h s = refl
token_read [] (c ∷ p) h s = rw s refl
token_read (c ∷ w) p (h, hs) s = rw (h, token_read w p hs s) refl

word_kept : (w p : Bytes) → All InToken w → 0 < length w → skip_gap (w ++ p) ≡ w ++ p
unfolding skip_gap
word_kept [] p h n = absurd (omega arith)
word_kept (c ∷ w) p (h, hs) n = let solid : is_gap c ≡ false = ground arith in rw solid refl

coding_read :
    (pre : Bytes) (c : Coding) (p : Bytes)
    → All IsGap pre
    → IsCoding c
    → Stops p
    → token (skip_gap (pre ++ (c.gap ++ (c.word ++ p)))) ≡ (c.word, p)
coding_read pre c p h (g, w, n) s =
    ap token (gap_skipped pre _ h ∙ gap_skipped c.gap _ g ∙ word_kept c.word p w n)
    ∙ token_read c.word p w s

more_on_line :
    (pre : Bytes) (c : Coding) (p : Bytes)
    → All IsGap pre
    → IsCoding c
    → at_line_end (pre ++ (c.gap ++ (c.word ++ p))) ≡ false
more_on_line (x ∷ pre) c p (h, hs) k = ground arith
more_on_line [] c p h (g, w, n) = go c.gap c.word g w n
  where
    go :
        (gap word : Bytes)
        → All IsGap gap
        → All InToken word
        → 0 < length word
        → at_line_end (gap ++ (word ++ p)) ≡ false
    go (x ∷ gap) word (g, gs) w n = ground arith
    go [] [] g w n = absurd (omega arith)
    go [] (x ∷ word) g (w, ws) n = ground arith

chunked_listed :
    (cs : List Coding) (fuel : ℕ) (pre : Bytes) (last : Coding) (p : Bytes)
    → All IsGap pre
    → All IsCoding cs
    → IsCoding last
    → bytes_eq (map tolower last.word) (codes "chunked") ≡ true
    → Stops p
    → length cs < fuel
    → lists_chunked fuel (pre ++ codings_text cs last p) ≡ true
unfolding lists_chunked
chunked_listed cs zero pre last p hp h k e s lt = absurd (omega arith)
chunked_listed [] (suc fuel) pre last p hp h k e s lt =
    rw (more_on_line pre last p hp k, coding_read pre last p hp k s, e) refl
chunked_listed (c ∷ cs) (suc fuel) pre last p hp (h, hs) k e s lt =
    let more = b',' ∷ codings_text cs last p in
    let comma : to_comma more ≡ more = unfold to_comma in refl in
    rw (more_on_line pre c more hp h, coding_read pre c more hp h refl, comma)
      (rw (chunked_listed cs fuel (b',' ∷ []) last p (refl, tt) hs k e s (omega arith))
        (ground arith))

lines-Stops : (ls : List Bytes) → Stops (lines_text ls [])
lines-Stops [] = tt
lines-Stops (l ∷ ls) = refl

codings_length :
    (cs : List Coding) (last : Coding) (p : Bytes) → length cs ≤ length (codings_text cs last p)
codings_length [] last p = omega arith
codings_length (c ∷ cs) last p = omega (
  arith,
  codings_length cs last p,
  length-append c.gap (c.word ++ (b',' ∷ codings_text cs last p)),
  length-append c.word (b',' ∷ codings_text cs last p),
)

-- The head lists the chunked coding.
pub chunked_found : (h : HeadLines) → IsHead h → scan_transfer_chunked (head_text h []) ≡ true
unfolding scan_transfer_chunked
chunked_found h v =
    let p = lines_text h.after [] in
    rw (transfer_found h [] v, scan_transfer_chunked)
      (chunked_listed h.codings (suc (length (codings_text h.codings h.last p))) [] h.last p tt
        v.all_codings v.last_coding v.chunked_last (lines-Stops h.after)
        (omega (arith, codings_length h.codings h.last p)))
