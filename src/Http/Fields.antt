-- ===== src/Http/Fields.antt =====
-- The head of an HTTP response as RFC 9112 lays it out, and what the scanners of src/ph_http.c find in it.
use posthog_c.Base.{
  ℕ, ◌+◌, ◌*◌, ◌<◌, ◌≡◌, refl, sym, ap, ◌∙◌, true, false, ◌||◌, none, some, List, [], ◌∷◌, ◌++◌,
  ◌==◌, length, Bytes, All, codes, bytes_eq, map, arith, append_assoc, length-append,
}
use posthog_c.Base.Int.{pos}
use posthog_c.Http.{ends_line}
use posthog_c.Http.Lines.{InLine}
use posthog_c.Http.Head.{
  blank_line, find_header_end, to_space, skip_spaces, three_digits, parse_status, tolower, is_gap,
}

-- Lines that each follow a CR LF, with `rest` behind the last.
abbrev pub lines_text : List Bytes → Bytes → Bytes
lines_text [] rest = rest
lines_text (l ∷ ls) rest = 13 ∷ 10 ∷ (l ++ lines_text ls rest)

-- A line with something in it.
abbrev pub IsFull : Bytes → Type 0
IsFull l = (0 < length l) × All InLine l

-- A header field.
pub record Field : Type 0 where
  pub name : Bytes
  pub content : Bytes

abbrev pub field_text : Field → Bytes
field_text f = f.name ++ (b':' ∷ f.content)

abbrev pub NoColon : ℕ → Type 0
NoColon c = (c == b':') ≡ false

-- A field that is not Transfer-Encoding, in any case of its letters.
pub record IsOther (f : Field) : Type 0 where
  pub name_chars : All NoColon f.name
  pub name_line : All InLine f.name
  pub content_line : All InLine f.content
  pub other_name : bytes_eq (map tolower f.name) (codes "transfer-encoding") ≡ false

-- A coding of the list, with what stands in front of it.
pub record Coding : Type 0 where
  pub gap : Bytes
  pub word : Bytes

abbrev pub IsGap : ℕ → Type 0
IsGap c = is_gap c ≡ true

abbrev pub InToken : ℕ → Type 0
InToken c = (is_gap c || ends_line c) ≡ false

abbrev pub IsCoding : Coding → Type 0
IsCoding c = All IsGap c.gap × All InToken c.word × (0 < length c.word)

-- A list of codings, separated by commas, that ends with `last`.
abbrev pub codings_text : List Coding → Coding → Bytes → Bytes
codings_text [] last rest = last.gap ++ (last.word ++ rest)
codings_text (c ∷ cs) last rest = c.gap ++ (c.word ++ (b',' ∷ codings_text cs last rest))

-- The status line behind "HTTP/".
pub record Status : Type 0 where
  pub version : Bytes
  pub hundreds : ℕ
  pub tens : ℕ
  pub units : ℕ
  pub reason : Bytes

abbrev pub NoSpace : ℕ → Type 0
NoSpace c = (c == b' ') ≡ false

pub record IsStatus (s : Status) : Type 0 where
  pub no_space : All NoSpace s.version
  pub version_line : All InLine s.version
  pub digits : (s.hundreds < 10) × (s.tens < 10) × (s.units < 10)
  pub reason_line : All InLine s.reason

abbrev pub code_text : Status → Bytes → Bytes
code_text s rest =
    b' ' ∷ (b'0' + s.hundreds) ∷ (b'0' + s.tens) ∷ (b'0' + s.units) ∷ (s.reason ++ rest)

abbrev pub code_of : Status → ℕ
code_of s = s.hundreds * 100 + s.tens * 10 + s.units

-- A head with a Transfer-Encoding field: the fields before it, the codings it lists, the lines behind it.
pub record HeadLines : Type 0 where
  pub status : Status
  pub before : List Field
  pub name : Bytes
  pub codings : List Coding
  pub last : Coding
  pub after : List Bytes

pub record IsHead (h : HeadLines) : Type 0 where
  pub status_fits : IsStatus h.status
  pub others : All IsOther h.before
  pub name_chars : All NoColon h.name
  pub name_line : All InLine h.name
  pub is_name : bytes_eq (map tolower h.name) (codes "transfer-encoding") ≡ true
  pub all_codings : All IsCoding h.codings
  pub last_coding : IsCoding h.last
  pub chunked_last : bytes_eq (map tolower h.last.word) (codes "chunked") ≡ true
  pub full_lines : All IsFull h.after

abbrev pub fields_text : List Field → Bytes → Bytes
fields_text [] rest = rest
fields_text (f ∷ fs) rest = 13 ∷ 10 ∷ (field_text f ++ fields_text fs rest)

abbrev pub transfer_text : HeadLines → Bytes → Bytes
transfer_text h rest = h.name ++ (b':' ∷ codings_text h.codings h.last (lines_text h.after rest))

abbrev pub head_text : HeadLines → Bytes → Bytes
head_text h rest =
    codes "HTTP/"
    ++ (h.status.version
        ++ code_text h.status (fields_text h.before (13 ∷ 10 ∷ transfer_text h rest)))

-- The end of the head, with the body behind its blank line.
blank_read : (body : Bytes) → find_header_end (13 ∷ 10 ∷ 13 ∷ 10 ∷ body) ≡ some ([], body)
unfolding find_header_end blank_line
blank_read body = refl

line_passed :
    (l r h body : Bytes)
    → All InLine l
    → find_header_end r ≡ some (h, body)
    → find_header_end (l ++ r) ≡ some (l ++ h, body)
unfolding find_header_end blank_line
line_passed [] r h body v e = e
line_passed (c ∷ l) r h body (v, vs) e =
    rw (no_blank c (l ++ r) v, find_header_end, line_passed l r h body vs e) refl
  where
    no_blank : (c : ℕ) (p : Bytes) → InLine c → blank_line (c ∷ p) ≡ none
    no_blank c [] v = refl
    no_blank c (x ∷ []) v = refl
    no_blank c (x ∷ y ∷ []) v = refl
    no_blank c (x ∷ y ∷ z ∷ p) v = ground arith

-- A CR LF and the first byte of the line behind it.
break_passed :
    (c : ℕ) (r h body : Bytes)
    → InLine c
    → find_header_end (c ∷ r) ≡ some (h, body)
    → find_header_end (13 ∷ 10 ∷ c ∷ r) ≡ some (13 ∷ 10 ∷ h, body)
unfolding find_header_end
break_passed c r h body v e = rw (first c r v, find_header_end, second c r, find_header_end, e) refl
  where
    first : (c : ℕ) (r : Bytes) → InLine c → blank_line (13 ∷ 10 ∷ c ∷ r) ≡ none
    first c [] v = unfold blank_line in refl
    first c (d ∷ r) v = unfold blank_line in ground arith

    second : (c : ℕ) (r : Bytes) → blank_line (10 ∷ c ∷ r) ≡ none
    second c [] = unfold blank_line in refl
    second c (d ∷ []) = unfold blank_line in refl
    second c (d ∷ e ∷ r) = unfold blank_line in refl

full_passed :
    (l r h body : Bytes)
    → IsFull l
    → find_header_end r ≡ some (h, body)
    → find_header_end (13 ∷ 10 ∷ (l ++ r)) ≡ some (13 ∷ 10 ∷ (l ++ h), body)
full_passed [] r h body (n, v) e = absurd (omega arith)
full_passed (c ∷ l) r h body (n, (v, vs)) e =
    break_passed c (l ++ r) (c ∷ (l ++ h)) body v (line_passed (c ∷ l) r h body (v, vs) e)

lines_passed :
    (ls : List Bytes) (r h body : Bytes)
    → All IsFull ls
    → find_header_end r ≡ some (h, body)
    → find_header_end (lines_text ls r) ≡ some (lines_text ls h, body)
lines_passed [] r h body v e = e
lines_passed (l ∷ ls) r h body (v, vs) e =
    full_passed l (lines_text ls r) (lines_text ls h) body v (lines_passed ls r h body vs e)

InLine-append : (x y : Bytes) → All InLine x → All InLine y → All InLine (x ++ y)
InLine-append [] y h k = k
InLine-append (c ∷ x) y (h, hs) k = (h, InLine-append x y hs k)

pub named-IsFull :
    (name content : Bytes)
    → All InLine name
    → All InLine content
    → IsFull (name ++ (b':' ∷ content))
named-IsFull name content h k = (
  omega (arith, length-append name (b':' ∷ content)),
  InLine-append name (b':' ∷ content) h (refl, k),
)

pub named_line :
    (name content rest : Bytes)
    → (name ++ (b':' ∷ content)) ++ rest ≡ name ++ (b':' ∷ (content ++ rest))
named_line name content rest = append_assoc name (b':' ∷ content) rest

gap_line : (g : Bytes) → All IsGap g → All InLine g
gap_line [] h = tt
gap_line (c ∷ g) (h, hs) = (ground arith, gap_line g hs)

word_line : (w : Bytes) → All InToken w → All InLine w
word_line [] h = tt
word_line (c ∷ w) (h, hs) = (ground arith, word_line w hs)

codings_line :
    (cs : List Coding) (last : Coding)
    → All IsCoding cs
    → IsCoding last
    → All InLine (codings_text cs last [])
codings_line [] last h (g, w, n) =
    InLine-append last.gap _ (gap_line last.gap g)
      (InLine-append last.word [] (word_line last.word w) tt)
codings_line (c ∷ cs) last ((g, w, n), hs) k =
    InLine-append c.gap _ (gap_line c.gap g)
      (InLine-append c.word _ (word_line c.word w) (refl, codings_line cs last hs k))

codings_rest :
    (cs : List Coding) (last : Coding) (rest : Bytes)
    → codings_text cs last [] ++ rest ≡ codings_text cs last rest
codings_rest [] last rest =
    append_assoc last.gap (last.word ++ []) rest
    ∙ ap (λ t. last.gap ++ t) (append_assoc last.word [] rest)
codings_rest (c ∷ cs) last rest =
    append_assoc c.gap (c.word ++ (b',' ∷ codings_text cs last [])) rest
    ∙ ap (λ t. c.gap ++ t)
        (append_assoc c.word (b',' ∷ codings_text cs last []) rest
          ∙ ap (λ t. c.word ++ (b',' ∷ t)) (codings_rest cs last rest))

-- The line of the Transfer-Encoding field.
abbrev transfer_line : HeadLines → Bytes
transfer_line h = h.name ++ (b':' ∷ codings_text h.codings h.last [])

transfer_split :
    (h : HeadLines) (rest : Bytes)
    → transfer_line h ++ lines_text h.after rest ≡ transfer_text h rest
transfer_split h rest =
    named_line h.name (codings_text h.codings h.last []) (lines_text h.after rest)
    ∙ ap (λ t. h.name ++ (b':' ∷ t)) (codings_rest h.codings h.last (lines_text h.after rest))

transfer-IsFull : (h : HeadLines) → IsHead h → IsFull (transfer_line h)
transfer-IsFull h v =
    named-IsFull h.name _ v.name_line (codings_line h.codings h.last v.all_codings v.last_coding)

transfer_passed :
    (h : HeadLines) (body : Bytes)
    → IsHead h
    → find_header_end (13 ∷ 10 ∷ transfer_text h (13 ∷ 10 ∷ 13 ∷ 10 ∷ body))
      ≡ some (13 ∷ 10 ∷ transfer_text h [], body)
transfer_passed h body v =
    ap (λ t. find_header_end (13 ∷ 10 ∷ t)) (sym (transfer_split h (13 ∷ 10 ∷ 13 ∷ 10 ∷ body)))
    ∙ full_passed (transfer_line h) _ _ body (transfer-IsFull h v)
        (lines_passed h.after _ [] body v.full_lines (blank_read body))
    ∙ ap (λ t. some (13 ∷ 10 ∷ t, body)) (transfer_split h [])

fields_passed :
    (fs : List Field) (r h body : Bytes)
    → All IsOther fs
    → find_header_end r ≡ some (h, body)
    → find_header_end (fields_text fs r) ≡ some (fields_text fs h, body)
fields_passed [] r h body v e = e
fields_passed (f ∷ fs) r h body (v, vs) e =
    full_passed (field_text f) (fields_text fs r) (fields_text fs h) body
      (named-IsFull f.name f.content v.name_line v.content_line) (fields_passed fs r h body vs e)

pub digit_line : (d : ℕ) → d < 10 → InLine (b'0' + d)
digit_line d h = ground arith

-- The first blank line is the one that ends the head.
pub head_found :
    (h : HeadLines) (body : Bytes)
    → IsHead h
    → find_header_end (head_text h (13 ∷ 10 ∷ 13 ∷ 10 ∷ body)) ≡ some (head_text h [], body)
head_found h body v =
    line_passed (codes "HTTP/") _ _ body (refl, (refl, (refl, (refl, (refl, tt)))))
      (line_passed h.status.version _ _ body v.status_fits.version_line (
        line_passed
          (b' '
            ∷ (b'0' + h.status.hundreds)
            ∷ (b'0' + h.status.tens)
            ∷ (b'0' + h.status.units)
            ∷ h.status.reason)
          _ _ body
          (
            refl,
            (
              digit_line _ v.status_fits.digits.0,
              (
                digit_line _ v.status_fits.digits.1,
                (digit_line _ v.status_fits.digits.2, v.status_fits.reason_line),
              ),
            ),
          )
          (fields_passed h.before _ _ body v.others (transfer_passed h body v))))

version_passed : (x r : Bytes) → All NoSpace x → to_space (x ++ (b' ' ∷ r)) ≡ b' ' ∷ r
unfolding to_space
version_passed [] r h = refl
version_passed (c ∷ x) r (h, hs) = rw (h, to_space) (version_passed x r hs)

digits_read :
    (a b c : ℕ) (r : Bytes)
    → (a < 10) × (b < 10) × (c < 10)
    → three_digits (skip_spaces (b' ' ∷ (b'0' + a) ∷ (b'0' + b) ∷ (b'0' + c) ∷ r))
      ≡ pos (a * 100 + b * 10 + c)
unfolding three_digits skip_spaces
digits_read a b c r h = ground arith

-- The status is the number of the status line.
pub status_read :
    (h : HeadLines) (rest : Bytes)
    → IsHead h
    → parse_status (head_text h rest) ≡ pos (code_of h.status)
unfolding parse_status
status_read h rest v =
    let s = h.status in
    ap (λ t. three_digits (skip_spaces t))
      (version_passed (codes "HTTP/" ++ s.version) _
        (refl, (refl, (refl, (refl, (refl, v.status_fits.no_space))))))
    ∙ digits_read s.hundreds s.tens s.units _ v.status_fits.digits
