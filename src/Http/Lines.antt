-- ===== src/Http/Lines.antt =====
-- The size line of a chunk as RFC 9112 lays it out, and what decode_chunked_full of src/ph_http.c reads.
use posthog_c.Base.{
  ℕ, ◌+◌, ◌-◌, ◌*◌, ◌/◌, ◌≤◌, ◌<◌, ◌≡◌, refl, Bool, true, false, Option, none, some, List, [], ◌∷◌,
  ◌++◌, ltb, if◌then◌else◌, Bytes, All, arith,
}
use posthog_c.Http.{size_max, hex_value, hex_size, ends_line, to_line_end}

-- A hexadecimal digit: its value, and whether a letter is written as a capital.
pub record HexDigit : Type 0 where
  pub value : ℕ
  pub capital : Bool

abbrev pub hex_char : HexDigit → ℕ
hex_char d =
    if ltb d.value 10
    then b'0' + d.value
    else if d.capital
    then b'A' + (d.value - 10)
    else b'a' + (d.value - 10)

abbrev pub hex_text : List HexDigit → Bytes
hex_text [] = []
hex_text (d ∷ ds) = hex_char d ∷ hex_text ds

-- The number that hexadecimal digits spell behind those of `acc`.
abbrev pub hex_number : ℕ → List HexDigit → ℕ
hex_number acc [] = acc
hex_number acc (d ∷ ds) = hex_number (acc * 16 + d.value) ds

abbrev pub IsHexDigit : HexDigit → Type 0
IsHexDigit d = d.value < 16

abbrev pub InLine : ℕ → Type 0
InLine c = ends_line c ≡ false

-- A size line: digits, and an extension that may be empty.
pub record Line : Type 0 where
  pub first : HexDigit
  pub more : List HexDigit
  pub ext : Option Bytes

abbrev pub ext_text : Option Bytes → Bytes
ext_text none = []
ext_text (some x) = b';' ∷ x

abbrev pub IsExt : Option Bytes → Type 0
IsExt none = Unit
IsExt (some x) = All InLine x

abbrev pub size_of : Line → ℕ
size_of l = hex_number l.first.value l.more

pub record IsLine (l : Line) : Type 0 where
  pub digits : All IsHexDigit (l.first ∷ l.more)
  pub fits : size_of l ≤ size_max
  pub ext_fits : IsExt l.ext

abbrev pub line_text : Line → Bytes → Bytes
line_text l rest = hex_text (l.first ∷ l.more) ++ (ext_text l.ext ++ (13 ∷ 10 ∷ rest))

hex_value-hex_char : (d : HexDigit) → IsHexDigit d → hex_value (hex_char d) ≡ some d.value
unfolding hex_value
hex_value-hex_char d h = ground arith

hex_number_le : (acc : ℕ) (ds : List HexDigit) → acc ≤ hex_number acc ds
hex_number_le acc [] = omega arith
hex_number_le acc (d ∷ ds) = omega (arith, hex_number_le (acc * 16 + d.value) ds)

-- What follows the digits does not go on with them.
stops :
    (len : ℕ) (x : Option Bytes) (rest : Bytes)
    → hex_size len true (ext_text x ++ (13 ∷ 10 ∷ rest))
      ≡ some (len, true, ext_text x ++ (13 ∷ 10 ∷ rest))
unfolding hex_size hex_value
stops len none rest = refl
stops len (some x) rest = refl

hex_size-hex_text :
    (ds : List HexDigit) (acc : ℕ) (x : Option Bytes) (rest : Bytes)
    → All IsHexDigit ds
    → hex_number acc ds ≤ size_max
    → hex_size acc true (hex_text ds ++ (ext_text x ++ (13 ∷ 10 ∷ rest)))
      ≡ some (hex_number acc ds, true, ext_text x ++ (13 ∷ 10 ∷ rest))
unfolding hex_size
hex_size-hex_text [] acc x rest h b = stops acc x rest
hex_size-hex_text (d ∷ ds) acc x rest (h, hs) b =
    let small : ltb ((size_max - d.value) / 16) acc ≡ false =
      ground (arith, hex_number_le (acc * 16 + d.value) ds) in
    rw (hex_value-hex_char d h, hex_size, small)
      (hex_size-hex_text ds (acc * 16 + d.value) x rest hs b)

pub size_read :
    (l : Line) (rest : Bytes)
    → IsLine l
    → hex_size 0 false (line_text l rest)
      ≡ some (size_of l, true, ext_text l.ext ++ (13 ∷ 10 ∷ rest))
unfolding hex_size
size_read l rest v =
    let small : ltb ((size_max - l.first.value) / 16) 0 ≡ false = ground arith in
    let start : 0 + l.first.value ≡ l.first.value = omega arith in
    rw (hex_value-hex_char l.first v.digits.0, hex_size, small, start)
      (hex_size-hex_text l.more l.first.value l.ext rest v.digits.1 v.fits)

pub in_line : (x rest : Bytes) → All InLine x → to_line_end (x ++ (13 ∷ 10 ∷ rest)) ≡ 13 ∷ 10 ∷ rest
unfolding to_line_end
in_line [] rest h = refl
in_line (c ∷ x) rest (h, hs) = rw (h, to_line_end) (in_line x rest hs)

pub ext_passed :
    (x : Option Bytes) (rest : Bytes)
    → IsExt x
    → to_line_end (ext_text x ++ (13 ∷ 10 ∷ rest)) ≡ 13 ∷ 10 ∷ rest
unfolding to_line_end
ext_passed none rest h = refl
ext_passed (some x) rest h = in_line x rest h
