-- ===== src/Jsonval/Value.antt =====
-- Numbers, literals, arrays and objects of src/ph_jsonval.c, and the accessors of the tree.
pub mod Depth
pub mod Scalars
pub mod Progress
use posthog_c.Base.{
  ℕ, zero, suc, ◌+◌, ◌-◌, ◌*◌, ◌≤◌, Bool, true, false, ◌&&◌, ◌||◌, not, Option, none, some, List,
  [], ◌∷◌, ◌++◌, ltb, leb, ◌==◌, if◌then◌else◌, length, Bytes, codes, min, ◌>>=◌, bytes_eq,
}
use posthog_c.Base.Int.{ℤ, pos, negsuc}
use posthog_c.Json.{between}
use posthog_c.Jsonval.{skip_ws, parse_string_raw}

-- A number as its digits. The source folds them into a double on the way: `number_value` below.
pub record Number : Type 0 where
  pub negative : Bool
  pub whole : List ℕ
  pub fraction : List ℕ
  pub exp_negative : Bool
  pub exp : ℕ

-- `struct ph_jv`.
mutual
  pub data Json : Type 0 where
    null : Json
    boolean : Bool → Json
    num : Number → Json
    str : Bytes → Json
    arr : Items → Json
    obj : Fields → Json

  pub data Items : Type 0 where
    nil : Items
    cons : Json → Items → Items

  pub data Fields : Type 0 where
    end : Fields
    field : Bytes → Json → Fields → Fields

abbrev pub is_digit : ℕ → Bool
is_digit ch = between b'0' ch b'9'

abbrev pub starts_digit : Bytes → Bool
starts_digit [] = false
starts_digit (ch ∷ p) = is_digit ch

unfoldable pub digits : Bytes → List ℕ × Bytes
digits [] = ([], [])
digits (ch ∷ p) =
    let (ds, rest) = digits p in if is_digit ch then ((ch - b'0') ∷ ds, rest) else ([], ch ∷ p)

-- A zero has no digit behind it; any other number starts with a digit that is not 0.
unfoldable pub number_whole : Bytes → Option (List ℕ × Bytes)
number_whole [] = none
number_whole (ch ∷ p) =
    if ch == b'0'
    then if starts_digit p then none else some ([], p)
    else if between b'1' ch b'9'
    then some (digits (ch ∷ p))
    else none

unfoldable pub number_fraction : Bytes → Option (List ℕ × Bytes)
number_fraction [] = some ([], [])
number_fraction (ch ∷ p) =
    if ch == b'.' then if starts_digit p then some (digits p) else none else some ([], ch ∷ p)

-- The exponent stops growing at 400.
unfoldable pub exp_digit : ℕ → ℕ → ℕ
exp_digit exp d = if ltb exp 400 then min (exp * 10 + d) 400 else exp

unfoldable pub exp_of : ℕ → List ℕ → ℕ
exp_of exp [] = exp
exp_of exp (d ∷ ds) = exp_of (exp_digit exp d) ds

unfoldable pub exponent_sign : Bytes → Bool × Bytes
exponent_sign [] = (false, [])
exponent_sign (ch ∷ p) =
    if ch == b'+' then (false, p) else if ch == b'-' then (true, p) else (false, ch ∷ p)

unfoldable pub exponent_digits : Bool × Bytes → Option (Bool × ℕ × Bytes)
exponent_digits (negative, p) =
    if starts_digit p then some (negative, exp_of 0 (digits p).0, (digits p).1) else none

unfoldable pub number_exponent : Bytes → Option (Bool × ℕ × Bytes)
number_exponent [] = some (false, 0, [])
number_exponent (ch ∷ p) =
    if ch == b'e' || ch == b'E' then exponent_digits (exponent_sign p) else some (false, 0, ch ∷ p)

unfoldable pub number_sign : Bytes → Bool × Bytes
number_sign [] = (false, [])
number_sign (ch ∷ p) = if ch == b'-' then (true, p) else (false, ch ∷ p)

unfoldable pub parse_number : Bytes → Option (Json × Bytes)
parse_number c = do
  (whole, p) ← number_whole (number_sign c).1
  (fraction, p') ← number_fraction p
  (exp_negative, exp, p'') ← number_exponent p'
  some (
    num (record {
      negative = (number_sign c).0;
      whole = whole;
      fraction = fraction;
      exp_negative = exp_negative;
      exp = exp;
    }),
    p'',
  )

-- The bytes behind a word, if the cursor stands at it.
unfoldable pub behind : Bytes → Bytes → Option Bytes
behind [] c = some c
behind (w ∷ word) [] = none
behind (w ∷ word) (ch ∷ c) = let rest = behind word c in if w == ch then rest else none

unfoldable pub parse_literal : Bytes → Option (Json × Bytes)
unfolding behind
parse_literal c = elim (behind (codes "true") c) [
  | some rest ↦ some (boolean true, rest)
  | none ↦ elim (behind (codes "false") c) [
    | some rest ↦ some (boolean false, rest)
    | none ↦ elim (behind (codes "null") c) [ some rest ↦ some (null, rest) | none ↦ none ]
  ]
]

unfoldable pub parse_string : Bytes → Option (Json × Bytes)
parse_string c = do (s, rest) ← parse_string_raw c; some (str s, rest)

-- Behind an item: a comma and more of them, or the closing bracket.
unfoldable pub array_next : (Bytes → Option (Items × Bytes)) → Json → Bytes → Option (Items × Bytes)
array_next more item [] = none
array_next more item (ch ∷ c) =
    if ch == b','
    then elim (more c) [ none ↦ none | some (items, rest) ↦ some (cons item items, rest) ]
    else if ch == b']'
    then some (cons item nil, c)
    else none

-- The `for (;;)` of `parse_array`, with `value` for `parse_value` one level down.
unfoldable pub array_loop : (Bytes → Option (Json × Bytes)) → ℕ → Bytes → Option (Items × Bytes)
array_loop value zero c = none
array_loop value (suc fuel) c = elim (value (skip_ws c)) [
  | none ↦ none
  | some (item, c') ↦ array_next (array_loop value fuel) item (skip_ws c')
]

-- Behind the opening bracket. A round takes two bytes at least, so the bytes left bound the rounds.
unfoldable pub parse_array : (Bytes → Option (Json × Bytes)) → Bytes → Option (Json × Bytes)
parse_array value c = elim (behind (codes "]") (skip_ws c)) [
  | some rest ↦ some (arr nil, rest)
  | none ↦ elim (array_loop value (suc (length c)) (skip_ws c)) [
    | none ↦ none
    | some (items, rest) ↦ some (arr items, rest)
  ]
]

unfoldable pub object_next :
    (Bytes → Option (Fields × Bytes)) → Bytes → Json → Bytes → Option (Fields × Bytes)
object_next more key val [] = none
object_next more key val (ch ∷ c) =
    if ch == b','
    then elim (more c) [ none ↦ none | some (fields, rest) ↦ some (field key val fields, rest) ]
    else if ch == b'}'
    then some (field key val end, c)
    else none

-- The `for (;;)` of `parse_object`.
unfoldable pub object_loop : (Bytes → Option (Json × Bytes)) → ℕ → Bytes → Option (Fields × Bytes)
object_loop value zero c = none
object_loop value (suc fuel) c = elim (parse_string_raw (skip_ws c)) [
  | none ↦ none
  | some (key, c1) ↦ elim (behind (codes ":") (skip_ws c1)) [
    | none ↦ none
    | some c2 ↦ elim (value (skip_ws c2)) [
      | none ↦ none
      | some (val, c3) ↦ object_next (object_loop value fuel) key val (skip_ws c3)
    ]
  ]
]

unfoldable pub parse_object : (Bytes → Option (Json × Bytes)) → Bytes → Option (Json × Bytes)
parse_object value c = elim (behind (codes "}") (skip_ws c)) [
  | some rest ↦ some (obj end, rest)
  | none ↦ elim (object_loop value (suc (length c)) (skip_ws c)) [
    | none ↦ none
    | some (fields, rest) ↦ some (obj fields, rest)
  ]
]

-- The `switch` of `parse_value`.
unfoldable pub dispatch : (Bytes → Option (Json × Bytes)) → Bytes → Option (Json × Bytes)
dispatch value [] = none
dispatch value (ch ∷ c) =
    if ch == b'{'
    then parse_object value c
    else if ch == b'['
    then parse_array value c
    else if ch == b'"'
    then parse_string (ch ∷ c)
    else if ch == b't' || ch == b'f' || ch == b'n'
    then parse_literal (ch ∷ c)
    else if ch == b'-' || is_digit ch
    then parse_number (ch ∷ c)
    else none

-- `levels` counts down what the source counts up: it is PH_JV_MAX_DEPTH + 1 - depth, so no level is
-- left exactly where the source finds `depth > PH_JV_MAX_DEPTH`.
unfoldable pub parse_value : ℕ → Bytes → Option (Json × Bytes)
parse_value zero c = none
parse_value (suc levels) c = dispatch (parse_value levels) (skip_ws c)

abbrev pub max_depth : ℕ
max_depth = 128

-- Nothing but white space may follow the value.
unfoldable pub at_end : Json → Bytes → Option Json
at_end v [] = some v
at_end v (_ ∷ _) = none

unfoldable pub parse : Option Bytes → Option Json
parse none = none
parse (some s) = elim (parse_value (suc max_depth) s) [
  | none ↦ none
  | some (v, rest) ↦ at_end v (skip_ws rest)
]

-- The arithmetic of `double`, which the C implementation gives.
pub record Float : Type 1 where
  pub Real : Type 0
  pub of_digit : ℕ → Real
  pub ten : Real
  pub tenth : Real
  pub add : Real → Real → Real
  pub mul : Real → Real → Real
  pub div : Real → Real → Real
  pub negate : Real → Real

-- The double that `parse_number` folds the digits into.
module _ (f : Float) where
  open f use {Real, of_digit, ten, tenth, add, mul, div, negate}

  unfoldable pub whole_value : Real → List ℕ → Real
  whole_value value [] = value
  whole_value value (d ∷ ds) = whole_value (add (mul value ten) (of_digit d)) ds

  unfoldable pub fraction_value : Real → Real → List ℕ → Real
  fraction_value factor value [] = value
  fraction_value factor value (d ∷ ds) =
      fraction_value (mul factor tenth) (add value (mul (of_digit d) factor)) ds

  unfoldable pub scale : Bool → ℕ → Real → Real
  scale negative zero value = value
  scale negative (suc exp) value =
      scale negative exp (if negative then div value ten else mul value ten)

  unfoldable pub number_value : Number → Real
  number_value n =
      let whole = whole_value (of_digit 0) n.whole in
      let value = scale n.exp_negative n.exp (fraction_value tenth whole n.fraction) in
      if n.negative then negate value else value

-- The accessors; `none` is NULL.
unfoldable pub get_bool : Option Json → Bool
get_bool (some (boolean b)) = b
get_bool _ = false

unfoldable pub get_str : Option Json → Option Bytes
get_str (some (str s)) = some s
get_str _ = none

unfoldable pub lookup : Fields → Bytes → Option Json
lookup end key = none
lookup (field k v fields) key =
    let rest = lookup fields key in if bytes_eq k key then some v else rest

unfoldable pub get : Option Json → Option Bytes → Option Json
get (some (obj fields)) (some key) = lookup fields key
get _ _ = none

unfoldable pub count_items : Items → ℕ
count_items nil = 0
count_items (cons x xs) = suc (count_items xs)

unfoldable pub count_fields : Fields → ℕ
count_fields end = 0
count_fields (field k v fields) = suc (count_fields fields)

unfoldable pub len : Option Json → ℕ
len (some (arr items)) = count_items items
len (some (obj fields)) = count_fields fields
len _ = 0

unfoldable pub item_at : Items → ℕ → Option Json
item_at nil i = none
item_at (cons x xs) zero = some x
item_at (cons x xs) (suc i) = item_at xs i

unfoldable pub field_at : Fields → ℕ → Option (Bytes × Json)
field_at end i = none
field_at (field k v fields) zero = some (k, v)
field_at (field k v fields) (suc i) = field_at fields i

unfoldable pub at : Option Json → ℤ → Option Json
at (some (arr items)) (pos i) = item_at items i
at _ _ = none

unfoldable pub key_at : Option Json → ℤ → Option Bytes
key_at (some (obj fields)) (pos i) = elim (field_at fields i) [ none ↦ none | some (k, v) ↦ some k ]
key_at _ _ = none

unfoldable pub val_at : Option Json → ℤ → Option Json
val_at (some (obj fields)) (pos i) = elim (field_at fields i) [ none ↦ none | some (k, v) ↦ some v ]
val_at _ _ = none
