-- ===== src/Props/Pack.antt =====
-- pack_one, ph_pack_str_entry and ph_pack_props of src/ph_props.c: what each writes at `buf`.
use posthog_c.Base.{
  ℕ, ◌+◌, ◌-◌, ◌/◌, ◌%◌, Bool, true, false, ◌||◌, Option, none, some, List, [], ◌∷◌, ◌++◌, ltb,
  if◌then◌else◌, length, Bytes, to_bytes,
}
use posthog_c.Props.{Property, Props, str, double, int, boolean, other, or_empty}

-- The codes of `ph_prop_type`.
abbrev pub type_str : ℕ
type_str = 0

abbrev pub type_double : ℕ
type_double = 1

abbrev pub type_int : ℕ
type_int = 2

abbrev pub type_bool : ℕ
type_bool = 3

-- `PH_PK_GROUP` of src/ph_internal.h.
abbrev pub type_group : ℕ
type_group = 4

-- An entry that does not fit in `cap` bytes is not written at all.
unfoldable pub pack_one : ℕ → ℕ → Bytes → Bytes → Bytes
pack_one cap type key val =
    let klen = length key in
    let vlen = length val in
    if ltb 255 klen || ltb 0xFFFF vlen || ltb cap (4 + klen + vlen)
    then []
    else (type % 256) ∷ klen ∷ (vlen % 256) ∷ (vlen / 256 % 256) ∷ (key ++ val)

-- `none` is a NULL pointer.
unfoldable pub pack_str_entry : ℕ → ℕ → Option Bytes → Option Bytes → Bytes
pack_str_entry cap type none val = []
pack_str_entry cap type (some key) val = pack_one cap type key (or_empty val)

abbrev pub bool_byte : Bool → ℕ
bool_byte true = 1
bool_byte false = 0

-- The entry of one item: the body of the loop of `ph_pack_props`.
unfoldable pub pack_item : ℕ → Property → Bytes
pack_item cap it = elim it.value [
  | str s ↦ pack_one cap type_str it.key s
  | double d ↦ pack_one cap type_double it.key (to_bytes 8 d)
  | int i ↦ pack_one cap type_int it.key (to_bytes 8 i)
  | boolean b ↦ pack_one cap type_bool it.key (bool_byte b ∷ [])
  | other t ↦ []
]

unfoldable pub pack_items : ℕ → List Property → Bytes
pack_items cap [] = []
pack_items cap (it ∷ its) = let e = pack_item cap it in e ++ pack_items (cap - length e) its

unfoldable pub pack_props : ℕ → Option Props → Bytes
pack_props cap none = []
pack_props cap (some p) = pack_items cap p.items
