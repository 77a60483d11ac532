-- ===== src/Props/Util.antt =====
-- The shared helpers of src/ph_util.c on property sets.
pub mod Laws
pub mod Merge
pub mod Valid
use posthog_c.Base.{
  ℕ, ◌-◌, Bool, true, false, not, ◌&&◌, Option, none, some, List, [], ◌∷◌, ◌++◌, ltb, if◌then◌else◌,
  length, take, Bytes, bytes_eq,
}
use posthog_c.Props.{
  Value, Property, Props, str, double, int, boolean, other, empty_props, max_props, Status, set_str,
  set_double, set_int, set_bool,
}

-- The set that a setter leaves; its status is ignored.
abbrev pub updated : Props → Option Props × Status → Props
updated p (none, status) = p
updated p (some q, status) = q

unfoldable pub copy_prop_value : Props → Property → Props
copy_prop_value dst src = elim src.value [
  | str s ↦ updated dst (set_str (some dst) (some src.key) (some s))
  | double d ↦ updated dst (set_double (some dst) (some src.key) d)
  | int i ↦ updated dst (set_int (some dst) (some src.key) i)
  | boolean b ↦ updated dst (set_bool (some dst) (some src.key) b)
  | other t ↦ dst
]

-- `props_has_key` on the items that it looks at.
unfoldable pub has_key : List Property → Bytes → Bool
has_key [] key = false
has_key (it ∷ its) key = let rest = has_key its key in if bytes_eq it.key key then true else rest

-- The items of a set that may be NULL, 24 at most.
abbrev pub items_of : Option Props → List Property
items_of none = []
items_of (some p) = take max_props p.items

unfoldable pub copy_explicit : Props → List Property → Props
copy_explicit out [] = out
copy_explicit out (it ∷ its) = copy_explicit (copy_prop_value out it) its

-- The second loop stops at a full set; `explicit` shadows an item of the same key.
unfoldable pub copy_super : List Property → Props → List Property → Props
copy_super explicit out [] = out
copy_super explicit out (it ∷ its) =
    if ltb (length out.items) max_props
    then copy_super explicit (if has_key explicit it.key then out else copy_prop_value out it) its
    else out

unfoldable pub props_merge : Option Props → Option Props → Props
props_merge explicit super =
    copy_super (items_of explicit) (copy_explicit empty_props (items_of explicit)) (items_of super)

-- Every item of the key goes, and the later ones move down.
unfoldable pub remove_key : List Property → Bytes → List Property
remove_key [] key = []
remove_key (it ∷ its) key =
    let rest = remove_key its key in if bytes_eq it.key key then rest else it ∷ rest

unfoldable pub props_remove_key : Option Props → Option Bytes → Option Props
props_remove_key none key = none
props_remove_key (some p) none = some p
props_remove_key (some p) (some key) = some (record p { items = remove_key p.items key })

abbrev str_of : Value → Option Bytes
str_of (str s) = some s
str_of _ = none

-- The loop runs from the last item down, so a later item is asked first.
unfoldable pub find_last_in : List Property → Bytes → Option Bytes
find_last_in [] key = none
find_last_in (it ∷ its) key = elim (find_last_in its key) [
  | some s ↦ some s
  | none ↦ if bytes_eq it.key key then str_of it.value else none
]

unfoldable pub find_last_str : Option Props → Option Bytes → Option Bytes
find_last_str none key = none
find_last_str (some p) none = none
find_last_str (some p) (some key) = find_last_in p.items key

unfoldable pub denylist_has : List Bytes → Option Bytes → Bool
denylist_has list none = false
denylist_has [] (some key) = false
denylist_has (d ∷ list) (some key) =
    let rest = denylist_has list (some key) in if bytes_eq d key then true else rest

unfoldable pub apply_denylist : Props → List Bytes → Props
apply_denylist p [] = p
apply_denylist p (d ∷ list) = apply_denylist (record p { items = remove_key p.items d }) list
