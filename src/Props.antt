-- ===== src/Props.antt =====
-- The property set of include/posthog.h and the setters of src/ph_props.c. The items in use are a
-- list, so `count` is its length. A double or an int64_t is its 64-bit pattern.
pub mod Pack
pub mod Unpack
pub mod Util
pub mod Entry
pub mod RoundTrip
pub mod Laws
pub mod Safe
mod Tests
use posthog_c.Base.{
  ℕ, zero, suc, ◌+◌, ◌≤◌, ◌<◌, Bool, true, false, ◌||◌, Option, none, some, List, [], ◌∷◌, ◌++◌,
  ltb, leb, if◌then◌else◌, length, Bytes, IsChar, All,
}

abbrev pub max_props : ℕ
max_props = 24

abbrev pub key_cap : ℕ
key_cap = 48

abbrev pub val_cap : ℕ
val_cap = 192

-- `ph_prop_type` with the member of the union that it selects. A hook may leave any other code in
-- the `unsigned char`; such an item has no readable value.
pub data Value : Type 0 where
  str : Bytes → Value
  double : ℕ → Value
  int : ℕ → Value
  boolean : Bool → Value
  other : ℕ → Value

pub record Property : Type 0 where
  pub key : Bytes
  pub value : Value

pub record Props : Type 0 where
  pub items : List Property
  pub dropped : ℕ

-- The results of `ph_result` that a setter returns.
pub data Status : Type 0 where
  ok full bad_arg truncated : Status

-- `copy_capped` writes what fits before the NUL, and says whether it had to cut.
copy_loop : ℕ → Bytes → Bytes × Bool
copy_loop room [] = ([], false)
copy_loop zero (b ∷ bs) = ([], true)
copy_loop (suc room) (b ∷ bs) = let (rest, cut) = copy_loop room bs in (b ∷ rest, cut)

unfoldable pub copy_capped : ℕ → Bytes → Bytes × Bool
unfolding copy_loop
copy_capped zero src = ([], true)
copy_capped (suc room) src = copy_loop room src

unfoldable pub empty_props : Props
empty_props = record { items = []; dropped = 0 }

-- `none` is the NULL of a full set, which counts the item as dropped.
pub next_slot : Props → Option ℕ × Props
next_slot p =
    if leb max_props (length p.items)
    then (none, record p { dropped = p.dropped + 1 })
    else (some (length p.items), p)

-- A setter after its argument check: `cut` says that the value was truncated.
pub append_item : Props → Bytes → Value → Bool → Props × Status
unfolding next_slot
append_item p key value cut =
    let (slot, p') = next_slot p in
    let (k, key_cut) = copy_capped key_cap key in
    elim slot [
      | none ↦ (p', full)
      | some i ↦ (
        record p' { items = p'.items ++ (record { key = k; value = value } ∷ []) },
        if key_cut || cut then truncated else ok,
      )
    ]

-- The argument check that the setters share: `none` is a NULL pointer.
pub set_item : Option Props → Option Bytes → Value → Bool → Option Props × Status
set_item none key value cut = (none, bad_arg)
set_item (some p) none value cut = (some (record p { dropped = p.dropped + 1 }), bad_arg)
set_item (some p) (some []) value cut = (some (record p { dropped = p.dropped + 1 }), bad_arg)
set_item (some p) (some (b ∷ bs)) value cut =
    let (p', status) = append_item p (b ∷ bs) value cut in (some p', status)

abbrev pub or_empty : Option Bytes → Bytes
or_empty none = []
or_empty (some s) = s

unfoldable pub set_str : Option Props → Option Bytes → Option Bytes → Option Props × Status
unfolding set_item append_item
set_str p key val = let (v, cut) = copy_capped val_cap (or_empty val) in set_item p key (str v) cut

unfoldable pub set_double : Option Props → Option Bytes → ℕ → Option Props × Status
unfolding set_item append_item
set_double p key val = set_item p key (double val) false

unfoldable pub set_int : Option Props → Option Bytes → ℕ → Option Props × Status
unfolding set_item append_item
set_int p key val = set_item p key (int val) false

-- `val` is false for the C value 0 alone.
unfoldable pub set_bool : Option Props → Option Bytes → Bool → Option Props × Status
unfolding set_item append_item
set_bool p key val = set_item p key (boolean val) false

-- What the arrays of a `ph_prop` can hold.
abbrev pub ValueFits : Value → Type 0
ValueFits (str s) = All IsChar s × (length s < val_cap)
ValueFits (double d) = d < 18446744073709551616
ValueFits (int i) = i < 18446744073709551616
ValueFits (boolean b) = Unit
ValueFits (other t) = ⊥

abbrev pub ItemFits : Property → Type 0
ItemFits it = All IsChar it.key × (length it.key < key_cap) × ValueFits it.value

pub record IsValid (p : Props) : Type 0 where
  pub few : length p.items ≤ max_props
  pub fit : All ItemFits p.items
