-- ===== src/Props/Unpack.antt =====
-- ph_blob_next and ph_unpack_props of src/ph_props.c. A cursor is the list of bytes up to `end`.
use posthog_c.Base.{
  ℕ, zero, suc, ◌+◌, ◌-◌, ◌*◌, Bool, false, not, Option, none, some, List, [], ◌∷◌, ◌++◌, ltb, ◌==◌,
  if◌then◌else◌, length, take, drop, Bytes, of_bytes, c_string,
}
use posthog_c.Props.{
  Value, Property, Props, str, double, int, boolean, empty_props, max_props, key_cap, val_cap,
}
use posthog_c.Props.Pack.{type_group}

-- What `ph_blob_next` hands out of one entry.
pub record Entry : Type 0 where
  pub type : ℕ
  pub key : Bytes
  pub val : Bytes

-- The entry at the cursor and the cursor behind it; `none` is the return value 0.
unfoldable pub blob_next : Bytes → Option (Entry × Bytes)
blob_next (type ∷ kl ∷ v0 ∷ v1 ∷ rest) =
    let vl = v0 + 256 * v1 in
    if ltb (length rest) (kl + vl)
    then none
    else some (
      record { type = type; key = take kl rest; val = take vl (drop kl rest) },
      drop vl (drop kl rest),
    )
blob_next _ = none

abbrev pub nonzero_head : Bytes → Bool
nonzero_head [] = false
nonzero_head (b ∷ bs) = not (b == 0)

-- The value of an entry; `none` where the `switch` skips the entry.
unfoldable pub read_value : Entry → Option Value
read_value e =
    if e.type == 0
    then some (str (c_string (take (val_cap - 1) e.val)))
    else if e.type == 1
    then some (double (if length e.val == 8 then of_bytes e.val else 0))
    else if e.type == 2
    then some (int (if length e.val == 8 then of_bytes e.val else 0))
    else if e.type == 3
    then some (boolean (nonzero_head e.val))
    else none

-- The item that the loop commits for an entry, if it does.
unfoldable pub read_item : Entry → Option Property
read_item e = if e.type == type_group then none else elim (read_value e) [
  | none ↦ none
  | some v ↦ some (record { key = c_string (take (key_cap - 1) e.key); value = v })
]

abbrev pub add_item : List Property → Option Property → List Property
add_item acc none = acc
add_item acc (some it) = acc ++ (it ∷ [])

-- The `while` loop; each round takes four bytes at least, so `length blob` rounds are enough.
unfoldable pub unpack_loop : ℕ → Bytes → List Property → List Property
unpack_loop zero blob acc = acc
unpack_loop (suc fuel) blob acc =
    if ltb (length acc) max_props
    then elim (blob_next blob) [
      | none ↦ acc
      | some (e, rest) ↦ unpack_loop fuel rest (add_item acc (read_item e))
    ]
    else acc

unfoldable pub unpack_props : Bytes → Props
unpack_props blob = record empty_props { items = unpack_loop (length blob) blob [] }
