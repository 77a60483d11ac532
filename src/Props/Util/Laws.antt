-- ===== src/Props/Util/Laws.antt =====
-- What the privacy denylist, the merge and the lookup of src/ph_util.c guarantee.
use posthog_c.Base.{
  ℕ, ◌<◌, ◌≡◌, refl, sym, ap, ap₂, ◌∙◌, false, not, ◌&&◌, some, List, [], ◌∷◌, ◌++◌, leb,
  if◌then◌else◌, length, Bytes, bytes_eq, bytes_eq_iff, filter_by, filter_by-filter_by,
  filter_by_ext, filter_by-true, arith, take_all,
}
use posthog_c.Props.{Property, Props, str, max_props, key_cap, val_cap, set_str}
use posthog_c.Props.Laws.{set_str_status}
use posthog_c.Props.Util.{remove_key, find_last_in, find_last_str, denylist_has, apply_denylist}

lt→leb_false : (a b : ℕ) → a < b → leb b a ≡ false
lt→leb_false a b h = ground arith

remove_key_lem :
    (its : List Property) (key : Bytes)
    → remove_key its key ≡ filter_by (λ it. not (bytes_eq it.key key)) its
unfolding remove_key
remove_key_lem [] key = refl
remove_key_lem (it ∷ its) key = ground (arith, remove_key_lem its key)

bytes_eq_comm : (a b : Bytes) → bytes_eq a b ≡ bytes_eq b a
bytes_eq_comm a b = ground (arith, bytes_eq_iff a b, bytes_eq_iff b a)

allowed_cons :
    (d : Bytes) (list : List Bytes) (key : Bytes)
    → not (bytes_eq key d) && not (denylist_has list (some key))
      ≡ not (denylist_has (d ∷ list) (some key))
unfolding denylist_has
allowed_cons d list key = ground (arith, bytes_eq_comm key d)

-- The denylist removes exactly the items whose key it lists: all of those, no other, and the rest
-- stays in its order.
pub apply_denylist_lem :
    (list : List Bytes) (p : Props)
    → (apply_denylist p list).items
      ≡ filter_by (λ it. not (denylist_has list (some it.key))) p.items
unfolding apply_denylist
apply_denylist_lem [] p = sym (unfold denylist_has in filter_by-true p.items)
apply_denylist_lem (d ∷ list) p =
    apply_denylist_lem list (record p { items = remove_key p.items d })
    ∙ ap (filter_by (λ it. not (denylist_has list (some it.key)))) (remove_key_lem p.items d)
    ∙ filter_by-filter_by (λ it. not (denylist_has list (some it.key)))
        (λ it. not (bytes_eq it.key d)) p.items
    ∙ filter_by_ext (λ it. not (bytes_eq it.key d) && not (denylist_has list (some it.key)))
        (λ it. not (denylist_has (d ∷ list) (some it.key))) p.items
        (λ it. allowed_cons d list it.key)

find_last_snoc :
    (its : List Property) (k s key : Bytes)
    → find_last_in (its ++ (record { key = k; value = str s } ∷ [])) key
      ≡ (if bytes_eq k key then some s else find_last_in its key)
unfolding find_last_in
find_last_snoc [] k s key = ground arith
find_last_snoc (it ∷ its) k s key = ground (arith, find_last_snoc its k s key)

-- A stored string is the one that ph_props_find_last_str finds afterwards, also where an older item
-- has the same key; what it finds under any other key stays.
pub find_last-set_str :
    (p : Props) (b : ℕ) (bs val key : Bytes)
    → length p.items < max_props
    → length (b ∷ bs) < key_cap
    → length val < val_cap
    → find_last_str (set_str (some p) (some (b ∷ bs)) (some val)).0 (some key)
      ≡ (if bytes_eq (b ∷ bs) key then some val else find_last_str (some p) (some key))
unfolding find_last_str
find_last-set_str p b bs val key room hk hv =
    rw (set_str_status p b bs val, lt→leb_false (length p.items) max_props room)
      (ap (λ its. find_last_in its key)
          (ap₂ (λ x y. p.items ++ (record { key = x; value = str y } ∷ []))
            (take_all 47 (b ∷ bs) (omega arith)) (take_all 191 val (omega arith)))
        ∙ find_last_snoc p.items (b ∷ bs) val key)
