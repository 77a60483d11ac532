-- ===== src/Props/Util/Valid.antt =====
-- The helpers of src/ph_util.c keep property sets within their arrays.
use posthog_c.Base.{
  ℕ, zero, suc, ◌≤◌, Option, none, some, List, [], ◌∷◌, ltb, length, take, Bytes, arith, Bool-cases,
  inl, inr, All,
}
use posthog_c.Props.{
  Value, Property, Props, str, double, int, boolean, other, empty_props, max_props, ItemFits,
  IsValid, Status,
}
use posthog_c.Props.Laws.{AllValid, call, call_str, call_double, call_int, call_bool, call-IsValid}
use posthog_c.Props.Util.{
  updated, copy_prop_value, has_key, copy_explicit, copy_super, props_merge, items_of, remove_key,
  apply_denylist,
}

updated-IsValid :
    (p : Props) (r : Option Props × Status) → IsValid p → AllValid r.0 → IsValid (updated p r)
updated-IsValid p (none, status) v h = v
updated-IsValid p (some q, status) v h = h

copy_value-IsValid :
    (dst : Props) (k : Bytes) (v : Value)
    → IsValid dst
    → ItemFits (record { key = k; value = v })
    → IsValid (copy_prop_value dst (record { key = k; value = v }))
unfolding copy_prop_value call
copy_value-IsValid dst k (str s) h (hk, lk, (hs, ls)) =
    updated-IsValid dst _ h (call-IsValid (call_str (some k) (some s)) (some dst) h (hk, hs))
copy_value-IsValid dst k (double d) h (hk, lk, hv) =
    updated-IsValid dst _ h (call-IsValid (call_double (some k) d) (some dst) h (hk, hv))
copy_value-IsValid dst k (int i) h (hk, lk, hv) =
    updated-IsValid dst _ h (call-IsValid (call_int (some k) i) (some dst) h (hk, hv))
copy_value-IsValid dst k (boolean b) h (hk, lk, hv) =
    updated-IsValid dst _ h (call-IsValid (call_bool (some k) b) (some dst) h hk)
copy_value-IsValid dst k (other t) h (hk, lk, hv) = h

copy_prop_value-IsValid :
    (dst : Props) (it : Property) → IsValid dst → ItemFits it → IsValid (copy_prop_value dst it)
copy_prop_value-IsValid dst it h fits = copy_value-IsValid dst it.key it.value h fits

pub copy_explicit-IsValid :
    (its : List Property) (out : Props)
    → IsValid out
    → All ItemFits its
    → IsValid (copy_explicit out its)
unfolding copy_explicit
copy_explicit-IsValid [] out h fits = h
copy_explicit-IsValid (it ∷ its) out h (f, fs) =
    copy_explicit-IsValid its (copy_prop_value out it) (copy_prop_value-IsValid out it h f) fs

copy_super-IsValid :
    (explicit its : List Property) (out : Props)
    → IsValid out
    → All ItemFits its
    → IsValid (copy_super explicit out its)
unfolding copy_super
copy_super-IsValid explicit [] out h fits = h
copy_super-IsValid explicit (it ∷ its) out h (f, fs) =
    elim (Bool-cases (ltb (length out.items) max_props)) [
      | inr stop ↦ rw stop h
      | inl go ↦ elim (Bool-cases (has_key explicit it.key)) [
        | inl shadowed ↦ rw (go, shadowed) (copy_super-IsValid explicit its out h fs)
        | inr fresh ↦
            rw (go, fresh)
              (copy_super-IsValid explicit its (copy_prop_value out it)
                (copy_prop_value-IsValid out it h f) fs)
      ]
    ]

All-take : (n : ℕ) (its : List Property) → All ItemFits its → All ItemFits (take n its)
All-take zero its h = tt
All-take (suc n) [] h = tt
All-take (suc n) (it ∷ its) (h, hs) = (h, All-take n its hs)

items_of-fit : (p : Option Props) → AllValid p → All ItemFits (items_of p)
items_of-fit none h = tt
items_of-fit (some p) h = All-take max_props p.items h.fit

pub empty_props-IsValid : IsValid empty_props
unfolding empty_props
empty_props-IsValid = record { few = omega arith; fit = tt }

pub props_merge-IsValid : (p q : Option Props) → AllValid p → AllValid q → IsValid (props_merge p q)
unfolding props_merge
props_merge-IsValid p q hp hq =
    copy_super-IsValid (items_of p) (items_of q) _
      (copy_explicit-IsValid (items_of p) empty_props empty_props-IsValid (items_of-fit p hp))
      (items_of-fit q hq)

removed :
    (its : List Property) (key : Bytes)
    → All ItemFits its
    → All ItemFits (remove_key its key) × (length (remove_key its key) ≤ length its)
unfolding remove_key
removed [] key h = (tt, omega arith)
removed (it ∷ its) key (h, hs) = ground (arith, removed its key hs)

pub apply_denylist-IsValid :
    (list : List Bytes) (p : Props) → IsValid p → IsValid (apply_denylist p list)
unfolding apply_denylist
apply_denylist-IsValid [] p h = h
apply_denylist-IsValid (d ∷ list) p h =
    let r = removed p.items d h.fit in
    apply_denylist-IsValid list (record p { items = remove_key p.items d })
      (record { few = omega (arith, r.1, h.few); fit = r.0 })
