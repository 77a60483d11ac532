-- ===== src/Props/Util/Merge.antt =====
-- ph_props_merge: explicit properties first, then the super properties that they do not shadow.
use posthog_c.Base.{
  ℕ, zero, suc, ◌+◌, ◌-◌, ◌≤◌, ◌<◌, ◌≡◌, refl, sym, ap, ◌∙◌, Bool, false, not, some, List, [], ◌∷◌,
  ◌++◌, ltb, length, take, Bytes, filter_by, arith, Bool-cases, inl, inr, ltb→lt, append_assoc,
  append-nil, length-append, take_all, All,
}
use posthog_c.Props.{
  Value, Property, Props, str, double, int, boolean, other, empty_props, max_props, key_cap,
  val_cap, ItemFits, IsValid, append_item, copy_capped, set_item, set_str, set_double, set_int,
  set_bool,
}
use posthog_c.Props.Laws.{append_item_lem, copy_capped_lem}
use posthog_c.Props.Util.{copy_prop_value, has_key, copy_explicit, copy_super, props_merge}

-- An item as the setters leave it: within its arrays, under a key that is not empty.
abbrev pub Named : Property → Type 0
Named it = ItemFits it × (0 < length it.key)

copied : (cap : ℕ) (s : Bytes) → length s < cap → (copy_capped cap s).0 ≡ s
copied cap s h =
    ap (λ r. r.0) (copy_capped_lem cap s (omega arith)) ∙ take_all (cap - 1) s (omega arith)

appended :
    (dst : Props) (k : Bytes) (v : Value) (cut : Bool)
    → length k < key_cap
    → length dst.items < max_props
    → (append_item dst k v cut).0.items ≡ dst.items ++ (record { key = k; value = v } ∷ [])
appended dst k v cut hk room = rw (append_item_lem dst k v cut, copied key_cap k hk) (ground arith)

copies_value :
    (dst : Props) (b : ℕ) (bs : Bytes) (v : Value)
    → ItemFits (record { key = b ∷ bs; value = v })
    → length dst.items < max_props
    → (copy_prop_value dst (record { key = b ∷ bs; value = v })).items
      ≡ dst.items ++ (record { key = b ∷ bs; value = v } ∷ [])
unfolding copy_prop_value set_str set_double set_int set_bool set_item
copies_value dst b bs (str s) (hk, lk, (hs, ls)) room =
    appended dst (b ∷ bs) (str (copy_capped val_cap s).0) (copy_capped val_cap s).1 lk room
    ∙ ap (λ t. dst.items ++ (record { key = b ∷ bs; value = str t } ∷ [])) (copied val_cap s ls)
copies_value dst b bs (double d) (hk, lk, h) room = appended dst (b ∷ bs) (double d) false lk room
copies_value dst b bs (int i) (hk, lk, h) room = appended dst (b ∷ bs) (int i) false lk room
copies_value dst b bs (boolean t) (hk, lk, h) room = appended dst (b ∷ bs) (boolean t) false lk room
copies_value dst b bs (other t) (hk, lk, h) room = elim h [ ]

copies :
    (dst : Props) (it : Property)
    → Named it
    → length dst.items < max_props
    → (copy_prop_value dst it).items ≡ dst.items ++ (it ∷ [])
copies dst it (fits, named) room = key_cases it.key it.value fits named
  where
    key_cases :
        (k : Bytes) (v : Value)
        → ItemFits (record { key = k; value = v })
        → 0 < length k
        → (copy_prop_value dst (record { key = k; value = v })).items
          ≡ dst.items ++ (record { key = k; value = v } ∷ [])
    key_cases [] v h n = absurd (omega arith)
    key_cases (b ∷ bs) v h n = copies_value dst b bs v h room

copy_explicit_lem :
    (its : List Property) (out : Props)
    → All Named its
    → length out.items + length its ≤ max_props
    → (copy_explicit out its).items ≡ out.items ++ its
unfolding copy_explicit
copy_explicit_lem [] out h few = sym (append-nil out.items)
copy_explicit_lem (it ∷ its) out (h, hs) few =
    copy_explicit_lem its (copy_prop_value out it) hs
      (omega (arith, ap length one, length-append out.items (it ∷ [])))
    ∙ ap (λ t. t ++ its) one
    ∙ append_assoc out.items (it ∷ []) its
  where
    one : (copy_prop_value out it).items ≡ out.items ++ (it ∷ [])
    one = copies out it h (omega arith)

take_full {ℓ} : {A : Type ℓ} (xs ys : List A) (n : ℕ) → length xs ≡ n → take n (xs ++ ys) ≡ xs
take_full [] ys zero h = refl
take_full [] ys (suc n) h = absurd (omega arith)
take_full (x ∷ xs) ys zero h = absurd (omega arith)
take_full (x ∷ xs) ys (suc n) h = ap (λ t. x ∷ t) (take_full xs ys n (omega arith))

ltb-false : (a b : ℕ) → ltb a b ≡ false → b ≤ a
ltb-false a b h = ground arith

copy_super_lem :
    (explicit its : List Property) (out : Props)
    → All Named its
    → length out.items ≤ max_props
    → (copy_super explicit out its).items
      ≡ take max_props (out.items ++ filter_by (λ it. not (has_key explicit it.key)) its)
unfolding copy_super
copy_super_lem explicit [] out h few =
    sym (ap (take max_props) (append-nil out.items) ∙ take_all max_props out.items few)
copy_super_lem explicit (it ∷ its) out (h, hs) few =
    elim (Bool-cases (ltb (length out.items) max_props)) [
      | inr stop ↦
          rw stop (sym (take_full out.items _ max_props (omega (arith, ltb-false _ _ stop))))
      | inl go ↦ elim (Bool-cases (has_key explicit it.key)) [
        | inl shadowed ↦ rw (go, shadowed) (copy_super_lem explicit its out hs few)
        | inr fresh ↦
            let one = copies out it h (ltb→lt _ _ go) in
            rw (go, fresh)
              (copy_super_lem explicit its (copy_prop_value out it) hs
                  (omega (arith, ap length one, length-append out.items (it ∷ []), ltb→lt _ _ go))
                ∙ ap (λ t. take max_props (t ++ filter_by (λ x. not (has_key explicit x.key)) its))
                    one
                ∙ ap (take max_props) (append_assoc out.items (it ∷ []) _))
      ]
    ]

-- The merge holds every explicit item in order, then every super item whose key no explicit item
-- has, in order, cut at the 24 items of a set.
pub props_merge_lem :
    (explicit super : Props)
    → IsValid explicit
    → IsValid super
    → All Named explicit.items
    → All Named super.items
    → (props_merge (some explicit) (some super)).items
      ≡ take max_props
          (explicit.items ++ filter_by (λ it. not (has_key explicit.items it.key)) super.items)
unfolding props_merge empty_props
props_merge_lem e s ve vs he hs =
    rw (take_all max_props e.items ve.few, take_all max_props s.items vs.few)
      (copy_super_lem e.items s.items (copy_explicit empty_props e.items) hs
          (omega (arith, ap length first))
        ∙ ap (λ t. take max_props (t ++ filter_by (λ it. not (has_key e.items it.key)) s.items))
            first)
  where
    first : (copy_explicit empty_props e.items).items ≡ e.items
    first = copy_explicit_lem e.items empty_props he (omega (arith, ve.few))
