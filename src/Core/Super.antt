-- ===== src/Core/Super.antt =====
-- The super properties of src/ph_core.c: ph_register and ph_unregister.
use posthog_c.Base.{
  suc, ◌≤◌, ◌≡◌, refl, ap, ◌∙◌, true, false, Option, none, some, List, [], ◌∷◌, ◌++◌, ◌||◌, ltb,
  length, Bytes, bytes_eq, bytes_eq_iff, arith, Bool-cases, Option-cases, inl, inr, All,
  if◌then◌else◌, length-append, ltb→lt, subst,
}
use posthog_c.Props.{Property, max_props, ItemFits}
use posthog_c.Props.Laws.{All-snoc}
use posthog_c.Props.Util.{has_key}
use posthog_c.Core.Api.{replace_item, register_item, register_items, remove_first}

-- No key stands twice.
abbrev pub UniqueKeys : List Property → Type 0
UniqueKeys [] = Unit
UniqueKeys (it ∷ its) = (has_key its it.key ≡ false) × UniqueKeys its

-- What the list of super properties keeps.
pub record Super (its : List Property) : Type 0 where
  pub few : length its ≤ max_props
  pub fit : All ItemFits its
  pub unique : UniqueKeys its

-- Where an item is replaced, it has the key of the old one, and nothing else moves.
record Replaced (src : Property) (its its' : List Property) : Type 0 where
  same_length : length its' ≡ length its
  same_keys : (k : Bytes) → has_key its' k ≡ has_key its k
  still_fit : All ItemFits its → All ItemFits its'
  still_unique : UniqueKeys its → UniqueKeys its'

replace_here :
    (src it : Property) (its : List Property)
    → bytes_eq it.key src.key ≡ true
    → ItemFits src
    → Replaced src (it ∷ its) (src ∷ its)
unfolding has_key
replace_here src it its e fits =
    let same : it.key ≡ src.key = (bytes_eq_iff it.key src.key).0 e in
    record {
      same_length = refl;
      same_keys = λ k. rw same refl;
      still_fit = λ h. (fits, h.1);
      still_unique = λ u. (subst (λ k. has_key its k ≡ false) same u.0, u.1);
    }

replace_behind :
    (src it : Property) (its its' : List Property)
    → Replaced src its its'
    → Replaced src (it ∷ its) (it ∷ its')
unfolding has_key
replace_behind src it its its' r = record {
  same_length = ap suc r.same_length;
  same_keys = λ k. rw (r.same_keys k) refl;
  still_fit = λ h. (h.0, r.still_fit h.1);
  still_unique = λ u. (r.same_keys it.key ∙ u.0, r.still_unique u.1);
}

replace_item_lem :
    (src : Property) (its its' : List Property)
    → ItemFits src
    → replace_item src its ≡ some its'
    → Replaced src its its'
unfolding replace_item
replace_item_lem src [] its' fits h = absurd (none_some its' h)
  where
    none_some : (x : List Property) → none ≡ some x → ⊥
    none_some x e = cc
replace_item_lem src (it ∷ its) its' fits h = elim (Bool-cases (bytes_eq it.key src.key)) [
  | inl e ↦ subst (Replaced src (it ∷ its)) (some-inj (rw e at h)) (replace_here src it its e fits)
  | inr ne ↦ elim (Option-cases (replace_item src its)) [
    | inl n ↦ absurd (none_some (rw (ne, n) at h))
    | inr (r, e) ↦
        subst (Replaced src (it ∷ its)) (some-inj (rw (ne, e) at h))
          (replace_behind src it its r (replace_item_lem src its r fits e))
  ]
]
  where
    none_some : none ≡ some its' → ⊥
    none_some e = cc

    some-inj : {x : List Property} → some x ≡ some its' → x ≡ its'
    some-inj e = cc

replace_item-none :
    (src : Property) (its : List Property)
    → replace_item src its ≡ none
    → has_key its src.key ≡ false
unfolding replace_item has_key
replace_item-none src [] h = refl
replace_item-none src (it ∷ its) h = elim (Option-cases (replace_item src its)) [
  | inl n ↦ ground (arith, replace_item-none src its n)
  | inr (r, e) ↦ ground arith
]

has_key-snoc :
    (its : List Property) (it : Property) (k : Bytes)
    → has_key (its ++ (it ∷ [])) k ≡ (if has_key its k then true else bytes_eq it.key k)
unfolding has_key
has_key-snoc [] it k = ground arith
has_key-snoc (x ∷ its) it k = ground (arith, has_key-snoc its it k)

snoc-UniqueKeys :
    (its : List Property) (it : Property)
    → UniqueKeys its
    → has_key its it.key ≡ false
    → UniqueKeys (its ++ (it ∷ []))
unfolding has_key
snoc-UniqueKeys [] it u h = (refl, tt)
snoc-UniqueKeys (x ∷ its) it (f, u) h = (
  ground (arith, has_key-snoc its it x.key, bytes_eq_iff x.key it.key, bytes_eq_iff it.key x.key),
  snoc-UniqueKeys its it u (ground arith),
)

added_item :
    (src : Property) (its : List Property)
    → ItemFits src
    → Super its
    → has_key its src.key ≡ false
    → Super (if ltb (length its) max_props then its ++ (src ∷ []) else its)
added_item src its fits s n = elim (Bool-cases (ltb (length its) max_props)) [
  | inl room ↦ rw room (record {
    few = omega (arith, length-append its (src ∷ []), ltb→lt _ _ room);
    fit = All-snoc its src s.fit fits;
    unique = snoc-UniqueKeys its src s.unique n;
  })
  | inr no_room ↦ rw no_room s
]

register_item-Super :
    (src : Property) (its : List Property)
    → ItemFits src
    → Super its
    → Super (register_item src its)
unfolding register_item
register_item-Super src its fits s = elim (Option-cases (replace_item src its)) [
  | inr (its', e) ↦
      let r = replace_item_lem src its its' fits e in
      rw (e, register_item)
        (record {
          few = omega (arith, r.same_length, s.few);
          fit = r.still_fit s.fit;
          unique = r.still_unique s.unique;
        })
  | inl n ↦ rw (n, register_item) (added_item src its fits s (replace_item-none src its n))
]

pub register_items-Super :
    (srcs its : List Property) → All ItemFits srcs → Super its → Super (register_items srcs its)
unfolding register_items
register_items-Super [] its h s = s
register_items-Super (src ∷ srcs) its (h, hs) s =
    register_items-Super srcs (register_item src its) hs (register_item-Super src its h s)

replaced_had :
    (src : Property) (its its' : List Property)
    → replace_item src its ≡ some its'
    → has_key its src.key ≡ true
unfolding replace_item has_key
replaced_had src [] its' h = ground arith
replaced_had src (it ∷ its) its' h = elim (Option-cases (replace_item src its)) [
  | inl n ↦ ground arith
  | inr (r, e) ↦ ground (arith, replaced_had src its r e)
]

-- The item of a key: the abstract view of the super properties is this map.
unfoldable pub lookup : List Property → Bytes → Option Property
lookup [] key = none
lookup (it ∷ its) key = let rest = lookup its key in if bytes_eq it.key key then some it else rest

replaced_lookup :
    (src : Property) (its its' : List Property) (key : Bytes)
    → replace_item src its ≡ some its'
    → lookup its' key ≡ (if bytes_eq src.key key then some src else lookup its key)
unfolding replace_item lookup
replaced_lookup src [] its' key h = ground arith
replaced_lookup src (it ∷ its) its' key h = elim (Option-cases (replace_item src its)) [
  | inl n ↦ ground (arith, bytes_eq_iff it.key src.key)
  | inr (r, e) ↦ ground (
    arith,
    replaced_lookup src its r key e,
    bytes_eq_iff it.key src.key,
    bytes_eq_iff it.key key,
    bytes_eq_iff src.key key,
  )
]

snoc_lookup :
    (src : Property) (its : List Property) (key : Bytes)
    → has_key its src.key ≡ false
    → lookup (its ++ (src ∷ [])) key ≡ (if bytes_eq src.key key then some src else lookup its key)
unfolding has_key lookup
snoc_lookup src [] key h = ground arith
snoc_lookup src (it ∷ its) key h = ground (
  arith,
  snoc_lookup src its key,
  bytes_eq_iff it.key src.key,
  bytes_eq_iff it.key key,
  bytes_eq_iff src.key key,
)

-- A registered item is the one that its key finds, in place of an older one, and every other key finds
-- what it found; only a new key that meets 24 others is left out, and then nothing changes.
pub register_item_lem :
    (src : Property) (its : List Property) (key : Bytes)
    → lookup (register_item src its) key ≡ (
        if has_key its src.key || ltb (length its) max_props
        then (if bytes_eq src.key key then some src else lookup its key)
        else lookup its key)
unfolding register_item
register_item_lem src its key = elim (Option-cases (replace_item src its)) [
  | inr (its', e) ↦
      rw (e, register_item)
        (ground (arith, replaced_lookup src its its' key e, replaced_had src its its' e))
  | inl n ↦
      rw (n, register_item) (ground (arith, snoc_lookup src its key, replace_item-none src its n))
]

has_key-remove_first :
    (key : Bytes) (its : List Property) (k : Bytes)
    → has_key its k ≡ false
    → has_key (remove_first key its) k ≡ false
unfolding remove_first has_key
has_key-remove_first key [] k h = refl
has_key-remove_first key (it ∷ its) k h = ground (arith, has_key-remove_first key its k)

remove_first-UniqueKeys :
    (key : Bytes) (its : List Property) → UniqueKeys its → UniqueKeys (remove_first key its)
unfolding remove_first
remove_first-UniqueKeys key [] u = tt
remove_first-UniqueKeys key (it ∷ its) (n, u) = elim (Bool-cases (bytes_eq it.key key)) [
  | inl e ↦ rw e u
  | inr e ↦ rw e (has_key-remove_first key its it.key n, remove_first-UniqueKeys key its u)
]

remove_first-fit :
    (key : Bytes) (its : List Property)
    → All ItemFits its
    → All ItemFits (remove_first key its) × (length (remove_first key its) ≤ length its)
unfolding remove_first
remove_first-fit key [] h = (tt, omega arith)
remove_first-fit key (it ∷ its) (h, hs) = ground (arith, remove_first-fit key its hs)

pub remove_first-Super :
    (key : Bytes) (its : List Property) → Super its → Super (remove_first key its)
remove_first-Super key its s =
    let r = remove_first-fit key its s.fit in
    record {
      few = omega (arith, r.1, s.few);
      fit = r.0;
      unique = remove_first-UniqueKeys key its s.unique;
    }
