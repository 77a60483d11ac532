-- ===== src/Props/RoundTrip.antt =====
-- Packing and unpacking a property set.
use posthog_c.Base.{
  ℕ, zero, suc, ◌+◌, ◌-◌, ◌≤◌, ◌<◌, ◌≡◌, refl, sym, ap, ap₂, ◌∙◌, subst, true, some, List, [], ◌∷◌,
  ◌++◌, append-nil, append_assoc, leb, if◌then◌else◌, length, length-append, Bytes, All, arith,
  dec_lt,
}
use posthog_c.Props.{Property, Props, max_props, ItemFits, IsValid, empty_props}
use posthog_c.Props.Pack.{pack_item, pack_items, pack_props}
use posthog_c.Props.Unpack.{Entry, blob_next, read_item, add_item, unpack_loop, unpack_props}
use posthog_c.Props.Entry.{item_size, entry_of, packs, length_packs, skips, reads}

le→leb : (a b : ℕ) → a ≤ b → leb a b ≡ true
le→leb a b h = ground arith

-- The items that a blob of `cap` bytes keeps: each one for which there is still room.
unfoldable pub kept : ℕ → List Property → List Property
kept cap [] = []
kept cap (it ∷ its) =
    let room = kept (cap - item_size it) its in
    let skip = kept cap its in if leb (item_size it) cap then it ∷ room else skip

unpack_nothing : (fuel : ℕ) (acc : List Property) → unpack_loop fuel [] acc ≡ acc
unfolding unpack_loop blob_next
unpack_nothing zero acc = refl
unpack_nothing (suc fuel) acc = ground arith

unpack_step :
    (fuel : ℕ) (blob : Bytes) (acc : List Property) (e : Entry) (rest : Bytes)
    → length acc < max_props
    → blob_next blob ≡ some (e, rest)
    → unpack_loop (suc fuel) blob acc ≡ unpack_loop fuel rest (add_item acc (read_item e))
unfolding unpack_loop
unpack_step fuel blob acc e rest room h = ground arith

item_size_pos : (it : Property) → 4 ≤ item_size it
unfolding item_size
item_size_pos it = omega arith

-- What an unpacker that has read `acc` makes of a blob that goes on with `tail`.
module _ (tail : Bytes)
    (silent : (f : ℕ) (acc : List Property) → unpack_loop f tail acc ≡ acc) where
  -- The first item has room: one round reads it back, and the loop goes on behind it.
  first_fits :
      (it : Property) (its : List Property) (cap fuel : ℕ) (acc : List Property)
      → ItemFits it
      → length acc < max_props
      → item_size it ≤ cap
      → length (pack_items cap (it ∷ its)) ≤ fuel
      → ((f : ℕ)
          → length (pack_items (cap - item_size it) its) ≤ f
          → unpack_loop f (pack_items (cap - item_size it) its ++ tail) (acc ++ (it ∷ []))
            ≡ (acc ++ (it ∷ [])) ++ kept (cap - item_size it) its)
      → unpack_loop fuel (pack_items cap (it ∷ its) ++ tail) acc
        ≡ acc ++ (it ∷ kept (cap - item_size it) its)
  unfolding pack_items
  first_fits it its cap zero acc h room fit hf ih = absurd (
      omega (
        arith,
        length-append (pack_item cap it) (pack_items (cap - length (pack_item cap it)) its),
        length_packs cap it.key it.value h fit,
        item_size_pos it,
      ))
  first_fits it its cap (suc f) acc h room fit hf ih =
      ap (λ blob. unpack_loop (suc f) blob acc) (append_assoc (pack_item cap it) rest tail)
      ∙ unpack_step f _ acc (entry_of it) (rest ++ tail) room
          (packs cap it.key it.value (rest ++ tail) h fit)
      ∙ ap₂ (λ o r. unpack_loop f (pack_items r its ++ tail) (add_item acc o))
          (reads it.key it.value h) (ap (λ n. cap - n) size)
      ∙ ih f (subst (λ n. length (pack_items (cap - n) its) ≤ f) size enough)
      ∙ append_assoc acc (it ∷ []) _
    where
      rest : Bytes
      rest = pack_items (cap - length (pack_item cap it)) its

      size : length (pack_item cap it) ≡ item_size it
      size = length_packs cap it.key it.value h fit

      enough : length rest ≤ f
      enough = omega (arith, length-append (pack_item cap it) rest, size, item_size_pos it)

  pub unpack_loop-pack_items :
      (its : List Property) (cap fuel : ℕ) (acc : List Property)
      → All ItemFits its
      → length acc + length its ≤ max_props
      → length (pack_items cap its) ≤ fuel
      → unpack_loop fuel (pack_items cap its ++ tail) acc ≡ acc ++ kept cap its
  unfolding pack_items kept
  unpack_loop-pack_items [] cap fuel acc h few hf = silent fuel acc ∙ sym (append-nil acc)
  unpack_loop-pack_items (it ∷ its) cap fuel acc (h, hs) few hf = elim (dec_lt cap (item_size it)) [
    | yes big ↦
        ground (arith, skips cap it.key it.value big, unpack_loop-pack_items its cap fuel acc hs)
    | no fit ↦ rw (le→leb (item_size it) cap (omega arith)) (
        first_fits it its cap fuel acc h (omega arith) (omega arith) hf (λ f hf'.
          unpack_loop-pack_items its (cap - item_size it) f (acc ++ (it ∷ [])) hs
            (omega (arith, length-append acc (it ∷ []))) hf'))
  ]

-- Unpacking what was packed gives back the items that had room, in order and unchanged: in a blob of
-- `cap` bytes exactly those that do not run past what the earlier ones left.
pub unpack-pack :
    (cap : ℕ) (p : Props)
    → IsValid p
    → (unpack_props (pack_props cap (some p))).items ≡ kept cap p.items
unfolding unpack_props pack_props empty_props
unpack-pack cap p v =
    ap (λ blob. unpack_loop (length (pack_items cap p.items)) blob [])
      (sym (append-nil (pack_items cap p.items)))
    ∙ unpack_loop-pack_items [] unpack_nothing p.items cap _ [] v.fit (omega (arith, v.few))
        (omega arith)
