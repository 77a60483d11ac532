-- ===== src/Props/Safe.antt =====
-- ph_unpack_props on arbitrary bytes, such as a blob that a crash record replays.
use posthog_c.Base.{
  ℕ, zero, suc, ◌+◌, ◌-◌, ◌*◌, ◌^◌, ◌≤◌, ◌<◌, ◌≡◌, refl, sym, ◌∙◌, subst, Option, none, some, List,
  [], ◌∷◌, ltb, ◌==◌, if◌then◌else◌, All-take, All-drop, length, length-append, length-take, take,
  drop, Bytes, IsChar, IsByte, All, of_bytes, c_string, arith, Bool-cases, Option-cases, inl, inr,
  length-drop, ==_iff, ltb→lt, c_string_fits, of_bytes-lt,
}
use posthog_c.Props.Pack.{type_group}
use posthog_c.Props.Laws.{All-snoc}
use posthog_c.Props.{
  Value, Property, max_props, key_cap, val_cap, ValueFits, ItemFits, IsValid, empty_props,
}
use posthog_c.Props.Unpack.{
  Entry, blob_next, read_value, read_item, add_item, unpack_loop, unpack_props,
}

-- An entry lies within the blob, and the cursor moves on by four bytes at least.
blob_next_bounds :
    (blob : Bytes) (e : Entry) (rest : Bytes)
    → blob_next blob ≡ some (e, rest)
    → All IsByte blob
    → (length rest + 4 + length e.key + length e.val ≡ length blob)
      × All IsByte e.key
      × All IsByte e.val
      × All IsByte rest
unfolding blob_next
blob_next_bounds (t ∷ kl ∷ v0 ∷ v1 ∷ r) e rest h (_, (_, (_, (_, hr)))) = ground (
  arith,
  All-take IsByte kl r hr,
  All-drop IsByte kl r hr,
  All-take IsByte (v0 + 256 * v1) (drop kl r),
  All-drop IsByte (v0 + 256 * v1) (drop kl r),
  length-take kl r,
  length-drop kl r,
  length-take (v0 + 256 * v1) (drop kl r),
  length-drop (v0 + 256 * v1) (drop kl r),
)
blob_next_bounds [] e rest h hb = cc
blob_next_bounds (_ ∷ []) e rest h hb = cc
blob_next_bounds (_ ∷ _ ∷ []) e rest h hb = cc
blob_next_bounds (_ ∷ _ ∷ _ ∷ []) e rest h hb = cc

word_fits : (val : Bytes) → All IsByte val → (if length val == 8 then of_bytes val else 0) < 2 ^ 64
word_fits val h = elim (Bool-cases (length val == 8)) [
  | inl e ↦
      rw e (subst (λ n. of_bytes val < 256 ^ n) ((==_iff (length val) 8).0 e) (of_bytes-lt val h))
  | inr e ↦ rw e (omega arith)
]

text_fits :
    (cap : ℕ) (bs : Bytes)
    → All IsByte bs
    → All IsChar (c_string (take cap bs)) × (length (c_string (take cap bs)) ≤ cap)
text_fits cap bs h =
    let fits = c_string_fits (take cap bs) (All-take IsByte cap bs h) in
    (fits.0, omega (arith, fits.1, length-take cap bs))

AllFits : Option Property → Type 0
AllFits none = Unit
AllFits (some it) = ItemFits it

ValueFits? : Option Value → Type 0
ValueFits? none = Unit
ValueFits? (some v) = ValueFits v

read_value-fits : (e : Entry) → All IsByte e.val → ValueFits? (read_value e)
unfolding read_value ValueFits?
read_value-fits e h = elim (Bool-cases (e.type == 0)) [
  | inl t ↦ rw t (s.0, omega (arith, s.1))
  | inr n0 ↦ elim (Bool-cases (e.type == 1)) [
    | inl t ↦ rw (n0, t) (word_fits e.val h)
    | inr n1 ↦ elim (Bool-cases (e.type == 2)) [
      | inl t ↦ rw (n0, n1, t) (word_fits e.val h)
      | inr n2 ↦ elim (Bool-cases (e.type == 3)) [
        | inl t ↦ rw (n0, n1, n2, t) tt
        | inr n3 ↦ rw (n0, n1, n2, n3) tt
      ]
    ]
  ]
]
  where
    s :
        All IsChar (c_string (take (val_cap - 1) e.val))
        × (length (c_string (take (val_cap - 1) e.val)) ≤ val_cap - 1)
    s = text_fits (val_cap - 1) e.val h

read_item-fits : (e : Entry) → All IsByte e.key → All IsByte e.val → AllFits (read_item e)
unfolding read_item AllFits ValueFits?
read_item-fits e hk hv = elim (Bool-cases (e.type == type_group)) [
  | inl t ↦ rw t tt
  | inr n ↦ elim (Option-cases (read_value e)) [
    | inl r ↦ rw (n, r) tt
    | inr (v, r) ↦
        let k = text_fits (key_cap - 1) e.key hk in
        rw (n, r) (k.0, omega (arith, k.1), subst (λ o. ValueFits? o) r (read_value-fits e hv))
  ]
]

add_item-fits :
    (acc : List Property) (o : Option Property)
    → All ItemFits acc
    → AllFits o
    → All ItemFits (add_item acc o) × (length (add_item acc o) ≤ length acc + 1)
unfolding AllFits
add_item-fits acc none h ho = (h, omega arith)
add_item-fits acc (some it) h ho =
    (All-snoc acc it h ho, omega (arith, length-append acc (it ∷ [])))

unpack_loop-fits :
    (fuel : ℕ) (blob : Bytes) (acc : List Property)
    → All IsByte blob
    → All ItemFits acc
    → length acc ≤ max_props
    → All ItemFits (unpack_loop fuel blob acc) × (length (unpack_loop fuel blob acc) ≤ max_props)
unfolding unpack_loop
unpack_loop-fits zero blob acc hb h few = (h, few)
unpack_loop-fits (suc fuel) blob acc hb h few = elim (Bool-cases (ltb (length acc) max_props)) [
  | inr stop ↦ rw stop (h, few)
  | inl go ↦ elim (Option-cases (blob_next blob)) [
    | inl done ↦ rw (go, done) (h, few)
    | inr ((e, rest), more) ↦
        let b = blob_next_bounds blob e rest more hb in
        let added = add_item-fits acc (read_item e) h (read_item-fits e b.1 b.2) in
        rw (go, more)
          (unpack_loop-fits fuel rest (add_item acc (read_item e)) b.3 added.0
            (omega (arith, added.1, ltb→lt _ _ go)))
  ]
]

-- Whatever the bytes of the blob: the loop stays within the 24 items of the set, and every key and
-- string that it writes, with its NUL, within its array.
pub unpack-IsValid : (blob : Bytes) → All IsByte blob → IsValid (unpack_props blob)
unfolding unpack_props empty_props
unpack-IsValid blob hb =
    let fits = unpack_loop-fits (length blob) blob [] hb tt (omega arith) in
    record { few = fits.1; fit = fits.0 }

loop_nothing : (fuel : ℕ) (acc : List Property) → unpack_loop fuel [] acc ≡ acc
unfolding unpack_loop blob_next
loop_nothing zero acc = refl
loop_nothing (suc fuel) acc = ground arith

RestAgrees : ℕ → ℕ → List Property → Option (Entry × Bytes) → Type 0
RestAgrees f g acc none = Unit
RestAgrees f g acc (some (e, rest)) =
    unpack_loop f rest (add_item acc (read_item e))
    ≡ unpack_loop g rest (add_item acc (read_item e))

-- Two loops agree on a blob if they agree behind its first entry.
one_round :
    (f g : ℕ) (blob : Bytes) (acc : List Property) (o : Option (Entry × Bytes))
    → blob_next blob ≡ o
    → RestAgrees f g acc o
    → unpack_loop (suc f) blob acc ≡ unpack_loop (suc g) blob acc
unfolding unpack_loop RestAgrees
one_round f g blob acc none h agrees = rw h
one_round f g blob acc (some (e, rest)) h agrees = rw (h, agrees)

-- `length blob` rounds are enough: with that much fuel or more, the loop has one result.
pub unpack_loop_enough :
    (f g : ℕ) (blob : Bytes) (acc : List Property)
    → All IsByte blob
    → length blob ≤ f
    → length blob ≤ g
    → unpack_loop f blob acc ≡ unpack_loop g blob acc
unfolding RestAgrees
unpack_loop_enough zero g [] acc hb hf hg = loop_nothing zero acc ∙ sym (loop_nothing g acc)
unpack_loop_enough zero g (b ∷ bs) acc hb hf hg = absurd (omega arith)
unpack_loop_enough (suc f) zero [] acc hb hf hg =
    loop_nothing (suc f) acc ∙ sym (loop_nothing zero acc)
unpack_loop_enough (suc f) zero (b ∷ bs) acc hb hf hg = absurd (omega arith)
unpack_loop_enough (suc f) (suc g) blob acc hb hf hg = elim (Option-cases (blob_next blob)) [
  | inl done ↦ one_round f g blob acc none done tt
  | inr ((e, rest), next) ↦
      let b = blob_next_bounds blob e rest next hb in
      one_round f g blob acc (some (e, rest)) next (
        unpack_loop_enough f g rest (add_item acc (read_item e)) b.3 (omega (arith, b.0))
          (omega (arith, b.0)))
]
