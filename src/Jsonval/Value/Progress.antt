-- ===== src/Jsonval/Value/Progress.antt =====
-- The parsers of arrays and objects in src/ph_jsonval.c move the cursor on, so their loops end.
use posthog_c.Base.{
  ℕ, zero, suc, ◌<◌, ◌≡◌, refl, subst, ◌||◌, Option, some, [], ◌∷◌, length, Bytes, codes, ◌==◌,
  arith, Bool-cases, Option-cases, inl, inr,
}
use posthog_c.Jsonval.{skip_ws, parse_string_raw}
use posthog_c.Jsonval.Value.{
  Json, Items, Fields, behind, array_next, array_loop, parse_array, object_next, object_loop,
  parse_object, dispatch, parse_value, is_digit,
}
use posthog_c.Jsonval.Value.Scalars.{
  Leaves, Leaves-mono, skip_ws_le, behind_le, string-Leaves, literal-Leaves, number-Leaves,
  raw-Leaves,
}

module _ (value : Bytes → Option (Json × Bytes))
    (eats : (c : Bytes) → Leaves (length c) (value c)) where
  -- The cursor behind a value that `value` read after white space.
  value_le :
      (c : Bytes) (j : Json) (r : Bytes) → value (skip_ws c) ≡ some (j, r) → length r < length c
  value_le c j r h =
      let l : length r < length (skip_ws c) =
        subst (Leaves (length (skip_ws c))) h (eats (skip_ws c)) in
      omega (arith, l, skip_ws_le c)

  array_next_agree :
      (f g : Bytes → Option (Items × Bytes)) (item : Json) (c : Bytes)
      → ((r : Bytes) → length r < length c → f r ≡ g r)
      → array_next f item c ≡ array_next g item c
  unfolding array_next
  array_next_agree f g item [] h = refl
  array_next_agree f g item (ch ∷ c) h = rw (h c (omega arith)) refl

  -- Any two amounts of fuel beyond the bytes left give one result.
  pub array_loop_enough :
      (f g : ℕ) (c : Bytes)
      → length c < f
      → length c < g
      → array_loop value f c ≡ array_loop value g c
  unfolding array_loop
  array_loop_enough zero g c hf hg = absurd (omega arith)
  array_loop_enough (suc f) zero c hf hg = absurd (omega arith)
  array_loop_enough (suc f) (suc g) c hf hg = elim (Option-cases (value (skip_ws c))) [
    | inl e ↦ rw (e, array_loop) refl
    | inr ((item, c'), e) ↦
        let l : length c' < length c = value_le c item c' e in
        rw (e, array_loop)
          (array_next_agree (array_loop value f) (array_loop value g) item (skip_ws c') (λ r h.
            array_loop_enough f g r (omega (arith, skip_ws_le c')) (omega (arith, skip_ws_le c'))))
  ]

  object_next_agree :
      (f g : Bytes → Option (Fields × Bytes)) (key : Bytes) (val : Json) (c : Bytes)
      → ((r : Bytes) → length r < length c → f r ≡ g r)
      → object_next f key val c ≡ object_next g key val c
  unfolding object_next
  object_next_agree f g key val [] h = refl
  object_next_agree f g key val (ch ∷ c) h = rw (h c (omega arith)) refl

  pub object_loop_enough :
      (f g : ℕ) (c : Bytes)
      → length c < f
      → length c < g
      → object_loop value f c ≡ object_loop value g c
  unfolding object_loop
  object_loop_enough zero g c hf hg = absurd (omega arith)
  object_loop_enough (suc f) zero c hf hg = absurd (omega arith)
  object_loop_enough (suc f) (suc g) c hf hg = elim (Option-cases (parse_string_raw (skip_ws c))) [
    | inl e ↦ rw (e, object_loop) refl
    | inr ((key, c1), e) ↦ elim (Option-cases (behind (codes ":") (skip_ws c1))) [
      | inl e1 ↦ rw (e, object_loop, e1) refl
      | inr (c2, e1) ↦ elim (Option-cases (value (skip_ws c2))) [
        | inl e2 ↦ rw (e, object_loop, e1, e2) refl
        | inr ((val, c3), e2) ↦
            let l1 : length c1 < length (skip_ws c) =
              subst (Leaves (length (skip_ws c))) e (raw-Leaves (skip_ws c)) in
            let l3 : length c3 < length c = omega (
              arith,
              l1,
              skip_ws_le c,
              skip_ws_le c1,
              behind_le (codes ":") (skip_ws c1) c2 e1,
              value_le c2 val c3 e2,
            ) in
            rw (e, object_loop, e1, e2)
              (object_next_agree (object_loop value f) (object_loop value g) key val (skip_ws c3)
                (λ r h.
                  object_loop_enough f g r (omega (arith, skip_ws_le c3))
                    (omega (arith, skip_ws_le c3))))
      ]
    ]
  ]

  array_next-Leaves :
      (more : Bytes → Option (Items × Bytes)) (item : Json) (c : Bytes)
      → ((r : Bytes) → Leaves (length r) (more r))
      → Leaves (length c) (array_next more item c)
  unfolding array_next
  array_next-Leaves more item [] h = tt
  array_next-Leaves more item (ch ∷ c) h = elim (Bool-cases (ch == b',')) [
    | inl comma ↦ elim (Option-cases (more c)) [
      | inl e ↦ rw (comma, e) tt
      | inr ((items, r), e) ↦
          let l : length r < length c = subst (Leaves (length c)) e (h c) in
          rw (comma, e) (omega (arith, l))
    ]
    | inr other ↦ elim (Bool-cases (ch == b']')) [
      | inl stop ↦ rw (other, stop) (omega arith)
      | inr bad ↦ rw (other, bad) tt
    ]
  ]

  array_loop-Leaves : (f : ℕ) (c : Bytes) → Leaves (length c) (array_loop value f c)
  unfolding array_loop
  array_loop-Leaves zero c = tt
  array_loop-Leaves (suc f) c = elim (Option-cases (value (skip_ws c))) [
    | inl e ↦ rw (e, array_loop) tt
    | inr ((item, c'), e) ↦
        let l : length c' < length c = value_le c item c' e in
        rw (e, array_loop)
          (Leaves-mono (length (skip_ws c')) (length c) _ (omega (arith, skip_ws_le c'))
            (array_next-Leaves (array_loop value f) item (skip_ws c') (λ r. array_loop-Leaves f r)))
  ]

  object_next-Leaves :
      (more : Bytes → Option (Fields × Bytes)) (key : Bytes) (val : Json) (c : Bytes)
      → ((r : Bytes) → Leaves (length r) (more r))
      → Leaves (length c) (object_next more key val c)
  unfolding object_next
  object_next-Leaves more key val [] h = tt
  object_next-Leaves more key val (ch ∷ c) h = elim (Bool-cases (ch == b',')) [
    | inl comma ↦ elim (Option-cases (more c)) [
      | inl e ↦ rw (comma, e) tt
      | inr ((fields, r), e) ↦
          let l : length r < length c = subst (Leaves (length c)) e (h c) in
          rw (comma, e) (omega (arith, l))
    ]
    | inr other ↦ elim (Bool-cases (ch == b'}')) [
      | inl stop ↦ rw (other, stop) (omega arith)
      | inr bad ↦ rw (other, bad) tt
    ]
  ]

  object_loop-Leaves : (f : ℕ) (c : Bytes) → Leaves (length c) (object_loop value f c)
  unfolding object_loop
  object_loop-Leaves zero c = tt
  object_loop-Leaves (suc f) c = elim (Option-cases (parse_string_raw (skip_ws c))) [
    | inl e ↦ rw (e, object_loop) tt
    | inr ((key, c1), e) ↦ elim (Option-cases (behind (codes ":") (skip_ws c1))) [
      | inl e1 ↦ rw (e, object_loop, e1) tt
      | inr (c2, e1) ↦ elim (Option-cases (value (skip_ws c2))) [
        | inl e2 ↦ rw (e, object_loop, e1, e2) tt
        | inr ((val, c3), e2) ↦
            let l1 : length c1 < length (skip_ws c) =
              subst (Leaves (length (skip_ws c))) e (raw-Leaves (skip_ws c)) in
            let l3 : length c3 < length c = omega (
              arith,
              l1,
              skip_ws_le c,
              skip_ws_le c1,
              behind_le (codes ":") (skip_ws c1) c2 e1,
              value_le c2 val c3 e2,
            ) in
            rw (e, object_loop, e1, e2)
              (Leaves-mono (length (skip_ws c3)) (length c) _ (omega (arith, skip_ws_le c3)) (
                object_next-Leaves (object_loop value f) key val (skip_ws c3)
                  (λ r. object_loop-Leaves f r)))
      ]
    ]
  ]

  array-Leaves : (c : Bytes) → Leaves (suc (length c)) (parse_array value c)
  unfolding parse_array
  array-Leaves c = elim (Option-cases (behind (codes "]") (skip_ws c))) [
    | inr (r, e) ↦
        rw (e, parse_array) (omega (arith, behind_le (codes "]") (skip_ws c) r e, skip_ws_le c))
    | inl e ↦ elim (Option-cases (array_loop value (suc (length c)) (skip_ws c))) [
      | inl f ↦ rw (e, parse_array, f) tt
      | inr ((items, r), f) ↦
          let l : length r < length (skip_ws c) =
            subst (Leaves (length (skip_ws c))) f
              (array_loop-Leaves (suc (length c)) (skip_ws c)) in
          rw (e, parse_array, f) (omega (arith, l, skip_ws_le c))
    ]
  ]

  object-Leaves : (c : Bytes) → Leaves (suc (length c)) (parse_object value c)
  unfolding parse_object
  object-Leaves c = elim (Option-cases (behind (codes "}") (skip_ws c))) [
    | inr (r, e) ↦
        rw (e, parse_object) (omega (arith, behind_le (codes "}") (skip_ws c) r e, skip_ws_le c))
    | inl e ↦ elim (Option-cases (object_loop value (suc (length c)) (skip_ws c))) [
      | inl f ↦ rw (e, parse_object, f) tt
      | inr ((fields, r), f) ↦
          let l : length r < length (skip_ws c) =
            subst (Leaves (length (skip_ws c))) f
              (object_loop-Leaves (suc (length c)) (skip_ws c)) in
          rw (e, parse_object, f) (omega (arith, l, skip_ws_le c))
    ]
  ]

  dispatch-Leaves : (c : Bytes) → Leaves (length c) (dispatch value c)
  unfolding dispatch
  dispatch-Leaves [] = tt
  dispatch-Leaves (ch ∷ c) = elim (Bool-cases (ch == b'{')) [
    | inl t ↦ rw t (object-Leaves c)
    | inr f1 ↦ elim (Bool-cases (ch == b'[')) [
      | inl t ↦ rw (f1, t) (array-Leaves c)
      | inr f2 ↦ elim (Bool-cases (ch == b'"')) [
        | inl t ↦ rw (f1, f2, t) (string-Leaves (ch ∷ c))
        | inr f3 ↦ elim (Bool-cases (ch == b't' || ch == b'f' || ch == b'n')) [
          | inl t ↦ rw (f1, f2, f3, t) (literal-Leaves (ch ∷ c))
          | inr f4 ↦ elim (Bool-cases (ch == b'-' || is_digit ch)) [
            | inl t ↦ rw (f1, f2, f3, f4, t) (number-Leaves (ch ∷ c))
            | inr f5 ↦ rw (f1, f2, f3, f4, f5) tt
          ]
        ]
      ]
    ]
  ]

-- A value that is read has taken a byte at least.
pub parse_value-Leaves : (levels : ℕ) (c : Bytes) → Leaves (length c) (parse_value levels c)
unfolding parse_value
parse_value-Leaves zero c = tt
parse_value-Leaves (suc levels) c =
    Leaves-mono (length (skip_ws c)) (length c) _ (skip_ws_le c)
      (dispatch-Leaves (parse_value levels) (λ r. parse_value-Leaves levels r) (skip_ws c))

-- At every nesting the loops over items and members end by themselves: the rounds that parse_array and
-- parse_object are given exceed what any input can use, so that more rounds change nothing.
pub parse_loops_enough :
    (levels f : ℕ) (c : Bytes)
    → length c < f
    → (array_loop (parse_value levels) f (skip_ws c)
        ≡ array_loop (parse_value levels) (suc (length c)) (skip_ws c))
      × (object_loop (parse_value levels) f (skip_ws c)
          ≡ object_loop (parse_value levels) (suc (length c)) (skip_ws c))
parse_loops_enough levels f c h =
    let n = suc (length c) in
    let below : length (skip_ws c) < suc (length c) = omega (arith, skip_ws_le c) in
    let below' : length (skip_ws c) < f = omega (arith, skip_ws_le c) in
    (
      array_loop_enough (parse_value levels) (λ r. parse_value-Leaves levels r) f n (skip_ws c)
          below' below,
      object_loop_enough (parse_value levels) (λ r. parse_value-Leaves levels r) f n (skip_ws c)
          below' below,
    )
