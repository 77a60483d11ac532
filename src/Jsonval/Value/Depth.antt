-- ===== src/Jsonval/Value/Depth.antt =====
-- The nesting that ph_jv_parse accepts is bounded.
use posthog_c.Base.{
  ℕ, zero, suc, ◌≤◌, ◌<◌, ◌≡◌, refl, sym, ◌∙◌, subst, ◌||◌, Option, none, some, [], ◌∷◌, length,
  max, Bytes, codes, ◌==◌, arith, Bool-cases, Option-cases, inl, inr,
}
use posthog_c.Jsonval.{skip_ws, parse_string_raw}
use posthog_c.Jsonval.Value.{
  Json, null, boolean, num, str, arr, obj, Items, nil, cons, Fields, end, field, behind, array_next,
  array_loop, parse_array, object_next, object_loop, parse_object, dispatch, parse_value, parse,
  parse_string, parse_literal, parse_number, is_digit, at_end, number_whole, number_fraction,
  number_exponent, number_sign,
}

-- How many arrays and objects stand around the innermost value.
unfoldable mutual
  pub depth : Json → ℕ
  depth null = 0
  depth (boolean b) = 0
  depth (num n) = 0
  depth (str s) = 0
  depth (arr items) = suc (depth_items items)
  depth (obj fields) = suc (depth_fields fields)

  pub depth_items : Items → ℕ
  depth_items nil = 0
  depth_items (cons x xs) = max (depth x) (depth_items xs)

  pub depth_fields : Fields → ℕ
  depth_fields end = 0
  depth_fields (field k v fields) = max (depth v) (depth_fields fields)

module _ (n : ℕ) where
  -- Values that nest less than `n` deep.
  abbrev Shallow : Option (Json × Bytes) → Type 0
  Shallow none = Unit
  Shallow (some (j, r)) = depth j < n

  abbrev ShallowItems : Option (Items × Bytes) → Type 0
  ShallowItems none = Unit
  ShallowItems (some (items, r)) = depth_items items < n

  abbrev ShallowFields : Option (Fields × Bytes) → Type 0
  ShallowFields none = Unit
  ShallowFields (some (fields, r)) = depth_fields fields < n

module _ (n : ℕ) (value : Bytes → Option (Json × Bytes))
    (below : (c : Bytes) → Shallow n (value c)) where
  array_next-Shallow :
      (more : Bytes → Option (Items × Bytes)) (item : Json) (c : Bytes)
      → ((r : Bytes) → ShallowItems n (more r))
      → depth item < n
      → ShallowItems n (array_next more item c)
  unfolding array_next depth
  array_next-Shallow more item [] h hi = tt
  array_next-Shallow more item (ch ∷ c) h hi = elim (Bool-cases (ch == b',')) [
    | inl comma ↦ elim (Option-cases (more c)) [
      | inl e ↦ rw (comma, e) tt
      | inr ((items, r), e) ↦
          let deep = subst (ShallowItems n) e (h c) in rw (comma, e) (omega (arith, deep, hi))
    ]
    | inr other ↦ elim (Bool-cases (ch == b']')) [
      | inl stop ↦ rw (other, stop) (omega (arith, hi))
      | inr bad ↦ rw (other, bad) tt
    ]
  ]

  array_loop-Shallow : (fuel : ℕ) (c : Bytes) → ShallowItems n (array_loop value fuel c)
  unfolding array_loop
  array_loop-Shallow zero c = tt
  array_loop-Shallow (suc fuel) c = elim (Option-cases (value (skip_ws c))) [
    | inl e ↦ rw (e, array_loop) tt
    | inr ((item, c'), e) ↦
        rw (e, array_loop)
          (array_next-Shallow (array_loop value fuel) item (skip_ws c')
            (λ r. array_loop-Shallow fuel r) (subst (Shallow n) e (below (skip_ws c))))
  ]

  object_next-Shallow :
      (more : Bytes → Option (Fields × Bytes)) (key : Bytes) (val : Json) (c : Bytes)
      → ((r : Bytes) → ShallowFields n (more r))
      → depth val < n
      → ShallowFields n (object_next more key val c)
  unfolding object_next depth
  object_next-Shallow more key val [] h hi = tt
  object_next-Shallow more key val (ch ∷ c) h hi = elim (Bool-cases (ch == b',')) [
    | inl comma ↦ elim (Option-cases (more c)) [
      | inl e ↦ rw (comma, e) tt
      | inr ((fields, r), e) ↦
          let deep = subst (ShallowFields n) e (h c) in rw (comma, e) (omega (arith, deep, hi))
    ]
    | inr other ↦ elim (Bool-cases (ch == b'}')) [
      | inl stop ↦ rw (other, stop) (omega (arith, hi))
      | inr bad ↦ rw (other, bad) tt
    ]
  ]

  object_loop-Shallow : (fuel : ℕ) (c : Bytes) → ShallowFields n (object_loop value fuel c)
  unfolding object_loop
  object_loop-Shallow zero c = tt
  object_loop-Shallow (suc fuel) c = elim (Option-cases (parse_string_raw (skip_ws c))) [
    | inl e ↦ rw (e, object_loop) tt
    | inr ((key, c1), e) ↦ elim (Option-cases (behind (codes ":") (skip_ws c1))) [
      | inl e1 ↦ rw (e, object_loop, e1) tt
      | inr (c2, e1) ↦ elim (Option-cases (value (skip_ws c2))) [
        | inl e2 ↦ rw (e, object_loop, e1, e2) tt
        | inr ((val, c3), e2) ↦
            rw (e, object_loop, e1, e2)
              (object_next-Shallow (object_loop value fuel) key val (skip_ws c3)
                (λ r. object_loop-Shallow fuel r) (subst (Shallow n) e2 (below (skip_ws c2))))
      ]
    ]
  ]

  array_below : (c : Bytes) → 0 < n → Shallow (suc n) (parse_array value c)
  unfolding parse_array depth
  array_below c pos = elim (Option-cases (behind (codes "]") (skip_ws c))) [
    | inr (rest, e) ↦ rw (e, parse_array) (omega arith)
    | inl e ↦ elim (Option-cases (array_loop value (suc (length c)) (skip_ws c))) [
      | inl f ↦ rw (e, parse_array, f) tt
      | inr ((items, r), f) ↦
          let deep = subst (ShallowItems n) f (array_loop-Shallow (suc (length c)) (skip_ws c)) in
          rw (e, parse_array, f) (omega (arith, deep))
    ]
  ]

  object_below : (c : Bytes) → 0 < n → Shallow (suc n) (parse_object value c)
  unfolding parse_object depth
  object_below c pos = elim (Option-cases (behind (codes "}") (skip_ws c))) [
    | inr (rest, e) ↦ rw (e, parse_object) (omega arith)
    | inl e ↦ elim (Option-cases (object_loop value (suc (length c)) (skip_ws c))) [
      | inl f ↦ rw (e, parse_object, f) tt
      | inr ((fields, r), f) ↦
          let deep = subst (ShallowFields n) f (object_loop-Shallow (suc (length c)) (skip_ws c)) in
          rw (e, parse_object, f) (omega (arith, deep))
    ]
  ]

-- A scalar.
abbrev Flat : Option (Json × Bytes) → Type 0
Flat none = Unit
Flat (some (j, r)) = depth j ≡ 0

string-Flat : (c : Bytes) → Flat (parse_string c)
unfolding parse_string depth
string-Flat c = elim (Option-cases (parse_string_raw c)) [
  | inl e ↦ rw (e, parse_string) tt
  | inr ((s, r), e) ↦ rw (e, parse_string) refl
]

literal-Flat : (c : Bytes) → Flat (parse_literal c)
unfolding parse_literal depth
literal-Flat c = elim (Option-cases (behind (codes "true") c)) [
  | inr (r, e) ↦ rw (e, parse_literal) refl
  | inl e ↦ elim (Option-cases (behind (codes "false") c)) [
    | inr (r, f) ↦ rw (e, parse_literal, f) refl
    | inl f ↦ elim (Option-cases (behind (codes "null") c)) [
      | inr (r, g) ↦ rw (e, parse_literal, f, g) refl
      | inl g ↦ rw (e, parse_literal, f, g) tt
    ]
  ]
]

number-Flat : (c : Bytes) → Flat (parse_number c)
unfolding parse_number depth
number-Flat c = elim (Option-cases (number_whole (number_sign c).1)) [
  | inl e ↦ rw (e, parse_number) tt
  | inr ((whole, p), e) ↦ elim (Option-cases (number_fraction p)) [
    | inl f ↦ rw (e, parse_number, f) tt
    | inr ((fraction, p'), f) ↦ elim (Option-cases (number_exponent p')) [
      | inl g ↦ rw (e, parse_number, f, g) tt
      | inr (x, g) ↦ rw (e, parse_number, f, g) refl
    ]
  ]
]

Flat-below : (n : ℕ) (o : Option (Json × Bytes)) → Flat o → Shallow (suc n) o
Flat-below n none h = tt
Flat-below n (some (j, r)) h = omega (arith, h)

dispatch_below :
    (n : ℕ) (value : Bytes → Option (Json × Bytes)) (c : Bytes)
    → ((r : Bytes) → Shallow n (value r))
    → 0 < n
    → Shallow (suc n) (dispatch value c)
unfolding dispatch
dispatch_below n value [] below pos = tt
dispatch_below n value (ch ∷ c) below pos = elim (Bool-cases (ch == b'{')) [
  | inl t ↦ rw t (object_below n value below c pos)
  | inr f1 ↦ elim (Bool-cases (ch == b'[')) [
    | inl t ↦ rw (f1, t) (array_below n value below c pos)
    | inr f2 ↦ elim (Bool-cases (ch == b'"')) [
      | inl t ↦ rw (f1, f2, t) (Flat-below n _ (string-Flat (ch ∷ c)))
      | inr f3 ↦ elim (Bool-cases (ch == b't' || ch == b'f' || ch == b'n')) [
        | inl t ↦ rw (f1, f2, f3, t) (Flat-below n _ (literal-Flat (ch ∷ c)))
        | inr f4 ↦ elim (Bool-cases (ch == b'-' || is_digit ch)) [
          | inl t ↦ rw (f1, f2, f3, f4, t) (Flat-below n _ (number-Flat (ch ∷ c)))
          | inr f5 ↦ rw (f1, f2, f3, f4, f5) tt
        ]
      ]
    ]
  ]
]

parse_value_below : (levels : ℕ) (c : Bytes) → Shallow (suc levels) (parse_value levels c)
unfolding parse_value
parse_value_below zero c = tt
parse_value_below (suc levels) c =
    dispatch_below (suc levels) (parse_value levels) (skip_ws c) (λ r. parse_value_below levels r)
      (omega arith)

at_end_eq : (v : Json) (rest : Bytes) (j : Json) → at_end v rest ≡ some j → v ≡ j
unfolding at_end
at_end_eq v [] j h = cc
at_end_eq v (_ ∷ _) j h = cc

-- Whatever the input, a tree that the parser returns has at most PH_JV_MAX_DEPTH + 1 = 129 arrays and
-- objects around one another, and so have the calls that built it and those that will free it.
pub depth-parse : (s : Bytes) (j : Json) → parse (some s) ≡ some j → depth j ≤ 129
unfolding parse
depth-parse s j h = elim (Option-cases (parse_value 129 s)) [
  | inl e ↦ cc (e, h)
  | inr ((v, rest), e) ↦
      let deep : depth v < 130 = subst (Shallow 130) e (parse_value_below 129 s) in
      let same : v ≡ j = at_end_eq v (skip_ws rest) j (sym (rw (e, parse) refl) ∙ h) in
      subst (λ t. depth t ≤ 129) same (omega arith)
]
