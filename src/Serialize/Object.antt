-- ===== src/Serialize/Object.antt =====
-- ph_serialize_props_object of src/ph_serialize.c, read back by src/ph_jsonval.c.
use posthog_c.Base.{
  ℕ, zero, suc, ◌-◌, ◌^◌, ◌≤◌, ◌<◌, ◌≡◌, ◌⊎◌, inl, inr, refl, ap, ◌∙◌, true, false, Option, none,
  some, List, [], ◌∷◌, ◌++◌, ltb, leb, if◌then◌else◌, arith, Bool-cases, append_assoc, Bytes,
  IsChar, All, codes, length, length-append,
}
use posthog_c.Json.{json_str, json_cstr}
use posthog_c.Jsonval.{skip_ws}
use posthog_c.Jsonval.RoundTrip.{scrub}
use posthog_c.Jsonval.Scrub.{parse_string_raw-json_str}
use posthog_c.Jsonval.Value.{
  Json, null, boolean, num, str, obj, Fields, end, field, Number, behind, object_next, object_loop,
  parse_object, dispatch, parse_value, parse, at_end,
}
use posthog_c.Props as Set
use posthog_c.Props.{Value, Property, Props, ItemFits, ValueFits}
use posthog_c.Serialize.{
  Platform, shortest, json_double, item_value, object_members, serialize_props_object,
}
use posthog_c.Serialize.Reads.{
  Ends, value_of, int_number, int_number_lem, read_int, read_bool, read_null, read_str,
}

skip_ws-skip_ws : (c : Bytes) → skip_ws (skip_ws c) ≡ skip_ws c
unfolding skip_ws
skip_ws-skip_ws [] = refl
skip_ws-skip_ws (ch ∷ c) = ground (arith, skip_ws-skip_ws c)

value-skip_ws :
    (levels : ℕ) (c : Bytes) → parse_value (suc levels) (skip_ws c) ≡ parse_value (suc levels) c
unfolding parse_value
value-skip_ws levels c = ap (dispatch (parse_value levels)) (skip_ws-skip_ws c)

skip_end : (c : ℕ) (r : Bytes) → Ends c → skip_ws (c ∷ r) ≡ c ∷ r
unfolding skip_ws
skip_end c r (inl e) = rw e refl
skip_end c r (inr e) = rw e refl

-- One round of the reader's loop over a written member.
member_step :
    (levels fuel : ℕ) (key x : Bytes) (val : Json) (c : ℕ) (r : Bytes)
    → All IsChar key
    → Ends c
    → parse_value (suc levels) x ≡ some (val, c ∷ r)
    → object_loop (parse_value (suc levels)) (suc fuel) (json_str key ++ (b':' ∷ x))
      ≡ object_next (object_loop (parse_value (suc levels)) fuel) (scrub 0 key) val (c ∷ r)
unfolding object_loop behind
member_step levels fuel key x val c r hk ends h =
    let skipped : skip_ws (json_str key ++ (b':' ∷ x)) ≡ json_str key ++ (b':' ∷ x) =
      unfold skip_ws json_str in refl in
    let colon : skip_ws (b':' ∷ x) ≡ b':' ∷ x = unfold skip_ws in refl in
    rw
      (
        skipped,
        object_loop,
        parse_string_raw-json_str key (b':' ∷ x) hk,
        colon,
        behind,
        value-skip_ws levels x ∙ h,
        skip_end c r ends,
      )
      refl

last_member :
    (levels fuel : ℕ) (key x : Bytes) (val : Json) (r : Bytes)
    → All IsChar key
    → parse_value (suc levels) x ≡ some (val, b'}' ∷ r)
    → object_loop (parse_value (suc levels)) (suc fuel) (json_str key ++ (b':' ∷ x))
      ≡ some (field (scrub 0 key) val end, r)
last_member levels fuel key x val r hk h =
    member_step levels fuel key x val b'}' r hk (inr refl) h ∙ (unfold object_next in refl)

next_member :
    (levels fuel : ℕ) (key x : Bytes) (val : Json) (fields : Fields) (more r : Bytes)
    → All IsChar key
    → parse_value (suc levels) x ≡ some (val, b',' ∷ more)
    → object_loop (parse_value (suc levels)) fuel more ≡ some (fields, r)
    → object_loop (parse_value (suc levels)) (suc fuel) (json_str key ++ (b':' ∷ x))
      ≡ some (field (scrub 0 key) val fields, r)
unfolding object_next
next_member levels fuel key x val fields more r hk h rest =
    member_step levels fuel key x val b',' more hk (inl refl) h ∙ rw (rest, object_next) refl

-- A member and those behind it, with no comma in front.
abbrev object_tail : Platform → Property → List Property → Bytes
object_tail P it its = json_str it.key ++ (b':' ∷ (item_value P it ++ object_members P its false))

regroup :
    (key value more t : Bytes)
    → (key ++ (b':' ∷ (value ++ more))) ++ t ≡ key ++ (b':' ∷ (value ++ (more ++ t)))
regroup key value more t =
    append_assoc key (b':' ∷ (value ++ more)) t
    ∙ ap (λ z. key ++ (b':' ∷ z)) (append_assoc value more t)

many_bytes : (P : Platform) (its : List Property) → length its ≤ length (object_members P its false)
unfolding object_members
many_bytes P [] = omega arith
many_bytes P (it ∷ its) = omega (
  arith,
  many_bytes P its,
  length-append (json_cstr (some it.key)) (b':' ∷ (item_value P it ++ object_members P its false)),
  length-append (item_value P it) (object_members P its false),
)

object_body :
    (value : Bytes → Option (Json × Bytes)) (c : Bytes) (fields : Fields)
    → behind (codes "}") (skip_ws c) ≡ none
    → object_loop value (suc (length c)) (skip_ws c) ≡ some (fields, [])
    → parse_object value c ≡ some (obj fields, [])
unfolding parse_object
object_body value c fields n h = rw (n, parse_object, h) refl

whole_text :
    (c : Bytes) (j : Json)
    → parse_object (parse_value 128) c ≡ some (j, [])
    → parse (some (b'{' ∷ c)) ≡ some j
unfolding parse
whole_text c j h =
    let start : parse_value 129 (b'{' ∷ c) ≡ parse_object (parse_value 128) c =
      unfold parse_value skip_ws dispatch in refl in
    rw (start ∙ h, parse) (unfold skip_ws at_end in refl)

-- "%.*g" of a finite double is the text of a JSON number, whatever follows it in an object.
abbrev pub Prints : Platform → (ℕ → ℕ → Number) → Type 0
Prints P printed =
    (levels prec d c : ℕ) (r : Bytes)
    → P.is_finite d ≡ true
    → Ends c
    → parse_value (suc levels) (P.print_g prec d ++ (c ∷ r)) ≡ some (num (printed prec d), c ∷ r)

module _ (P : Platform) (printed : ℕ → ℕ → Number) where
  -- The tree of a value: the scrubbed text, the same integer, the same truth value. A double is a number
  -- that "%.*g" has printed, at a precision that reads as the same double or at 17 digits, and null
  -- where it is not finite.
  pub Means : Value → Json → Type 0
  Means (Set.str s) j = j ≡ str (scrub 0 s)
  Means (Set.double d) j =
      ((P.is_finite d ≡ false) × (j ≡ null))
      ⊎ ((prec : ℕ) × (P.is_finite d ≡ true)
          × (j ≡ num (printed prec d))
          × ((prec ≡ 17) ⊎ (P.reads_as (P.print_g prec d) d ≡ true)))
  Means (Set.int i) j =
      (n : Number) × (j ≡ num n)
      × (n.negative ≡ leb (2 ^ 63) i)
      × (value_of 0 n.whole ≡ (if ltb i (2 ^ 63) then i else 2 ^ 64 - i))
      × (n.fraction ≡ [])
      × (n.exp ≡ 0)
  Means (Set.boolean b) j = j ≡ boolean b
  Means (Set.other t) j = j ≡ null

  -- The members of the tree are the items, in order.
  pub MembersMean : List Property → Fields → Type 0
  unfolding Means
  MembersMean [] end = Unit
  MembersMean [] (field k j fields) = ⊥
  MembersMean (it ∷ its) end = ⊥
  MembersMean (it ∷ its) (field k j fields) =
      (k ≡ scrub 0 it.key) × Means it.value j × MembersMean its fields

module _ (P : Platform) (printed : ℕ → ℕ → Number) (prints : Prints P printed) where
  -- A text that reads as a tree, whatever follows in an object.
  ReadsAs : Bytes → Json → Type 0
  ReadsAs t j =
      (levels c : ℕ) (r : Bytes)
      → Ends c
      → parse_value (suc levels) (t ++ (c ∷ r)) ≡ some (j, c ∷ r)

  shortest_reads :
      (rounds prec d : ℕ)
      → P.is_finite d ≡ true
      → (p : ℕ) × ReadsAs (shortest P rounds prec d) (num (printed p d))
        × ((p ≡ 17) ⊎ (P.reads_as (P.print_g p d) d ≡ true))
  unfolding shortest ReadsAs
  shortest_reads zero prec d h = (17, (λ levels c r ends. prints levels 17 d c r h ends), inl refl)
  shortest_reads (suc rounds) prec d h = elim (Bool-cases (P.reads_as (P.print_g prec d) d)) [
    | inl same ↦ (prec, rw same (λ levels c r ends. prints levels prec d c r h ends), inr same)
    | inr other ↦
        let (p, reads, why) = shortest_reads rounds (suc prec) d h in (p, rw other reads, why)
  ]

  double_reads :
      (d : ℕ) → (j : Json) × ReadsAs (json_double P d) j × Means P printed (Set.double d) j
  unfolding json_double Means ReadsAs
  double_reads d = elim (Bool-cases (P.is_finite d)) [
    | inl finite ↦
        let (p, reads, why) = shortest_reads 16 1 d finite in
        (num (printed p d), rw finite reads, inr (p, finite, refl, why))
    | inr odd ↦ (null, rw odd (λ levels c r ends. read_null levels (c ∷ r)), inl (odd, refl))
  ]

  value_reads :
      (k : Bytes) (v : Value)
      → ValueFits v
      → (j : Json) × ReadsAs (item_value P (record { key = k; value = v })) j × Means P printed v j
  unfolding item_value Means ReadsAs json_cstr
  value_reads k (Set.str s) (h, len) =
      (str (scrub 0 s), (λ levels c r ends. read_str levels s (c ∷ r) h), refl)
  value_reads k (Set.double d) h = double_reads d
  value_reads k (Set.int i) h =
      let lem = int_number_lem i h in
      (
        num (int_number i),
        (λ levels c r ends. read_int levels i c r h ends),
        (int_number i, refl, lem.0, lem.1, lem.2, lem.3),
      )
  value_reads k (Set.boolean b) h =
      (boolean b, (λ levels c r ends. read_bool levels b (c ∷ r)), refl)
  value_reads k (Set.other t) h = absurd h

  -- The members behind the first one, with their closing brace.
  members_read :
      (levels fuel : ℕ) (it : Property) (its : List Property) (r : Bytes)
      → All ItemFits (it ∷ its)
      → length its < fuel
      → (fields : Fields) × (object_loop (parse_value (suc levels)) fuel (
            json_str it.key
            ++ (b':' ∷ (item_value P it ++ (object_members P its false ++ (b'}' ∷ r)))))
          ≡ some (fields, r))
        × MembersMean P printed (it ∷ its) fields
  unfolding object_members MembersMean ReadsAs json_cstr
  members_read levels zero it its r h lt = absurd (omega arith)
  members_read levels (suc fuel) it [] r ((hk, lk, hv), hs) lt =
      let (j, reads, means) = value_reads it.key it.value hv in
      (
        field (scrub 0 it.key) j end,
        last_member levels fuel it.key (item_value P it ++ (b'}' ∷ r)) j r hk
            (reads levels b'}' r (inr refl)),
        (refl, means, tt),
      )
  members_read levels (suc fuel) it (it2 ∷ its) r ((hk, lk, hv), hs) lt =
      let (j, reads, means) = value_reads it.key it.value hv in
      let (fields, rest, all) = members_read levels fuel it2 its r hs (omega arith) in
      (
        field (scrub 0 it.key) j fields,
        next_member levels fuel it.key
            (item_value P it ++ (b',' ∷ (object_tail P it2 its ++ (b'}' ∷ r)))) j fields
            (object_tail P it2 its ++ (b'}' ∷ r)) r hk (reads levels b',' _ (inl refl))
            (ap (object_loop (parse_value (suc levels)) fuel) (
                regroup (json_str it2.key) (item_value P it2) (object_members P its false)
                  (b'}' ∷ r))
              ∙ rest),
        (refl, means, all),
      )

  object_parses :
      (its : List Property)
      → All ItemFits its
      → (fields : Fields) × (parse (some (b'{' ∷ (object_members P its true ++ (b'}' ∷ []))))
          ≡ some (obj fields))
        × MembersMean P printed its fields
  unfolding object_members MembersMean json_cstr
  object_parses [] h =
      (end, whole_text (b'}' ∷ []) (obj end) (unfold parse_object skip_ws behind in refl), tt)
  object_parses (it ∷ its) h =
      let c = object_tail P it its ++ (b'}' ∷ []) in
      let text =
        regroup (json_str it.key) (item_value P it) (object_members P its false) (b'}' ∷ []) in
      let skipped : skip_ws c ≡ c = unfold skip_ws json_str in refl in
      let (fields, reads, all) = members_read 127 (suc (length c)) it its [] h (enough it its) in
      (
        fields,
        whole_text c (obj fields) (
            object_body (parse_value 128) c fields (unfold behind skip_ws json_str in refl)
              (ap (object_loop (parse_value 128) (suc (length c))) (skipped ∙ text) ∙ reads)),
        all,
      )
    where
      enough :
          (it : Property) (its : List Property)
          → length its < suc (length (object_tail P it its ++ (b'}' ∷ [])))
      enough it its = omega (
        arith,
        many_bytes P its,
        length-append (object_tail P it its) (b'}' ∷ []),
        length-append (json_str it.key) (b':' ∷ (item_value P it ++ object_members P its false)),
        length-append (item_value P it) (object_members P its false),
      )

  -- The JSON object of a valid property set is accepted by the library's own reader as an object whose
  -- members are the items, in order, where the C library prints finite doubles as JSON numbers: each
  -- key and text with what was not well-formed UTF-8 replaced by U+FFFD, each integer as the digits of
  -- its magnitude and its sign, each truth value as itself, each finite double as a number printed at a
  -- precision that reads back as it, or at 17 digits, and any other double as null.
  pub serialize_props_object-parse :
      (p : Props)
      → Set.IsValid p
      → (fields : Fields) × (parse (some (serialize_props_object P (some p))) ≡ some (obj fields))
        × MembersMean P printed p.items fields
  unfolding serialize_props_object
  serialize_props_object-parse p v = object_parses p.items v.fit
