-- ===== src/Serialize/Tests.antt =====
-- The theorem on src/ph_serialize.c at a small set, and one event as text.
use posthog_c.Base.{◌-◌, ◌^◌, ◌≡◌, inl, inr, refl, true, false, some, [], ◌∷◌, codes, arith}
use posthog_c.Jsonval.Value.{
  obj, Fields, Number, parse, parse_value, dispatch, parse_number, number_sign, number_whole,
  digits, number_fraction, number_exponent,
}
use posthog_c.Props as Set
use posthog_c.Props.{Property, Props}
use posthog_c.Jsonval.{skip_ws}
use posthog_c.Json.{json_cstr, json_str, json_body, escape, utf8_seq_len, json_bool}
use posthog_c.Serialize.{
  Platform, serialize_props_object, object_members, item_value, json_int, decimal, json_double,
  shortest,
}
use posthog_c.Serialize.Object.{Prints, MembersMean, serialize_props_object-parse}

-- A C library that prints every double as 1.
abbrev ones : Platform
ones = record {
  os = codes "Linux";
  arch = codes "x86_64";
  gmtime = λ s. record { year = 2024; month = 1; day = 1; hour = 0; minute = 0; second = 0 };
  is_finite = λ d. true;
  print_g = λ prec d. codes "1";
  reads_as = λ t d. false;
}

abbrev one : Number
one = record { negative = false; whole = 1 ∷ []; fraction = []; exp_negative = false; exp = 0 }

ones-Prints : Prints ones (λ prec d. one)
unfolding parse_value skip_ws dispatch parse_number number_sign number_whole digits number_fraction
    number_exponent
ones-Prints levels prec d c r finite (inl e) = rw e refl
ones-Prints levels prec d c r finite (inr e) = rw e refl

abbrev mixed : Props
mixed = record {
  items =
      record { key = codes "name"; value = Set.str (codes "a\"b") }
      ∷ record { key = codes "n"; value = Set.int (2 ^ 64 - 5) }
      ∷ record { key = codes "d"; value = Set.double 7 }
      ∷ record { key = codes "b"; value = Set.boolean true }
      ∷ [];
  dropped = 0;
}

mixed-IsValid : Set.IsValid mixed
mixed-IsValid = ground arith

serialize_props_object-parse_example :
    (fields : Fields) × (parse (some (serialize_props_object ones (some mixed)))
      ≡ some (obj fields))
    × MembersMean ones (λ prec d. one) mixed.items fields
serialize_props_object-parse_example =
    serialize_props_object-parse ones (λ prec d. one) ones-Prints mixed mixed-IsValid

mixed_text :
    serialize_props_object ones (some mixed)
    ≡ codes "{\"name\":\"a\\\"b\",\"n\":-5,\"d\":1,\"b\":true}"
unfolding serialize_props_object object_members item_value json_cstr json_str json_body escape
    utf8_seq_len json_int decimal json_double shortest json_bool
mixed_text = refl
