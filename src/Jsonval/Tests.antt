-- ===== src/Jsonval/Tests.antt =====
-- Concrete texts, and the theorems of the JSON modules at concrete inputs.
use posthog_c.Base.{
  suc, ◌≤◌, ◌≡◌, refl, true, some, none, [], ◌∷◌, ◌++◌, length, arith, codes, Bytes,
}
use posthog_c.Json.{json_str, json_body, escape, utf8_seq_len, seq_len_two, is_continuation}
use posthog_c.Jsonval.{
  parse_string_raw, string_loop, string_step, escape_step, unicode_escape, hex4, hex_loop,
  hex_value, emit_code, low_surrogate, utf8_encode, utf8_valid, utf8_valid_from, valid_step,
  valid_two, valid_four, skip_ws,
}
use posthog_c.Jsonval.Value.{
  Json, null, boolean, arr, obj, nil, cons, end, field, parse, parse_value, dispatch, parse_array,
  parse_object, array_loop, object_loop, array_next, object_next, parse_literal, behind, at_end,
}
use posthog_c.Jsonval.Value.Depth.{depth, depth-parse}
use posthog_c.Jsonval.Value.Scalars.{Leaves}
use posthog_c.Jsonval.Value.Progress.{parse_value-Leaves, parse_loops_enough}
use posthog_c.Jsonval.Text.{valid_step-utf8_seq_len}
use posthog_c.Jsonval.RoundTrip.{scrub}
use posthog_c.Jsonval.Scrub.{parse_string_raw-json_str, parse_string_raw-json_str_valid}

-- A newline, a quote, and the two bytes of a letter with an accent.
abbrev text : Bytes
text = b'a' ∷ 10 ∷ b'"' ∷ 0xC3 ∷ 0xA9 ∷ []

text_written : json_str text ≡ b'"' ∷ b'a' ∷ b'\\' ∷ b'n' ∷ b'\\' ∷ b'"' ∷ 0xC3 ∷ 0xA9 ∷ b'"' ∷ []
unfolding json_str json_body escape utf8_seq_len seq_len_two is_continuation
text_written = refl

text_valid : utf8_valid text ≡ true
unfolding utf8_valid utf8_valid_from valid_step valid_two is_continuation
text_valid = refl

-- A surrogate pair is one code point of four bytes.
emoji_read :
    parse_string_raw (b'"' ∷ codes "\\uD83D\\uDE00" ++ (b'"' ∷ []))
    ≡ some (0xF0 ∷ 0x9F ∷ 0x98 ∷ 0x80 ∷ [], [])
unfolding parse_string_raw string_loop string_step escape_step unicode_escape hex4 hex_loop
    hex_value emit_code low_surrogate utf8_encode utf8_valid utf8_valid_from valid_step valid_four
    is_continuation
emoji_read = refl

lone_surrogate_rejected : parse_string_raw (b'"' ∷ codes "\\uD83D" ++ (b'"' ∷ [])) ≡ none
unfolding parse_string_raw string_loop string_step escape_step unicode_escape hex4 hex_loop
    hex_value low_surrogate
lone_surrogate_rejected = refl

abbrev response : Bytes
response = codes "{\"flags\": {\"beta\": [true, null]}}"

abbrev tree : Json
tree = obj (
    field (codes "flags")
      (obj (field (codes "beta") (arr (cons (boolean true) (cons null nil))) end)) end)

response_read : parse (some response) ≡ some tree
unfolding parse parse_value dispatch parse_array parse_object array_loop object_loop array_next
    object_next parse_literal behind at_end skip_ws parse_string_raw string_loop string_step
    utf8_valid utf8_valid_from valid_step
response_read = refl

depth-parse_example : depth tree ≤ 129
depth-parse_example = depth-parse response tree response_read

parse_value-Leaves_example : Leaves (length response) (parse_value 129 response)
parse_value-Leaves_example = parse_value-Leaves 129 response

parse_loops_enough_example :
    (array_loop (parse_value 128) 50 (skip_ws response)
      ≡ array_loop (parse_value 128) (suc (length response)) (skip_ws response))
    × (object_loop (parse_value 128) 50 (skip_ws response)
        ≡ object_loop (parse_value 128) (suc (length response)) (skip_ws response))
parse_loops_enough_example = parse_loops_enough 128 50 response (omega arith)

parse_string_raw-json_str_example :
    parse_string_raw (json_str (0xFF ∷ b'x' ∷ []) ++ (b',' ∷ []))
    ≡ some (scrub 0 (0xFF ∷ b'x' ∷ []), b',' ∷ [])
parse_string_raw-json_str_example =
    parse_string_raw-json_str (0xFF ∷ b'x' ∷ []) (b',' ∷ []) (omega arith)

parse_string_raw-json_str_valid_test :
    parse_string_raw (json_str text ++ (b',' ∷ [])) ≡ some (text, b',' ∷ [])
parse_string_raw-json_str_valid_test =
    parse_string_raw-json_str_valid text (b',' ∷ []) (omega arith) text_valid

valid_step-utf8_seq_len_example :
    valid_step 0xED (0xA0 ∷ 0x80 ∷ []) ≡ utf8_seq_len (0xED ∷ 0xA0 ∷ 0x80 ∷ [])
valid_step-utf8_seq_len_example = valid_step-utf8_seq_len 0xED (0xA0 ∷ 0x80 ∷ [])
