-- ===== src/Examples/Json.antt =====
-- JSON texts.
use himmelcloak.Prelude.{
  ℕ, Text, text, text_eq, [], ◌∷◌, Option, none, some, parse_unsigned, u64_limit, ◌≡◌, refl,
  strip_prefix, decode, encode_char,
}
use himmelcloak.Token.Value.{
  Value, number, string, array, object, item, no_item, member, no_member, lookup,
}
use himmelcloak.SensitiveJson.{
  parse, value, parse_object, parse_array, members, elements, read_member, separator, parse_number,
  number_span, literal, insert, push, whitespace,
}
use himmelcloak.SensitiveJson.Strings.{parse_string, consume, unescape, hex4}
use himmelcloak.SensitiveJson.Orderly.{IsOrderly, parse-IsOrderly}

-- Whole numbers of 64 bits; any other number has no such reading.
abbrev pub digits_only : Text → Option (Option ℕ)
digits_only t = some (parse_unsigned u64_limit t)

abbrev sample : Text
sample = text "{\"a\": [1, null], \"b\\n\": \"\\u00e9\\ud83d\\ude00\"} "

abbrev sample_value : Value
sample_value = object (
    member (text "a") (array (item (number (some 1)) (item Value.null no_item)))
      (member (98 ∷ 10 ∷ []) (string (0xc3 ∷ 0xa9 ∷ 0xf0 ∷ 0x9f ∷ 0x98 ∷ 0x80 ∷ [])) no_member))

sample_parsed : parse digits_only sample ≡ some sample_value
unfolding parse value whitespace text parse_object consume members read_member parse_string unescape
    decode lookup parse_array elements parse_number separator number_span strip_prefix text_eq
    encode_char insert literal push hex4 parse_unsigned
sample_parsed = refl

duplicate_refused : parse digits_only (text "{\"a\":1,\"a\":2}") ≡ none
unfolding parse value whitespace text parse_object consume members read_member parse_string unescape
    decode lookup parse_array elements parse_number separator number_span strip_prefix text_eq
    encode_char insert literal push hex4 parse_unsigned
duplicate_refused = refl

parse-IsOrderly_example : IsOrderly 0 sample_value
parse-IsOrderly_example = parse-IsOrderly digits_only sample sample_parsed

abbrev short : Text
short = text "[1]"

abbrev quoted : Text
quoted = text "\"\\u00e9\" "

quoted_read : parse_string quoted ≡ some (0xc3 ∷ 0xa9 ∷ [], 32 ∷ [])
unfolding parse_string text unescape hex4 decode encode_char
quoted_read = refl

abbrev letter : Text
letter = 0xc3 ∷ 0xa9 ∷ []

abbrev space : Text
space = 32 ∷ []
