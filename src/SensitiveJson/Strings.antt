-- ===== src/SensitiveJson/Strings.antt =====
-- Strings with escapes: `string` and `hex4` of src/sensitive_json.rs.
use himmelcloak.Prelude.{
  ℕ, zero, suc, ◌+◌, ◌-◌, ◌*◌, Text, length, [], ◌∷◌, ◌++◌, Option, none, some, bind, Bool, true,
  false, is_some, ◌==◌, ltb, ◌&&◌, ◌||◌, if◌then◌else◌, within, is_scalar, encode_char, decode,
}

-- `consume`: what follows the byte, when it is next.
unfoldable pub consume : ℕ → Text → Option Text
consume c [] = none
consume c (d ∷ s) = if c == d then some s else none

-- The value of a hexadecimal digit.
unfoldable pub hex_digit : ℕ → Option ℕ
hex_digit d =
    if within b'0' b'9' d
    then some (d - b'0')
    else (if within b'a' b'f' d
        then some (d - b'a' + 10)
        else (if within b'A' b'F' d then some (d - b'A' + 10) else none))

-- `hex4`. A digit is less than 16, so that `(value << 4) | digit` is a sum.
unfoldable pub hex4 : Text → Option (ℕ × Text)
unfolding hex_digit
hex4 (a ∷ b ∷ c ∷ d ∷ s) = bind (hex_digit a) λ i.
    bind (hex_digit b) λ j.
      bind (hex_digit c) λ k. bind (hex_digit d) λ l. some (((i * 16 + j) * 16 + k) * 16 + l, s)
hex4 _ = none

-- The second half of a surrogate pair.
unfoldable pub low_half : ℕ → Text → Option (ℕ × Text)
low_half high (a ∷ b ∷ s) =
    if (a == 92) && (b == b'u')
    then (bind (hex4 s) λ (low, rest).
        if within 0xdc00 0xdfff low
        then some (0x10000 + (high - 0xd800) * 1024 + low - 0xdc00, rest)
        else none)
    else none
low_half high _ = none

-- The code point of `\u`, past the letter.
unfoldable pub codepoint : Text → Option (ℕ × Text)
unfolding low_half
codepoint s =
    bind (hex4 s) λ (c, rest). if within 0xd800 0xdbff c then low_half c rest else some (c, rest)

unfoldable pub unicode_escape : Text → Option (Text × Text)
unfolding codepoint
unicode_escape s =
    bind (codepoint s) λ (c, rest). if is_scalar c then some (encode_char c, rest) else none

-- What stands for an escape, past the backslash.
unfoldable pub escape : Text → Option (Text × Text)
unfolding unicode_escape
escape [] = none
escape (c ∷ s) =
    if (c == 34) || (c == 92) || (c == b'/')
    then some (c ∷ [], s)
    else (if c == b'b'
        then some (8 ∷ [], s)
        else (if c == b'f'
            then some (12 ∷ [], s)
            else (if c == b'n'
                then some (10 ∷ [], s)
                else (if c == b'r'
                    then some (13 ∷ [], s)
                    else (if c == b't'
                        then some (9 ∷ [], s)
                        else (if c == b'u' then unicode_escape s else none))))))

-- One round of the decoding loop, at the byte `c`.
unfoldable pub decode_next : ℕ → Text → Option (Text × Text)
unfolding escape
decode_next c s = if ltb c 0x20 then none else (if c == 92 then escape s else some (c ∷ [], s))

-- The decoding loop.
unfoldable pub unescape : ℕ → Text → Option Text
unfolding decode_next
unescape fuel [] = some []
unescape zero (c ∷ s) = none
unescape (suc fuel) (c ∷ s) =
    bind (decode_next c s) λ (out, rest). bind (unescape fuel rest) λ more. some (out ++ more)

keep : ℕ → Text × Text → Option (Text × Text)
keep c (raw, rest) = some (c ∷ raw, rest)

-- The bytes up to the quote that ends the string, and what follows it. After a backslash any byte is passed over.
unfoldable pub scan : Bool → Text → Option (Text × Text)
unfolding keep
scan escaped [] = none
scan true (c ∷ s) = bind (scan false s) (keep c)
scan false (c ∷ s) =
    let rest = scan (c == 92) s in if c == 34 then some ([], s) else bind rest (keep c)

-- `String::from_utf8` of the decoded bytes.
unfoldable pub decode_string : Text → Option Text
decode_string raw =
    bind (unescape (length raw) raw) λ bytes. if is_some (decode bytes) then some bytes else none

-- `string`
unfoldable pub parse_string : Text → Option (Text × Text)
unfolding consume scan decode_string
parse_string s =
    bind (consume 34 s)
      λ s1. bind (scan false s1) λ (raw, rest). bind (decode_string raw) λ t. some (t, rest)
