-- ===== src/Flow/Classify/Label.antt =====
-- Texts that a page carries: device labels and error messages, and the credential in a tile's script.
pub mod Clean
use himmelcloak.Prelude.{
  ℕ, zero, suc, ◌+◌, ◌-◌, Text, text, chars, encode, within, is_control, is_whitespace, trim,
  trim_end_matches, parse_unsigned, strip_prefix, null, any, filter, List, [], ◌∷◌, ◌++◌, Option,
  none, some, Bool, true, false, not, ◌==◌, leb, ◌&&◌, ◌||◌, if◌then◌else◌, bind,
}
use himmelcloak.Transport.{usize_limit}

-- The invisible formatting marks that the source lists by hand.
unfoldable pub is_formatting : ℕ → Bool
is_formatting c =
    (c == 0x061c)
    || within 0x200b 0x200f c
    || within 0x202a 0x202e c
    || within 0x2066 0x2069 c
    || (c == 0xfeff)

unfoldable pub keeps : ℕ → Bool
unfolding is_formatting
keeps c = not (is_control c) && not (is_formatting c)

-- `split_whitespace` joined by one space: `gap` says that words stand before, and a space is due
-- before the next.
unfoldable pub join_words : Bool → Bool → List ℕ → List ℕ
join_words started gap [] = []
join_words started gap (c ∷ cs) =
    let space = is_whitespace c in
    let rest = join_words (not space || started) (space && started) cs in
    if space then rest else (if gap then b' ' ∷ c ∷ rest else c ∷ rest)

-- `clean_label`, on code points
unfoldable pub clean_chars : List ℕ → List ℕ
unfolding keeps join_words
clean_chars cs = join_words false false (filter keeps cs)

-- `clean_label`
unfoldable pub clean_label : Text → Text
unfolding clean_chars
clean_label s = encode (clean_chars (chars s))

-- `strip_suffix` of one character
strip_last : ℕ → List ℕ → Option (List ℕ)
strip_last q [] = none
strip_last q (c ∷ []) = if c == q then some [] else none
strip_last q (c ∷ d ∷ s) = bind (strip_last q (d ∷ s)) λ r. some (c ∷ r)

-- `split_once(',')`
split_comma : List ℕ → Option (List ℕ × List ℕ)
split_comma [] = none
split_comma (c ∷ s) =
    let rest = split_comma s in
    if c == b',' then some ([], s) else bind rest λ p. some (c ∷ p.0, p.1)

is_quote : ℕ → Bool
is_quote c = (c == 39) || (c == 34)

-- The quotes are taken off, and none may stand inside.
unquote : List ℕ → Option Text
unquote [] = none
unquote (q ∷ s) =
    if is_quote q
    then (bind (strip_last q s)
        λ id. if null id || any (λ c. is_quote c || (c == 92)) id then none else some (encode id))
    else none

-- `toggle_credential`
unfoldable pub toggle_credential : Text → ℕ → Option Text
unfolding unquote split_comma strip_last is_quote
toggle_credential onclick index =
    bind
      (strip_prefix (text "toggleOTP(") (trim_end_matches (λ c. c == b';') (trim (chars onclick))))
      λ call. bind (strip_last b')' call) λ arguments. bind (split_comma arguments) λ parts.
        bind (parse_unsigned usize_limit (trim parts.0))
          λ position. if position == index then unquote (trim parts.1) else none
