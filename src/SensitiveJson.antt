-- ===== src/SensitiveJson.antt =====
-- The JSON parser that keeps no plaintext copies (src/sensitive_json.rs). A position in the input is the
-- rest of the input from there. `number_of` is serde_json's reading of a number, by `as_u64`.
pub mod Strings
pub mod Escapes
pub mod Advance
pub mod Fuel
pub mod Orderly
use himmelcloak.Prelude.{
  ℕ, zero, suc, ◌≤◌, Text, text, text_eq, length, strip_prefix, null, is_digit, List, [], ◌∷◌,
  Option, none, some, bind, Bool, true, false, is_some, ◌==◌, ◌||◌, if◌then◌else◌,
}
use himmelcloak.Token.Value.{
  Value, Values, Members, boolean, number, string, array, object, no_item, item, no_member, member,
  lookup,
}
use himmelcloak.SensitiveJson.Strings.{parse_string, consume}

-- `whitespace`
unfoldable pub whitespace : Text → Text
whitespace [] = []
whitespace (c ∷ s) =
    let rest = whitespace s in
    if (c == 0x20) || (c == 0x0a) || (c == 0x0d) || (c == 0x09) then rest else c ∷ s

-- `literal`
unfoldable pub literal : Text → Value → Text → Option (Value × Text)
literal word v s = bind (strip_prefix word s) λ rest. some (v, rest)

abbrev numeric : ℕ → Bool
numeric c = (c == b'-') || (c == b'+') || (c == b'.') || (c == b'e') || (c == b'E') || is_digit c

-- The bytes of a number, and the rest.
unfoldable pub number_span : Text → Text × Text
number_span [] = ([], [])
number_span (c ∷ s) =
    let (run, rest) = number_span s in if numeric c then (c ∷ run, rest) else ([], c ∷ s)

-- `insert` of a new key.
unfoldable pub insert : Members → Text → Value → Members
insert no_member key v = member key v no_member
insert (member k u more) key v = member k u (insert more key v)

-- `push`
unfoldable pub push : Values → Value → Values
push no_item v = item v no_item
push (item u more) v = item u (push more v)

-- What follows a member or an item: the closing byte (`true`), or a comma.
unfoldable pub separator : ℕ → Text → Option (Bool × Text)
separator close s = elim (consume close (whitespace s)) [
  | some rest ↦ some (true, rest)
  | none ↦ bind (consume b',' (whitespace s)) λ rest. some (false, rest)
]

module _ (read : Text → Option (Value × Text)) where
  -- A key, which must be new, and its value.
  unfoldable pub read_member : Members → Text → Option (Members × Text)
  read_member seen s = bind (parse_string s) λ (key, s1). bind (consume b':' (whitespace s1)) λ s2.
      if is_some (lookup seen key)
      then none
      else bind (read s2) λ (v, s3). some (insert seen key v, s3)

  -- The loop of `object`, after the members so far.
  unfoldable pub members : ℕ → Members → Text → Option (Value × Text)
  members zero seen s = none
  members (suc fuel) seen s = bind (read_member seen s) λ (seen', s1).
      bind (separator b'}' s1) λ (done, s2).
        (let again = members fuel seen' (whitespace s2) in
          if done then some (object seen', s2) else again)

  -- The loop of `array`, after the items so far.
  unfoldable pub elements : ℕ → Values → Text → Option (Value × Text)
  elements zero seen s = none
  elements (suc fuel) seen s = bind (read s) λ (v, s1). bind (separator b']' s1) λ (done, s2).
      (let again = elements fuel (push seen v) s2 in
        if done then some (array (push seen v), s2) else again)

  -- `object`, past the brace
  unfoldable pub parse_object : ℕ → Text → Option (Value × Text)
  parse_object fuel s = elim (consume b'}' (whitespace s)) [
    | some rest ↦ some (object no_member, rest)
    | none ↦ members fuel no_member (whitespace s)
  ]

  -- `array`, past the bracket
  unfoldable pub parse_array : ℕ → Text → Option (Value × Text)
  parse_array fuel s = elim (consume b']' (whitespace s)) [
    | some rest ↦ some (array no_item, rest)
    | none ↦ elements fuel no_item (whitespace s)
  ]

module _ (number_of : Text → Option (Option ℕ)) where
  -- `number`
  unfoldable pub parse_number : Text → Option (Value × Text)
  parse_number s =
      let (run, rest) = number_span s in bind (number_of run) λ n. some (number n, rest)

  -- The `match` of `value` on the first byte `c` of the input `c ∷ s`.
  unfoldable pub dispatch : (Text → Option (Value × Text)) → ℕ → ℕ → Text → Option (Value × Text)
  dispatch read fuel c s =
      if c == b'{'
      then parse_object read fuel s
      else (if c == b'['
          then parse_array read fuel s
          else (if c == 34
              then (bind (parse_string (c ∷ s)) λ (t, rest). some (string t, rest))
              else (if c == b't'
                  then literal (text "true") (boolean true) (c ∷ s)
                  else (if c == b'f'
                      then literal (text "false") (boolean false) (c ∷ s)
                      else (if c == b'n'
                          then literal (text "null") Value.null (c ∷ s)
                          else (if (c == b'-') || is_digit c
                              then parse_number (c ∷ s)
                              else none))))))

  -- What `value` does past the whitespace.
  unfoldable pub parse_first : (Text → Option (Value × Text)) → ℕ → Text → Option (Value × Text)
  unfolding dispatch
  parse_first read fuel [] = none
  parse_first read fuel (c ∷ s) = dispatch read fuel c s

  -- `value` at depth `129 - levels`, so that none is left at depth 129; `fuel` bounds the loops.
  unfoldable pub value : ℕ → ℕ → Text → Option (Value × Text)
  unfolding parse_first
  value fuel zero s = none
  value fuel (suc levels) s = parse_first (value fuel levels) fuel (whitespace s)

  unfoldable pub parse_with : ℕ → Text → Option Value
  parse_with fuel s =
      bind (value fuel 129 s) λ (v, rest). if null (whitespace rest) then some v else none

  -- `parse`: a loop takes at most one round for each byte.
  unfoldable pub parse : Text → Option Value
  unfolding parse_with
  parse s = parse_with (length s) s

mutual
  -- `clear_claims`
  clear_claims : Value → Value
  clear_claims (string t) = string []
  clear_claims (array vs) = array (clear_items vs)
  clear_claims (object ms) = object no_member
  clear_claims v = v

  clear_items : Values → Values
  clear_items no_item = no_item
  clear_items (item v more) = item (clear_claims v) (clear_items more)
