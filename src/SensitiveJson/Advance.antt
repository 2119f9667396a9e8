-- ===== src/SensitiveJson/Advance.antt =====
-- Every value that is read takes some input.
use himmelcloak.Prelude.{
  ℕ, zero, suc, ◌+◌, ◌≤◌, ◌<◌, Text, text, length, strip_prefix, strip_prefix_lem, length-append,
  is_digit, [], ◌∷◌, Option, some, bind, bind-eq_some, Bool, true, false, ◌==◌, ◌||◌, Option-cases,
  inl, inr, ◌≡◌, refl, ap, arith,
}
use himmelcloak.Token.Value.{Value, Values, Members, boolean, string, no_member, no_item}
use himmelcloak.SensitiveJson.{
  whitespace, literal, number_span, push, read_member, separator, members, elements, parse_object,
  parse_array, parse_number, dispatch, parse_first, value,
}
use himmelcloak.SensitiveJson.Strings.{consume, parse_string}
use himmelcloak.SensitiveJson.Escapes.{consume-length, parse_string-length}

abbrev pub Reader : Type 0
Reader = Text → Option (Value × Text)

pub length-whitespace : (s : Text) → length (whitespace s) ≤ length s
unfolding whitespace
length-whitespace [] = omega arith
length-whitespace (c ∷ s) = ground (arith, length-whitespace s)

-- A value that is read takes some input.
abbrev pub Advances : Reader → Type 0
Advances read =
    (s : Text) (v : Value) (rest : Text) → read s ≡ some (v, rest) → length rest < length s

pub separator-length :
    (close : ℕ) (s : Text) (done : Bool) (rest : Text)
    → separator close s ≡ some (done, rest)
    → length rest < length s
unfolding separator
separator-length close s done rest h = elim (Option-cases (consume close (whitespace s))) [
  | inr (r, e) ↦ ground (arith, consume-length close (whitespace s) r e, length-whitespace s)
  | inl e ↦ elim (Option-cases (consume b',' (whitespace s))) [
    | inr (r, e') ↦ ground (arith, consume-length b',' (whitespace s) r e', length-whitespace s)
    | inl e' ↦ absurd (ground arith)
  ]
]

module _ (read : Reader) (step : Advances read) where
  pub read_member-length :
      (seen : Members) (s : Text) (seen' : Members) (rest : Text)
      → read_member read seen s ≡ some (seen', rest)
      → length rest < length s
  unfolding read_member
  read_member-length seen s seen' rest h = bind-eq_some (parse_string s) _ h λ (key, s1) p h1.
      bind-eq_some (consume b':' (whitespace s1)) _ h1 λ s2 q h2. elim (Option-cases (read s2)) [
        | inl r ↦ absurd (ground arith)
        | inr ((u, s3), r) ↦ ground (
          arith,
          parse_string-length s key s1 p,
          length-whitespace s1,
          consume-length b':' (whitespace s1) s2 q,
          step s2 u s3 r,
        )
      ]

  members-Advances : (fuel : ℕ) (seen : Members) → Advances (members read fuel seen)
  unfolding members
  members-Advances zero seen s v rest h = absurd (ground arith)
  members-Advances (suc fuel) seen s v rest h =
      bind-eq_some (read_member read seen s) _ h λ (seen', s1) p h1.
        bind-eq_some (separator b'}' s1) _ h1 λ (done, s2) q h2.
          (let a = read_member-length seen s seen' s1 p in
            let b = separator-length b'}' s1 done s2 q in
            ground
              (arith, members-Advances fuel seen' (whitespace s2) v rest, length-whitespace s2))

  elements-Advances : (fuel : ℕ) (seen : Values) → Advances (elements read fuel seen)
  unfolding elements
  elements-Advances zero seen s v rest h = absurd (ground arith)
  elements-Advances (suc fuel) seen s v rest h = bind-eq_some (read s) _ h λ (u, s1) p h1.
      bind-eq_some (separator b']' s1) _ h1 λ (done, s2) q h2.
        (let a = step s u s1 p in
          let b = separator-length b']' s1 done s2 q in
          ground (arith, elements-Advances fuel (push seen u) s2 v rest))

  parse_object-length : (fuel : ℕ) → Advances (parse_object read fuel)
  unfolding parse_object
  parse_object-length fuel s v rest h = elim (Option-cases (consume b'}' (whitespace s))) [
    | inr (r, e) ↦ ground (arith, consume-length b'}' (whitespace s) r e, length-whitespace s)
    | inl e ↦
        ground (arith, members-Advances fuel no_member (whitespace s) v rest, length-whitespace s)
  ]

  parse_array-length : (fuel : ℕ) → Advances (parse_array read fuel)
  unfolding parse_array
  parse_array-length fuel s v rest h = elim (Option-cases (consume b']' (whitespace s))) [
    | inr (r, e) ↦ ground (arith, consume-length b']' (whitespace s) r e, length-whitespace s)
    | inl e ↦
        ground (arith, elements-Advances fuel no_item (whitespace s) v rest, length-whitespace s)
  ]

literal-length :
    (word : Text) (w : Value) (s : Text) (v : Value) (rest : Text)
    → literal word w s ≡ some (v, rest)
    → length s ≡ length word + length rest
unfolding literal
literal-length word w s v rest h =
    bind-eq_some (strip_prefix word s) _ h
      λ r p h1. ground (arith, ap length (strip_prefix_lem word s p), length-append word r)

number_span-length : (s : Text) → length (number_span s).0 + length (number_span s).1 ≡ length s
unfolding number_span
number_span-length [] = refl
number_span-length (c ∷ s) = ground (arith, number_span-length s)

word-Advances : (word : Text) (w : Value) → 0 < length word → Advances (literal word w)
word-Advances word w p s v rest h = omega (arith, literal-length word w s v rest h)

true-Advances : Advances (literal (text "true") (boolean true))
unfolding text
true-Advances = word-Advances (text "true") (boolean true) (omega arith)

false-Advances : Advances (literal (text "false") (boolean false))
unfolding text
false-Advances = word-Advances (text "false") (boolean false) (omega arith)

null-Advances : Advances (literal (text "null") Value.null)
unfolding text
null-Advances = word-Advances (text "null") Value.null (omega arith)

module _ (number_of : Text → Option (Option ℕ)) where
  parse_number-Advances :
      (c : ℕ) (s : Text) (v : Value) (rest : Text)
      → ((c == b'-') || is_digit c) ≡ true
      → parse_number number_of (c ∷ s) ≡ some (v, rest)
      → length rest < length (c ∷ s)
  unfolding parse_number number_span
  parse_number-Advances c s v rest q h =
      bind-eq_some (number_of (number_span (c ∷ s)).0) _ h
        λ n p h1. ground (arith, number_span-length s)

  string-Advances :
      (s : Text) (v : Value) (rest : Text)
      → bind {B = Value × Text} (parse_string s) (λ (t, rest). some (string t, rest))
        ≡ some (v, rest)
      → length rest < length s
  string-Advances s v rest h =
      bind-eq_some (parse_string s) _ h λ (t, r) p h1. ground (arith, parse_string-length s t r p)

  module _ (read : Reader) (step : Advances read) (fuel : ℕ) where
    dispatch-Advances :
        (c : ℕ) (s : Text) (v : Value) (rest : Text)
        → dispatch number_of read fuel c s ≡ some (v, rest)
        → length rest < length (c ∷ s)
    unfolding dispatch
    dispatch-Advances c s v rest h = ground (
      arith,
      parse_object-length read step fuel s v rest,
      parse_array-length read step fuel s v rest,
      string-Advances (c ∷ s) v rest,
      true-Advances (c ∷ s) v rest,
      false-Advances (c ∷ s) v rest,
      null-Advances (c ∷ s) v rest,
      parse_number-Advances c s v rest,
    )

    parse_first-Advances : Advances (parse_first number_of read fuel)
    unfolding parse_first
    parse_first-Advances [] v rest h = absurd (ground arith)
    parse_first-Advances (c ∷ s) v rest h = dispatch-Advances c s v rest h

  -- A value that is read takes at least one byte.
  pub value-Advances : (fuel levels : ℕ) → Advances (value number_of fuel levels)
  unfolding value
  value-Advances fuel zero s v rest h = absurd (ground arith)
  value-Advances fuel (suc levels) s v rest h = omega (
    arith,
    parse_first-Advances (value number_of fuel levels) (value-Advances fuel levels) fuel
        (whitespace s) v rest h,
    length-whitespace s,
  )
