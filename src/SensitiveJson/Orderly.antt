-- ===== src/SensitiveJson/Orderly.antt =====
-- What an accepted input can yield: bounded depth, unique keys, valid strings.
use himmelcloak.Prelude.{
  ℕ, zero, suc, ◌+◌, ◌≤◌, Text, text, text_eq, text_eq_sound, text_eq_complete, decode, is_digit,
  [], ◌∷◌, Option, none, some, bind-eq_some, Bool, true, false, is_some, ◌==◌, ◌||◌, if◌then◌else◌,
  Option-cases, Bool-cases, inl, inr, ◌≡◌, refl, sym, arith, strip_prefix, length,
}
use mathlib.Core.Path.{subst}
use himmelcloak.Token.Value.{
  Value, Values, Members, boolean, number, string, array, object, no_item, item, no_member, member,
  lookup,
}
use himmelcloak.SensitiveJson.{
  whitespace, literal, number_span, insert, push, read_member, separator, members, elements,
  parse_object, parse_array, parse_number, dispatch, parse_first, value, parse_with, parse,
}
use himmelcloak.SensitiveJson.Strings.{consume, parse_string}
use himmelcloak.SensitiveJson.Escapes.{parse_string-valid}
use himmelcloak.SensitiveJson.Advance.{Reader}

abbrev IsUtf8 : Text → Type 0
IsUtf8 t = is_some (decode t) ≡ true

mutual
  -- A value at a depth of at most 128, and what it holds below: valid strings, and objects whose keys are unique.
  pub IsOrderly : ℕ → Value → Type 0
  IsOrderly d (string t) = (d ≤ 128) × IsUtf8 t
  IsOrderly d (array vs) = (d ≤ 128) × AreOrderly (suc d) vs
  IsOrderly d (object ms) = (d ≤ 128) × HasOrderly (suc d) ms
  IsOrderly d Value.null = d ≤ 128
  IsOrderly d (boolean b) = d ≤ 128
  IsOrderly d (number n) = d ≤ 128

  AreOrderly : ℕ → Values → Type 0
  AreOrderly d no_item = Unit
  AreOrderly d (item v more) = IsOrderly d v × AreOrderly d more

  HasOrderly : ℕ → Members → Type 0
  HasOrderly d no_member = Unit
  HasOrderly d (member k v more) =
      IsUtf8 k × (lookup more k ≡ none) × IsOrderly d v × HasOrderly d more

push-AreOrderly :
    (d : ℕ) (vs : Values) (v : Value) → AreOrderly d vs → IsOrderly d v → AreOrderly d (push vs v)
unfolding push IsOrderly
push-AreOrderly d no_item v h k = (k, tt)
push-AreOrderly d (item u more) v (a, b) k = (a, push-AreOrderly d more v b k)

lookup-insert_other :
    (ms : Members) (key k : Text) (v : Value)
    → text_eq key k ≡ false
    → lookup ms k ≡ none
    → lookup (insert ms key v) k ≡ none
unfolding lookup insert
lookup-insert_other no_member key k v h e = rw h refl
lookup-insert_other (member k' u more) key k v h e =
    ground (arith, lookup-insert_other more key k v h)

text_eq-swap : (s t : Text) → text_eq s t ≡ false → text_eq t s ≡ false
text_eq-swap s t h = elim (Bool-cases (text_eq t s)) [
  | inl e ↦ (let q = text_eq_complete s t (sym (text_eq_sound t s e)) in absurd (ground arith))
  | inr e ↦ e
]

insert-HasOrderly :
    (d : ℕ) (ms : Members) (key : Text) (v : Value)
    → HasOrderly d ms
    → is_some (lookup ms key) ≡ false
    → IsUtf8 key
    → IsOrderly d v
    → HasOrderly d (insert ms key v)
unfolding insert lookup IsOrderly
insert-HasOrderly d no_member key v h e u o = (u, refl, o, tt)
insert-HasOrderly d (member k w more) key v (a, b, c, rest_ok) e u o =
    elim (Bool-cases (text_eq k key)) [
      | inl q ↦ absurd (ground arith)
      | inr q ↦ (
        a,
        lookup-insert_other more key k v (text_eq-swap k key q) b,
        c,
        insert-HasOrderly d more key v rest_ok (rw q at e) u o,
      )
    ]

-- What holds of each branch of nested tests holds of the branch that is taken.
if_sound :
    {A : Type 0} (P : A → Type 0) (b : Bool) (x y : Option A) {a : A}
    → (if b then x else y) ≡ some a
    → (x ≡ some a → P a)
    → (y ≡ some a → P a)
    → P a
if_sound P true x y h f g = f h
if_sound P false x y h f g = g h

-- What a reader yields at a depth is orderly.
abbrev Sound : ℕ → Reader → Type 0
Sound d read = (s : Text) (v : Value) (rest : Text) → read s ≡ some (v, rest) → IsOrderly d v

module _ (read : Reader) (d : ℕ) (p : d ≤ 128) (sound : Sound (suc d) read) where
  read_member-HasOrderly :
      (seen : Members) (s : Text) (seen' : Members) (rest : Text)
      → HasOrderly (suc d) seen
      → read_member read seen s ≡ some (seen', rest)
      → HasOrderly (suc d) seen'
  unfolding read_member
  read_member-HasOrderly seen s seen' rest o h = bind-eq_some (parse_string s) _ h λ (key, s1) a h1.
      bind-eq_some (consume b':' (whitespace s1)) _ h1 λ s2 b h2.
        elim (Bool-cases (is_some (lookup seen key))) [
          | inl e ↦ absurd (ground arith)
          | inr e ↦
              bind-eq_some (read s2) (λ ((v, s3) : Value × Text). some (insert seen key v, s3))
                (rw e at h2)
                λ (v, s3) c h3.
                  (let same : insert seen key v ≡ seen' = cc in
                    rw (← same) (
                      insert-HasOrderly (suc d) seen key v o e (parse_string-valid s key s1 a)
                        (sound s2 v s3 c)))
        ]

  members-Sound :
      (fuel : ℕ) (seen : Members) → HasOrderly (suc d) seen → Sound d (members read fuel seen)
  unfolding members IsOrderly
  members-Sound zero seen o s v rest h = absurd (ground arith)
  members-Sound (suc fuel) seen o s v rest h =
      bind-eq_some (read_member read seen s) _ h λ (seen', s1) a h1.
        (let o' = read_member-HasOrderly seen s seen' s1 o a in
          bind-eq_some (separator b'}' s1) _ h1 λ (done, s2) b h2.
            if_sound (λ (x : Value × Text). IsOrderly d x.0) done _ _ h2
              (λ e. let same : object seen' ≡ v = cc in subst (IsOrderly d) same (p, o'))
              (members-Sound fuel seen' o' (whitespace s2) v rest))

  elements-Sound :
      (fuel : ℕ) (seen : Values) → AreOrderly (suc d) seen → Sound d (elements read fuel seen)
  unfolding elements IsOrderly
  elements-Sound zero seen o s v rest h = absurd (ground arith)
  elements-Sound (suc fuel) seen o s v rest h = bind-eq_some (read s) _ h λ (u, s1) a h1.
      (let o' = push-AreOrderly (suc d) seen u o (sound s u s1 a) in
        bind-eq_some (separator b']' s1) _ h1 λ (done, s2) b h2.
          if_sound (λ (x : Value × Text). IsOrderly d x.0) done _ _ h2
            (λ e. let same : array (push seen u) ≡ v = cc in subst (IsOrderly d) same (p, o'))
            (elements-Sound fuel (push seen u) o' s2 v rest))

  parse_object-Sound : (fuel : ℕ) → Sound d (parse_object read fuel)
  unfolding parse_object IsOrderly
  parse_object-Sound fuel s v rest h = elim (Option-cases (consume b'}' (whitespace s))) [
    | inr (r, e) ↦
        (let same : object no_member ≡ v = ground arith in subst (IsOrderly d) same (p, tt))
    | inl e ↦ members-Sound fuel no_member tt (whitespace s) v rest (ground arith)
  ]

  parse_array-Sound : (fuel : ℕ) → Sound d (parse_array read fuel)
  unfolding parse_array IsOrderly
  parse_array-Sound fuel s v rest h = elim (Option-cases (consume b']' (whitespace s))) [
    | inr (r, e) ↦ (let same : array no_item ≡ v = ground arith in subst (IsOrderly d) same (p, tt))
    | inl e ↦ elements-Sound fuel no_item tt (whitespace s) v rest (ground arith)
  ]

literal-value :
    (word : Text) (w : Value) (s : Text) (v : Value) (rest : Text)
    → literal word w s ≡ some (v, rest)
    → w ≡ v
unfolding literal
literal-value word w s v rest h = bind-eq_some (strip_prefix word s) _ h λ r a h1. cc

module _ (number_of : Text → Option (Option ℕ)) (read : Reader) (d : ℕ) (p : d ≤ 128)
    (sound : Sound (suc d) read) (fuel : ℕ) where
  parse_number-Sound : Sound d (parse_number number_of)
  unfolding parse_number IsOrderly
  parse_number-Sound s v rest h =
      bind-eq_some (number_of (number_span s).0) _ h
        λ n a h1. (let same : number n ≡ v = cc in subst (IsOrderly d) same p)

  dispatch-Sound :
      (c : ℕ) (s : Text) (v : Value) (rest : Text)
      → dispatch number_of read fuel c s ≡ some (v, rest)
      → IsOrderly d v
  unfolding dispatch IsOrderly
  dispatch-Sound c s v rest h =
      let P : Value × Text → Type 0 = λ x. IsOrderly d x.0 in
      let words =
        λ (w : Value) (o : IsOrderly d w) (word : Text)
            (e : literal word w (c ∷ s) ≡ some (v, rest)).
          subst (IsOrderly d) (literal-value word w (c ∷ s) v rest e) o in
      if_sound P (c == b'{') _ _ h (parse_object-Sound read d p sound fuel s v rest) λ h1.
        if_sound P (c == b'[') _ _ h1 (parse_array-Sound read d p sound fuel s v rest) λ h2.
          if_sound P (c == 34) _ _ h2
            (λ e. bind-eq_some (parse_string (c ∷ s)) _ e λ (t, r) a e1.
              (let same : string t ≡ v = cc in
                subst (IsOrderly d) same (p, parse_string-valid (c ∷ s) t r a)))
            λ h3. if_sound P (c == b't') _ _ h3 (words (boolean true) p (text "true")) λ h4.
              if_sound P (c == b'f') _ _ h4 (words (boolean false) p (text "false")) λ h5.
                if_sound P (c == b'n') _ _ h5 (words Value.null p (text "null")) λ h6.
                  if_sound P ((c == b'-') || is_digit c) _ _ h6 (parse_number-Sound (c ∷ s) v rest)
                    λ h7. absurd (ground arith)

  parse_first-Sound : Sound d (parse_first number_of read fuel)
  unfolding parse_first
  parse_first-Sound [] v rest h = absurd (ground arith)
  parse_first-Sound (c ∷ s) v rest h = dispatch-Sound c s v rest h

module _ (number_of : Text → Option (Option ℕ)) where
  value-Sound : (fuel levels d : ℕ) → levels + d ≡ 129 → Sound d (value number_of fuel levels)
  unfolding value
  value-Sound fuel zero d e s v rest h = absurd (ground arith)
  value-Sound fuel (suc levels) d e s v rest h =
      parse_first-Sound number_of (value number_of fuel levels) d (omega arith)
        (value-Sound fuel levels (suc d) (omega arith)) fuel (whitespace s) v rest h

  -- A parsed value is nested at most 128 deep, the keys of each of its objects are unique, and its
  -- strings and keys are valid UTF-8.
  pub parse-IsOrderly : (s : Text) {v : Value} → parse number_of s ≡ some v → IsOrderly 0 v
  unfolding parse parse_with
  parse-IsOrderly s {v} h = bind-eq_some (value number_of (length s) 129 s) _ h λ (u, rest) a h1.
      (let o = value-Sound (length s) 129 0 refl s u rest a in
        let same : u ≡ v = ground arith in subst (IsOrderly 0) same o)
