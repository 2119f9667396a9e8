-- ===== src/Flow/Factor/Fields.antt =====
-- The password page: the answers to its challenges are its fields.
use himmelcloak.Prelude.{
  Text, text, List, [], ◌∷◌, map, Option, none, some, Result, ok, ◌≡◌, refl, arith,
}
use mathlib.Core.Path.{subst}
use mathlib.Core.Option.{some-injective}
use himmelcloak.Flow.Types.{Challenge, Answer, PageKind, username_password, otp_page, unknown}
use himmelcloak.Flow.Expect.Sound.{Fits}
use himmelcloak.Flow.Factor.{password_challenges, password_fields, PageFactor, builtin}

-- Every answer fits the challenge in its place.
abbrev pub FitAll : List Challenge → List Answer → Type 0
FitAll [] [] = Unit
FitAll (c ∷ cs) (a ∷ as') = Fits c a × FitAll cs as'
FitAll _ _ = ⊥

-- The field that carries the answer to a challenge of the password page.
abbrev pub named : Challenge → Text
named Challenge.username = text "username"
named _ = text "password"

abbrev field_name : Text × Text → Text
field_name f = f.0

abbrev field_value : Text × Text → Text
field_value f = f.1

-- What the user typed, for an answer to a challenge of the password page.
abbrev pub typed : Answer → Text
typed (Answer.username name) = name
typed (Answer.password secret) = secret
typed _ = []

-- The answers became fields, one for each challenge, with what was typed.
abbrev pub BecameFields : Result (List (Text × Text)) → List Challenge → List Answer → Type 0
BecameFields r cs answers =
    (fields : List (Text × Text)) × (r ≡ ok fields)
    × (map field_name fields ≡ map named cs)
    × (map field_value fields ≡ map typed answers)

module _ (kind : PageKind) where
  password_only :
      (answers : List Answer)
      → FitAll (Challenge.password ∷ []) answers
      → BecameFields (password_fields kind answers) (Challenge.password ∷ []) answers
  unfolding password_fields
  password_only (Answer.password p ∷ []) h = ((text "password", p) ∷ [], refl, refl, refl)
  password_only _ h = absurd (ground arith)

  username_and_password :
      (answers : List Answer)
      → FitAll (Challenge.username ∷ Challenge.password ∷ []) answers
      → BecameFields
          (password_fields kind answers)
          (Challenge.username ∷ Challenge.password ∷ [])
          answers
  unfolding password_fields
  username_and_password (Answer.username u ∷ Answer.password p ∷ []) h =
      ((text "username", u) ∷ (text "password", p) ∷ [], refl, refl, refl)
  username_and_password _ h = absurd (ground arith)

  password-BecameFields :
      (e hint : Option Text) (cs : List Challenge) (answers : List Answer)
      → password_challenges (username_password e) hint ≡ ok cs
      → FitAll cs answers
      → BecameFields (password_fields kind answers) cs answers
  unfolding password_challenges
  password-BecameFields e none cs answers c h =
      let same : Challenge.username ∷ Challenge.password ∷ [] ≡ cs = ground arith in
      subst (λ l. FitAll l answers → BecameFields (password_fields kind answers) l answers) same
        (username_and_password answers) h
  password-BecameFields e (some x) cs answers c h =
      let same : Challenge.password ∷ [] ≡ cs = ground arith in
      subst (λ l. FitAll l answers → BecameFields (password_fields kind answers) l answers) same
        (password_only answers) h

-- Whatever page a built-in factor handles and whatever hint the login had: once the answers fit the
-- challenges that it asks, in order, they become form fields without an error, one for each challenge,
-- named username for the username and password for the password, in the order of the challenges, and
-- with exactly what was typed as their values.
pub builtin-BecameFields :
    (kind : PageKind) (factor : PageFactor) (hint : Option Text) (cs : List Challenge)
    (answers : List Answer)
    → builtin kind ≡ some factor
    → factor.challenges kind hint ≡ ok cs
    → FitAll cs answers
    → BecameFields (factor.fields kind answers) cs answers
unfolding builtin
builtin-BecameFields (username_password e) factor hint cs answers b c h =
    subst
      (λ (f : PageFactor).
        f.challenges (username_password e) hint ≡ ok cs
        → BecameFields (f.fields (username_password e) answers) cs answers)
      (some-injective _ _ b)
      (λ c'. password-BecameFields (username_password e) e hint cs answers c' h) c
builtin-BecameFields (otp_page ds) factor hint cs answers b c h = absurd (ground arith)
builtin-BecameFields unknown factor hint cs answers b c h = absurd (ground arith)
