-- ===== src/Flow/Factor.antt =====
-- How a recognised page becomes challenges, and answers its form fields (src/flow/factor.rs).
pub mod Fields
use himmelcloak.Prelude.{
  Text, text, List, [], ◌∷◌, Option, none, some, Error, unsupported_factor, protocol, Result, ok,
  err, and_then,
}
use himmelcloak.Flow.Types.{Challenge, Answer, PageKind, username_password}

-- `PageFactor`: one factor's handling of the pages it owns.
pub record PageFactor : Type 0 where
  pub challenges : PageKind → Option Text → Result (List Challenge)
  pub fields : PageKind → List Answer → Result (List (Text × Text))

-- `Factors`: which factor handles a page.
abbrev pub Factors : Type 0
Factors = PageKind → Option PageFactor

-- `PasswordFactor::challenges`
unfoldable pub password_challenges : PageKind → Option Text → Result (List Challenge)
password_challenges (username_password _) (some _) = ok (Challenge.password ∷ [])
password_challenges (username_password _) none = ok (Challenge.username ∷ Challenge.password ∷ [])
password_challenges _ _ = err unsupported_factor

password_field : Answer → Result (Text × Text)
password_field (Answer.username name) = ok (text "username", name)
password_field (Answer.password secret) = ok (text "password", secret)
password_field _ = err (protocol "answer does not belong to the password page")

-- `PasswordFactor::fields`: the first error ends the collection.
unfoldable pub password_fields : PageKind → List Answer → Result (List (Text × Text))
unfolding password_field
password_fields kind [] = ok []
password_fields kind (a ∷ answers) =
    let rest = password_fields kind answers in
    and_then (password_field a) λ f. and_then rest λ fs. ok (f ∷ fs)

unfoldable pub password_factor : PageFactor
password_factor = record { challenges = password_challenges; fields = password_fields }

-- `Builtin::for_page`
unfoldable pub builtin : Factors
unfolding password_factor
builtin (username_password _) = some password_factor
builtin _ = none
