-- ===== src/Flow/Form/Submit.antt =====
-- What a submission posts, and when it posts nothing.
use himmelcloak.Prelude.{
  Text, text, text_eq, text_eq_sound, text_eq_complete, contains, contains_sound, contains_complete,
  any, any_elim, find, find_elim, map, map-mem, List, [], ◌∷◌, ◌++◌, none, true, false, not, ◌&&◌,
  Error, Result, ok, err, ◌≡◌, ◌≢◌, ◌⊎◌, inl, inr, refl, ap, arith, Memᴰ, Result-cases,
  Option-cases, All, mem-append_left, mem-append_last,
}
use mathlib.Core.Path.{subst}
use himmelcloak.Platform.{UrlLib}
use himmelcloak.Transport.{Machine}
use himmelcloak.Flow.Jar.{CookieJar}
use himmelcloak.Flow.Fetch.{Fetched, post_form}
use himmelcloak.Flow.Form.{Form, check_answers, fill, submit}

abbrev name_of : Text × Text → Text
name_of p = p.0

-- The answers name fields that the form has, each at most once, and a chosen device is one it offers.
abbrev pub Answerable : {L : UrlLib} → Form L → List (Text × Text) → Type 0
Answerable form [] = Unit
Answerable form (a ∷ more) =
    Memᴰ a.0 (map name_of form.fields)
    × All (λ (b : Text × Text). a.0 ≢ b.0) more
    × (a.0 ≡ text "selectedCredentialId" → Memᴰ a.1 form.devices)
    × Answerable form more

module _ {L : UrlLib} (form : Form L) where
  check_answers-tests :
      (before : List Text) (name value : Text) (more : List (Text × Text))
      → check_answers form before ((name, value) ∷ more) ≡ ok tt
      → (any (λ (f : Text × Text). text_eq f.0 name) form.fields ≡ true)
        × (contains before name ≡ false)
        × (text_eq name (text "selectedCredentialId") && not (contains form.devices value) ≡ false)
        × (check_answers form (before ++ name ∷ []) more ≡ ok tt)
  unfolding check_answers
  check_answers-tests before name value more h = ground arith

  check_answers-before :
      (name : Text) (before : List Text) (more : List (Text × Text))
      → Memᴰ name before
      → check_answers form before more ≡ ok tt
      → All (λ (b : Text × Text). name ≢ b.0) more
  check_answers-before name before [] m h = tt
  check_answers-before name before ((n, v) ∷ more) m h =
      let (_, fresh, _, rest) = check_answers-tests before n v more h in
      (
        λ q. (let known = contains_complete (rw q at m) in cc),
        check_answers-before name (before ++ n ∷ []) more (mem-append_left (n ∷ []) m) rest,
      )

  named_field :
      (name : Text)
      → any (λ (f : Text × Text). text_eq f.0 name) form.fields ≡ true
      → Memᴰ name (map name_of form.fields)
  named_field name h =
      let (f, m, e) = any_elim (λ (f : Text × Text). text_eq f.0 name) form.fields h in
      subst (λ n. Memᴰ n (map name_of form.fields)) (text_eq_sound f.0 name e) (map-mem name_of m)

  offered_device :
      (name value : Text)
      → text_eq name (text "selectedCredentialId") && not (contains form.devices value) ≡ false
      → name ≡ text "selectedCredentialId"
      → Memᴰ value form.devices
  offered_device name value h q =
      contains_sound form.devices value
        (ground (arith, text_eq_complete name (text "selectedCredentialId") q))

  check_answers-Answerable :
      (before : List Text) (more : List (Text × Text))
      → check_answers form before more ≡ ok tt
      → Answerable form more
  check_answers-Answerable before [] h = tt
  check_answers-Answerable before ((n, v) ∷ more) h =
      let (there, fresh, device, rest) = check_answers-tests before n v more h in
      (
        named_field n there,
        check_answers-before n (before ++ n ∷ []) more (mem-append_last before n) rest,
        offered_device n v device,
        check_answers-Answerable (before ++ n ∷ []) more rest,
      )

-- A posted value is an answer's, or the page's own where no answer names the field.
abbrev pub Filled : List (Text × Text) → Text × Text → Text × Text → Type 0
Filled answers field posted =
    (posted.0 ≡ field.0)
    × (((a : Text × Text) × Memᴰ a answers × (a.0 ≡ field.0) × (posted.1 ≡ a.1))
        ⊎ ((posted.1 ≡ field.1) × (find (λ (a : Text × Text). text_eq a.0 field.0) answers ≡ none)))

fill-Filled :
    (answers : List (Text × Text)) (field : Text × Text) → Filled answers field (fill answers field)
unfolding fill
fill-Filled answers (name, value) =
    elim (Option-cases (find (λ (a : Text × Text). text_eq a.0 name) answers)) [
      | inl e ↦ (ground arith, inr (ground arith, e))
      | inr (a, e) ↦
          (let (m, same) = find_elim (λ (a : Text × Text). text_eq a.0 name) answers e in
            (ground arith, inl (a, m, text_eq_sound a.0 name same, ground arith)))
    ]

abbrev pub Pointwise {ℓ} : {A : Type ℓ} → (A → A → Type 0) → List A → List A → Type 0
Pointwise R [] [] = Unit
Pointwise R (x ∷ xs) (y ∷ ys) = R x y × Pointwise R xs ys
Pointwise R _ _ = ⊥

fill-Pointwise :
    (answers fields : List (Text × Text))
    → Pointwise (Filled answers) fields (map (fill answers) fields)
fill-Pointwise answers [] = tt
fill-Pointwise answers (f ∷ fs) = (fill-Filled answers f, fill-Pointwise answers fs)

module _ {L : UrlLib} (M : Machine L) where
  -- Submitting a form either fails before anything is sent, with the jar and the world as they were,
  -- or the answers are answerable and one POST goes to the form's action: the fields of the form, in
  -- page order and none else, each with its answer's value or, where no answer names it, the page's.
  pub submit-cases :
      (form : Form L) (answers : List (Text × Text)) (s : CookieJar L × M.World)
      → ((e : Error) × (submit M form answers s ≡ (err e, s)))
        ⊎ (Answerable form answers
            × ((posted : List (Text × Text)) × Pointwise (Filled answers) form.fields posted
                × (submit M form answers s ≡ post_form M form.action posted s)))
  unfolding submit
  submit-cases form answers s = elim (Result-cases (check_answers form [] answers)) [
    | inr (e, bad) ↦ inl (e, rw (bad, submit) refl)
    | inl (u, fine) ↦ inr (
      check_answers-Answerable form [] answers fine,
      (map (fill answers) form.fields, fill-Pointwise answers form.fields, rw (fine, submit) refl),
    )
  ]

  -- Answers that are not answerable send nothing: the jar and the world are as they were.
  pub submit-unanswerable :
      (form : Form L) (answers : List (Text × Text)) (s : CookieJar L × M.World)
      → ¬ Answerable form answers
      → (submit M form answers s).1 ≡ s
  submit-unanswerable form answers s n = elim (submit-cases form answers s) [
    | inl (e, q) ↦ ap (λ (r : Result (Fetched L) × (CookieJar L × M.World)). r.1) q
    | inr (a, _) ↦ absurd (n a)
  ]
