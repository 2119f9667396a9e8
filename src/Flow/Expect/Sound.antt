-- ===== src/Flow/Expect/Sound.antt =====
-- What an accepted answer is, challenge by challenge.
use himmelcloak.Prelude.{
  Text, text_eq, contains, length, all, all_elim, all_intro, contains_complete, filter, map, List,
  [], ◌∷◌, none, some, true, ◌≡◌, ◌⊎◌, inl, inr, refl, arith, Memᴰ, mem-map, contains_sound,
  null_sound, length-map, map-mem, ok, Bool-cases, ==_iff, ◌↔◌,
}
use himmelcloak.Flow.Types.{Challenge, Answer, Field, AuthMethod, OtpDevice}
use himmelcloak.Flow.Expect.{of, answered_once, check}

-- The answer fits the challenge, read off the challenge itself.
abbrev pub Fits : Challenge → Answer → Type 0
Fits Challenge.username (Answer.username _) = Unit
Fits Challenge.password (Answer.password _) = Unit
Fits (Challenge.one_time_code devices) (Answer.one_time_code _ none) = devices ≡ []
Fits (Challenge.one_time_code devices) (Answer.one_time_code _ (some id)) =
    (d : OtpDevice) × Memᴰ d devices × (d.id ≡ id)
Fits (Challenge.recovery_code _) (Answer.recovery_code _) = Unit
Fits (Challenge.web_authn request) (Answer.web_authn assertion) =
    (request.allow_credentials ≡ []) ⊎ Memᴰ assertion.credential_id request.allow_credentials
Fits (Challenge.choose_method methods) (Answer.choose_method id) =
    (m : AuthMethod) × Memᴰ m methods × (m.id ≡ id)
Fits (Challenge.required_action action) (Answer.required_action given) =
    (length given.values ≡ length action.fields)
    × ((f : Field)
        → Memᴰ f action.fields
        → length (filter (λ (p : Text × Text). text_eq p.0 f.name) given.values) ≡ 1)
Fits (Challenge.info _) Answer.acknowledge = Unit
Fits _ _ = ⊥

module _ {ℓ} {A : Type ℓ} (f : A → Text) where
  offered_elim :
      (xs : List A) (t : Text) → contains (map f xs) t ≡ true → (a : A) × Memᴰ a xs × (f a ≡ t)
  offered_elim xs t h = mem-map f xs (contains_sound (map f xs) t h)

  offered_intro :
      (xs : List A) (t : Text) → (a : A) × Memᴰ a xs × (f a ≡ t) → contains (map f xs) t ≡ true
  offered_intro xs t (a, m, e) = contains_complete (rw e at (map-mem f m))

module _ (given : List (Text × Text)) where
  abbrev Once : Text → Type 0
  Once name = length (filter (λ (p : Text × Text). text_eq p.0 name) given) ≡ 1

  Once-elim :
      (fs : List Field)
      → all (answered_once given) (map (λ (f : Field). f.name) fs) ≡ true
      → (f : Field) → Memᴰ f fs
      → Once f.name
  unfolding answered_once
  Once-elim fs h f m =
      (==_iff _ _).0 (all_elim (answered_once given) (map-mem (λ (g : Field). g.name) m) h)

  Once-intro :
      (fs : List Field)
      → ((f : Field) → Memᴰ f fs → Once f.name)
      → all (answered_once given) (map (λ (f : Field). f.name) fs) ≡ true
  unfolding answered_once
  Once-intro fs h = all_intro (answered_once given) _ λ name m.
      let (f, m', e) = mem-map (λ (g : Field). g.name) fs m in (==_iff _ _).1 (rw e at (h f m'))

check-Fits : (c : Challenge) (a : Answer) → check (of c) a ≡ ok tt → Fits c a
unfolding check of
check-Fits Challenge.username (Answer.username _) h = tt
check-Fits Challenge.password (Answer.password _) h = tt
check-Fits (Challenge.recovery_code _) (Answer.recovery_code _) h = tt
check-Fits (Challenge.info _) Answer.acknowledge h = tt
check-Fits (Challenge.one_time_code []) (Answer.one_time_code _ none) h = refl
check-Fits (Challenge.one_time_code (d ∷ ds)) (Answer.one_time_code _ none) h =
    absurd (ground arith)
check-Fits (Challenge.one_time_code ds) (Answer.one_time_code _ (some id)) h =
    offered_elim (λ d. d.id) ds id (ground arith)
check-Fits (Challenge.web_authn r) (Answer.web_authn x) h =
    elim (Bool-cases (contains r.allow_credentials x.credential_id)) [
      | inl m ↦ inr (contains_sound _ _ m)
      | inr e ↦ inl (null_sound _ (ground arith))
    ]
check-Fits (Challenge.choose_method ms) (Answer.choose_method id) h =
    offered_elim (λ d. d.id) ms id (ground arith)
check-Fits (Challenge.required_action act) (Answer.required_action g) h = (
  ground (arith, length-map (λ (f : Field). f.name) act.fields),
  Once-elim g.values act.fields (ground arith),
)
check-Fits _ _ h = absurd (ground arith)

Fits-check : (c : Challenge) (a : Answer) → Fits c a → check (of c) a ≡ ok tt
unfolding check of
Fits-check Challenge.username (Answer.username _) h = refl
Fits-check Challenge.password (Answer.password _) h = refl
Fits-check (Challenge.recovery_code _) (Answer.recovery_code _) h = refl
Fits-check (Challenge.info _) Answer.acknowledge h = refl
Fits-check (Challenge.one_time_code ds) (Answer.one_time_code _ none) h = rw h
Fits-check (Challenge.one_time_code ds) (Answer.one_time_code _ (some id)) h =
    rw (offered_intro (λ (d : OtpDevice). d.id) ds id h)
Fits-check (Challenge.web_authn r) (Answer.web_authn x) (inl e) = ground arith
Fits-check (Challenge.web_authn r) (Answer.web_authn x) (inr m) =
    ground (arith, contains_complete m)
Fits-check (Challenge.choose_method ms) (Answer.choose_method id) h =
    rw (offered_intro (λ (d : AuthMethod). d.id) ms id h)
Fits-check (Challenge.required_action act) (Answer.required_action g) h =
    ground
      (arith, length-map (λ (f : Field). f.name) act.fields, Once-intro g.values act.fields h.1)
Fits-check _ _ h = absurd h

-- An answer is accepted exactly when it fits the challenge: it is of the challenge's kind; a chosen
-- device, method or credential is one that was offered (no device only where none was listed, any
-- credential only under an empty allow-list); a required action gives as many values as it has
-- fields and names each field exactly once.
pub check-iff-Fits : (c : Challenge) (a : Answer) → (check (of c) a ≡ ok tt) ↔ Fits c a
check-iff-Fits c a = (check-Fits c a, Fits-check c a)
