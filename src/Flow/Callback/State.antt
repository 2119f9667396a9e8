-- ===== src/Flow/Callback/State.antt =====
-- Which callbacks are accepted.
use himmelcloak.Prelude.{
  ℕ, ◌<◌, Text, text, text_eq, text_eq_sound, null, List, [], ◌∷◌, ◌++◌, Option, none, some, true,
  false, if◌then◌else◌, ok, ◌≡◌, ◌≢◌, inl, inr, refl, sym, ap, ◌∙◌, arith, Bool-cases, Option-cases,
  Result-cases, ok-injective,
}
use mathlib.Core.List.{append-nil, append_assoc}
use himmelcloak.Platform.{UrlLib}
use himmelcloak.Flow.State.{AuthFlow, active, ensure_active}
use himmelcloak.Flow.State.Lifecycle.{ensure_active-ok_iff}
use himmelcloak.Flow.Fetch.{Redirect}
use himmelcloak.Flow.Callback.{
  same_endpoint, Slots, no_slots, take_pair, take_pairs, judge, callback,
}

-- The values that a query gives a name, in order.
abbrev value_at : Text → Text × Text → List Text
value_at name p = if text_eq p.0 name then p.1 ∷ [] else []

pub values : Text → List (Text × Text) → List Text
values name [] = []
values name (p ∷ ps) = value_at name p ++ values name ps

abbrev listed : Option Text → List Text
listed none = []
listed (some t) = t ∷ []

code_ne_state : text_eq (text "code") (text "state") ≡ false
unfolding text_eq text
code_ne_state = refl

code_ne_error : text_eq (text "code") (text "error") ≡ false
unfolding text_eq text
code_ne_error = refl

state_ne_error : text_eq (text "state") (text "error") ≡ false
unfolding text_eq text
state_ne_error = refl

apart : (name a b : Text) → text_eq a b ≡ false → text_eq name a ≡ true → text_eq name b ≡ false
apart name a b h e = rw (text_eq_sound name a e) h

module _ (p : Text × Text) (s : Slots) {s' : Slots} (taken : take_pair p s ≡ ok s') where
  take_pair-code : listed s'.code ≡ listed s.code ++ value_at (text "code") p
  unfolding take_pair
  take_pair-code = ground (arith, append-nil (listed s.code))

  take_pair-state : listed s'.state ≡ listed s.state ++ value_at (text "state") p
  unfolding take_pair
  take_pair-state =
      ground
        (arith, apart p.0 (text "code") (text "state") code_ne_state, append-nil (listed s.state))

  take_pair-error : listed s'.error ≡ listed s.error ++ value_at (text "error") p
  unfolding take_pair
  take_pair-error = ground (
    arith,
    apart p.0 (text "code") (text "error") code_ne_error,
    apart p.0 (text "state") (text "error") state_ne_error,
    append-nil (listed s.error),
  )

-- The slots hold what the query gives, beyond what they held.
abbrev Holds : Slots → List (Text × Text) → Slots → Type 0
Holds s ps s' =
    (listed s'.code ≡ listed s.code ++ values (text "code") ps)
    × (listed s'.state ≡ listed s.state ++ values (text "state") ps)
    × (listed s'.error ≡ listed s.error ++ values (text "error") ps)

extend : (xs ys zs ws vs : List Text) → ys ≡ xs ++ zs → ws ≡ ys ++ vs → ws ≡ xs ++ (zs ++ vs)
extend xs ys zs ws vs e e' = e' ∙ ap (λ t. t ++ vs) e ∙ append_assoc xs zs vs

take_pairs-Holds :
    (ps : List (Text × Text)) (s : Slots) {s' : Slots} → take_pairs ps s ≡ ok s' → Holds s ps s'
unfolding take_pairs values
take_pairs-Holds [] s h =
    let same : s ≡ _ = ok-injective h in
    (
      ap (λ (t : Slots). listed t.code) (sym same) ∙ sym (append-nil (listed s.code)),
      ap (λ (t : Slots). listed t.state) (sym same) ∙ sym (append-nil (listed s.state)),
      ap (λ (t : Slots). listed t.error) (sym same) ∙ sym (append-nil (listed s.error)),
    )
take_pairs-Holds (p ∷ ps) s {s'} h = elim (Result-cases (take_pair p s)) [
  | inr (e, bad) ↦ absurd (ground arith)
  | inl (m, fine) ↦
      (let (code, state, error) = take_pairs-Holds ps m {s' = s'} (rw (fine, take_pairs) at h) in
        (
          extend _ (listed m.code) (value_at (text "code") p) _ _ (take_pair-code p s fine) code,
          extend _ (listed m.state) (value_at (text "state") p) _ _ (take_pair-state p s fine)
              state,
          extend _ (listed m.error) (value_at (text "error") p) _ _ (take_pair-error p s fine)
              error,
        ))
]

not_null : (t : Text) → null t ≡ false → t ≢ []
not_null [] h q = cc
not_null (c ∷ cs) h q = cc

judge_no_state :
    (own : Text) (s : Slots) {c : Text} → judge own s ≡ ok (some c) → s.state ≡ none → ⊥
unfolding judge
judge_no_state own s h e = ground arith

judge-tests :
    (own : Text) (s : Slots) (st : Text) {c : Text}
    → judge own s ≡ ok (some c)
    → s.state ≡ some st
    → (null own ≡ false)
      × (text_eq st own ≡ true)
      × (s.error ≡ none)
      × (s.code ≡ some c)
      × (null c ≡ false)
unfolding judge
judge-tests own s st h e = ground arith

judge-accepts :
    (own : Text) (s : Slots) {c : Text}
    → judge own s ≡ ok (some c)
    → (s.state ≡ some own) × (own ≢ []) × (s.error ≡ none) × (s.code ≡ some c) × (c ≢ [])
judge-accepts own s {c} h = elim (Option-cases s.state) [
  | inl e ↦ absurd (judge_no_state own s h e)
  | inr (st, e) ↦
      (let (full, same, calm, given, long) = judge-tests own s st h e in
        (e ∙ ap some (text_eq_sound st own same), not_null own full, calm, given, not_null c long))
]

module _ {L : UrlLib} (now : ℕ) where
  ensure_active-unchanged :
      (f : AuthFlow L) → (ensure_active now f).0 ≡ ok tt → (ensure_active now f).1 ≡ f
  unfolding ensure_active
  ensure_active-unchanged f h = ground arith

  callback-flow :
      (redirect : Redirect L) (uri : L.Url) (f : AuthFlow L)
      → same_endpoint L redirect.location uri ≡ true
      → (callback now redirect uri f).1 ≡ (ensure_active now f).1
  unfolding callback
  callback-flow redirect uri f h = rw (h, callback) refl

  -- What an accepted callback went through.
  callback-steps :
      (redirect : Redirect L) (uri : L.Url) (f : AuthFlow L) {code : Text}
      → (callback now redirect uri f).0 ≡ ok (some code)
      → (same_endpoint L redirect.location uri ≡ true)
        × ((ensure_active now f).0 ≡ ok tt)
        × ((s : Slots) × (take_pairs (L.query_pairs redirect.location) no_slots ≡ ok s)
            × (judge (ensure_active now f).1.oauth_state s ≡ ok (some code)))
  unfolding callback
  callback-steps redirect uri f {code} h =
      elim (Bool-cases (same_endpoint L redirect.location uri)) [
        | inr e ↦ absurd (ground arith)
        | inl e ↦ elim (Result-cases (ensure_active now f).0) [
          | inr (x, e') ↦ absurd (ground arith)
          | inl (u, e') ↦
              elim (Result-cases (take_pairs (L.query_pairs redirect.location) no_slots)) [
                | inr (x, e'') ↦ absurd (ground arith)
                | inl (s, e'') ↦ (e, e', (s, e'', ground arith))
              ]
        ]
      ]

-- An accepted callback: the redirect goes to the registered endpoint while the login is active and in
-- time; its query gives this login's own state, which is not empty, exactly once, and no error; and the
-- code is the only one that it gives, and is not empty. The login itself is unchanged.
pub callback-accepts :
    {L : UrlLib} (now : ℕ) (redirect : Redirect L) (uri : L.Url) (f : AuthFlow L) {code : Text}
    → (callback now redirect uri f).0 ≡ ok (some code)
    → let ps = L.query_pairs redirect.location in
      (same_endpoint L redirect.location uri ≡ true)
      × (f.lifecycle ≡ active)
      × (now < f.deadline)
      × (values (text "state") ps ≡ f.oauth_state ∷ [])
      × (f.oauth_state ≢ [])
      × (values (text "error") ps ≡ [])
      × (values (text "code") ps ≡ code ∷ [])
      × (code ≢ [])
      × ((callback now redirect uri f).1 ≡ f)
callback-accepts {L} now redirect uri f {code} h =
    let (there, gate, rest) = callback-steps now redirect uri f h in
    let (s, taken, judged) = rest in
    let (alive, in_time) = (ensure_active-ok_iff now f).0 gate in
    let same = ensure_active-unchanged now f gate in
    let (state, own, calm, given, long) =
      judge-accepts f.oauth_state s (rw (ap (λ (g : AuthFlow L). g.oauth_state) same) at judged) in
    let (codes, states, errors) =
      take_pairs-Holds (L.query_pairs redirect.location) no_slots taken in
    (
      there,
      alive,
      in_time,
      sym states ∙ ap listed state,
      own,
      sym errors ∙ ap listed calm,
      sym codes ∙ ap listed given,
      long,
      callback-flow now redirect uri f there ∙ same,
    )
