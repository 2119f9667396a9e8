-- ===== src/Flow/Classify/Label/Clean.antt =====
-- What a cleaned label may hold, and that cleaning is a normal form.
use himmelcloak.Prelude.{
  ℕ, All, is_whitespace, is_control, is_whitespace_space, filter, List, [], ◌∷◌, Bool, true, false,
  if◌then◌else◌, ◌≡◌, refl, ap, ◌∙◌, arith, inl, inr, Bool-cases,
}
use himmelcloak.Flow.Classify.Label.{keeps, join_words, clean_chars}

-- A character that may be shown.
abbrev pub IsShown : ℕ → Type 0
IsShown c = (keeps c ≡ true) × (is_whitespace c ≡ true → c ≡ b' ')

space_keeps : keeps b' ' ≡ true
unfolding keeps is_control
space_keeps = refl

All-filter_keeps : (cs : List ℕ) → All (λ c. is_whitespace c ≡ false → IsShown c) (filter keeps cs)
unfolding filter
All-filter_keeps [] = tt
All-filter_keeps (c ∷ cs) = elim (Bool-cases (keeps c)) [
  | inl k ↦ rw (k, filter) (λ w. (k, λ s. absurd (ground arith)), All-filter_keeps cs)
  | inr k ↦ rw (k, filter) (All-filter_keeps cs)
]

module _ (P : ℕ → Type 0) where
  join_words-All :
      (started gap : Bool) (cs : List ℕ)
      → P b' '
      → All (λ c. is_whitespace c ≡ false → P c) cs
      → All P (join_words started gap cs)
  unfolding join_words
  join_words-All started gap [] p h = tt
  join_words-All started gap (c ∷ cs) p h = elim (Bool-cases (is_whitespace c)) [
    | inl w ↦ rw (w, join_words) (join_words-All _ _ cs p h.1)
    | inr w ↦ rw (w, join_words) (with_gap gap (h.0 w) (join_words-All _ _ cs p h.1))
  ]
    where
      with_gap :
          (gap : Bool)
          → P c
          → All P (join_words true false cs)
          → All P
              (if gap then b' ' ∷ c ∷ join_words true false cs else c ∷ join_words true false cs)
      with_gap true pc rest = (p, (pc, rest))
      with_gap false pc rest = (pc, rest)

-- A cleaned label holds no control character and no invisible formatting mark, and its only white
-- space is the plain space.
pub clean_chars-IsShown : (cs : List ℕ) → All IsShown (clean_chars cs)
unfolding clean_chars
clean_chars-IsShown cs =
    join_words-All IsShown false false (filter keeps cs) (space_keeps, λ _. refl)
      (All-filter_keeps cs)

filter-of_All : (cs : List ℕ) → All IsShown cs → filter keeps cs ≡ cs
unfolding filter
filter-of_All [] h = refl
filter-of_All (c ∷ cs) h = ground (arith, h.0, filter-of_All cs h.1)

-- Joining again changes nothing; a space that is due stands in front.
join_words-join_words :
    (started gap : Bool) (cs : List ℕ)
    → (gap ≡ true → started ≡ true)
    → join_words started false (join_words started gap cs) ≡ join_words started gap cs
unfolding join_words
join_words-join_words started gap [] g = refl
join_words-join_words started gap (c ∷ cs) g = ground (
  arith,
  g,
  is_whitespace_space,
  join_words-join_words true false cs (λ h. refl),
  join_words-join_words started started cs (λ h. h),
)

-- Cleaning is a normal form: cleaning a cleaned label changes nothing. So no space stands at either
-- end of one, and no two spaces together.
pub clean_chars_idem : (cs : List ℕ) → clean_chars (clean_chars cs) ≡ clean_chars cs
clean_chars_idem cs =
    let shown = filter-of_All (clean_chars cs) (clean_chars-IsShown cs) in
    unfold clean_chars in
    (ap (join_words false false) shown
      ∙ join_words-join_words false false (filter keeps cs) (λ h. cc))
