-- ===== src/Prelude/Lists.antt =====
-- Slices and vectors: the loops and iterator adaptors of the source, over Boolean tests.
use Prim.Native.Nat.{ℕ, zero, suc, ◌+◌, ◌≤◌}
use mathlib.Core.Path.{◌≡◌, refl, sym, ap}
use mathlib.Core.Logic.{◌≢◌, ◌⊎◌, inl, inr}
use mathlib.Core.Bool.{Bool, true, false, ◌&&◌, ◌||◌}
use mathlib.Core.List.{List, [], ◌∷◌, ◌++◌, map, Memᴰ}
use mathlib.Core.Option.{Option, none, some}
use native.Mathlib.Omega.{arith}
use himmelcloak.Prelude.Tests.{if◌then◌else◌, Bool-cases, and_elim}

module _ {ℓ} {A : Type ℓ} where
  abbrev pub length : List A → ℕ
  length [] = 0
  length (x ∷ xs) = suc (length xs)

  abbrev pub get_elem? : List A → ℕ → Option A
  get_elem? [] i = none
  get_elem? (x ∷ xs) zero = some x
  get_elem? (x ∷ xs) (suc i) = get_elem? xs i

  abbrev pub take : ℕ → List A → List A
  take zero xs = []
  take (suc n) [] = []
  take (suc n) (x ∷ xs) = x ∷ take n xs

  abbrev pub drop : ℕ → List A → List A
  drop zero xs = xs
  drop (suc n) [] = []
  drop (suc n) (x ∷ xs) = drop n xs

  -- `is_empty`
  abbrev pub null : List A → Bool
  null [] = true
  null (_ ∷ _) = false

  -- `iter().any(p)`
  unfoldable pub any : (A → Bool) → List A → Bool
  any p [] = false
  any p (x ∷ xs) = p x || any p xs

  -- `iter().all(p)`
  unfoldable pub all : (A → Bool) → List A → Bool
  all p [] = true
  all p (x ∷ xs) = p x && all p xs

  -- `iter().find(p)`
  unfoldable pub find : (A → Bool) → List A → Option A
  find p [] = none
  find p (x ∷ xs) = let rest = find p xs in if p x then some x else rest

  -- `iter().filter(p)`
  unfoldable pub filter : (A → Bool) → List A → List A
  filter p [] = []
  filter p (x ∷ xs) = let rest = filter p xs in if p x then x ∷ rest else rest

  pub length-append : (xs ys : List A) → length (xs ++ ys) ≡ length xs + length ys
  length-append [] ys = omega arith
  length-append (x ∷ xs) ys = omega (arith, length-append xs ys)

  pub length-filter : (p : A → Bool) (xs : List A) → length (filter p xs) ≤ length xs
  unfolding filter
  length-filter p [] = omega arith
  length-filter p (x ∷ xs) = ground (arith, length-filter p xs)

  -- What a passed `any` test found.
  pub any_elim : (p : A → Bool) (xs : List A) → any p xs ≡ true → (x : A) × Memᴰ x xs × (p x ≡ true)
  unfolding any
  any_elim p (x ∷ xs) h = elim (Bool-cases (p x)) [
    | inl e ↦ (x, Memᴰ.head refl, e)
    | inr e ↦ (let (y, m, e') = any_elim p xs (rw (e) at h) in (y, Memᴰ.tail m, e'))
  ]
  any_elim p [] h = absurd (ground arith)

  pub any_intro : (p : A → Bool) {x : A} {xs : List A} → Memᴰ x xs → p x ≡ true → any p xs ≡ true
  unfolding any
  any_intro p {x} (Memᴰ.head e) h = rw (← e, h) refl
  any_intro p (Memᴰ.tail m) h = ground (arith, any_intro p m h)

  -- What a passed `all` test says of each element.
  pub all_elim : (p : A → Bool) {x : A} {xs : List A} → Memᴰ x xs → all p xs ≡ true → p x ≡ true
  unfolding all
  all_elim p (Memᴰ.head e) h = rw e (and_elim _ _ h).0
  all_elim p (Memᴰ.tail m) h = all_elim p m (and_elim _ _ h).1

  pub all_intro :
      (p : A → Bool) (xs : List A) → ((x : A) → Memᴰ x xs → p x ≡ true) → all p xs ≡ true
  unfolding all
  all_intro p [] h = refl
  all_intro p (x ∷ xs) h = rw (h x (Memᴰ.head refl)) (all_intro p xs (λ y m. h y (Memᴰ.tail m)))

  pub find_elim :
      (p : A → Bool) (xs : List A) {x : A} → find p xs ≡ some x → Memᴰ x xs × (p x ≡ true)
  unfolding find
  find_elim p [] h = absurd (ground arith)
  find_elim p (y ∷ ys) h = elim (Bool-cases (p y)) [
    | inl e ↦ (Memᴰ.head (ground arith), ground arith)
    | inr e ↦ (let (m, e') = find_elim p ys (ground arith) in (Memᴰ.tail m, e'))
  ]

  pub mem-cons_elim : {x y : A} {l : List A} → Memᴰ x (y ∷ l) → (x ≡ y) ⊎ Memᴰ x l
  mem-cons_elim (Memᴰ.head e) = inl e
  mem-cons_elim (Memᴰ.tail m) = inr m

  pub mem-filter :
      (p : A → Bool) {x : A} (xs : List A) → Memᴰ x (filter p xs) → Memᴰ x xs × (p x ≡ true)
  unfolding filter
  mem-filter p [] m = elim m [ ]
  mem-filter p (y ∷ ys) m = elim (Bool-cases (p y)) [
    | inl e ↦ (elim (mem-cons_elim (rw e at m)) [
      | inl q ↦ (Memᴰ.head q, rw q e)
      | inr r ↦ (let (m', e') = mem-filter p ys r in (Memᴰ.tail m', e'))
    ])
    | inr e ↦ (let (m', e') = mem-filter p ys (rw e at m) in (Memᴰ.tail m', e'))
  ]

module _ {ℓ κ} {A : Type ℓ} {B : Type κ} (f : A → B) where
  pub mem-map : {b : B} (xs : List A) → Memᴰ b (map f xs) → (a : A) × Memᴰ a xs × (f a ≡ b)
  mem-map [] m = elim m [ ]
  mem-map (x ∷ xs) m = elim (mem-cons_elim m) [
    | inl e ↦ (x, Memᴰ.head refl, sym e)
    | inr m' ↦ (let (a, m'', e) = mem-map xs m' in (a, Memᴰ.tail m'', e))
  ]

  pub map-mem : {a : A} {xs : List A} → Memᴰ a xs → Memᴰ (f a) (map f xs)
  map-mem (Memᴰ.head e) = Memᴰ.head (ap f e)
  map-mem (Memᴰ.tail m) = Memᴰ.tail (map-mem m)

  pub length-map : (xs : List A) → length (map f xs) ≡ length xs
  length-map [] = refl
  length-map (x ∷ xs) = ap suc (length-map xs)

module _ {ℓ} {A : Type ℓ} where
  pub null_sound : (xs : List A) → null xs ≡ true → xs ≡ []
  null_sound [] h = refl
  null_sound (x ∷ xs) h = cc

module _ {ℓ} {A : Type ℓ} where
  pub get_elem?-split :
      (xs : List A) (i : ℕ) {x : A}
      → get_elem? xs i ≡ some x
      → xs ≡ take i xs ++ x ∷ drop (suc i) xs
  get_elem?-split [] i h = cc
  get_elem?-split (y ∷ ys) zero h = cc
  get_elem?-split (y ∷ ys) (suc i) {x} h =
      ap (λ (zs : List A). y ∷ zs) (get_elem?-split ys i {x = x} h)

  pub get_elem?-append : (xs ys : List A) (x : A) → get_elem? (xs ++ x ∷ ys) (length xs) ≡ some x
  get_elem?-append [] ys x = refl
  get_elem?-append (z ∷ zs) ys x = get_elem?-append zs ys x

  pub drop-append : (xs ys : List A) (x : A) → drop (suc (length xs)) (xs ++ x ∷ ys) ≡ ys
  drop-append [] ys x = refl
  drop-append (z ∷ zs) ys x = drop-append zs ys x

-- Every element has the property; a tuple, which tactics read and build.
abbrev pub All {ℓ κ} : {A : Type ℓ} → (A → Type κ) → List A → Type κ
All P [] = Unit
All P (x ∷ xs) = P x × All P xs

abbrev pub Distinct {ℓ} : {A : Type ℓ} → List A → Type ℓ
Distinct [] = Unit
Distinct (x ∷ xs) = All (λ y. x ≢ y) xs × Distinct xs

module _ {ℓ} {A : Type ℓ} where
  pub mem-append_left : {x : A} {xs : List A} (ys : List A) → Memᴰ x xs → Memᴰ x (xs ++ ys)
  mem-append_left ys (Memᴰ.head e) = Memᴰ.head e
  mem-append_left ys (Memᴰ.tail m) = Memᴰ.tail (mem-append_left ys m)

  pub mem-append_last : (xs : List A) (x : A) → Memᴰ x (xs ++ x ∷ [])
  mem-append_last [] x = Memᴰ.head refl
  mem-append_last (y ∷ ys) x = Memᴰ.tail (mem-append_last ys x)
