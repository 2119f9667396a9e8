-- ===== src/Token/Authorize/Scopes.antt =====
-- The scopes that an authorization request asks for.
use himmelcloak.Prelude.{
  Text, text, text_eq, text_eq_sound, contains, contains_sound, contains_complete, split, null, any,
  all, List, [], ◌∷◌, ◌++◌, true, false, not, ◌&&◌, if_elim, ok, ok-injective, Bool-cases, and_elim,
  All, Distinct, mem-append_left, mem-append_last, ◌≡◌, ◌≢◌, ◌⊎◌, inl, inr, refl, sym, ap, ◌∙◌,
  arith, Memᴰ,
}
use mathlib.Core.Bool.{false≢true}
use mathlib.Core.Path.{subst}
use himmelcloak.Token.Authorize.{
  valid_scope_token, scope_byte, add_scope, normalize_from, normalize, join_scopes,
}

Distinct-snoc :
    (xs : List Text) (s : Text) → Distinct xs → contains xs s ≡ false → Distinct (xs ++ s ∷ [])
unfolding contains any
Distinct-snoc [] s d h = (tt, tt)
Distinct-snoc (x ∷ xs) s d h = (
  All-snoc xs (λ q. false≢true (sym h ∙ contains_complete (Memᴰ.head (sym q)))) d.0,
  Distinct-snoc xs s d.1 (ground arith),
)
  where
    All-snoc : (ys : List Text) → x ≢ s → All (λ y. x ≢ y) ys → All (λ y. x ≢ y) (ys ++ s ∷ [])
    All-snoc [] n a = (n, tt)
    All-snoc (y ∷ ys) n a = (a.0, All-snoc ys n a.1)

add_scope-Distinct : (xs : List Text) (s : Text) → Distinct xs → Distinct (add_scope xs s)
unfolding add_scope
add_scope-Distinct xs s d =
    elim (Bool-cases (not (text_eq s (text "openid")) && not (contains xs s))) [
      | inl e ↦ rw e (Distinct-snoc xs s d (ground arith))
      | inr e ↦ rw e d
    ]

normalize_from-step :
    (acc : List Text) (s : Text) (more : List Text) {ns : List Text}
    → normalize_from acc (s ∷ more) ≡ ok ns
    → (valid_scope_token s ≡ true) × (normalize_from (add_scope acc s) more ≡ ok ns)
unfolding normalize_from
normalize_from-step acc s more h = (ground arith, ground arith)

normalize_from-Distinct :
    (acc scopes : List Text) {ns : List Text}
    → Distinct acc
    → normalize_from acc scopes ≡ ok ns
    → Distinct ns
unfolding normalize_from
normalize_from-Distinct acc [] d h = subst Distinct (ok-injective h) d
normalize_from-Distinct acc (s ∷ more) d h =
    normalize_from-Distinct (add_scope acc s) more (add_scope-Distinct acc s d)
      (normalize_from-step acc s more h).1

add_scope-keeps : (acc : List Text) (s : Text) {t : Text} → Memᴰ t acc → Memᴰ t (add_scope acc s)
unfolding add_scope
add_scope-keeps acc s m = if_elim (Memᴰ _) _ _ _ (mem-append_left (s ∷ []) m) m

add_scope-has : (acc : List Text) (s : Text) → Memᴰ (text "openid") acc → Memᴰ s (add_scope acc s)
unfolding add_scope
add_scope-has acc s m =
    elim (Bool-cases (not (text_eq s (text "openid")) && not (contains acc s))) [
      | inl e ↦ rw e (mem-append_last acc s)
      | inr e ↦ rw e (elim (Bool-cases (contains acc s)) [
        | inl known ↦ contains_sound acc s known
        | inr fresh ↦ subst (λ x. Memᴰ x acc) (sym (text_eq_sound s _ (ground arith))) m
      ])
    ]

normalize_from-keeps :
    (acc scopes : List Text) {ns : List Text} {t : Text}
    → Memᴰ t acc
    → normalize_from acc scopes ≡ ok ns
    → Memᴰ t ns
unfolding normalize_from
normalize_from-keeps acc [] m h = subst (Memᴰ _) (ok-injective h) m
normalize_from-keeps acc (s ∷ more) m h =
    normalize_from-keeps (add_scope acc s) more (add_scope-keeps acc s m)
      (normalize_from-step acc s more h).1

normalize_from-has :
    (acc scopes : List Text) {ns : List Text} {t : Text}
    → Memᴰ (text "openid") acc
    → normalize_from acc scopes ≡ ok ns
    → Memᴰ t scopes
    → Memᴰ t ns
normalize_from-has acc [] o h m = elim m [ ]
normalize_from-has acc (s ∷ more) {ns} o h (Memᴰ.head e) =
    subst (λ x. Memᴰ x ns) (sym e)
      (normalize_from-keeps (add_scope acc s) more (add_scope-has acc s o)
        (normalize_from-step acc s more h).1)
normalize_from-has acc (s ∷ more) o h (Memᴰ.tail m) =
    normalize_from-has (add_scope acc s) more (add_scope-keeps acc s o)
      (normalize_from-step acc s more h).1 m

mem-append_last_elim :
    (xs : List Text) (s : Text) {t : Text} → Memᴰ t (xs ++ s ∷ []) → Memᴰ t xs ⊎ (t ≡ s)
mem-append_last_elim [] s (Memᴰ.head e) = inr e
mem-append_last_elim [] s (Memᴰ.tail m) = elim m [ ]
mem-append_last_elim (x ∷ xs) s (Memᴰ.head e) = inl (Memᴰ.head e)
mem-append_last_elim (x ∷ xs) s (Memᴰ.tail m) = elim (mem-append_last_elim xs s m) [
  | inl m' ↦ inl (Memᴰ.tail m')
  | inr e ↦ inr e
]

add_scope-only :
    (acc : List Text) (s : Text) {t : Text} → Memᴰ t (add_scope acc s) → Memᴰ t acc ⊎ (t ≡ s)
unfolding add_scope
add_scope-only acc s {t} =
    if_elim (λ l. Memᴰ t l → Memᴰ t acc ⊎ (t ≡ s))
      (not (text_eq s (text "openid")) && not (contains acc s)) _ _ (mem-append_last_elim acc s) inl

-- Every scope of the list is one the caller asked for, or stood there before.
normalize_from-only :
    (acc scopes : List Text) {ns : List Text} {t : Text}
    → normalize_from acc scopes ≡ ok ns
    → Memᴰ t ns
    → Memᴰ t acc ⊎ (Memᴰ t scopes × (valid_scope_token t ≡ true))
unfolding normalize_from
normalize_from-only acc [] h m = inl (subst (Memᴰ _) (sym (ok-injective h)) m)
normalize_from-only acc (s ∷ more) {ns} {t} h m =
    let (v, rest) = normalize_from-step acc s more h in
    elim (normalize_from-only (add_scope acc s) more rest m) [
      | inr (later, w) ↦ inr (Memᴰ.tail later, w)
      | inl there ↦ from_add v (add_scope-only acc s there)
    ]
  where
    from_add :
        valid_scope_token s ≡ true
        → Memᴰ t acc ⊎ (t ≡ s)
        → Memᴰ t acc ⊎ (Memᴰ t (s ∷ more) × (valid_scope_token t ≡ true))
    from_add v (inl m') = inl m'
    from_add v (inr e) = inr (Memᴰ.head e, rw e v)

-- The scopes of a request are `openid` and the ones asked for, each exactly once: every asked scope is
-- there, every other one than `openid` was asked for and is a valid scope token.
pub normalize-Distinct :
    (scopes : List Text) {ns : List Text}
    → normalize scopes ≡ ok ns
    → Distinct ns
      × Memᴰ (text "openid") ns
      × ((t : Text) → Memᴰ t scopes → Memᴰ t ns)
      × ((t : Text)
          → Memᴰ t ns
          → (t ≡ text "openid") ⊎ (Memᴰ t scopes × (valid_scope_token t ≡ true)))
unfolding normalize
normalize-Distinct scopes {ns} h =
    let openid : Memᴰ (text "openid") (text "openid" ∷ []) = Memᴰ.head refl in
    (
      normalize_from-Distinct (text "openid" ∷ []) scopes (tt, tt) h,
      normalize_from-keeps (text "openid" ∷ []) scopes openid h,
      λ t m. normalize_from-has (text "openid" ∷ []) scopes openid h m,
      λ t m. only t (normalize_from-only (text "openid" ∷ []) scopes h m),
    )
  where
    only :
        (t : Text)
        → Memᴰ t (text "openid" ∷ []) ⊎ (Memᴰ t scopes × (valid_scope_token t ≡ true))
        → (t ≡ text "openid") ⊎ (Memᴰ t scopes × (valid_scope_token t ≡ true))
    only t (inl (Memᴰ.head e)) = inl e
    only t (inl (Memᴰ.tail m)) = elim m [ ]
    only t (inr r) = inr r

-- A text without the separator is one piece.
split-one : (s : Text) → all scope_byte s ≡ true → split b' ' s ≡ s ∷ []
unfolding split all scope_byte
split-one [] h = refl
split-one (b ∷ s) h =
    let rest = split-one s (and_elim (scope_byte b) (all scope_byte s) h).1 in ground arith

split-more :
    (s rest : Text) → all scope_byte s ≡ true → split b' ' (s ++ b' ' ∷ rest) ≡ s ∷ split b' ' rest
unfolding split all scope_byte
split-more [] rest h = refl
split-more (b ∷ s) rest h =
    let more = split-more s rest (and_elim (scope_byte b) (all scope_byte s) h).1 in ground arith

valid-bytes : (s : Text) → valid_scope_token s ≡ true → all scope_byte s ≡ true
unfolding valid_scope_token
valid-bytes s h = (and_elim (not (null s)) (all scope_byte s) h).1

-- The server reads back exactly the scopes of the list: split at its spaces, the scope parameter gives
-- the list again, when the list is not empty and each of its scopes is a valid token.
pub split-join_scopes :
    (s : Text) (more : List Text)
    → All (λ (t : Text). valid_scope_token t ≡ true) (s ∷ more)
    → split b' ' (join_scopes (s ∷ more)) ≡ s ∷ more
unfolding join_scopes
split-join_scopes s [] v = split-one s (valid-bytes s v.0)
split-join_scopes s (t ∷ more) v =
    split-more s (join_scopes (t ∷ more)) (valid-bytes s v.0)
    ∙ ap (λ l. s ∷ l) (split-join_scopes t more v.1)
