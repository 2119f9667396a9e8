-- ===== src/Flow/Jar/Origins.antt =====
-- What a response does to the jar: its own origin's cookies are replaced, no other origin's change.
use himmelcloak.Prelude.{
  ℕ, zero, suc, ◌≤◌, Text, length, null, filter, List, [], ◌∷◌, ◌++◌, none, some, Bool, true, false,
  ◌≡◌, ◌≢◌, inl, inr, refl, sym, ap, ◌∙◌, arith, Bool-cases, Option-cases, if◌then◌else◌,
}
use mathlib.Core.List.{append-nil}
use mathlib.Core.Path.{subst}
use mathlib.Core.Bool.{false≢true}
use himmelcloak.Platform.{UrlLib, OriginLaws}
use himmelcloak.Flow.Jar.{
  CookieJar, position, last_first, fill_gap, swap_remove, flat_lines, forget, remember, owned,
  lines_at, replace_at, unexpired, usable, bare_host,
}

module _ {ℓ} {A : Type ℓ} (q : A → Bool) where
  length-filter_tail :
      (x : A) (xs : List A) → length (filter q (x ∷ xs)) ≤ 1 → length (filter q xs) ≤ 1
  unfolding filter
  length-filter_tail x xs h = ground arith

  -- Where at most one element counts, moving the last one to the front is not seen.
  filter-last_first :
      (x : A) (xs : List A)
      → length (filter q (x ∷ xs)) ≤ 1
      → filter q (last_first x xs) ≡ filter q (x ∷ xs)
  unfolding filter last_first
  filter-last_first x [] h = refl
  filter-last_first x (y ∷ ys) h =
      ground (arith, filter-last_first y ys (length-filter_tail x (y ∷ ys) h))

  filter-fill_gap : (xs : List A) → length (filter q xs) ≤ 1 → filter q (fill_gap xs) ≡ filter q xs
  unfolding fill_gap
  filter-fill_gap [] h = refl
  filter-fill_gap (x ∷ xs) h = filter-last_first x xs h

  -- Removing an element that does not count is not seen either.
  filter-swap_remove_other :
      (p : A → Bool) (xs : List A) {i : ℕ}
      → ((x : A) → p x ≡ true → q x ≡ false)
      → length (filter q xs) ≤ 1
      → position p xs ≡ some i
      → filter q (swap_remove xs i) ≡ filter q xs
  unfolding filter position swap_remove
  filter-swap_remove_other p [] d h e = cc
  filter-swap_remove_other p (x ∷ xs) {i = zero} d h e =
      let px : p x ≡ true = ground arith in
      let qx = d x px in rw (filter-fill_gap xs (length-filter_tail x xs h)) (ground arith)
  filter-swap_remove_other p (x ∷ xs) {i = suc i} d h e = ground (
    arith,
    filter-swap_remove_other p xs {i = i} d (length-filter_tail x xs h),
    length-filter_tail x xs h,
  )

  -- Removing the only one that counts leaves none.
  filter-swap_remove_self :
      (xs : List A) {i : ℕ}
      → length (filter q xs) ≤ 1
      → position q xs ≡ some i
      → filter q (swap_remove xs i) ≡ []
  unfolding filter position swap_remove
  filter-swap_remove_self [] h e = cc
  filter-swap_remove_self (x ∷ xs) {i = zero} h e =
      rw (filter-fill_gap xs (length-filter_tail x xs h)) (ground arith)
  filter-swap_remove_self (x ∷ xs) {i = suc i} h e =
      ground (arith, filter-swap_remove_self xs {i = i} (length-filter_tail x xs h))

  filter-position-none : (xs : List A) → position q xs ≡ none → filter q xs ≡ []
  unfolding filter position
  filter-position-none [] h = refl
  filter-position-none (x ∷ xs) h = ground (arith, filter-position-none xs)

  filter-append : (xs ys : List A) → filter q (xs ++ ys) ≡ filter q xs ++ filter q ys
  unfolding filter
  filter-append [] ys = refl
  filter-append (x ∷ xs) ys = ground (arith, filter-append xs ys)

module _ (L : UrlLib) where
  -- Each origin has at most one entry.
  abbrev pub HasUniqueOrigins : CookieJar L → Type 0
  HasUniqueOrigins jar = (o : L.Origin) → length (filter (owned L o) jar.origins) ≤ 1

module _ (L : UrlLib) (laws : OriginLaws L) where
  owned_other :
      (o o' : L.Origin)
      → o ≢ o'
      → (e : L.Origin × List Text) → owned L o e ≡ true
      → owned L o' e ≡ false
  owned_other o o' n e h = elim (Bool-cases (owned L o' e)) [
    | inl h' ↦ absurd (n (sym ((laws.same_origin_iff _ _).0 h) ∙ (laws.same_origin_iff _ _).0 h'))
    | inr h' ↦ h'
  ]

  filter-forget_other :
      (o o' : L.Origin) (es : List (L.Origin × List Text))
      → o ≢ o'
      → length (filter (owned L o') es) ≤ 1
      → filter (owned L o') (forget L o es) ≡ filter (owned L o') es
  unfolding forget
  filter-forget_other o o' es n h = elim (Option-cases (position (owned L o) es)) [
    | inl e ↦ rw (e, forget) refl
    | inr (i, e) ↦
        rw (e, forget)
          (filter-swap_remove_other (owned L o') (owned L o) es (owned_other o o' n) h e)
  ]

  filter-forget_self :
      (o : L.Origin) (es : List (L.Origin × List Text))
      → length (filter (owned L o) es) ≤ 1
      → filter (owned L o) (forget L o es) ≡ []
  unfolding forget
  filter-forget_self o es h = elim (Option-cases (position (owned L o) es)) [
    | inl e ↦ rw (e, forget) (filter-position-none (owned L o) es e)
    | inr (i, e) ↦ rw (e, forget) (filter-swap_remove_self (owned L o) es h e)
  ]

  owned_self : (o : L.Origin) (kept : List Text) → owned L o (o, kept) ≡ true
  owned_self o kept = (laws.same_origin_iff o o).1 refl

  filter-remember_self :
      (o : L.Origin) (kept : List Text) (es : List (L.Origin × List Text))
      → filter (owned L o) es ≡ []
      → filter (owned L o) (remember L o kept es) ≡ (if null kept then [] else (o, kept) ∷ [])
  unfolding remember
  filter-remember_self o [] es h = h
  filter-remember_self o (k ∷ ks) es h =
      rw (filter-append (owned L o) es ((o, k ∷ ks) ∷ []), h)
        (unfold filter in rw (owned_self o (k ∷ ks)))

  filter-remember_other :
      (o o' : L.Origin) (kept : List Text) (es : List (L.Origin × List Text))
      → o ≢ o'
      → filter (owned L o') (remember L o kept es) ≡ filter (owned L o') es
  unfolding remember
  filter-remember_other o o' [] es n = refl
  filter-remember_other o o' (k ∷ ks) es n =
      rw (filter-append (owned L o') es ((o, k ∷ ks) ∷ [])) (
        unfold filter in rw (owned_other o o' n (o, k ∷ ks) (owned_self o (k ∷ ks))) (append-nil _))

  flat_kept :
      (o : L.Origin) (kept : List Text)
      → flat_lines L (if null kept then [] else (o, kept) ∷ []) ≡ kept
  unfolding flat_lines
  flat_kept o [] = refl
  flat_kept o (k ∷ ks) = append-nil (k ∷ ks)

  length-one_entry :
      (o : L.Origin) (kept : List Text)
      → length {A = L.Origin × List Text} (if null kept then [] else (o, kept) ∷ []) ≤ 1
  length-one_entry o [] = omega arith
  length-one_entry o (k ∷ ks) = omega arith

  -- The entry of another origin is the same after `replace_at`.
  entry-replace_at_other :
      (jar : CookieJar L) (url : L.Url) (lines : List Text) (now : ℕ) (o : L.Origin)
      → HasUniqueOrigins L jar
      → L.origin url ≢ o
      → filter (owned L o) (replace_at L jar url lines now).origins ≡ filter (owned L o) jar.origins
  unfolding replace_at
  entry-replace_at_other jar url lines now o u n = elim (Option-cases (L.host_str url)) [
    | inl e ↦ rw (e, replace_at) refl
    | inr (host, e) ↦
        rw (e, replace_at)
          (filter-remember_other (L.origin url) o _ _ n
            ∙ filter-forget_other (L.origin url) o jar.origins n (u o))
  ]

  -- The entry of the response's origin, after `replace_at`.
  entry-replace_at_self :
      (jar : CookieJar L) (url : L.Url) {host : Text} (lines : List Text) (now : ℕ)
      → HasUniqueOrigins L jar
      → L.host_str url ≡ some host
      → filter (owned L (L.origin url)) (replace_at L jar url lines now).origins ≡ (
          let kept = filter (usable (bare_host host) now) lines in
          if null kept then [] else (L.origin url, kept) ∷ [])
  unfolding replace_at
  entry-replace_at_self jar url lines now u e =
      rw (e, replace_at)
        (filter-remember_self (L.origin url) _ _
          (filter-forget_self (L.origin url) jar.origins (u (L.origin url))))

  -- In a jar with at most one entry for each origin, a response changes no other origin's cookies: at every time, the lines that a request to another
  -- origin carries are those that it carried before.
  pub lines_at-replace_at_other :
      (jar : CookieJar L) (url other : L.Url) (lines : List Text) (now later : ℕ)
      → HasUniqueOrigins L jar
      → L.origin url ≢ L.origin other
      → lines_at L (replace_at L jar url lines now) other later ≡ lines_at L jar other later
  unfolding lines_at
  lines_at-replace_at_other jar url other lines now later u n =
      rw (entry-replace_at_other jar url lines now (L.origin other) u n)

  -- In a jar with at most one entry for each origin, after a response from an address with a host, a request to its origin carries exactly the lines of the response that were
  -- usable when it came and have not expired since: nothing that the jar held before is left.
  pub lines_at-replace_at_self :
      (jar : CookieJar L) (url : L.Url) {host : Text} (lines : List Text) (now later : ℕ)
      → HasUniqueOrigins L jar
      → L.host_str url ≡ some host
      → lines_at L (replace_at L jar url lines now) url later
        ≡ filter (unexpired later) (filter (usable (bare_host host) now) lines)
  unfolding lines_at
  lines_at-replace_at_self jar url lines now later u e =
      rw (entry-replace_at_self jar url lines now u e)
        (ap (filter (unexpired later)) (flat_kept (L.origin url) _))

  replace_at-no_host :
      (jar : CookieJar L) (url : L.Url) (lines : List Text) (now : ℕ)
      → L.host_str url ≡ none
      → replace_at L jar url lines now ≡ jar
  unfolding replace_at
  replace_at-no_host jar url lines now e = rw (e, replace_at) refl

  unique_self :
      (jar : CookieJar L) (url : L.Url) (lines : List Text) (now : ℕ)
      → HasUniqueOrigins L jar
      → length (filter (owned L (L.origin url)) (replace_at L jar url lines now).origins) ≤ 1
  unique_self jar url lines now u = elim (Option-cases (L.host_str url)) [
    | inl e ↦ rw (replace_at-no_host jar url lines now e) (u (L.origin url))
    | inr (host, e) ↦
        rw (entry-replace_at_self jar url lines now u e) (length-one_entry (L.origin url) _)
  ]

  -- If each origin has at most one entry, a response leaves it so.
  pub replace_at-HasUniqueOrigins :
      (jar : CookieJar L) (url : L.Url) (lines : List Text) (now : ℕ)
      → HasUniqueOrigins L jar
      → HasUniqueOrigins L (replace_at L jar url lines now)
  replace_at-HasUniqueOrigins jar url lines now u o =
      elim (Bool-cases (L.same_origin (L.origin url) o)) [
        | inl e ↦
            subst (λ o'. length (filter (owned L o') (replace_at L jar url lines now).origins) ≤ 1)
              ((laws.same_origin_iff _ _).0 e) (unique_self jar url lines now u)
        | inr e ↦ rw (entry-replace_at_other jar url lines now o u (differ e)) (u o)
      ]
    where
      differ : L.same_origin (L.origin url) o ≡ false → L.origin url ≢ o
      differ e q = false≢true (sym e ∙ (laws.same_origin_iff _ _).1 q)
