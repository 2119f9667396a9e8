-- ===== src/Flow/Jar.antt =====
-- The cookie jar of one login attempt (src/flow/fetch.rs): libcurl cookie lines in Netscape format,
-- kept by the exact origin that set them. `now` is the reading of the clock.
pub mod Domains
pub mod Origins
use himmelcloak.Prelude.{
  ℕ, zero, suc, ◌+◌, ◌-◌, Text, text, text_eq, eq_ignore_ascii_case, strip_prefix, split, length,
  get_elem?, drop, null, filter, List, [], ◌∷◌, ◌++◌, Option, none, some, Bool, true, false, not,
  ◌==◌, ◌&&◌, ◌||◌, ltb, leb, if◌then◌else◌, parse_unsigned, u64_limit,
}
use himmelcloak.Platform.{UrlLib}

pub record CookieJar (L : UrlLib) : Type 0 where
  pub origins : List (L.Origin × List Text)

-- `CookieJar::default`
abbrev pub empty_jar : {L : UrlLib} → CookieJar L
empty_jar = record { origins = [] }

tab : ℕ
tab = 9

-- `unwrap_or` on `strip_prefix`
without_prefix : Text → Text → Text
without_prefix p s = elim (strip_prefix p s) [ none ↦ s | some rest ↦ rest ]

-- The byte at `at` is a dot, and the domain follows it.
dot_before : Text → Text → ℕ → Bool
dot_before host domain at = elim (get_elem? host at) [
  | none ↦ false
  | some c ↦ (c == b'.') && eq_ignore_ascii_case (drop (suc at) host) domain
]

-- `domain_matches`: lengths and offsets are in bytes.
unfoldable pub domain_matches : Text → Text → Bool
unfolding dot_before
domain_matches host domain =
    if null domain
    then false
    else (if eq_ignore_ascii_case host domain
        then true
        else (if ltb (length host) (length domain + 1)
            then false
            else dot_before host domain (length host - (length domain + 1))))

expiry_ok : ℕ → Option ℕ → Bool
expiry_ok now none = false
expiry_ok now (some expiry) = (expiry == 0) || ltb now expiry

nth_expiry : Option Text → Option ℕ
nth_expiry none = none
nth_expiry (some field) = parse_unsigned u64_limit field

-- `unexpired`: zero marks a session cookie.
unfoldable pub unexpired : ℕ → Text → Bool
unfolding expiry_ok nth_expiry tab
unexpired now line = expiry_ok now (nth_expiry (get_elem? (split tab line) 4))

usable_fields : Text → Text → ℕ → List Text → Bool
unfolding without_prefix
usable_fields line host now (domain ∷ _ ∷ _ ∷ _ ∷ _ ∷ name ∷ _ ∷ []) =
    let bare = without_prefix (text ".") (without_prefix (text "#HttpOnly_") domain) in
    not (null name) && unexpired now line && domain_matches host bare
usable_fields line host now _ = false

-- `usable`
unfoldable pub usable : Text → ℕ → Text → Bool
unfolding usable_fields tab
usable host now line = usable_fields line host now (split tab line)

-- `trim_start_matches('[')`
trim_open : Text → Text
trim_open [] = []
trim_open (c ∷ s) = let rest = trim_open s in if c == b'[' then rest else c ∷ s

-- `trim_end_matches(']')`
trim_close : Text → Text
trim_close [] = []
trim_close (c ∷ s) = let rest = trim_close s in if null rest && (c == b']') then [] else c ∷ rest

-- libcurl writes IPv6 hosts without the brackets of the URL.
unfoldable pub bare_host : Text → Text
unfolding trim_open trim_close
bare_host host = trim_close (trim_open host)

-- `iter().position(p)`
position {ℓ} : {A : Type ℓ} → (A → Bool) → List A → Option ℕ
position p [] = none
position p (x ∷ xs) =
    let rest = position p xs in
    if p x then some 0 else elim rest [ none ↦ none | some i ↦ some (suc i) ]

-- The last element moves to the front.
last_first {ℓ} : {A : Type ℓ} → A → List A → List A
last_first x [] = x ∷ []
last_first x (y ∷ ys) = elim (last_first y ys) [ [] ↦ x ∷ [] | z ∷ zs ↦ z ∷ x ∷ zs ]

fill_gap {ℓ} : {A : Type ℓ} → List A → List A
unfolding last_first
fill_gap [] = []
fill_gap (x ∷ xs) = last_first x xs

-- `Vec::swap_remove`: the last element takes the removed one's place.
swap_remove {ℓ} : {A : Type ℓ} → List A → ℕ → List A
unfolding fill_gap
swap_remove [] i = []
swap_remove (x ∷ xs) zero = fill_gap xs
swap_remove (x ∷ xs) (suc i) = x ∷ swap_remove xs i

module _ (L : UrlLib) where
  abbrev owned : L.Origin → L.Origin × List Text → Bool
  owned o e = L.same_origin e.0 o

  flat_lines : List (L.Origin × List Text) → List Text
  flat_lines [] = []
  flat_lines ((_, lines) ∷ es) = lines ++ flat_lines es

  -- `lines_at`
  unfoldable pub lines_at : CookieJar L → L.Url → ℕ → List Text
  unfolding flat_lines
  lines_at jar url now =
      filter (unexpired now) (flat_lines (filter (owned (L.origin url)) jar.origins))

  forget : L.Origin → List (L.Origin × List Text) → List (L.Origin × List Text)
  unfolding position swap_remove
  forget o es = elim (position (owned o) es) [ none ↦ es | some i ↦ swap_remove es i ]

  remember : L.Origin → List Text → List (L.Origin × List Text) → List (L.Origin × List Text)
  remember o kept es = if null kept then es else es ++ (o, kept) ∷ []

  -- `replace_at`
  unfoldable pub replace_at : CookieJar L → L.Url → List Text → ℕ → CookieJar L
  unfolding forget remember
  replace_at jar url lines now = elim (L.host_str url) [
    | none ↦ jar
    | some host ↦
        (let kept = filter (usable (bare_host host) now) lines in
          record { origins = remember (L.origin url) kept (forget (L.origin url) jar.origins) })
  ]
