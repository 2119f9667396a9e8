-- ===== src/Flow/Jar/Domains.antt =====
-- Which hosts a cookie's domain covers.
use himmelcloak.Prelude.{
  ℕ, suc, ◌+◌, ◌-◌, Text, eq_ignore_ascii_case, length, get_elem?, take, drop, Option-cases,
  get_elem?-split, get_elem?-append, drop-append, length-eq_ignore_ascii_case, [], ◌∷◌, ◌++◌, true,
  false, ◌==◌, ◌&&◌, ◌≡◌, ◌⊎◌, inl, inr, ◌↔◌, ◌≢◌, refl, arith, length-append, Bool-cases,
}
use himmelcloak.Flow.Jar.{domain_matches, dot_before}

-- Some label and a dot stand in front of the domain, letter case aside.
abbrev pub IsSubdomain : Text → Text → Type 0
IsSubdomain host domain =
    (label rest : Text) × (host ≡ label ++ b'.' ∷ rest) × (eq_ignore_ascii_case rest domain ≡ true)

dot_before_elim :
    (host domain : Text) (at : ℕ) → dot_before host domain at ≡ true → IsSubdomain host domain
unfolding dot_before
dot_before_elim host domain at h = elim (Option-cases (get_elem? host at)) [
  | inl e ↦ absurd (ground arith)
  | inr (c, e) ↦
      (let both : (c == b'.') && eq_ignore_ascii_case (drop (suc at) host) domain ≡ true =
          ground arith in
        let dot : c ≡ b'.' = ground arith in
        (
          take at host,
          drop (suc at) host,
          ground (arith, dot, get_elem?-split host at {x = c} e),
          ground arith,
        ))
]

dot_before_intro :
    (label rest domain : Text)
    → eq_ignore_ascii_case rest domain ≡ true
    → dot_before (label ++ b'.' ∷ rest) domain (length label) ≡ true
unfolding dot_before
dot_before_intro label rest domain h =
    ground (arith, h, get_elem?-append label rest b'.', drop-append label rest b'.')

after_dot :
    (host : Text) (d : ℕ) (ds : Text)
    → domain_matches host (d ∷ ds) ≡ true
    → eq_ignore_ascii_case host (d ∷ ds) ≡ false
    → dot_before host (d ∷ ds) (length host - (length (d ∷ ds) + 1)) ≡ true
unfolding domain_matches
after_dot host d ds h e = ground arith

subdomain_matches :
    (label rest domain : Text)
    → domain ≢ []
    → eq_ignore_ascii_case rest domain ≡ true
    → domain_matches (label ++ b'.' ∷ rest) domain ≡ true
unfolding domain_matches
subdomain_matches label rest [] n t = absurd (n refl)
subdomain_matches label rest (d ∷ ds) n t =
    let host = label ++ b'.' ∷ rest in
    let whole : length host ≡ length label + suc (length rest) =
      length-append label (b'.' ∷ rest) in
    let same : length rest ≡ suc (length ds) = length-eq_ignore_ascii_case rest (d ∷ ds) t in
    let at : length host - (suc (length ds) + 1) ≡ length label = omega arith in
    let here = dot_before_intro label rest (d ∷ ds) t in ground (arith, whole, same, at, here)

domain_matches_sound :
    (host domain : Text)
    → domain_matches host domain ≡ true
    → (domain ≢ []) × ((eq_ignore_ascii_case host domain ≡ true) ⊎ IsSubdomain host domain)
domain_matches_sound host [] h = absurd (unfold domain_matches in ground arith)
domain_matches_sound host (d ∷ ds) h = (
  λ e. cc,
  elim (Bool-cases (eq_ignore_ascii_case host (d ∷ ds))) [
    | inl e ↦ inl e
    | inr e ↦ inr (dot_before_elim host (d ∷ ds) _ (after_dot host d ds h e))
  ],
)

domain_matches_complete :
    (host domain : Text)
    → domain ≢ []
    → (eq_ignore_ascii_case host domain ≡ true) ⊎ IsSubdomain host domain
    → domain_matches host domain ≡ true
domain_matches_complete host [] n h = absurd (n refl)
domain_matches_complete host (d ∷ ds) n (inl e) = unfold domain_matches in rw e
domain_matches_complete host (d ∷ ds) n (inr (label, rest, e, t)) =
    rw e (subdomain_matches label rest (d ∷ ds) n t)

-- A cookie's domain covers a host exactly when it is not empty and, letter case aside, it is the host
-- or a dot and the domain end the host.
pub domain_matches_iff :
    (host domain : Text)
    → (domain_matches host domain ≡ true)
      ↔ ((domain ≢ []) × ((eq_ignore_ascii_case host domain ≡ true) ⊎ IsSubdomain host domain))
domain_matches_iff host domain =
    (domain_matches_sound host domain, λ h. domain_matches_complete host domain h.0 h.1)
