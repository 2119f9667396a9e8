-- ===== src/Token/Endpoint/Realm.antt =====
-- An accepted endpoint belongs to the issuer's server and realm.
use himmelcloak.Prelude.{
  Text, text, text_eq, text_eq_sound, text_eq_self, any, any_intro, all, all_elim, List, [], ◌∷◌,
  ◌++◌, Option, none, some, true, false, ◌==◌, ◌&&◌, Error, ok, and_then-eq_ok, ok-injective,
  protocol, ok_or, Option-cases, and_elim, ◌≡◌, inl, inr, refl, sym, ap, ◌∙◌, arith, Memᴰ,
}
use mathlib.Core.Bool.{false≢true}
use mathlib.Core.Path.{subst}
use himmelcloak.Platform.{UrlLib, OriginLaws}
use himmelcloak.Token.Endpoint.{
  segments, issuer_realm, after_last, pair_matches, is_plain, endpoint_in_realm, outside,
  check_endpoint, endpoint,
}

-- The path stands in the realm: it names the realm, and no segment after that could start another.
pub record IsInRealm (path realm : Text) : Type 0 where
  pub before : List Text
  pub after : List Text
  pub named : segments path ≡ before ++ text "realms" ∷ realm ∷ after
  pub no_realms : ¬ Memᴰ (text "realms") after
  pub no_escape : (s : Text) → Memᴰ s after → ¬ Memᴰ b'%' s

pair_matches-split :
    (realm first : Text) (more : List Text) {rest : List Text}
    → pair_matches realm first more ≡ some rest
    → (first ≡ text "realms") × (more ≡ realm ∷ rest)
unfolding pair_matches
pair_matches-split realm first [] h = absurd (ground arith)
pair_matches-split realm first (second ∷ more) {rest} h =
    let both : text_eq first (text "realms") && text_eq second realm ≡ true = ground arith in
    let (a, b) = and_elim (text_eq first (text "realms")) (text_eq second realm) both in
    let same : more ≡ rest = ground arith in
    (text_eq_sound first _ a, rw (text_eq_sound second realm b, same) refl)

after_last-split :
    (realm : Text) (path : List Text) {rest : List Text}
    → after_last realm path ≡ some rest
    → (before : List Text) × (path ≡ before ++ text "realms" ∷ realm ∷ rest)
unfolding after_last
after_last-split realm [] h = absurd (ground arith)
after_last-split realm (first ∷ more) {rest} h = elim (Option-cases (after_last realm more)) [
  | inr (later, e) ↦
      (let (before, q) = after_last-split realm more (e ∙ ap some (ground arith)) in
        (first ∷ before, ap (λ l. first ∷ l) q))
  | inl e ↦ (let (a, b) = pair_matches-split realm first more (rw e at h) in ([], rw (a, b) refl))
]

plain-parts :
    (s : Text)
    → is_plain s ≡ true
    → (text_eq s (text "realms") ≡ false) × (any (λ b. b == b'%') s ≡ false)
unfolding is_plain
plain-parts s h = (ground arith, ground arith)

endpoint_in_realm-IsInRealm :
    (path realm : Text) → endpoint_in_realm path realm ≡ true → IsInRealm path realm
unfolding endpoint_in_realm
endpoint_in_realm-IsInRealm path realm h = elim (Option-cases (after_last realm (segments path))) [
  | inl e ↦ absurd (ground arith)
  | inr (rest, e) ↦
      (let (before, q) = after_last-split realm (segments path) e in
        let clean : all is_plain rest ≡ true = ground arith in
        record {
          before = before;
          after = rest;
          named = q;
          no_realms = λ m.
              false≢true
                (sym (plain-parts _ (all_elim is_plain m clean)).0 ∙ text_eq_self (text "realms"));
          no_escape = λ s m p. false≢true (
              sym (plain-parts s (all_elim is_plain m clean)).1
              ∙ any_intro (λ b. b == b'%') p refl);
        })
]

-- What an endpoint must be.
pub record IsTrusted (L : UrlLib) (issuer url : L.Url) : Type 0 where
  pub https : L.scheme url ≡ text "https"
  pub same_site : L.origin url ≡ L.origin issuer
  pub no_username : L.username url ≡ []
  pub no_password : L.password url ≡ none
  pub no_fragment : L.fragment url ≡ none
  pub in_realm :
      (realm : Text) → issuer_realm (L.path issuer) ≡ some realm → IsInRealm (L.path url) realm

ok_or-some : {A : Type 0} (o : Option A) (e : Error) {a : A} → ok_or o e ≡ ok a → o ≡ some a
ok_or-some none e h = absurd (ground arith)
ok_or-some (some x) e h = ap some (ok-injective h)

module _ {L : UrlLib} (laws : OriginLaws L) where
  check_endpoint-tests :
      (issuer url : L.Url)
      → check_endpoint L issuer url ≡ ok tt
      → (text_eq (L.scheme url) (text "https") ≡ true)
        × (L.same_origin (L.origin url) (L.origin issuer) ≡ true)
        × (L.username url ≡ [])
        × (L.password url ≡ none)
        × (L.fragment url ≡ none)
        × (outside (issuer_realm (L.path issuer)) (L.path url) ≡ false)
  unfolding check_endpoint
  check_endpoint-tests issuer url h =
      (ground arith, ground arith, ground arith, ground arith, ground arith, ground arith)

  outside-inside :
      (r : Option Text) (path realm : Text)
      → outside r path ≡ false
      → r ≡ some realm
      → endpoint_in_realm path realm ≡ true
  unfolding outside
  outside-inside r path realm h e = ground arith

  trusted : (issuer url : L.Url) → check_endpoint L issuer url ≡ ok tt → IsTrusted L issuer url
  trusted issuer url h =
      let (a, b, c, d, e, f) = check_endpoint-tests issuer url h in
      record {
        https = text_eq_sound _ _ a;
        same_site = (laws.same_origin_iff _ _).0 b;
        no_username = c;
        no_password = d;
        no_fragment = e;
        in_realm = λ realm q.
            endpoint_in_realm-IsInRealm (L.path url) realm
              (outside-inside (issuer_realm (L.path issuer)) (L.path url) realm f q);
      }

  -- An endpoint is accepted only if it is an HTTPS address on the issuer's own origin, without
  -- credentials or fragment, and, where the issuer names a realm, its path stands in that realm with
  -- nothing after it that could start another one.
  pub endpoint-IsTrusted :
      (raw : Text) (issuer : L.Url) {url : L.Url}
      → endpoint L raw issuer ≡ ok url
      → (L.parse raw ≡ some url) × IsTrusted L issuer url
  unfolding endpoint
  endpoint-IsTrusted raw issuer {url} h =
      let (u, parsed, rest) =
        and_then-eq_ok (ok_or (L.parse raw) (protocol "invalid OIDC endpoint")) _ h in
      let (_, checked, q) = and_then-eq_ok (check_endpoint L issuer u) (λ _. ok u) rest in
      let same : u ≡ url = ok-injective q in
      (
        ok_or-some _ _ parsed ∙ ap some same,
        subst (IsTrusted L issuer) same (trusted issuer u checked),
      )
