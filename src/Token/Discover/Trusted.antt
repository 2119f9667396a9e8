-- ===== src/Token/Discover/Trusted.antt =====
-- What discovery trusts.
use himmelcloak.Prelude.{
  text, text_eq, text_eq_sound, ok, ok_or, and_then-eq_ok, ok-injective, ensure, WhenOk,
  WhenOk-resume, WhenOk-intro, ◌≡◌, ◌++◌,
}
use mathlib.Core.Path.{subst}
use himmelcloak.Platform.{UrlLib, OriginLaws}
use himmelcloak.Transport.{Machine, get_request}
use himmelcloak.Token.Claims.Checked.{ensure-ok}
use himmelcloak.Token.Endpoint.{endpoint}
use himmelcloak.Token.Endpoint.Realm.{IsTrusted, endpoint-IsTrusted}
use himmelcloak.Token.Discover.{
  RawMetadata, Metadata, Codec, issuer_text, trust, discover, expect_ok,
}

-- A document that discovery accepts.
pub record IsTrustedFor (L : UrlLib) (expected : L.Url) (m : Metadata L) : Type 0 where
  pub named : m.issuer ≡ issuer_text L expected
  pub authorization : IsTrusted L expected m.authorization_endpoint
  pub token : IsTrusted L expected m.token_endpoint
  pub jwks : IsTrusted L expected m.jwks_uri
  pub userinfo : IsTrusted L expected m.userinfo_endpoint
  pub revocation : IsTrusted L expected m.revocation_endpoint

module _ {L : UrlLib} (laws : OriginLaws L) where
  trust-IsTrustedFor :
      (expected : L.Url) (raw : RawMetadata) {m : Metadata L}
      → trust expected raw ≡ ok m
      → IsTrustedFor L expected m
  unfolding trust
  trust-IsTrustedFor expected raw {m} h =
      let (_, a, h1) =
        and_then-eq_ok (ensure (text_eq raw.issuer (issuer_text L expected)) _) _ h in
      let (u1, b1, h2) = and_then-eq_ok (endpoint L raw.authorization_endpoint expected) _ h1 in
      let (u2, b2, h3) = and_then-eq_ok (endpoint L raw.token_endpoint expected) _ h2 in
      let (u3, b3, h4) = and_then-eq_ok (endpoint L raw.jwks_uri expected) _ h3 in
      let (u4, b4, h5) = and_then-eq_ok (endpoint L raw.userinfo_endpoint expected) _ h4 in
      let (u5, b5, h6) = and_then-eq_ok (endpoint L raw.revocation_endpoint expected) _ h5 in
      subst (IsTrustedFor L expected) (ok-injective h6) (record {
        named = text_eq_sound _ _ (ensure-ok _ _ a);
        authorization = (endpoint-IsTrusted laws raw.authorization_endpoint expected b1).1;
        token = (endpoint-IsTrusted laws raw.token_endpoint expected b2).1;
        jwks = (endpoint-IsTrusted laws raw.jwks_uri expected b3).1;
        userinfo = (endpoint-IsTrusted laws raw.userinfo_endpoint expected b4).1;
        revocation = (endpoint-IsTrusted laws raw.revocation_endpoint expected b5).1;
      })

  -- Discovery accepts only a document of the issuer that it asked for, all five endpoints of which are
  -- trusted: HTTPS, on the issuer's own origin and inside its realm.
  pub discover-IsTrustedFor :
      (M : Machine L) (K : Codec) (expected : L.Url) (w : M.World)
      → WhenOk (λ m (w' : M.World). IsTrustedFor L expected m) (discover M K expected w)
  unfolding discover
  discover-IsTrustedFor M K expected w =
      let P : Metadata L → M.World → Type 0 = λ m w'. IsTrustedFor L expected m in
      WhenOk-resume P
        (ok_or (L.parse (issuer_text L expected ++ text "/.well-known/openid-configuration")) _) _ w
        λ url _.
          (let (r, w1) = M.send (get_request url) w in
            WhenOk-resume P r _ w1 λ response _. WhenOk-resume P (expect_ok response) _ w1 λ _ _.
              WhenOk-resume P (ok_or (K.raw_metadata response.body) _) _ w1 λ raw _.
                WhenOk-intro P (trust expected raw) w1 λ m e. trust-IsTrustedFor expected raw e)
