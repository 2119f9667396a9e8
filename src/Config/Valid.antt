-- ===== src/Config/Valid.antt =====
-- What settings are accepted.
use himmelcloak.Prelude.{
  ℕ, ◌≤◌, Text, text, text_eq, text_eq_sound, text_eq_self, null, any, any_intro, any_elim, ◌∙◌, [],
  ◌∷◌, none, Bool, true, false, ◌==◌, ok, Bool-cases, ◌≡◌, ◌≢◌, ◌↔◌, inl, inr, refl, sym, arith,
  Memᴰ,
}
use mathlib.Core.Bool.{false≢true}
use mathlib.Core.Path.{subst}
use himmelcloak.Platform.{UrlLib}
use himmelcloak.Config.{Config, validate}

-- Settings that a client may be built from: an HTTPS server without credentials, query or fragment, a
-- callback without query or fragment, a realm that is one path segment, a client, and at least the
-- millisecond that the transport can count.
pub record IsValid {L : UrlLib} (c : Config L) : Type 0 where
  pub https : L.scheme c.server_url ≡ text "https"
  pub no_server_query : L.query c.server_url ≡ none
  pub no_server_fragment : L.fragment c.server_url ≡ none
  pub no_username : L.username c.server_url ≡ []
  pub no_password : L.password c.server_url ≡ none
  pub no_redirect_query : L.query c.redirect_uri ≡ none
  pub no_redirect_fragment : L.fragment c.redirect_uri ≡ none
  pub has_realm : c.realm ≢ []
  pub one_segment : ¬ Memᴰ b'/' c.realm
  pub not_dot : c.realm ≢ text "."
  pub not_dots : c.realm ≢ text ".."
  pub has_client : c.client_id ≢ []
  pub in_time : 1000000 ≤ c.timeout

differs : (s t : Text) → text_eq s t ≡ false → s ≢ t
differs s t h e = false≢true (sym h ∙ rw e (text_eq_self t))

text_eq-differs : (s t : Text) → s ≢ t → text_eq s t ≡ false
text_eq-differs s t n = elim (Bool-cases (text_eq s t)) [
  | inl e ↦ absurd (n (text_eq_sound s t e))
  | inr e ↦ e
]

abbrev is_slash : ℕ → Bool
is_slash b = b == b'/'

slash_free : (s : Text) → any is_slash s ≡ false → ¬ Memᴰ b'/' s
slash_free s h m = false≢true (sym h ∙ any_intro is_slash m refl)

slash_free_complete : (s : Text) → ¬ Memᴰ b'/' s → any is_slash s ≡ false
slash_free_complete s n = elim (Bool-cases (any is_slash s)) [
  | inr e ↦ e
  | inl e ↦
      (let (b, m, q) = any_elim is_slash s e in
        let slash : b ≡ b'/' = ground arith in absurd (n (subst (λ c. Memᴰ c s) slash m)))
]

module _ {L : UrlLib} (c : Config L) where
  -- The outcomes of the tests of settings that pass.
  record Passed : Type 0 where
    https : text_eq (L.scheme c.server_url) (text "https") ≡ true
    server_query : L.query c.server_url ≡ none
    server_fragment : L.fragment c.server_url ≡ none
    username : L.username c.server_url ≡ []
    password : L.password c.server_url ≡ none
    redirect_query : L.query c.redirect_uri ≡ none
    redirect_fragment : L.fragment c.redirect_uri ≡ none
    realm : null c.realm ≡ false
    slash : any is_slash c.realm ≡ false
    dot : text_eq c.realm (text ".") ≡ false
    dots : text_eq c.realm (text "..") ≡ false
    client : null c.client_id ≡ false
    time : 1000000 ≤ c.timeout

  validate-Passed : validate c ≡ ok tt → Passed
  unfolding validate
  validate-Passed h = record {
    https = ground arith;
    server_query = ground arith;
    server_fragment = ground arith;
    username = ground arith;
    password = ground arith;
    redirect_query = ground arith;
    redirect_fragment = ground arith;
    realm = ground arith;
    slash = ground arith;
    dot = ground arith;
    dots = ground arith;
    client = ground arith;
    time = ground arith;
  }

  Passed-validate : Passed → validate c ≡ ok tt
  unfolding validate
  Passed-validate p = ground (
    arith, p.https, p.server_query, p.server_fragment, p.username, p.password, p.redirect_query,
    p.redirect_fragment, p.realm, p.slash, p.dot, p.dots, p.client, p.time,
  )

  validate-IsValid : validate c ≡ ok tt → IsValid c
  validate-IsValid h =
      let p = validate-Passed h in
      record {
        https = text_eq_sound _ _ p.https;
        no_server_query = p.server_query;
        no_server_fragment = p.server_fragment;
        no_username = p.username;
        no_password = p.password;
        no_redirect_query = p.redirect_query;
        no_redirect_fragment = p.redirect_fragment;
        has_realm = λ e. false≢true (sym p.realm ∙ rw e refl);
        one_segment = slash_free c.realm p.slash;
        not_dot = differs c.realm _ p.dot;
        not_dots = differs c.realm _ p.dots;
        has_client = λ e. false≢true (sym p.client ∙ rw e refl);
        in_time = p.time;
      }

  full : (t : Text) → t ≢ [] → null t ≡ false
  full [] n = absurd (n refl)
  full (b ∷ t) n = refl

  IsValid-validate : IsValid c → validate c ≡ ok tt
  IsValid-validate v = Passed-validate (record {
    https = rw v.https (text_eq_self (text "https"));
    server_query = v.no_server_query;
    server_fragment = v.no_server_fragment;
    username = v.no_username;
    password = v.no_password;
    redirect_query = v.no_redirect_query;
    redirect_fragment = v.no_redirect_fragment;
    realm = full c.realm v.has_realm;
    slash = slash_free_complete c.realm v.one_segment;
    dot = text_eq-differs c.realm _ v.not_dot;
    dots = text_eq-differs c.realm _ v.not_dots;
    client = full c.client_id v.has_client;
    time = v.in_time;
  })

-- Settings are accepted exactly when they are valid: an HTTPS server without credentials, query or
-- fragment, a callback without query or fragment, a realm that is one path segment and no dot segment,
-- a client ID, and a timeout of a millisecond at least.
pub validate-iff-IsValid : {L : UrlLib} (c : Config L) → (validate c ≡ ok tt) ↔ IsValid c
validate-iff-IsValid c = (validate-IsValid c, IsValid-validate c)
