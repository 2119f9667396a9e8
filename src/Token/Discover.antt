-- ===== src/Token/Discover.antt =====
-- Discovery and the key set: `discover` and `fetch_jwks` of src/token.rs, and what the library reads
-- with other crates.
pub mod Trusted
use himmelcloak.Prelude.{
  ℕ, Text, text, text_eq, trim_end_matches, null, any, List, [], ◌∷◌, ◌++◌, Option, none, some,
  Bool, true, false, not, ◌==◌, if◌then◌else◌, Error, protocol, http_status, Result, ok, err,
  and_then, ok_or, ensure, Run, ◌>>=◌, ◌>>◌, pure, lift,
}
use himmelcloak.Platform.{UrlLib}
use himmelcloak.Transport.{Machine, Response, get_request}
use himmelcloak.Crypto.{Wolfcrypt}
use himmelcloak.Token.Value.{Value, array_field}
use himmelcloak.Token.Endpoint.{endpoint}
use himmelcloak.Token.IdToken.{key_eligible}

pub record RawMetadata : Type 0 where
  pub issuer : Text
  pub authorization_endpoint : Text
  pub token_endpoint : Text
  pub jwks_uri : Text
  pub userinfo_endpoint : Text
  pub revocation_endpoint : Text

pub record Metadata (L : UrlLib) : Type 0 where
  pub issuer : Text
  pub authorization_endpoint : L.Url
  pub token_endpoint : L.Url
  pub jwks_uri : L.Url
  pub userinfo_endpoint : L.Url
  pub revocation_endpoint : L.Url

-- The other crates: serde_json, base64 and wolfCrypt.
pub record Codec : Type 0 where
  -- `serde_json::from_slice`
  pub from_slice : Text → Option Value
  pub raw_metadata : Text → Option RawMetadata
  -- a number, read by `as_u64`
  pub number_of : Text → Option (Option ℕ)
  -- the base64 decoder and the public keys
  pub wolfcrypt : Wolfcrypt
  -- SHA-256, encoded for a URL
  pub pkce_challenge : Text → Result Text

-- The issuer's address without its last slashes.
unfoldable pub issuer_text : (L : UrlLib) → L.Url → Text
issuer_text L url = trim_end_matches (λ b. b == b'/') (L.as_str url)

-- `jwks_has_eligible_key`
unfoldable pub jwks_has_eligible_key : Value → Text → Text → Bool
jwks_has_eligible_key jwks kid algorithm = elim (array_field jwks (text "keys")) [
  | none ↦ false
  | some keys ↦ any (λ key. key_eligible key kid algorithm) keys
]

-- The key set has an array of keys that is not empty.
unfoldable pub has_keys : Value → Bool
has_keys jwks = elim (array_field jwks (text "keys")) [ none ↦ false | some keys ↦ not (null keys) ]

-- A reply of status 200.
unfoldable pub expect_ok : Response → Result (Unit {0})
expect_ok response = ensure (response.status == 200) (http_status response.status)

module _ {L : UrlLib} where
  -- The document, once it is read.
  unfoldable pub trust : L.Url → RawMetadata → Result (Metadata L)
  trust expected raw =
      and_then
        (ensure (text_eq raw.issuer (issuer_text L expected))
          (protocol "discovered issuer mismatch"))
        λ _. and_then (endpoint L raw.authorization_endpoint expected) λ authorization.
          and_then (endpoint L raw.token_endpoint expected) λ token.
            and_then (endpoint L raw.jwks_uri expected) λ jwks.
              and_then (endpoint L raw.userinfo_endpoint expected) λ userinfo.
                and_then (endpoint L raw.revocation_endpoint expected) λ revocation. ok (record {
                  issuer = raw.issuer;
                  authorization_endpoint = authorization;
                  token_endpoint = token;
                  jwks_uri = jwks;
                  userinfo_endpoint = userinfo;
                  revocation_endpoint = revocation;
                })

module _ {L : UrlLib} (M : Machine L) (K : Codec) where
  -- `discover`
  unfoldable pub discover : L.Url → Run M.World (Metadata L)
  unfolding trust expect_ok issuer_text
  discover expected =
      lift (
        ok_or (L.parse (issuer_text L expected ++ text "/.well-known/openid-configuration"))
          (protocol "invalid discovery URL"))
      >>= λ url. M.send (get_request url) >>= λ response. lift (expect_ok response) >>= λ _.
          lift (ok_or (K.raw_metadata response.body) (protocol "invalid discovery document"))
          >>= λ raw. lift (trust expected raw)

  -- `fetch_jwks`
  unfoldable pub fetch_jwks : L.Url → Run M.World Value
  unfolding expect_ok has_keys
  fetch_jwks url = M.send (get_request url) >>= λ response. lift (expect_ok response) >>= λ _.
      lift (ok_or (K.from_slice response.body) (protocol "invalid JWKS")) >>= λ jwks.
      lift (ensure (has_keys jwks) (protocol "JWKS has no keys")) >>= λ _. pure jwks
