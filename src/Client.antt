-- ===== src/Client.antt =====
-- `PublicClientApplication` (src/client.rs): the settings, the discovered metadata and the key set, and
-- the operations on sessions. An operation runs on the key set and the machine. The lock on the key
-- set is never poisoned here.
pub mod Verified
pub mod KeySet
pub mod Sessions
pub mod Flows
pub mod Calls
pub mod Login
use himmelcloak.Prelude.{
  ℕ, Text, text, text_eq, is_text, List, [], ◌∷◌, ◌++◌, Option, none, some, Bool, true, false, not,
  ◌==◌, ◌&&◌, ◌||◌, is_some, if◌then◌else◌, Error, protocol, token_validation, unsupported_factor,
  Result, ok, err, and_then, ok_or, ensure, Run, ◌>>=◌, ◌>>◌, pure, lift, raise,
}
use himmelcloak.Platform.{UrlLib}
use himmelcloak.Transport.{Machine}
use himmelcloak.Config.{Config, validate, issuer}
use himmelcloak.Crypto.{verify}
use himmelcloak.SensitiveJson.{parse}
use himmelcloak.Standard as Grant
use himmelcloak.Standard.{acquire, revoke}
use himmelcloak.Token.Value.{Value, text_field}
use himmelcloak.Token.Discover.{Codec, Metadata, discover, fetch_jwks, jwks_has_eligible_key}
use himmelcloak.Token.IdToken.{token_key_info, verify_id_token}
use himmelcloak.Token.Authorize as Authorization
use himmelcloak.Flow.Types.{Tokens}
use himmelcloak.Flow.Session.{Start, App}

-- The methods that the build switches on.
pub record Features : Type 0 where
  pub password : Bool
  pub totp : Bool

-- What a `PublicClientApplication` holds besides its key set and transport.
pub record Client (L : UrlLib) : Type 0 where
  pub config : Config L
  pub metadata : Metadata L

module _ {L : UrlLib} (M : Machine L) (K : Codec) where
  -- `with_transport`, with the first key set
  unfoldable pub with_transport : Config L → Run M.World (Client L × Value)
  with_transport config = lift (validate config) >>= λ _. lift (issuer config) >>= λ url.
      discover M K url >>= λ metadata. fetch_jwks M K metadata.jwks_uri >>= λ jwks.
      pure (record { config = config; metadata = metadata }, jwks)

module _ {L : UrlLib} where
  -- `session_subject`
  unfoldable pub session_subject : Client L → Tokens → Result Text
  session_subject app tokens =
      and_then (ok_or tokens.verified_subject (token_validation "unverified session")) λ subject.
        if is_text tokens.verified_issuer app.metadata.issuer
          && is_text tokens.verified_client_id app.config.client_id
        then ok subject
        else err (token_validation "session issuer or client mismatch")

  -- The marks that a verified session carries.
  unfoldable pub mark : Client L → Option Text → Tokens → Tokens
  mark app subject tokens = record tokens {
    verified_subject = subject;
    verified_issuer = some app.metadata.issuer;
    verified_client_id = some app.config.client_id;
    verified_refresh_token = tokens.refresh_token;
  }

  -- `login_client`
  unfoldable pub login_client : Client L → Text
  login_client app =
      app.metadata.issuer ++ b' ' ∷ app.config.client_id ++ b' ' ∷ L.as_str app.config.redirect_uri

-- An operation of the machine alone.
abbrev pub remote : {W A : Type 0} → Run W A → Run (Value × W) A
remote op s = let (r, w) = op s.1 in (r, (s.0, w))

-- The key set after a fetch: a failed one leaves it as it was.
unfoldable pub stored : Value → Result Value → Result (Unit {0}) × Value
stored old (ok jwks) = (ok tt, jwks)
stored old (err e) = (err e, old)

-- The form of the password grant.
unfoldable pub password_fields : Text → Text → Text → Option Text → List (Text × Text)
password_fields client_id username password totp =
    (text "grant_type", text "password")
    ∷ (text "client_id", client_id)
    ∷ (text "scope", text "openid")
    ∷ (text "username", username)
    ∷ (text "password", password)
    ∷ elim totp [ none ↦ [] | some code ↦ (text "totp", code) ∷ [] ]

-- The refresh token of a reply, or the one that was sent.
or_previous : Text → Option Text → Text
or_previous previous none = previous
or_previous previous (some t) = t

module _ {L : UrlLib} (M : Machine L) (K : Codec) (app : Client L) where
  -- The key set is fetched again when it has no key for the token.
  unfoldable pub refresh_keys : Text × Text → Run (Value × M.World) (Unit {0})
  unfolding stored
  refresh_keys info s =
      if jwks_has_eligible_key s.0 info.0 info.1
      then (ok tt, s)
      else (let (r, w) = fetch_jwks M K app.metadata.jwks_uri s.1 in
          let (r', jwks) = stored s.0 r in (r', (jwks, w)))

  -- `token::verify_id_token` with the clock and the key set as they stand.
  unfoldable pub check_token : Text → Option Text → Run (Value × M.World) Value
  check_token id_token nonce s =
      let (clock, w) = M.system_time s.1 in
      (
        verify_id_token K.wolfcrypt.decode (parse K.number_of) (verify K.wolfcrypt) clock id_token
            s.0 app.metadata.issuer app.config.client_id nonce,
        (s.0, w),
      )

  -- `verify_tokens`
  unfoldable pub verify_tokens : Tokens → Option Text → Run (Value × M.World) Value
  unfolding refresh_keys check_token
  verify_tokens tokens nonce =
      lift (ok_or tokens.id_token (token_validation "missing ID token")) >>= λ id_token.
      lift (token_key_info K.wolfcrypt.decode (parse K.number_of) id_token) >>= λ info.
      refresh_keys info >>= λ _. check_token id_token nonce

  -- `acquire` at the token endpoint
  unfoldable pub grant : List (Text × Text) → Bool → Run (Value × M.World) Tokens
  grant fields require_id_token =
      remote (acquire K M app.metadata.token_endpoint fields require_id_token)

  -- The tokens of a grant that comes with an ID token.
  unfoldable pub sign_in : List (Text × Text) → Option Text → Run (Value × M.World) Tokens
  unfolding grant verify_tokens mark
  sign_in fields nonce = grant fields true >>= λ tokens. verify_tokens tokens nonce >>= λ claims.
      pure (mark app (text_field claims (text "sub")) tokens)

  -- `acquire_token_by_password`
  unfoldable pub acquire_token_by_password :
      Features → Text → Text → Option Text → Run (Value × M.World) Tokens
  unfolding sign_in password_fields
  acquire_token_by_password features username password totp =
      lift (ensure features.password unsupported_factor) >>= λ _.
      lift (ensure (not (is_some totp) || features.totp) unsupported_factor) >>= λ _.
      sign_in (password_fields app.config.client_id username password totp) none

  -- `redeem_code`
  unfoldable pub redeem_code : Text → Text → Text → Run (Value × M.World) Tokens
  unfolding sign_in
  redeem_code code verifier nonce =
      sign_in
        ((text "grant_type", text "authorization_code")
          ∷ (text "client_id", app.config.client_id)
          ∷ (text "code", code)
          ∷ (text "redirect_uri", L.as_str app.config.redirect_uri)
          ∷ (text "code_verifier", verifier)
          ∷ [])
        (some nonce)

  -- The userinfo endpoint's answer, for the subject only.
  unfoldable pub user_claims : Text → Text → Error → Run (Value × M.World) Value
  user_claims access_token subject mismatch =
      remote (Grant.userinfo K M app.metadata.userinfo_endpoint access_token) >>= λ user.
      lift (ensure (is_text (text_field user (text "sub")) subject) mismatch) >>= λ _. pure user

  -- The ID token's claims, for the subject only.
  unfoldable pub token_claims : Tokens → Text → Error → Run (Value × M.World) Value
  unfolding verify_tokens
  token_claims tokens subject mismatch = verify_tokens tokens none >>= λ claims.
      lift (ensure (is_text (text_field claims (text "sub")) subject) mismatch) >>= λ _. pure claims

  -- Whose the refreshed tokens are: by their ID token, or else by the userinfo endpoint.
  unfoldable pub confirm : Text → Tokens → Run (Value × M.World) Value
  unfolding user_claims token_claims
  confirm subject tokens =
      if is_some tokens.id_token
      then token_claims tokens subject (token_validation "refreshed subject mismatch")
      else user_claims tokens.access_token subject (token_validation "refreshed subject mismatch")

  -- `refresh_tokens`
  unfoldable pub refresh_tokens : Tokens → Run (Value × M.World) Tokens
  unfolding session_subject grant confirm mark or_previous
  refresh_tokens previous = lift (session_subject app previous) >>= λ subject.
      lift (ok_or previous.refresh_token (protocol "session has no refresh token"))
      >>= λ refresh_token.
          lift (
            ensure (is_text previous.verified_refresh_token refresh_token)
              (token_validation "refresh token changed"))
          >>= λ _.
              grant
                ((text "grant_type", text "refresh_token")
                  ∷ (text "client_id", app.config.client_id)
                  ∷ (text "refresh_token", refresh_token)
                  ∷ [])
                false
              >>= λ tokens. confirm subject tokens >>= λ _. pure (
                  mark app (some subject) (record tokens {
                    refresh_token = some (or_previous refresh_token tokens.refresh_token);
                  }))

  -- `revoke_token`
  unfoldable pub revoke_token : Text → Run (Value × M.World) (Unit {0})
  revoke_token token = remote (revoke M app.metadata.revocation_endpoint app.config.client_id token)

  -- The ID token of a session, if it has one, names the session's subject.
  unfoldable pub recheck : Text → Tokens → Run (Value × M.World) (Unit {0})
  unfolding token_claims
  recheck subject tokens =
      if is_some tokens.id_token
      then (token_claims tokens subject (token_validation "session subject mismatch") >>= λ _.
          pure tt)
      else pure tt

  -- `userinfo`
  unfoldable pub userinfo : Tokens → Run (Value × M.World) Value
  unfolding session_subject recheck user_claims
  userinfo tokens = lift (session_subject app tokens) >>= λ subject. recheck subject tokens >>= λ _.
      user_claims tokens.access_token subject (token_validation "userinfo subject mismatch")

  -- `authorization_url`, for a login that is active
  unfoldable pub authorize : Start → Text → Text → Text → Result L.Url
  authorize start verifier state nonce =
      Authorization.authorization_url {L = L} K.pkce_challenge app.metadata.authorization_endpoint
        (record {
          client_id = app.config.client_id;
          redirect_uri = app.config.redirect_uri;
          login_hint = start.login_hint;
          scopes = start.scopes;
          pkce_verifier = verifier;
          state = state;
          nonce = nonce;
        })

  -- What the driver uses of the application.
  unfoldable pub application : App M
  unfolding login_client authorize redeem_code
  application = record {
    Keys = Value;
    redirect_uri = app.config.redirect_uri;
    login_client = login_client app;
    authorize = authorize;
    redeem_code = redeem_code;
  }
