-- ===== src/Client/KeySet.antt =====
-- The key set of a client always has keys: `with_transport` starts with one that has, and no operation
-- replaces it by one that has not.
use himmelcloak.Prelude.{
  Text, text, List, Option, none, some, true, false, Error, Result, ok, err, ok_or, ensure, Keeps,
  keeps-resume, Keeps-if, WhenOk, WhenOk-resume, WhenOk-elim, Bool-cases, inl, inr, ◌≡◌, refl,
  is_some, is_text, not, ◌||◌,
}
use himmelcloak.Platform.{UrlLib}
use himmelcloak.Transport.{Machine, get_request}
use himmelcloak.Config.{Config, validate, issuer}
use himmelcloak.Token.Claims.Checked.{ensure-ok}
use himmelcloak.SensitiveJson.{parse}
use himmelcloak.Standard as Grant
use himmelcloak.Token.IdToken.{token_key_info}
use himmelcloak.Token.Value.{Value, text_field}
use himmelcloak.Token.Discover.{
  Codec, discover, fetch_jwks, jwks_has_eligible_key, has_keys, expect_ok,
}
use himmelcloak.Flow.Types.{Tokens}
use himmelcloak.Client.{
  Client, Features, session_subject, with_transport, refresh_keys, check_token, verify_tokens,
  stored, remote, grant, sign_in, acquire_token_by_password, redeem_code, user_claims, token_claims,
  confirm, refresh_tokens, recheck, userinfo,
}

-- The key set has keys.
abbrev pub HasKeys : {W : Type 0} → Value × W → Type 0
HasKeys s = has_keys s.0 ≡ true

module _ {L : UrlLib} (M : Machine L) (K : Codec) where
  fetch_jwks-has_keys :
      (url : L.Url) (w : M.World)
      → WhenOk (λ jwks (w' : M.World). has_keys jwks ≡ true) (fetch_jwks M K url w)
  unfolding fetch_jwks
  fetch_jwks-has_keys url w =
      let P : Value → M.World → Type 0 = λ jwks w'. has_keys jwks ≡ true in
      let (r, w1) = M.send (get_request url) w in
      WhenOk-resume P r _ w1 λ response _. WhenOk-resume P (expect_ok response) _ w1 λ _ _.
        WhenOk-resume P (ok_or (K.from_slice response.body) _) _ w1 λ jwks _.
          WhenOk-resume P (ensure (has_keys jwks) _) _ w1 λ _ e. ensure-ok (has_keys jwks) _ e

  module _ (app : Client L) where
    stored-HasKeys :
        (old : Value) (r : Result Value) (w : M.World)
        → has_keys old ≡ true
        → WhenOk (λ jwks (w' : M.World). has_keys jwks ≡ true) (r, w)
        → has_keys (stored old r).1 ≡ true
    unfolding stored
    stored-HasKeys old (ok jwks) w q h = h
    stored-HasKeys old (err e) w q h = q

    refresh_keys-HasKeys : (info : Text × Text) → Keeps HasKeys (refresh_keys M K app info)
    unfolding refresh_keys
    refresh_keys-HasKeys info s q = elim (Bool-cases (jwks_has_eligible_key s.0 info.0 info.1)) [
      | inl e ↦ rw e q
      | inr e ↦ rw e (
          stored-HasKeys s.0 (fetch_jwks M K app.metadata.jwks_uri s.1).0
            (fetch_jwks M K app.metadata.jwks_uri s.1).1 q
            (fetch_jwks-has_keys app.metadata.jwks_uri s.1))
    ]

    verify_tokens-HasKeys :
        (tokens : Tokens) (expected : Option Text)
        → Keeps HasKeys (verify_tokens M K app tokens expected)
    unfolding verify_tokens check_token
    verify_tokens-HasKeys tokens expected s q =
        keeps-resume HasKeys (ok_or tokens.id_token _) _ s q λ id_token.
          keeps-resume HasKeys (token_key_info K.wolfcrypt.decode (parse K.number_of) id_token) _ s
            q
            λ info.
              (let (r, s1) = refresh_keys M K app info s in
                keeps-resume HasKeys r _ s1 (refresh_keys-HasKeys info s q)
                  λ _. refresh_keys-HasKeys info s q)

    sign_in-HasKeys :
        (fields : List (Text × Text)) (expected : Option Text)
        → Keeps HasKeys (sign_in M K app fields expected)
    unfolding sign_in grant
    sign_in-HasKeys fields expected s q =
        let (r, s1) = grant M K app fields true s in
        keeps-resume HasKeys r _ s1 q λ tokens.
          (let (r2, s2) = verify_tokens M K app tokens expected s1 in
            let k = verify_tokens-HasKeys tokens expected s1 q in
            keeps-resume HasKeys r2 _ s2 k λ _. k)

    user_claims-HasKeys :
        (access subject : Text) (e : Error) → Keeps HasKeys (user_claims M K app access subject e)
    unfolding user_claims
    user_claims-HasKeys access subject e s q =
        let (r, s1) = remote (Grant.userinfo K M app.metadata.userinfo_endpoint access) s in
        keeps-resume HasKeys r _ s1 q λ user.
          keeps-resume HasKeys (ensure (is_text (text_field user (text "sub")) subject) e) _ s1 q
            λ _. q

    token_claims-HasKeys :
        (tokens : Tokens) (subject : Text) (e : Error)
        → Keeps HasKeys (token_claims M K app tokens subject e)
    unfolding token_claims
    token_claims-HasKeys tokens subject e s q =
        let (r, s1) = verify_tokens M K app tokens none s in
        let k = verify_tokens-HasKeys tokens none s q in
        keeps-resume HasKeys r _ s1 k λ claims.
          keeps-resume HasKeys (ensure (is_text (text_field claims (text "sub")) subject) e) _ s1 k
            λ _. k

    confirm-HasKeys :
        (subject : Text) (tokens : Tokens) → Keeps HasKeys (confirm M K app subject tokens)
    unfolding confirm
    confirm-HasKeys subject tokens =
        Keeps-if HasKeys (is_some tokens.id_token) _ _ (token_claims-HasKeys tokens subject _)
          (user_claims-HasKeys tokens.access_token subject _)

    -- Refreshing keeps the keys.
    pub refresh_tokens-HasKeys :
        (previous : Tokens) → Keeps HasKeys (refresh_tokens M K app previous)
    unfolding refresh_tokens grant
    refresh_tokens-HasKeys previous s q =
        keeps-resume HasKeys (session_subject app previous) _ s q λ subject.
          keeps-resume HasKeys (ok_or previous.refresh_token _) _ s q λ refresh_token.
            keeps-resume HasKeys (ensure (is_text previous.verified_refresh_token refresh_token) _)
              _ s q
              λ _.
                (let (r, s1) = grant M K app _ false s in
                  keeps-resume HasKeys r _ s1 q λ tokens.
                    (let (r2, s2) = confirm M K app subject tokens s1 in
                      let k = confirm-HasKeys subject tokens s1 q in
                      keeps-resume HasKeys r2 _ s2 k λ _. k))

    pub userinfo-HasKeys : (tokens : Tokens) → Keeps HasKeys (userinfo M K app tokens)
    unfolding userinfo recheck
    userinfo-HasKeys tokens s q = keeps-resume HasKeys (session_subject app tokens) _ s q λ subject.
        (let (r, s1) = recheck M K app subject tokens s in
          let k = recheck-HasKeys subject tokens s q in
          keeps-resume HasKeys r _ s1 k λ _. user_claims-HasKeys tokens.access_token subject _ s1 k)
      where
        recheck-HasKeys :
            (subject : Text) (tokens : Tokens) → Keeps HasKeys (recheck M K app subject tokens)
        recheck-HasKeys subject tokens =
            Keeps-if HasKeys (is_some tokens.id_token) _ _
              (λ s q.
                let (r, s1) = token_claims M K app tokens subject _ s in
                let k = token_claims-HasKeys tokens subject _ s q in
                keeps-resume HasKeys r _ s1 k λ _. k)
              (λ s q. q)

    pub acquire_token_by_password-HasKeys :
        (features : Features) (username password : Text) (totp : Option Text)
        → Keeps HasKeys (acquire_token_by_password M K app features username password totp)
    unfolding acquire_token_by_password
    acquire_token_by_password-HasKeys features username password totp s q =
        keeps-resume HasKeys (ensure features.password _) _ s q λ _.
          keeps-resume HasKeys (ensure (not (is_some totp) || features.totp) _) _ s q
            λ _. sign_in-HasKeys _ none s q

    pub redeem_code-HasKeys :
        (code verifier nonce : Text) → Keeps HasKeys (redeem_code M K app code verifier nonce)
    unfolding redeem_code
    redeem_code-HasKeys code verifier nonce = sign_in-HasKeys _ (some nonce)

module _ {L : UrlLib} (M : Machine L) (K : Codec) where
  -- A client is made only of valid settings, and with a key set that has keys.
  pub with_transport-HasKeys :
      (config : Config L) (w : M.World)
      → WhenOk
          (λ (made : Client L × Value) (w' : M.World).
            (validate config ≡ ok tt) × (made.0.config ≡ config) × (has_keys made.1 ≡ true))
          (with_transport M K config w)
  unfolding with_transport
  with_transport-HasKeys config w =
      let P : Client L × Value → M.World → Type 0 = λ made w'.
        (validate config ≡ ok tt) × (made.0.config ≡ config) × (has_keys made.1 ≡ true) in
      WhenOk-resume P (validate config) _ w λ _ a. WhenOk-resume P (issuer config) _ w λ url _.
        (let (r, w1) = discover M K url w in
          WhenOk-resume P r _ w1 λ metadata _.
            (let (r2, w2) = fetch_jwks M K metadata.jwks_uri w1 in
              WhenOk-resume P r2 _ w2 λ jwks e. (
                a,
                refl,
                WhenOk-elim (λ j (w' : M.World). has_keys j ≡ true) r2 w2
                    (fetch_jwks-has_keys M K metadata.jwks_uri w1) e,
              )))
