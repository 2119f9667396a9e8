-- ===== src/Client/Verified.antt =====
-- What the client's check of an ID token shows, and when it fetches the key set.
use himmelcloak.Prelude.{
  Text, Option, some, true, ok, ok_or, err, Result, Bool-cases, inl, inr, ◌⊎◌, WhenOk, WhenOk-intro,
  WhenOk-resume, ◌≡◌, refl,
}
use himmelcloak.Platform.{UrlLib}
use himmelcloak.Transport.{Machine}
use himmelcloak.Crypto.{verify}
use himmelcloak.SensitiveJson.{parse}
use himmelcloak.Token.Value.{Value}
use himmelcloak.Token.Discover.{Codec, jwks_has_eligible_key, fetch_jwks}
use himmelcloak.Token.Claims.Checked.{ok_or-ok}
use himmelcloak.Token.IdToken.{token_key_info}
use himmelcloak.Token.IdToken.Signed.{IsSigned, verify_id_token-IsSigned}
use himmelcloak.Flow.Types.{Tokens}
use himmelcloak.Client.{Client, refresh_keys, stored, check_token, verify_tokens}

module _ {L : UrlLib} (M : Machine L) (K : Codec) (app : Client L) where
  -- The key set of the client is the one it had, or what it was just answered, with the machine as it
  -- stands, when it asked for the key set at the address that its issuer published.
  abbrev pub OwnKeys : Value → Value × M.World → Type 0
  OwnKeys before s =
      (s.0 ≡ before) ⊎ ((w : M.World) × (fetch_jwks M K app.metadata.jwks_uri w ≡ (ok s.0, s.1)))

  stored-OwnKeys :
      (before : Value) (w : M.World) (r : Result Value) (w' : M.World)
      → fetch_jwks M K app.metadata.jwks_uri w ≡ (r, w')
      → OwnKeys before ((stored before r).1, w')
  unfolding stored
  stored-OwnKeys before w (ok jwks) w' e = inr (w, e)
  stored-OwnKeys before w (err x) w' e = inl refl

  refresh_keys-OwnKeys :
      (info : Text × Text) (s : Value × M.World) → OwnKeys s.0 (refresh_keys M K app info s).1
  unfolding refresh_keys
  refresh_keys-OwnKeys info s = elim (Bool-cases (jwks_has_eligible_key s.0 info.0 info.1)) [
    | inl e ↦ rw e (inl refl)
    | inr e ↦
        (let (r, w') = fetch_jwks M K app.metadata.jwks_uri s.1 in
          rw e (stored-OwnKeys s.0 s.1 r w' refl))
  ]

  -- The tokens carry an ID token that the client's own key set verifies at the time its clock shows, with these
  -- claims. Given are the key set before the check and the state after it.
  abbrev pub SignedFor : Tokens → Option Text → Value → Value × M.World → Value → Type 0
  SignedFor tokens nonce before after claims =
      (w : M.World) × OwnKeys before (after.0, w)
      × (after.1 ≡ (M.system_time w).1)
      × ((id_token : Text) × (tokens.id_token ≡ some id_token)
          × IsSigned K.wolfcrypt.decode (parse K.number_of) (verify K.wolfcrypt) (M.system_time w).0
              id_token after.0 app.metadata.issuer app.config.client_id nonce claims)

  -- The check of a client accepts tokens only with an ID token: it is signed by an eligible key of the
  -- key set that the client keeps afterwards, which is the one it had or one it fetched at its issuer's address, for this issuer, client and nonce, and the claims that
  -- the check yields are the ones it carries.
  pub verify_tokens-SignedFor :
      (tokens : Tokens) (nonce : Option Text) (s : Value × M.World)
      → WhenOk
          (λ claims (s' : Value × M.World). SignedFor tokens nonce s.0 s' claims)
          (verify_tokens M K app tokens nonce s)
  unfolding verify_tokens check_token
  verify_tokens-SignedFor tokens nonce s =
      let P : Value → Value × M.World → Type 0 =
        λ claims s'. SignedFor tokens nonce s.0 s' claims in
      WhenOk-resume P (ok_or tokens.id_token _) _ s λ id_token a.
        WhenOk-resume P (token_key_info K.wolfcrypt.decode (parse K.number_of) id_token) _ s
          λ info _.
            (let (r, s1) = refresh_keys M K app info s in
              WhenOk-resume P r _ s1 λ _ _. WhenOk-intro P _ _ λ claims e. (
                s1.1,
                refresh_keys-OwnKeys info s,
                refl,
                (
                  id_token,
                  ok_or-ok _ _ a,
                  verify_id_token-IsSigned K.wolfcrypt.decode (parse K.number_of)
                      (verify K.wolfcrypt) _ id_token s1.0 _ _ nonce e,
                ),
              ))

  -- A client whose key set has an eligible key for the token asks the server for nothing: the key set
  -- stays, and only the clock is read.
  pub verify_tokens-known :
      (tokens : Tokens) (expected : Option Text) (s : Value × M.World) {id_token : Text}
      {info : Text × Text}
      → tokens.id_token ≡ some id_token
      → token_key_info K.wolfcrypt.decode (parse K.number_of) id_token ≡ ok info
      → jwks_has_eligible_key s.0 info.0 info.1 ≡ true
      → (verify_tokens M K app tokens expected s).1 ≡ (s.0, (M.system_time s.1).1)
  unfolding verify_tokens check_token refresh_keys
  verify_tokens-known tokens expected s {id_token} {info} a b c = rw (a, b, c) refl
