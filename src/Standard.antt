-- ===== src/Standard.antt =====
-- The standard grants at the token, revocation and userinfo endpoints (src/standard.rs). `parse` is the
-- parser of SensitiveJson with serde_json's numbers.
use himmelcloak.Prelude.{
  ℕ, Text, text, is_text, eq_ignore_ascii_case, null, List, [], ◌∷◌, ◌++◌, Option, none, some, bind,
  Bool, not, ◌==◌, ◌&&◌, ◌||◌, is_some, if◌then◌else◌, Error, protocol, http_status,
  authentication_rejected, invalid_configuration, Result, ok, err, and_then, ok_or, ensure, Run,
  ◌>>=◌, lift,
}
use himmelcloak.Platform.{UrlLib}
use himmelcloak.Transport.{Machine, Response, form_request, get_request}
use himmelcloak.Token.Value.{Value, string, field, text_field}
use himmelcloak.Token.Discover.{Codec}
use himmelcloak.Flow.Types.{Tokens}
use himmelcloak.SensitiveJson.{parse}

-- The `match` of `grant_error` on the error code.
unfoldable pub grant_code_error : ℕ → Option Text → Error
grant_code_error status code =
    if is_text code (text "invalid_grant") || is_text code (text "access_denied")
    then authentication_rejected
    else (if is_text code (text "invalid_client")
          || is_text code (text "unauthorized_client")
          || is_text code (text "unsupported_grant_type")
          || is_text code (text "invalid_request")
        then invalid_configuration "Keycloak rejected the client or requested grant"
        else (if (status == 401) || (status == 403)
            then authentication_rejected
            else http_status status))

-- `optional_token`
unfoldable pub optional_token : Option Value → Result (Option Text)
optional_token none = ok none
optional_token (some Value.null) = ok none
optional_token (some (string t)) = ok (some t)
optional_token (some _) = err (protocol "invalid token response")

-- The tokens of a reply, once it is parsed.
unfoldable pub read_tokens : Bool → Value → Result Tokens
unfolding optional_token
read_tokens require_id_token parsed =
    and_then (ok_or (text_field parsed (text "access_token")) (protocol "invalid token response"))
      λ access.
        and_then (ok_or (text_field parsed (text "token_type")) (protocol "invalid token response"))
          λ kind. and_then (optional_token (field parsed (text "refresh_token"))) λ refresh.
            and_then (optional_token (field parsed (text "id_token"))) λ id.
              and_then
                (ensure (eq_ignore_ascii_case kind (text "bearer") && not (null access))
                  (protocol "unexpected token type"))
                λ _.
                  and_then
                    (ensure (not require_id_token || is_some id)
                      (protocol "token response has no ID token"))
                    λ _. ok (record {
                      access_token = access;
                      refresh_token = refresh;
                      id_token = id;
                      verified_subject = none;
                      verified_issuer = none;
                      verified_client_id = none;
                      verified_refresh_token = none;
                    })

module _ (K : Codec) where
  -- `grant_error`
  unfoldable pub grant_error : ℕ → Text → Error
  unfolding grant_code_error
  grant_error status body =
      grant_code_error status (bind (parse K.number_of body) λ v. text_field v (text "error"))

  -- What a reply of the token endpoint grants.
  unfoldable pub granted : Bool → Response → Result Tokens
  unfolding grant_error read_tokens
  granted require_id_token response =
      if (response.status == 400) || (response.status == 401) || (response.status == 403)
      then err (grant_error response.status response.body)
      else (if response.status == 200
          then and_then
              (ok_or (parse K.number_of response.body) (protocol "invalid token response"))
              (read_tokens require_id_token)
          else err (http_status response.status))

  -- The claims that a userinfo reply carries.
  unfoldable pub user_of : Response → Result Value
  user_of response =
      if response.status == 401
      then err authentication_rejected
      else (if response.status == 200
          then ok_or (parse K.number_of response.body) (protocol "invalid userinfo response")
          else err (http_status response.status))

module _ (K : Codec) {L : UrlLib} (M : Machine L) where
  -- `acquire`
  unfoldable pub acquire : L.Url → List (Text × Text) → Bool → Run M.World Tokens
  unfolding granted
  acquire endpoint fields require_id_token = lift (form_request endpoint fields) >>= λ request.
      M.send request >>= λ response. lift (granted K require_id_token response)

  -- `userinfo`
  unfoldable pub userinfo : L.Url → Text → Run M.World Value
  unfolding user_of
  userinfo endpoint access_token =
      M.send (record (get_request endpoint) {
        headers = (text "Authorization: Bearer " ++ access_token) ∷ [];
      })
      >>= λ response. lift (user_of K response)

module _ {L : UrlLib} (M : Machine L) where
  -- `revoke`
  unfoldable pub revoke : L.Url → Text → Text → Run M.World (Unit {0})
  revoke endpoint client_id token =
      lift (form_request endpoint ((text "client_id", client_id) ∷ (text "token", token) ∷ []))
      >>= λ request. M.send request >>= λ response. lift (
          ensure ((response.status == 200) || (response.status == 204))
            (http_status response.status))
