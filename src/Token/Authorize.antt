-- ===== src/Token/Authorize.antt =====
-- The authorization request: `authorization_url` of src/token.rs. SHA-256 and its encoding come as the
-- argument `pkce_challenge`.
pub mod Scopes
use himmelcloak.Prelude.{
  ℕ, Text, text, text_eq, contains, length, null, any, all, List, [], ◌∷◌, ◌++◌, Option, none, some,
  Bool, true, false, not, ◌==◌, leb, ◌&&◌, ◌||◌, if◌then◌else◌, Error, protocol, Result, ok, err,
  and_then, ensure,
}
use himmelcloak.Platform.{UrlLib}

pub record AuthorizationParameters (L : UrlLib) : Type 0 where
  pub client_id : Text
  pub redirect_uri : L.Url
  pub login_hint : Option Text
  pub scopes : List Text
  pub pkce_verifier : Text
  pub state : Text
  pub nonce : Text

-- `RESERVED_PARAMETERS`
unfoldable pub reserved_parameters : List Text
reserved_parameters =
    text "response_type"
    ∷ text "client_id"
    ∷ text "redirect_uri"
    ∷ text "scope"
    ∷ text "code_challenge"
    ∷ text "code_challenge_method"
    ∷ text "state"
    ∷ text "nonce"
    ∷ text "login_hint"
    ∷ text "response_mode"
    ∷ text "request"
    ∷ text "request_uri"
    ∷ []

is_alphanumeric : ℕ → Bool
is_alphanumeric b =
    (leb b'0' b && leb b b'9') || (leb b'A' b && leb b b'Z') || (leb b'a' b && leb b b'z')

scope_byte : ℕ → Bool
scope_byte b = (b == 33) || (leb 35 b && leb b 91) || (leb 93 b && leb b 126)

-- `valid_scope_token`
unfoldable pub valid_scope_token : Text → Bool
unfolding scope_byte
valid_scope_token scope = not (null scope) && all scope_byte scope

verifier_byte : ℕ → Bool
unfolding is_alphanumeric
verifier_byte b = is_alphanumeric b || (b == b'-') || (b == b'.') || (b == b'_') || (b == b'~')

-- `valid_pkce_verifier`
unfoldable pub valid_pkce_verifier : Text → Bool
unfolding verifier_byte
valid_pkce_verifier verifier =
    leb 43 (length verifier) && leb (length verifier) 128 && all verifier_byte verifier

token_byte : ℕ → Bool
unfolding is_alphanumeric
token_byte b = is_alphanumeric b || (b == b'-') || (b == b'_')

-- `valid_request_token`
unfoldable pub valid_request_token : Text → Bool
unfolding token_byte
valid_request_token value = (length value == 22) && all token_byte value

-- What one scope does to the list.
unfoldable pub add_scope : List Text → Text → List Text
add_scope normalized scope =
    if not (text_eq scope (text "openid")) && not (contains normalized scope)
    then normalized ++ scope ∷ []
    else normalized

-- The loop over the scopes.
unfoldable pub normalize_from : List Text → List Text → Result (List Text)
normalize_from normalized [] = ok normalized
normalize_from normalized (scope ∷ more) =
    let rest = normalize_from (add_scope normalized scope) more in
    if not (valid_scope_token scope) then err (protocol "invalid authorization scope") else rest

unfoldable pub normalize : List Text → Result (List Text)
normalize scopes = normalize_from (text "openid" ∷ []) scopes

-- `join(" ")`
unfoldable pub join_scopes : List Text → Text
join_scopes [] = []
join_scopes (s ∷ []) = s
join_scopes (s ∷ t ∷ more) = s ++ b' ' ∷ join_scopes (t ∷ more)

hint_pairs : Option Text → List (Text × Text)
hint_pairs none = []
hint_pairs (some hint) = (text "login_hint", hint) ∷ []

module _ {L : UrlLib} (pkce_challenge : Text → Result Text) where
  -- The pairs appended to the endpoint, in order.
  unfoldable pub request_pairs : AuthorizationParameters L → List Text → Text → List (Text × Text)
  unfolding hint_pairs
  request_pairs p scopes challenge =
      (text "response_type", text "code")
      ∷ (text "client_id", p.client_id)
      ∷ (text "redirect_uri", L.as_str p.redirect_uri)
      ∷ (text "scope", join_scopes scopes)
      ∷ (text "code_challenge", challenge)
      ∷ (text "code_challenge_method", text "S256")
      ∷ (text "state", p.state)
      ∷ (text "nonce", p.nonce)
      ∷ hint_pairs p.login_hint

  -- `authorization_url`
  unfoldable pub authorization_url : L.Url → AuthorizationParameters L → Result L.Url
  authorization_url endpoint p =
      and_then
        (ensure
          (not
            (any (λ (q : Text × Text). contains reserved_parameters q.0) (L.query_pairs endpoint)))
          (protocol "authorization endpoint parameter collision"))
        λ _.
          and_then
            (ensure
              (valid_pkce_verifier p.pkce_verifier
                && valid_request_token p.state
                && valid_request_token p.nonce)
              (protocol "invalid authorization request secret"))
            λ _. and_then (normalize p.scopes) λ scopes.
              and_then (pkce_challenge p.pkce_verifier)
                λ challenge. ok (L.append_pairs endpoint (request_pairs p scopes challenge))
