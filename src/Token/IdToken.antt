-- ===== src/Token/IdToken.antt =====
-- The signature of an ID token: `split_token`, `token_key_info`, `key_eligible` and `verify_id_token` of
-- src/token.rs. `decode` is the base64 decoder; `parse` stands for the parser of SensitiveJson, and
-- `verify` for the check of Crypto, of the algorithm, the key, the message and the signature.
pub mod Signed
use himmelcloak.Prelude.{
  ℕ, Text, text, text_eq, is_text, is_some, split, null, filter, any, all, List, [], ◌∷◌, ◌++◌,
  Option, none, some, Bool, true, false, not, ◌&&◌, ◌||◌, if◌then◌else◌, Error, crypto,
  token_validation, Result, ok, err, and_then, ok_or, ensure,
}
use himmelcloak.Token.Value.{Value, field, as_str, as_array, text_field, array_field}
use himmelcloak.Token.Claims.{validate_claims}

three_parts : List Text → Result (Text × Text × Text)
three_parts (header ∷ claims ∷ signature ∷ []) =
    if not (null header) && not (null claims) && not (null signature)
    then ok (header, claims, signature)
    else err (token_validation "malformed JWT")
three_parts _ = err (token_validation "malformed JWT")

-- `split_token`
unfoldable pub split_token : Text → Result (Text × Text × Text)
unfolding three_parts
split_token token = three_parts (split b'.' token)

-- `string_field_matches`
field_matches : Value → Text → Text → Bool
field_matches key name expected =
    not (is_some (field key name)) || is_text (text_field key name) expected

type_matches : Value → Text → Bool
type_matches key algorithm =
    if text_eq algorithm (text "RS256")
    then is_text (text_field key (text "kty")) (text "RSA")
    else text_eq algorithm (text "ES256")
      && is_text (text_field key (text "kty")) (text "EC")
      && is_text (text_field key (text "crv")) (text "P-256")

may_verify : Option (List Value) → Bool
may_verify none = false
may_verify (some ops) =
    any (λ op. is_text (as_str op) (text "verify")) ops && all (λ op. is_some (as_str op)) ops

operations_match : Option Value → Bool
operations_match none = true
operations_match (some ops) = may_verify (as_array ops)

-- `key_eligible`
unfoldable pub key_eligible : Value → Text → Text → Bool
unfolding field_matches type_matches operations_match may_verify
key_eligible key kid algorithm =
    is_text (text_field key (text "kid")) kid
    && field_matches key (text "use") (text "sig")
    && field_matches key (text "alg") algorithm
    && operations_match (field key (text "key_ops"))
    && type_matches key algorithm

is_crypto : Error → Bool
is_crypto crypto = true
is_crypto _ = false

is_supported : Text → Bool
is_supported algorithm = text_eq algorithm (text "RS256") || text_eq algorithm (text "ES256")

module _ (decode : Text → Option Text) (parse : Text → Option Value) where
  -- `decode_json`
  unfoldable pub decode_json : Text → Result Value
  decode_json part =
      and_then (ok_or (decode part) (token_validation "invalid JWT encoding"))
        λ bytes. ok_or (parse bytes) (token_validation "invalid JWT JSON")

  -- `token_key_info`
  unfoldable pub token_key_info : Text → Result (Text × Text)
  unfolding is_supported
  token_key_info token = and_then (split_token token) λ parts.
      and_then (decode_json parts.0) λ header.
        and_then (ok_or (text_field header (text "kid")) (token_validation "token has no key ID"))
          λ kid.
            and_then (ok_or (text_field header (text "alg")) (token_validation "missing algorithm"))
              λ algorithm.
                and_then
                  (ensure (is_supported algorithm)
                    (token_validation "unsupported signing algorithm"))
                  λ _. ok (kid, algorithm)

-- The error when no key verified.
refusal : List Value → List Value → Text → Error
refusal eligible keys kid =
    if null eligible
    then (if any (λ key. is_text (text_field key (text "kid")) kid) keys
        then token_validation "JWK not valid for token signature"
        else token_validation "unknown key ID")
    else token_validation "invalid signature"

module _ (verify : Text → Value → Text → Text → Result (Unit {0})) where
  -- The loop over the eligible keys; `none` when none of them verified.
  unfoldable pub try_keys : Text → Text → Text → List Value → Option (Result (Unit {0}))
  unfolding is_crypto
  try_keys algorithm message signature [] = none
  try_keys algorithm message signature (key ∷ more) =
      let rest = try_keys algorithm message signature more in
      elim (verify algorithm key message signature) [
        | ok _ ↦ some (ok tt)
        | err e ↦ if is_crypto e then some (err e) else rest
      ]

  -- What the keys say of the signature.
  unfoldable pub verify_signature : Text → Text → List Value → Text → Text → Result (Unit {0})
  unfolding refusal
  verify_signature algorithm kid keys message signature =
      let eligible = filter (λ key. key_eligible key kid algorithm) keys in
      elim (try_keys algorithm message signature eligible) [
        | some result ↦ result
        | none ↦ err (refusal eligible keys kid)
      ]

module _ (decode : Text → Option Text) (parse : Text → Option Value)
    (verify : Text → Value → Text → Text → Result (Unit {0})) where
  -- `verify_id_token`
  unfoldable pub verify_id_token :
      Option ℕ → Text → Value → Text → Text → Option Text → Result Value
  unfolding is_supported
  verify_id_token clock token jwks issuer client_id nonce = and_then (split_token token) λ parts.
      and_then (decode_json decode parse parts.0) λ header.
        and_then (decode_json decode parse parts.1) λ claims.
          and_then (ok_or (text_field header (text "alg")) (token_validation "missing algorithm"))
            λ algorithm.
              and_then
                (ensure (is_supported algorithm) (token_validation "unsupported signing algorithm"))
                λ _.
                  and_then
                    (ok_or (text_field header (text "kid")) (token_validation "missing key ID"))
                    λ kid.
                      and_then
                        (ok_or (array_field jwks (text "keys")) (token_validation "invalid JWKS"))
                        λ keys.
                          and_then
                            (ok_or (decode parts.2) (token_validation "invalid signature encoding"))
                            λ signature.
                              and_then
                                (verify_signature verify algorithm kid keys
                                  (parts.0 ++ b'.' ∷ parts.1) signature)
                                λ _.
                                  and_then (validate_claims clock claims issuer client_id nonce)
                                    λ _. ok claims
