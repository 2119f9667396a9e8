-- ===== src/Examples/IdTokens.antt =====
-- An ID token with one key.
use himmelcloak.Prelude.{
  Text, text, text_eq, is_text, any, all, filter, split, Option, none, some, if◌then◌else◌, Result,
  ok, ◌≡◌, refl,
}
use himmelcloak.Token.Value.{
  Value, string, number, array, object, no_item, item, no_member, member, field, as_str, as_u64,
  items, as_array, text_field, number_field, array_field,
}
use himmelcloak.Token.Claims.{validate_claims, audience_matches, saturating_add}
use himmelcloak.Token.Claims.Checked.{IsAccepted, validate_claims-IsAccepted}
use himmelcloak.Token.IdToken.{
  verify_id_token, split_token, key_eligible, decode_json, try_keys, verify_signature,
}
use himmelcloak.Token.IdToken.Signed.{IsSigned, verify_id_token-IsSigned}

abbrev sample_claims : Value
sample_claims = object (
    member (text "iss") (string (text "i")) (
      member (text "aud") (string (text "c")) (
        member (text "exp") (number (some 200)) (
          member (text "iat") (number (some 90))
            (member (text "sub") (string (text "u")) no_member)))))

sample_claims-valid : validate_claims (some 100) sample_claims (text "i") (text "c") none ≡ ok tt
unfolding validate_claims is_text text_field field text_eq text as_str audience_matches number_field
    as_u64 saturating_add
sample_claims-valid = refl

validate_claims-IsAccepted_example : IsAccepted (some 100) sample_claims (text "i") (text "c") none
validate_claims-IsAccepted_example =
    validate_claims-IsAccepted (some 100) sample_claims (text "i") (text "c") none
      sample_claims-valid

abbrev sample_header : Value
sample_header = object (
    member (text "alg") (string (text "ES256")) (member (text "kid") (string (text "k")) no_member))

abbrev sample_key : Value
sample_key = object (
    member (text "kid") (string (text "k")) (
      member (text "kty") (string (text "EC"))
        (member (text "crv") (string (text "P-256")) no_member)))

abbrev sample_keys : Value
sample_keys = object (member (text "keys") (array (item sample_key no_item)) no_member)

-- The part `h` is the header, any other the claims.
abbrev read_part : Text → Option Value
read_part part = if text_eq part (text "h") then some sample_header else some sample_claims

abbrev plain : Text → Option Text
plain part = some part

abbrev always : Text → Value → Text → Text → Result (Unit {0})
always algorithm key message signature = ok tt

sample_token-verified :
    verify_id_token plain read_part always
      (some 100)
      (text "h.p.s")
      sample_keys
      (text "i")
      (text "c")
      none
    ≡ ok sample_claims
unfolding verify_id_token validate_claims is_text text_field field text_eq text as_str
    audience_matches number_field as_u64 saturating_add all any split_token split decode_json
    array_field as_array items verify_signature try_keys key_eligible filter
sample_token-verified = refl

verify_id_token-IsSigned_example :
    IsSigned plain read_part always
      (some 100)
      (text "h.p.s")
      sample_keys
      (text "i")
      (text "c")
      none
      sample_claims
verify_id_token-IsSigned_example =
    verify_id_token-IsSigned plain read_part always (some 100) (text "h.p.s") sample_keys (text "i")
      (text "c") none sample_token-verified
