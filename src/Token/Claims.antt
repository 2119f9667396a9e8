-- ===== src/Token/Claims.antt =====
-- The claims of an ID token: `validate_claims` and `audience_matches` of src/token.rs. `clock` is the
-- reading of the system clock in seconds, none before the epoch.
pub mod Checked
use himmelcloak.Prelude.{
  ℕ, ◌+◌, ◌-◌, Text, text, text_eq, is_text, is_some, length, null, any, all, List, Option, none,
  some, Bool, true, false, not, ◌==◌, ltb, leb, ◌&&◌, ◌||◌, u64_limit, if◌then◌else◌, Error,
  token_validation, Result, ok, err, and_then, ok_or, ensure,
}
use himmelcloak.Token.Value.{
  Value, string, array, field, as_str, as_u64, items, text_field, number_field,
}

-- `u64::saturating_add`
unfoldable pub saturating_add : ℕ → ℕ → ℕ
saturating_add a b = if ltb (a + b) u64_limit then a + b else u64_limit - 1

is_string : Value → Bool
is_string v = is_some (as_str v)

-- The authorized party, if there is one, is this client.
party_matches : Value → Text → Bool
party_matches claims client_id = elim (field claims (text "azp")) [
  | none ↦ true
  | some party ↦ is_text (as_str party) client_id
]

audience_of : Value → Text → Option Value → Bool
audience_of claims client_id (some (string aud)) = text_eq aud client_id
audience_of claims client_id (some (array aud)) =
    all is_string (items aud)
    && any (λ v. is_text (as_str v) client_id) (items aud)
    && ((length (items aud) == 1) || is_text (text_field claims (text "azp")) client_id)
audience_of claims client_id _ = false

-- `audience_matches`
unfoldable pub audience_matches : Value → Text → Bool
unfolding party_matches audience_of is_string
audience_matches claims client_id =
    party_matches claims client_id && audience_of claims client_id (field claims (text "aud"))

-- A not-before time, if there is one, is a number and not past the leeway.
check_not_before : Option Value → ℕ → Result (Unit {0})
check_not_before none now = ok tt
check_not_before (some value) now =
    and_then (ok_or (as_u64 value) (token_validation "invalid not-before time"))
      λ nbf. ensure (not (ltb (saturating_add now 60) nbf)) (token_validation "token not yet valid")

nonce_matches : Option Text → Option Text → Bool
nonce_matches none given = true
nonce_matches (some expected) given = is_text given expected

has_text : Option Text → Bool
has_text none = false
has_text (some s) = not (null s)

-- `validate_claims`
unfoldable pub validate_claims : Option ℕ → Value → Text → Text → Option Text → Result (Unit {0})
unfolding check_not_before nonce_matches has_text
validate_claims clock claims issuer client_id nonce =
    and_then
      (ensure (is_text (text_field claims (text "iss")) issuer)
        (token_validation "issuer mismatch"))
      λ _.
        and_then (ensure (audience_matches claims client_id) (token_validation "audience mismatch"))
          λ _. and_then (ok_or clock (token_validation "clock before epoch")) λ now.
            and_then (ok_or (number_field claims (text "exp")) (token_validation "missing expiry"))
              λ expiry.
                and_then (ensure (not (leb expiry now)) (token_validation "token expired")) λ _.
                  and_then (check_not_before (field claims (text "nbf")) now) λ _.
                    and_then
                      (ok_or (number_field claims (text "iat"))
                        (token_validation "missing issued-at time"))
                      λ issued.
                        and_then
                          (ensure (not (ltb (saturating_add now 60) issued))
                            (token_validation "token issued in future"))
                          λ _.
                            and_then
                              (ensure (nonce_matches nonce (text_field claims (text "nonce")))
                                (token_validation "nonce mismatch"))
                              λ _.
                                ensure (has_text (text_field claims (text "sub")))
                                  (token_validation "missing subject")
