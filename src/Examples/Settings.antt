-- ===== src/Examples/Settings.antt =====
-- Settings, endpoints and scopes.
use himmelcloak.Prelude.{
  Text, text, text_eq, split, filter, any, all, List, [], ◌∷◌, none, some, true, ok, All, ◌≡◌, ◌↔◌,
  refl, contains,
}
use himmelcloak.Platform.{UrlLib, OriginLaws}
use himmelcloak.Config.{Config, validate}
use himmelcloak.Config.Valid.{IsValid, validate-iff-IsValid}
use himmelcloak.Token.Endpoint.{
  endpoint, check_endpoint, issuer_realm, endpoint_in_realm, segments, last_two, after_last,
  is_plain,
}
use himmelcloak.Token.Authorize.{
  normalize, normalize_from, add_scope, valid_scope_token, join_scopes,
}
use himmelcloak.Token.Authorize.Scopes.{split-join_scopes}
use himmelcloak.Examples.World.{addresses, addresses_laws, at_host, callback_address, Address}

abbrev settings : Config addresses
settings = record {
  server_url = at_host (text "login.test") [];
  realm = text "r";
  client_id = text "c";
  redirect_uri = callback_address [];
  ca_bundle = none;
  timeout = 15000000000;
}

validate-iff-IsValid_example : (validate settings ≡ ok tt) ↔ IsValid settings
validate-iff-IsValid_example = validate-iff-IsValid settings

-- Every text parses as a path on one server.
abbrev parsing : UrlLib
parsing = record addresses { parse = λ t. some (at_host (text "login.test") t) }

abbrev parsing_laws : OriginLaws parsing
parsing_laws = record { same_origin_iff = addresses_laws.same_origin_iff }

abbrev issuer_address : Address
issuer_address = at_host (text "login.test") (text "/realms/r")

abbrev token_path : Text
token_path = text "/realms/r/token"

token_path-endpoint :
    endpoint parsing token_path issuer_address ≡ ok (at_host (text "login.test") token_path)
unfolding endpoint text check_endpoint text_eq issuer_realm last_two segments filter split
    endpoint_in_realm after_last all is_plain any
token_path-endpoint = refl

abbrev asked : List Text
asked = text "email" ∷ text "openid" ∷ text "email" ∷ []

abbrev sent_scopes : List Text
sent_scopes = text "openid" ∷ text "email" ∷ []

asked-normalize : normalize asked ≡ ok sent_scopes
unfolding normalize text normalize_from valid_scope_token all add_scope text_eq contains any
asked-normalize = refl

sent_scopes-valid : All (λ (t : Text). valid_scope_token t ≡ true) sent_scopes
unfolding valid_scope_token text all
sent_scopes-valid = (refl, (refl, tt))

split-join_scopes_example : split b' ' (join_scopes sent_scopes) ≡ sent_scopes
split-join_scopes_example = split-join_scopes (text "openid") (text "email" ∷ []) sent_scopes-valid
