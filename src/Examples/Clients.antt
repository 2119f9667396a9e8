-- ===== src/Examples/Clients.antt =====
-- A client: its discovery, a login, and a refresh.
use himmelcloak.Prelude.{
  ◌+◌, Text, text, text_eq, is_text, any, all, filter, split, List, [], ◌∷◌, Option, none, some,
  true, false, if◌then◌else◌, ok, WhenOk, ◌≡◌, ◌⊎◌, refl, text_eq_iff, trim_end_matches,
  parse_unsigned, decode, eq_ignore_ascii_case,
}
use himmelcloak.Platform.{UrlLib, OriginLaws}
use himmelcloak.Transport.{Machine, Response, form_request}
use himmelcloak.Crypto.{PublicKey, Wolfcrypt, verify}
use himmelcloak.Crypto.Keys.{ByRsa, ByEc, verify-Accepts}
use himmelcloak.Token.Value.{
  Value, string, array, object, item, no_item, member, no_member, field, as_str, as_u64, items,
  as_array, text_field, number_field, array_field, lookup,
}
use himmelcloak.Token.Claims.{validate_claims, audience_matches, saturating_add}
use himmelcloak.Token.Endpoint.{
  endpoint, check_endpoint, issuer_realm, endpoint_in_realm, segments, last_two, after_last,
  is_plain,
}
use himmelcloak.Token.Discover.{
  Codec, RawMetadata, Metadata, discover, jwks_has_eligible_key, has_keys,
}
use himmelcloak.Token.Discover.Trusted.{IsTrustedFor, discover-IsTrustedFor}
use himmelcloak.Token.IdToken.{
  token_key_info, verify_id_token, split_token, key_eligible, decode_json, try_keys,
  verify_signature,
}
use himmelcloak.SensitiveJson.{
  parse, value, parse_object, parse_array, members, elements, read_member, separator, parse_number,
  number_span, literal, insert, push, whitespace,
}
use himmelcloak.SensitiveJson.Strings.{parse_string, consume, unescape}
use himmelcloak.Standard.{acquire}
use himmelcloak.Flow.Types.{Tokens, Answer, complete}
use himmelcloak.Flow.Jar.{empty_jar}
use himmelcloak.Flow.Fetch.{Redirect, found}
use himmelcloak.Flow.State.{AuthFlow, active, ensure_active, finish}
use himmelcloak.Flow.Session.{Session, complete_at_callback}
use himmelcloak.Flow.Callback.{callback, same_endpoint, take_pairs, take_pair, judge}
use himmelcloak.Client.{Client, application, redeem_code, refresh_tokens}
use himmelcloak.Client.KeySet.{HasKeys}
use himmelcloak.Client.Calls.{
  Call, refreshing, revoking, asking_user, starting, continuing, after_all, after_all-HasKeys,
}
use himmelcloak.Flow.Classify.Scan.{Token}
use himmelcloak.Client.Login.{CompletedSigned, application-CompletedSigned}
use himmelcloak.Examples.World.{
  Address, addresses, at_host, callback_address, Wire, first_reply, later_replies,
}
use himmelcloak.Examples.Json.{digits_only}

-- Every text parses as a path on one server.
abbrev pub sites : UrlLib
sites = record addresses { parse = λ t. some (at_host (text "login.test") t) }

abbrev sites_laws : OriginLaws sites
sites_laws = record { same_origin_iff = text_eq_iff }

-- A machine whose network replies from a list.
abbrev pub line : Machine sites
line = record {
  World = Wire;
  instant = λ w. (w.clock, record w { clock = w.clock + 1 });
  system_time = λ w. (some w.clock, w);
  send = λ _ w. (
    first_reply w.replies,
    record { clock = w.clock; sent = w.sent + 1; replies = later_replies w.replies },
  );
  random_base64 = λ _ w. (ok (text "random"), w);
}

abbrev lasting_key : PublicKey
lasting_key = record { signature_fits = λ _. true; verify = λ _ _. true }

abbrev header_text : Text
header_text = text "{\"alg\":\"ES256\",\"kid\":\"k\"}"

abbrev claims_text : Text
claims_text =
    text
      "{\"iss\":\"/realms/r\",\"aud\":\"c\",\"exp\":200,\"iat\":90,\"sub\":\"u\",\"nonce\":\"nonce\"}"

-- The encodings of a header, of claims and of a coordinate; any other text stands for itself.
abbrev decoded : Text → Option Text
decoded t =
    if text_eq t (text "h")
    then some header_text
    else (if text_eq t (text "p")
        then some claims_text
        else (if text_eq t (text "xy")
            then some (text "01234567890123456789012345678901")
            else some t))

abbrev crypt : Wolfcrypt
crypt = record {
  initialized = true;
  decode = decoded;
  rsa_key = λ _ _ _. none;
  p256_key = λ _. lasting_key;
}

abbrev document : RawMetadata
document = record {
  issuer = text "/realms/r";
  authorization_endpoint = text "/realms/r/auth";
  token_endpoint = text "/realms/r/token";
  jwks_uri = text "/realms/r/certs";
  userinfo_endpoint = text "/realms/r/userinfo";
  revocation_endpoint = text "/realms/r/revoke";
}

abbrev pub codec : Codec
codec = record {
  from_slice = λ _. none;
  raw_metadata = λ _. some document;
  number_of = digits_only;
  wolfcrypt = crypt;
  pkce_challenge = λ t. ok t;
}

abbrev pub reply_of : Text → Response
reply_of body = record { status = 200; headers = []; body = body; cookies = [] }

abbrev issuer_url : Address
issuer_url = at_host (text "login.test") (text "/realms/r")

abbrev before : Wire
before = record { clock = 100; sent = 0; replies = reply_of [] ∷ [] }

discover-IsTrustedFor_example :
    WhenOk (λ m (w : Wire). IsTrustedFor sites issuer_url m) (discover line codec issuer_url before)
discover-IsTrustedFor_example = discover-IsTrustedFor sites_laws line codec issuer_url before

abbrev discovered : Metadata sites
discovered = record {
  issuer = text "/realms/r";
  authorization_endpoint = at_host (text "login.test") (text "/realms/r/auth");
  token_endpoint = at_host (text "login.test") (text "/realms/r/token");
  jwks_uri = at_host (text "login.test") (text "/realms/r/certs");
  userinfo_endpoint = at_host (text "login.test") (text "/realms/r/userinfo");
  revocation_endpoint = at_host (text "login.test") (text "/realms/r/revoke");
}

discover_succeeds : (discover line codec issuer_url before).0 ≡ ok discovered
unfolding discover text_eq text trim_end_matches endpoint check_endpoint issuer_realm last_two
    segments filter split endpoint_in_realm after_last all is_plain any
discover_succeeds = refl

abbrev app : Client sites
app = record {
  config = record {
    server_url = at_host (text "login.test") [];
    realm = text "r";
    client_id = text "c";
    redirect_uri = callback_address [];
    ca_bundle = none;
    timeout = 15000000000;
  };
  metadata = discovered;
}

abbrev key_of_set : Value
key_of_set = object (
    member (text "kid") (string (text "k")) (
      member (text "kty") (string (text "EC")) (
        member (text "crv") (string (text "P-256")) (
          member (text "x") (string (text "xy"))
            (member (text "y") (string (text "xy")) no_member)))))

abbrev key_set : Value
key_set = object (member (text "keys") (array (item key_of_set no_item)) no_member)

key_verifies : verify crypt (text "ES256") key_of_set (text "m") (text "s") ≡ ok tt
unfolding verify text_eq text is_text text_field field as_str
key_verifies = refl

verify-Accepts_example :
    ((text "ES256" ≡ text "RS256") × ByRsa crypt key_of_set (text "m") (text "s"))
    ⊎ ((text "ES256" ≡ text "ES256") × ByEc crypt key_of_set (text "m") (text "s"))
verify-Accepts_example =
    verify-Accepts crypt (text "ES256") key_of_set (text "m") (text "s") key_verifies

abbrev grant_text : Text
grant_text =
    text
      "{\"access_token\":\"a\",\"token_type\":\"Bearer\",\"refresh_token\":\"r\",\"id_token\":\"h.p.s\"}"

abbrev answering : Text → Wire
answering body = record { clock = 100; sent = 0; replies = reply_of body ∷ [] }

abbrev own_tokens : Tokens
own_tokens = record {
  access_token = text "a";
  refresh_token = some (text "r");
  id_token = some (text "h.p.s");
  verified_subject = some (text "u");
  verified_issuer = some (text "/realms/r");
  verified_client_id = some (text "c");
  verified_refresh_token = some (text "r");
}

redeem_succeeds :
    (redeem_code line codec app
      (text "c1")
      (text "verifier")
      (text "nonce")
      (key_set, answering grant_text)).0
    ≡ ok own_tokens
unfolding redeem_code acquire form_request text parse value whitespace parse_object consume members
    read_member parse_string unescape decode lookup separator insert parse_array elements
    parse_number number_span literal push parse_unsigned text_eq is_text text_field field as_str
    eq_ignore_ascii_case token_key_info split_token split decode_json jwks_has_eligible_key
    array_field as_array items any all key_eligible verify_id_token verify_signature filter try_keys
    verify validate_claims audience_matches number_field as_u64 saturating_add
redeem_succeeds = refl

refresh_succeeds :
    (refresh_tokens line codec app own_tokens (key_set, answering grant_text)).0 ≡ ok own_tokens
unfolding refresh_tokens acquire form_request text parse value whitespace parse_object consume
    members read_member parse_string unescape decode lookup separator insert parse_array elements
    parse_number number_span literal push parse_unsigned text_eq is_text text_field field as_str
    eq_ignore_ascii_case token_key_info split_token split decode_json jwks_has_eligible_key
    array_field as_array items any all key_eligible verify_id_token verify_signature filter try_keys
    verify validate_claims audience_matches number_field as_u64 saturating_add
refresh_succeeds = refl

key_set-HasKeys : HasKeys {W = Wire} (key_set, answering grant_text)
unfolding has_keys array_field field as_array items lookup text_eq text
key_set-HasKeys = refl

abbrev under_way : AuthFlow sites
under_way = record {
  jar = empty_jar;
  deadline = 600;
  lifecycle = active;
  pkce_verifier = text "verifier";
  oauth_state = text "state";
  nonce = text "nonce";
  pending = none;
  client = text "client";
  login_hint = none;
}

abbrev calls : List (Call sites)
calls =
    refreshing own_tokens
    ∷ asking_user own_tokens
    ∷ revoking (text "r")
    ∷ starting (record { login_hint = none; scopes = [] })
    ∷ continuing under_way (Answer.password (text "p"))
    ∷ []

-- A tokenizer that finds nothing.
abbrev no_tokens : Text → List Token
no_tokens source = []

after_all-HasKeys_example :
    HasKeys (after_all line codec app no_tokens calls (key_set, answering grant_text))
after_all-HasKeys_example =
    after_all-HasKeys line codec app no_tokens calls (key_set, answering grant_text) key_set-HasKeys

abbrev session : Session (application line codec app)
unfolding application
session = record { flow = under_way; keys = key_set; world = answering grant_text }

abbrev to_callback : Redirect sites
to_callback = record {
  location = callback_address ((text "state", text "state") ∷ (text "code", text "c1") ∷ []);
  same_origin = false;
  kind = found;
}

login_completes :
    (complete_at_callback (application line codec app) to_callback session).0
    ≡ ok (some (complete own_tokens))
unfolding application complete_at_callback callback same_endpoint ensure_active take_pairs take_pair
    judge finish redeem_code acquire form_request text parse value whitespace parse_object consume
    members read_member parse_string unescape decode lookup separator insert parse_array elements
    parse_number number_span literal push parse_unsigned text_eq is_text text_field field as_str
    eq_ignore_ascii_case token_key_info split_token split decode_json jwks_has_eligible_key
    array_field as_array items any all key_eligible verify_id_token verify_signature filter try_keys
    verify validate_claims audience_matches number_field as_u64 saturating_add
login_completes = refl

application-CompletedSigned_example :
    CompletedSigned line codec app to_callback session (complete own_tokens)
application-CompletedSigned_example =
    application-CompletedSigned line codec app to_callback session login_completes
