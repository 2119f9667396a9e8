-- ===== src/Examples/Tools.antt =====
-- Groups, one-time codes and assertions.
use himmelcloak.Prelude.{
  ℕ, suc, ◌+◌, ◌≤◌, ◌<◌, Text, text, length, List, [], ◌∷◌, ◌++◌, Option, none, some, true, false,
  Result, ok, WhenOk, u64_limit, ◌≡◌, ◌≢◌, ◌↔◌, ◌⊎◌, refl, arith, decimal, from_be_bytes,
}
use himmelcloak.Config.{Config}
use himmelcloak.Admin.{GroupMember, read_with_transport, pages, max_members}
use himmelcloak.Admin.Pages.{IsRoll, read_with_transport-IsRoll, pages-fuel}
use himmelcloak.Totp.{OtpAlgorithm, sha1, hotp, verify_and_advance_hotp}
use himmelcloak.Totp.Codes.{verify_and_advance_hotp_lem}
use himmelcloak.Flow.Types.{preferred}
use himmelcloak.Authenticator.{Signing, Credential, Authenticator, GetRequest}
use himmelcloak.Authenticator.Counter.{Rising, counts, counts-Rising}
use himmelcloak.Examples.World.{Wire, at_host, callback_address}
use himmelcloak.Examples.Clients.{sites, line, codec, reply_of}

abbrev pub alice : GroupMember
alice = record { id = text "a"; username = text "alice"; enabled = true }

-- A page is one member, unless the reply is empty.
abbrev one_member : Text → Option (List GroupMember)
one_member [] = some []
one_member (_ ∷ _) = some (alice ∷ [])

abbrev group_settings : Config sites
group_settings = record {
  server_url = at_host (text "login.test") [];
  realm = text "r";
  client_id = text "sync";
  redirect_uri = callback_address [];
  ca_bundle = none;
  timeout = 15000000000;
}

abbrev group_replies : Wire
group_replies = record {
  clock = 0;
  sent = 0;
  replies =
      reply_of (text "{\"access_token\":\"t\",\"token_type\":\"bearer\"}")
      ∷ reply_of (text "x")
      ∷ reply_of []
      ∷ [];
}

read_with_transport-IsRoll_example :
    WhenOk
      (λ members (w : Wire). IsRoll members)
      (read_with_transport one_member line codec group_settings (text "g") (text "s") group_replies)
read_with_transport-IsRoll_example =
    read_with_transport-IsRoll one_member line codec group_settings (text "g") (text "s")
      group_replies

none_yet : length {A = GroupMember} [] ≤ max_members
none_yet = omega arith

rounds_suffice : max_members < suc max_members + length {A = GroupMember} []
rounds_suffice = omega arith

more_suffice : max_members < 200000 + length {A = GroupMember} []
more_suffice = omega arith

pages-fuel_example :
    pages one_member line
      (at_host (text "login.test") (text "/members"))
      (text "t")
      (suc max_members)
      []
      group_replies
    ≡ pages one_member line
        (at_host (text "login.test") (text "/members"))
        (text "t")
        200000
        []
        group_replies
pages-fuel_example =
    pages-fuel one_member line (at_host (text "login.test") (text "/members")) (text "t")
      (suc max_members) 200000 [] group_replies none_yet rounds_suffice more_suffice

abbrev digest : Text
digest =
    1 ∷ 2 ∷ 3 ∷ 4 ∷ 5 ∷ 6 ∷ 7 ∷ 8 ∷ 9 ∷ 10 ∷ 11 ∷ 12 ∷ 13 ∷ 14 ∷ 15 ∷ 16 ∷ 17 ∷ 18 ∷ 19 ∷ 20 ∷ []

abbrev fixed_hmac : OtpAlgorithm → Text → Text → Result Text
fixed_hmac algorithm key message = ok digest

abbrev otp_secret : Text
otp_secret = text "12345678901234567890"

abbrev otp_code : Text
otp_code = text "281096"

otp_code-made : hotp fixed_hmac otp_secret 7 sha1 6 ≡ ok otp_code
unfolding hotp text decimal from_be_bytes
otp_code-made = refl

verify_and_advance_hotp_lem_example :
    ((verify_and_advance_hotp fixed_hmac otp_secret sha1 6 otp_code 7 ≡ (ok true, 7 + 1))
      ↔ ((hotp fixed_hmac otp_secret 7 sha1 6 ≡ ok otp_code) × (7 + 1 < u64_limit)))
    × ((verify_and_advance_hotp fixed_hmac otp_secret sha1 6 otp_code 7 ≡ (ok true, 7 + 1))
        ⊎ (((verify_and_advance_hotp fixed_hmac otp_secret sha1 6 otp_code 7).1 ≡ 7)
            × ((verify_and_advance_hotp fixed_hmac otp_secret sha1 6 otp_code 7).0 ≢ ok true)))
verify_and_advance_hotp_lem_example =
    verify_and_advance_hotp_lem fixed_hmac otp_secret sha1 6 otp_code 7

abbrev signing : Signing
signing = record {
  Key = ℕ;
  try_sign = λ key message. (ok message, suc key);
  to_der = λ r s. ok (r ++ s);
  sha256 = λ t. ok t;
}

abbrev credential : Credential signing
credential = record {
  signing_key = 0;
  rp_id = text "example.com";
  credential_id = text "id";
  sign_count = 4;
}

abbrev key_request : GetRequest
key_request = record {
  rp_id = text "example.com";
  client_data_hash = text "hash";
  allow_credentials = text "other" ∷ text "id" ∷ [];
  user_verification = preferred;
}

abbrev authenticator : Authenticator signing
authenticator = record { borrowed = false; credential = credential }

abbrev requests : List GetRequest
requests = key_request ∷ record key_request { rp_id = text "evil.com" } ∷ key_request ∷ []

counts-Rising_example : Rising signing 4 (counts signing requests authenticator)
counts-Rising_example = counts-Rising signing requests authenticator
