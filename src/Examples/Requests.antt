-- ===== src/Examples/Requests.antt =====
-- Requests, cookies and responses.
use himmelcloak.Prelude.{
  ◌≤◌, Text, text, filter, List, [], ◌∷◌, true, false, ok, text_eq, is_ok, ◌≡◌, ◌≢◌, sym, ap, ◌↔◌,
  ◌⊎◌, refl, arith, eq_ignore_ascii_case,
}
use mathlib.Core.Bool.{false≢true}
use himmelcloak.Transport.{Received, form_request, get_request, max_form, Response}
use himmelcloak.Transport.Limits.{form_request-ok_iff, worst_case}
use himmelcloak.Flow.Jar.{
  empty_jar, domain_matches, lines_at, replace_at, unexpired, usable, bare_host,
}
use himmelcloak.Flow.Jar.Domains.{domain_matches_iff, IsSubdomain}
use himmelcloak.Flow.Jar.Origins.{HasUniqueOrigins, lines_at-replace_at_self}
use himmelcloak.Flow.Fetch.{send, classify_response, Fetched, page, allowed_scheme}
use himmelcloak.Flow.Fetch.Isolation.{lines_at-send_other, classify_response-Reports, Reports}
use himmelcloak.Examples.World.{addresses, addresses_laws, wired, at_host, callback_address, Wire}

abbrev one_field : List (Text × Text)
one_field = (text "code", text "123456") ∷ []

form_request-ok_iff_example :
    (is_ok (form_request {L = addresses} (at_host [] []) one_field) ≡ true)
    ↔ (worst_case one_field ≤ max_form)
form_request-ok_iff_example = form_request-ok_iff addresses (at_host [] []) one_field

abbrev nothing_yet : Received
nothing_yet = record { body = []; oversized = false }

abbrev chunks : List Text
chunks = (1 ∷ 2 ∷ []) ∷ (3 ∷ []) ∷ []

domain_matches_iff_example :
    (domain_matches (text "auth.login.test") (text "login.test") ≡ true) ↔ (
      (text "login.test" ≢ [])
      × ((eq_ignore_ascii_case (text "auth.login.test") (text "login.test") ≡ true)
          ⊎ IsSubdomain (text "auth.login.test") (text "login.test")))
domain_matches_iff_example = domain_matches_iff (text "auth.login.test") (text "login.test")

abbrev here : Text
here = text "login.test"

no_entries : HasUniqueOrigins addresses empty_jar
unfolding filter
no_entries o = omega arith

elsewhere : text "a" ≢ text "b"
unfolding text text_eq
elsewhere h = false≢true (ap (text_eq (text "a")) (sym h))

lines_at-replace_at_self_example :
    lines_at addresses
      (replace_at addresses empty_jar (at_host here []) (text "line" ∷ []) 1)
      (at_host here [])
      2
    ≡ filter (unexpired 2) (filter (usable (bare_host here) 1) (text "line" ∷ []))
lines_at-replace_at_self_example =
    lines_at-replace_at_self addresses addresses_laws empty_jar (at_host here []) (text "line" ∷ [])
      1 2 no_entries refl

plain_scheme :
    allowed_scheme addresses (get_request {L = addresses} (callback_address [])).url ≡ false
unfolding allowed_scheme text text_eq get_request
plain_scheme = refl

abbrev found : Response
found = record { status = 200; headers = []; body = text "<html>"; cookies = text "line" ∷ [] }

abbrev one_reply : Wire
one_reply = record { clock = 0; sent = 0; replies = found ∷ [] }

lines_at-send_other_example :
    lines_at addresses
      (send wired (get_request (at_host (text "a") [])) (empty_jar, one_reply)).1.0
      (at_host (text "b") [])
      2
    ≡ lines_at addresses empty_jar (at_host (text "b") []) 2
unfolding get_request
lines_at-send_other_example =
    lines_at-send_other addresses_laws wired (get_request (at_host (text "a") []))
      (at_host (text "b") []) empty_jar one_reply 2 no_entries elsewhere

abbrev found_page : Fetched addresses
found_page = page (record { url = at_host here []; status = 200; body = text "<html>" })

page_found : classify_response addresses (at_host here []) found ≡ ok found_page
unfolding classify_response
page_found = refl

classify_response-Reports_example : Reports (at_host here []) found found_page
classify_response-Reports_example =
    classify_response-Reports addresses (at_host here []) found found_page page_found
