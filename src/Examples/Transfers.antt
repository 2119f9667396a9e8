-- ===== src/Examples/Transfers.antt =====
-- The slots and the callbacks of the transport.
use himmelcloak.Prelude.{
  all, any, ◌++◌, Option, some, ◌+◌, ◌≤◌, Text, text, List, [], ◌∷◌, true, false, ok, find, filter,
  eq_ignore_ascii_case, text_eq, ◌≡◌, refl,
}
use himmelcloak.Transport.Slots.{
  max_blocking_requests, Transfer, spawn, begin, leave, acquire, work, quit, arrive, here, Steps,
  none_left, then, Reachable,
}
use himmelcloak.Transport.Slots.Balance.{all_held, all_running, Reachable-Balanced}
use himmelcloak.Transport.Slots.Drain.{AllIdle, Reachable-drains}
use himmelcloak.Transport.Curl.Headers.{is_one_line, is_zero, append_all-Scrubbed}
use himmelcloak.Transport.Curl.{
  Event, header_line, chunk, no_download, perform, finish, active_wolfssl, SecretHeaderList,
  no_headers, append_all, scrub, split_once,
}
use himmelcloak.Transport.Curl.Buffered.{reference, finish-reference}

abbrev first_request : Text
first_request = text "first"

abbrev second_request : Text
second_request = text "second"

-- One caller left while its worker was stuck in the queue, another transfer runs.
abbrev busy : List (Transfer Text)
busy = (begin (spawn second_request)).1 ∷ (leave true (spawn first_request)).1 ∷ []

busy-Reachable : Reachable 31 busy
unfolding leave begin
busy-Reachable =
    then
      (then
        (then
          (then
            (then (then none_left (arrive first_request)) (here (acquire first_request refl refl)))
            (here (quit true refl)))
          (arrive second_request))
        (here (acquire second_request refl refl)))
      (here (work refl))

Reachable-Balanced_example :
    (31 + all_held busy ≡ max_blocking_requests) × (all_running busy ≤ max_blocking_requests)
Reachable-Balanced_example = Reachable-Balanced busy-Reachable

Reachable-drains_example :
    (ts : List (Transfer Text)) × Steps 31 busy max_blocking_requests ts × AllIdle ts
Reachable-drains_example = Reachable-drains busy-Reachable

abbrev callbacks : List Event
callbacks =
    header_line (text "HTTP/1.1 200 OK")
    ∷ header_line (text "Location: /next")
    ∷ chunk (text "he")
    ∷ chunk (text "llo")
    ∷ []

finish-reference_example :
    finish (perform no_download callbacks) (ok tt) (ok 200) (ok [])
    ≡ reference callbacks (ok tt) (ok 200) (ok [])
finish-reference_example = finish-reference callbacks (ok tt) (ok 200) (ok [])

wolfssl_active : active_wolfssl (text "(OpenSSL/3.0) wolfSSL/5.8.0") ≡ true
unfolding active_wolfssl find filter text split_once eq_ignore_ascii_case text_eq
wolfssl_active = refl

wolfssl_inactive : active_wolfssl (text "OpenSSL/3.0 (wolfSSL/5.8.0)") ≡ false
unfolding active_wolfssl find filter text split_once eq_ignore_ascii_case text_eq
wolfssl_inactive = refl

-- `curl_slist_append` that always finds memory.
abbrev appended : List Text → Text → Option (List Text)
appended list header = some (list ++ header ∷ [])

appended-appends :
    (list : List Text) (header : Text) (list' : List Text)
    → appended list header ≡ some list'
    → list' ≡ list ++ header ∷ []
appended-appends list header list' h = cc

abbrev request_headers : List Text
request_headers = (0x41 ∷ 0x3a ∷ 0x42 ∷ []) ∷ []

abbrev header_list : SecretHeaderList
header_list = record { head = request_headers; lengths = 3 ∷ [] }

header_list-appended : append_all appended no_headers request_headers ≡ ok header_list
unfolding append_all any
header_list-appended = refl

append_all-Scrubbed_example :
    (header_list.head ≡ request_headers)
    × (all is_one_line request_headers ≡ true)
    × (all is_zero (scrub header_list).head ≡ true)
append_all-Scrubbed_example =
    append_all-Scrubbed appended appended-appends request_headers header_list-appended
