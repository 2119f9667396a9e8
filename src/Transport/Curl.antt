-- ===== src/Transport/Curl.antt =====
-- The callbacks of `send_blocking`, its result, the checked list of request headers and the choice of the
-- TLS backend (src/transport.rs). libcurl is not modelled: the order of its callbacks is an argument, as are
-- the outcome of the transfer, the status and the cookies it reports, and `curl_slist_append`. Memory runs
-- out only where libcurl says so.
pub mod Buffered
pub mod Headers
use himmelcloak.Prelude.{
  ℕ, zero, suc, ◌+◌, ◌-◌, Text, text, encode, decode, chars, trim, eq_ignore_ascii_case, length,
  null, any, filter, find, List, [], ◌∷◌, ◌++◌, Option, none, some, Bool, true, false, not, ◌==◌,
  ltb, ◌&&◌, ◌||◌, if◌then◌else◌, bind, Error, protocol, transport_error, tls_backend, Result, ok,
  err, and_then, ensure, ok_or,
}
use himmelcloak.Transport.{Response, Received, receive, max_headers, usize_limit}

-- `split_once` on one byte
unfoldable pub split_once : ℕ → Text → Option (Text × Text)
split_once sep [] = none
split_once sep (c ∷ s) =
    let rest = split_once sep s in
    if c == sep then some ([], s) else bind rest λ (p : Text × Text). some (c ∷ p.0, p.1)

-- `str::trim`
unfoldable pub trimmed : Text → Text
trimmed s = encode (trim (chars s))

-- The header of a line that is UTF-8 and has a colon; other lines are passed over.
unfoldable pub named : Option (Text × Text) → List (Text × Text)
unfolding trimmed
named none = []
named (some (name, value)) = (trimmed name, trimmed value) ∷ []

unfoldable pub header_of : Text → List (Text × Text)
unfolding named split_once
header_of line = elim (decode line) [ none ↦ [] | some cs ↦ named (split_once 0x3a line) ]

-- `usize::saturating_add`
unfoldable pub saturating_add : ℕ → ℕ → ℕ
saturating_add a b = if ltb (a + b) usize_limit then a + b else usize_limit - 1

-- The variables that the callbacks share.
pub record Download : Type 0 where
  pub received : Received
  pub headers : List (Text × Text)
  pub header_bytes : ℕ

abbrev pub no_download : Download
no_download = record {
  received = record { body = []; oversized = false };
  headers = [];
  header_bytes = 0;
}

-- A call of `header_function` or of `write_function`.
pub data Event : Type 0 where
  header_line chunk : Text → Event

-- The closure of `header_function`.
unfoldable pub on_line : Download → Text → Download
unfolding header_of saturating_add
on_line d line =
    let bytes = saturating_add d.header_bytes (length line) in
    if ltb max_headers bytes
    then record d {
      received = record { body = d.received.body; oversized = true };
      header_bytes = bytes;
    }
    else record d { headers = d.headers ++ header_of line; header_bytes = bytes }

unfoldable pub on_event : Download → Event → Download
unfolding on_line receive
on_event d (header_line line) = on_line d line
on_event d (chunk bytes) = record d { received = receive d.received bytes }

-- `perform`: a callback that refuses ends the transfer.
unfoldable pub perform : Download → List Event → Download
unfolding on_event
perform d [] = d
perform d (e ∷ es) =
    let rest = perform (on_event d e) es in elim d.received.oversized [ true ↦ d | false ↦ rest ]

-- `read_function`: how much of the body the buffer takes, and what was sent then.
unfoldable pub read_function : Text → ℕ → ℕ → ℕ × ℕ
read_function body sent capacity =
    let remaining = length body - sent in
    let count = if ltb remaining capacity then remaining else capacity in (count, sent + count)

-- The loop over `easy.cookies()`.
unfoldable pub read_cookies : List Text → Result (List Text)
read_cookies [] = ok []
read_cookies (c ∷ cs) =
    let rest = read_cookies cs in
    elim (decode c) [
      | none ↦ err (protocol "invalid cookie encoding")
      | some s ↦ and_then rest λ read. ok (c ∷ read)
    ]

-- `send_blocking` after `perform`: an oversized response is refused whatever libcurl made of it.
unfoldable pub finish :
    Download → Result (Unit {0}) → Result ℕ → Result (List Text) → Result Response
unfolding read_cookies
finish d transfer_result response_code cookies =
    and_then (ensure (not d.received.oversized) (protocol "HTTP response too large")) λ _.
      and_then transfer_result λ _. and_then response_code λ status.
        and_then (and_then cookies read_cookies) λ read.
          ok (record {
            status = status;
            headers = d.headers;
            body = d.received.body;
            cookies = read;
          })

-- `0`, CR and LF
unfoldable pub ends_header : ℕ → Bool
ends_header byte = (byte == 0) || (byte == 13) || (byte == 10)

-- `SecretHeaderList`: the copies that libcurl holds, and their lengths.
pub record SecretHeaderList : Type 0 where
  pub head : List Text
  pub lengths : List ℕ

abbrev pub no_headers : SecretHeaderList
no_headers = record { head = []; lengths = [] }

module _ (slist_append : List Text → Text → Option (List Text)) where
  -- `SecretHeaderList::append`
  unfoldable pub append : SecretHeaderList → Text → Result SecretHeaderList
  unfolding ends_header
  append list header =
      and_then (ensure (not (any ends_header header)) (protocol "invalid HTTP header")) λ _.
        and_then
          (ok_or (slist_append list.head header) (transport_error "HTTP header allocation failed"))
          λ next. ok (record { head = next; lengths = list.lengths ++ length header ∷ [] })

  -- The loop over the headers of a request.
  unfoldable pub append_all : SecretHeaderList → List Text → Result SecretHeaderList
  unfolding append
  append_all list [] = ok list
  append_all list (h ∷ hs) = and_then (append list h) λ list'. append_all list' hs

-- `zeroize` on the first bytes of a copy
unfoldable pub zeroize : ℕ → Text → Text
zeroize zero bytes = bytes
zeroize (suc n) [] = []
zeroize (suc n) (c ∷ bytes) = 0 ∷ zeroize n bytes

-- The loop of `SecretHeaderList::scrub`: it ends with the nodes or with the lengths.
unfoldable pub scrub_nodes : List ℕ → List Text → List Text
unfolding zeroize
scrub_nodes [] nodes = nodes
scrub_nodes (n ∷ ns) [] = []
scrub_nodes (n ∷ ns) (bytes ∷ nodes) = zeroize n bytes ∷ scrub_nodes ns nodes

-- `SecretHeaderList::scrub`
unfoldable pub scrub : SecretHeaderList → SecretHeaderList
unfolding scrub_nodes
scrub list = record list { head = scrub_nodes list.lengths list.head }

is_ascii_whitespace : ℕ → Bool
is_ascii_whitespace c = (c == 32) || (c == 9) || (c == 10) || (c == 12) || (c == 13)

-- The pieces between white space, empty ones too.
pieces : Text → List Text
unfolding is_ascii_whitespace
pieces [] = [] ∷ []
pieces (c ∷ s) = let rest = pieces s in if is_ascii_whitespace c then [] ∷ rest else push c rest
  where
    push : ℕ → List Text → List Text
    push c [] = (c ∷ []) ∷ []
    push c (p ∷ ps) = (c ∷ p) ∷ ps

-- `split_ascii_whitespace`
split_ascii_whitespace : Text → List Text
unfolding pieces
split_ascii_whitespace s = filter (λ p. not (null p)) (pieces s)

starts_parenthesis : Text → Bool
starts_parenthesis [] = false
starts_parenthesis (c ∷ s) = c == 0x28

released : Option (Text × Text) → Bool
released none = false
released (some (name, release)) = eq_ignore_ascii_case name (text "wolfssl") && not (null release)

unfoldable pub active_wolfssl : Text → Bool
unfolding split_ascii_whitespace starts_parenthesis released
active_wolfssl version = released (
    bind (find (λ b. not (starts_parenthesis b)) (split_ascii_whitespace version))
      (split_once 0x2f))

-- `CurlTransport::new`: without an active wolfSSL there is no transport.
unfoldable pub new_transport : Text → Result (Unit {0})
unfolding active_wolfssl
new_transport version = ensure (active_wolfssl version) tls_backend
