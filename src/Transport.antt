-- ===== src/Transport.antt =====
-- Requests and responses, and the limits on them (src/transport.rs). `HttpTransport` is the `send`
-- of `Machine`: libcurl, the clocks and the random generator are the machine's.
pub mod Curl
pub mod Limits
pub mod Slots
use himmelcloak.Prelude.{
  ℕ, zero, suc, ◌+◌, ◌-◌, ◌*◌, Text, text, text_eq, eq_ignore_ascii_case, length, null, find, List,
  [], ◌∷◌, ◌++◌, Option, none, some, Bool, true, false, not, ◌==◌, ltb, leb, ◌&&◌, ◌||◌,
  if◌then◌else◌, bind, Error, protocol, Result, ok, err,
}
use mathlib.Core.List.{reverse}
use himmelcloak.Platform.{UrlLib}

pub data Method : Type 0 where
  get post : Method

pub record Request (L : UrlLib) : Type 0 where
  pub method : Method
  pub url : L.Url
  pub headers : List Text
  pub body : Text
  pub cookies : List Text

pub record Response : Type 0 where
  pub status : ℕ
  pub headers : List (Text × Text)
  pub body : Text
  pub cookies : List Text

pub record Machine (L : UrlLib) : Type 1 where
  pub World : Type 0
  -- `Instant::now`
  pub instant : World → ℕ × World
  -- `SystemTime::now` since the epoch, in seconds; `none` before it
  pub system_time : World → Option ℕ × World
  -- `HttpTransport::send`
  pub send : Request L → World → Result Response × World
  -- `crypto::random_bytes`, encoded for a URL by `random_base64`
  pub random_base64 : ℕ → World → Result Text × World

abbrev pub max_response : ℕ
max_response = 1024 * 1024

abbrev pub max_headers : ℕ
max_headers = 64 * 1024

abbrev pub max_form : ℕ
max_form = 1024 * 1024

-- `usize` of 64 bits
abbrev pub usize_limit : ℕ
usize_limit = 18446744073709551616

checked_add : ℕ → ℕ → Option ℕ
checked_add a b = if ltb (a + b) usize_limit then some (a + b) else none

checked_mul : ℕ → ℕ → Option ℕ
checked_mul a b = if ltb (a * b) usize_limit then some (a * b) else none

-- The closure of `try_fold`: what one field adds to the capacity.
add_field : ℕ → Text × Text → Option ℕ
unfolding checked_add checked_mul
add_field size (name, value) =
    bind (checked_add (length name) (length value))
      λ n. bind (checked_mul n 3) λ m. bind (checked_add m 2) λ k. checked_add k size

capacity_from : ℕ → List (Text × Text) → Option ℕ
capacity_from size [] = some size
capacity_from size (f ∷ fs) = elim (add_field size f) [
  | none ↦ none
  | some size' ↦ capacity_from size' fs
]

-- `filter` on the capacity, and the request that is built once it fits.
within_form_limit : Option ℕ → Bool
within_form_limit none = false
within_form_limit (some size) = leb size max_form

form_capacity_ok : List (Text × Text) → Bool
unfolding capacity_from within_form_limit add_field
form_capacity_ok fields = within_form_limit (capacity_from 0 fields)

module _ {L : UrlLib} where
  -- `Request::get`
  unfoldable pub get_request : L.Url → Request L
  get_request url = record { method = get; url = url; headers = []; body = []; cookies = [] }

  -- `Request::form`
  unfoldable pub form_request : L.Url → List (Text × Text) → Result (Request L)
  unfolding form_capacity_ok
  form_request url fields =
      if form_capacity_ok fields
      then ok (record {
        method = post;
        url = url;
        headers = text "Content-Type: application/x-www-form-urlencoded" ∷ [];
        body = L.form_urlencoded fields;
        cookies = [];
      })
      else err (protocol "form request too large")

-- `Response::header`: the last header of that name, letter case aside.
unfoldable pub header : Response → Text → Option Text
header response name =
    bind (find (λ (h : Text × Text). eq_ignore_ascii_case h.0 name) (reverse response.headers))
      λ (h : Text × Text). some h.1

-- `curl_timeout`, in nanoseconds: libcurl counts milliseconds, and zero would switch its timeout off.
unfoldable pub curl_timeout : ℕ → Option ℕ
curl_timeout remaining =
    if remaining == 0 then none else some (if ltb remaining 1000000 then 1000000 else remaining)

-- The body buffered so far, and whether a chunk was refused: `write_function` of `send_blocking`.
pub record Received : Type 0 where
  pub body : Text
  pub oversized : Bool

-- A chunk is stored whole or refused; refusing one (`Ok(0)`) ends the transfer.
unfoldable pub receive : Received → Text → Received
receive r bytes =
    if ltb max_response (length r.body + length bytes)
    then record r { oversized = true }
    else record r { body = r.body ++ bytes }

-- The chunks of a transfer, up to the first that is refused.
unfoldable pub receive_all : Received → List Text → Received
receive_all r [] = r
receive_all r (c ∷ cs) = elim r.oversized [ true ↦ r | false ↦ receive_all (receive r c) cs ]
