-- ===== src/Flow/Fetch.antt =====
-- Fetching one page with the cookies of its origin (src/flow/fetch.rs). Redirects are reported and
-- never followed here. The state is the jar and the world, which stay written on an error.
pub mod Isolation
use himmelcloak.Prelude.{
  ℕ, Text, text, text_eq, List, [], Option, none, some, Bool, true, false, ◌==◌, leb, ◌&&◌,
  if◌then◌else◌, Error, protocol, http_status, Result, ok, err, and_then, ok_or, Run, lift,
}
use himmelcloak.Platform.{UrlLib}
use himmelcloak.Transport.{Machine, Request, Response, header, get_request, form_request}
use himmelcloak.Flow.Jar.{CookieJar, lines_at, replace_at}

pub data RedirectKind : Type 0 where
  moved_permanently found see_other temporary_redirect permanent_redirect : RedirectKind

-- `RedirectKind::from_status`
unfoldable pub from_status : ℕ → Option RedirectKind
from_status status =
    if status == 301
    then some moved_permanently
    else (if status == 302
        then some found
        else (if status == 303
            then some see_other
            else (if status == 307
                then some temporary_redirect
                else (if status == 308 then some permanent_redirect else none))))

-- `RedirectKind::repeats_request`
unfoldable pub repeats_request : RedirectKind → Bool
repeats_request temporary_redirect = true
repeats_request permanent_redirect = true
repeats_request _ = false

pub record Page (L : UrlLib) : Type 0 where
  pub url : L.Url
  pub status : ℕ
  pub body : Text

pub record Redirect (L : UrlLib) : Type 0 where
  pub location : L.Url
  pub same_origin : Bool
  pub kind : RedirectKind

pub data Fetched (L : UrlLib) : Type 0 where
  page : Page L → Fetched L
  redirect : Redirect L → Fetched L

module _ (L : UrlLib) where
  -- `allowed_scheme` of a release build: the loopback exception is for test builds.
  unfoldable pub allowed_scheme : L.Url → Bool
  allowed_scheme url = text_eq (L.scheme url) (text "https")

  redirect_to : L.Url → Response → RedirectKind → Result (Fetched L)
  redirect_to url response kind =
      and_then (ok_or (header response (text "Location")) (protocol "redirect without Location"))
        λ raw. and_then (ok_or (L.join url raw) (protocol "invalid redirect Location")) λ location.
          ok (
            redirect (record {
              location = location;
              same_origin = L.same_origin (L.origin location) (L.origin url);
              kind = kind;
            }))

  -- What `send` makes of a response.
  unfoldable pub classify_response : L.Url → Response → Result (Fetched L)
  unfolding redirect_to from_status
  classify_response url response = elim (from_status response.status) [
    | some kind ↦ redirect_to url response kind
    | none ↦
        (if leb 300 response.status && leb response.status 399
          then err (http_status response.status)
          else ok (page (record { url = url; status = response.status; body = response.body })))
  ]

module _ {L : UrlLib} (M : Machine L) where
  -- `unix_now`: a clock before the epoch reads as zero.
  unfoldable pub unix_now : M.World → ℕ × M.World
  unix_now w = elim (M.system_time w).0 [
    | none ↦ (0, (M.system_time w).1)
    | some t ↦ (t, (M.system_time w).1)
  ]

  -- The jar and the page, once the response is there.
  unfoldable pub receive_response :
      L.Url → CookieJar L → Result Response × M.World → Result (Fetched L) × (CookieJar L × M.World)
  unfolding unix_now
  receive_response url jar (err e, w) = (err e, (jar, w))
  receive_response url jar (ok response, w) =
      let (now, w') = unix_now w in
      (classify_response L url response, (replace_at L jar url response.cookies now, w'))

  -- `send`
  unfoldable pub send : Request L → Run (CookieJar L × M.World) (Fetched L)
  unfolding receive_response unix_now
  send request (jar, w) =
      if allowed_scheme L request.url
      then (let (now, w') = unix_now w in
          receive_response request.url jar
            (M.send (record request { cookies = lines_at L jar request.url now }) w'))
      else (err (protocol "page URL must use HTTPS"), (jar, w))

  -- `get`
  unfoldable pub get : L.Url → Run (CookieJar L × M.World) (Fetched L)
  get url = send (get_request url)

  -- `post_form`
  unfoldable pub post_form : L.Url → List (Text × Text) → Run (CookieJar L × M.World) (Fetched L)
  post_form url fields s = elim (form_request {L = L} url fields) [
    | err e ↦ (err e, s)
    | ok request ↦ send request s
  ]
