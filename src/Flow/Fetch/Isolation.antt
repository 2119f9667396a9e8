-- ===== src/Flow/Fetch/Isolation.antt =====
-- What one fetch may do to the jar, and what it reports.
use himmelcloak.Prelude.{
  ℕ, ◌≤◌, Text, text, some, false, protocol, Result, ok, err, ◌≡◌, ◌≢◌, ◌⊎◌, inl, inr, refl, arith,
  Bool-cases, Option-cases,
}
use himmelcloak.Platform.{UrlLib, OriginLaws}
use himmelcloak.Transport.{Machine, Request, Response, header}
use himmelcloak.Flow.Jar.{CookieJar, lines_at}
use himmelcloak.Flow.Jar.Origins.{
  HasUniqueOrigins, lines_at-replace_at_other, replace_at-HasUniqueOrigins,
}
use himmelcloak.Flow.Fetch.{
  Fetched, page, redirect, RedirectKind, moved_permanently, found, see_other, temporary_redirect,
  permanent_redirect, allowed_scheme, redirect_to, classify_response, unix_now, receive_response,
  send, from_status,
}

module _ {L : UrlLib} (M : Machine L) where
  -- A request that is not for HTTPS is refused before anything is sent: the jar and the world are as
  -- they were, and no clock was read.
  pub send-insecure :
      (request : Request L) (jar : CookieJar L) (w : M.World)
      → allowed_scheme L request.url ≡ false
      → send M request (jar, w) ≡ (err (protocol "page URL must use HTTPS"), (jar, w))
  unfolding send
  send-insecure request jar w h = rw (h, send) refl

module _ {L : UrlLib} (laws : OriginLaws L) (M : Machine L) where
  receive_response-lines_at :
      (url other : L.Url) (jar : CookieJar L) (got : Result Response × M.World) (later : ℕ)
      → HasUniqueOrigins L jar
      → L.origin url ≢ L.origin other
      → lines_at L (receive_response M url jar got).1.0 other later ≡ lines_at L jar other later
  unfolding receive_response
  receive_response-lines_at url other jar (err e, w) later u n = refl
  receive_response-lines_at url other jar (ok response, w) later u n =
      lines_at-replace_at_other L laws jar url other response.cookies (unix_now M w).0 later u n

  receive_response-HasUniqueOrigins :
      (url : L.Url) (jar : CookieJar L) (got : Result Response × M.World)
      → HasUniqueOrigins L jar
      → HasUniqueOrigins L (receive_response M url jar got).1.0
  unfolding receive_response
  receive_response-HasUniqueOrigins url jar (err e, w) u = u
  receive_response-HasUniqueOrigins url jar (ok response, w) u =
      replace_at-HasUniqueOrigins L laws jar url response.cookies (unix_now M w).0 u

  -- With one jar entry at most for each origin, and whatever the server answers, one fetch leaves the cookies of every other origin as they were.
  pub lines_at-send_other :
      (request : Request L) (other : L.Url) (jar : CookieJar L) (w : M.World) (later : ℕ)
      → HasUniqueOrigins L jar
      → L.origin request.url ≢ L.origin other
      → lines_at L (send M request (jar, w)).1.0 other later ≡ lines_at L jar other later
  unfolding send
  lines_at-send_other request other jar w later u n =
      elim (Bool-cases (allowed_scheme L request.url)) [
        | inl h ↦ rw (h, send) (receive_response-lines_at request.url other jar _ later u n)
        | inr h ↦ rw (h, send) refl
      ]

  -- A fetch keeps one entry for each origin.
  pub send-HasUniqueOrigins :
      (request : Request L) (jar : CookieJar L) (w : M.World)
      → HasUniqueOrigins L jar
      → HasUniqueOrigins L (send M request (jar, w)).1.0
  unfolding send
  send-HasUniqueOrigins request jar w u = elim (Bool-cases (allowed_scheme L request.url)) [
    | inl h ↦ rw (h, send) (receive_response-HasUniqueOrigins request.url jar _ u)
    | inr h ↦ rw (h, send) u
  ]

-- The status code of each redirect.
abbrev pub code : RedirectKind → ℕ
code moved_permanently = 301
code found = 302
code see_other = 303
code temporary_redirect = 307
code permanent_redirect = 308

-- What a report says of the response it stands for.
abbrev pub Reports : {L : UrlLib} → L.Url → Response → Fetched L → Type 0
Reports {L} url response (page p) =
    (p.url ≡ url)
    × (p.status ≡ response.status)
    × (p.body ≡ response.body)
    × ((response.status ≤ 299) ⊎ (400 ≤ response.status))
Reports {L} url response (redirect r) =
    (response.status ≡ code r.kind)
    × ((raw : Text) × (header response (text "Location") ≡ some raw)
        × (L.join url raw ≡ some r.location))
    × (r.same_origin ≡ L.same_origin (L.origin r.location) (L.origin url))

from_status-code :
    (status : ℕ) (kind : RedirectKind) → from_status status ≡ some kind → status ≡ code kind
unfolding from_status
from_status-code status moved_permanently h = ground arith
from_status-code status found h = ground arith
from_status-code status see_other h = ground arith
from_status-code status temporary_redirect h = ground arith
from_status-code status permanent_redirect h = ground arith

module _ (L : UrlLib) (url : L.Url) (response : Response) where
  redirect_to-cases :
      (kind : RedirectKind) (f : Fetched L)
      → from_status response.status ≡ some kind
      → redirect_to L url response kind ≡ ok f
      → Reports url response f
  unfolding redirect_to
  redirect_to-cases kind (page p) e h = absurd (ground arith)
  redirect_to-cases kind (redirect r) e h =
      elim (Option-cases (header response (text "Location"))) [
        | inl e' ↦ absurd (ground arith)
        | inr (raw, e') ↦ elim (Option-cases (L.join url raw)) [
          | inl e'' ↦ absurd (ground arith)
          | inr (location, e'') ↦
              (from_status-code _ r.kind (ground arith), (raw, e', ground arith), ground arith)
        ]
      ]

  -- A fetched page is the response as it came and never has a redirect status; a reported redirect
  -- has the status 301, 302, 303, 307 or 308 that its kind stands for, goes where `Location` says, and is marked as staying on the
  -- origin exactly when it does.
  pub classify_response-Reports :
      (f : Fetched L) → classify_response L url response ≡ ok f → Reports url response f
  unfolding classify_response
  classify_response-Reports (page p) h = elim (Option-cases (from_status response.status)) [
    | inl e ↦ ground arith
    | inr (k, e) ↦ redirect_to-cases k (page p) e (rw (e, classify_response) at h)
  ]
  classify_response-Reports (redirect r) h = elim (Option-cases (from_status response.status)) [
    | inl e ↦ absurd (ground arith)
    | inr (k, e) ↦ redirect_to-cases k (redirect r) e (rw (e, classify_response) at h)
  ]
