-- ===== src/Flow/Form.antt =====
-- Form extraction and submission (src/flow/form.rs). `tokenize` is the HTML tokenizer.
pub mod Action
pub mod Submit
use mathlib.Core.List.{reverse}
use himmelcloak.Prelude.{
  ℕ, Text, text, text_eq, eq_ignore_ascii_case, contains, strip_prefix, decode, is_some, null, any,
  all, find, filter, map, List, [], ◌∷◌, ◌++◌, Option, none, some, Bool, true, false, not, ◌&&◌,
  ◌||◌, if◌then◌else◌, bind, Error, protocol, Result, ok, err, and_then, ok_or, ensure, Run,
}
use himmelcloak.Platform.{UrlLib}
use himmelcloak.Transport.{Machine}
use himmelcloak.Flow.Types.{OtpDevice, PageKind, otp_page}
use himmelcloak.Flow.Jar.{CookieJar}
use himmelcloak.Flow.Fetch.{Page, Fetched, post_form}
use himmelcloak.Flow.Classify.Scan.{Scan, Control, Token, run}
use himmelcloak.Flow.Classify.Kind.{kind}

unfoldable pub login_posted : List Text
login_posted = text "username" ∷ text "password" ∷ text "credentialId" ∷ []

unfoldable pub otp_posted : List Text
otp_posted = text "otp" ∷ text "selectedCredentialId" ∷ []

unfoldable pub action_path_suffix : Text
action_path_suffix = text "/login-actions/authenticate"

unfoldable pub action_query : List Text
action_query = text "session_code" ∷ text "execution" ∷ text "client_id" ∷ text "tab_id" ∷ []

-- A page's form, ready to be filled in and posted back.
pub record Form (L : UrlLib) : Type 0 where
  pub action : L.Url
  pub fields : List (Text × Text)
  pub devices : List Text

-- `ends_with`
unfoldable pub ends_with : Text → Text → Bool
ends_with s suffix = is_some (strip_prefix (reverse suffix) (reverse s))

-- The first loop of `check_action`: no name stands among those before it.
unfoldable pub no_repeats : List Text → List (Text × Text) → Bool
no_repeats before [] = true
no_repeats before ((name, _) ∷ ps) =
    not (contains before name) && no_repeats (before ++ name ∷ []) ps

-- The second loop: a pair of that name with a value.
unfoldable pub has_value : List (Text × Text) → Text → Bool
has_value pairs required = any (λ (p : Text × Text). text_eq p.0 required && not (null p.1)) pairs

module _ (L : UrlLib) where
  unfoldable pub on_site : L.Url → L.Url → Bool
  on_site page action =
      text_eq (L.scheme action) (text "https") && L.same_origin (L.origin action) (L.origin page)

  -- `check_action`
  unfoldable pub check_action : L.Url → L.Url → Result (Unit {0})
  check_action page action =
      if not (on_site page action)
      then err (protocol "login form posts to another site")
      else (if not (ends_with (L.path action) action_path_suffix)
          then err (protocol "login form does not post to login-actions")
          else (if not (no_repeats [] (L.query_pairs action))
              then err (protocol "repeated login form action parameter")
              else (if not (all (has_value (L.query_pairs action)) action_query)
                  then err (protocol "login form action missing session values")
                  else ok tt)))

  -- `action_url`: an empty action counts as none.
  unfoldable pub action_url : L.Url → Option Text → Result L.Url
  action_url page raw =
      and_then
        (ok_or (bind raw λ a. if null a then none else some a)
          (protocol "login form without action"))
        λ a.
          and_then (ok_or (L.join page a) (protocol "invalid login form action"))
            λ action. and_then (check_action page action) λ _. ok action

-- Which fields of the page are posted, and the devices the page lists.
pub posted_fields : PageKind → List Text
posted_fields (otp_page _) = otp_posted
posted_fields _ = login_posted

listed_devices : PageKind → List Text
listed_devices (otp_page ds) = map (λ (d : OtpDevice). d.id) ds
listed_devices _ = []

uses_post : Option Text → Bool
uses_post none = false
uses_post (some method) = eq_ignore_ascii_case method (text "post")

-- A browser submits a radio or checkbox only when it is selected.
submitted : List Text → Control → Bool
submitted posted c =
    contains posted c.name
    && (not (text_eq c.kind (text "radio") || text_eq c.kind (text "checkbox")) || c.checked)

field_of : Control → Text × Text
field_of c = (c.name, c.value)

credential_values : List (Text × Text) → List Text
credential_values fields =
    map (λ (f : Text × Text). f.1)
      (filter (λ (f : Text × Text). text_eq f.0 (text "selectedCredentialId")) fields)

module _ {L : UrlLib} where
  build_form : L.Url → PageKind → List Control → Form L
  build_form action k controls =
      let fields = map field_of (filter (submitted (posted_fields k)) controls) in
      let listed = listed_devices k in
      record {
        action = action;
        fields = fields;
        devices = if null listed then credential_values fields else listed;
      }

  -- `extract` after the scan
  extract_scan : L.Url → Scan → Result (PageKind × Form L)
  extract_scan url scan = and_then (ok_or (kind scan) (protocol "unknown login page")) λ k.
      and_then (ensure (uses_post scan.method) (protocol "login form must use POST")) λ _.
        and_then (action_url L url scan.action) λ action. ok (k, build_form action k scan.controls)

  -- `extract`
  unfoldable pub extract : (Text → List Token) → Page L → Result (PageKind × Form L)
  unfolding extract_scan build_form posted_fields listed_devices uses_post submitted field_of
      credential_values
  extract tokenize page =
      if is_some (decode page.body)
      then extract_scan page.url (run (tokenize page.body))
      else err (protocol "unknown login page")

  -- The loop of `submit` over the answers; `before` are the names already seen.
  unfoldable pub check_answers : Form L → List Text → List (Text × Text) → Result (Unit {0})
  check_answers form before [] = ok tt
  check_answers form before ((name, value) ∷ more) =
      let rest = check_answers form (before ++ name ∷ []) more in
      if not (any (λ (f : Text × Text). text_eq f.0 name) form.fields)
      then err (protocol "answer for a field the page does not have")
      else (if contains before name
          then err (protocol "repeated answer")
          else (if text_eq name (text "selectedCredentialId") && not (contains form.devices value)
              then err (protocol "device not offered by the page")
              else rest))

-- The value that is posted for a field: the answer's, or the page's own.
unfoldable pub fill : List (Text × Text) → Text × Text → Text × Text
fill answers (name, value) = elim (find (λ (a : Text × Text). text_eq a.0 name) answers) [
  | none ↦ (name, value)
  | some a ↦ (name, a.1)
]

module _ {L : UrlLib} (M : Machine L) where
  -- `submit`
  unfoldable pub submit : Form L → List (Text × Text) → Run (CookieJar L × M.World) (Fetched L)
  submit form answers s = elim (check_answers form [] answers) [
    | err e ↦ (err e, s)
    | ok _ ↦ post_form M form.action (map (fill answers) form.fields) s
  ]
