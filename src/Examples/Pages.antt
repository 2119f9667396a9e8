-- ===== src/Examples/Pages.antt =====
-- Labels, scans, pages and forms.
use himmelcloak.Prelude.{
  Text, text, List, [], ◌∷◌, none, some, false, Error, ok, err, ◌≡◌, ◌↔◌, ◌⊎◌, contains_complete,
  arith, find, any, all, contains, filter, decode, strip_prefix, eq_ignore_ascii_case, refl,
  text_eq,
}
use mathlib.Core.Bool.{false≢true}
use himmelcloak.Flow.Types.{Challenge, Answer, username_password}
use himmelcloak.Flow.Expect.{of, check}
use himmelcloak.Flow.Expect.Sound.{Fits, check-iff-Fits}
use himmelcloak.Flow.Jar.{empty_jar}
use himmelcloak.Flow.Fetch.{Page, post_form}
use himmelcloak.Flow.Classify.Scan.{
  Scan, StartTag, Token, start_tag, end_tag, string, empty_scan, run,
}
use himmelcloak.Flow.Classify.Scan.Inert.{depth_after, StaysInside}
use himmelcloak.Flow.Classify.Kind.{
  kind, has, only, login_fields, unique, unique_from, is_device_radio,
}
use himmelcloak.Flow.Classify.Kind.Accepts.{Known, kind-Known}
use himmelcloak.Flow.Form.{
  Form, extract, submit, action_url, check_action, on_site, ends_with, action_path_suffix,
  no_repeats, action_query, has_value, login_posted,
}
use himmelcloak.Flow.Form.Action.{IsLoginAction, PostsOnly, extract-lem}
use himmelcloak.Flow.Form.Submit.{Answerable, Filled, Pointwise, submit-cases}
use himmelcloak.Flow.Factor.{builtin, password_factor, password_challenges}
use himmelcloak.Flow.Factor.Fields.{BecameFields, builtin-BecameFields}
use himmelcloak.Examples.World.{addresses, addresses_laws, wired, quiet, Address}

check-iff-Fits_example :
    (check (of Challenge.password) (Answer.password (text "secret")) ≡ ok tt)
    ↔ Fits Challenge.password (Answer.password (text "secret"))
check-iff-Fits_example = check-iff-Fits Challenge.password (Answer.password (text "secret"))

abbrev padded : Text
padded = text "  My   phone "

abbrev tag : Text → List (Text × Text) → StartTag
tag name attributes = record { name = name; attributes = attributes; self_closing = false }

abbrev in_template : Scan
in_template = record empty_scan { templates = 1 }

abbrev hidden_form : List Token
hidden_form = start_tag (tag (text "form") []) ∷ string (text "shown") ∷ []

hidden-StaysInside : StaysInside 1 hidden_form
unfolding depth_after text text_eq
hidden-StaysInside = (omega arith, (omega arith, tt))

abbrev input_tag : Text → Token
input_tag name = start_tag (tag (text "input") ((text "name", name) ∷ []))

abbrev pub login_page : List Token
login_page =
    start_tag (
      tag (text "form") (
        (text "action", text "/realms/r/login-actions/authenticate")
        ∷ (text "method", text "post")
        ∷ []))
    ∷ input_tag (text "username")
    ∷ input_tag (text "password")
    ∷ end_tag (text "form")
    ∷ []

login_page-kind : kind (run login_page) ≡ some (username_password none)
unfolding kind run text text_eq find has any only all contains login_fields unique unique_from
    is_device_radio
login_page-kind = refl

kind-Known_example :
    ((run login_page).forms ≡ 1)
    × ((run login_page).suspicious ≡ false)
    × Known (run login_page) (username_password none)
kind-Known_example = kind-Known (run login_page) (username_password none) login_page-kind

abbrev session_pairs : List (Text × Text)
session_pairs =
    (text "session_code", text "s")
    ∷ (text "execution", text "e")
    ∷ (text "client_id", text "c")
    ∷ (text "tab_id", text "t")
    ∷ []

abbrev page_address : Address
page_address = record {
  scheme = text "https";
  host = text "login.test";
  path = text "/auth";
  pairs = session_pairs;
}

abbrev fetched_page : Page addresses
fetched_page = record { url = page_address; status = 200; body = [] }

abbrev pub login_form : Form addresses
login_form = record {
  action = record page_address { path = text "/realms/r/login-actions/authenticate" };
  fields = (text "username", []) ∷ (text "password", []) ∷ [];
  devices = [];
}

fetched_page-extract :
    extract (λ _. login_page) fetched_page ≡ ok (username_password none, login_form)
unfolding extract kind run text text_eq find has any only all contains login_fields unique
    unique_from is_device_radio decode eq_ignore_ascii_case action_url check_action on_site
    ends_with strip_prefix action_path_suffix no_repeats action_query has_value filter login_posted
fetched_page-extract = refl

extract-lem_example :
    (kind (run login_page) ≡ some (username_password none))
    × IsLoginAction addresses page_address login_form.action
    × PostsOnly (username_password none) login_form
extract-lem_example = extract-lem addresses_laws (λ _. login_page) fetched_page fetched_page-extract

abbrev credentials : List (Text × Text)
credentials = (text "username", text "alice") ∷ (text "password", text "secret") ∷ []

submit-cases_example :
    ((e : Error) × (submit wired login_form credentials (empty_jar, quiet)
        ≡ (err e, (empty_jar, quiet))))
    ⊎ (Answerable login_form credentials
        × ((posted : List (Text × Text)) × Pointwise (Filled credentials) login_form.fields posted
            × (submit wired login_form credentials (empty_jar, quiet)
                ≡ post_form wired login_form.action posted (empty_jar, quiet))))
submit-cases_example = submit-cases wired login_form credentials (empty_jar, quiet)

abbrev stray : List (Text × Text)
stray = (text "otp", text "123456") ∷ []

stray-unanswerable : ¬ Answerable login_form stray
unfolding text text_eq contains any
stray-unanswerable h = false≢true (contains_complete h.0)

abbrev given : List Answer
given = Answer.username (text "alice") ∷ Answer.password (text "secret") ∷ []

abbrev asked : List Challenge
asked = Challenge.username ∷ Challenge.password ∷ []

login-factor : builtin (username_password none) ≡ some password_factor
unfolding builtin
login-factor = refl

login-asked : password_factor.challenges (username_password none) none ≡ ok asked
unfolding password_factor password_challenges
login-asked = refl

builtin-BecameFields_example :
    BecameFields (password_factor.fields (username_password none) given) asked given
builtin-BecameFields_example =
    builtin-BecameFields (username_password none) password_factor none asked given login-factor
      login-asked (tt, (tt, tt))
