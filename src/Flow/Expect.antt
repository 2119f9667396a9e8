-- ===== src/Flow/Expect.antt =====
-- What the waiting challenge accepts: `Expect::of` and `Expect::check` of src/flow/driver.rs.
pub mod Sound
use himmelcloak.Prelude.{
  ℕ, Text, text_eq, contains, length, null, all, filter, map, List, Option, none, some, Bool, ◌==◌,
  ◌&&◌, ◌||◌, if◌then◌else◌, Error, protocol, Result, ok, err,
}
use himmelcloak.Flow.Types.{Challenge, Answer, Field, AuthMethod, OtpDevice}

pub data Expect : Type 0 where
  username : Expect
  password : Expect
  one_time_code : List Text → Expect
  recovery_code : Expect
  web_authn : List Text → Expect
  choose_method : List Text → Expect
  required_action : List Text → Expect
  info : Expect

-- `Expect::of`
unfoldable pub of : Challenge → Expect
of Challenge.username = username
of Challenge.password = password
of (Challenge.one_time_code devices) = one_time_code (map (λ (d : OtpDevice). d.id) devices)
of (Challenge.recovery_code _) = recovery_code
of (Challenge.web_authn request) = web_authn request.allow_credentials
of (Challenge.choose_method methods) = choose_method (map (λ (m : AuthMethod). m.id) methods)
of (Challenge.required_action action) = required_action (map (λ (f : Field). f.name) action.fields)
of (Challenge.info _) = info

-- `answered_once` in `check`: the field is named exactly once among the given values.
unfoldable pub answered_once : List (Text × Text) → Text → Bool
answered_once given field = length (filter (λ (p : Text × Text). text_eq p.0 field) given) == 1

abbrev mismatch : Result (Unit {0})
mismatch = err (protocol "answer does not match the challenge")

check_device : List Text → Option Text → Result (Unit {0})
check_device devices none = if null devices then ok tt else mismatch
check_device devices (some device) =
    if contains devices device then ok tt else err (protocol "device not offered by the page")

-- `Expect::check`
unfoldable pub check : Expect → Answer → Result (Unit {0})
unfolding check_device
check username (Answer.username _) = ok tt
check password (Answer.password _) = ok tt
check recovery_code (Answer.recovery_code _) = ok tt
check info Answer.acknowledge = ok tt
check (one_time_code devices) (Answer.one_time_code _ device) = check_device devices device
check (web_authn allowed) (Answer.web_authn assertion) =
    if null allowed || contains allowed assertion.credential_id
    then ok tt
    else err (protocol "credential not allowed")
check (choose_method methods) (Answer.choose_method method) =
    if contains methods method then ok tt else err (protocol "method not offered")
check (required_action fields) (Answer.required_action given) =
    if (length given.values == length fields) && all (answered_once given.values) fields
    then ok tt
    else err (protocol "answer does not match the required action")
check _ _ = mismatch
