-- ===== src/Flow/Types.antt =====
-- The public contract of a login: challenges, answers and steps (src/flow/mod.rs), the pages that
-- they come from (src/flow/classify.rs) and the assertion types (src/authenticator/mod.rs).
use himmelcloak.Prelude.{ℕ, Text, Option, List, Bool}

-- One OTP device the user can pick on the code page.
pub record OtpDevice : Type 0 where
  pub id : Text
  pub label : Text

pub record AuthMethod : Type 0 where
  pub id : Text
  pub label : Text

pub data UserVerification : Type 0 where
  required preferred discouraged : UserVerification

-- `CredentialDescriptor` has the one field `id`, and is its value here.
pub record WebAuthnChallenge : Type 0 where
  pub rp_id : Text
  pub challenge : Text
  pub allow_credentials : List Text
  pub user_verification : UserVerification
  pub origin : Text

pub record WebAuthnAssertion : Type 0 where
  pub authenticator_data : Text
  pub signature : Text
  pub credential_id : Text
  pub user_handle : Option Text

pub record Field : Type 0 where
  pub name : Text
  pub label : Text
  pub secret : Bool

pub record RequiredAction : Type 0 where
  pub kind : Text
  pub message : Option Text
  pub fields : List Field

pub record RequiredActionAnswer : Type 0 where
  pub values : List (Text × Text)

pub data Challenge : Type 0 where
  username : Challenge
  password : Challenge
  one_time_code : List OtpDevice → Challenge
  recovery_code : Option ℕ → Challenge
  web_authn : WebAuthnChallenge → Challenge
  choose_method : List AuthMethod → Challenge
  required_action : RequiredAction → Challenge
  info : Text → Challenge

pub data Answer : Type 0 where
  username : Text → Answer
  password : Text → Answer
  one_time_code : Text → Option Text → Answer
  recovery_code : Text → Answer
  web_authn : WebAuthnAssertion → Answer
  choose_method : Text → Answer
  required_action : RequiredActionAnswer → Answer
  acknowledge : Answer

-- How the caller should collect the answer to a challenge.
pub data Input : Type 0 where
  hidden visible no_input form : Input

-- `Challenge::input`
unfoldable pub input : Challenge → Input
input Challenge.password = hidden
input (Challenge.one_time_code _) = hidden
input (Challenge.recovery_code _) = hidden
input Challenge.username = visible
input (Challenge.choose_method _) = visible
input (Challenge.required_action _) = form
input (Challenge.web_authn _) = no_input
input (Challenge.info _) = no_input

-- What a page asks for, judged by its form-field names.
pub data PageKind : Type 0 where
  username_password : Option Text → PageKind
  otp_page : List OtpDevice → PageKind
  unknown : PageKind

pub record Tokens : Type 0 where
  pub access_token : Text
  pub refresh_token : Option Text
  pub id_token : Option Text
  pub verified_subject : Option Text
  pub verified_issuer : Option Text
  pub verified_client_id : Option Text
  pub verified_refresh_token : Option Text

pub data AuthStep : Type 0 where
  challenge : Challenge → AuthStep
  complete : Tokens → AuthStep
  failed : Text → AuthStep
