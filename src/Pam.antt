-- ===== src/Pam.antt =====
-- The PAM module (crates/pam_himmelcloak/src): the plan of a conversation for each challenge, the
-- configuration file, and the entry points, which deny until the login is wired in.
pub mod Plans
use himmelcloak.Prelude.{
  ℕ, suc, ◌+◌, ◌*◌, Text, text, decimal, length, null, any, List, [], ◌∷◌, ◌++◌, Option, none, some,
  Bool, true, false, ◌==◌, ltb, if◌then◌else◌,
}
use himmelcloak.Flow.Types.{Challenge, OtpDevice, AuthMethod, Field, RequiredAction}

pub data MessageStyle : Type 0 where
  hidden_input visible_input error information : MessageStyle

-- `as_raw`
unfoldable pub as_raw : MessageStyle → ℕ
as_raw hidden_input = 1
as_raw visible_input = 2
as_raw error = 3
as_raw information = 4

pub record Message : Type 0 where
  pub style : MessageStyle
  pub text : Text

pub data NextAction : Type 0 where
  collect_input acknowledge web_authn_adapter display_only : NextAction

pub record ConversationPlan : Type 0 where
  pub messages : List Message
  pub next_action : NextAction

pub data TranslationError : Type 0 where
  unsupported_challenge empty_method_selection interior_nul : TranslationError

pub data Planned : Type 0 where
  planned : ConversationPlan → Planned
  refused : TranslationError → Planned

unfoldable pub message : MessageStyle → Text → Message
message style t = record { style = style; text = t }

unfoldable pub has_nul : Message → Bool
has_nul m = any (λ b. b == 0) m.text

-- `checked`
unfoldable pub checked : List Message → NextAction → Planned
unfolding has_nul
checked messages next_action =
    if any has_nul messages
    then refused interior_nul
    else planned (record { messages = messages; next_action = next_action })

-- The numbered lines of a selection, from an index.
unfoldable pub numbered : ℕ → List Text → Text
numbered index [] = []
numbered index (label ∷ more) =
    decimal index ++ text ". " ++ label ++ 10 ∷ numbered (suc index) more

-- The selection among several one-time code devices.
unfoldable pub device_selection : List OtpDevice → List Message
unfolding message numbered
device_selection devices =
    if ltb 1 (length devices)
    then message visible_input
        (text "Choose an authenticator:\n" ++ numbered 1 (map_labels devices) ++ text "Selection: ")
      ∷ []
    else []
  where
    map_labels : List OtpDevice → List Text
    map_labels [] = []
    map_labels (d ∷ ds) = d.label ∷ map_labels ds

unfoldable pub method_labels : List AuthMethod → List Text
method_labels [] = []
method_labels (m ∷ ms) = m.label ∷ method_labels ms

recovery_prompt : Option ℕ → Text
recovery_prompt none = text "Recovery code: "
recovery_prompt (some index) = text "Recovery code " ++ decimal index ++ text ": "

-- The prompt of a field, hidden when it is secret.
unfoldable pub field_message : Field → Message
unfolding message
field_message f = message (if f.secret then hidden_input else visible_input) (f.label ++ text ": ")

unfoldable pub field_messages : List Field → List Message
unfolding field_message
field_messages [] = []
field_messages (f ∷ fs) = field_message f ∷ field_messages fs

action_message : Option Text → List Message
action_message none = []
action_message (some t) = message information t ∷ []

-- `plan`
unfoldable pub plan : Challenge → Planned
unfolding checked message device_selection numbered method_labels recovery_prompt field_messages
    action_message
plan Challenge.username = checked (message visible_input (text "Username: ") ∷ []) collect_input
plan Challenge.password = checked (message hidden_input (text "Password: ") ∷ []) collect_input
plan (Challenge.one_time_code devices) =
    checked (device_selection devices ++ message hidden_input (text "One-time code: ") ∷ [])
      collect_input
plan (Challenge.recovery_code index_hint) =
    checked (message hidden_input (recovery_prompt index_hint) ∷ []) collect_input
plan (Challenge.choose_method methods) =
    if null methods
    then refused empty_method_selection
    else checked
        (message visible_input (
            text "Choose a sign-in method:\n"
            ++ numbered 1 (method_labels methods)
            ++ text "Selection: ")
          ∷ [])
        collect_input
plan (Challenge.required_action action) =
    checked (action_message action.message ++ field_messages action.fields)
      (if null action.fields then acknowledge else collect_input)
plan (Challenge.info t) = checked (message information t ∷ []) acknowledge
plan (Challenge.web_authn _) =
    checked
      (message information (text "Follow the instructions for your security key or authenticator.")
        ∷ [])
      web_authn_adapter

-- `failure_plan`
unfoldable pub failure_plan : Text → Planned
unfolding checked message
failure_plan reason = checked (message error reason ∷ []) display_only

abbrev pub max_config_bytes : ℕ
max_config_bytes = 64 * 1024

pub data Loaded (T : Type 0) : Type 0 where
  document : T → Loaded T
  read_error too_large malformed : Loaded T

module _ {T : Type 0} (toml : Text → Option T) where
  from_toml : Option T → Loaded T
  from_toml none = malformed
  from_toml (some t) = document t

  -- `parse`
  unfoldable pub parse : Text → Loaded T
  unfolding from_toml
  parse input = if ltb max_config_bytes (length input) then too_large else from_toml (toml input)

  -- `load`, of what an open file yields up to a number of bytes; `none` where it cannot be opened or read
  unfoldable pub load : (ℕ → Option Text) → Loaded T
  unfolding parse
  load read = elim (read (max_config_bytes + 1)) [ none ↦ read_error | some input ↦ parse input ]

-- The codes that the entry points return: `pam_sm_authenticate`, `pam_sm_acct_mgmt`, `pam_sm_setcred`
-- and `conversation_stub`.
pub data EntryPoint : Type 0 where
  authenticate acct_mgmt setcred conversation : EntryPoint

unfoldable pub entry_code : EntryPoint → ℕ
entry_code authenticate = 7
entry_code acct_mgmt = 6
entry_code setcred = 17
entry_code conversation = 19
