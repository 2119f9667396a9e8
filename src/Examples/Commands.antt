-- ===== src/Examples/Commands.antt =====
-- The PAM plans and the command line.
use himmelcloak.Prelude.{
  ℕ, suc, ◌≤◌, Text, text, length, null, List, [], ◌∷◌, none, some, Bool, true, false, is_some,
  Result, ok, ◌≡◌, ◌⊎◌, refl, any, decode, trim, chars, decimal, is_whitespace, text_eq,
  trim_end_matches,
}
use himmelcloak.Flow.Types.{Challenge, Answer, AuthStep, challenge, complete}
use himmelcloak.Config.{Config, new_config, validate}
use himmelcloak.Admin.{GroupMember}
use himmelcloak.Pam.{
  message, ConversationPlan, collect_input, visible_input, hidden_input, planned, plan,
}
use himmelcloak.Pam.Plans.{CollectsFor, plan-Collects}
use himmelcloak.Cli.Outcome.{done}
use himmelcloak.Cli.Login.{Engine, login_loop}
use himmelcloak.Cli.Login.Once.{typed_once, login_loop-once}
use himmelcloak.Cli.Sync.{
  Metadata, File, Toml, SyncSettings, run, parse_settings, core_config, is_absolute,
  read_owned_file, size_limit,
}
use himmelcloak.Cli.Sync.Files.{IsOwned, read_owned_file-IsOwned}
use himmelcloak.Cli.Sync.Permitted.{IsPermitted, run-IsPermitted}
use himmelcloak.Cli.Terminal.{Console, Tty, read_input}
use himmelcloak.Cli.Terminal.Echo.{IsRecoverable, read_input-IsRecoverable}
use himmelcloak.Examples.World.{callback_address, granted}
use himmelcloak.Examples.Clients.{sites}
use himmelcloak.Examples.Tools.{alice}

abbrev two_devices : Challenge
two_devices = Challenge.one_time_code (
    record { id = text "1"; label = text "Phone" }
    ∷ record { id = text "2"; label = text "Key" }
    ∷ [])

abbrev device_plan : ConversationPlan
device_plan = record {
  messages =
      message visible_input (text "Choose an authenticator:\n1. Phone\n2. Key\nSelection: ")
      ∷ message hidden_input (text "One-time code: ")
      ∷ [];
  next_action = collect_input;
}

two_devices-planned : plan two_devices ≡ planned device_plan
unfolding plan any text decimal
two_devices-planned = refl

plan-Collects_example : CollectsFor two_devices device_plan.messages device_plan.next_action
plan-Collects_example = plan-Collects two_devices two_devices-planned

-- A terminal that answers the same line, and a login that asks for the user name, then for the password, and completes.
abbrev engine : Engine
engine = record {
  World = ℕ;
  read_input = λ prompt hidden w. (done (text "typed"), w);
  connect = λ w. (ok tt, w);
  initiate = λ w. (ok (challenge Challenge.username), w);
  advance = λ answer w. (next answer, suc w);
  cancel = λ w. w;
}
  where
    next : Answer → Result AuthStep
    next (Answer.username _) = ok (challenge Challenge.password)
    next _ = ok (complete granted)

login_loop-once_example :
    (typed_once (login_loop engine 5 false (challenge Challenge.username) 0).1 ≡ true)
    × (is_some (login_loop engine 6 true (challenge Challenge.username) 0).0 ≡ true)
login_loop-once_example = login_loop-once engine 5 (challenge Challenge.username) 0

abbrev secret_file : File
secret_file = record {
  metadata = some (record { is_file = true; uid = 0; mode = 33152; size = 3 });
  content = some (text "pw\n");
}

secret_file-read : read_owned_file (some secret_file) true ≡ done (text "pw")
unfolding read_owned_file decode text trim_end_matches
secret_file-read = refl

read_owned_file-IsOwned_example :
    (file : File) × (meta : Metadata) × (some secret_file ≡ some file)
    × (file.metadata ≡ some meta)
    × IsOwned true meta
    × (length (text "pw") ≤ size_limit true)
    × ((true ≡ false) ⊎ (null (text "pw") ≡ false))
read_owned_file-IsOwned_example = read_owned_file-IsOwned (some secret_file) true secret_file-read

abbrev sync_settings : SyncSettings
sync_settings = record {
  server_url = [];
  realm = text "r";
  client_id = text "sync";
  allowed_group_id = text "g";
  client_secret_file = text "/s";
  ca_bundle = none;
}

abbrev one_table : Toml
one_table = record {
  Table = Text;
  read = λ t. some t;
  Section = Text;
  section = λ t _. some t;
  sync_settings = λ _. some sync_settings;
}

abbrev one_group : Config sites → Text → Text → Result (List GroupMember)
one_group config group secret = ok (alice ∷ [])

sync-run :
    run sites (callback_address []) one_table (λ _. some secret_file) one_group 0 (text "/c")
    ≡ done (alice ∷ [])
unfolding run read_owned_file decode text trim_end_matches parse_settings trim chars core_config
    new_config validate text_eq is_absolute any is_whitespace
sync-run = refl

run-IsPermitted_example :
    IsPermitted sites
      (callback_address [])
      one_table
      (λ _. some secret_file)
      one_group
      0
      (text "/c")
      (alice ∷ [])
run-IsPermitted_example =
    run-IsPermitted sites (callback_address []) one_table (λ _. some secret_file) one_group 0
      (text "/c") sync-run

-- A terminal whose echo is a flag, and whose input has ended.
abbrev console : Console
console = record {
  World = ℕ;
  Settings = Bool;
  without_echo = λ _. false;
  tcgetattr = λ w. (true, w);
  tcsetattr = λ _ w. (true, suc w);
  write = λ _ w. (true, w);
  read_line = λ w. (some [], w);
}

abbrev terminal : Tty console
terminal = record { saved = none; current = true; world = 0 }

read_input-IsRecoverable_example :
    IsRecoverable {C = console} true (read_input (text "Password: ") true terminal).1
read_input-IsRecoverable_example = read_input-IsRecoverable (text "Password: ") true terminal refl
