-- ===== src/Cli.antt =====
-- The command line (crates/himmelcloak-cli/src).
pub mod Outcome
pub mod Terminal
pub mod Login
pub mod Sync
use himmelcloak.Prelude.{
  ℕ, Text, text, text_eq, List, [], ◌∷◌, Option, none, some, Bool, true, false, ◌&&◌, if◌then◌else◌,
}

pub data Command : Type 0 where
  config_check test_login sync_users clear_state : Command

-- The commands of one word.
one_word : Text → Option Command
one_word word =
    if text_eq word (text "test-login")
    then some test_login
    else (if text_eq word (text "sync-users")
        then some sync_users
        else (if text_eq word (text "clear-state") then some clear_state else none))

-- `parse_command`; `none` is the usage message.
unfoldable pub parse_command : List Text → Option Command
unfolding one_word
parse_command (word ∷ []) = one_word word
parse_command (first ∷ second ∷ []) =
    if text_eq first (text "config") && text_eq second (text "check")
    then some config_check
    else none
parse_command _ = none

-- The exit codes of `main`, by what the command it ran came to.
unfoldable pub exit_code : Option Command → (Command → Bool) → ℕ
exit_code none succeeds = 2
exit_code (some clear_state) succeeds = 0
exit_code (some command) succeeds = if succeeds command then 0 else 1
