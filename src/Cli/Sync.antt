-- ===== src/Cli/Sync.antt =====
-- The account sync (crates/himmelcloak-cli/src/sync_users.rs): the rights on its files, and what it
-- prints. A path is a text, and a file is what opening and reading it gives.
pub mod Files
pub mod Permitted
use himmelcloak.Prelude.{
  ℕ, ◌+◌, ◌/◌, ◌%◌, Text, text, length, null, chars, decode, trim, trim_end_matches, take, List, [],
  ◌∷◌, Option, none, some, Bool, true, false, not, ◌==◌, ltb, leb, ◌&&◌, ◌||◌, is_some,
  if◌then◌else◌, Result, ok, err,
}
use himmelcloak.Platform.{UrlLib}
use himmelcloak.Config as Settings
use himmelcloak.Config.{Config}
use himmelcloak.Admin.{GroupMember}
use himmelcloak.Cli.Outcome.{Outcome, done, failed, proceed, require, given}

-- What `metadata` says of an opened file.
pub record Metadata : Type 0 where
  pub is_file : Bool
  pub uid : ℕ
  pub mode : ℕ
  pub size : ℕ

-- An opened file; `none` where an operation on it fails.
pub record File : Type 0 where
  pub metadata : Option Metadata
  pub content : Option Text

-- The permission bits, `mode & 0o777`.
unfoldable pub permissions : ℕ → ℕ
permissions mode = mode % 512

-- `mode & 0o022 != 0`: the write bit of the group or of the others
unfoldable pub writable_by_others : ℕ → Bool
writable_by_others mode = (mode / 2 % 2 == 1) || (mode / 16 % 2 == 1)

-- `0o600 | 0o400`
unfoldable pub private : ℕ → Bool
private mode = (mode == 384) || (mode == 256)

unfoldable pub bad_permissions : Bool → ℕ → Bool
unfolding private writable_by_others
bad_permissions true mode = not (private mode)
bad_permissions false mode = writable_by_others mode

abbrev pub size_limit : Bool → ℕ
size_limit true = 16384
size_limit false = 65536

-- `read_bounded`: at most one byte over the limit is read.
unfoldable pub read_bounded : Option Text → ℕ → Outcome Text
read_bounded content limit = proceed (given content (text "cannot read sync file")) λ all.
    (let value = take (limit + 1) all in
      proceed (require (is_some (decode value)) (text "cannot read sync file")) λ _.
        proceed (require (leb (length value) limit) (text "sync file is too large"))
          λ _. done value)

unfoldable pub line_end : ℕ → Bool
line_end c = (c == 13) || (c == 10)

-- A secret without its line ends, which must leave something.
unfoldable pub secret_value : Bool → Text → Outcome Text
unfolding line_end
secret_value false value = done value
secret_value true value =
    let trimmed = trim_end_matches line_end value in
    if null trimmed then failed (text "service-account secret is empty") else done trimmed

-- The checks on the opened descriptor.
unfoldable pub acceptable : Bool → Metadata → Bool
unfolding permissions bad_permissions
acceptable secret meta =
    meta.is_file
    && (meta.uid == 0)
    && not (bad_permissions secret (permissions meta.mode))
    && leb meta.size (size_limit secret)

-- `read_owned_file`; `none` where the path cannot be opened, as for a symbolic link.
unfoldable pub read_owned_file : Option File → Bool → Outcome Text
unfolding acceptable read_bounded secret_value
read_owned_file opened secret =
    proceed (given opened (text "cannot open sync configuration or secret file")) λ file.
      proceed (given file.metadata (text "cannot inspect sync file")) λ meta.
        proceed
          (require (acceptable secret meta) (
            text
              "sync files must be root-owned regular files; config must not be group/other writable, secret must be 0600/0400, and file size limits apply"))
          λ _.
            proceed (read_bounded file.content (size_limit secret))
              λ value. secret_value secret value

-- `require_root`
unfoldable pub require_root : ℕ → Outcome (Unit {0})
require_root effective_uid = require (effective_uid == 0) (text "sync-users must run as root")

pub record SyncSettings : Type 0 where
  pub server_url : Text
  pub realm : Text
  pub client_id : Text
  pub allowed_group_id : Text
  pub client_secret_file : Text
  pub ca_bundle : Option Text

-- What the toml crate makes of the file: its `[sync]` table, if any, and the settings in it, if they fit.
pub record Toml : Type 1 where
  pub Table : Type 0
  pub read : Text → Option Table
  pub Section : Type 0
  pub section : Table → Text → Option Section
  pub sync_settings : Section → Option SyncSettings

-- `Path::is_absolute`
unfoldable pub is_absolute : Text → Bool
is_absolute [] = false
is_absolute (c ∷ _) = c == b'/'

absolute_if_any : Option Text → Bool
unfolding is_absolute
absolute_if_any none = true
absolute_if_any (some p) = is_absolute p

module _ (L : UrlLib) (callback : L.Url) where
  as_outcome : Result (Config L) → Option Text → Outcome (Config L)
  as_outcome (ok c) bundle = done (record c { ca_bundle = bundle })
  as_outcome (err e) bundle = failed (text "invalid configuration")

  -- `core_config`; the library's error is one message here.
  unfoldable pub core_config : SyncSettings → Outcome (Config L)
  unfolding as_outcome
  core_config s =
      as_outcome (Settings.new_config callback s.server_url s.realm s.client_id) s.ca_bundle

  -- `parse_settings`
  unfoldable pub parse_settings : Toml → Text → Outcome SyncSettings
  unfolding core_config absolute_if_any
  parse_settings T source =
      proceed (given (T.read source) (text "malformed sync configuration")) λ table.
        proceed (given (T.section table (text "sync")) (text "missing [sync] settings")) λ part.
          proceed (given (T.sync_settings part) (text "invalid [sync] settings")) λ s.
            proceed
              (require
                (not (null (trim (chars s.allowed_group_id)))
                  && is_absolute s.client_secret_file
                  && absolute_if_any s.ca_bundle)
                (text "sync group ID and absolute file paths are required"))
              λ _. proceed (core_config s) λ _. done s

  -- `run`, up to what it prints: the file system is a function of the path, and `read_group` is
  -- `read_allowed_group` of the configuration, the group and the secret, run to its end.
  unfoldable pub run :
      Toml
      → (Text → Option File)
      → (Config L → Text → Text → Result (List GroupMember))
      → ℕ
      → Text
      → Outcome (List GroupMember)
  unfolding require_root read_owned_file parse_settings
  run T file_at read_group effective_uid path = proceed (require_root effective_uid) λ _.
      proceed (read_owned_file (file_at path) false) λ source.
        proceed (parse_settings T source) λ s.
          proceed (read_owned_file (file_at s.client_secret_file) true) λ secret.
            proceed (core_config s) λ config. elim (read_group config s.allowed_group_id secret) [
              | ok members ↦ done members
              | err e ↦ failed (text "cannot read the group")
            ]
