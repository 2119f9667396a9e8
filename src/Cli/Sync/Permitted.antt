-- ===== src/Cli/Sync/Permitted.antt =====
-- What stands behind a listing that the sync prints.
use himmelcloak.Prelude.{
  ℕ, zero, suc, ◌+◌, ◌<◌, Text, text, length, null, take, decode, chars, trim, trim_end_matches,
  List, [], ◌∷◌, Option, none, some, Bool, true, false, not, ◌==◌, leb, is_some, ◌&&◌, Result, ok,
  Result-cases, Bool-cases, and_elim, inl, inr, ◌≡◌, ◌⊎◌, refl, sym, ap, ◌∙◌, arith,
}
use mathlib.Core.Path.{subst}
use himmelcloak.Platform.{UrlLib}
use himmelcloak.Config as Settings
use himmelcloak.Config.{Config}
use himmelcloak.Admin.{GroupMember}
use himmelcloak.Cli.Outcome.{done, require, given}
use himmelcloak.Cli.Sync.{
  Metadata, File, Toml, SyncSettings, size_limit, read_bounded, secret_value, acceptable,
  read_owned_file, is_absolute, absolute_if_any, as_outcome, require_root, parse_settings,
  core_config, run, line_end,
}
use himmelcloak.Cli.Sync.Files.{
  proceed-eq_done, require-done, given-done, IsOwned, acceptable-IsOwned,
}

-- A prefix that falls short of its bound is the whole.
take_whole : (n : ℕ) (s : Text) → length (take n s) < n → take n s ≡ s
take_whole zero s h = absurd (omega arith)
take_whole (suc n) [] h = refl
take_whole (suc n) (c ∷ s) h = ap (λ r. c ∷ r) (take_whole n s (omega arith))

-- Nothing of the content is cut off.
read_bounded-whole :
    (content : Option Text) (limit : ℕ) (value : Text)
    → read_bounded content limit ≡ done value
    → content ≡ some value
unfolding read_bounded
read_bounded-whole content limit value h = proceed-eq_done (given content _) _ h λ all a h1.
    proceed-eq_done (require (is_some (decode (take (limit + 1) all))) _) _ h1 λ _ _ h2.
      proceed-eq_done (require (leb (length (take (limit + 1) all)) limit) _) _ h2 λ _ b h3.
        (let fits = require-done _ _ b in
          let same : take (limit + 1) all ≡ value = ground arith in
          given-done content _ all a
          ∙ ap some (sym (take_whole (limit + 1) all (ground arith)) ∙ same))

-- The text of a file that root owns and that is closed to others: all of it, for a secret without the line ends behind it,
-- which leave something.
pub record IsTextOf (secret : Bool) (opened : Option File) (value : Text) : Type 0 where
  pub file : File
  pub meta : Metadata
  pub opens : opened ≡ some file
  pub inspected : file.metadata ≡ some meta
  pub owned : IsOwned secret meta
  pub content : Text
  pub held : file.content ≡ some content
  pub stripped :
      ((secret ≡ false) × (value ≡ content))
      ⊎ ((secret ≡ true) × (value ≡ trim_end_matches line_end content) × (null value ≡ false))

secret_value-stripped :
    (secret : Bool) (content value : Text)
    → secret_value secret content ≡ done value
    → ((secret ≡ false) × (value ≡ content))
      ⊎ ((secret ≡ true) × (value ≡ trim_end_matches line_end content) × (null value ≡ false))
unfolding secret_value
secret_value-stripped false content value h = inl (refl, ground arith)
secret_value-stripped true content value h =
    elim (Bool-cases (null (trim_end_matches line_end content))) [
      | inl e ↦ absurd (ground arith)
      | inr e ↦
          (let same : trim_end_matches line_end content ≡ value = ground arith in
            inr (refl, sym same, ap null (sym same) ∙ e))
    ]

read_owned_file-IsTextOf :
    (opened : Option File) (secret : Bool) {value : Text}
    → read_owned_file opened secret ≡ done value
    → IsTextOf secret opened value
unfolding read_owned_file
read_owned_file-IsTextOf opened secret {value} h = proceed-eq_done (given opened _) _ h λ file a h1.
    proceed-eq_done (given file.metadata _) _ h1 λ meta b h2.
      proceed-eq_done (require (acceptable secret meta) _) _ h2 λ _ c h3.
        proceed-eq_done (read_bounded file.content (size_limit secret)) _ h3 λ content d h4.
          record {
            file = file;
            meta = meta;
            opens = given-done opened _ file a;
            inspected = given-done file.metadata _ meta b;
            owned = acceptable-IsOwned secret meta (require-done _ _ c);
            content = content;
            held = read_bounded-whole file.content (size_limit secret) content d;
            stripped = secret_value-stripped secret content value h4;
          }

abbrev IsRooted : Text → Type 0
IsRooted path = (rest : Text) × (path ≡ b'/' ∷ rest)

is_absolute-IsRooted : (path : Text) → is_absolute path ≡ true → IsRooted path
unfolding is_absolute
is_absolute-IsRooted [] h = absurd cc
is_absolute-IsRooted (c ∷ rest) h = (rest, ground arith)

module _ (L : UrlLib) (callback : L.Url) where
  -- The settings in the `[sync]` table of a text: a group is named, the paths are absolute, and the library accepts the
  -- rest.
  pub record AreSettingsIn (T : Toml) (source : Text) (s : SyncSettings) : Type 0 where
    pub table : T.Table
    pub part : T.Section
    pub read : T.read source ≡ some table
    pub sync : T.section table (text "sync") ≡ some part
    pub fitting : T.sync_settings part ≡ some s
    pub group : null (trim (chars s.allowed_group_id)) ≡ false
    pub secret_path : IsRooted s.client_secret_file
    pub bundle_path : (s.ca_bundle ≡ none) ⊎ ((p : Text) × (s.ca_bundle ≡ some p) × IsRooted p)

  bundle-IsRooted :
      (o : Option Text)
      → absolute_if_any o ≡ true
      → (o ≡ none) ⊎ ((p : Text) × (o ≡ some p) × IsRooted p)
  unfolding absolute_if_any
  bundle-IsRooted none h = inl refl
  bundle-IsRooted (some p) h = inr (p, refl, is_absolute-IsRooted p h)

  parse_settings-AreSettingsIn :
      (T : Toml) (source : Text) {s : SyncSettings}
      → parse_settings L callback T source ≡ done s
      → AreSettingsIn T source s
  unfolding parse_settings
  parse_settings-AreSettingsIn T source {s} h =
      proceed-eq_done (given (T.read source) _) _ h λ table a h1.
        proceed-eq_done (given (T.section table (text "sync")) _) _ h1 λ part b h2.
          proceed-eq_done (given (T.sync_settings part) _) _ h2 λ s' c h3.
            proceed-eq_done
              (require
                (not (null (trim (chars s'.allowed_group_id)))
                  && is_absolute s'.client_secret_file
                  && absolute_if_any s'.ca_bundle)
                _)
              _ h3
              λ _ d h4. proceed-eq_done (core_config L callback s') _ h4 λ _ _ h5.
                (let same : s' ≡ s = done-injective h5 in
                  let (tests, p3) = and_elim _ _ (require-done _ _ d) in
                  let (p1, p2) = and_elim _ _ tests in
                  subst (AreSettingsIn T source) same (record {
                    table = table;
                    part = part;
                    read = given-done _ _ table a;
                    sync = given-done _ _ part b;
                    fitting = given-done _ _ s' c;
                    group = not_true _ p1;
                    secret_path = is_absolute-IsRooted s'.client_secret_file p2;
                    bundle_path = bundle-IsRooted s'.ca_bundle p3;
                  }))
    where
      done-injective : {A : Type 0} {a b : A} → done a ≡ done b → a ≡ b
      done-injective h = cc

      not_true : (b : Bool) → not b ≡ true → b ≡ false
      not_true true h = absurd cc
      not_true false h = refl

  -- The client's settings are those that the library makes of the address, the realm and the identifier, with the
  -- file of certificates.
  abbrev pub IsConfigOf : SyncSettings → Config L → Type 0
  IsConfigOf s config =
      (base : Config L) × (Settings.new_config {L = L} callback s.server_url s.realm s.client_id
        ≡ ok base)
      × (config ≡ record base { ca_bundle = s.ca_bundle })

  core_config-IsConfigOf :
      (s : SyncSettings) {config : Config L}
      → core_config L callback s ≡ done config
      → IsConfigOf s config
  unfolding core_config as_outcome
  core_config-IsConfigOf s {config} h =
      elim (Result-cases (Settings.new_config {L = L} callback s.server_url s.realm s.client_id)) [
        | inr (e, q) ↦ absurd (ground arith)
        | inl (base, q) ↦ (base, q, made base (rw q at h))
      ]
    where
      made :
          (base : Config L)
          → done (record base { ca_bundle = s.ca_bundle }) ≡ done config
          → config ≡ record base { ca_bundle = s.ca_bundle }
      made base h = cc

  -- What stands behind a listing that the sync prints.
  pub record IsPermitted (T : Toml) (file_at : Text → Option File)
      (read_group : Config L → Text → Text → Result (List GroupMember)) (uid : ℕ) (path : Text)
      (members : List GroupMember) : Type 0 where
    pub root : uid ≡ 0
    pub source : Text
    pub source_read : IsTextOf false (file_at path) source
    pub settings : SyncSettings
    pub settings_read : AreSettingsIn T source settings
    pub secret : Text
    pub secret_read : IsTextOf true (file_at settings.client_secret_file) secret
    pub config : Config L
    pub configured : IsConfigOf settings config
    pub listed : read_group config settings.allowed_group_id secret ≡ ok members

  -- The sync prints only the whole listing that the library returned for a group, and only as root: the group, the client
  -- and the path of the secret stand in the settings of a file that root owns, that is regular and within its limit, and
  -- that no other may write; the group is not blank and the paths are absolute; and the secret is all of a file that
  -- only root may read, without the line ends behind it, and not empty.
  pub run-IsPermitted :
      (T : Toml) (file_at : Text → Option File)
      (read_group : Config L → Text → Text → Result (List GroupMember)) (uid : ℕ) (path : Text)
      {members : List GroupMember}
      → run L callback T file_at read_group uid path ≡ done members
      → IsPermitted T file_at read_group uid path members
  unfolding run require_root
  run-IsPermitted T file_at read_group uid path {members} h =
      proceed-eq_done (require (uid == 0) _) _ h λ _ a h1.
        proceed-eq_done (read_owned_file (file_at path) false) _ h1 λ source b h2.
          proceed-eq_done (parse_settings L callback T source) _ h2 λ settings c h3.
            proceed-eq_done (read_owned_file (file_at settings.client_secret_file) true) _ h3
              λ secret d h4. proceed-eq_done (core_config L callback settings) _ h4 λ config e h5.
                elim (Result-cases (read_group config settings.allowed_group_id secret)) [
                  | inr (x, q) ↦ absurd (ground arith)
                  | inl (ms, q) ↦
                      (let same : ms ≡ members = ground arith in
                        record {
                          root = (let r = require-done _ _ a in ground arith);
                          source = source;
                          source_read = read_owned_file-IsTextOf (file_at path) false b;
                          settings = settings;
                          settings_read = parse_settings-AreSettingsIn T source c;
                          secret = secret;
                          secret_read =
                              read_owned_file-IsTextOf (file_at settings.client_secret_file) true d;
                          config = config;
                          configured = core_config-IsConfigOf settings e;
                          listed = q ∙ ap ok same;
                        })
                ]
