-- ===== src/Flow/Classify/Kind/Accepts.antt =====
-- What a recognised page is.
use himmelcloak.Prelude.{
  Distinct, Text, text, text_eq, text_eq_complete, mem-append_left, mem-append_last, contains,
  contains_sound, contains_complete, null, null_sound, any, all_elim, any_intro, map, List, [], ◌∷◌,
  ◌++◌, Option, some, true, false, ◌≡◌, ◌≢◌, ◌⊎◌, inl, inr, arith, Memᴰ, Bool-cases, Option-cases,
  and_elim, All,
}
use mathlib.Core.Path.{subst}
use himmelcloak.Flow.Types.{OtpDevice, PageKind, username_password, otp_page, unknown}
use himmelcloak.Flow.Classify.Scan.{Scan, Control, Tile}
use himmelcloak.Flow.Classify.Kind.{
  login_fields, otp_fields, has, only, unique, unique_from, is_device_radio, distinct_from, devices,
  check_devices, to_devices, sort_tiles, first, kind,
}

-- Every control of the page is named on the list.
abbrev pub OnlyNamed : List Text → Scan → Type 0
OnlyNamed allowed s = (c : Control) → Memᴰ c s.controls → Memᴰ c.name allowed

-- No name is used twice, but for the radios of the device choice.
abbrev pub NamesOnce : List Control → Type 0
NamesOnce [] = Unit
NamesOnce (c ∷ cs) =
    All (λ (d : Control). (is_device_radio d ≡ true) ⊎ (c.name ≢ d.name)) cs × NamesOnce cs

-- What the page's kind says of the scan.
abbrev pub Known : Scan → PageKind → Type 0
Known s (username_password error) =
    OnlyNamed login_fields s
    × (has s (text "username") ≡ true)
    × (has s (text "password") ≡ true)
    × NamesOnce s.controls
    × (s.tiles ≡ [])
    × (error ≡ first s.errors)
Known s (otp_page ds) =
    OnlyNamed otp_fields s
    × (has s (text "otp") ≡ true)
    × (has s (text "password") ≡ false)
    × NamesOnce s.controls
    × Distinct (map (λ (d : OtpDevice). d.id) ds)
Known s unknown = ⊥

only-OnlyNamed : (s : Scan) (allowed : List Text) → only s allowed ≡ true → OnlyNamed allowed s
unfolding only
only-OnlyNamed s allowed h c m =
    contains_sound allowed c.name (all_elim (λ (d : Control). contains allowed d.name) m h)

-- A list that stands before a list whose names are all new.
module _ (e : Control) where
  new :
      (c : Control) (before : List Control)
      → Memᴰ e before
      → e.name ≡ c.name
      → any (λ (d : Control). text_eq d.name c.name) before ≡ false
      → ⊥
  new c before m q h =
      let found = any_intro (λ (d : Control). text_eq d.name c.name) m (text_eq_complete _ _ q) in
      cc

  unique_from-before :
      (before cs : List Control)
      → Memᴰ e before
      → unique_from before cs ≡ true
      → All (λ (d : Control). (is_device_radio d ≡ true) ⊎ (e.name ≢ d.name)) cs
  unfolding unique_from
  unique_from-before before [] m h = tt
  unique_from-before before (c ∷ cs) m h =
      let (here, rest) = and_elim _ _ h in
      (
        elim (Bool-cases (is_device_radio c)) [
          | inl r ↦ inl r
          | inr r ↦ inr (λ q. new c before m q (ground arith))
        ],
        unique_from-before (before ++ c ∷ []) cs (mem-append_left (c ∷ []) m) rest,
      )

unique_from-NamesOnce : (before cs : List Control) → unique_from before cs ≡ true → NamesOnce cs
unfolding unique_from
unique_from-NamesOnce before [] h = tt
unique_from-NamesOnce before (c ∷ cs) h =
    let rest = (and_elim _ _ h).1 in
    (
      unique_from-before c (before ++ c ∷ []) cs (mem-append_last before c) rest,
      unique_from-NamesOnce _ cs rest,
    )

distinct_from-before :
    (t : Text) (before ts : List Text)
    → Memᴰ t before
    → distinct_from before ts ≡ true
    → All (λ u. t ≢ u) ts
unfolding distinct_from
distinct_from-before t before [] m h = tt
distinct_from-before t before (u ∷ us) m h =
    let (here, rest) = and_elim _ _ h in
    (
      λ q. (let known = contains_complete (rw q at m) in cc),
      distinct_from-before t (before ++ u ∷ []) us (mem-append_left (u ∷ []) m) rest,
    )

distinct_from-Distinct : (before ts : List Text) → distinct_from before ts ≡ true → Distinct ts
unfolding distinct_from
distinct_from-Distinct before [] h = tt
distinct_from-Distinct before (t ∷ ts) h =
    let rest = (and_elim _ _ h).1 in
    (
      distinct_from-before t (before ++ t ∷ []) ts (mem-append_last before t) rest,
      distinct_from-Distinct (before ++ t ∷ []) ts rest,
    )

check_devices-Distinct :
    (s : Scan) (tiles : List Tile) (found ds : List OtpDevice)
    → check_devices s tiles found ≡ some ds
    → Distinct (map (λ (d : OtpDevice). d.id) ds)
unfolding check_devices
check_devices-Distinct s tiles found ds h =
    let ids = map (λ (d : OtpDevice). d.id) found in
    let once : distinct_from [] ids ≡ true = ground arith in
    let same : found ≡ ds = ground arith in
    subst (λ l. Distinct (map (λ (d : OtpDevice). d.id) l)) same
      (distinct_from-Distinct [] ids once)

devices-Distinct :
    (s : Scan) (ds : List OtpDevice)
    → devices s ≡ some ds
    → Distinct (map (λ (d : OtpDevice). d.id) ds)
unfolding devices
devices-Distinct s ds h = elim (Option-cases (to_devices s.labels (sort_tiles s.tiles))) [
  | inl e ↦ absurd (ground arith)
  | inr (found, e) ↦ check_devices-Distinct s (sort_tiles s.tiles) found ds (ground arith)
]

module _ (s : Scan) where
  login_tests :
      (error : Option Text)
      → kind s ≡ some (username_password error)
      → (s.forms ≡ 1)
        × (s.suspicious ≡ false)
        × (only s login_fields ≡ true)
        × (has s (text "username") ≡ true)
        × (has s (text "password") ≡ true)
        × (unique s ≡ true)
        × (null s.tiles ≡ true)
        × (error ≡ first s.errors)
  unfolding kind
  login_tests error h = ground arith

  code_tests :
      (ds : List OtpDevice)
      → kind s ≡ some (otp_page ds)
      → (s.forms ≡ 1)
        × (s.suspicious ≡ false)
        × (only s otp_fields ≡ true)
        × (has s (text "otp") ≡ true)
        × (has s (text "password") ≡ false)
        × (unique s ≡ true)
        × (devices s ≡ some ds)
  unfolding kind
  code_tests ds h = ground arith

  not_unknown : kind s ≡ some unknown → ⊥
  unfolding kind
  not_unknown h = ground arith

  unique-NamesOnce : unique s ≡ true → NamesOnce s.controls
  unfolding unique
  unique-NamesOnce h = unique_from-NamesOnce [] s.controls h

  login-Known :
      (error : Option Text)
      → kind s ≡ some (username_password error)
      → (s.forms ≡ 1) × (s.suspicious ≡ false) × Known s (username_password error)
  login-Known error h =
      let (one, calm, named, user, pass, once, bare, e) = login_tests error h in
      (
        one,
        calm,
        (
          only-OnlyNamed s login_fields named,
          user,
          pass,
          unique-NamesOnce once,
          null_sound s.tiles bare,
          e,
        ),
      )

  code-Known :
      (ds : List OtpDevice)
      → kind s ≡ some (otp_page ds)
      → (s.forms ≡ 1) × (s.suspicious ≡ false) × Known s (otp_page ds)
  code-Known ds h =
      let (one, calm, named, code, pass, once, chosen) = code_tests ds h in
      (
        one,
        calm,
        (
          only-OnlyNamed s otp_fields named,
          code,
          pass,
          unique-NamesOnce once,
          devices-Distinct s ds chosen,
        ),
      )

-- A page that is recognised has one form and nothing suspicious, and is never of kind unknown. A login
-- page has only fields of the login page, both a username and a password field, no field twice and no
-- device tile, and its error is the first message of the page. A code page has only fields of the code
-- page, a code field and no password field, no field twice but the device radios, and devices with
-- distinct IDs.
pub kind-Known :
    (s : Scan) (k : PageKind) → kind s ≡ some k → (s.forms ≡ 1) × (s.suspicious ≡ false) × Known s k
kind-Known s (username_password error) h = login-Known s error h
kind-Known s (otp_page ds) h = code-Known s ds h
kind-Known s unknown h = absurd (not_unknown s h)
