-- ===== src/Flow/Classify/Kind.antt =====
-- `Scan::kind`: a page is recognised only when every named field of its single form is on that page's
-- allow-list; and the choice of devices, which the themes mark up differently.
pub mod Accepts
use himmelcloak.Prelude.{
  ℕ, zero, suc, ◌+◌, Text, text, text_eq, contains, length, null, any, all, find, filter, map, List,
  [], ◌∷◌, ◌++◌, Option, none, some, Bool, true, false, not, ◌==◌, leb, ◌&&◌, ◌||◌, if◌then◌else◌,
  bind, decimal,
}
use himmelcloak.Flow.Types.{OtpDevice, PageKind, username_password, otp_page, unknown}
use himmelcloak.Flow.Classify.Label.{clean_label}
use himmelcloak.Flow.Classify.Scan.{Scan, Control, Tile, Token, run, device_id_prefix}

unfoldable pub login_fields : List Text
login_fields =
    text "username" ∷ text "password" ∷ text "credentialId" ∷ text "rememberMe" ∷ text "login" ∷ []

unfoldable pub otp_fields : List Text
otp_fields = text "otp" ∷ text "selectedCredentialId" ∷ text "login" ∷ []

-- `has`
unfoldable pub has : Scan → Text → Bool
has s name = any (λ (c : Control). text_eq c.name name) s.controls

-- `only`
unfoldable pub only : Scan → List Text → Bool
only s allowed = all (λ (c : Control). contains allowed c.name) s.controls

unfoldable pub is_device_radio : Control → Bool
is_device_radio c = text_eq c.kind (text "radio") && text_eq c.name (text "selectedCredentialId")

-- `unique`, from the controls that stand before.
unfoldable pub unique_from : List Control → List Control → Bool
unique_from before [] = true
unique_from before (c ∷ cs) =
    (is_device_radio c || not (any (λ (e : Control). text_eq e.name c.name) before))
    && unique_from (before ++ c ∷ []) cs

unfoldable pub unique : Scan → Bool
unique s = unique_from [] s.controls

-- `sort_by_key(|tile| tile.index)`, a stable sort
insert_tile : Tile → List Tile → List Tile
insert_tile t [] = t ∷ []
insert_tile t (u ∷ us) =
    let rest = insert_tile t us in if leb t.index u.index then t ∷ u ∷ us else u ∷ rest

sort_tiles : List Tile → List Tile
unfolding insert_tile
sort_tiles [] = []
sort_tiles (t ∷ ts) = insert_tile t (sort_tiles ts)

-- The sorted indices are 0, 1, 2, …
numbered : ℕ → List Tile → Bool
numbered i [] = true
numbered i (t ∷ ts) = (t.index == i) && numbered (i + 1) ts

-- The text of a tile: its own, or that of the label for the radio.
label_text : List (Text × Text) → Tile → Option Text
unfolding device_id_prefix
label_text labels t =
    if t.is_input
    then (bind
        (find (λ (l : Text × Text). text_eq l.0 (device_id_prefix ++ decimal t.index)) labels)
        λ (l : Text × Text). some l.1)
    else some t.text

to_device : List (Text × Text) → Tile → Option OtpDevice
unfolding label_text
to_device labels t = bind t.credential λ id.
    if null id
    then none
    else (bind (label_text labels t) λ raw.
        let shown = clean_label raw in
        if null shown then none else some (record { id = id; label = shown }))

to_devices : List (Text × Text) → List Tile → Option (List OtpDevice)
unfolding to_device
to_devices labels [] = some []
to_devices labels (t ∷ ts) =
    bind (to_device labels t) λ d. bind (to_devices labels ts) λ ds. some (d ∷ ds)

-- No ID stands twice.
unfoldable pub distinct_from : List Text → List Text → Bool
distinct_from before [] = true
distinct_from before (t ∷ ts) = not (contains before t) && distinct_from (before ++ t ∷ []) ts

texts_eq : List Text → List Text → Bool
texts_eq [] [] = true
texts_eq (a ∷ xs) (b ∷ ys) = text_eq a b && texts_eq xs ys
texts_eq _ _ = false

values_of_kind : Text → List Control → List Text
values_of_kind kind cs =
    map (λ (c : Control). c.value) (filter (λ (c : Control). text_eq c.kind kind) cs)

-- The `match` on radios and hidden fields.
consistent : List Text → List Text → List Text → List Tile → Bool
unfolding texts_eq
consistent (r ∷ rs) [] ids tiles = texts_eq (r ∷ rs) ids && all (λ (t : Tile). t.is_input) tiles
consistent [] (default ∷ []) ids tiles =
    null ids || (contains ids default && all (λ (t : Tile). not t.is_input) tiles)
consistent [] [] ids tiles = null ids
consistent _ _ _ _ = false

-- The part of `devices` after the devices are read off the tiles.
check_devices : Scan → List Tile → List OtpDevice → Option (List OtpDevice)
check_devices s tiles devices =
    let ids = map (λ (d : OtpDevice). d.id) devices in
    let selected =
      filter (λ (c : Control). text_eq c.name (text "selectedCredentialId")) s.controls in
    let radios = values_of_kind (text "radio") selected in
    let hidden = values_of_kind (text "hidden") selected in
    if not (distinct_from [] ids)
    then none
    else (if not (length radios + length hidden == length selected)
        then none
        else (if consistent radios hidden ids tiles then some devices else none))

-- `devices`
unfoldable pub devices : Scan → Option (List OtpDevice)
unfolding sort_tiles numbered to_devices check_devices values_of_kind consistent distinct_from
devices s =
    let tiles = sort_tiles s.tiles in
    if not (numbered 0 tiles)
    then none
    else (bind (to_devices s.labels tiles) λ ds. check_devices s tiles ds)

pub first : List Text → Option Text
first [] = none
first (e ∷ _) = some e

-- `kind`
unfoldable pub kind : Scan → Option PageKind
unfolding first
kind s =
    if s.suspicious || not (s.forms == 1)
    then none
    else (if has s (text "username") && has s (text "password")
        then (if only s login_fields && unique s && null s.tiles
            then some (username_password (first s.errors))
            else none)
        else (if has s (text "otp")
              && not (has s (text "password"))
              && only s otp_fields
              && unique s
            then (bind (devices s) λ ds. some (otp_page ds))
            else none))

-- `classify`, of the tokens of a body that is valid UTF-8.
unfoldable pub classify : List Token → PageKind
unfolding kind
classify tokens = elim (kind (run tokens)) [ none ↦ unknown | some k ↦ k ]

-- `PageKind::rejection`
unfoldable pub rejection : PageKind → Option Text
rejection (username_password error) = error
rejection _ = none
