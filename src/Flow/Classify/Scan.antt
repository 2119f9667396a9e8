-- ===== src/Flow/Classify/Scan.antt =====
-- `Scan`: one pass over the tokens of a page. The tokenizer is the html5gum crate's: a page comes as
-- the tokens it makes, with names and attribute values as texts.
pub mod Inert
use himmelcloak.Prelude.{
  ℕ, zero, suc, ◌+◌, ◌-◌, Text, text, text_eq, lower, strip_prefix, parse_unsigned, length, null,
  find, map, List, [], ◌∷◌, ◌++◌, Option, none, some, Bool, true, false, not, ◌==◌, ltb, ◌&&◌, ◌||◌,
  if◌then◌else◌, bind, is_some,
}
use himmelcloak.Transport.{usize_limit}
use himmelcloak.Flow.Classify.Label.{clean_label, toggle_credential}

pub record StartTag : Type 0 where
  pub name : Text
  pub attributes : List (Text × Text)
  pub self_closing : Bool

pub data Token : Type 0 where
  start_tag : StartTag → Token
  end_tag : Text → Token
  string : Text → Token
  other : Token

-- A named form control a browser would submit.
pub record Control : Type 0 where
  pub name : Text
  pub kind : Text
  pub value : Text
  pub checked : Bool

-- An element whose ID is `kc-otp-credential-N`.
pub record Tile : Type 0 where
  pub index : ℕ
  pub credential : Option Text
  pub is_input : Bool
  pub text : Text

pub data Target : Type 0 where
  label : Text → Target
  tile : ℕ → Target
  field_error : Target

-- Text being collected until the element that started it closes.
pub record Capture : Type 0 where
  pub target : Target
  pub tag : Text
  pub depth : ℕ
  pub text : Text

pub record Scan : Type 0 where
  pub forms : ℕ
  pub in_form : Bool
  pub action : Option Text
  pub method : Option Text
  pub controls : List Control
  pub labels : List (Text × Text)
  pub tiles : List Tile
  pub errors : List Text
  pub capture : Option Capture
  pub templates : ℕ
  pub suspicious : Bool

-- `Scan::default`
abbrev pub empty_scan : Scan
empty_scan = record {
  forms = 0;
  in_form = false;
  action = none;
  method = none;
  controls = [];
  labels = [];
  tiles = [];
  errors = [];
  capture = none;
  templates = 0;
  suspicious = false;
}

unfoldable pub device_id_prefix : Text
device_id_prefix = text "kc-otp-credential-"

starts_with : Text → Text → Bool
starts_with p s = is_some (strip_prefix p s)

error_field_id : Option Text → Bool
unfolding starts_with
error_field_id none = false
error_field_id (some rest) = not (null rest) && not (starts_with (text "container-") rest)

-- `is_field_error`
unfoldable pub is_field_error : Text → Bool
unfolding error_field_id
is_field_error id =
    text_eq id (text "input-error") || error_field_id (strip_prefix (text "input-error-") id)

-- `attribute`
unfoldable pub attribute : StartTag → Text → Option Text
attribute tag name =
    bind (find (λ (a : Text × Text). text_eq a.0 name) tag.attributes) λ (a : Text × Text). some a.1

unwrap_or : Option Text → Text → Text
unwrap_or none d = d
unwrap_or (some s) d = s

-- `begin`
begin : Target → Text → Bool → Scan → Scan
begin target tag self_closing s = elim s.capture [
  | some c ↦ s
  | none ↦
      (if self_closing then s else record s {
        capture = some (record { target = target; tag = tag; depth = 1; text = [] });
      })
]

to_control : StartTag → Text → Control
unfolding unwrap_or attribute
to_control tag name = record {
  name = name;
  kind = elim (attribute tag (text "type")) [
    | some kind ↦ map lower kind
    | none ↦ if text_eq tag.name (text "button") then text "submit" else text "text"
  ];
  value = unwrap_or (attribute tag (text "value")) [];
  checked = is_some (attribute tag (text "checked"));
}

add_control : StartTag → Option Text → Scan → Scan
unfolding to_control
add_control tag none s = s
add_control tag (some name) s =
    if null name
    then s
    else (if s.in_form
        then record s { controls = s.controls ++ to_control tag name ∷ [] }
        else record s { suspicious = true })

-- `control`
control : StartTag → Scan → Scan
unfolding add_control attribute
control tag s =
    let elsewhere =
      is_some (attribute tag (text "form")) || is_some (attribute tag (text "formaction")) in
    let s' = if elsewhere then record s { suspicious = true } else s in
    add_control tag (attribute tag (text "name")) s'

is_control_tag : Text → Bool
is_control_tag name =
    text_eq name (text "input")
    || text_eq name (text "select")
    || text_eq name (text "textarea")
    || text_eq name (text "button")

open_form : StartTag → Scan → Scan
unfolding attribute
open_form tag s = if s.in_form then record s { suspicious = true } else record s {
  in_form = true;
  forms = s.forms + 1;
  action = attribute tag (text "action");
  method = attribute tag (text "method");
}

open_label : StartTag → Option Text → Scan → Scan
unfolding begin
open_label tag none s = s
open_label tag (some target) s = begin (label target) tag.name tag.self_closing s

-- The `match name` of `start`.
by_name : StartTag → Scan → Scan
unfolding open_form control open_label is_control_tag attribute
by_name tag s =
    if text_eq tag.name (text "form")
    then open_form tag s
    else (if is_control_tag tag.name
        then control tag s
        else (if text_eq tag.name (text "label")
            then open_label tag (attribute tag (text "for")) s
            else s))

by_error_id : StartTag → Option Text → Scan → Scan
unfolding begin is_field_error
by_error_id tag none s = s
by_error_id tag (some id) s =
    if is_field_error id then begin field_error tag.name tag.self_closing s else s

-- The credential of a tile: the radio's value, or the argument of the tile's script.
tile_credential : StartTag → ℕ → Bool → Option Text
unfolding attribute toggle_credential
tile_credential tag index true = attribute tag (text "value")
tile_credential tag index false =
    bind (attribute tag (text "onclick")) λ onclick. toggle_credential onclick index

add_tile : StartTag → ℕ → Scan → Scan
unfolding tile_credential begin
add_tile tag index s =
    let is_input = text_eq tag.name (text "input") in
    let s' = record s {
      tiles =
          s.tiles
          ++ record {
            index = index;
            credential = tile_credential tag index is_input;
            is_input = is_input;
            text = [];
          }
            ∷ [];
    } in
    if is_input then s' else begin (tile (length s.tiles)) tag.name tag.self_closing s'

device_index : Option Text → Option ℕ
unfolding device_id_prefix
device_index id =
    bind id λ i. bind (strip_prefix device_id_prefix i) λ rest. parse_unsigned usize_limit rest

by_device_id : StartTag → Option ℕ → Scan → Scan
unfolding add_tile
by_device_id tag none s = s
by_device_id tag (some index) s = add_tile tag index s

deepen : StartTag → Option Capture → Option Capture
deepen tag none = none
deepen tag (some c) =
    if text_eq c.tag tag.name && not tag.self_closing
    then some (record c { depth = c.depth + 1 })
    else some c

-- A start tag outside every template.
start_live : StartTag → Scan → Scan
unfolding deepen by_name by_error_id by_device_id device_index attribute
start_live tag s =
    let s1 = record s { capture = deepen tag s.capture } in
    let s2 = by_name tag s1 in
    let s3 = by_error_id tag (attribute tag (text "id")) s2 in
    by_device_id tag (device_index (attribute tag (text "id"))) s3

-- `start`
unfoldable pub start : StartTag → Scan → Scan
unfolding start_live
start tag s =
    let opens = text_eq tag.name (text "template") && not tag.self_closing in
    let s' = if opens then record s { templates = s.templates + 1 } else s in
    if ltb 0 s'.templates then s' else start_live tag s'

-- A write at an index; `Target::Tile` holds the index of a tile that was pushed.
set_text : List Tile → ℕ → Text → List Tile
set_text [] i t = []
set_text (x ∷ xs) zero t = record x { text = t } ∷ xs
set_text (x ∷ xs) (suc i) t = x ∷ set_text xs i t

-- What a closed capture leaves behind.
deliver : Capture → Scan → Scan
unfolding set_text clean_label
deliver c s = elim c.target [
  | label target ↦ record s { labels = s.labels ++ (target, c.text) ∷ [] }
  | tile index ↦ record s { tiles = set_text s.tiles index c.text }
  | field_error ↦
      (let message = clean_label c.text in
        if null message then s else record s { errors = s.errors ++ message ∷ [] })
]

close_capture : Text → Option Capture → Scan → Scan
unfolding deliver
close_capture name none s = s
close_capture name (some c) s =
    if text_eq c.tag name
    then (if ltb 1 c.depth
        then record s { capture = some (record c { depth = c.depth - 1 }) }
        else deliver c (record s { capture = none }))
    else s

-- `end`
unfoldable pub end : Text → Scan → Scan
unfolding close_capture
end name s =
    if ltb 0 s.templates
    then (if text_eq name (text "template") then record s { templates = s.templates - 1 } else s)
    else (let s' = if text_eq name (text "form") then record s { in_form = false } else s in
        close_capture name s'.capture s')

add_text : Text → Option Capture → Scan → Scan
add_text t none s = s
add_text t (some c) s = record s { capture = some (record c { text = c.text ++ t }) }

-- The `match token` of `run`.
unfoldable pub step : Token → Scan → Scan
unfolding start end add_text
step (start_tag tag) s = start tag s
step (end_tag name) s = end name s
step (string t) s = if s.templates == 0 then add_text t s.capture s else s
step other s = s

unfoldable pub run_from : Scan → List Token → Scan
unfolding step
run_from s [] = s
run_from s (t ∷ ts) = run_from (step t s) ts

-- `run`
unfoldable pub run : List Token → Scan
unfolding run_from
run = run_from empty_scan
