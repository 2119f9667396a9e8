-- ===== src/Flow/Callback.antt =====
-- Keycloak's final redirect to the registered callback: `callback` of src/flow/driver.rs.
pub mod State
use himmelcloak.Prelude.{
  ℕ, Text, text, text_eq, null, List, [], ◌∷◌, Option, none, some, Bool, true, false, not, ◌==◌,
  is_some, ◌&&◌, ◌||◌, if◌then◌else◌, Error, protocol, authentication_rejected, Result, ok, err,
  and_then,
}
use himmelcloak.Platform.{UrlLib}
use himmelcloak.Flow.State.{AuthFlow, ensure_active}
use himmelcloak.Flow.Fetch.{Redirect}

same_text : Option Text → Option Text → Bool
same_text none none = true
same_text (some a) (some b) = text_eq a b
same_text _ _ = false

same_port : Option ℕ → Option ℕ → Bool
same_port none none = true
same_port (some a) (some b) = a == b
same_port _ _ = false

-- `same_endpoint`: the query is not compared.
unfoldable pub same_endpoint : (L : UrlLib) → L.Url → L.Url → Bool
unfolding same_text same_port
same_endpoint L location expected =
    text_eq (L.scheme location) (L.scheme expected)
    && text_eq (L.username location) (L.username expected)
    && same_text (L.password location) (L.password expected)
    && same_text (L.host_str location) (L.host_str expected)
    && same_port (L.port_or_known_default location) (L.port_or_known_default expected)
    && text_eq (L.path location) (L.path expected)

-- The parameters of the callback that were seen.
pub record Slots : Type 0 where
  pub code : Option Text
  pub state : Option Text
  pub error : Option Text

abbrev pub no_slots : Slots
no_slots = record { code = none; state = none; error = none }

abbrev repeated : Result Slots
repeated = err (protocol "repeated callback parameter")

-- One turn of the loop: a parameter fills its slot, and a second value is refused.
unfoldable pub take_pair : Text × Text → Slots → Result Slots
take_pair (name, value) s =
    if text_eq name (text "code")
    then (if is_some s.code then repeated else ok (record s { code = some value }))
    else (if text_eq name (text "state")
        then (if is_some s.state then repeated else ok (record s { state = some value }))
        else (if text_eq name (text "error")
            then (if is_some s.error then repeated else ok (record s { error = some value }))
            else ok s))

unfoldable pub take_pairs : List (Text × Text) → Slots → Result Slots
take_pairs [] s = ok s
take_pairs (p ∷ ps) s = elim (take_pair p s) [ err e ↦ err e | ok s' ↦ take_pairs ps s' ]

state_matches : Text → Option Text → Bool
state_matches own none = false
state_matches own (some state) = not (null own) && text_eq state own

error_of : Text → Error
error_of e =
    if text_eq e (text "access_denied")
    then authentication_rejected
    else protocol "authorization error on callback"

-- What follows the loop.
judge_code : Option Text → Result (Option Text)
judge_code none = err (protocol "callback without code")
judge_code (some code) =
    if null code then err (protocol "callback without code") else ok (some code)

unfoldable pub judge : Text → Slots → Result (Option Text)
unfolding state_matches error_of judge_code
judge own s =
    if not (state_matches own s.state)
    then err (protocol "callback state mismatch")
    else elim s.error [ some e ↦ err (error_of e) | none ↦ judge_code s.code ]

module _ {L : UrlLib} where
  -- `callback`: no code means that the redirect goes elsewhere.
  unfoldable pub callback : ℕ → Redirect L → L.Url → AuthFlow L → Result (Option Text) × AuthFlow L
  callback now redirect redirect_uri f =
      if not (same_endpoint L redirect.location redirect_uri)
      then (ok none, f)
      else (let (gate, f') = ensure_active now f in
          (
            and_then gate λ _.
                and_then (take_pairs (L.query_pairs redirect.location) no_slots)
                  λ s. judge f'.oauth_state s,
            f',
          ))
