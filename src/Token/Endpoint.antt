-- ===== src/Token/Endpoint.antt =====
-- The endpoints that a discovery document may name: `endpoint` and the realm tests of src/token.rs.
pub mod Realm
use himmelcloak.Prelude.{
  ℕ, Text, text, text_eq, split, null, any, all, filter, List, [], ◌∷◌, Option, none, some, Bool,
  true, false, not, ◌==◌, ◌&&◌, ◌||◌, is_some, if◌then◌else◌, Error, protocol, Result, ok, err,
  and_then, ok_or,
}
use himmelcloak.Platform.{UrlLib}

-- The segments of a path that are not empty.
unfoldable pub segments : Text → List Text
segments path = filter (λ s. not (null s)) (split b'/' path)

-- The last two segments.
unfoldable pub last_two : Option Text → Option Text → List Text → Option Text × Option Text
last_two previous last [] = (previous, last)
last_two previous last (s ∷ more) = last_two last (some s) more

realm_of : Option Text × Option Text → Option Text
realm_of (some before, last) = if text_eq before (text "realms") then last else none
realm_of (none, last) = none

-- `issuer_realm`
unfoldable pub issuer_realm : Text → Option Text
unfolding realm_of
issuer_realm path = realm_of (last_two none none (segments path))

pair_matches : Text → Text → List Text → Option (List Text)
pair_matches realm first [] = none
pair_matches realm first (second ∷ more) =
    if text_eq first (text "realms") && text_eq second realm then some more else none

-- What follows the last `realms` and realm: `rposition` on the windows of two.
unfoldable pub after_last : Text → List Text → Option (List Text)
unfolding pair_matches
after_last realm [] = none
after_last realm (first ∷ more) = elim (after_last realm more) [
  | some rest ↦ some rest
  | none ↦ pair_matches realm first more
]

-- A segment that could start another realm.
unfoldable pub is_plain : Text → Bool
is_plain segment = not (text_eq segment (text "realms")) && not (any (λ b. b == b'%') segment)

-- `endpoint_in_realm`
unfoldable pub endpoint_in_realm : Text → Text → Bool
endpoint_in_realm path realm = elim (after_last realm (segments path)) [
  | none ↦ false
  | some rest ↦ all is_plain rest
]

-- The realm of the issuer, if it names one, is not the endpoint's.
outside : Option Text → Text → Bool
outside none path = false
outside (some realm) path = not (endpoint_in_realm path realm)

module _ (L : UrlLib) where
  -- `endpoint`, once the address is parsed
  unfoldable pub check_endpoint : L.Url → L.Url → Result (Unit {0})
  unfolding outside
  check_endpoint issuer url =
      if not (text_eq (L.scheme url) (text "https"))
        || not (L.same_origin (L.origin url) (L.origin issuer))
      then err (protocol "OIDC endpoint origin mismatch")
      else (if not (null (L.username url)) || is_some (L.password url)
          then err (protocol "OIDC endpoint contains credentials")
          else (if is_some (L.fragment url)
              then err (protocol "OIDC endpoint contains fragment")
              else (if outside (issuer_realm (L.path issuer)) (L.path url)
                  then err (protocol "OIDC endpoint outside issuer realm")
                  else ok tt)))

  -- `endpoint`
  unfoldable pub endpoint : Text → L.Url → Result L.Url
  endpoint raw issuer =
      and_then (ok_or (L.parse raw) (protocol "invalid OIDC endpoint"))
        λ url. and_then (check_endpoint issuer url) λ _. ok url
