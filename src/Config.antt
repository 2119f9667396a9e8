-- ===== src/Config.antt =====
-- The runtime settings of a client (src/config.rs).
pub mod Valid
use himmelcloak.Prelude.{
  ℕ, ◌*◌, Text, text, text_eq, null, any, List, [], ◌∷◌, Option, none, some, Bool, not, ◌==◌, ltb,
  ◌&&◌, ◌||◌, is_some, if◌then◌else◌, Error, invalid_configuration, Result, ok, err, and_then,
  ok_or, ensure,
}
use himmelcloak.Platform.{UrlLib}

-- `Config`: the timeout in nanoseconds.
pub record Config (L : UrlLib) : Type 0 where
  pub server_url : L.Url
  pub realm : Text
  pub client_id : Text
  pub redirect_uri : L.Url
  pub ca_bundle : Option Text
  pub timeout : ℕ

has_parts : (L : UrlLib) → L.Url → Bool
has_parts L url =
    is_some (L.query url)
    || is_some (L.fragment url)
    || not (null (L.username url))
    || is_some (L.password url)

module _ {L : UrlLib} where
  bad_names : Config L → Bool
  bad_names c =
      null c.realm
      || any (λ b. b == b'/') c.realm
      || (text_eq c.realm (text ".") || text_eq c.realm (text ".."))
      || null c.client_id

  -- `validate`
  unfoldable pub validate : Config L → Result (Unit {0})
  unfolding has_parts bad_names
  validate c =
      if not (text_eq (L.scheme c.server_url) (text "https"))
      then err (invalid_configuration "Keycloak issuer requires HTTPS")
      else (if has_parts L c.server_url
          then err
              (invalid_configuration "server URL must not have credentials, query, or fragment")
          else (if is_some (L.query c.redirect_uri) || is_some (L.fragment c.redirect_uri)
              then err (invalid_configuration "redirect URI must not have a query or fragment")
              else (if bad_names c
                  then err (invalid_configuration "realm or client ID")
                  else (if ltb c.timeout 1000000
                      then err (invalid_configuration "timeout must be at least one millisecond")
                      else ok tt))))

  -- `Config::new`; `callback` is the parsed constant.
  unfoldable pub new_config : L.Url → Text → Text → Text → Result (Config L)
  new_config callback server_url realm client_id =
      and_then (ok_or (L.parse server_url) (invalid_configuration "server URL")) λ url.
        (let c : Config L = record {
          server_url = url;
          realm = realm;
          client_id = client_id;
          redirect_uri = callback;
          ca_bundle = none;
          timeout = 15 * 1000000000;
        } in
          and_then (validate c) λ _. ok c)

  -- `issuer`
  unfoldable pub issuer : Config L → Result L.Url
  issuer c =
      ok_or (L.push_segments c.server_url (text "realms" ∷ c.realm ∷ []))
        (invalid_configuration "server URL cannot be a base")
