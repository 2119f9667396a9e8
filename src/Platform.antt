-- ===== src/Platform.antt =====
-- What the library calls and does not implement: the `url` crate, and the machine it runs on (clocks,
-- randomness, the HTTP transport). Both are parameters of the definitions that use them.
use himmelcloak.Prelude.{ℕ, Text, Option, List, Bool, true, ◌≡◌, ◌↔◌}

pub record UrlLib : Type 1 where
  pub Url : Type 0
  pub Origin : Type 0
  pub parse : Text → Option Url
  pub join : Url → Text → Option Url
  pub as_str : Url → Text
  pub scheme : Url → Text
  pub username : Url → Text
  pub password : Url → Option Text
  pub host_str : Url → Option Text
  pub port_or_known_default : Url → Option ℕ
  pub path : Url → Text
  pub query : Url → Option Text
  pub fragment : Url → Option Text
  -- the decoded pairs of the query
  pub query_pairs : Url → List (Text × Text)
  pub origin : Url → Origin
  pub same_origin : Origin → Origin → Bool
  -- `query_pairs_mut` with one `append_pair` for each pair
  pub append_pairs : Url → List (Text × Text) → Url
  -- `path_segments_mut`, `pop_if_empty` and one `push` for each segment
  pub push_segments : Url → List Text → Option Url
  -- `form_urlencoded::Serializer`
  pub form_urlencoded : List (Text × Text) → Text

-- `==` on origins is equality.
pub record OriginLaws (L : UrlLib) : Type 0 where
  pub same_origin_iff : (a b : L.Origin) → (L.same_origin a b ≡ true) ↔ (a ≡ b)
