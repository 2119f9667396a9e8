-- ===== src/Admin.antt =====
-- The members of one group, read for the account sync (src/admin.rs).
pub mod Pages
use himmelcloak.Prelude.{
  ℕ, zero, suc, ◌+◌, Text, text, text_eq, contains, chars, trim, is_control, decimal, length, null,
  any, all, map, List, [], ◌∷◌, ◌++◌, Option, none, some, Bool, true, false, not, ◌==◌, ltb, leb,
  ◌&&◌, ◌||◌, if◌then◌else◌, Error, invalid_configuration, protocol, http_status, Result, ok, err,
  and_then, ok_or, ensure, Run, ◌>>=◌, ◌>>◌, pure, lift, raise,
}
use himmelcloak.Platform.{UrlLib}
use himmelcloak.Transport.{Machine, Request, Response, get_request}
use himmelcloak.Config as Settings
use himmelcloak.Config.{Config}
use himmelcloak.Token.Discover.{Codec}
use himmelcloak.Standard.{acquire}
use himmelcloak.Flow.Types.{Tokens}

abbrev pub page_size : ℕ
page_size = 100

abbrev pub max_members : ℕ
max_members = 100000

pub record GroupMember : Type 0 where
  pub id : Text
  pub username : Text
  pub enabled : Bool

bad_group : Text → Bool
bad_group group_id =
    null group_id
    || text_eq group_id (text ".")
    || text_eq group_id (text "..")
    || any (λ c. is_control c || (c == b'/') || (c == 92)) (chars group_id)

-- `validate`
unfoldable pub validate : {L : UrlLib} → Config L → Text → Text → Result (Unit {0})
unfolding bad_group
validate config group_id secret = and_then (Settings.validate config) λ _.
    and_then (ensure (not (bad_group group_id)) (invalid_configuration "allowed group ID"))
      λ _. ensure (not (null secret)) (invalid_configuration "service account secret")

-- `endpoint`
unfoldable pub endpoint : {L : UrlLib} → Config L → List Text → Result L.Url
endpoint {L = L} config segments =
    ok_or (L.push_segments config.server_url segments) (invalid_configuration "server URL")

-- The request for the page that starts after `first` members.
unfoldable pub page_request : {L : UrlLib} → L.Url → Text → ℕ → Request L
page_request {L = L} base access_token first =
    record (get_request (
      L.append_pairs base (
        (text "first", decimal first)
        ∷ (text "max", decimal page_size)
        ∷ (text "briefRepresentation", text "true")
        ∷ []))) {
          headers =
              (text "Authorization: Bearer " ++ access_token)
              ∷ text "Accept: application/json"
              ∷ [];
        }

-- A member that may join the others; `seen` holds the identifiers of the members so far.
unfoldable pub acceptable : List GroupMember → GroupMember → Bool
acceptable members m =
    not (null m.id)
    && not (null (trim (chars m.username)))
    && not (contains (map (λ (n : GroupMember). n.id) members) m.id)

-- The loop over the members of a page.
unfoldable pub add_page : List GroupMember → List GroupMember → Result (List GroupMember)
unfolding acceptable
add_page members [] = ok members
add_page members (m ∷ page) =
    let rest = add_page (members ++ m ∷ []) page in
    if acceptable members m then rest else err (protocol "invalid or repeated group member")

module _ (read_page : Text → Option (List GroupMember)) where
  -- The page of a reply, within the limits. `read_page` is `serde_json::from_slice`.
  unfoldable pub page_of : List GroupMember → Response → Result (List GroupMember)
  page_of members response =
      and_then (ensure (response.status == 200) (http_status response.status)) λ _.
        and_then (ok_or (read_page response.body) (protocol "invalid group member response"))
          λ page.
            and_then
              (ensure
                (leb (length page) page_size && leb (length members + length page) max_members)
                (protocol "group member limit exceeded"))
              λ _. ok page

module _ (read_page : Text → Option (List GroupMember)) {L : UrlLib} (M : Machine L) (base : L.Url)
    (access_token : Text) where
  -- The loop over the pages. Without fuel it would ask on.
  unfoldable pub pages : ℕ → List GroupMember → Run M.World (List GroupMember)
  unfolding page_of add_page
  pages zero members = raise (protocol "group member limit exceeded")
  pages (suc fuel) members =
      M.send (page_request base access_token (length members)) >>= λ response.
      lift (page_of read_page members response) >>= λ page.
      if null page
      then pure members
      else (lift (add_page members page) >>= λ members'. pages fuel members')

module _ (read_page : Text → Option (List GroupMember)) {L : UrlLib} (M : Machine L)
    (K : Codec) where
  -- The token of the service account.
  unfoldable pub service_token : Config L → Text → Run M.World Tokens
  service_token config secret =
      lift (
        endpoint config (
          text "realms"
          ∷ config.realm
          ∷ text "protocol"
          ∷ text "openid-connect"
          ∷ text "token"
          ∷ []))
      >>= λ token_url.
          acquire K M token_url
            ((text "grant_type", text "client_credentials")
              ∷ (text "client_id", config.client_id)
              ∷ (text "client_secret", secret)
              ∷ [])
            false
          >>= λ tokens.
              lift (
                ensure (all (λ b. leb 33 b && leb b 126) tokens.access_token)
                  (protocol "invalid service account token"))
              >>= λ _. pure tokens

  -- The members, with that token: each page but the last brings a member, so that the limit bounds the
  -- rounds.
  unfoldable pub all_pages : Config L → Text → Tokens → Run M.World (List GroupMember)
  all_pages config group_id tokens =
      lift (
        endpoint config (
          text "admin"
          ∷ text "realms"
          ∷ config.realm
          ∷ text "groups"
          ∷ group_id
          ∷ text "members"
          ∷ []))
      >>= λ base. pages read_page M base tokens.access_token (suc max_members) []

  -- `read_with_transport`
  unfoldable pub read_with_transport : Config L → Text → Text → Run M.World (List GroupMember)
  read_with_transport config group_id secret = lift (validate config group_id secret) >>= λ _.
      service_token config secret >>= λ tokens. all_pages config group_id tokens
