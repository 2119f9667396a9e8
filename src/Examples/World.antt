-- ===== src/Examples/World.antt =====
-- A small URL library, and a machine whose network replies from a list.
use himmelcloak.Prelude.{
  ℕ, ◌+◌, Text, text, text_eq, text_eq_iff, List, [], ◌∷◌, none, some, Result, ok, err,
  transport_error,
}
use himmelcloak.Platform.{UrlLib, OriginLaws}
use himmelcloak.Transport.{Machine, Request, Response}
use himmelcloak.Flow.Types.{Tokens}
use himmelcloak.Flow.Session.{App}

pub record Address : Type 0 where
  pub scheme : Text
  pub host : Text
  pub path : Text
  pub pairs : List (Text × Text)

-- Addresses without ports; an address is its own joined one, and an origin is a host.
abbrev pub addresses : UrlLib
addresses = record {
  Url = Address;
  Origin = Text;
  parse = λ _. none;
  join = λ base path. some (record base { path = path });
  as_str = λ u. u.path;
  scheme = λ u. u.scheme;
  username = λ _. [];
  password = λ _. none;
  host_str = λ u. some u.host;
  port_or_known_default = λ _. none;
  path = λ u. u.path;
  query = λ _. none;
  fragment = λ _. none;
  query_pairs = λ u. u.pairs;
  origin = λ u. u.host;
  same_origin = text_eq;
  append_pairs = λ u pairs. record u { pairs = pairs };
  push_segments = λ u _. some u;
  form_urlencoded = λ _. [];
}

abbrev pub addresses_laws : OriginLaws addresses
addresses_laws = record { same_origin_iff = text_eq_iff }

-- The clock, the requests sent so far, and the replies to come.
pub record Wire : Type 0 where
  pub clock : ℕ
  pub sent : ℕ
  pub replies : List Response

abbrev pub first_reply : List Response → Result Response
first_reply [] = err (transport_error "no reply")
first_reply (r ∷ rs) = ok r

abbrev pub later_replies : List Response → List Response
later_replies [] = []
later_replies (r ∷ rs) = rs

abbrev reply : Request addresses → Wire → Result Response × Wire
reply _ w = (
  first_reply w.replies,
  record { clock = w.clock; sent = w.sent + 1; replies = later_replies w.replies },
)

abbrev pub wired : Machine addresses
wired = record {
  World = Wire;
  instant = λ w. (w.clock, record w { clock = w.clock + 1 });
  system_time = λ w. (some w.clock, w);
  send = reply;
  random_base64 = λ _ w. (ok (text "random"), w);
}

abbrev pub quiet : Wire
quiet = record { clock = 0; sent = 0; replies = [] }

abbrev pub at_host : Text → Text → Address
at_host host path = record { scheme = text "https"; host = host; path = path; pairs = [] }

abbrev pub callback_address : List (Text × Text) → Address
callback_address pairs = record {
  scheme = text "http";
  host = text "127.0.0.1";
  path = text "/callback";
  pairs = pairs;
}

abbrev pub granted : Tokens
granted = record {
  access_token = text "token";
  refresh_token = none;
  id_token = none;
  verified_subject = none;
  verified_issuer = none;
  verified_client_id = none;
  verified_refresh_token = none;
}

-- A client whose redemption is one request.
abbrev pub client : App wired
client = record {
  Keys = Unit {0};
  redirect_uri = callback_address [];
  login_client = text "client";
  authorize = λ _ _ _ _. ok (at_host (text "login.test") (text "/auth"));
  redeem_code = λ _ _ _ s. (ok granted, (s.0, record s.1 { sent = s.1.sent + 1 }));
}
