-- ===== src/Client/Flows.antt =====
-- The login of a client from its start: `initiate_auth_flow`, `initiate_with` and `continue_auth_flow`
-- (src/client.rs), on the driver with its built-in factors.
use himmelcloak.Prelude.{
  ℕ, Text, List, true, ensure, tls_backend, WhenOk-resume, WhenOk-intro, arith, Result, ok, err,
  Run, lift, ◌>>=◌, WhenOk, ◌*◌, ◌≡◌,
}
use himmelcloak.Config.{Config, new_config}
use himmelcloak.Transport.Curl.{new_transport, active_wolfssl}
use himmelcloak.Platform.{UrlLib}
use himmelcloak.Transport.{Machine}
use himmelcloak.Token.Value.{Value}
use himmelcloak.Token.Discover.{Codec}
use himmelcloak.Flow.Types.{Answer, AuthStep}
use himmelcloak.Flow.Classify.Scan.{Token}
use himmelcloak.Flow.Factor.{Factors, builtin}
use himmelcloak.Flow.State.{AuthFlow, new}
use himmelcloak.Flow.Session.{Start, Session}
use himmelcloak.Flow.Driver.{begin, advance}
use himmelcloak.Flow.Driver.Settled.{Settled, begin-Settled}
use himmelcloak.Client.{Client, application, with_transport}

-- `DEFAULT_LOGIN_TIMEOUT`, in nanoseconds
abbrev pub default_login_timeout : ℕ
default_login_timeout = 30 * 60 * 1000000000

module _ {L : UrlLib} (M : Machine L) (K : Codec) (app : Client L)
    (tokenize : Text → List Token) where
  -- The flow is handed to the caller with its first step; on an error it is dropped.
  unfoldable pub handed :
      Result AuthStep × Session (application M K app)
      → Result (AuthFlow L × AuthStep) × (Value × M.World)
  unfolding application
  handed (ok step, s) = (ok (s.flow, step), (s.keys, s.world))
  handed (err e, s) = (err e, (s.keys, s.world))

  unfoldable pub started :
      Factors
      → Start
      → Value
      → Result (AuthFlow L) × M.World
      → Result (AuthFlow L × AuthStep) × (Value × M.World)
  unfolding handed application
  started factors start keys (err e, w) = (err e, (keys, w))
  started factors start keys (ok flow, w) = handed (
      begin (application M K app) tokenize factors start
        (record { flow = flow; keys = keys; world = w }))

  -- `initiate_with`
  unfoldable pub initiate_with : Factors → Start → Run (Value × M.World) (AuthFlow L × AuthStep)
  unfolding started
  initiate_with factors start (keys, w) = started factors start keys (new M default_login_timeout w)

  -- `initiate_auth_flow`
  unfoldable pub initiate_auth_flow : Start → Run (Value × M.World) (AuthFlow L × AuthStep)
  unfolding initiate_with
  initiate_auth_flow = initiate_with builtin

  -- `continue_auth_flow`
  unfoldable pub continue_auth_flow : Answer → Run (Session (application M K app)) AuthStep
  continue_auth_flow = advance (application M K app) tokenize builtin

  -- A flow and its first step, as the driver leaves them.
  pub Handed : AuthFlow L × AuthStep → Value × M.World → Type 0
  unfolding application
  Handed (flow, step) (keys, w) =
      Settled (application M K app) (ok step, record { flow = flow; keys = keys; world = w })

  handed-Handed :
      (r : Result AuthStep × Session (application M K app))
      → Settled (application M K app) r
      → WhenOk Handed (handed r)
  unfolding handed application Handed
  handed-Handed (ok step, s) h = h
  handed-Handed (err e, s) h = tt

  -- The login that a caller gets is settled: with a challenge it is active and waits for exactly
  -- that challenge's answer, and with any other step it is over or finished and holds nothing.
  pub initiate_with-Handed :
      (factors : Factors) (start : Start) (c : Value × M.World)
      → WhenOk Handed (initiate_with factors start c)
  unfolding initiate_with started Handed
  initiate_with-Handed factors start (keys, w) = first (new M default_login_timeout w)
    where
      first : (r : Result (AuthFlow L) × M.World) → WhenOk Handed (started factors start keys r)
      first (err e, w) = tt
      first (ok flow, w) =
          handed-Handed _ (begin-Settled (application M K app) tokenize factors start _)

-- A client over libcurl, whose TLS backend is an argument, as is the registered callback of new settings.
module _ {L : UrlLib} (M : Machine L) (K : Codec) (ssl_version : Text) where
  -- `with_config`
  unfoldable pub with_config : Config L → Run M.World (Client L × Value)
  with_config config = lift (new_transport ssl_version) >>= λ _. with_transport M K config

  -- `new`
  unfoldable pub new_client : L.Url → Text → Text → Text → Run M.World (Client L × Value)
  unfolding with_config
  new_client callback server_url realm client_id =
      lift (new_config callback server_url realm client_id) >>= λ config. with_config config

  -- There is no client unless wolfSSL is the active backend of libcurl.
  pub with_config-wolfssl :
      (config : Config L) (w : M.World)
      → WhenOk (λ c w'. active_wolfssl ssl_version ≡ true) (with_config config w)
  unfolding with_config new_transport
  with_config-wolfssl config w =
      WhenOk-resume _ (ensure (active_wolfssl ssl_version) tls_backend)
        (λ _. with_transport M K config) w
        λ u h.
          WhenOk-intro _ (with_transport M K config w).0 (with_transport M K config w).1
            λ c e. ground arith
