-- ===== src/Flow/Session.antt =====
-- One login in progress, with the application that drives it: `exchange_code` and
-- `complete_at_callback` of src/client.rs.
pub mod Exchange
pub mod Redeem
use himmelcloak.Prelude.{
  ℕ, Text, List, Option, none, some, Bool, Error, Result, ok, err, Run, resume, ◌>>=◌, pure, raise,
}
use himmelcloak.Platform.{UrlLib}
use himmelcloak.Transport.{Machine}
use himmelcloak.Flow.Types.{Tokens, AuthStep, complete}
use himmelcloak.Flow.Jar.{CookieJar}
use himmelcloak.Flow.Fetch.{Redirect, Fetched}
use himmelcloak.Flow.State.{AuthFlow, ensure_active, finish, fail}
use himmelcloak.Flow.Callback.{callback}

-- `Start`
pub record Start : Type 0 where
  pub login_hint : Option Text
  pub scopes : List Text

-- What the driver uses of a `PublicClientApplication`, which fills it as `application` of Client. `Keys` is
-- the key set it keeps.
pub record App {L : UrlLib} (M : Machine L) : Type 1 where
  pub Keys : Type 0
  pub redirect_uri : L.Url
  pub login_client : Text
  -- `token::authorization_url`, of the start, the verifier, the state and the nonce
  pub authorize : Start → Text → Text → Text → Result L.Url
  -- `redeem_code`, of the code, the verifier and the nonce
  pub redeem_code : Text → Text → Text → Run (Keys × M.World) Tokens

pub record Session {L : UrlLib} {M : Machine L} (A : App M) : Type 0 where
  pub flow : AuthFlow L
  pub keys : A.Keys
  pub world : M.World

module _ {L : UrlLib} {M : Machine L} (A : App M) where
  -- An operation of the login, at the time that the clock shows.
  unfoldable pub timed {ℓ} :
      {B : Type ℓ} → (ℕ → AuthFlow L → Result B × AuthFlow L) → Run (Session A) B
  timed op s =
      let (now, w) = M.instant s.world in
      let (r, f) = op now s.flow in (r, record s { flow = f; world = w })

  unfoldable pub active_now : Run (Session A) (Unit {0})
  unfolding timed
  active_now = timed ensure_active

  unfoldable pub fail_now : Session A → Session A
  fail_now s = let (now, w) = M.instant s.world in record s { flow = fail now s.flow; world = w }

  -- A request with the login's own cookies.
  unfoldable pub with_jar : Run (CookieJar L × M.World) (Fetched L) → Run (Session A) (Fetched L)
  with_jar op s =
      let (r, (jar, w)) = op (s.flow.jar, s.world) in
      (r, record s { flow = record s.flow { jar = jar }; world = w })

  unfoldable pub redeem_now : Text → Run (Session A) Tokens
  redeem_now code s =
      let (r, (keys, w)) = A.redeem_code code s.flow.pkce_verifier s.flow.nonce (s.keys, s.world) in
      (r, record s { keys = keys; world = w })

  -- The body of `exchange_code`.
  unfoldable pub redeem_and_finish : Text → Run (Session A) Tokens
  unfolding redeem_now timed active_now
  redeem_and_finish code =
      active_now >>= λ _. redeem_now code >>= λ tokens. timed finish >>= λ _. pure tokens

  -- `exchange_code`: the guard fails the login on every way out.
  unfoldable pub exchange_code : Text → Run (Session A) Tokens
  unfolding redeem_and_finish fail_now
  exchange_code code s = ((redeem_and_finish code s).0, fail_now (redeem_and_finish code s).1)

  unfoldable pub judge_now : Redirect L → Run (Session A) (Option Text)
  unfolding timed
  judge_now redirect = timed λ now f. callback now redirect A.redirect_uri f

  -- What follows the callback's verdict.
  unfoldable pub settle_callback : Result (Option Text) → Run (Session A) (Option AuthStep)
  unfolding exchange_code fail_now
  settle_callback (ok (some code)) s =
      (exchange_code code >>= λ tokens. pure (some (complete tokens))) s
  settle_callback (ok none) s = (ok none, s)
  settle_callback (err e) s = (err e, fail_now s)

  -- `complete_at_callback`
  unfoldable pub complete_at_callback : Redirect L → Run (Session A) (Option AuthStep)
  unfolding active_now judge_now settle_callback
  complete_at_callback redirect =
      active_now >>= λ _ s. (let (r, s') = judge_now redirect s in settle_callback r s')
