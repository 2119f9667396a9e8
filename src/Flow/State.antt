-- ===== src/Flow/State.antt =====
-- `AuthFlow` (src/flow/mod.rs): the state of one login, and its lifecycle. `now` is the reading of
-- `Instant::now` that an operation makes; wiping a string leaves it empty.
pub mod Lifecycle
use himmelcloak.Prelude.{
  ℕ, ◌+◌, Text, List, [], Option, none, some, Bool, true, false, leb, ◌&&◌, if◌then◌else◌, Error,
  protocol, Result, ok, err,
}
use himmelcloak.Platform.{UrlLib}
use himmelcloak.Transport.{Machine}
use himmelcloak.Flow.Types.{Challenge, Answer, PageKind}
use himmelcloak.Flow.Expect.{Expect}
use himmelcloak.Flow.Jar.{CookieJar, empty_jar}
use himmelcloak.Flow.Form.{Form}

pub data FlowState : Type 0 where
  active cancelled expired failed finished : FlowState

-- The page waiting on the caller (src/flow/driver.rs).
pub record Pending (L : UrlLib) : Type 0 where
  pub kind : PageKind
  pub form : Form L
  pub expect : Expect
  pub queue : List Challenge
  pub answers : List Answer

pub record AuthFlow (L : UrlLib) : Type 0 where
  pub jar : CookieJar L
  pub deadline : ℕ
  pub lifecycle : FlowState
  pub pkce_verifier : Text
  pub oauth_state : Text
  pub nonce : Text
  pub pending : Option (Pending L)
  pub client : Text
  pub login_hint : Option Text

abbrev pub is_live : FlowState → Bool
is_live FlowState.active = true
is_live _ = false

-- Only an active login takes a new state.
ended : FlowState → FlowState → FlowState
ended state FlowState.active = state
ended state old = old

-- The `match` of `ensure_active`.
gate : FlowState → Result (Unit {0})
gate FlowState.active = ok tt
gate FlowState.cancelled = err Error.cancelled
gate FlowState.expired = err Error.expired
gate FlowState.failed = err (protocol "login flow failed")
gate FlowState.finished = err (protocol "login flow already finished")

module _ {L : UrlLib} where
  -- `end`, with `clear_secrets`
  unfoldable pub end : FlowState → AuthFlow L → AuthFlow L
  unfolding ended
  end state f = record f {
    lifecycle = ended state f.lifecycle;
    jar = empty_jar;
    pending = none;
    pkce_verifier = [];
    oauth_state = [];
    nonce = [];
  }

  -- `expire_if_due`
  unfoldable pub expire_if_due : ℕ → AuthFlow L → AuthFlow L
  unfolding end
  expire_if_due now f =
      if is_live f.lifecycle && leb f.deadline now then end FlowState.expired f else f

  -- `cancel`
  unfoldable pub cancel : ℕ → AuthFlow L → AuthFlow L
  unfolding expire_if_due end
  cancel now f = end FlowState.cancelled (expire_if_due now f)

  -- `is_active`
  unfoldable pub is_active : ℕ → AuthFlow L → Bool × AuthFlow L
  unfolding expire_if_due
  is_active now f = let f' = expire_if_due now f in (is_live f'.lifecycle, f')

  -- `ensure_active`
  unfoldable pub ensure_active : ℕ → AuthFlow L → Result (Unit {0}) × AuthFlow L
  unfolding expire_if_due gate
  ensure_active now f = let f' = expire_if_due now f in (gate f'.lifecycle, f')

  -- `finish`
  unfoldable pub finish : ℕ → AuthFlow L → Result (Unit {0}) × AuthFlow L
  unfolding ensure_active end
  finish now f = elim (ensure_active now f).0 [
    | ok _ ↦ (ok tt, end FlowState.finished (ensure_active now f).1)
    | err e ↦ (err e, (ensure_active now f).1)
  ]

  -- `fail`
  unfoldable pub fail : ℕ → AuthFlow L → AuthFlow L
  unfolding expire_if_due end
  fail now f = end FlowState.failed (expire_if_due now f)

module _ {L : UrlLib} (M : Machine L) where
  fresh : ℕ → Text → Text → Text → AuthFlow L
  fresh deadline verifier state nonce = record {
    jar = empty_jar;
    deadline = deadline;
    lifecycle = FlowState.active;
    pkce_verifier = verifier;
    oauth_state = state;
    nonce = nonce;
    pending = none;
    client = [];
    login_hint = none;
  }

  -- The draws of `new`, in order.
  draw :
      ℕ → (Text → M.World → Result (AuthFlow L) × M.World) → M.World → Result (AuthFlow L) × M.World
  draw n k w = elim (M.random_base64 n w).0 [
    | err e ↦ (err e, (M.random_base64 n w).1)
    | ok t ↦ k t (M.random_base64 n w).1
  ]

  -- `AuthFlow::new`
  unfoldable pub new : ℕ → M.World → Result (AuthFlow L) × M.World
  unfolding draw fresh
  new time_limit w =
      let (now, w') = M.instant w in
      draw 32
        (λ verifier.
          draw 16
            (λ state. draw 16 (λ nonce w. (ok (fresh (now + time_limit) verifier state nonce), w))))
        w'
