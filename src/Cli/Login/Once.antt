-- ===== src/Cli/Login/Once.antt =====
-- A password is sent once.
use himmelcloak.Prelude.{
  ℕ, zero, suc, Text, List, [], ◌∷◌, Bool, true, false, is_some, null, Result, ok, err, ◌≡◌, refl,
}
use himmelcloak.Flow.Types.{Challenge, Answer, AuthStep, challenge, complete}
use himmelcloak.Cli.Outcome.{Outcome, done, failed}
use himmelcloak.Cli.Login.{
  Engine, Decision, finish, give_up, ask_username, ask_password, decide, Run, ended, after_answer,
  go_on, exchange, act, login_loop, begun, connected, login,
}

-- User names, and at most one password, which comes last.
unfoldable pub typed_once : List Answer → Bool
typed_once [] = true
typed_once (Answer.username _ ∷ more) = typed_once more
typed_once (Answer.password _ ∷ more) = null more
typed_once (_ ∷ more) = false

module _ (E : Engine) where
  -- Once a password is sent, a run ends in the next round and sends nothing more.
  after_password :
      (fuel : ℕ) (step : AuthStep) (w : E.World)
      → (is_some (login_loop E (suc fuel) true step w).0 ≡ true)
        × ((login_loop E (suc fuel) true step w).1 ≡ [])
  unfolding login_loop decide act ended
  after_password fuel (complete t) w = (refl, refl)
  after_password fuel (AuthStep.failed r) w = (refl, refl)
  after_password fuel (challenge Challenge.username) w = (refl, refl)
  after_password fuel (challenge Challenge.password) w = (refl, refl)
  after_password fuel (challenge (Challenge.one_time_code d)) w = (refl, refl)
  after_password fuel (challenge (Challenge.recovery_code i)) w = (refl, refl)
  after_password fuel (challenge (Challenge.web_authn x)) w = (refl, refl)
  after_password fuel (challenge (Challenge.choose_method ms)) w = (refl, refl)
  after_password fuel (challenge (Challenge.required_action a)) w = (refl, refl)
  after_password fuel (challenge (Challenge.info t)) w = (refl, refl)

  nothing_after :
      (fuel : ℕ) (step : AuthStep) (w : E.World) → (login_loop E fuel true step w).1 ≡ []
  unfolding login_loop
  nothing_after zero step w = refl
  nothing_after (suc fuel) step w = (after_password fuel step w).1

  go_on-holds :
      (P : List Answer → Type 0) (loop : AuthStep → E.World → Run E.World)
      (x : Result AuthStep × E.World)
      → P []
      → ((step : AuthStep) (w : E.World) → P (loop step w).1)
      → P (go_on E loop x).1
  unfolding go_on ended
  go_on-holds P loop (ok step, w) n h = h step w
  go_on-holds P loop (err e, w) n h = n

  exchange-holds :
      (P : List Answer → Type 0) (as_answer : Text → Answer)
      (loop : AuthStep → E.World → Run E.World) (x : Outcome Text × E.World)
      → P []
      → ((t : Text) → P (as_answer t ∷ []))
      → ((t : Text) (step : AuthStep) (w : E.World) → P (as_answer t ∷ (loop step w).1))
      → P (exchange E as_answer loop x).1
  unfolding exchange ended after_answer
  exchange-holds P as_answer loop (failed e, w) n one h = n
  exchange-holds P as_answer loop (done t, w) n one h =
      go_on-holds (λ more. P (as_answer t ∷ more)) loop (E.advance (as_answer t) w) (one t) (h t)

  act-once :
      (fuel : ℕ) (d : Decision) (w : E.World)
      → ((step : AuthStep) (w : E.World) → typed_once (login_loop E fuel false step w).1 ≡ true)
      → typed_once (act E (λ s. login_loop E fuel s) false d w).1 ≡ true
  unfolding act ended typed_once
  act-once fuel (finish o) w h = refl
  act-once fuel (give_up r) w h = refl
  act-once fuel ask_username w h =
      exchange-holds (λ answers. typed_once answers ≡ true) Answer.username
        (λ step w. login_loop E fuel false step w) _ refl (λ t. refl) (λ t step w. h step w)
  act-once fuel ask_password w h =
      exchange-holds (λ answers. typed_once answers ≡ true) Answer.password
        (λ step w. login_loop E fuel true step w) _ refl (λ t. refl)
        (λ t step w. rw (nothing_after fuel step w) refl)

  once :
      (fuel : ℕ) (step : AuthStep) (w : E.World)
      → typed_once (login_loop E fuel false step w).1 ≡ true
  unfolding login_loop typed_once
  once zero step w = refl
  once (suc fuel) step w = act-once fuel (decide false step) w (once fuel)

  -- A test login sends its password at most once, after any number of user names, and nothing after it, whatever the server
  -- asks; and once it is sent, the run ends within the next round.
  pub login_loop-once :
      (fuel : ℕ) (step : AuthStep) (w : E.World)
      → (typed_once (login_loop E fuel false step w).1 ≡ true)
        × (is_some (login_loop E (suc fuel) true step w).0 ≡ true)
  login_loop-once fuel step w = (once fuel step w, (after_password fuel step w).0)

  begun-once : (fuel : ℕ) (r : Result AuthStep × E.World) → typed_once (begun E fuel r).1 ≡ true
  unfolding begun ended typed_once
  begun-once fuel (ok step, w) = once fuel step w
  begun-once fuel (err e, w) = refl

  connected-once :
      (fuel : ℕ) (r : Result (Unit {0}) × E.World) → typed_once (connected E fuel r).1 ≡ true
  unfolding connected ended typed_once
  connected-once fuel (ok u, w) = begun-once fuel (E.initiate w)
  connected-once fuel (err e, w) = refl

  -- From the connection on, a whole run of the test login sends at most one password, after any number of
  -- user names and nothing after it.
  pub login-once : (fuel : ℕ) (w : E.World) → typed_once (login E fuel w).1 ≡ true
  unfolding login
  login-once fuel w = connected-once fuel (E.connect w)
