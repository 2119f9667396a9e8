-- ===== src/Flow/Driver.antt =====
-- The login driver (src/flow/driver.rs): fetch the current page, ask its challenges, post the
-- answers, and follow the server's redirects up to the callback. A login whose future is dropped fails
-- the same way as one whose step errs; the driver's steps are modelled as run to their end.
pub mod Settled
pub mod Gate
pub mod Budget
pub mod Metered
pub mod Keys
use himmelcloak.Prelude.{
  ℕ, zero, suc, Text, text_eq, List, [], ◌∷◌, ◌++◌, Option, none, some, Bool, true, false, not,
  ◌==◌, ◌&&◌, if◌then◌else◌, Error, protocol, http_status, unsupported_factor, Result, ok, err,
  ok_or, Run, resume, ◌>>=◌, pure, raise, lift,
}
use himmelcloak.Platform.{UrlLib}
use himmelcloak.Transport.{Machine}
use himmelcloak.Flow.Types.{Challenge, Answer, PageKind, AuthStep, challenge, failed}
use himmelcloak.Flow.Expect.{of, check}
use himmelcloak.Flow.Fetch.{Page, Redirect, Fetched, page, redirect, repeats_request, get}
use himmelcloak.Flow.Classify.Scan.{Token}
use himmelcloak.Flow.Classify.Kind.{rejection}
use himmelcloak.Flow.Form.{Form, extract, submit}
use himmelcloak.Flow.Factor.{PageFactor, Factors}
use himmelcloak.Flow.State.{Pending, AuthFlow}
use himmelcloak.Flow.Session.{
  Start, App, Session, active_now, fail_now, with_jar, complete_at_callback,
}

-- `MAX_REDIRECTS`
abbrev pub max_redirects : ℕ
max_redirects = 5

module _ {L : UrlLib} {M : Machine L} (A : App M) where
  -- The page's first challenge; the others wait.
  unfoldable pub ask : PageKind → Form L → List Challenge → Run (Session A) AuthStep
  ask kind form [] s = (err (protocol "page asks no challenge"), s)
  ask kind form (first ∷ queue) s = (
    ok (challenge first),
    record s {
      flow = record s.flow {
        pending =
            some
              (record { kind = kind; form = form; expect = of first; queue = queue; answers = [] });
      };
    },
  )

  -- A redirect that is not the callback is followed inside the server only.
  unfoldable pub beyond :
      (Redirect L → Run (Session A) AuthStep)
      → Redirect L
      → Option AuthStep
      → Run (Session A) AuthStep
  beyond follow r (some step) s = (ok step, s)
  beyond follow r none s =
      if not r.same_origin then (err (protocol "unexpected redirect"), s) else follow r s

  -- What is done with a redirect.
  unfoldable pub turn :
      (Redirect L → Run (Session A) AuthStep) → Bool → Redirect L → Run (Session A) AuthStep
  unfolding beyond
  turn follow posted r =
      if posted && repeats_request r.kind
      then raise (protocol "unexpected redirect")
      else (complete_at_callback A r >>= beyond follow r)

  unfoldable pub follow_get : Redirect L → Run (Session A) (Fetched L)
  follow_get r = with_jar A (get M r.location)

  unfoldable pub take_pending : Run (Session A) (Pending L)
  take_pending s = elim s.flow.pending [
    | none ↦ (err (protocol "no challenge is waiting for an answer"), s)
    | some p ↦ (ok p, record s { flow = record s.flow { pending = none } })
  ]

  unfoldable pub same_client : Run (Session A) (Unit {0})
  same_client s = (
    if text_eq s.flow.client A.login_client
        then ok tt
        else err (protocol "login flow belongs to another client"),
    s,
  )

  -- `Step`: the login fails unless the step succeeds.
  unfoldable pub settle_step : Result AuthStep → Run (Session A) AuthStep
  settle_step (ok step) s = (ok step, s)
  settle_step (err e) s = (err e, fail_now A s)

  unfoldable pub guarded : Run (Session A) AuthStep → Run (Session A) AuthStep
  unfolding settle_step
  guarded op s = settle_step (op s).0 (op s).1

module _ {L : UrlLib} {M : Machine L} (A : App M) (factors : Factors) where
  -- The rejection that a page reports ends the login; otherwise its factor says what it asks.
  unfoldable pub hand_over : PageKind → Form L → Option Text → Run (Session A) AuthStep
  unfolding ask
  hand_over kind form (some reason) s = (ok (failed reason), fail_now A s)
  hand_over kind form none s =
      (lift (ok_or (factors kind) unsupported_factor) >>= λ factor.
      lift (factor.challenges kind s.flow.login_hint) >>= λ asked. ask A kind form asked)
        s

  -- `post`
  unfoldable pub post : Pending L → Run (Session A) (Fetched L)
  post p = lift (ok_or (factors p.kind) unsupported_factor) >>= λ factor.
      lift (factor.fields p.kind p.answers) >>= λ fields. with_jar A (submit M p.form fields)

module _ {L : UrlLib} {M : Machine L} (A : App M) (tokenize : Text → List Token)
    (factors : Factors) where
  -- `present`
  unfoldable pub present : Page L → Run (Session A) AuthStep
  unfolding hand_over
  present p = lift (extract tokenize p) >>= λ r. hand_over A factors r.0 r.1 (rejection r.0)

  -- One turn of the loop of `resolve`.
  unfoldable pub arrive :
      (Redirect L → Run (Session A) AuthStep) → Bool → Fetched L → Run (Session A) AuthStep
  unfolding present turn
  arrive follow posted (page p) =
      if p.status == 200 then present p else raise (http_status p.status)
  arrive follow posted (redirect r) = turn A follow posted r

  -- `resolve`, with the number of redirects that may still be followed
  unfoldable pub resolve : ℕ → Bool → Fetched L → Run (Session A) AuthStep
  unfolding arrive follow_get
  resolve zero posted fetched =
      active_now A >>= λ _. arrive (λ r. raise (protocol "too many redirects")) posted fetched
  resolve (suc left) posted fetched =
      active_now A >>= λ _. arrive (λ r. follow_get A r >>= resolve left false) posted fetched

  -- The page's next challenge, or its post once all are answered.
  unfoldable pub next : Pending L → List Challenge → Run (Session A) AuthStep
  unfolding post resolve
  next p [] s = (post A factors p >>= resolve max_redirects true) s
  next p (c ∷ queue) s = (
    ok (challenge c),
    record s {
      flow = record s.flow { pending = some (record p { expect = of c; queue = queue }) };
    },
  )

  -- `answer_page`
  unfoldable pub answer_page : Answer → Run (Session A) AuthStep
  unfolding take_pending same_client next
  answer_page answer = active_now A >>= λ _. take_pending A >>= λ p. same_client A >>= λ _.
      lift (check p.expect answer) >>= λ _.
      next (record p { answers = p.answers ++ answer ∷ [] }) p.queue

  -- `first_page`
  unfoldable pub first_page : Start → Run (Session A) AuthStep
  unfolding resolve
  first_page start = active_now A >>= λ _ s.
      (lift (A.authorize start s.flow.pkce_verifier s.flow.oauth_state s.flow.nonce) >>= λ url s.
      (with_jar A (get M url) >>= resolve max_redirects false) (record s {
        flow = record s.flow { client = A.login_client; login_hint = start.login_hint };
      }))
        s

  -- `begin`
  unfoldable pub begin : Start → Run (Session A) AuthStep
  unfolding guarded first_page
  begin start = guarded A (first_page start)

  -- `advance`
  unfoldable pub advance : Answer → Run (Session A) AuthStep
  unfolding guarded answer_page
  advance answer = guarded A (answer_page answer)
