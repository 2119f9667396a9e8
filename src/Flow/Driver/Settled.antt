-- ===== src/Flow/Driver/Settled.antt =====
-- What every step of the driver leaves behind, whatever the server answers.
use himmelcloak.Prelude.{
  ℕ, zero, suc, Text, List, [], ◌∷◌, ◌++◌, Option, none, some, Bool, true, false, not, ◌==◌, ◌&&◌,
  unsupported_factor, Result, ok, err, ok_or, Run, WhenOk, WhenOk-resume, WhenOk-elim, if_elim, ◌≡◌,
  refl, arith,
}
use himmelcloak.Platform.{UrlLib}
use himmelcloak.Transport.{Machine}
use himmelcloak.Flow.Types.{Challenge, Answer, PageKind, AuthStep}
use himmelcloak.Flow.Expect.{check}
use himmelcloak.Flow.Fetch.{Redirect, Fetched, page, redirect, repeats_request}
use himmelcloak.Flow.Classify.Scan.{Token}
use himmelcloak.Flow.Classify.Kind.{rejection}
use himmelcloak.Flow.Form.{Form, extract}
use himmelcloak.Flow.Factor.{Factors}
use himmelcloak.Flow.State.{active, Pending}
use himmelcloak.Flow.Session.{Start, App, Session, active_now, complete_at_callback}
use himmelcloak.Flow.Session.Exchange.{
  IsOver, Reached, ReachedIfAny, fail_now-IsOver, active_now-active, complete_at_callback-Reached,
}
use himmelcloak.Flow.Driver.{
  ask, beyond, hand_over, present, turn, arrive, follow_get, resolve, take_pending, same_client,
  next, post, answer_page, first_page, settle_step, begin, advance,
}

module _ {L : UrlLib} {M : Machine L} (A : App M) where
  abbrev IsActive : Session A → Type 0
  IsActive s = s.flow.lifecycle ≡ active

  ask-Reached :
      (kind : PageKind) (form : Form L) (asked : List Challenge) (s : Session A)
      → IsActive s
      → WhenOk (Reached A) (ask A kind form asked s)
  unfolding ask
  ask-Reached kind form [] s h = tt
  ask-Reached kind form (c ∷ queue) s h = (h, (_, refl, refl))

  beyond-Reached :
      (follow : Redirect L → Run (Session A) AuthStep) (r : Redirect L) (o : Option AuthStep)
      (s : Session A)
      → ((s' : Session A) → WhenOk (Reached A) (follow r s'))
      → ReachedIfAny A o s
      → WhenOk (Reached A) (beyond A follow r o s)
  unfolding beyond
  beyond-Reached follow r (some step) s h w = w
  beyond-Reached follow r none s h w = if_elim (WhenOk (Reached A)) (not r.same_origin) _ _ tt (h s)

  turn-Reached :
      (follow : Redirect L → Run (Session A) AuthStep) (posted : Bool) (r : Redirect L)
      (s : Session A)
      → ((s' : Session A) → WhenOk (Reached A) (follow r s'))
      → WhenOk (Reached A) (turn A follow posted r s)
  unfolding turn
  turn-Reached follow posted r s h =
      if_elim (λ (m : Run (Session A) AuthStep). WhenOk (Reached A) (m s))
        (posted && repeats_request r.kind) _ _ tt
        (let (c, s') = complete_at_callback A r s in
          WhenOk-resume (Reached A) c _ s' λ o q.
            beyond-Reached follow r o s' h
              (WhenOk-elim (ReachedIfAny A) c s' (complete_at_callback-Reached A r s) q))

  -- After a step, an error leaves the login over as well.
  abbrev pub Settled : Result AuthStep × Session A → Type 0
  Settled (ok step, s) = Reached A step s
  Settled (err e, s) = IsOver A s

  settle_step-Settled :
      (r : Result AuthStep) (s : Session A)
      → WhenOk (Reached A) (r, s)
      → Settled (settle_step A r s)
  unfolding settle_step
  settle_step-Settled (ok step) s h = h
  settle_step-Settled (err e) s h = fail_now-IsOver A s

module _ {L : UrlLib} {M : Machine L} (A : App M) (tokenize : Text → List Token)
    (factors : Factors) where
  hand_over-Reached :
      (kind : PageKind) (form : Form L) (verdict : Option Text) (s : Session A)
      → IsActive A s
      → WhenOk (Reached A) (hand_over A factors kind form verdict s)
  unfolding hand_over
  hand_over-Reached kind form (some reason) s h = fail_now-IsOver A s
  hand_over-Reached kind form none s h =
      WhenOk-resume (Reached A) (ok_or (factors kind) unsupported_factor) _ s λ factor _.
        WhenOk-resume (Reached A) (factor.challenges kind s.flow.login_hint) _ s
          λ asked _. ask-Reached A kind form asked s h

  arrive-Reached :
      (follow : Redirect L → Run (Session A) AuthStep) (posted : Bool) (fetched : Fetched L)
      (s : Session A)
      → ((r : Redirect L) (s' : Session A) → WhenOk (Reached A) (follow r s'))
      → IsActive A s
      → WhenOk (Reached A) (arrive A tokenize factors follow posted fetched s)
  unfolding arrive present
  arrive-Reached follow posted (redirect r) s h a = turn-Reached A follow posted r s (h r)
  arrive-Reached follow posted (page p) s h a =
      if_elim (λ (m : Run (Session A) AuthStep). WhenOk (Reached A) (m s)) (p.status == 200) _ _
        (WhenOk-resume (Reached A) (extract tokenize p) _ s
          λ r _. hand_over-Reached r.0 r.1 (rejection r.0) s a)
        tt

  resolve-Reached :
      (left : ℕ) (posted : Bool) (fetched : Fetched L) (s : Session A)
      → WhenOk (Reached A) (resolve A tokenize factors left posted fetched s)
  unfolding resolve
  resolve-Reached zero posted fetched s =
      WhenOk-resume (Reached A) (active_now A s).0 _ (active_now A s).1 λ _ e.
        arrive-Reached _ posted fetched (active_now A s).1 (λ r s'. tt) (active_now-active A s e)
  resolve-Reached (suc left) posted fetched s =
      WhenOk-resume (Reached A) (active_now A s).0 _ (active_now A s).1 λ _ e.
        arrive-Reached _ posted fetched (active_now A s).1
          (λ r s'.
            WhenOk-resume (Reached A) (follow_get A r s').0 _ (follow_get A r s').1
              λ f _. resolve-Reached left false f (follow_get A r s').1)
          (active_now-active A s e)

  next-Reached :
      (p : Pending L) (queue : List Challenge) (s : Session A)
      → IsActive A s
      → WhenOk (Reached A) (next A tokenize factors p queue s)
  unfolding next
  next-Reached p [] s h =
      let (r, s') = post A factors p s in
      WhenOk-resume (Reached A) r _ s' λ f _. resolve-Reached 5 true f s'
  next-Reached p (c ∷ queue) s h = (h, (_, refl, refl))

  take_pending-same : (s : Session A) → IsActive A s → IsActive A (take_pending A s).1
  unfolding take_pending
  take_pending-same s h = ground (arith, h)

  answer_page-Reached :
      (answer : Answer) (s : Session A)
      → WhenOk (Reached A) (answer_page A tokenize factors answer s)
  unfolding answer_page same_client
  answer_page-Reached answer s =
      let s1 = (active_now A s).1 in
      WhenOk-resume (Reached A) (active_now A s).0 _ s1 λ _ e.
        (let (r2, s2) = take_pending A s1 in
          WhenOk-resume (Reached A) r2 _ s2 λ p _.
            WhenOk-resume (Reached A) (same_client A s2).0 _ s2 λ _ _.
              WhenOk-resume (Reached A) (check p.expect answer) _ s2 λ _ _.
                next-Reached (record p { answers = p.answers ++ answer ∷ [] }) p.queue s2
                  (take_pending-same s1 (active_now-active A s e)))

  first_page-Reached :
      (start : Start) (s : Session A) → WhenOk (Reached A) (first_page A tokenize factors start s)
  unfolding first_page
  first_page-Reached start s =
      let s1 = (active_now A s).1 in
      WhenOk-resume (Reached A) (active_now A s).0 _ s1 λ _ _.
        WhenOk-resume (Reached A)
          (A.authorize start s1.flow.pkce_verifier s1.flow.oauth_state s1.flow.nonce) _ s1
          λ url _.
            WhenOk-resume (Reached A) _ (resolve A tokenize factors 5 false) _
              λ f _. resolve-Reached 5 false f _

-- However the server answers, the first step of a login that returns a challenge leaves the login
-- active and waiting for exactly that challenge's answer, with what it accepts; a step that
-- completes leaves it finished; and a step that errs or reports a failure leaves it over. A login that
-- is over or finished holds no cookie, page or secret.
pub begin-Settled :
    {L : UrlLib} {M : Machine L} (A : App M) (tokenize : Text → List Token) (factors : Factors)
    (start : Start) (s : Session A)
    → Settled A (begin A tokenize factors start s)
unfolding begin
begin-Settled A tokenize factors start s =
    let (r, s') = first_page A tokenize factors start s in
    settle_step-Settled A r s' (first_page-Reached A tokenize factors start s)

-- Whatever the answer, the state of the login before it and the server's responses, a step that returns
-- a challenge leaves the login active and waiting for exactly that challenge's answer; a step that
-- completes leaves it finished; and a step that errs or reports a failure leaves it over. A login that
-- is over or finished holds no cookie, page or secret.
pub advance-Settled :
    {L : UrlLib} {M : Machine L} (A : App M) (tokenize : Text → List Token) (factors : Factors)
    (answer : Answer) (s : Session A)
    → Settled A (advance A tokenize factors answer s)
unfolding advance
advance-Settled A tokenize factors answer s =
    let (r, s') = answer_page A tokenize factors answer s in
    settle_step-Settled A r s' (answer_page-Reached A tokenize factors answer s)
