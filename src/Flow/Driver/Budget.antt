-- ===== src/Flow/Driver/Budget.antt =====
-- How many requests a step of the driver may send.
use himmelcloak.Prelude.{
  ℕ, zero, suc, ◌+◌, ◌≤◌, Text, List, [], ◌∷◌, ◌++◌, Option, none, some, Bool, true, false, ◌==◌,
  unsupported_factor, Result, ok, err, ok_or, Run, if_elim, arith,
}
use himmelcloak.Platform.{UrlLib}
use himmelcloak.Transport.{Machine}
use himmelcloak.Flow.Types.{Challenge, Answer, PageKind, AuthStep}
use himmelcloak.Flow.Expect.{check}
use himmelcloak.Flow.Fetch.{Redirect, Fetched, page, redirect}
use himmelcloak.Flow.Classify.Scan.{Token}
use himmelcloak.Flow.Classify.Kind.{rejection}
use himmelcloak.Flow.Form.{Form, extract}
use himmelcloak.Flow.Factor.{Factors}
use himmelcloak.Flow.State.{Pending}
use himmelcloak.Flow.Session.{App, Session, active_now, with_jar}
use himmelcloak.Flow.Driver.{
  hand_over, present, arrive, follow_get, resolve, take_pending, same_client, next, post,
  answer_page, settle_step, advance,
}
use himmelcloak.Flow.Driver.Metered.{
  Metered, submit-count, resume-spent, active_now-spent, fail_now-spent, turn-spent,
  follow_get-spent, ask-spent,
}

module _ {L : UrlLib} {M : Machine L} (A : App M) (tokenize : Text → List Token) (factors : Factors)
    (count : M.World → ℕ) (redeeming : ℕ) (meter : Metered A count redeeming) where
  abbrev spending : Session A → ℕ
  spending s = count s.world

  hand_over-spent :
      (kind : PageKind) (form : Form L) (verdict : Option Text) (s : Session A)
      → spending (hand_over A factors kind form verdict s).1 ≤ spending s
  unfolding hand_over
  hand_over-spent kind form (some reason) s = fail_now-spent A count redeeming meter s
  hand_over-spent kind form none s =
      resume-spent A count redeeming meter (spending s) (ok_or (factors kind) unsupported_factor) _
        s (omega arith)
        λ factor _.
          resume-spent A count redeeming meter (spending s)
            (factor.challenges kind s.flow.login_hint) _ s (omega arith)
            λ asked _. ask-spent A count redeeming meter kind form asked s

  arrive-spent :
      (follow : Redirect L → Run (Session A) AuthStep) (posted : Bool) (fetched : Fetched L) (n : ℕ)
      (s : Session A)
      → spending s + redeeming ≤ n
      → ((r : Redirect L) (s' : Session A)
          → spending s' ≤ spending s
          → spending (follow r s').1 ≤ n)
      → spending (arrive A tokenize factors follow posted fetched s).1 ≤ n
  unfolding arrive present
  arrive-spent follow posted (redirect r) n s h g =
      turn-spent A count redeeming meter follow posted r n s h (g r)
  arrive-spent follow posted (page p) n s h g =
      if_elim (λ (m : Run (Session A) AuthStep). spending (m s).1 ≤ n) (p.status == 200) _ _
        (resume-spent A count redeeming meter n (extract tokenize p) _ s (omega arith)
          λ r _. (let k = hand_over-spent r.0 r.1 (rejection r.0) s in omega arith))
        (omega arith)

  resolve-spent :
      (left : ℕ) (posted : Bool) (fetched : Fetched L) (s : Session A)
      → spending (resolve A tokenize factors left posted fetched s).1
        ≤ spending s + (left + redeeming)
  unfolding resolve
  resolve-spent zero posted fetched s =
      let s1 = (active_now A s).1 in
      let h1 = active_now-spent A count redeeming meter s in
      let n = spending s + (0 + redeeming) in
      resume-spent A count redeeming meter n (active_now A s).0 _ s1 (omega arith)
        λ _ _. arrive-spent _ posted fetched n s1 (omega arith) λ r s' k. omega arith
  resolve-spent (suc left) posted fetched s =
      let s1 = (active_now A s).1 in
      let h1 = active_now-spent A count redeeming meter s in
      let n = spending s + (suc left + redeeming) in
      resume-spent A count redeeming meter n (active_now A s).0 _ s1 (omega arith) λ _ _.
        arrive-spent _ posted fetched n s1 (omega arith) λ r s' k.
          (let s2 = (follow_get A r s').1 in
            let h2 = follow_get-spent A count redeeming meter r s' in
            resume-spent A count redeeming meter n (follow_get A r s').0 _ s2 (omega arith)
              λ f _. (let h3 = resolve-spent left false f s2 in omega arith))

  post-spent : (p : Pending L) (s : Session A) → spending (post A factors p s).1 ≤ spending s + 1
  unfolding post with_jar
  post-spent p s =
      let n = spending s + 1 in
      resume-spent A count redeeming meter n (ok_or (factors p.kind) unsupported_factor) _ s
        (omega arith)
        λ factor _.
          resume-spent A count redeeming meter n (factor.fields p.kind p.answers) _ s (omega arith)
            λ fields _. submit-count A count redeeming meter p.form fields s.flow.jar s.world

  next-spent :
      (p : Pending L) (queue : List Challenge) (s : Session A)
      → spending (next A tokenize factors p queue s).1 ≤ spending s + (6 + redeeming)
  unfolding next
  next-spent p (c ∷ queue) s = omega arith
  next-spent p [] s =
      let s1 = (post A factors p s).1 in
      let h1 = post-spent p s in
      resume-spent A count redeeming meter (spending s + (6 + redeeming)) (post A factors p s).0 _
        s1 (omega arith) λ f _. (let h2 = resolve-spent 5 true f s1 in omega arith)

  take_pending-spent : (s : Session A) → spending (take_pending A s).1 ≤ spending s
  unfolding take_pending
  take_pending-spent s = ground arith

  answer_page-spent :
      (answer : Answer) (s : Session A)
      → spending (answer_page A tokenize factors answer s).1 ≤ spending s + (6 + redeeming)
  unfolding answer_page same_client
  answer_page-spent answer s =
      let n = spending s + (6 + redeeming) in
      let s1 = (active_now A s).1 in
      let s2 = (take_pending A s1).1 in
      let h1 = active_now-spent A count redeeming meter s in
      let h2 = take_pending-spent s1 in
      resume-spent A count redeeming meter n (active_now A s).0 _ s1 (omega arith) λ _ _.
        resume-spent A count redeeming meter n (take_pending A s1).0 _ s2 (omega arith) λ p _.
          resume-spent A count redeeming meter n (same_client A s2).0 _ s2 (omega arith) λ _ _.
            resume-spent A count redeeming meter n (check p.expect answer) _ s2 (omega arith) λ _ _.
              (let h3 = next-spent (record p { answers = p.answers ++ answer ∷ [] }) p.queue s2 in
                omega arith)

  settle_step-spent :
      (r : Result AuthStep) (s : Session A) → spending (settle_step A r s).1 ≤ spending s
  unfolding settle_step
  settle_step-spent (ok step) s = omega arith
  settle_step-spent (err e) s = fail_now-spent A count redeeming meter s

-- By any count that a send raises by one at most, a redemption by `redeeming` and a clock reading not
-- at all, and however the server redirects, one answer costs at most six requests and the redemption of one code:
-- the post of the form and the five redirects that may be followed.
pub advance-spent :
    {L : UrlLib} {M : Machine L} (A : App M) (tokenize : Text → List Token) (factors : Factors)
    (count : M.World → ℕ) (redeeming : ℕ)
    → Metered A count redeeming
    → (answer : Answer) (s : Session A)
    → count (advance A tokenize factors answer s).1.world ≤ count s.world + (6 + redeeming)
unfolding advance
advance-spent A tokenize factors count redeeming meter answer s =
    let (r, s1) = answer_page A tokenize factors answer s in
    let h1 = answer_page-spent A tokenize factors count redeeming meter answer s in
    let h2 = settle_step-spent A tokenize factors count redeeming meter r s1 in omega arith
