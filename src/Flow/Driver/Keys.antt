-- ===== src/Flow/Driver/Keys.antt =====
-- The driver changes the application's keys only by redeeming a code.
use himmelcloak.Prelude.{
  ℕ, zero, suc, Text, List, [], ◌∷◌, ◌++◌, Option, none, some, Bool, true, false, not, ◌==◌, ◌&&◌,
  unsupported_factor, Result, ok, err, ok_or, Run, resume, Keeps, keeps-resume, Keeps-if, if_elim,
  Option-cases, inl, inr,
}
use himmelcloak.Platform.{UrlLib}
use himmelcloak.Transport.{Machine}
use himmelcloak.Flow.Types.{Challenge, Answer, PageKind, AuthStep}
use himmelcloak.Flow.Expect.{check}
use himmelcloak.Flow.Fetch.{Redirect, Fetched, page, redirect, repeats_request, get}
use himmelcloak.Flow.Classify.Scan.{Token}
use himmelcloak.Flow.Classify.Kind.{rejection}
use himmelcloak.Flow.Form.{Form, extract}
use himmelcloak.Flow.Factor.{Factors}
use himmelcloak.Flow.State.{Pending, finish}
use himmelcloak.Flow.Session.{
  Start, App, Session, timed, active_now, fail_now, with_jar, redeem_now, redeem_and_finish,
  exchange_code, judge_now, settle_callback, complete_at_callback,
}
use himmelcloak.Flow.Driver.{
  ask, beyond, turn, hand_over, present, arrive, follow_get, resolve, take_pending, same_client,
  next, post, answer_page, first_page, settle_step, begin, advance,
}

module _ {L : UrlLib} {M : Machine L} (A : App M) (Q : A.Keys → Type 0)
    (redeeming : (code verifier nonce : Text) (keys : A.Keys) (w : M.World)
      → Q keys
      → Q (A.redeem_code code verifier nonce (keys, w)).1.0) where
  abbrev KeepsKeys : {B : Type 0} → Run (Session A) B → Type 0
  KeepsKeys op = Keeps (λ (s : Session A). Q s.keys) op

  chain :
      {B C : Type 0} (r : Result B) (k : B → Run (Session A) C) (s : Session A)
      → Q s.keys
      → ((b : B) → Q (k b s).1.keys)
      → Q (resume r k s).1.keys
  chain r k s q h = keeps-resume (λ (s : Session A). Q s.keys) r k s q h

  redeem_and_finish-keys : (code : Text) → KeepsKeys (redeem_and_finish A code)
  unfolding redeem_and_finish timed redeem_now active_now
  redeem_and_finish-keys code s q =
      let (r1, s1) = active_now A s in
      let (r2, s2) = redeem_now A code s1 in
      let q2 = redeeming code s1.flow.pkce_verifier s1.flow.nonce s1.keys s1.world q in
      chain r1 _ s1 q
        λ _. chain r2 _ s2 q2 λ _. chain (timed A finish s2).0 _ (timed A finish s2).1 q2 λ _. q2

  exchange_code-keys : (code : Text) → KeepsKeys (exchange_code A code)
  unfolding exchange_code fail_now
  exchange_code-keys code s q = redeem_and_finish-keys code s q

  settle_callback-keys : (v : Result (Option Text)) → KeepsKeys (settle_callback A v)
  unfolding settle_callback fail_now
  settle_callback-keys (ok (some code)) s q =
      let (r, s1) = exchange_code A code s in
      let q1 = exchange_code-keys code s q in chain r _ s1 q1 λ _. q1
  settle_callback-keys (ok none) s q = q
  settle_callback-keys (err e) s q = q

  complete_at_callback-keys : (r : Redirect L) → KeepsKeys (complete_at_callback A r)
  unfolding complete_at_callback judge_now timed active_now
  complete_at_callback-keys r s q =
      let (x, s1) = active_now A s in
      let (v, s2) = judge_now A r s1 in chain x _ s1 q λ _. settle_callback-keys v s2 q

  beyond-keys :
      (follow : Redirect L → Run (Session A) AuthStep) (r : Redirect L)
      → KeepsKeys (follow r)
      → (o : Option AuthStep) → KeepsKeys (beyond A follow r o)
  unfolding beyond
  beyond-keys follow r h (some step) s q = q
  beyond-keys follow r h none s q =
      if_elim (λ (x : Result AuthStep × Session A). Q x.1.keys) (not r.same_origin) _ _ q (h s q)

  turn-keys :
      (follow : Redirect L → Run (Session A) AuthStep) (posted : Bool) (r : Redirect L)
      → KeepsKeys (follow r)
      → KeepsKeys (turn A follow posted r)
  unfolding turn
  turn-keys follow posted r h =
      Keeps-if (λ (s : Session A). Q s.keys) (posted && repeats_request r.kind) _ _ (λ s q. q)
        λ s q.
          (let (c, s1) = complete_at_callback A r s in
            let q1 = complete_at_callback-keys r s q in
            chain c (beyond A follow r) s1 q1 λ o. beyond-keys follow r h o s1 q1)

module _ {L : UrlLib} {M : Machine L} (A : App M) (Q : A.Keys → Type 0)
    (redeeming : (code verifier nonce : Text) (keys : A.Keys) (w : M.World)
      → Q keys
      → Q (A.redeem_code code verifier nonce (keys, w)).1.0)
    (tokenize : Text → List Token) (factors : Factors) where
  ask-keys :
      (kind : PageKind) (form : Form L) (asked : List Challenge)
      → KeepsKeys A Q redeeming (ask A kind form asked)
  unfolding ask
  ask-keys kind form [] s q = q
  ask-keys kind form (c ∷ queue) s q = q

  hand_over-keys :
      (kind : PageKind) (form : Form L) (verdict : Option Text)
      → KeepsKeys A Q redeeming (hand_over A factors kind form verdict)
  unfolding hand_over fail_now
  hand_over-keys kind form (some reason) s q = q
  hand_over-keys kind form none s q =
      chain A Q redeeming (ok_or (factors kind) unsupported_factor) _ s q λ factor.
        chain A Q redeeming (factor.challenges kind s.flow.login_hint) _ s q
          λ asked. ask-keys kind form asked s q

  arrive-keys :
      (follow : Redirect L → Run (Session A) AuthStep) (posted : Bool) (fetched : Fetched L)
      → ((r : Redirect L) → KeepsKeys A Q redeeming (follow r))
      → KeepsKeys A Q redeeming (arrive A tokenize factors follow posted fetched)
  unfolding arrive present
  arrive-keys follow posted (redirect r) h = turn-keys A Q redeeming follow posted r (h r)
  arrive-keys follow posted (page p) h =
      Keeps-if (λ (s : Session A). Q s.keys) (p.status == 200) _ _
        (λ s q.
          chain A Q redeeming (extract tokenize p) _ s q
            λ r. hand_over-keys r.0 r.1 (rejection r.0) s q)
        λ s q. q

  resolve-keys :
      (left : ℕ) (posted : Bool) (fetched : Fetched L)
      → KeepsKeys A Q redeeming (resolve A tokenize factors left posted fetched)
  unfolding resolve active_now timed follow_get with_jar
  resolve-keys zero posted fetched s q =
      let (r, s1) = active_now A s in
      chain A Q redeeming r _ s1 q λ _. arrive-keys _ posted fetched (λ r s q. q) s1 q
  resolve-keys (suc left) posted fetched s q =
      let (r, s1) = active_now A s in
      chain A Q redeeming r _ s1 q λ _.
        arrive-keys _ posted fetched
          (λ r s q.
            let (x, s2) = follow_get A r s in
            chain A Q redeeming x _ s2 q λ f. resolve-keys left false f s2 q)
          s1 q

  post-keys : (p : Pending L) → KeepsKeys A Q redeeming (post A factors p)
  unfolding post with_jar
  post-keys p s q =
      chain A Q redeeming (ok_or (factors p.kind) unsupported_factor) _ s q
        λ factor. chain A Q redeeming (factor.fields p.kind p.answers) _ s q λ fields. q

  next-keys :
      (p : Pending L) (queue : List Challenge)
      → KeepsKeys A Q redeeming (next A tokenize factors p queue)
  unfolding next
  next-keys p (c ∷ queue) s q = q
  next-keys p [] s q =
      let (r, s1) = post A factors p s in
      let q1 = post-keys p s q in chain A Q redeeming r _ s1 q1 λ f. resolve-keys 5 true f s1 q1

  take_pending-keys : KeepsKeys A Q redeeming (take_pending A)
  unfolding take_pending
  take_pending-keys s q = elim (Option-cases s.flow.pending) [
    | inl e ↦ rw (e, take_pending) q
    | inr (p, e) ↦ rw (e, take_pending) q
  ]

  answer_page-keys :
      (answer : Answer) → KeepsKeys A Q redeeming (answer_page A tokenize factors answer)
  unfolding answer_page same_client active_now timed
  answer_page-keys answer s q =
      let (r1, s1) = active_now A s in
      let (r2, s2) = take_pending A s1 in
      let q2 = take_pending-keys s1 q in
      chain A Q redeeming r1 _ s1 q λ _. chain A Q redeeming r2 _ s2 q2 λ p.
        chain A Q redeeming (same_client A s2).0 _ s2 q2 λ _.
          chain A Q redeeming (check p.expect answer) _ s2 q2
            λ _. next-keys (record p { answers = p.answers ++ answer ∷ [] }) p.queue s2 q2

  first_page-keys : (start : Start) → KeepsKeys A Q redeeming (first_page A tokenize factors start)
  unfolding first_page with_jar active_now timed
  first_page-keys start s q =
      let (r1, s1) = active_now A s in
      chain A Q redeeming r1 _ s1 q λ _.
        chain A Q redeeming
          (A.authorize start s1.flow.pkce_verifier s1.flow.oauth_state s1.flow.nonce) _ s1 q
          λ url.
            (let s2 : Session A = record s1 {
              flow = record s1.flow { client = A.login_client; login_hint = start.login_hint };
            } in
              let (x, s3) = with_jar A (get M url) s2 in
              chain A Q redeeming x _ s3 q λ f. resolve-keys 5 false f s3 q)

  settle_step-keys : (r : Result AuthStep) → KeepsKeys A Q redeeming (settle_step A r)
  unfolding settle_step fail_now
  settle_step-keys (ok step) s q = q
  settle_step-keys (err e) s q = q

  -- What every redemption keeps of the keys, a first step keeps, and so does a further one, whatever the
  -- caller and the server answer, and whether it succeeds or fails.
  pub begin-keys : (start : Start) → KeepsKeys A Q redeeming (begin A tokenize factors start)
  unfolding begin
  begin-keys start s q =
      let (r, s1) = first_page A tokenize factors start s in
      settle_step-keys r s1 (first_page-keys start s q)

  pub advance-keys : (answer : Answer) → KeepsKeys A Q redeeming (advance A tokenize factors answer)
  unfolding advance
  advance-keys answer s q =
      let (r, s1) = answer_page A tokenize factors answer s in
      settle_step-keys r s1 (answer_page-keys answer s q)
