-- ===== src/Flow/Driver/Metered.antt =====
-- What the operations that the driver is made of may cost, by a count of requests.
use himmelcloak.Prelude.{
  ℕ, ◌+◌, ◌≤◌, Text, List, [], ◌∷◌, Option, none, some, Bool, not, ◌&&◌, Result, ok, err, Run,
  resume, resume_elim, if_elim, Result-cases, ◌≡◌, refl, arith,
}
use mathlib.Core.List.{map}
use mathlib.Core.Logic.{inl, inr}
use himmelcloak.Platform.{UrlLib}
use himmelcloak.Transport.{Machine, Request, Response, form_request, get_request}
use himmelcloak.Flow.Types.{Challenge, PageKind, AuthStep}
use himmelcloak.Flow.Jar.{CookieJar, lines_at}
use himmelcloak.Flow.Fetch.{
  Redirect, Fetched, repeats_request, allowed_scheme, unix_now, receive_response, send, get,
  post_form,
}
use himmelcloak.Flow.Form.{Form, check_answers, fill, submit}
use himmelcloak.Flow.State.{finish}
use himmelcloak.Flow.Session.{
  App, Session, timed, active_now, fail_now, with_jar, redeem_now, redeem_and_finish, exchange_code,
  judge_now, settle_callback, complete_at_callback,
}
use himmelcloak.Flow.Driver.{ask, beyond, turn, follow_get}

-- A count of the requests that a world has seen: one for each `send`, and at most `redeeming` for a
-- redemption of a code.
pub record Metered {L : UrlLib} {M : Machine L} (A : App M) (count : M.World → ℕ) (redeeming : ℕ)
    : Type 0 where
  pub at_instant : (w : M.World) → count (M.instant w).1 ≤ count w
  pub at_system_time : (w : M.World) → count (M.system_time w).1 ≤ count w
  pub at_send : (request : Request L) (w : M.World) → count (M.send request w).1 ≤ count w + 1
  pub at_redeem :
      (code verifier nonce : Text) (keys : A.Keys) (w : M.World)
      → count (A.redeem_code code verifier nonce (keys, w)).1.1 ≤ count w + redeeming

module _ {L : UrlLib} {M : Machine L} (A : App M) (count : M.World → ℕ) (redeeming : ℕ)
    (meter : Metered A count redeeming) where
  unix_now-count : (w : M.World) → count (unix_now M w).1 ≤ count w
  unfolding unix_now
  unix_now-count w = let h = meter.at_system_time w in ground (arith, h)

  receive_response-count :
      (url : L.Url) (jar : CookieJar L) (r : Result Response) (w : M.World)
      → count (receive_response M url jar (r, w)).1.1 ≤ count w
  unfolding receive_response
  receive_response-count url jar (ok response) w = unix_now-count w
  receive_response-count url jar (err e) w = omega arith

  send-count :
      (request : Request L) (jar : CookieJar L) (w : M.World)
      → count (send M request (jar, w)).1.1 ≤ count w + 1
  unfolding send
  send-count request jar w =
      let (now, w1) = unix_now M w in
      let given = record request { cookies = lines_at L jar request.url now } in
      let (r, w2) = M.send given w1 in
      let h1 = unix_now-count w in
      let h2 = meter.at_send given w1 in
      let h3 = receive_response-count request.url jar r w2 in
      if_elim (λ (x : Result (Fetched L) × (CookieJar L × M.World)). count x.1.1 ≤ count w + 1)
        (allowed_scheme L request.url) _ _ (omega arith) (omega arith)

  post_form-count :
      (url : L.Url) (fields : List (Text × Text)) (jar : CookieJar L) (w : M.World)
      → count (post_form M url fields (jar, w)).1.1 ≤ count w + 1
  unfolding post_form
  post_form-count url fields jar w = elim (Result-cases (form_request {L = L} url fields)) [
    | inl (request, e) ↦ rw (e, post_form) (send-count request jar w)
    | inr (x, e) ↦ rw (e, post_form) (omega arith)
  ]

  pub submit-count :
      (form : Form L) (answers : List (Text × Text)) (jar : CookieJar L) (w : M.World)
      → count (submit M form answers (jar, w)).1.1 ≤ count w + 1
  unfolding submit
  submit-count form answers jar w = elim (Result-cases (check_answers form [] answers)) [
    | inl (u, e) ↦
        rw (e, submit) (post_form-count form.action (map (fill answers) form.fields) jar w)
    | inr (x, e) ↦ rw (e, submit) (omega arith)
  ]

  -- The requests counted in a session.
  abbrev spent : Session A → ℕ
  spent s = count s.world

  -- A chain stays within a bound when its first operation and its continuation do.
  pub resume-spent :
      {B C : Type 0} (n : ℕ) (r : Result B) (k : B → Run (Session A) C) (s : Session A)
      → spent s ≤ n
      → ((b : B) → r ≡ ok b → spent (k b s).1 ≤ n)
      → spent (resume r k s).1 ≤ n
  resume-spent n (ok b) k s h g = g b refl
  resume-spent n (err e) k s h g = h

  pub active_now-spent : (s : Session A) → spent (active_now A s).1 ≤ spent s
  unfolding active_now
  active_now-spent s = meter.at_instant s.world

  pub fail_now-spent : (s : Session A) → spent (fail_now A s) ≤ spent s
  unfolding fail_now
  fail_now-spent s = meter.at_instant s.world

  redeem_and_finish-spent :
      (code : Text) (s : Session A) → spent (redeem_and_finish A code s).1 ≤ spent s + redeeming
  unfolding redeem_and_finish timed redeem_now
  redeem_and_finish-spent code s =
      let s1 = (active_now A s).1 in
      let s2 = (redeem_now A code s1).1 in
      let h1 = active_now-spent s in
      let h2 = meter.at_redeem code s1.flow.pkce_verifier s1.flow.nonce s1.keys s1.world in
      let h3 = meter.at_instant s2.world in
      let n = spent s + redeeming in
      resume-spent n (active_now A s).0 _ s1 (omega arith) λ _ _.
        resume-spent n (redeem_now A code s1).0 _ s2 (omega arith) λ _ _.
          resume-spent n (timed A finish s2).0 _ (timed A finish s2).1 (omega arith)
            λ _ _. omega arith

  exchange_code-spent :
      (code : Text) (s : Session A) → spent (exchange_code A code s).1 ≤ spent s + redeeming
  unfolding exchange_code
  exchange_code-spent code s =
      let h1 = redeem_and_finish-spent code s in
      let h2 = fail_now-spent (redeem_and_finish A code s).1 in omega arith

  -- Only a redirect to the callback costs a redemption.
  CallbackCost : Session A → Result (Option AuthStep) × Session A → Type 0
  CallbackCost s (ok none, s') = spent s' ≤ spent s
  CallbackCost s (ok (some step), s') = spent s' ≤ spent s + redeeming
  CallbackCost s (err e, s') = spent s' ≤ spent s + redeeming

  settle_callback-spent :
      (v : Result (Option Text)) (s0 s : Session A)
      → spent s ≤ spent s0
      → CallbackCost s0 (settle_callback A v s)
  unfolding settle_callback CallbackCost
  settle_callback-spent (ok (some code)) s0 s h =
      let g = exchange_code-spent code s in
      resume_elim (CallbackCost s0) (exchange_code A code s).0 _ (exchange_code A code s).1
        (λ _ _. omega arith) (λ _ _. omega arith)
  settle_callback-spent (ok none) s0 s h = h
  settle_callback-spent (err e) s0 s h = let g = fail_now-spent s in omega arith

  complete_at_callback-spent :
      (r : Redirect L) (s : Session A) → CallbackCost s (complete_at_callback A r s)
  unfolding complete_at_callback CallbackCost judge_now timed
  complete_at_callback-spent r s =
      let s1 = (active_now A s).1 in
      let h1 = active_now-spent s in
      resume_elim (CallbackCost s) (active_now A s).0 _ s1 (λ _ _. omega arith)
        (λ _ _.
          (let (v, s2) = judge_now A r s1 in
            let h2 = meter.at_instant s1.world in settle_callback-spent v s s2 (omega arith)))

  beyond-spent :
      (follow : Redirect L → Run (Session A) AuthStep) (r : Redirect L) (n : ℕ) (s0 : Session A)
      (c : Result (Option AuthStep)) (s : Session A)
      → CallbackCost s0 (c, s)
      → spent s0 + redeeming ≤ n
      → ((s' : Session A) → spent s' ≤ spent s0 → spent (follow r s').1 ≤ n)
      → spent (resume c (beyond A follow r) s).1 ≤ n
  unfolding beyond CallbackCost
  beyond-spent follow r n s0 (err e) s c h g = omega arith
  beyond-spent follow r n s0 (ok (some step)) s c h g = omega arith
  beyond-spent follow r n s0 (ok none) s c h g =
      if_elim (λ (x : Result AuthStep × Session A). spent x.1 ≤ n) (not r.same_origin) _ _
        (omega arith) (g s c)

  pub turn-spent :
      (follow : Redirect L → Run (Session A) AuthStep) (posted : Bool) (r : Redirect L) (n : ℕ)
      (s : Session A)
      → spent s + redeeming ≤ n
      → ((s' : Session A) → spent s' ≤ spent s → spent (follow r s').1 ≤ n)
      → spent (turn A follow posted r s).1 ≤ n
  unfolding turn
  turn-spent follow posted r n s h g =
      if_elim (λ (m : Run (Session A) AuthStep). spent (m s).1 ≤ n)
        (posted && repeats_request r.kind) _ _ (omega arith)
        (let (c, s') = complete_at_callback A r s in
          beyond-spent follow r n s c s' (complete_at_callback-spent r s) h g)

  pub follow_get-spent : (r : Redirect L) (s : Session A) → spent (follow_get A r s).1 ≤ spent s + 1
  unfolding follow_get with_jar get
  follow_get-spent r s = send-count (get_request r.location) s.flow.jar s.world

  pub ask-spent :
      (kind : PageKind) (form : Form L) (asked : List Challenge) (s : Session A)
      → spent (ask A kind form asked s).1 ≤ spent s
  unfolding ask
  ask-spent kind form [] s = omega arith
  ask-spent kind form (c ∷ queue) s = omega arith
