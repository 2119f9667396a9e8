-- ===== src/Flow/Session/Exchange.antt =====
-- How a login completes: the code is redeemed with the login's own secrets, and the login is over.
use himmelcloak.Prelude.{
  ap, ℕ, Text, Option, none, some, Result, ok, err, ◌≡◌, ◌≢◌, refl, arith, resume, pure, WhenOk,
  WhenOk-intro, WhenOk-resume, WhenOk-elim,
}
use himmelcloak.Platform.{UrlLib}
use himmelcloak.Transport.{Machine}
use himmelcloak.Flow.Types.{AuthStep, challenge, complete, failed}
use himmelcloak.Flow.Expect.{of}
use himmelcloak.Flow.Fetch.{Redirect}
use himmelcloak.Flow.State.{active, finished, Pending, AuthFlow, fail, ensure_active, finish}
use himmelcloak.Flow.State.Lifecycle.{IsWiped}
use himmelcloak.Flow.Session.{
  App, Session, timed, redeem_and_finish, active_now, fail_now, redeem_now, exchange_code,
  settle_callback, judge_now, complete_at_callback,
}

module _ {L : UrlLib} where
  pub fail-IsWiped : (now : ℕ) (f : AuthFlow L) → IsWiped (fail now f)
  unfolding fail
  fail-IsWiped now f = record {
    no_cookies = refl;
    no_page = refl;
    no_verifier = refl;
    no_state = refl;
    no_nonce = refl;
  }

  fail-over : (now : ℕ) (f : AuthFlow L) → (fail now f).lifecycle ≢ active
  unfolding fail
  fail-over now f h = ground arith

  finish-finished :
      (now : ℕ) (f : AuthFlow L) → (finish now f).0 ≡ ok tt → (finish now f).1.lifecycle ≡ finished
  unfolding finish
  finish-finished now f h = ground arith

  fail-finished :
      (now : ℕ) (f : AuthFlow L) → f.lifecycle ≡ finished → (fail now f).lifecycle ≡ finished
  unfolding fail
  fail-finished now f h = ground arith

  ensure-active :
      (now : ℕ) (f : AuthFlow L)
      → (ensure_active now f).0 ≡ ok tt
      → (ensure_active now f).1.lifecycle ≡ active
  unfolding ensure_active
  ensure-active now f h = ground arith

module _ {L : UrlLib} where
  ensure_active-same :
      (now : ℕ) (f : AuthFlow L) → (ensure_active now f).0 ≡ ok tt → (ensure_active now f).1 ≡ f
  unfolding ensure_active
  ensure_active-same now f h = ground arith

module _ {L : UrlLib} {M : Machine L} (A : App M) where
  pub active_now-same :
      (s : Session A)
      → (active_now A s).0 ≡ ok tt
      → (active_now A s).1 ≡ record s { world = (M.instant s.world).1 }
  unfolding active_now
  active_now-same s h =
      ap (λ (f : AuthFlow L). record { flow = f; keys = s.keys; world = (M.instant s.world).1 })
        (ensure_active-same (M.instant s.world).0 s.flow h)

  -- The login is over, and holds nothing.
  abbrev pub IsOver : Session A → Type 0
  IsOver s = (s.flow.lifecycle ≢ active) × IsWiped s.flow

  pub fail_now-IsOver : (s : Session A) → IsOver (fail_now A s)
  unfolding fail_now
  fail_now-IsOver s =
      (fail-over (M.instant s.world).0 s.flow, fail-IsWiped (M.instant s.world).0 s.flow)

  pub active_now-active :
      (s : Session A) → (active_now A s).0 ≡ ok tt → (active_now A s).1.flow.lifecycle ≡ active
  unfolding active_now
  active_now-active s h = ensure-active (M.instant s.world).0 s.flow h

  Finished : {B : Type 0} → B → Session A → Type 0
  Finished _ s = s.flow.lifecycle ≡ finished

  redeem_and_finish-Finished :
      (code : Text) (s : Session A) → WhenOk Finished (redeem_and_finish A code s)
  unfolding redeem_and_finish timed Finished
  redeem_and_finish-Finished code s =
      WhenOk-resume Finished (active_now A s).0 _ (active_now A s).1 λ _ _.
        (let s1 = (active_now A s).1 in
          WhenOk-resume Finished (redeem_now A code s1).0 _ (redeem_now A code s1).1 λ t _.
            (let s2 = (redeem_now A code s1).1 in
              WhenOk-resume Finished (timed A finish s2).0 _ (timed A finish s2).1
                λ _ e. finish-finished (M.instant s2.world).0 s2.flow e))

  exchange_code-Finished : (code : Text) (s : Session A) → WhenOk Finished (exchange_code A code s)
  unfolding exchange_code fail_now Finished
  exchange_code-Finished code s =
      let (r, done) = redeem_and_finish A code s in
      WhenOk-intro Finished r (fail_now A done) λ _ e.
        fail-finished (M.instant done.world).0 done.flow
          (WhenOk-elim Finished r done (redeem_and_finish-Finished code s) e)

  -- What a step leaves: a challenge leaves the login active and waiting for exactly that challenge's
  -- answer; any other step leaves it over, and a completed login is marked finished.
  abbrev pub Reached : AuthStep → Session A → Type 0
  Reached (challenge c) s =
      (s.flow.lifecycle ≡ active)
      × ((p : Pending L) × (s.flow.pending ≡ some p) × (p.expect ≡ of c))
  Reached (complete t) s = (s.flow.lifecycle ≡ finished) × IsWiped s.flow
  Reached (failed reason) s = IsOver s

  abbrev pub ReachedIfAny : Option AuthStep → Session A → Type 0
  ReachedIfAny none s = Unit
  ReachedIfAny (some step) s = Reached step s

  exchange_code-completes :
      (code : Text) (s : Session A)
      → WhenOk ReachedIfAny (
          resume
            (exchange_code A code s).0
            (λ t. pure (some (complete t)))
            (exchange_code A code s).1)
  unfolding exchange_code Finished
  exchange_code-completes code s =
      let (r, s') = exchange_code A code s in
      WhenOk-resume ReachedIfAny r _ s' λ t e. (
        WhenOk-elim Finished r s' (exchange_code-Finished code s) e,
        (fail_now-IsOver (redeem_and_finish A code s).1).1,
      )

  settle_callback-Reached :
      (v : Result (Option Text)) (s : Session A) → WhenOk ReachedIfAny (settle_callback A v s)
  unfolding settle_callback
  settle_callback-Reached (ok (some code)) s = exchange_code-completes code s
  settle_callback-Reached (ok none) s = tt
  settle_callback-Reached (err e) s = tt

  pub complete_at_callback-Reached :
      (r : Redirect L) (s : Session A) → WhenOk ReachedIfAny (complete_at_callback A r s)
  unfolding complete_at_callback
  complete_at_callback-Reached r s =
      WhenOk-resume ReachedIfAny (active_now A s).0 _ (active_now A s).1
        λ _ _. (let (v, s') = judge_now A r (active_now A s).1 in settle_callback-Reached v s')
