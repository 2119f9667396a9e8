-- ===== src/Flow/Session/Redeem.antt =====
-- What a completed login redeemed.
use himmelcloak.Prelude.{
  ℕ, Text, Option, none, some, Result, ok, err, WhenOk, WhenOk-resume, WhenOk-elim, ◌≡◌, refl, sym,
  ap, ◌∙◌,
}
use mathlib.Core.Path.{subst}
use himmelcloak.Platform.{UrlLib}
use himmelcloak.Transport.{Machine}
use himmelcloak.Flow.Types.{Tokens, AuthStep, complete}
use himmelcloak.Flow.Fetch.{Redirect}
use himmelcloak.Flow.State.{AuthFlow, finish}
use himmelcloak.Flow.Callback.{callback}
use himmelcloak.Flow.Callback.State.{callback-accepts}
use himmelcloak.Flow.Session.{
  App, Session, timed, active_now, redeem_now, redeem_and_finish, exchange_code, settle_callback,
  judge_now, complete_at_callback,
}
use himmelcloak.Flow.Session.Exchange.{active_now-same}

module _ {L : UrlLib} {M : Machine L} (A : App M) where
  -- The tokens came from redeeming the code with the login's own verifier and nonce.
  abbrev pub RedeemedFor : AuthFlow L → A.Keys → Text → Tokens → Type 0
  RedeemedFor f keys code t =
      (w : M.World) × ((A.redeem_code code f.pkce_verifier f.nonce (keys, w)).0 ≡ ok t)

  redeem_and_finish-Redeemed :
      (code : Text) (s : Session A)
      → WhenOk (λ t (s' : Session A). RedeemedFor s.flow s.keys code t) (redeem_and_finish A code s)
  unfolding redeem_and_finish redeem_now
  redeem_and_finish-Redeemed code s =
      let P : Tokens → Session A → Type 0 = λ t s'. RedeemedFor s.flow s.keys code t in
      let s1 = (active_now A s).1 in
      WhenOk-resume P (active_now A s).0 _ s1 λ _ a.
        (let same = active_now-same A s a in
          WhenOk-resume P (redeem_now A code s1).0 _ (redeem_now A code s1).1 λ t e.
            (let (r2, s3) = timed A finish (redeem_now A code s1).1 in
              WhenOk-resume P r2 _ s3 λ _ _.
                subst (λ (x : Session A). RedeemedFor x.flow x.keys code t) same (s1.world, e)))

  exchange_code-Redeemed :
      (code : Text) (s : Session A) {t : Tokens}
      → (exchange_code A code s).0 ≡ ok t
      → RedeemedFor s.flow s.keys code t
  unfolding exchange_code
  exchange_code-Redeemed code s {t} h =
      let (r, s') = redeem_and_finish A code s in
      WhenOk-elim (λ t (s' : Session A). RedeemedFor s.flow s.keys code t) r s'
        (redeem_and_finish-Redeemed code s) h

  -- What completing at a callback says of the login before.
  abbrev pub Completed : Redirect L → Session A → AuthStep → Type 0
  Completed r s step =
      (now : ℕ) × (code : Text) × (t : Tokens) × ((callback now r A.redirect_uri s.flow).0
        ≡ ok (some code))
      × RedeemedFor s.flow s.keys code t
      × (step ≡ complete t)

  abbrev CompletedIfAny : Redirect L → Session A → Option AuthStep → Session A → Type 0
  CompletedIfAny r s none s' = Unit
  CompletedIfAny r s (some step) s' = Completed r s step

  settle_callback-Completed :
      (r : Redirect L) (s : Session A) (now : ℕ) (v : Result (Option Text)) (s2 : Session A)
      → (callback now r A.redirect_uri s.flow).0 ≡ v
      → ((code : Text) → v ≡ ok (some code) → (s2.flow ≡ s.flow) × (s2.keys ≡ s.keys))
      → WhenOk (CompletedIfAny r s) (settle_callback A v s2)
  unfolding settle_callback
  settle_callback-Completed r s now (err e) s2 q k = tt
  settle_callback-Completed r s now (ok none) s2 q k = tt
  settle_callback-Completed r s now (ok (some code)) s2 q k =
      let (x, s3) = exchange_code A code s2 in
      WhenOk-resume (CompletedIfAny r s) x _ s3 λ t e.
        (let (f, g) = k code refl in
          (
            now,
            code,
            t,
            q,
            subst (λ x. RedeemedFor x s.keys code t) f
                (subst (λ x. RedeemedFor s2.flow x code t) g (exchange_code-Redeemed code s2 e)),
            refl,
          ))

  judge_now-still :
      (r : Redirect L) (s : Session A)
      → ((judge_now A r s).0 ≡ (callback (M.instant s.world).0 r A.redirect_uri s.flow).0)
        × ((judge_now A r s).1.flow ≡ (callback (M.instant s.world).0 r A.redirect_uri s.flow).1)
        × ((judge_now A r s).1.keys ≡ s.keys)
  unfolding judge_now timed
  judge_now-still r s = (refl, refl, refl)

  -- A login completes only by redeeming the one code of a callback that it accepts, with its own
  -- verifier and nonce: the step that a redirect yields is the completion with the tokens of that
  -- redemption.
  pub complete_at_callback-Completed :
      (r : Redirect L) (s : Session A) {step : AuthStep}
      → (complete_at_callback A r s).0 ≡ ok (some step)
      → Completed r s step
  unfolding complete_at_callback
  complete_at_callback-Completed r s {step} h =
      let (c, s9) = complete_at_callback A r s in
      WhenOk-elim (CompletedIfAny r s) c s9
        (WhenOk-resume (CompletedIfAny r s) (active_now A s).0 _ (active_now A s).1 λ _ a. judged a)
        h
    where
      judged :
          (active_now A s).0 ≡ ok tt
          → WhenOk (CompletedIfAny r s) (
              settle_callback A
                (judge_now A r (active_now A s).1).0
                (judge_now A r (active_now A s).1).1)
      judged a =
          let s1 = (active_now A s).1 in
          let same = active_now-same A s a in
          let now = (M.instant s1.world).0 in
          let (v, s2) = judge_now A r s1 in
          let (b, f, k) = judge_now-still r s1 in
          let flow_same : s1.flow ≡ s.flow = ap (λ (x : Session A). x.flow) same in
          let keys_same : s1.keys ≡ s.keys = ap (λ (x : Session A). x.keys) same in
          settle_callback-Completed r s now v s2
            (ap (λ (x : AuthFlow L). (callback now r A.redirect_uri x).0) (sym flow_same) ∙ sym b)
            λ code e. (
              f ∙ (callback-accepts now r A.redirect_uri s1.flow (sym b ∙ e)).8 ∙ flow_same,
              k ∙ keys_same,
            )
