-- ===== src/Flow/Driver/Gate.antt =====
-- When an answer is acted on.
use himmelcloak.Prelude.{
  ◌<◌, Text, text_eq_sound, List, some, Error, Result, ok, err, resume_elim, ◌≡◌, ◌⊎◌, inl, inr,
  refl, sym, ap, ◌∙◌, arith,
}
use himmelcloak.Platform.{UrlLib}
use himmelcloak.Transport.{Machine}
use himmelcloak.Flow.Types.{Answer, AuthStep}
use himmelcloak.Flow.Expect.{check}
use himmelcloak.Flow.Classify.Scan.{Token}
use himmelcloak.Flow.Factor.{Factors}
use himmelcloak.Flow.State.{active, Pending}
use himmelcloak.Flow.State.Lifecycle.{ensure_active-ok_iff}
use himmelcloak.Flow.Session.Exchange.{active_now-same}
use himmelcloak.Flow.Session.{App, Session, active_now, fail_now}
use himmelcloak.Flow.Driver.{take_pending, same_client, answer_page, settle_step, advance}

module _ {L : UrlLib} {M : Machine L} (A : App M) where
  -- The world after the clock was read.
  abbrev pub tick : M.World → M.World
  tick w = (M.instant w).1

  -- The login is live and in time, this client started it, and the answer is one that the waiting
  -- challenge accepts.
  abbrev pub IsReady : Answer → Session A → Type 0
  IsReady answer s =
      (s.flow.lifecycle ≡ active)
      × ((M.instant s.world).0 < s.flow.deadline)
      × (s.flow.client ≡ A.login_client)
      × ((p : Pending L) × (s.flow.pending ≡ some p) × (check p.expect answer ≡ ok tt))

  active_now-still :
      (s : Session A)
      → ((active_now A s).1.world ≡ tick s.world) × ((active_now A s).1.keys ≡ s.keys)
  unfolding active_now
  active_now-still s = (refl, refl)

  active_now-in_time :
      (s : Session A)
      → (active_now A s).0 ≡ ok tt
      → (s.flow.lifecycle ≡ active) × ((M.instant s.world).0 < s.flow.deadline)
  unfolding active_now
  active_now-in_time s h = (ensure_active-ok_iff (M.instant s.world).0 s.flow).0 h

  take_pending-world :
      (s : Session A)
      → ((take_pending A s).1.world ≡ s.world)
        × ((take_pending A s).1.keys ≡ s.keys)
        × ((take_pending A s).1.flow.client ≡ s.flow.client)
  unfolding take_pending
  take_pending-world s = (ground arith, ground arith, ground arith)

  take_pending-some :
      (s : Session A) {p : Pending L} → (take_pending A s).0 ≡ ok p → s.flow.pending ≡ some p
  unfolding take_pending
  take_pending-some s h = ground arith

  same_client-ok : (s : Session A) → (same_client A s).0 ≡ ok tt → s.flow.client ≡ A.login_client
  unfolding same_client
  same_client-ok s h = text_eq_sound s.flow.client A.login_client (ground arith)

module _ {L : UrlLib} {M : Machine L} (A : App M) (tokenize : Text → List Token)
    (factors : Factors) where
  -- The answer was refused with the clock read and nothing else, or it was one to act on.
  abbrev Gated : Answer → Session A → Result AuthStep × Session A → Type 0
  Gated answer s r =
      (((e : Error) × (r.0 ≡ err e)) × (r.1.world ≡ tick A s.world) × (r.1.keys ≡ s.keys))
      ⊎ IsReady A answer s

  answer_page-gate :
      (answer : Answer) (s : Session A) → Gated answer s (answer_page A tokenize factors answer s)
  unfolding answer_page same_client
  answer_page-gate answer s =
      let s1 = (active_now A s).1 in
      let s2 = (take_pending A s1).1 in
      let (w1, k1) = active_now-still A s in
      resume_elim (Gated answer s) (active_now A s).0 _ s1 (λ e g. inl ((e, refl), w1, k1))
        (λ _ g.
          (let here = active_now-same A s g in
            let (w2, k2, c2) = take_pending-world A s1 in
            resume_elim (Gated answer s) (take_pending A s1).0 _ s2
              (λ e _. inl ((e, refl), w2 ∙ w1, k2 ∙ k1))
              (λ p t.
                resume_elim (Gated answer s) (same_client A s2).0 _ s2
                  (λ e _. inl ((e, refl), w2 ∙ w1, k2 ∙ k1))
                  (λ _ u.
                    resume_elim (Gated answer s) (check p.expect answer) _ s2
                      (λ e _. inl ((e, refl), w2 ∙ w1, k2 ∙ k1))
                      (λ _ v.
                        (let (a, b) = active_now-in_time A s g in
                          inr (
                            a,
                            b,
                            ap (λ (x : Session A). x.flow.client) (sym here)
                                ∙ sym c2
                                ∙ same_client-ok A s2 u,
                            (
                              p,
                              ap (λ (x : Session A). x.flow.pending) (sym here)
                                  ∙ take_pending-some A s1 t,
                              v,
                            ),
                          )))))))

  settle_step-gate :
      (answer : Answer) (s : Session A) (r : Result AuthStep) (s' : Session A)
      → Gated answer s (r, s')
      → (((e : Error) × ((settle_step A r s').0 ≡ err e))
          × ((settle_step A r s').1.world ≡ tick A (tick A s.world))
          × ((settle_step A r s').1.keys ≡ s.keys))
        ⊎ IsReady A answer s
  unfolding settle_step fail_now
  settle_step-gate answer s (ok step) s' (inl ((e, h), w, k)) = absurd cc
  settle_step-gate answer s (err x) s' (inl ((e, h), w, k)) = inl ((x, refl), ap (tick A) w, k)
  settle_step-gate answer s r s' (inr h) = inr h

-- An answer is acted on only when the login is active and in time, belongs to this client, and waits
-- for a challenge that accepts the answer. Otherwise the step errs, and nothing was sent, redeemed or
-- drawn: the machine is as it was but for two readings of the clock.
pub advance-gate :
    {L : UrlLib} {M : Machine L} (A : App M) (tokenize : Text → List Token) (factors : Factors)
    (answer : Answer) (s : Session A)
    → let (r, s') = advance A tokenize factors answer s in
      (((e : Error) × (r ≡ err e)) × (s'.world ≡ tick A (tick A s.world)) × (s'.keys ≡ s.keys))
      ⊎ IsReady A answer s
unfolding advance
advance-gate A tokenize factors answer s =
    let (r, s') = answer_page A tokenize factors answer s in
    settle_step-gate A tokenize factors answer s r s' (answer_page-gate A tokenize factors answer s)
