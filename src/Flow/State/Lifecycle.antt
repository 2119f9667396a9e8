-- ===== src/Flow/State/Lifecycle.antt =====
-- The lifecycle of a login: what ends it, and that an ended login holds nothing.
use himmelcloak.Prelude.{
  ℕ, ◌<◌, List, [], ◌∷◌, none, if◌then◌else◌, Error, ok, err, ◌≡◌, ◌≢◌, ◌⊎◌, ◌↔◌, Result-cases, inl,
  inr, refl, sym, ◌∙◌, arith,
}
use himmelcloak.Platform.{UrlLib}
use himmelcloak.Flow.Jar.{empty_jar}
use himmelcloak.Flow.State.{
  FlowState, active, finished, AuthFlow, cancel, is_active, is_live, ensure_active, finish, fail,
}

-- An operation on a login, with the time at which it reads the clock.
pub data Operation : Type 0 where
  cancel_at is_active_at ensure_active_at finish_at fail_at : ℕ → Operation

module _ {L : UrlLib} where
  pub apply : Operation → AuthFlow L → AuthFlow L
  apply (cancel_at t) f = cancel t f
  apply (is_active_at t) f = (is_active t f).1
  apply (ensure_active_at t) f = (ensure_active t f).1
  apply (finish_at t) f = (finish t f).1
  apply (fail_at t) f = fail t f

  pub apply_all : List Operation → AuthFlow L → AuthFlow L
  apply_all [] f = f
  apply_all (o ∷ os) f = apply_all os (apply o f)

  -- A login that has ended holds no cookie, no page and no secret.
  pub record IsWiped (f : AuthFlow L) : Type 0 where
    pub no_cookies : f.jar ≡ empty_jar
    pub no_page : f.pending ≡ none
    pub no_verifier : f.pkce_verifier ≡ []
    pub no_state : f.oauth_state ≡ []
    pub no_nonce : f.nonce ≡ []

  abbrev pub WipedWhenEnded : AuthFlow L → Type 0
  WipedWhenEnded f = f.lifecycle ≢ active → IsWiped f

  apply-WipedWhenEnded :
      (o : Operation) (f : AuthFlow L) → WipedWhenEnded f → WipedWhenEnded (apply o f)
  unfolding apply cancel is_active ensure_active finish fail
  apply-WipedWhenEnded (cancel_at t) f h n = ground (arith, h)
  apply-WipedWhenEnded (is_active_at t) f h n = ground (arith, h)
  apply-WipedWhenEnded (ensure_active_at t) f h n = ground (arith, h)
  apply-WipedWhenEnded (finish_at t) f h n = ground (arith, h)
  apply-WipedWhenEnded (fail_at t) f h n = ground (arith, h)

  -- However a login that is active or wiped is used, and whenever the clock is read: once it is no longer active, its cookies,
  -- the page that waited and all three secrets are gone.
  pub apply_all-WipedWhenEnded :
      (os : List Operation) (f : AuthFlow L) → WipedWhenEnded f → WipedWhenEnded (apply_all os f)
  unfolding apply_all
  apply_all-WipedWhenEnded [] f h = h
  apply_all-WipedWhenEnded (o ∷ os) f h =
      apply_all-WipedWhenEnded os (apply o f) (apply-WipedWhenEnded o f h)

  apply_ended :
      (o : Operation) (f : AuthFlow L) → f.lifecycle ≢ active → (apply o f).lifecycle ≡ f.lifecycle
  unfolding apply cancel is_active ensure_active finish fail
  apply_ended (cancel_at t) f h = ground (arith, h)
  apply_ended (is_active_at t) f h = ground (arith, h)
  apply_ended (ensure_active_at t) f h = ground (arith, h)
  apply_ended (finish_at t) f h = ground (arith, h)
  apply_ended (fail_at t) f h = ground (arith, h)

  -- The state in which a login ended is final: no later use changes it, so a failed login is never
  -- reported as finished and a finished one never as failed.
  pub apply_all_ended :
      (os : List Operation) (f : AuthFlow L)
      → f.lifecycle ≢ active
      → (apply_all os f).lifecycle ≡ f.lifecycle
  unfolding apply_all
  apply_all_ended [] f h = refl
  apply_all_ended (o ∷ os) f h =
      let same = apply_ended o f h in apply_all_ended os (apply o f) (λ q. h (sym same ∙ q)) ∙ same

  -- The gate opens exactly for an active login before its deadline.
  pub ensure_active-ok_iff :
      (now : ℕ) (f : AuthFlow L)
      → ((ensure_active now f).0 ≡ ok tt) ↔ ((f.lifecycle ≡ active) × (now < f.deadline))
  unfolding ensure_active
  ensure_active-ok_iff now f = (λ h. ground arith, λ h. ground arith)

  -- A login is marked finished exactly when it is still active before its deadline; otherwise an error
  -- tells that it ended, and a login that ran past its deadline has expired.
  pub finish_lem :
      (now : ℕ) (f : AuthFlow L)
      → ((f.lifecycle ≡ active)
          × (now < f.deadline)
          × ((finish now f).0 ≡ ok tt)
          × ((finish now f).1.lifecycle ≡ finished))
        ⊎ (((e : Error) × ((finish now f).0 ≡ err e))
            × ((finish now f).1.lifecycle
                ≡ (if is_live f.lifecycle then FlowState.expired else f.lifecycle)))
  unfolding finish
  finish_lem now f = elim (Result-cases (ensure_active now f).0) [
    | inl (u, e) ↦ inl (ground arith, ground arith, ground arith, ground arith)
    | inr (x, e) ↦ inr ((x, ground arith), ground arith)
  ]
