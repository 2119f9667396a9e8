-- ===== src/Client/Sessions.antt =====
-- What the operations of a client promise of a session.
use himmelcloak.Prelude.{
  Text, text, is_text, is_text_sound, is_text_self, List, [], ◌∷◌, Option, none, some, true, false,
  Error, token_validation, ok, err, ok_or, ensure, and_then-eq_ok, WhenOk, WhenOk-resume,
  WhenOk-elim, WhenOk-intro, Bool-cases, inl, inr, and_elim, ◌&&◌, is_some, ◌≡◌, ◌↔◌, ◌⊎◌, refl, ap,
  ◌∙◌, arith,
}
use himmelcloak.Platform.{UrlLib}
use himmelcloak.Transport.{Machine}
use himmelcloak.Standard as Grant
use himmelcloak.Token.Value.{Value, text_field}
use himmelcloak.Token.Claims.Checked.{ensure-ok, ok_or-ok}
use himmelcloak.Token.Discover.{Codec}
use himmelcloak.Flow.Types.{Tokens}
use himmelcloak.Client.{
  Client, session_subject, mark, remote, verify_tokens, grant, sign_in, redeem_code, user_claims,
  refresh_tokens, recheck, userinfo,
}
use himmelcloak.Client.Verified.{SignedFor, verify_tokens-SignedFor}

module _ {L : UrlLib} (app : Client L) where
  -- The tokens are a session of this client for the subject.
  abbrev pub IsSession : Text → Tokens → Type 0
  IsSession subject t =
      (t.verified_subject ≡ some subject)
      × (t.verified_issuer ≡ some app.metadata.issuer)
      × (t.verified_client_id ≡ some app.config.client_id)

  -- A client takes tokens for a session of a subject exactly when they are marked with that subject, its
  -- issuer and its own identifier.
  pub session_subject_iff :
      (t : Tokens) (subject : Text) → (session_subject app t ≡ ok subject) ↔ IsSession subject t
  unfolding session_subject
  session_subject_iff t subject = (sound, complete)
    where
      sound : session_subject app t ≡ ok subject → IsSession subject t
      sound h =
          let (found, a, h1) = and_then-eq_ok (ok_or t.verified_subject _) _ h in
          elim (Bool-cases (
            is_text t.verified_issuer app.metadata.issuer
            && is_text t.verified_client_id app.config.client_id)) [
              | inr e ↦ absurd (ground arith)
              | inl e ↦
                  (let same : found ≡ subject = ground arith in
                    let (p, q) = and_elim _ _ e in
                    (ok_or-ok _ _ a ∙ ap some same, is_text_sound _ _ p, is_text_sound _ _ q))
            ]

      complete : IsSession subject t → session_subject app t ≡ ok subject
      complete (a, b, c) =
          rw (a, b, c, is_text_self app.metadata.issuer, is_text_self app.config.client_id) refl

module _ {L : UrlLib} (M : Machine L) (K : Codec) (app : Client L) where
  -- Tokens of this client, with what verified them: an ID token whose subject they are marked with.
  abbrev pub SignedIn : Option Text → Tokens → Value → Value × M.World → Type 0
  SignedIn nonce t before after =
      (claims : Value) × SignedFor M K app t nonce before after claims
      × (t.verified_subject ≡ text_field claims (text "sub"))
      × (t.verified_issuer ≡ some app.metadata.issuer)
      × (t.verified_client_id ≡ some app.config.client_id)
      × (t.verified_refresh_token ≡ t.refresh_token)

  pub sign_in-SignedIn :
      (fields : List (Text × Text)) (nonce : Option Text) (s : Value × M.World)
      → WhenOk
          (λ t (s' : Value × M.World). SignedIn nonce t s.0 s')
          (sign_in M K app fields nonce s)
  unfolding sign_in mark
  sign_in-SignedIn fields nonce s =
      let P : Tokens → Value × M.World → Type 0 = λ t s'. SignedIn nonce t s.0 s' in
      let (r, s1) = grant M K app fields true s in
      WhenOk-resume P r _ s1 λ tokens _.
        (let (r2, s2) = verify_tokens M K app tokens nonce s1 in
          WhenOk-resume P r2 _ s2 λ claims e. (
            claims,
            WhenOk-elim (λ c (s' : Value × M.World). SignedFor M K app tokens nonce s.0 s' c) r2 s2
                (verify_tokens-SignedFor M K app tokens nonce s1) e,
            refl,
            refl,
            refl,
            refl,
          ))

  -- Redeeming a code yields only tokens that are marked with the subject of an ID token that a key of
  -- the client's key set, the one it had or one fetched at its issuer's address, signed for this issuer and client,
  -- and with this nonce.
  pub redeem_code-SignedIn :
      (code verifier nonce : Text) (s : Value × M.World)
      → WhenOk
          (λ t (s' : Value × M.World). SignedIn (some nonce) t s.0 s')
          (redeem_code M K app code verifier nonce s)
  unfolding redeem_code
  redeem_code-SignedIn code verifier nonce s = sign_in-SignedIn _ (some nonce) s

  user_claims-subject :
      (access subject : Text) (e : Error) (s : Value × M.World)
      → WhenOk
          (λ user (s' : Value × M.World). text_field user (text "sub") ≡ some subject)
          (user_claims M K app access subject e s)
  unfolding user_claims
  user_claims-subject access subject e s =
      let P : Value → Value × M.World → Type 0 =
        λ user s'. text_field user (text "sub") ≡ some subject in
      let (r, s1) = remote (Grant.userinfo K M app.metadata.userinfo_endpoint access) s in
      WhenOk-resume P r _ s1 λ user _.
        WhenOk-resume P (ensure (is_text (text_field user (text "sub")) subject) e) _ s1
          λ _ a. is_text_sound _ _ (ensure-ok _ _ a)

  -- User information is handed out only for a session of this client, and only with the subject that the session
  -- was verified for.
  pub userinfo-subject :
      (t : Tokens) (s : Value × M.World)
      → WhenOk
          (λ user (s' : Value × M.World).
            (subject : Text) × IsSession app subject t
            × (text_field user (text "sub") ≡ some subject))
          (userinfo M K app t s)
  unfolding userinfo
  userinfo-subject t s =
      let P : Value → Value × M.World → Type 0 = λ user s'.
        (subject : Text) × IsSession app subject t
        × (text_field user (text "sub") ≡ some subject) in
      WhenOk-resume P (session_subject app t) _ s λ subject a.
        (let (r, s1) = recheck M K app subject t s in
          WhenOk-resume P r _ s1 λ _ _.
            (let (r2, s2) =
                user_claims M K app t.access_token subject
                  (token_validation "userinfo subject mismatch") s1 in
              WhenOk-intro P r2 s2 λ user e. (
                subject,
                (session_subject_iff app t subject).0 a,
                WhenOk-elim (λ u (s' : Value × M.World). text_field u (text "sub") ≡ some subject)
                    r2 s2 (user_claims-subject t.access_token subject _ s1) e,
              )))

  -- What the client's userinfo endpoint answered, last, to a request with the access token of these tokens.
  abbrev pub Answered : Text → Value → M.World → Type 0
  Answered access claims after =
      (w : M.World) × (Grant.userinfo K M app.metadata.userinfo_endpoint access w
        ≡ (ok claims, after))

  -- Claims of the subject: of a signed ID token when the tokens have one, and else the userinfo
  -- endpoint's answer. Given are the key set before and the state after.
  abbrev pub Confirms : Text → Tokens → Value → Value × M.World → Value → Type 0
  Confirms subject t before s' claims =
      (text_field claims (text "sub") ≡ some subject)
      × (((t.id_token ≡ none) × Answered t.access_token claims s'.1)
          ⊎ SignedFor M K app t none before s' claims)

  -- What a refresh makes of a session.
  pub record Refreshed (previous t : Tokens) (s s' : Value × M.World) : Type 0 where
    pub subject : Text
    pub before : IsSession app subject previous
    pub same_subject : IsSession app subject t
    pub claims : Value
    pub confirmed : Confirms subject t s.0 s' claims
    pub sent : Text
    pub held : previous.refresh_token ≡ some sent
    pub reply : Tokens
    pub granted :
        (Grant.acquire K M app.metadata.token_endpoint
          ((text "grant_type", text "refresh_token")
            ∷ (text "client_id", app.config.client_id)
            ∷ (text "refresh_token", sent)
            ∷ [])
          false
          s.1).0
        ≡ ok reply
    pub access : t.access_token ≡ reply.access_token
    pub identity : t.id_token ≡ reply.id_token
    pub renewable : is_some t.refresh_token ≡ true
    pub next : t.verified_refresh_token ≡ t.refresh_token
    pub unchanged : previous.verified_refresh_token ≡ previous.refresh_token

  -- A session of another client or issuer, or unmarked tokens, are refused before anything is sent.
  pub refresh_tokens-refused :
      (previous : Tokens) (s : Value × M.World) {e : Error}
      → session_subject app previous ≡ err e
      → (refresh_tokens M K app previous s ≡ (err e, s))
        × (userinfo M K app previous s ≡ (err e, s))
  unfolding refresh_tokens userinfo
  refresh_tokens-refused previous s h = (rw h refl, rw h refl)
