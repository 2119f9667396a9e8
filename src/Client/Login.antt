-- ===== src/Client/Login.antt =====
-- A login that a client completes: the driver's contract with its application, filled by the client.
use himmelcloak.Prelude.{ℕ, Text, some, ok, WhenOk-elim, ◌≡◌}
use himmelcloak.Platform.{UrlLib}
use himmelcloak.Transport.{Machine}
use himmelcloak.Token.Value.{Value}
use himmelcloak.Token.Discover.{Codec}
use himmelcloak.Flow.Types.{Tokens, AuthStep, complete}
use himmelcloak.Flow.Fetch.{Redirect}
use himmelcloak.Flow.Callback.{callback}
use himmelcloak.Flow.Session.{Session, complete_at_callback}
use himmelcloak.Flow.Session.Redeem.{complete_at_callback-Completed}
use himmelcloak.Client.{Client, application, redeem_code}
use himmelcloak.Client.Sessions.{SignedIn, redeem_code-SignedIn}

module _ {L : UrlLib} (M : Machine L) (K : Codec) (app : Client L) where
  -- The step completes the login with tokens of an ID token for its nonce, and the callback carried a
  -- code that the login accepts.
  unfoldable pub CompletedSigned : Redirect L → Session (application M K app) → AuthStep → Type 0
  unfolding application
  CompletedSigned r s step =
      (t : Tokens) × (after : Value × M.World) × (step ≡ complete t)
      × SignedIn M K app (some s.flow.nonce) t s.keys after
      × ((now : ℕ) × (code : Text) × ((callback now r app.config.redirect_uri s.flow).0
            ≡ ok (some code)))

  -- A login that a client completes is signed in: the tokens come with an ID token that a key of its key
  -- set, the one it had or one that it fetched at the address its issuer published, signed for the issuer, the client and the nonce that this login sent, they are marked with
  -- that token's subject, and the redirect was a callback to the client's own address that the login accepts.
  pub application-CompletedSigned :
      (r : Redirect L) (s : Session (application M K app)) {step : AuthStep}
      → (complete_at_callback (application M K app) r s).0 ≡ ok (some step)
      → CompletedSigned r s step
  unfolding application CompletedSigned
  application-CompletedSigned r s {step} h =
      let (now, code, t, accepted, (w, redeemed), same) =
        complete_at_callback-Completed (application M K app) r s h in
      let (result, s') = redeem_code M K app code s.flow.pkce_verifier s.flow.nonce (s.keys, w) in
      (
        t,
        s',
        same,
        WhenOk-elim (λ t (s' : Value × M.World). SignedIn M K app (some s.flow.nonce) t s.keys s')
            result s'
            (redeem_code-SignedIn M K app code s.flow.pkce_verifier s.flow.nonce (s.keys, w))
            redeemed,
        (now, code, accepted),
      )
