-- ===== src/Client/Calls.antt =====
-- The key set of a client over all that a program may do with it.
use himmelcloak.Prelude.{Text, List, [], ◌∷◌, Option, Result, ok, err, ◌≡◌, true}
use himmelcloak.Platform.{UrlLib}
use himmelcloak.Transport.{Machine}
use himmelcloak.Token.Value.{Value}
use himmelcloak.Token.Discover.{Codec, has_keys}
use himmelcloak.Flow.Types.{Tokens, Answer, AuthStep}
use himmelcloak.Flow.Classify.Scan.{Token}
use himmelcloak.Flow.Factor.{Factors, builtin}
use himmelcloak.Flow.State.{AuthFlow, new}
use himmelcloak.Flow.Session.{Start, Session}
use himmelcloak.Flow.Driver.{begin}
use himmelcloak.Flow.Driver.Keys.{begin-keys, advance-keys}
use himmelcloak.Client.{
  Client, Features, application, acquire_token_by_password, redeem_code, refresh_tokens,
  revoke_token, userinfo,
}
use himmelcloak.Client.KeySet.{
  HasKeys, acquire_token_by_password-HasKeys, redeem_code-HasKeys, refresh_tokens-HasKeys,
  userinfo-HasKeys,
}
use himmelcloak.Client.Flows.{
  handed, started, default_login_timeout, initiate_with, initiate_auth_flow, continue_auth_flow,
}

-- The calls that a program makes of a client: a login is started, and any flow that the program holds is
-- continued with an answer.
pub data Call (L : UrlLib) : Type 0 where
  by_password : Features → Text → Text → Option Text → Call L
  by_code : Text → Text → Text → Call L
  refreshing : Tokens → Call L
  revoking : Text → Call L
  asking_user : Tokens → Call L
  starting : Start → Call L
  continuing : AuthFlow L → Answer → Call L

module _ {L : UrlLib} (M : Machine L) (K : Codec) (app : Client L)
    (tokenize : Text → List Token) where
  -- The state after a call.
  unfoldable pub after : Call L → Value × M.World → Value × M.World
  unfolding application
  after (by_password features username password totp) s =
      (acquire_token_by_password M K app features username password totp s).1
  after (by_code code verifier nonce) s = (redeem_code M K app code verifier nonce s).1
  after (refreshing tokens) s = (refresh_tokens M K app tokens s).1
  after (revoking token) s = (revoke_token M K app token s).1
  after (asking_user tokens) s = (userinfo M K app tokens s).1
  after (starting start) s = (initiate_auth_flow M K app tokenize start s).1
  after (continuing flow answer) s =
      let (_, s') =
        continue_auth_flow M K app tokenize answer
          (record { flow = flow; keys = s.0; world = s.1 }) in
      (s'.keys, s'.world)

  unfoldable pub after_all : List (Call L) → Value × M.World → Value × M.World
  unfolding after
  after_all [] s = s
  after_all (c ∷ cs) s = after_all cs (after c s)

  redeeming-has_keys :
      (code verifier nonce : Text) (keys : Value) (w : M.World)
      → has_keys keys ≡ true
      → has_keys (redeem_code M K app code verifier nonce (keys, w)).1.0 ≡ true
  redeeming-has_keys code verifier nonce keys w q =
      redeem_code-HasKeys M K app code verifier nonce (keys, w) q

  SessionHasKeys : Session (application M K app) → Type 0
  unfolding application
  SessionHasKeys s = has_keys s.keys ≡ true

  handed-HasKeys :
      (r : Result AuthStep) (s : Session (application M K app))
      → SessionHasKeys s
      → HasKeys (handed M K app tokenize (r, s)).1
  unfolding handed application SessionHasKeys
  handed-HasKeys (ok step) s q = q
  handed-HasKeys (err e) s q = q

  started-HasKeys :
      (factors : Factors) (start : Start) (keys : Value) (made : Result (AuthFlow L) × M.World)
      → has_keys keys ≡ true
      → HasKeys (started M K app tokenize factors start keys made).1
  unfolding started application SessionHasKeys
  started-HasKeys factors start keys (err e, w) q = q
  started-HasKeys factors start keys (ok flow, w) q =
      let (r, s') =
        begin (application M K app) tokenize factors start
          (record { flow = flow; keys = keys; world = w }) in
      handed-HasKeys r s' (
        begin-keys (application M K app) (λ k. has_keys k ≡ true) redeeming-has_keys tokenize
          factors start (record { flow = flow; keys = keys; world = w }) q)

  after-HasKeys : (c : Call L) (s : Value × M.World) → HasKeys s → HasKeys (after c s)
  unfolding after revoke_token application initiate_auth_flow initiate_with continue_auth_flow
  after-HasKeys (by_password features username password totp) s q =
      acquire_token_by_password-HasKeys M K app features username password totp s q
  after-HasKeys (by_code code verifier nonce) s q =
      redeem_code-HasKeys M K app code verifier nonce s q
  after-HasKeys (refreshing tokens) s q = refresh_tokens-HasKeys M K app tokens s q
  after-HasKeys (revoking token) s q = q
  after-HasKeys (asking_user tokens) s q = userinfo-HasKeys M K app tokens s q
  after-HasKeys (starting start) s q =
      started-HasKeys builtin start s.0 (new M default_login_timeout s.1) q
  after-HasKeys (continuing flow answer) s q =
      advance-keys (application M K app) (λ k. has_keys k ≡ true) redeeming-has_keys tokenize
        builtin answer (record { flow = flow; keys = s.0; world = s.1 }) q

  -- Whatever calls a program makes of a client, in any order, succeeding or failing, logins that it starts or continues
  -- with any flow among them, the client keeps a key set with keys once it has one: no reply of the server empties it.
  pub after_all-HasKeys :
      (cs : List (Call L)) (s : Value × M.World) → HasKeys s → HasKeys (after_all cs s)
  unfolding after_all
  after_all-HasKeys [] s q = q
  after_all-HasKeys (c ∷ cs) s q = after_all-HasKeys cs (after c s) (after-HasKeys c s q)
