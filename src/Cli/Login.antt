-- ===== src/Cli/Login.antt =====
-- The test login (crates/himmelcloak-cli/src/test_login.rs): its loop over the steps of a login.
pub mod Once
use himmelcloak.Prelude.{
  ℕ, zero, suc, Text, text, List, [], ◌∷◌, Option, none, some, Bool, true, false, if◌then◌else◌,
  Error, http_status, transport_error, protocol, unsupported_factor, crypto, invalid_configuration,
  Result, ok, err,
}
use himmelcloak.Flow.Types.{Challenge, Answer, AuthStep, challenge, complete}
use himmelcloak.Cli.Outcome.{Outcome, done, failed}

-- What the loop runs on: the terminal, and the login that it answers.
pub record Engine : Type 1 where
  pub World : Type 0
  -- `read_input`, of the prompt and whether the input is hidden
  pub read_input : Text → Bool → World → Outcome Text × World
  -- `PublicClientApplication::with_config`
  pub connect : World → Result (Unit {0}) × World
  -- `initiate_auth_flow`
  pub initiate : World → Result AuthStep × World
  -- `continue_auth_flow`
  pub advance : Answer → World → Result AuthStep × World
  -- `AuthFlow::cancel`
  pub cancel : World → World

-- What the `match` on a step decides: to end, to cancel and end, or to ask.
pub data Decision : Type 0 where
  finish : Outcome (Unit {0}) → Decision
  give_up : Text → Decision
  ask_username : Decision
  ask_password : Decision

-- The arms of the `match`; the flag is `password_submitted`.
unfoldable pub decide : Bool → AuthStep → Decision
decide submitted (complete _) = finish (done tt)
decide submitted (AuthStep.failed _) = finish (failed (text "login failed"))
decide true (challenge Challenge.username) = give_up (text "login failed")
decide true (challenge Challenge.password) = give_up (text "login failed")
decide false (challenge Challenge.username) = ask_username
decide false (challenge Challenge.password) = ask_password
decide submitted (challenge _) =
    give_up (text "this command currently supports password login only")

-- How a run ends, the answers it sent, and the state it leaves. No end is the end of the fuel.
abbrev pub Run : Type 0 → Type 0
Run W = Option (Outcome (Unit {0})) × List Answer × W

ended : {W : Type 0} → Outcome (Unit {0}) → W → Run W
ended o w = (some o, [], w)

after_answer : {W : Type 0} → Answer → Run W → Run W
after_answer a (o, answers, w) = (o, a ∷ answers, w)

module _ (E : Engine) where
  -- The next step of the login, if there is one.
  go_on : (AuthStep → E.World → Run E.World) → Result AuthStep × E.World → Run E.World
  unfolding ended
  go_on loop (ok step, w) = loop step w
  go_on loop (err e, w) = ended (failed (text "login failed")) w

  -- An input is read and sent.
  exchange :
      (Text → Answer) → (AuthStep → E.World → Run E.World) → Outcome Text × E.World → Run E.World
  unfolding ended after_answer go_on
  exchange as_answer loop (failed e, w) = ended (failed e) w
  exchange as_answer loop (done input, w) =
      after_answer (as_answer input) (go_on loop (E.advance (as_answer input) w))

  act : (Bool → AuthStep → E.World → Run E.World) → Bool → Decision → E.World → Run E.World
  unfolding ended exchange
  act loop submitted (finish o) w = ended o w
  act loop submitted (give_up reason) w = ended (failed reason) (E.cancel w)
  act loop submitted ask_username w =
      exchange Answer.username (loop submitted) (E.read_input (text "Username: ") false w)
  act loop submitted ask_password w =
      exchange Answer.password (loop true) (E.read_input (text "Password: ") true w)

  -- The loop of `login`, for at most that many rounds: a server may ask for the user name without end.
  unfoldable pub login_loop : ℕ → Bool → AuthStep → E.World → Run E.World
  unfolding decide act
  login_loop zero submitted step w = (none, [], w)
  login_loop (suc fuel) submitted step w =
      act (λ s. login_loop fuel s) submitted (decide submitted step) w

  -- The arms of the `map_err` on a login that does not start.
  start_error : Error → Text
  start_error (http_status _) = text "cannot start login: unexpected HTTP status"
  start_error (transport_error _) = text "cannot start login: transport failure"
  start_error (protocol _) = text "cannot start login: protocol failure"
  start_error unsupported_factor = text "cannot start login: unsupported factor"
  start_error crypto = text "cannot start login: cryptographic failure"
  start_error (invalid_configuration _) = text "cannot start login: invalid configuration"
  start_error _ = text "cannot start login: engine failure"

  begun : ℕ → Result AuthStep × E.World → Run E.World
  unfolding start_error ended login_loop
  begun fuel (ok step, w) = login_loop fuel false step w
  begun fuel (err e, w) = ended (failed (start_error e)) w

  connected : ℕ → Result (Unit {0}) × E.World → Run E.World
  unfolding begun ended
  connected fuel (ok _, w) = begun fuel (E.initiate w)
  connected fuel (err e, w) = ended (failed (text "cannot connect to Keycloak")) w

  -- `login`
  unfoldable pub login : ℕ → E.World → Run E.World
  unfolding connected
  login fuel w = connected fuel (E.connect w)
