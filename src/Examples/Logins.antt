-- ===== src/Examples/Logins.antt =====
-- Whole logins: their lifecycle, the callback and the driver's steps.
use himmelcloak.Prelude.{
  ℕ, ◌+◌, ◌≤◌, ◌<◌, Text, text, text_eq, List, [], ◌∷◌, none, some, true, false, Error, ok, err,
  ◌≡◌, ◌≢◌, ◌⊎◌, refl, arith,
}
use himmelcloak.Flow.Types.{complete, Answer, username_password}
use himmelcloak.Flow.Expect.{Expect}
use himmelcloak.Flow.Jar.{empty_jar}
use himmelcloak.Flow.Fetch.{Redirect, found}
use himmelcloak.Flow.Factor.{builtin}
use himmelcloak.Flow.State.{active, cancelled, AuthFlow, Pending, ensure_active, finish}
use himmelcloak.Flow.State.Lifecycle.{
  Operation, cancel_at, finish_at, apply_all, WipedWhenEnded, apply_all-WipedWhenEnded,
}
use himmelcloak.Flow.Callback.{callback, same_endpoint, take_pairs, take_pair, judge}
use himmelcloak.Flow.Callback.State.{values, callback-accepts}
use himmelcloak.Flow.Session.Redeem.{Completed, complete_at_callback-Completed}
use himmelcloak.Flow.Session.{complete_at_callback, Session}
use himmelcloak.Flow.Driver.{advance}
use himmelcloak.Flow.Driver.Settled.{Settled, advance-Settled}
use himmelcloak.Flow.Driver.Gate.{tick, IsReady, advance-gate}
use himmelcloak.Flow.Driver.Metered.{Metered}
use himmelcloak.Flow.Driver.Budget.{advance-spent}
use himmelcloak.Examples.World.{granted, addresses, quiet, Wire, client, callback_address}
use himmelcloak.Examples.Pages.{login_page, login_form}

abbrev running : AuthFlow addresses
running = record {
  jar = empty_jar;
  deadline = 60;
  lifecycle = active;
  pkce_verifier = text "verifier";
  oauth_state = text "state";
  nonce = text "nonce";
  pending = none;
  client = text "client";
  login_hint = none;
}

running-WipedWhenEnded : WipedWhenEnded running
running-WipedWhenEnded n = absurd (n refl)

abbrev uses : List Operation
uses = cancel_at 3 ∷ finish_at 4 ∷ []

apply_all-WipedWhenEnded_example : WipedWhenEnded (apply_all uses running)
apply_all-WipedWhenEnded_example = apply_all-WipedWhenEnded uses running running-WipedWhenEnded

abbrev stopped : AuthFlow addresses
stopped = record running { lifecycle = cancelled }

stopped-ended : stopped.lifecycle ≢ active
stopped-ended h = cc

abbrev answer_pairs : List (Text × Text)
answer_pairs = (text "state", text "state") ∷ (text "code", text "c1") ∷ []

abbrev final_redirect : Redirect addresses
final_redirect = record {
  location = callback_address answer_pairs;
  same_origin = false;
  kind = found;
}

final_redirect-callback :
    (callback 5 final_redirect (callback_address []) running).0 ≡ ok (some (text "c1"))
unfolding callback text text_eq same_endpoint ensure_active take_pairs take_pair judge
final_redirect-callback = refl

callback-accepts_example :
    (same_endpoint addresses (callback_address answer_pairs) (callback_address []) ≡ true)
    × (running.lifecycle ≡ active)
    × (5 < running.deadline)
    × (values (text "state") answer_pairs ≡ running.oauth_state ∷ [])
    × (running.oauth_state ≢ [])
    × (values (text "error") answer_pairs ≡ [])
    × (values (text "code") answer_pairs ≡ text "c1" ∷ [])
    × (text "c1" ≢ [])
    × ((callback 5 final_redirect (callback_address []) running).1 ≡ running)
callback-accepts_example =
    callback-accepts 5 final_redirect (callback_address []) running final_redirect-callback

abbrev password_asked : Pending addresses
password_asked = record {
  kind = username_password none;
  form = login_form;
  expect = Expect.password;
  queue = [];
  answers = Answer.username (text "alice") ∷ [];
}

abbrev waiting : Session client
waiting = record {
  flow = record running { pending = some password_asked };
  keys = tt;
  world = quiet;
}

abbrev secret : Answer
secret = Answer.password (text "secret")

advance-Settled_example : Settled client (advance client (λ _. login_page) builtin secret waiting)
advance-Settled_example = advance-Settled client (λ _. login_page) builtin secret waiting

advance-gate_example :
    let (r, s') = advance client (λ _. login_page) builtin secret waiting in
    (((e : Error) × (r ≡ err e)) × (s'.world ≡ tick client (tick client quiet)) × (s'.keys ≡ tt))
    ⊎ IsReady client secret waiting
advance-gate_example = advance-gate client (λ _. login_page) builtin secret waiting

abbrev sends : Wire → ℕ
sends w = w.sent

sends-Metered : Metered client sends 1
sends-Metered = record {
  at_instant = λ w. omega arith;
  at_system_time = λ w. omega arith;
  at_send = λ request w. omega arith;
  at_redeem = λ code verifier nonce keys w. omega arith;
}

advance-spent_example :
    sends (advance client (λ _. login_page) builtin secret waiting).1.world ≤ sends quiet + (6 + 1)
advance-spent_example =
    advance-spent client (λ _. login_page) builtin sends 1 sends-Metered secret waiting

abbrev at_end : Session client
at_end = record { flow = running; keys = tt; world = quiet }

at_end-completes :
    (complete_at_callback client final_redirect at_end).0 ≡ ok (some (complete granted))
unfolding complete_at_callback callback text text_eq same_endpoint ensure_active take_pairs
    take_pair judge finish
at_end-completes = refl

complete_at_callback-Completed_example : Completed client final_redirect at_end (complete granted)
complete_at_callback-Completed_example =
    complete_at_callback-Completed client final_redirect at_end at_end-completes
