-- ===== src/Cli/Outcome.antt =====
-- What a command's step comes to: `Result<T, &'static str>`.
use himmelcloak.Prelude.{Text, Option, none, some, Bool, true, false}

pub data Outcome {ℓ} (A : Type ℓ) : Type ℓ where
  done : A → Outcome A
  failed : Text → Outcome A

-- `?`
abbrev pub proceed {ℓ κ} : {A : Type ℓ} {B : Type κ} → Outcome A → (A → Outcome B) → Outcome B
proceed (done a) f = f a
proceed (failed e) f = failed e

abbrev pub require : Bool → Text → Outcome (Unit {0})
require true e = done tt
require false e = failed e

abbrev pub given {ℓ} : {A : Type ℓ} → Option A → Text → Outcome A
given (some a) e = done a
given none e = failed e
