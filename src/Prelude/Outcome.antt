-- ===== src/Prelude/Outcome.antt =====
-- The result type of the library (src/error.rs), and the monad of its operations: a state that
-- stays written when an operation fails, as a `&mut` argument does under `?`.
use Prim.Native.Nat.{ℕ}
use Prim.Native.String.{String}
use mathlib.Core.Path.{◌≡◌, refl, subst}
use mathlib.Core.Logic.{◌⊎◌, inl, inr}
use mathlib.Core.Bool.{Bool, true, false}
use mathlib.Core.Option.{Option, none, some}
use himmelcloak.Prelude.Tests.{bind, if◌then◌else◌}

pub data Error : Type 0 where
  invalid_configuration : String → Error
  transport_error : String → Error
  tls_backend : Error
  http_status : ℕ → Error
  authentication_rejected : Error
  protocol : String → Error
  token_validation : String → Error
  crypto : Error
  unsupported_factor : Error
  cancelled : Error
  expired : Error
  not_implemented : Error

pub data Result {ℓ} (A : Type ℓ) : Type ℓ where
  ok : A → Result A
  err : Error → Result A

abbrev pub and_then {ℓ κ} : {A : Type ℓ} {B : Type κ} → Result A → (A → Result B) → Result B
and_then (ok a) f = f a
and_then (err e) f = err e

abbrev pub ensure : Bool → Error → Result (Unit {0})
ensure true e = ok tt
ensure false e = err e

abbrev pub ok_or {ℓ} : {A : Type ℓ} → Option A → Error → Result A
ok_or (some a) e = ok a
ok_or none e = err e

abbrev pub is_ok {ℓ} : {A : Type ℓ} → Result A → Bool
is_ok (ok a) = true
is_ok (err e) = false

pub Result-cases {ℓ} :
    {A : Type ℓ} (r : Result A) → ((a : A) × (r ≡ ok a)) ⊎ ((e : Error) × (r ≡ err e))
Result-cases (ok a) = inl (a, refl)
Result-cases (err e) = inr (e, refl)

pub and_then-eq_ok {ℓ κ} :
    {A : Type ℓ} {B : Type κ} (m : Result A) (f : A → Result B) {b : B}
    → and_then m f ≡ ok b
    → (a : A) × (m ≡ ok a) × (f a ≡ ok b)
and_then-eq_ok (ok a) f h = (a, refl, h)
and_then-eq_ok (err e) f h = cc

-- An operation on a state that may fail.
abbrev pub Run {ℓ κ} : Type ℓ → Type κ → Type (ℓ ⊔ κ)
Run S A = S → Result A × S

abbrev pub resume {ℓ κ μ} :
    {S : Type ℓ} {A : Type κ} {B : Type μ} → Result A → (A → Run S B) → Run S B
resume (ok a) f s = f a s
resume (err e) f s = (err e, s)

infixl 5 ◌>>=◌ ◌>>◌
abbrev pub ◌>>=◌ {ℓ κ μ} :
    {S : Type ℓ} {A : Type κ} {B : Type μ} → Run S A → (A → Run S B) → Run S B
◌>>=◌ m f s = resume (m s).0 f (m s).1

abbrev pub ◌>>◌ {ℓ κ μ} : {S : Type ℓ} {A : Type κ} {B : Type μ} → Run S A → Run S B → Run S B
m >> k = m >>= λ _. k

abbrev pub pure {ℓ κ} : {S : Type ℓ} {A : Type κ} → A → Run S A
pure a s = (ok a, s)

abbrev pub raise {ℓ κ} : {S : Type ℓ} {A : Type κ} → Error → Run S A
raise e s = (err e, s)

abbrev pub lift {ℓ κ} : {S : Type ℓ} {A : Type κ} → Result A → Run S A
lift r s = (r, s)

pub ok-injective {ℓ} : {A : Type ℓ} {a b : A} → ok a ≡ ok b → a ≡ b
ok-injective h = cc

-- What holds of the result and the state when an operation succeeds.
abbrev pub WhenOk {ℓ κ} : {S : Type ℓ} {A : Type κ} → (A → S → Type 0) → Result A × S → Type 0
WhenOk P (ok a, s) = P a s
WhenOk P (err e, s) = Unit

pub WhenOk-intro {ℓ κ} :
    {S : Type ℓ} {A : Type κ} (P : A → S → Type 0) (r : Result A) (s : S)
    → ((a : A) → r ≡ ok a → P a s)
    → WhenOk P (r, s)
WhenOk-intro P (ok a) s h = h a refl
WhenOk-intro P (err e) s h = tt

pub WhenOk-elim {ℓ κ} :
    {S : Type ℓ} {A : Type κ} (P : A → S → Type 0) (r : Result A) (s : S) {a : A}
    → WhenOk P (r, s)
    → r ≡ ok a
    → P a s
WhenOk-elim P r s {a} w h = subst (λ q. WhenOk P (q, s)) h w

-- A chain keeps what its continuation establishes.
pub WhenOk-resume {ℓ κ μ} :
    {S : Type ℓ} {A : Type κ} {B : Type μ} (P : B → S → Type 0) (r : Result A) (k : A → Run S B)
    (s : S)
    → ((a : A) → r ≡ ok a → WhenOk P (k a s))
    → WhenOk P (resume r k s)
WhenOk-resume P (ok a) k s h = h a refl
WhenOk-resume P (err e) k s h = tt

-- A chain stops at its first operation, or goes on from it.
pub resume_elim {ℓ κ μ} :
    {S : Type ℓ} {A : Type κ} {B : Type μ} (P : Result B × S → Type 0) (r : Result A)
    (k : A → Run S B) (s : S)
    → ((e : Error) → r ≡ err e → P (err e, s))
    → ((a : A) → r ≡ ok a → P (k a s))
    → P (resume r k s)
resume_elim P (ok a) k s h g = g a refl
resume_elim P (err e) k s h g = h e refl

-- A chain of options that succeeds went through each of its steps.
pub bind-eq_some {ℓ κ μ} :
    {A : Type ℓ} {B : Type κ} {G : Type μ} (m : Option A) (f : A → Option B) {b : B}
    → bind m f ≡ some b
    → ((a : A) → m ≡ some a → f a ≡ some b → G)
    → G
bind-eq_some none f h k = absurd cc
bind-eq_some (some a) f h k = k a refl h

-- An operation chosen by a test.
pub WhenOk-if {ℓ κ} :
    {S : Type ℓ} {A : Type κ} (P : A → S → Type 0) (b : Bool) (m k : Run S A) (s : S)
    → (b ≡ true → WhenOk P (m s))
    → (b ≡ false → WhenOk P (k s))
    → WhenOk P ((if b then m else k) s)
WhenOk-if P true m k s h g = h refl
WhenOk-if P false m k s h g = g refl

-- Chains that agree on what their first operation yields.
pub resume-same {ℓ κ μ} :
    {S : Type ℓ} {A : Type κ} {B : Type μ} (r : Result A) (f g : A → Run S B) (s : S)
    → ((a : A) → r ≡ ok a → f a s ≡ g a s)
    → resume r f s ≡ resume r g s
resume-same (ok a) f g s h = h a refl
resume-same (err e) f g s h = refl

-- An operation that keeps a property of the state, whether it succeeds or fails.
abbrev pub Keeps : {S A : Type 0} → (S → Type 0) → Run S A → Type 0
Keeps Q op = (s : _) → Q s → Q (op s).1

pub keeps-resume :
    {S A B : Type 0} (Q : S → Type 0) (r : Result A) (f : A → Run S B) (s : S)
    → Q s
    → ((a : A) → Q (f a s).1)
    → Q (resume r f s).1
keeps-resume Q (ok a) f s q k = k a
keeps-resume Q (err e) f s q k = q

pub Keeps-if :
    {S A : Type 0} (Q : S → Type 0) (b : Bool) (m k : Run S A)
    → Keeps Q m
    → Keeps Q k
    → Keeps Q (if b then m else k)
Keeps-if Q true m k h g = h
Keeps-if Q false m k h g = g
