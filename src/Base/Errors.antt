-- ===== src/Base/Errors.antt =====
-- Go's `error` results. An error keeps the format of its `fmt.Errorf` call and the arguments.
use Prim.Native.Nat.{ℕ}
use Prim.Native.String.{String}
use mathlib.Core.Path.{◌≡◌, refl}
use mathlib.Core.Logic.{◌⊎◌, inl, inr}
use mathlib.Core.Bool.{Bool, true, false}
use relayward_sdk.Base.Int.{ℤ}
use relayward_sdk.Base.Text.{Bytes}

mutual
  pub data Error : Type 0 where
    errorf : String → Args → Error

  pub data Args : Type 0 where
    nil : Args
    num : ℕ → Args → Args
    int : ℤ → Args → Args
    text : Bytes → Args → Args
    cause : Error → Args → Args

-- `fmt.Errorf` with no argument, or with one error to wrap.
abbrev pub error : String → Error
error format = errorf format nil

abbrev pub wrapf : String → Error → Error
wrapf format e = errorf format (cause e nil)

pub data Result {ℓ} (A : Type ℓ) : Type ℓ where
  ok : A → Result A
  err : Error → Result A

infixl 5 ◌>>=◌ ◌>>◌
abbrev pub ◌>>=◌ {ℓ κ} : {A : Type ℓ} {B : Type κ} → Result A → (A → Result B) → Result B
ok a >>= f = f a
err e >>= f = err e

-- The result of a validator: `ok tt` is a nil error.
abbrev pub Check : Type 0
Check = Result (Unit {0})

abbrev pub ◌>>◌ {ℓ} : {B : Type ℓ} → Check → Result B → Result B
m >> k = m >>= λ _. k

abbrev pub pass : Check
pass = ok tt

-- `if bad { return e }`
abbrev pub reject_if : Bool → Error → Check
reject_if true e = err e
reject_if false e = pass

-- `if err := m; err != nil { return f(err) }`
abbrev pub or_else_error {ℓ} : {A : Type ℓ} → Result A → (Error → Error) → Result A
or_else_error (ok a) f = ok a
or_else_error (err e) f = err (f e)

pub Result-cases {ℓ} :
    {A : Type ℓ} (r : Result A) → ((a : A) × (r ≡ ok a)) ⊎ ((e : Error) × (r ≡ err e))
Result-cases (ok a) = inl (a, refl)
Result-cases (err e) = inr (e, refl)
