-- ===== src/Base/Outcomes.antt =====
-- Errors, results of fallible calls, and outcomes of calls that may panic.
use Prim.Native.String.{String}
use mathlib.Core.Path.{◌≡◌, refl}
use mathlib.Core.Logic.{◌⊎◌, inl, inr}
use mathlib.Core.Bool.{Bool, true, false}

-- What the code asks of an error besides its text: `apierrors.IsNotFound`, `==
-- http.ErrServerClosed`.
pub data ErrorKind : Type 0 where
  plain not_found server_closed : ErrorKind

pub record Error : Type 0 where
  pub kind : ErrorKind
  pub text : String

-- `errors.New` and `fmt.Errorf`, on the formatted text.
abbrev pub errorf : String → Error
errorf s = record { kind = plain; text = s }

pub data Result {ℓ} (A : Type ℓ) : Type ℓ where
  ok : A → Result A
  err : Error → Result A

abbrev pub is_ok {ℓ} : {A : Type ℓ} → Result A → Bool
is_ok (ok a) = true
is_ok (err e) = false

pub Result-cases {ℓ} :
    {A : Type ℓ} (r : Result A) → ((a : A) × (r ≡ ok a)) ⊎ ((e : Error) × (r ≡ err e))
Result-cases (ok a) = inl (a, refl)
Result-cases (err e) = inr (e, refl)

pub is_ok-ok {ℓ} : {A : Type ℓ} (r : Result A) → is_ok r ≡ true → (a : A) × (r ≡ ok a)
is_ok-ok (ok a) h = (a, refl)
is_ok-ok (err e) h = cc

-- `panicked` is a Go panic; `starved` is the model's own: a loop's fuel ran out.
pub data Outcome {ℓ} (A : Type ℓ) : Type ℓ where
  done : A → Outcome A
  panicked : Outcome A
  starved : Outcome A

pub done-injective {ℓ} : {A : Type ℓ} (a b : A) → done a ≡ done b → a ≡ b
done-injective a b e = cc

infixl 5 ◌>>=◌
abbrev pub ◌>>=◌ {ℓ κ} : {A : Type ℓ} {B : Type κ} → Outcome A → (A → Outcome B) → Outcome B
done a >>= f = f a
panicked >>= f = panicked
starved >>= f = starved

pub >>=-eq-done {ℓ κ} :
    {A : Type ℓ} {B : Type κ} (m : Outcome A) (f : A → Outcome B) {b : B}
    → (m >>= f) ≡ done b
    → (a : A) × (m ≡ done a) × (f a ≡ done b)
>>=-eq-done (done a) f h = (a, refl, h)
>>=-eq-done panicked f h = cc
>>=-eq-done starved f h = cc

-- What a program is about to run; or `log.Fatalf`, which ends the process with a message.
pub data Setup {ℓ} (A : Type ℓ) : Type ℓ where
  ready : A → Setup A
  fatal : String → Setup A

pub ready-injective {ℓ} : {A : Type ℓ} (a b : A) → ready a ≡ ready b → a ≡ b
ready-injective a b e = cc
