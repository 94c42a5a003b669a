-- ===== src/Js/Completion.antt =====
-- What an expression comes to: a value, or a thrown error.
use block_chain.Common.{String, ◌≡◌, refl}

pub record Error : Type 0 where
  pub name : String
  pub message : String

pub data Result {ℓ} (A : Type ℓ) : Type ℓ where
  ok : A → Result A
  thrown : Error → Result A

-- `throw new Error(message)`.
abbrev pub fail {ℓ} : {A : Type ℓ} → String → Result A
fail message = thrown (record { name = "Error"; message = message })

infixl 5 ◌>>=◌
abbrev pub ◌>>=◌ {ℓ κ} : {A : Type ℓ} {B : Type κ} → Result A → (A → Result B) → Result B
ok a >>= f = f a
thrown e >>= f = thrown e

-- To split on a computed result and keep the equation.
pub data ResultCases {ℓ} {A : Type ℓ} (r : Result A) : Type ℓ where
  returns : (a : A) → r ≡ ok a → ResultCases r
  throws : (e : Error) → r ≡ thrown e → ResultCases r

pub Result-cases {ℓ} : {A : Type ℓ} (r : Result A) → ResultCases r
Result-cases (ok a) = returns a refl
Result-cases (thrown e) = throws e refl
