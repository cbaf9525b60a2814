-- ===== src/Errors.antt =====
-- Exceptions as values. The code asks of one only which class it is an instance of, for the name
-- of its class and for its text.
use intrusion_detect.Common.{◌≡◌, refl, Text}

-- `PermanentIngestionError`, `ValueError` with its subclasses, `TimeoutError`, any other
-- `Exception`.
pub data ExceptionClass : Type 0 where
  permanent_ingestion value_error timeout_error other_exception : ExceptionClass

pub record Exception : Type 0 where
  pub exception_class : ExceptionClass
  pub type_name : Text
  pub message : Text

-- What a call returns or raises.
pub data Result {ℓ} (A : Type ℓ) : Type ℓ where
  err : Exception → Result A
  ok : A → Result A

-- The first exception ends a block.
infixl 5 ◌>>=◌
abbrev pub ◌>>=◌ {ℓ κ} : {A : Type ℓ} {B : Type κ} → Result A → (A → Result B) → Result B
err raised >>= next = err raised
ok returned >>= next = next returned

-- A statement without a result.
infixl 5 ◌>>◌
abbrev pub ◌>>◌ {ℓ} : {B : Type ℓ} → Result (Unit {0}) → Result B → Result B
statement >> rest = statement >>= λ _. rest

-- Inversion of a block that succeeds.
pub >>=-ok {ℓ κ} :
    {A : Type ℓ} {B : Type κ} (first : Result A) (next : A → Result B) {result : B}
    → (first >>= next) ≡ ok result
    → (returned : A) × (first ≡ ok returned) × (next returned ≡ ok result)
>>=-ok (err raised) next h = cc
>>=-ok (ok returned) next h = (returned, refl, h)
