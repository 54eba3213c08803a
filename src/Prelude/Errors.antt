-- ===== src/Prelude/Errors.antt =====
-- C++ exceptions as values: a call returns or throws.
use Prim.Native.String.{String}
use mathlib.Core.Path.{◌≡◌, refl, ap, subst}
use mathlib.Core.Logic.{◌⊎◌, ◌≢◌, inl, inr}

-- The classes of exception that the code throws itself, and those of the libraries that it calls.
pub data Exception : Type 0 where
  runtime_error invalid_argument out_of_range : String → Exception
  json_exception bad_optional_access : Exception

pub data Result {ℓ} (A : Type ℓ) : Type ℓ where
  ok : A → Result A
  throw : Exception → Result A

infixl 5 ◌>>=◌
-- What follows runs on the value; an exception leaves the rest out.
abbrev pub ◌>>=◌ {ℓ κ} : {A : Type ℓ} {B : Type κ} → Result A → (A → Result B) → Result B
throw x >>= rest = throw x
ok value >>= rest = rest value

pub Result-cases {ℓ} :
    {A : Type ℓ} (r : Result A) → ((e : Exception) × (r ≡ throw e)) ⊎ ((a : A) × (r ≡ ok a))
Result-cases (throw e) = inl (e, refl)
Result-cases (ok a) = inr (a, refl)

pub throw-ne-ok {ℓ} : {A : Type ℓ} (e : Exception) (a : A) → throw e ≢ ok a
throw-ne-ok e a h = cc

-- What a call returns, where it returns.
abbrev pub Ensures {ℓ κ} : {A : Type ℓ} → (A → Type κ) → Result A → Type (ℓ ⊔ κ)
Ensures {A = A} P r = (a : A) → r ≡ ok a → P a

ok-injective {ℓ} : {A : Type ℓ} (a b : A) → ok a ≡ ok b → a ≡ b
ok-injective a b h = ap (λ r. elim r [ ok c ↦ c | throw _ ↦ a ]) h

pub ok-Ensures {ℓ κ} : {A : Type ℓ} (P : A → Type κ) (a : A) → P a → Ensures P (ok a)
ok-Ensures P a h b e = subst P (ok-injective a b e) h

pub >>=-Ensures {ℓ κ μ} :
    {A : Type ℓ} {B : Type κ} (P : B → Type μ) (m : Result A) (f : A → Result B)
    → ((a : A) → m ≡ ok a → Ensures P (f a))
    → Ensures P (m >>= f)
>>=-Ensures P (ok a) f h b e = h a refl b e
>>=-Ensures P (throw x) f h b e = absurd (throw-ne-ok x b e)
