-- ===== src/Prelude/Fallible.antt =====
-- A JavaScript call that may throw: its value, or the message of the error.
use Prim.Native.String.{String}
use mathlib.Core.Path.{◌≡◌, refl}

pub data Outcome {ℓ} (A : Type ℓ) : Type ℓ where
  ok : A → Outcome A
  throw : String → Outcome A

infixl 5 ◌>>=◌
abbrev pub ◌>>=◌ {ℓ κ} : {A : Type ℓ} {B : Type κ} → Outcome A → (A → Outcome B) → Outcome B
throw message >>= next = throw message
ok value >>= next = next value

-- A chain that ends well has a first call that ends well.
pub >>=-eq-ok {ℓ κ} :
    {A : Type ℓ} {B : Type κ} (call : Outcome A) (next : A → Outcome B) {value : B}
    → (call >>= next) ≡ ok value
    → (first : A) × (call ≡ ok first) × (next first ≡ ok value)
>>=-eq-ok (throw message) next e = cc
>>=-eq-ok (ok first) next e = (first, refl, e)

pub ok_inj {ℓ} : {A : Type ℓ} {a b : A} → ok a ≡ ok b → a ≡ b
ok_inj e = cc
