-- ===== src/Prelude/Outcome.antt =====
-- Code that throws: a value, the message of the error, or `stuck`, which is no behaviour of the
-- program and means that the fuel of a modelled loop ran out.
use Prim.Native.String.{String}
use mathlib.Core.Path.{◌≡◌, refl}
use mathlib.Core.Logic.{◌≢◌}
use mathlib.Core.Bool.{Bool, true, false}
use alphaping.Prelude.Tests.{if◌then◌else◌}

pub data Outcome {ℓ} (A : Type ℓ) : Type ℓ where
  ok : A → Outcome A
  throw : String → Outcome A
  stuck : Outcome A

infixl 5 ◌>>=◌ ◌>>◌
abbrev pub ◌>>=◌ {ℓ κ} : {A : Type ℓ} {B : Type κ} → Outcome A → (A → Outcome B) → Outcome B
ok a >>= f = f a
throw e >>= f = throw e
stuck >>= f = stuck

abbrev pub ◌>>◌ {ℓ} : {B : Type ℓ} → Outcome (Unit {0}) → Outcome B → Outcome B
m >> k = m >>= λ _. k

-- `if (test) throw new Error(message)`
abbrev pub throw_if : Bool → String → Outcome (Unit {0})
throw_if true message = throw message
throw_if false message = ok tt

pub ok_injective {ℓ} : {A : Type ℓ} (a b : A) → ok a ≡ ok b → a ≡ b
ok_injective a b e = cc

-- What is bound gives a value only after one.
pub >>=-ok {ℓ κ} :
    {A : Type ℓ} {B : Type κ} (m : Outcome A) (f : A → Outcome B) (b : B)
    → (m >>= f) ≡ ok b
    → (a : A) × (m ≡ ok a) × (f a ≡ ok b)
>>=-ok (ok a) f b e = (a, refl, e)
>>=-ok (throw message) f b e = cc
>>=-ok stuck f b e = cc

-- The code ends, by a value with the property or by an error.
pub data Yields {ℓ κ} {A : Type ℓ} (P : A → Type κ) : Outcome A → Type (ℓ ⊔ κ) where
  yields : (a : A) → P a → Yields P (ok a)
  raises : (message : String) → Yields P (throw message)

module _ {ℓ κ} {A : Type ℓ} {P : A → Type κ} where
  pub Yields-intro : (m : Outcome A) → m ≢ stuck → ((a : A) → m ≡ ok a → P a) → Yields P m
  Yields-intro (ok a) h k = yields a (k a refl)
  Yields-intro (throw e) h k = raises e
  Yields-intro stuck h k = absurd (h refl)

  pub Yields-ok : (m : Outcome A) {a : A} → Yields P m → m ≡ ok a → P a
  Yields-ok (ok _) (yields b p) e = rw (← ok_injective b _ e) p
  Yields-ok (throw _) y e = cc
  Yields-ok stuck y e = cc

  pub Yields-ne-stuck : (m : Outcome A) → Yields P m → m ≢ stuck
  Yields-ne-stuck (ok b) y e = cc
  Yields-ne-stuck (throw e) y h = cc
  Yields-ne-stuck stuck y e = elim y [ ]

  pub Yields-throw_if :
      (test : Bool) (message : String) {k : Outcome A}
      → (test ≡ false → Yields P k)
      → Yields P (throw_if test message >> k)
  Yields-throw_if true message h = raises message
  Yields-throw_if false message h = h refl

  -- A branch, with its test at hand.
  pub Yields-if :
      (test : Bool) {m k : Outcome A}
      → (test ≡ true → Yields P m)
      → (test ≡ false → Yields P k)
      → Yields P (if test then m else k)
  Yields-if true h h' = h refl
  Yields-if false h h' = h' refl

module _ {ℓ κ μ ν} {A : Type ℓ} {B : Type κ} {P : A → Type μ} {Q : B → Type ν} where
  pub Yields-bind :
      (m : Outcome A) (f : A → Outcome B)
      → Yields P m
      → ((a : A) → P a → Yields Q (f a))
      → Yields Q (m >>= f)
  Yields-bind (ok _) f (yields a p) k = k a p
  Yields-bind (throw _) f (raises e) k = raises e
  Yields-bind stuck f y k = elim y [ ]

  -- The same, where the rest needs what the first gives.
  pub Yields-bind_eq :
      (m : Outcome A) (f : A → Outcome B)
      → Yields P m
      → ((a : A) → m ≡ ok a → P a → Yields Q (f a))
      → Yields Q (m >>= f)
  Yields-bind_eq (ok _) f (yields a p) k = k a refl p
  Yields-bind_eq (throw _) f (raises e) k = raises e
  Yields-bind_eq stuck f y k = elim y [ ]
