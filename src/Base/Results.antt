-- ===== src/Base/Results.antt =====
-- A call that gives a value or an error: Go's pair `(value, err)` where the value is not read beside
-- an error.
use mathlib.Core.Path.{◌≡◌, refl}
use Prim.Native.String.{String}

pub data Result {ℓ} (A : Type ℓ) : Type ℓ where
  ok : A → Result A
  failed : String → Result A

infixl 5 ◌>>=◌
abbrev pub ◌>>=◌ {ℓ κ} : {A : Type ℓ} {B : Type κ} → Result A → (A → Result B) → Result B
ok a >>= f = f a
failed e >>= f = failed e

-- What is known of two calls of which the second succeeds.
module _ {ℓ κ} {A : Type ℓ} {B : Type κ} (next : A → Result B) where
  pub >>=-succeeds :
      (first : Result A) (value : B)
      → (first >>= next) ≡ ok value
      → (a : A) × (next a ≡ ok value) × (first ≡ ok a)
  >>=-succeeds (failed e) value h = cc
  >>=-succeeds (ok a) value h = (a, h, refl)
