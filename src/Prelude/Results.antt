-- ===== src/Prelude/Results.antt =====
-- `THROW` and a failed `VEXA_ASSERT` end the operation: a result or the error.
use mathlib.Core.Path.{◌≡◌, refl}
use mathlib.Core.Bool.{Bool, true, false}

pub data Result {ℓ} (A : Type ℓ) : Type ℓ where
  throw : Result A
  ok : A → Result A

-- `VEXA_ASSERT`
abbrev pub vexa_assert : Bool → Result (Unit {0})
vexa_assert false = throw
vexa_assert true = ok tt

module _ {ℓ κ} {A : Type ℓ} {B : Type κ} where
  infixl 5 ◌>>=◌
  abbrev pub ◌>>=◌ : Result A → (A → Result B) → Result B
  throw >>= next = throw
  ok x >>= next = next x

  pub >>=-eq-ok :
      (m : Result A) (next : A → Result B) {b : B}
      → (m >>= next) ≡ ok b
      → (x : A) × (m ≡ ok x) × (next x ≡ ok b)
  >>=-eq-ok throw next h = cc
  >>=-eq-ok (ok x) next h = (x, refl, h)

infixl 5 ◌>>◌
-- One statement, then the others.
abbrev pub ◌>>◌ {κ} : {B : Type κ} → Result (Unit {0}) → Result B → Result B
throw >> others = throw
ok _ >> others = others
