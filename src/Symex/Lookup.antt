-- ===== src/Symex/Lookup.antt =====
-- src/symex/symex.cpp: what `get` gives after `set`.
use vexa.Prelude.{◌≡◌, refl, ok, ◌==◌, if◌then◌else◌, Bool-cases, inl, inr}
use vexa.Terms.{Bitwuzla}
use vexa.Value.{Value}
use vexa.Symex.{LlvmValue, Vars, get, set}

module _ ⦃B : Bitwuzla⦄ where
  -- After `set` of one value, `get` of that value gives it, and `get` of any other value gives what
  -- it gave before, an error included.
  pub get-set :
      (vars : Vars) (v w : LlvmValue) (e : Value)
      → get (set vars v e) w ≡ (if w.number == v.number then ok e else get vars w)
  unfolding get set
  get-set vars v w e = elim (Bool-cases (w.number == v.number)) [
    | inl same ↦ rw same refl
    | inr other ↦ rw other refl
  ]
