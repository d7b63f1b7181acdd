-- ===== src/Symex.antt =====
-- src/symex/symex.cpp: the symbolic values of LLVM values, `get`, `set`, `clear` and `is_sync`.
pub mod Lookup
use vexa.Prelude.{
  ℕ, Bool, true, false, Option, none, some, Result, ok, throw, ◌==◌, if◌then◌else◌, ltb, ◌^◌,
}
use vexa.Terms.{Bitwuzla}
use vexa.Value.{Value, concrete}

-- An LLVM value by its number; a `ConstantInt` has its number and its width.
pub record LlvmValue : Type 0 where
  pub number : ℕ
  pub constant_int : Option (ℕ × ℕ)

module _ ⦃B : Bitwuzla⦄ where
  -- `vars`
  abbrev pub Vars : Type 0
  Vars = ℕ → Option Value

  abbrev pub get_constant : Option (ℕ × ℕ) → Result Value
  get_constant none = throw
  get_constant (some (n, width)) = if ltb n (2 ^ 64) then ok (concrete n width) else throw

  abbrev pub found_or : Option Value → Result Value → Result Value
  found_or none other = other
  found_or (some e) other = ok e

  unfoldable pub get : Vars → LlvmValue → Result Value
  get vars v = found_or (vars v.number) (get_constant v.constant_int)

  unfoldable pub set : Vars → LlvmValue → Value → Vars
  set vars v e = λ n. if n == v.number then some e else vars n

  unfoldable pub clear : Vars → Vars
  clear vars = λ n. none

  abbrev pub is_found : Option Value → Bool
  is_found none = false
  is_found (some e) = true

  unfoldable pub is_sync : Vars → LlvmValue → Bool
  is_sync vars v = is_found (vars v.number)
