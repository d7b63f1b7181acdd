-- ===== src/Tests/Folds.antt =====
-- src/passes/constant_propagation.cpp on two instructions, and on one of 128 bits.
use vexa.Prelude.{
  ℕ, ◌%◌, ◌^◌, ◌≡◌, refl, true, false, List, [], ◌∷◌, none, some, All, arith, if◌then◌else◌, ◌==◌,
  contains,
}
use vexa.Terms.Trees.{value}
use vexa.Passes.ConstantPropagation.Folding.{
  erase_dead_instructions, constant, result, FoldInstr, Folder, fold_value, propagate_ssa_values,
}
use vexa.Passes.ConstantPropagation.Folding.Meaning.{
  IsUnused, operand_meanings, fold_value_cuts, propagate_ssa_values_sound,
}
use vexa.Tests.{solver}

abbrev foldable : ℕ → ℕ → FoldInstr
foldable w n = record {
  is_foldable = true;
  in_loop = false;
  in_joined_block = false;
  width = w;
  expression = record { term = value w n; simplified = true; page = none };
  operands = [];
}

-- A sum of constants, and a sum with it.
abbrev two_sums : List FoldInstr
two_sums =
    record (foldable 32 3) { operands = constant 1 ∷ constant 2 ∷ [] }
    ∷ record (foldable 32 4) { operands = result 0 ∷ constant 1 ∷ [] }
    ∷ []

abbrev results : ℕ → ℕ
results i = if i == 0 then 3 else 4

-- The second is folded after the first.
folds_both :
    (s : Folder) × (propagate_ssa_values 3 two_sums (0 ∷ []) ≡ some s)
    × (s.dead_values ≡ 0 ∷ 1 ∷ [])
unfolding propagate_ssa_values
folds_both = (_, refl, refl)

propagate_ssa_values_sound_example :
    (s : Folder) × (propagate_ssa_values 3 two_sums (0 ∷ []) ≡ some s)
    × (operand_meanings results results s.function ≡ operand_meanings results results two_sums)
    × ((j : ℕ) → contains j s.dead_values ≡ contains j s.folded)
    × All (IsUnused s.function) s.dead_values
    × ((erase_dead_instructions s.dead_values s.function).1 ≡ s.dead_values)
propagate_ssa_values_sound_example =
    propagate_ssa_values_sound true results results two_sums (0 ∷ [])
      (refl, omega arith, (refl, omega arith, tt))

-- 2 ^ 64 in 128 bits is folded to 0.
fold_value_cuts_example : 0 ≡ 18446744073709551616 % 2 ^ 64
unfolding fold_value
fold_value_cuts_example =
    fold_value_cuts true (foldable 128 18446744073709551616) 0 (omega arith) refl
