-- ===== src/Passes/ConstantPropagation/Folding/Erase.antt =====
-- src/passes/constant_propagation.cpp, `erase_dead_instructions`, for instructions without uses.
use vexa.Prelude.{ℕ, zero, suc, ◌≡◌, ap, refl, List, [], ◌∷◌, ◌++◌, All, Bool-cases, inl, inr}
use vexa.Terms.{Bitwuzla}
use vexa.Passes.ConstantPropagation.Folding.{
  FoldInstr, uses_in, collect_instruction_users, is_empty, erase_instr, erase_dead_instructions,
}

pub append-nil {ℓ} : {A : Type ℓ} (xs ys : List A) → xs ++ ys ≡ [] → (xs ≡ []) × (ys ≡ [])
append-nil [] ys h = (refl, h)
append-nil (x ∷ xs) ys h = cc

module _ ⦃B : Bitwuzla⦄ where
  users-erase_instr :
      (d i k : ℕ) (f : List FoldInstr)
      → collect_instruction_users d k f ≡ []
      → collect_instruction_users d k (erase_instr i f) ≡ []
  users-erase_instr d i k [] h = refl
  users-erase_instr d zero k (p ∷ f) h =
      (append-nil (uses_in d k p.operands) (collect_instruction_users d (suc k) f) h).1
  users-erase_instr d (suc i) k (p ∷ f) h =
      let (first, after) =
        append-nil (uses_in d k p.operands) (collect_instruction_users d (suc k) f) h in
      rw first (users-erase_instr d i (suc k) f after)

  -- Erasing makes no new uses.
  users-erase_dead_instructions :
      (d : ℕ) (dead : List ℕ) (f : List FoldInstr)
      → collect_instruction_users d 0 f ≡ []
      → collect_instruction_users d 0 (erase_dead_instructions dead f).0 ≡ []
  unfolding erase_dead_instructions
  users-erase_dead_instructions d [] f h = h
  users-erase_dead_instructions d (i ∷ is) f h =
      let f' = (erase_dead_instructions is f).0 in
      let kept = users-erase_dead_instructions d is f h in
      elim (Bool-cases (is_empty (collect_instruction_users i 0 f'))) [
        | inl unused ↦ rw unused (users-erase_instr d i 0 f' kept)
        | inr used ↦ rw used kept
      ]

  pub erase_dead_instructions_whole :
      (dead : List ℕ) (f : List FoldInstr)
      → All (λ d. collect_instruction_users d 0 f ≡ []) dead
      → (erase_dead_instructions dead f).1 ≡ dead
  unfolding erase_dead_instructions
  erase_dead_instructions_whole [] f h = refl
  erase_dead_instructions_whole (i ∷ is) f h =
      rw (users-erase_dead_instructions i is f h.0)
        (ap (λ l. i ∷ l) (erase_dead_instructions_whole is f h.1))
