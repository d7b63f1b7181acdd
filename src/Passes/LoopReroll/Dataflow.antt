-- ===== src/Passes/LoopReroll/Dataflow.antt =====
-- src/passes/loop_reroll.cpp: what `dataflow_analysis` finds.
use vexa.Prelude.{
  ℕ, suc, ◌≡◌, ◌≢◌, ◌∙◌, ap, refl, Bool, true, false, not, ◌&&◌, ◌||◌, List, [], ◌∷◌, ◌++◌, ◌==◌,
  arith, inl, inr, Bool-cases, All, AllPairs, AllPairs-snoc,
}
use vexa.Passes.LoopReroll.{
  Operand, constant_int, constant, value, Instruction, Hashed, Dependency, Dataflow, is_defined,
  is_dependency, add_dependency, add_dependencies, analyse, dataflow_analysis,
}

-- Whether a value is an operand.
abbrev pub is_operand : ℕ → List Operand → Bool
is_operand v [] = false
is_operand v (constant_int n ∷ os) = is_operand v os
is_operand v (constant ∷ os) = is_operand v os
is_operand v (value w ∷ os) = (w == v) || is_operand v os

-- Whether an instruction uses a value.
abbrev pub is_used : ℕ → List Hashed → Bool
is_used v [] = false
is_used v (i ∷ l) = is_operand v i.value.operands || is_used v l

is_dependency-append :
    (v : ℕ) (ds : Dataflow) (d : Dependency)
    → is_dependency v (ds ++ d ∷ []) ≡ is_dependency v ds || (d.dependency == v)
is_dependency-append v [] d = ground arith
is_dependency-append v (e ∷ ds) d = ground (arith, is_dependency-append v ds d)

-- The dependencies differ, and are what stood there before with `used`, where it is not defined.
record Adds (block : List Hashed) (used : ℕ → Bool) (ds ds' : Dataflow) : Type 0 where
  found : (v : ℕ) → is_dependency v ds' ≡ is_dependency v ds || (used v && not (is_defined v block))
  differ :
      AllPairs (λ d e. d.dependency ≢ e.dependency) ds
      → AllPairs (λ d e. d.dependency ≢ e.dependency) ds'

not-dependency :
    (v : ℕ) (ds : Dataflow) → is_dependency v ds ≡ false → All (λ d. d.dependency ≢ v) ds
not-dependency v [] h = tt
not-dependency v (d ∷ ds) h = ((λ e. ground (arith, e, h)), not-dependency v ds (ground (arith, h)))

same_value_defined :
    (v w : ℕ) (block : List Hashed) → (w == v) ≡ true → is_defined w block ≡ is_defined v block
same_value_defined v w block h = let e : w ≡ v = ground arith in ap (λ x. is_defined x block) e

same_value_dependency :
    (v w : ℕ) (ds : Dataflow) → (w == v) ≡ true → is_dependency w ds ≡ is_dependency v ds
same_value_dependency v w ds h = let e : w ≡ v = ground arith in ap (λ x. is_dependency x ds) e

Adds-add_dependency :
    (block : List Hashed) (i : Instruction) (index : ℕ) (o : Operand) (ds : Dataflow)
    → Adds block (λ v. is_operand v (o ∷ [])) ds (add_dependency block i index o ds)
unfolding add_dependency
Adds-add_dependency block i index (constant_int n) ds = record {
  found = λ v. ground arith;
  differ = λ h. h;
}
Adds-add_dependency block i index constant ds = record {
  found = λ v. ground arith;
  differ = λ h. h;
}
Adds-add_dependency block i index (value w) ds =
    elim (Bool-cases (is_defined w block || is_dependency w ds)) [
      | inl known ↦ rw known (record {
        found = λ v. elim (Bool-cases (w == v)) [
          | inl same ↦ ground (
            arith,
            known,
            same,
            same_value_defined v w block same,
            same_value_dependency v w ds same,
          )
          | inr other ↦ ground (arith, other)
        ];
        differ = λ h. h;
      })
      | inr new ↦ rw new (record {
        found = λ v. elim (Bool-cases (w == v)) [
          | inl same ↦
              is_dependency-append v ds _
              ∙ ground (arith, new, same, same_value_defined v w block same)
          | inr other ↦ is_dependency-append v ds _ ∙ ground (arith, other)
        ];
        differ = λ h. AllPairs-snoc _ ds _ h (not-dependency w ds (ground (arith, new)));
      })
    ]

Adds-trans :
    (block : List Hashed) (u u' : ℕ → Bool) (ds es fs : Dataflow)
    → Adds block u ds es
    → Adds block u' es fs
    → Adds block (λ v. u v || u' v) ds fs
Adds-trans block u u' ds es fs a b = record {
  found = λ v. b.found v ∙ ground (arith, a.found v);
  differ = λ h. b.differ (a.differ h);
}

Adds-eq :
    (block : List Hashed) (u u' : ℕ → Bool) (ds es : Dataflow)
    → ((v : ℕ) → u v ≡ u' v)
    → Adds block u ds es
    → Adds block u' ds es
Adds-eq block u u' ds es e a = record {
  found = λ v. a.found v ∙ ap (λ b. is_dependency v ds || (b && not (is_defined v block))) (e v);
  differ = a.differ;
}

Adds-none : (block : List Hashed) (ds : Dataflow) → Adds block (λ v. false) ds ds
Adds-none block ds = record { found = λ v. ground arith; differ = λ h. h }

is_operand-cons :
    (o : Operand) (os : List Operand) (v : ℕ)
    → is_operand v (o ∷ []) || is_operand v os ≡ is_operand v (o ∷ os)
is_operand-cons (constant_int n) os v = refl
is_operand-cons constant os v = refl
is_operand-cons (value w) os v = ground arith

Adds-add_dependencies :
    (block : List Hashed) (i : Instruction) (index : ℕ) (os : List Operand) (ds : Dataflow)
    → Adds block (λ v. is_operand v os) ds (add_dependencies block i index os ds)
unfolding add_dependencies
Adds-add_dependencies block i index [] ds = Adds-none block ds
Adds-add_dependencies block i index (o ∷ os) ds = Adds-eq block _ _ ds _ (is_operand-cons o os) (
    Adds-trans block _ _ ds (add_dependency block i index o ds) _
      (Adds-add_dependency block i index o ds)
      (Adds-add_dependencies block i index os (add_dependency block i index o ds)))

Adds-analyse :
    (block : List Hashed) (index : ℕ) (l : List Hashed) (ds : Dataflow)
    → Adds block (λ v. is_used v l) ds (analyse block index l ds)
unfolding analyse
Adds-analyse block index [] ds = Adds-none block ds
Adds-analyse block index (i ∷ l) ds =
    let ds' = add_dependencies block i.value index i.value.operands ds in
    Adds-trans block _ _ ds ds' _ (Adds-add_dependencies block i.value index i.value.operands ds)
      (Adds-analyse block (suc index) l ds')

-- The dependencies of a sequence of instructions are the values that they use and do not define,
-- each of them once.
pub dataflow_analysis_sound :
    (block : List Hashed)
    → ((v : ℕ)
        → is_dependency v (dataflow_analysis block) ≡ is_used v block && not (is_defined v block))
      × AllPairs (λ d e. d.dependency ≢ e.dependency) (dataflow_analysis block)
unfolding dataflow_analysis
dataflow_analysis_sound block = let a = Adds-analyse block 0 block [] in (a.found, a.differ tt)
