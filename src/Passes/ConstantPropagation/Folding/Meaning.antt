-- ===== src/Passes/ConstantPropagation/Folding/Meaning.antt =====
-- src/passes/constant_propagation.cpp: what the operands of instructions mean before and after
-- folding, and the folded instructions.
use mathlib.Core.Option.{some-injective}
use vexa.Prelude.{
  ℕ, zero, suc, ◌+◌, ◌%◌, ◌^◌, ◌≤◌, ◌<◌, ◌≡◌, ◌∙◌, sym, ap, ap₂, refl, Bool, true, false, ◌&&◌,
  ◌||◌, List, [], ◌∷◌, ◌++◌, Option, none, some, ◌==◌, leb, length, get_elem?, map, contains, arith,
  inl, inr, Bool-cases, All, All-append,
}
use vexa.Terms.{Bitwuzla}
use vexa.Value.{is_concrete, simplify, term_as_uint64}
use vexa.Value.Simplify.{eval-simplify_value}
use vexa.Passes.ConstantPropagation.Folding.{
  Operand, constant, undefined, result, other, replace_operand, uses_in, remove, FoldInstr,
  replace_all_uses, collect_instruction_users, Folder, enqueue_all, fold_value, fold_value_at,
  unless_pointer, fold, fold_if, process, round, go_on, propagate, propagate_ssa_values,
  is_ssa_fold_candidate,
}
use vexa.Passes.ConstantPropagation.Folding.{erase_dead_instructions}
use vexa.Passes.ConstantPropagation.Folding.Erase.{append-nil, erase_dead_instructions_whole}
use vexa.Passes.ConstantPropagation.Folding.Ends.{use_count, propagate-ends, enqueue_all-Enqueued}

-- What an operand is in a run: `val` gives the results of the instructions, `given` the other
-- values. An undefined operand has no value.
abbrev pub meaning : (ℕ → ℕ) → (ℕ → ℕ) → Operand → Option ℕ
meaning val given (constant n) = some n
meaning val given undefined = none
meaning val given (result i) = some (val i)
meaning val given (other m) = some (given m)

module _ (val given : ℕ → ℕ) where
  meaning-replace_operand :
      (i n : ℕ) (o : Operand)
      → val i ≡ n
      → meaning val given (replace_operand i n o) ≡ meaning val given o
  meaning-replace_operand i n (constant m) h = refl
  meaning-replace_operand i n undefined h = refl
  meaning-replace_operand i n (result j) h = elim (Bool-cases (j == i)) [
    | inl same ↦ let e : j ≡ i = ground arith in rw (same, e) (ap some (sym h))
    | inr differs ↦ rw differs refl
  ]
  meaning-replace_operand i n (other m) h = refl

  meanings-replace :
      (i n : ℕ) (os : List Operand)
      → val i ≡ n
      → map (meaning val given) (map (replace_operand i n) os) ≡ map (meaning val given) os
  meanings-replace i n [] h = refl
  meanings-replace i n (o ∷ os) h =
      ap₂ (λ x xs. x ∷ xs) (meaning-replace_operand i n o h) (meanings-replace i n os h)

uses_in-replaced : (i n k : ℕ) (os : List Operand) → uses_in i k (map (replace_operand i n) os) ≡ []
uses_in-replaced i n k [] = refl
uses_in-replaced i n k (constant m ∷ os) = uses_in-replaced i n k os
uses_in-replaced i n k (undefined ∷ os) = uses_in-replaced i n k os
uses_in-replaced i n k (result j ∷ os) = elim (Bool-cases (j == i)) [
  | inl same ↦ rw same (uses_in-replaced i n k os)
  | inr differs ↦ rw (differs, differs) (uses_in-replaced i n k os)
]
uses_in-replaced i n k (other m ∷ os) = uses_in-replaced i n k os

uses_in-kept :
    (d i n k : ℕ) (os : List Operand)
    → uses_in d k os ≡ []
    → uses_in d k (map (replace_operand i n) os) ≡ []
uses_in-kept d i n k [] h = refl
uses_in-kept d i n k (constant m ∷ os) h = uses_in-kept d i n k os h
uses_in-kept d i n k (undefined ∷ os) h = uses_in-kept d i n k os h
uses_in-kept d i n k (result j ∷ os) h = elim (Bool-cases (j == d)) [
  | inl used ↦ cc
  | inr off ↦ elim (Bool-cases (j == i)) [
    | inl same ↦ rw same (uses_in-kept d i n k os (rw off at h))
    | inr differs ↦ rw (differs, off) (uses_in-kept d i n k os (rw off at h))
  ]
]
uses_in-kept d i n k (other m ∷ os) h = uses_in-kept d i n k os h

contains-snoc : (j i : ℕ) (l : List ℕ) → contains j (l ++ i ∷ []) ≡ (j == i) || contains j l
contains-snoc j i [] = ground arith
contains-snoc j i (k ∷ l) = ground (arith, contains-snoc j i l)

unless_pointer_lem :
    (page : Option ℕ) (tests : Bool) (n m : ℕ)
    → unless_pointer page tests n ≡ some m
    → (tests ≡ true) × (n ≡ m)
unless_pointer_lem (some page) tests n m h = cc
unless_pointer_lem none true n m h = (refl, some-injective n m h)
unless_pointer_lem none false n m h = cc

module _ ⦃B : Bitwuzla⦄ where
  open B use {Env, eval, size, is_value, value_of, eval-value}

  -- No operand of the function is the instruction.
  abbrev pub IsUnused : List FoldInstr → ℕ → Type 0
  IsUnused f i = collect_instruction_users i 0 f ≡ []

  users-replaced :
      (i n k : ℕ) (f : List FoldInstr) → collect_instruction_users i k (replace_all_uses i n f) ≡ []
  users-replaced i n k [] = refl
  users-replaced i n k (p ∷ f) =
      rw (uses_in-replaced i n k p.operands) (users-replaced i n (suc k) f)

  users-kept :
      (d i n k : ℕ) (f : List FoldInstr)
      → collect_instruction_users d k f ≡ []
      → collect_instruction_users d k (replace_all_uses i n f) ≡ []
  users-kept d i n k [] h = refl
  users-kept d i n k (p ∷ f) h =
      let (here, after) =
        append-nil (uses_in d k p.operands) (collect_instruction_users d (suc k) f) h in
      rw (uses_in-kept d i n k p.operands here) (users-kept d i n (suc k) f after)

  All-users-kept :
      (i n : ℕ) (f : List FoldInstr) (ds : List ℕ)
      → All (IsUnused f) ds
      → All (IsUnused (replace_all_uses i n f)) ds
  All-users-kept i n f [] h = tt
  All-users-kept i n f (d ∷ ds) h = (users-kept d i n 0 f h.0, All-users-kept i n f ds h.1)

  -- The symbolic value of each instruction is its result in the run, and none is wider than 64
  -- bits.
  abbrev pub Agrees : Env → (ℕ → ℕ) → List FoldInstr → Type 0
  Agrees ρ val [] = Unit
  Agrees ρ val (p ∷ f) =
      (val 0 ≡ eval ρ p.expression.term) × (p.width ≤ 64) × Agrees ρ (λ j. val (suc j)) f

  Agrees-replace :
      (ρ : Env) (val : ℕ → ℕ) (i n : ℕ) (f : List FoldInstr)
      → Agrees ρ val f
      → Agrees ρ val (replace_all_uses i n f)
  Agrees-replace ρ val i n [] h = tt
  Agrees-replace ρ val i n (p ∷ f) (e, w, h) = (e, w, Agrees-replace ρ (λ j. val (suc j)) i n f h)

  fold_value_sound :
      (ρ : Env) (p : FoldInstr) (n : ℕ)
      → p.width ≤ 64
      → fold_value p ≡ some n
      → eval ρ p.expression.term ≡ n
  unfolding fold_value
  fold_value_sound ρ p n w h =
      let v = simplify p.expression in
      let (tests, same) =
        unless_pointer_lem v.page
          (is_ssa_fold_candidate p && is_concrete v && (size v.term == p.width))
          (term_as_uint64 v.term) n h in
      let concrete : is_value v.term ≡ true = ground arith in
      let narrow : leb (size v.term) 64 ≡ true = ground arith in
      let read : term_as_uint64 v.term ≡ value_of v.term = rw narrow refl in
      sym (eval-simplify_value ρ p.expression) ∙ eval-value ρ v.term concrete ∙ sym read ∙ same

  -- An instruction wider than 64 bits is folded to the lowest 64 bits of its value, whatever the
  -- higher ones are.
  pub fold_value_cuts :
      (ρ : Env) (p : FoldInstr) (n : ℕ)
      → 64 < p.width
      → fold_value p ≡ some n
      → n ≡ eval ρ p.expression.term % 2 ^ 64
  unfolding fold_value
  fold_value_cuts ρ p n w h =
      let v = simplify p.expression in
      let (tests, same) =
        unless_pointer_lem v.page
          (is_ssa_fold_candidate p && is_concrete v && (size v.term == p.width))
          (term_as_uint64 v.term) n h in
      let concrete : is_value v.term ≡ true = ground arith in
      let wide : leb (size v.term) 64 ≡ false = ground arith in
      let read : term_as_uint64 v.term ≡ value_of v.term % 2 ^ 64 = rw wide refl in
      let whole : eval ρ p.expression.term ≡ value_of v.term =
        sym (eval-simplify_value ρ p.expression) ∙ eval-value ρ v.term concrete in
      sym same ∙ read ∙ ap (λ x. x % 2 ^ 64) (sym whole)

  fold_value_at_sound :
      (ρ : Env) (val : ℕ → ℕ) (f : List FoldInstr) (i n : ℕ)
      → Agrees ρ val f
      → fold_value_at (get_elem? f i) ≡ some n
      → val i ≡ n
  fold_value_at_sound ρ val [] i n h e = cc
  fold_value_at_sound ρ val (p ∷ f) zero n (v, w, h) e = v ∙ fold_value_sound ρ p n w e
  fold_value_at_sound ρ val (p ∷ f) (suc i) n (v, w, h) e =
      fold_value_at_sound ρ (λ j. val (suc j)) f i n h e

  -- What every operand of the function is in the run.
  abbrev pub operand_meanings : (ℕ → ℕ) → (ℕ → ℕ) → List FoldInstr → List (List (Option ℕ))
  operand_meanings val given f = map (λ p. map (meaning val given) p.operands) f

  operand_meanings-replace :
      (val given : ℕ → ℕ) (i n : ℕ) (f : List FoldInstr)
      → val i ≡ n
      → operand_meanings val given (replace_all_uses i n f) ≡ operand_meanings val given f
  operand_meanings-replace val given i n [] h = refl
  operand_meanings-replace val given i n (p ∷ f) h =
      ap₂ (λ x xs. x ∷ xs) (meanings-replace val given i n p.operands h)
        (operand_meanings-replace val given i n f h)

  module _ (ρ : Env) (val given : ℕ → ℕ) where
    -- The invariant of the loop, for the function `f` that it started with.
    pub record Kept (f : List FoldInstr) (s : Folder) : Type 0 where
      pub meanings : operand_meanings val given s.function ≡ operand_meanings val given f
      pub agrees : Agrees ρ val s.function
      pub unused : All (IsUnused s.function) s.dead_values
      pub dead : (j : ℕ) → contains j s.dead_values ≡ contains j s.folded

    Kept-fields :
        (f : List FoldInstr) (s s' : Folder)
        → s'.function ≡ s.function
        → s'.dead_values ≡ s.dead_values
        → s'.folded ≡ s.folded
        → Kept f s
        → Kept f s'
    Kept-fields f s s' e d k h = record {
      meanings = ap (operand_meanings val given) e ∙ h.meanings;
      agrees = rw e h.agrees;
      unused = rw (e, d) h.unused;
      dead = λ j. rw (d, k) (h.dead j);
    }

    Kept-fold :
        (f : List FoldInstr) (i n : ℕ) (s : Folder) → val i ≡ n → Kept f s → Kept f (fold i n s)
    unfolding fold
    Kept-fold f i n s v h =
        let users = collect_instruction_users i 0 s.function in
        let replaced : Folder = record s {
          folded = i ∷ s.folded;
          function = replace_all_uses i n s.function;
          dead_values = s.dead_values ++ i ∷ [];
        } in
        let e = enqueue_all-Enqueued users replaced in
        Kept-fields f replaced (enqueue_all users replaced) e.function_kept e.dead_kept
          e.folded_kept
          (record {
            meanings = operand_meanings-replace val given i n s.function v ∙ h.meanings;
            agrees = Agrees-replace ρ val i n s.function h.agrees;
            unused =
                All-append (IsUnused replaced.function) s.dead_values (i ∷ [])
                  (All-users-kept i n s.function s.dead_values h.unused)
                  (users-replaced i n 0 s.function, tt);
            dead = λ j. contains-snoc j i s.dead_values ∙ ap (λ b. (j == i) || b) (h.dead j);
          })

    Kept-fold_if :
        (f : List FoldInstr) (seen : Bool) (i : ℕ) (o : Option ℕ) (s : Folder)
        → ((n : ℕ) → o ≡ some n → val i ≡ n)
        → Kept f s
        → Kept f (fold_if seen i o s)
    Kept-fold_if f true i o s v h = h
    Kept-fold_if f false i none s v h = h
    Kept-fold_if f false i (some n) s v h = Kept-fold f i n s (v n refl) h

    propagate-Kept :
        (fuel : ℕ) (queue : List ℕ) (f : List FoldInstr) (s s' : Folder)
        → s.worklist ≡ queue
        → propagate fuel s ≡ some s'
        → Kept f s
        → Kept f s'
    unfolding propagate process
    propagate-Kept zero queue f s s' e r h = cc
    propagate-Kept (suc fuel) [] f s s' e r h =
        let last : some s ≡ some s' = ap (λ q. go_on (round q s) s (propagate fuel)) (sym e) ∙ r in
        rw (← some-injective s s' last) h
    propagate-Kept (suc fuel) (i ∷ rest) f s s' e r h =
        let popped : Folder = record s { worklist = rest; queued = remove i s.queued } in
        let next = process i popped in
        let more : propagate fuel next ≡ some s' =
          ap (λ q. go_on (round q s) s (propagate fuel)) (sym e) ∙ r in
        propagate-Kept fuel next.worklist f next s' refl more (
          Kept-fold_if f (contains i s.folded) i (fold_value_at (get_elem? s.function i)) popped
            (λ n. fold_value_at_sound ρ val s.function i n h.agrees)
            (Kept-fields f s popped refl refl refl h))

-- For a run in which every instruction has the result that its symbolic value says, with integers
-- of at most 64 bits, `propagate_ssa_values` ends from any seeds within as many rounds as there are
-- seeds and operands that are instructions; every operand of every instruction means what it did,
-- `dead_values` has the instructions that are folded and no others, no operand is one of them, and
-- `erase_dead_instructions` erases all of them.
pub propagate_ssa_values_sound :
    ⦃B : Bitwuzla⦄ (ρ : B.Env) (val given : ℕ → ℕ) (f : List FoldInstr) (seeds : List ℕ)
    → Agrees ρ val f
    → (s : Folder) × (propagate_ssa_values (length seeds + use_count f + 1) f seeds ≡ some s)
      × (operand_meanings val given s.function ≡ operand_meanings val given f)
      × ((j : ℕ) → contains j s.dead_values ≡ contains j s.folded)
      × All (IsUnused s.function) s.dead_values
      × ((erase_dead_instructions s.dead_values s.function).1 ≡ s.dead_values)
unfolding propagate_ssa_values
propagate_ssa_values_sound ρ val given f seeds h =
    let start : Folder = record {
      function = f;
      worklist = [];
      queued = [];
      folded = [];
      dead_values = [];
    } in
    let s = enqueue_all seeds start in
    let e = enqueue_all-Enqueued seeds start in
    let (s', r) =
      propagate-ends (length seeds + use_count f + 1) s.worklist s refl
        (omega (arith, e.grows, ap use_count e.function_kept)) in
    let k = propagate-Kept ρ val given (length seeds + use_count f + 1) s.worklist f s s' refl r (
      Kept-fields ρ val given f start s e.function_kept e.dead_kept e.folded_kept
        (record { meanings = refl; agrees = h; unused = tt; dead = λ j. refl })) in
    (
      s',
      r,
      k.meanings,
      k.dead,
      k.unused,
      erase_dead_instructions_whole s'.dead_values s'.function k.unused,
    )
