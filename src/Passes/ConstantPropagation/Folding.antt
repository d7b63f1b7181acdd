-- ===== src/Passes/ConstantPropagation/Folding.antt =====
-- src/passes/constant_propagation.cpp: folding the integer instructions whose operands are constants
-- and whose symbolic value is concrete. An instruction is its index in the function.
pub mod Ends
pub mod Erase
pub mod Meaning
use vexa.Prelude.{
  ℕ, zero, suc, ◌+◌, ◌%◌, ◌^◌, Bool, true, false, not, ◌&&◌, ◌||◌, List, [], ◌∷◌, ◌++◌, Option,
  none, some, ◌==◌, if◌then◌else◌, length, get_elem?, map, contains,
}
use vexa.Terms.{Bitwuzla}
use vexa.Value.{Value, is_concrete, simplify, term_as_uint64}

-- An operand: a constant, an undefined or poison value, an instruction, or another value.
pub data Operand : Type 0 where
  constant : ℕ → Operand
  undefined : Operand
  result other : ℕ → Operand

-- `has_only_defined_constant_operands`
unfoldable pub has_only_defined_constant_operands : List Operand → Bool
has_only_defined_constant_operands [] = true
has_only_defined_constant_operands (constant n ∷ os) = has_only_defined_constant_operands os
has_only_defined_constant_operands (undefined ∷ os) = false
has_only_defined_constant_operands (result i ∷ os) = false
has_only_defined_constant_operands (other n ∷ os) = false

-- `replaceAllUsesWith` in one operand: `i` by the constant `n`.
abbrev pub replace_operand : ℕ → ℕ → Operand → Operand
replace_operand i n (constant m) = constant m
replace_operand i n undefined = undefined
replace_operand i n (result j) = if j == i then constant n else result j
replace_operand i n (other m) = other m

-- The uses of `i` among the operands, each as one `user`.
abbrev pub uses_in : ℕ → ℕ → List Operand → List ℕ
uses_in i user [] = []
uses_in i user (constant m ∷ os) = uses_in i user os
uses_in i user (undefined ∷ os) = uses_in i user os
uses_in i user (result j ∷ os) =
    let rest = uses_in i user os in if j == i then user ∷ rest else rest
uses_in i user (other m ∷ os) = uses_in i user os

abbrev pub remove : ℕ → List ℕ → List ℕ
remove x [] = []
remove x (y ∷ ys) = let rest = remove x ys in if x == y then rest else y ∷ rest

-- `n` where the tests hold and the value is no pointer into a page.
abbrev pub unless_pointer : Option ℕ → Bool → ℕ → Option ℕ
unless_pointer (some page) tests n = none
unless_pointer none true n = some n
unless_pointer none false n = none

module _ ⦃B : Bitwuzla⦄ where
  open B use {size}

  -- An instruction: whether the tests of `is_ssa_fold_candidate` on its kind and type hold, whether
  -- its block is in a loop or has several predecessors, its width, its symbolic value and operands.
  pub record FoldInstr : Type 0 where
    pub is_foldable : Bool
    pub in_loop : Bool
    pub in_joined_block : Bool
    pub width : ℕ
    pub expression : Value
    pub operands : List Operand

  unfoldable pub is_ssa_fold_candidate : FoldInstr → Bool
  unfolding has_only_defined_constant_operands
  is_ssa_fold_candidate p =
      p.is_foldable
      && not p.in_loop
      && not p.in_joined_block
      && has_only_defined_constant_operands p.operands

  abbrev pub replace_in : ℕ → ℕ → FoldInstr → FoldInstr
  replace_in i n p = record p { operands = map (replace_operand i n) p.operands }

  -- `replaceAllUsesWith`
  abbrev pub replace_all_uses : ℕ → ℕ → List FoldInstr → List FoldInstr
  replace_all_uses i n f = map (replace_in i n) f

  -- `collect_instruction_users`, in the order of the instructions from number `k` on.
  abbrev pub collect_instruction_users : ℕ → ℕ → List FoldInstr → List ℕ
  collect_instruction_users i k [] = []
  collect_instruction_users i k (p ∷ f) =
      uses_in i k p.operands ++ collect_instruction_users i (suc k) f

  -- The variables of `propagate_ssa_values`, with the function that it changes.
  pub record Folder : Type 0 where
    pub function : List FoldInstr
    pub worklist : List ℕ
    pub queued : List ℕ
    pub folded : List ℕ
    pub dead_values : List ℕ

  unfoldable pub enqueue : ℕ → Folder → Folder
  enqueue i s =
      if contains i s.folded || contains i s.queued
      then s
      else record s { worklist = s.worklist ++ i ∷ []; queued = i ∷ s.queued }

  -- The loops that enqueue the seeds and the users.
  unfoldable pub enqueue_all : List ℕ → Folder → Folder
  unfolding enqueue
  enqueue_all [] s = s
  enqueue_all (i ∷ is) s = enqueue_all is (enqueue i s)

  -- The constant for an instruction, if it is folded: `getIntN` of the 64 bits of `as_uint64`.
  unfoldable pub fold_value : FoldInstr → Option ℕ
  unfolding is_ssa_fold_candidate simplify
  fold_value p =
      let v = simplify p.expression in
      unless_pointer v.page (is_ssa_fold_candidate p && is_concrete v && (size v.term == p.width))
        (term_as_uint64 v.term)

  abbrev pub fold_value_at : Option FoldInstr → Option ℕ
  fold_value_at none = none
  fold_value_at (some p) = fold_value p

  -- Folding instruction `i` to the constant `n`.
  unfoldable pub fold : ℕ → ℕ → Folder → Folder
  unfolding enqueue_all
  fold i n s =
      let users = collect_instruction_users i 0 s.function in
      let replaced : Folder = record s {
        folded = i ∷ s.folded;
        function = replace_all_uses i n s.function;
        dead_values = s.dead_values ++ i ∷ [];
      } in
      enqueue_all users replaced

  abbrev pub fold_if : Bool → ℕ → Option ℕ → Folder → Folder
  fold_if true i n s = s
  fold_if false i none s = s
  fold_if false i (some n) s = fold i n s

  -- One round for the instruction `i`, which is off the worklist.
  unfoldable pub process : ℕ → Folder → Folder
  unfolding fold fold_value
  process i s = fold_if (contains i s.folded) i (fold_value_at (get_elem? s.function i)) s

  -- One round of the loop, unless the worklist is empty.
  abbrev pub round : List ℕ → Folder → Option Folder
  round [] s = none
  round (i ∷ rest) s = some (process i (record s { worklist = rest; queued = remove i s.queued }))

  abbrev pub go_on : Option Folder → Folder → (Folder → Option Folder) → Option Folder
  go_on none s next = some s
  go_on (some s') s next = next s'

  -- `while (!worklist.empty())`; `none` where the fuel runs out.
  unfoldable pub propagate : ℕ → Folder → Option Folder
  unfolding process
  propagate zero s = none
  propagate (suc fuel) s = go_on (round s.worklist s) s (propagate fuel)

  -- `propagate_ssa_values`
  unfoldable pub propagate_ssa_values : ℕ → List FoldInstr → List ℕ → Option Folder
  unfolding propagate
  propagate_ssa_values fuel f seeds =
      let start : Folder = record {
        function = f;
        worklist = [];
        queued = [];
        folded = [];
        dead_values = [];
      } in
      propagate fuel (enqueue_all seeds start)

  abbrev pub is_empty : List ℕ → Bool
  is_empty [] = true
  is_empty (x ∷ xs) = false

  -- `eraseFromParent`: an erased instruction uses nothing.
  abbrev pub erase_instr : ℕ → List FoldInstr → List FoldInstr
  erase_instr i [] = []
  erase_instr zero (p ∷ f) = record p { operands = [] } ∷ f
  erase_instr (suc i) (p ∷ f) = p ∷ erase_instr i f

  -- The function after `erase_dead_instructions`, which goes from the last to the first, and the
  -- instructions that are erased.
  unfoldable pub erase_dead_instructions : List ℕ → List FoldInstr → List FoldInstr × List ℕ
  erase_dead_instructions [] f = (f, [])
  erase_dead_instructions (i ∷ is) f =
      let (f', erased) = erase_dead_instructions is f in
      if is_empty (collect_instruction_users i 0 f')
      then (erase_instr i f', i ∷ erased)
      else (f', erased)
