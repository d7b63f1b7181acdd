-- ===== src/Cpu/Moves.antt =====
-- src/arch/arch.cpp, `handle_conditional_moves`: forking at a conditional move.
pub mod Choices
pub mod Stores
use vexa.Prelude.{
  ℕ, ◌+◌, Bool, true, false, not, ◌&&◌, List, [], ◌∷◌, ◌++◌, Option, none, some, Result, ok, throw,
  ◌>>=◌, if◌then◌else◌,
}
use vexa.Terms.{Bitwuzla}
use vexa.Value.{Value}
use vexa.Emulator.{
  Opcode, visit_binary_operator, visit_zext_inst, visit_sext_inst, visit_trunc_inst,
  visit_select_inst,
}
use vexa.Emulator.Access.{Bases}
use vexa.Emulator.Pointers.{visit_store_inst}
use vexa.Cpu.{
  Mode, symbolic_exploration, cfg_recovery, vcfg_recovery, cond_br, Cpu, take_snapshot,
  restore_snapshot, push_path, terminate, opaque_solver,
}

-- `llvm::CastInst` with the widths of its types; `unsupported` stands for those the emulator has not.
pub data Cast : Type 0 where
  zext sext trunc : ℕ → ℕ → Cast
  unsupported : Cast

module _ ⦃B : Bitwuzla⦄ where
  open B use {Term}

  -- What a store stores, down to the first operands: a select of two values, a cast, an `and`, or
  -- anything else.
  pub data Stored : Type 0 where
    select : Value → Value → Value → Stored
    cast : Cast → Stored → Stored
    and : Stored → Value → Stored
    other : Value → Stored

  -- An instruction of `wrappers`, with what is not its first operand.
  pub data Wrapper : Type 0 where
    cast_wrapper : Cast → Wrapper
    and_wrapper : Value → Wrapper

  -- `llvm::SelectInst`
  pub record Select : Type 0 where
    pub condition : Value
    pub true_value : Value
    pub false_value : Value

  -- `peel_select`, with the wrappers so far.
  unfoldable pub peel_select : Stored → List Wrapper → Option (List Wrapper × Select)
  peel_select (select c t f) wrappers =
      some (wrappers, record { condition = c; true_value = t; false_value = f })
  peel_select (cast k e) wrappers = peel_select e (wrappers ++ cast_wrapper k ∷ [])
  peel_select (and e v) wrappers = peel_select e (wrappers ++ and_wrapper v ∷ [])
  peel_select (other v) wrappers = none

  abbrev pub visit_cast : Cast → Value → Result Value
  visit_cast (zext source dest) v = visit_zext_inst source dest v
  visit_cast (sext source dest) v = visit_sext_inst source dest v
  visit_cast (trunc source dest) v = visit_trunc_inst source dest v
  visit_cast unsupported v = throw

  -- A clone of a wrapper with another first operand, executed.
  abbrev pub visit_wrapper : Wrapper → Value → Result Value
  visit_wrapper (cast_wrapper k) v = visit_cast k v
  visit_wrapper (and_wrapper mask) v = visit_binary_operator Opcode.and v mask

  -- The loop of `materialize`: the last wrapper first.
  unfoldable pub materialize : List Wrapper → Value → Result Value
  materialize [] v = ok v
  materialize (w ∷ ws) v = do inner ← materialize ws v; visit_wrapper w inner

  -- `llvm::StoreInst`, with the value of its pointer.
  pub record Store : Type 0 where
    pub pointer : Value
    pub stored : Stored

  pub record Found : Type 0 where
    pub store : Store
    pub wrappers : List Wrapper
    pub chosen : Select

  abbrev pub found_or : Store → Option (List Wrapper × Select) → Option Found → Option Found
  found_or st none rest = rest
  found_or st (some (ws, c)) rest = some (record { store = st; wrappers = ws; chosen = c })

  -- The loop over the stores of the block, the last one first.
  unfoldable pub find_store : List Store → Option Found
  unfolding peel_select
  find_store [] = none
  find_store (st ∷ l) = let rest = find_store l in found_or st (peel_select st.stored []) rest

  abbrev pub is_vcfg_recovery : Mode → Bool
  is_vcfg_recovery vcfg_recovery = true
  is_vcfg_recovery symbolic_exploration = false
  is_vcfg_recovery cfg_recovery = false

  module _ (b : Bases) where
    -- A new store, executed.
    unfoldable pub create_store : Value → Value → Cpu → Result Cpu
    unfolding visit_store_inst
    create_store ptr v s = do
      r ← visit_store_inst b s.path_constraints ptr v s.memory
      ok (record s { memory = r.1 })

    -- From `base_snapshot` on.
    unfoldable pub fork_move : Value → Value → Value → Value → ℕ → Cpu → Result Cpu
    unfolding create_store
    fork_move ptr condition true_val false_val next_pc s =
        let true_block = s.blocks in
        let false_block = s.blocks + 1 in
        let base = take_snapshot s s.pc s.block in
        let s' =
          terminate (cond_br condition.term true_block false_block)
            (record s { blocks = s.blocks + 2 }) in
        create_store ptr false_val (record s' { insert_point = false_block }) >>= λ saved.
        let pushed = push_path (take_snapshot saved next_pc false_block) saved in
        create_store ptr true_val
          (record (restore_snapshot pushed base) { insert_point = true_block })

    -- The condition is solved, or is not.
    unfoldable pub move_on : Option Bool → Value → Value → Value → Value → ℕ → Cpu → Result Cpu
    unfolding fork_move
    move_on (some true) ptr condition true_val false_val next_pc s = create_store ptr true_val s
    move_on (some false) ptr condition true_val false_val next_pc s = create_store ptr false_val s
    move_on none ptr condition true_val false_val next_pc s =
        fork_move ptr condition true_val false_val next_pc s

    -- The stores of the block, last first, and the address of the next instruction.
    unfoldable pub handle_conditional_moves : Bool → Mode → Option Found → ℕ → Cpu → Result Cpu
    unfolding move_on materialize
    handle_conditional_moves solves mode none next_pc s = throw
    handle_conditional_moves solves mode (some f) next_pc s = do
      true_val ← materialize f.wrappers f.chosen.true_value
      false_val ← materialize f.wrappers f.chosen.false_value
      let (c, solved) = opaque_solver f.chosen.condition
      if solves && not (is_vcfg_recovery mode)
          then move_on solved f.store.pointer c true_val false_val next_pc s
          else move_on none f.store.pointer f.chosen.condition true_val false_val next_pc s
