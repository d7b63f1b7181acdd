-- ===== src/Cpu/Paths.antt =====
-- src/arch/arch.cpp: `branching` and `solve_cpu_context`, over what stands outside the path manager.
use vexa.Prelude.{ℕ, ◌+◌, Bool, true, false, List, Option, none, some, if◌then◌else◌}
use vexa.Terms.{Bitwuzla}
use vexa.Value.{Value, as_expr_bool, logical_not}
use vexa.Memory.Heap.{Memory}
use vexa.Cpu.{
  EventKind, conditional_taken, conditional_fallthrough, path_forking, Options, Register, cond_br,
  Cpu, take_snapshot, restore_snapshot, push_path, terminate, constrain, opaque_solver,
  solve_registers,
}

module _ ⦃B : Bitwuzla⦄ where
  open B use {Term, is_value}

  -- What the emulator leaves after a lifted block: the memory, and the values stored last to
  -- BRANCH_TAKEN, cut to one bit, and to NEXT_PC, where there are any.
  pub record Lifted : Type 0 where
    pub memory : Memory
    pub condition : Option Value
    pub next_pc : Option Value

  -- remill, the emulated semantics of its blocks, and the user's callbacks.
  pub record Host : Type 1 where
    pub Instruction : Type 0
    pub decode : ℕ → List ℕ → Option Instruction
    pub is_control_flow : Instruction → Bool
    pub is_conditional_branch : Instruction → Bool
    pub is_direct_control_flow : Instruction → Bool
    pub branch_taken_pc : Instruction → ℕ
    pub branch_not_taken_pc : Instruction → ℕ
    pub following_pc : Instruction → ℕ
    pub lift : Instruction → ℕ → Memory → Option Lifted
    pub event_handler : EventKind → Cpu → Cpu
    pub options : Options
    pub registers : List Register
    pub state_page : ℕ
    pub global_memory : ℕ

  module _ (H : Host) where
    open H use {
      Instruction, decode, is_control_flow, is_conditional_branch, is_direct_control_flow,
      branch_taken_pc, branch_not_taken_pc, following_pc, lift, event_handler, options, registers,
      state_page, global_memory,
    }

    unfoldable pub solve_cpu_context : Cpu → Cpu
    solve_cpu_context s = record s {
      memory = solve_registers state_page s.path_constraints registers s.memory;
    }

    -- The opaque branches of `branching`.
    unfoldable pub take_branch : Value → ℕ → Cpu → Cpu
    take_branch condition jump_pc s =
        event_handler conditional_taken
          (constrain (as_expr_bool condition) (record s { pc = jump_pc }))

    unfoldable pub fall_through : Value → ℕ → Cpu → Cpu
    fall_through condition fallthrough_pc s =
        event_handler conditional_fallthrough
          (constrain (logical_not condition).term (record s { pc = fallthrough_pc }))

    -- The path that is saved: up to `reset context`.
    unfoldable pub save_fallthrough : Value → ℕ → Cpu → Cpu
    unfolding solve_cpu_context
    save_fallthrough condition fallthrough_pc s =
        let fallthrough_bb = s.blocks + 1 in
        let s' =
          solve_cpu_context
            (constrain (logical_not condition).term (record s { blocks = s.blocks + 2 })) in
        push_path (take_snapshot s' fallthrough_pc fallthrough_bb) s'

    -- The path forking of `branching`, before its event.
    unfoldable pub fork : Value → ℕ → ℕ → Cpu → Cpu
    unfolding save_fallthrough solve_cpu_context
    fork condition jump_pc fallthrough_pc s =
        let jump_bb = s.blocks in
        let fallthrough_bb = s.blocks + 1 in
        let s' =
          restore_snapshot (save_fallthrough condition fallthrough_pc s)
            (take_snapshot s s.pc s.block) in
        let s'' = terminate (cond_br condition.term jump_bb fallthrough_bb) s' in
        let s''' =
          solve_cpu_context
            (constrain (as_expr_bool condition) (record s'' { insert_point = jump_bb })) in
        record s''' { pc = jump_pc }

    -- What `branching` does once the condition is solved, or is not.
    unfoldable pub branch_on : Option Bool → Value → ℕ → ℕ → Cpu → Cpu
    unfolding take_branch fall_through fork
    branch_on (some true) c jump_pc fallthrough_pc s = take_branch c jump_pc s
    branch_on (some false) c jump_pc fallthrough_pc s = fall_through c fallthrough_pc s
    branch_on none c jump_pc fallthrough_pc s =
        event_handler path_forking (fork c jump_pc fallthrough_pc s)

    unfoldable pub branching : Value → ℕ → ℕ → Cpu → Cpu
    unfolding branch_on
    branching condition jump_pc fallthrough_pc s =
        let (c, solved) = opaque_solver condition in
        if options.opaque_solving
        then branch_on solved c jump_pc fallthrough_pc s
        else branch_on none condition jump_pc fallthrough_pc s
