-- ===== src/Cpu.antt =====
-- src/arch/arch.cpp and include/vexa/arch/arch.hpp: the path manager of the CPU.
-- remill decodes an instruction and lifts it into a block; what the emulator leaves after running
-- that block is the parameter `lift`. User callbacks are the parameter `event_handler`.
-- The IR is the list of the terminators that the builder makes, each with its block.
pub mod Paths
pub mod Lift
pub mod Forks
pub mod Jumps
pub mod Moves
pub mod Registers
use vexa.Prelude.{
  ℕ, zero, suc, ◌+◌, ◌*◌, Bool, true, false, List, [], ◌∷◌, ◌++◌, Option, none, some, if◌then◌else◌,
  Dict, ltb, ◌||◌,
}
use vexa.Terms.{Bitwuzla}
use vexa.Value.{
  Value, as_expr_bool, logical_not, is_concrete, term_as_uint64, simplify, simplify_under, concrete,
}
use vexa.Memory.Heap as Heap
use vexa.Memory.Heap.{Memory, Pointer, PageState, read, write}

-- `mode_t`
pub data Mode : Type 0 where
  symbolic_exploration cfg_recovery vcfg_recovery : Mode

-- `cfg_join_policy_t`
pub data CfgJoinPolicy : Type 0 where
  merge_by_pc specialize_by_path : CfgJoinPolicy

-- `event_kind`
pub data EventKind : Type 0 where
  conditional_taken conditional_fallthrough path_forking direct_jump indirect_jump
        instruction_lift :
      EventKind

-- The options that the path manager reads.
pub record Options : Type 0 where
  pub mode : Mode
  pub join_policy : CfgJoinPolicy
  pub opaque_solving : Bool

-- A register with no parent or a part of one; in the state page, with its size in bytes.
pub record Register : Type 0 where
  pub offset : ℕ
  pub size : ℕ
  pub has_parent : Bool

module _ ⦃B : Bitwuzla⦄ where
  open B use {Term}

  pub data Terminator : Type 0 where
    br : ℕ → Terminator
    cond_br : Term → ℕ → ℕ → Terminator
    unreachable ret : Terminator

  -- `cpu::snapshot`
  pub record Snapshot : Type 0 where
    pub mem_ss : List PageState
    pub pc : ℕ
    pub vpc : ℕ
    pub bb : ℕ
    pub vjmp : Bool
    pub path : Dict ℕ
    pub path_constraints : List Term

  -- The fields of `cpu` that the path manager changes, with the builder's insert point.
  pub record Cpu : Type 0 where
    pub memory : Memory
    pub pc : ℕ
    pub vpc : ℕ
    pub vjmp : Bool
    pub path : Dict ℕ
    pub cfg : Dict ℕ
    pub vcfg : Dict ℕ
    pub path_constraints : List Term
    pub unexplored_paths : List Snapshot
    pub block : ℕ
    pub insert_point : ℕ
    -- the count of the blocks made so far
    pub blocks : ℕ
    pub terminators : List (ℕ × Terminator)
    pub lifted_count : ℕ

  unfoldable pub take_snapshot : Cpu → ℕ → ℕ → Snapshot
  take_snapshot s pc bb = record {
    mem_ss = Heap.take_snapshot s.memory;
    pc = pc;
    vpc = s.vpc;
    bb = bb;
    vjmp = s.vjmp;
    path = s.path;
    path_constraints = s.path_constraints;
  }

  unfoldable pub restore_snapshot : Cpu → Snapshot → Cpu
  restore_snapshot s ss = record s {
    memory = Heap.restore_snapshot s.memory ss.mem_ss;
    insert_point = ss.bb;
    pc = ss.pc;
    vpc = ss.vpc;
    vjmp = ss.vjmp;
    path = ss.path;
    path_constraints = ss.path_constraints;
  }

  -- `push` on `unexplored_paths`
  abbrev pub push_path : Snapshot → Cpu → Cpu
  push_path ss s = record s { unexplored_paths = ss ∷ s.unexplored_paths }

  -- The terminator of the block at the insert point.
  abbrev pub terminate : Terminator → Cpu → Cpu
  terminate t s = record s { terminators = (s.insert_point, t) ∷ s.terminators }

  abbrev pub constrain : Term → Cpu → Cpu
  constrain e s = record s { path_constraints = s.path_constraints ++ e ∷ [] }

  abbrev pub is_taken : ℕ → Bool
  is_taken zero = false
  is_taken (suc n) = true

  -- The condition is simplified in place; then the answer, where it has one.
  unfoldable pub opaque_solver : Value → Value × Option Bool
  opaque_solver condition =
      let c = simplify condition in
      (c, if is_concrete c then some (is_taken (term_as_uint64 c.term)) else none)

  -- One round of `solve_cpu_context`.
  unfoldable pub solve_register : ℕ → List Term → Register → Memory → Memory
  solve_register state_page constraints r m =
      let ptr : Pointer = (concrete r.offset 64, state_page) in
      let (v, m') = read m ptr (r.size * 8) in
      let v' = simplify_under v constraints in
      if r.has_parent || ltb r.size 8
      then m
      else if is_concrete (simplify v')
      then write m' ptr v'
      else m'

  unfoldable pub solve_registers : ℕ → List Term → List Register → Memory → Memory
  unfolding solve_register
  solve_registers state_page constraints [] m = m
  solve_registers state_page constraints (r ∷ rs) m =
      solve_registers state_page constraints rs (solve_register state_page constraints r m)
