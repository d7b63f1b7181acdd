-- ===== src/Lib.antt =====
-- Vexa: lifting of obfuscated machine code by symbolic execution.
--
-- The program lifts x86-64 code with remill, one instruction at a time, runs each lifted LLVM block
-- symbolically over Bitwuzla terms, explores the paths of the function, optimises the result and
-- patches it back into the binary.
--
-- The parts, and the files that model them:
-- - src/value/value.cpp, src/symex/symex.cpp (`vexa::value`, `vexa::symex`): Value.antt, one function
--   for each operator and method. `Value.Simplify` and `Value.Possible` reason on `simplify`,
--   `simplify(constraints)` and `possible_values`. Symex.antt has the map from LLVM values to these.
-- - Bitwuzla is the record `Bitwuzla` of Terms.antt: terms, their meaning under an assignment, and
--   the answers of the solver with the documented laws. Terms/Denote.antt gives the bit-vector
--   operations; Terms/Trees.antt is a concrete solver over terms with one unknown bit, for runs.
-- - src/memory/memory.cpp, include/vexa/memory/memory.hpp: Memory.antt has cells, pages, `write` and
--   `read` at a concrete address; Memory/Heap.antt the class over all its pages, with its snapshots.
-- - src/arch/emulator.cpp: Emulator.antt has the arithmetic, comparison, cast, select and
--   extractelement instructions, Emulator/Intrinsics.antt `handle_llvm_intrinsics`,
--   Emulator/Pointers.antt alloca, GEP, load and store,
--   Emulator/Access.antt `read_memory` and `write_memory`.
-- - src/arch/arch.cpp: Cpu.antt has the state of the path manager, its snapshots and the opaque
--   solver, Cpu/Paths.antt `branching`, Cpu/Lift.antt `CFG_recovery` (here `recover_cfg`),
--   `process_instruction`, `lift_instruction` and the loop of `run`, Cpu/Moves.antt
--   `handle_conditional_moves`, which that loop is modelled without, and Cpu/Registers.antt the registers
--   in the state's page.
-- - src/passes/state_cleanup.cpp: Passes/StateCleanup.antt, over functions of blocks of loads and stores.
-- - src/passes/constant_propagation_memory.cpp: Passes/ConstantPropagation/ByteSafety.antt has the map of
--   safe bytes with its undo log, Values.antt beside it `is_safe_value`, Traversal.antt the walk over
--   the tree of memory accesses.
-- - src/passes/constant_propagation.cpp: Passes/ConstantPropagation/Folding.antt has the worklist of
--   `propagate_ssa_values`.
-- - src/passes/memory_scalarizer.cpp: Passes/MemoryScalarizer.antt has the instructions that replace a wide
--   load or store, and what LLVM says they compute.
-- - src/passes/loop_reroll.cpp: Passes/LoopReroll.antt, from the hashes of instructions to the loop and
--   its phis; LLVM's `hash_combine` is a parameter.
-- - src/passes/state2alloca.cpp: Passes/StateToAlloca.antt has the local variables and the pointers that
--   replace those into the state, Passes/StateToAlloca/Memory.antt the copies and the runs.
-- - src/ir/pass_manager.cpp: Passes/Manager.antt, the loop over the pipeline.
-- - src/engine/engine.cpp: Engine/Mapping.antt has `write_memory` and `map_binary`,
--   Engine/Object.antt the section layout, `fix_relocations` and the jump, Engine/Patch.antt `patch`,
--   Engine/Optimize.antt the pipeline of `optimize`.
--
-- State is passed explicitly; `THROW` and a failed `VEXA_ASSERT` are `throw` of `Result`. A page is
-- named by its index in the heap, a block by its number. Addresses are cut to 64 bits, cell sizes to 8
-- bits, section keys to 16, relocated fields to 32 or 64.
--
-- Bounds: `possible_values` makes 20 rounds at most, as the source does. `run` is on fuel, a number
-- of rounds of the source's `while (true)`, and says whether it ended; no theorem rests on the fuel.
-- `search`, `is_safe_value` and `walk` have the fuel that theorems show to be enough: one round for each
-- edge, one call for each instruction, and the rounds that the tree of accesses takes. `propagate` has
-- one round for each seed and for each operand that is an instruction, `find_loop` one for each
-- instruction before the marker and one more. `run_pipeline` ends where each
-- change makes the function smaller by some measure.
--
-- Parameters: remill's decoder and the blocks it lifts with what the emulator leaves of them, and
-- the user's callbacks, are the fields of `Host`; LIEF's view of files is the records of the engine
-- modules, and its choice of an address an argument of `patch`. MemorySSA's tree of definitions, the
-- loops and what `get_memory_access` finds are in the trees and instructions that the walk is given.
--
-- Not modelled: the emulation of remill's memory and hyper-call intrinsics, which needs a model of
-- its calls; the blocks that `loop_reroll` builds by calls of LLVM; recompilation, logging, files and the command line, which are calls of libraries.
pub mod Cpu
pub mod Emulator
pub mod Engine
pub mod Memory
pub mod Passes
pub mod Prelude
pub mod Symex
pub mod Terms
pub mod Tests
pub mod Value
