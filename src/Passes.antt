-- ===== src/Passes.antt =====
-- src/passes and src/ir/pass_manager.cpp: the optimisation passes of the repository.
pub mod StateCleanup
pub mod Manager
pub mod ConstantPropagation
pub mod MemoryScalarizer
pub mod LoopReroll
pub mod StateToAlloca
