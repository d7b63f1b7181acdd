-- ===== src/Passes/ConstantPropagation.antt =====
-- src/passes/constant_propagation_memory.cpp: which loads read bytes that are known to be constant.
-- `ByteSafety` is the map of the bytes, `Values` the test on LLVM values, `Traversal` the walk over
-- the memory accesses.
pub mod ByteSafety
pub mod Values
pub mod Traversal
pub mod Folding
