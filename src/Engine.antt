-- ===== src/Engine.antt =====
-- src/engine/engine.cpp: loading a binary into the memory, and patching the lifted code into it.
pub mod Object
pub mod Layout
pub mod Relocations
pub mod Mapping
pub mod Patch
pub mod Segments
pub mod Loaded
pub mod Jump
pub mod Optimize
