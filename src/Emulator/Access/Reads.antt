-- ===== src/Emulator/Access/Reads.antt =====
-- src/arch/emulator.cpp, `read_memory`: reads through an address with several possible values.
use vexa.Value.{Value}
use vexa.Memory.Heap.{Memory}
