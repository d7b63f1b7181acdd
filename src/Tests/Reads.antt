-- ===== src/Tests/Reads.antt =====
-- src/arch/emulator.cpp, `read_memory`, through an address that depends on one unknown bit.
use vexa.Prelude.{[]}
use vexa.Terms.Denote.{equal}
use vexa.Terms.Trees.{const, value, ite, binary}
use vexa.Value.{Value}
use vexa.Value as V
use vexa.Memory.Heap.{Memory}
use vexa.Emulator.Access.{Bases}
use vexa.Tests.{solver}

abbrev bases : Bases
bases = record { stack_ptr = (V.value (value 64 0), 0); mem_ptr = (V.value (value 64 0), 1) }

-- 65536 or 65544.
abbrev either_place : Value
either_place =
    V.value (ite (binary equal (const 0 1) (value 1 1)) (value 64 65536) (value 64 65544))

abbrev empty : Memory
empty = record { heap = []; pages = []; constants = 1 }
