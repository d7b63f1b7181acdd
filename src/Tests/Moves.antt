-- ===== src/Tests/Moves.antt =====
-- src/arch/arch.cpp at a conditional move of an unknown bit.
use vexa.Prelude.{false, [], ◌∷◌}
use vexa.Terms.Trees.{const, value}
use vexa.Value.{Value}
use vexa.Value as V
use vexa.Memory.{new_page}
use vexa.Emulator.Access.{Bases}
use vexa.Cpu.{Cpu}
use vexa.Cpu.Moves.{zext, Stored, select, cast, other, Store}
use vexa.Tests.{solver}

abbrev bases : Bases
bases = record { stack_ptr = (V.value (value 64 0), 0); mem_ptr = (V.value (value 64 0), 0) }

abbrev start : Cpu
start = record {
  memory = record { heap = new_page ∷ []; pages = 0 ∷ []; constants = 1 };
  pc = 4096;
  vpc = 0;
  vjmp = false;
  path = [];
  cfg = [];
  vcfg = [];
  path_constraints = [];
  unexplored_paths = [];
  block = 0;
  insert_point = 0;
  blocks = 1;
  terminators = [];
  lifted_count = 0;
}

abbrev register : Value
register = V.pointer (V.value (value 64 16)) 0

-- A byte that an unknown bit chooses, widened.
abbrev widened : Stored
widened =
    cast (zext 8 16) (select (V.value (const 0 1)) (V.value (value 8 4)) (V.value (value 8 9)))

abbrev counter_store : Store
counter_store = record { pointer = register; stored = other (V.value (value 64 1)) }

abbrev move_store : Store
move_store = record { pointer = register; stored = widened }
