-- ===== src/Tests/Constants.antt =====
-- src/passes/constant_propagation_memory.cpp on one store and one load of its bytes.
use vexa.Prelude.{ℕ, ◌≡◌, refl, Bool, true, false, List, [], ◌∷◌, none, some, arith}
use vexa.Passes.ConstantPropagation.ByteSafety.{
  MemoryAddress, ConcreteMemoryAccess, State, is_safe_byte, set_range_safety, range_is_safe,
}
use vexa.Passes.ConstantPropagation.ByteSafety.Range.{
  set_range_safety_sound, range_is_safe-set_range_safety,
}
use vexa.Passes.ConstantPropagation.Values.{
  constant, instruction, Instr, load, operands, Cache, safe, is_safe_value,
}
use vexa.Passes.ConstantPropagation.Values.Ends.{is_safe_value-ends}
use vexa.Passes.ConstantPropagation.Traversal.{
  Access, access, Store, last, child, initial, walk_root, walk_roots,
}
use vexa.Passes.ConstantPropagation.Traversal.Known.{Known, IsTree}
use vexa.Passes.ConstantPropagation.Traversal.Sound.{walk_roots_sound}
use vexa.Passes.ConstantPropagation.Traversal.Reference.{visit, walk_root-visit}

abbrev slot : MemoryAddress
slot = record { page = 3; offset = 16 }

abbrev byte_20 : MemoryAddress
byte_20 = record { page = 3; offset = 20 }

abbrev four_bytes : ConcreteMemoryAccess
four_bytes = record { address = slot; size = 4 }

-- A load of the four bytes, and a sum with it.
abbrev load_and_add : List Instr
load_and_add =
    record {
      in_loop = false;
      is_phi = false;
      predecessors = 1;
      kind = load constant (some four_bytes) (some 1);
    }
    ∷ record {
      in_loop = false;
      is_phi = false;
      predecessors = 1;
      kind = operands (instruction 0 ∷ constant ∷ []);
    }
    ∷ []

abbrev constant_store : Store
constant_store = record {
  in_loop = false;
  predecessors = 1;
  pointer = constant;
  value = constant;
  access = four_bytes;
}

-- The store of a constant after a phi, and the load after the store.
abbrev after_phi : Access
after_phi = access 7 [] none (child (access 1 (0 ∷ []) (some constant_store) last) last)

abbrev empty : Cache
empty = λ i. none

abbrev unsafe_state : State
unsafe_state = initial 7 false

-- The load is safe after the store.
loads_constant :
    (c : Cache) × (walk_roots load_and_add ((after_phi, false) ∷ []) empty ≡ some c)
    × (c 0 ≡ some safe)
unfolding walk_roots range_is_safe
loads_constant = (_, refl, refl)

walk_roots_sound_example :
    (c : Cache) × (walk_roots load_and_add ((after_phi, false) ∷ []) empty ≡ some c)
    × ((i : ℕ) → c i ≡ some safe → Known load_and_add ((after_phi, false) ∷ []) (instruction i))
unfolding IsTree
walk_roots_sound_example =
    walk_roots_sound load_and_add ((after_phi, false) ∷ [])
      ((refl, tt, ((refl, (omega arith, omega arith), tt), tt)), tt)

walk_root-visit_example :
    walk_root load_and_add 4 after_phi false empty
    ≡ some (unsafe_state, visit load_and_add unsafe_state after_phi empty)
walk_root-visit_example = walk_root-visit load_and_add after_phi false empty

-- Two instructions that use each other.
abbrev cycle : List Instr
cycle =
    record {
      in_loop = false;
      is_phi = false;
      predecessors = 1;
      kind = operands (instruction 1 ∷ constant ∷ []);
    }
    ∷ record {
      in_loop = false;
      is_phi = false;
      predecessors = 1;
      kind = operands (instruction 0 ∷ constant ∷ []);
    }
    ∷ []

is_safe_value-ends_example :
    (r : Bool × Cache) × (is_safe_value 4 cycle unsafe_state 7 (instruction 0) empty ≡ some r)
    × (is_safe_value 40 cycle unsafe_state 7 (instruction 0) empty ≡ some r)
is_safe_value-ends_example =
    is_safe_value-ends cycle unsafe_state 7 (instruction 0) empty 40 (omega arith)

set_range_safety_sound_example :
    is_safe_byte (set_range_safety unsafe_state slot true 4 0) byte_20
    ≡ is_safe_byte unsafe_state byte_20
set_range_safety_sound_example =
    set_range_safety_sound unsafe_state slot byte_20 true 4 0 (omega arith) (omega arith)
      (omega arith)

range_is_safe-set_range_safety_example :
    range_is_safe (set_range_safety unsafe_state slot true 4 0) slot 4 0 ≡ true
range_is_safe-set_range_safety_example =
    range_is_safe-set_range_safety unsafe_state slot slot 4 4 (omega arith) refl (omega arith)
      (omega arith)
