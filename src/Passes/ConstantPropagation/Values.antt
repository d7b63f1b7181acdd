-- ===== src/Passes/ConstantPropagation/Values.antt =====
-- src/passes/constant_propagation_memory.cpp: `is_safe_value`. An instruction is its index in the
-- function, with what the code asks of it; `get_memory_access` is a part of it.
pub mod Ends
use vexa.Prelude.{
  ℕ, zero, suc, ◌+◌, Bool, true, false, not, ◌&&◌, ◌||◌, List, [], ◌∷◌, Option, none, some, ◌==◌,
  leb, if◌then◌else◌, length, get_elem?,
}
use vexa.Passes.ConstantPropagation.ByteSafety.{ConcreteMemoryAccess, State, range_is_safe}

pub data LlvmValue : Type 0 where
  constant argument : LlvmValue
  instruction : ℕ → LlvmValue

-- A load has its pointer, its access and the memory access that defines what it reads, where these
-- are known.
pub data Kind : Type 0 where
  load : LlvmValue → Option ConcreteMemoryAccess → Option ℕ → Kind
  memory : Kind
  operands : List LlvmValue → Kind

pub record Instr : Type 0 where
  pub in_loop : Bool
  pub is_phi : Bool
  pub predecessors : ℕ
  pub kind : Kind

-- `value_safety`
pub data Safety : Type 0 where
  visiting safe unsafe : Safety

abbrev pub Cache : Type 0
Cache = ℕ → Option Safety

abbrev pub put : ℕ → Safety → Cache → Cache
put i s c = λ j. if j == i then some s else c j

abbrev pub is_safe : Safety → Bool
is_safe visiting = false
is_safe safe = true
is_safe unsafe = false

abbrev pub safety : Bool → Safety
safety true = safe
safety false = unsafe

-- The tests on a load that come before its pointer, and the one after.
abbrev pub may_load : State → ℕ → ℕ → Option ConcreteMemoryAccess → Option ℕ → Bool
may_load st active predecessors none owner = false
may_load st active predecessors (some a) none = false
may_load st active predecessors (some a) (some o) =
    leb predecessors 1 && (o == active) && leb a.size 64

abbrev pub access_is_safe : State → Option ConcreteMemoryAccess → Bool
access_is_safe st none = false
access_is_safe st (some a) = range_is_safe st a.address a.size 0

-- A test on a value, with the entries that it adds; `none` where the fuel runs out.
abbrev pub Test : Type 0
Test = LlvmValue → Cache → Option (Bool × Cache)

abbrev pub and_next :
    Option (Bool × Cache) → (Cache → Option (Bool × Cache)) → Option (Bool × Cache)
and_next none next = none
and_next (some (true, c)) next = next c
and_next (some (false, c)) next = some (false, c)

-- The loop over the operands.
abbrev pub all_safe : Test → List LlvmValue → Cache → Option (Bool × Cache)
all_safe test [] c = some (true, c)
all_safe test (v ∷ vs) c = and_next (test v c) (all_safe test vs)

abbrev pub and_then : Option (Bool × Cache) → Bool → Option (Bool × Cache)
and_then none d = none
and_then (some (b, c)) d = some (b && d, c)

-- The test on one instruction, which calls `test` on its operands.
unfoldable pub judge : Test → State → ℕ → Bool → ℕ → Kind → Cache → Option (Bool × Cache)
judge test st active true predecessors k c = some (false, c)
judge test st active false predecessors (load p a o) c =
    if may_load st active predecessors a o
    then and_then (test p c) (access_is_safe st a)
    else some (false, c)
judge test st active false predecessors memory c = some (false, c)
judge test st active false predecessors (operands vs) c = all_safe test vs c

abbrev pub judge_instr : Test → State → ℕ → Option Instr → Cache → Option (Bool × Cache)
judge_instr test st active none c = some (false, c)
judge_instr test st active (some i) c =
    judge test st active (i.in_loop || i.is_phi) i.predecessors i.kind c

abbrev pub record_safety : ℕ → Option (Bool × Cache) → Option (Bool × Cache)
record_safety i none = none
record_safety i (some (b, c)) = some (b, put i (safety b) c)

-- What is cached, or else the result of the test, while the instruction is marked as visited.
abbrev pub cached_or :
    Option Safety → ℕ → Cache → (Cache → Option (Bool × Cache)) → Option (Bool × Cache)
cached_or (some s) i c test = some (is_safe s, c)
cached_or none i c test = record_safety i (test (put i visiting c))

-- `none` where the calls inside each other are more than the fuel.
unfoldable pub is_safe_value : ℕ → List Instr → State → ℕ → Test
unfolding judge
is_safe_value zero f st active v c = none
is_safe_value (suc fuel) f st active constant c = some (true, c)
is_safe_value (suc fuel) f st active argument c = some (true, c)
is_safe_value (suc fuel) f st active (instruction i) c =
    cached_or (c i) i c (judge_instr (is_safe_value fuel f st active) st active (get_elem? f i))

-- Enough calls inside each other: an instruction is marked when it is entered.
abbrev pub depth : List Instr → ℕ
depth f = length f + 2
