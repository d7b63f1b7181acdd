-- ===== src/Tests/Paths.antt =====
-- src/arch/arch.cpp at a fork on an unknown bit.
use vexa.Prelude.{◌≡◌, refl, true, false, [], none, ok, inr, arith}
use vexa.Terms.Denote.{equal}
use vexa.Terms.Trees.{const, value, ite, binary}
use vexa.Value.{Value, simplify, possible_values}
use vexa.Value as V
use vexa.Cpu.{Cpu, symbolic_exploration, merge_by_pc}
use vexa.Cpu.Paths.{Host, branching}
use vexa.Cpu.Lift.{successful, indirect}
use vexa.Cpu.Jumps.{indirect_sound}
use vexa.Cpu.Forks.{Follows, branching_sound}
use vexa.Tests.{solver}

-- No instruction decodes, and callbacks do nothing.
abbrev host : Host
host = record {
  Instruction = Unit;
  decode = λ pc bytes. none;
  is_control_flow = λ i. false;
  is_conditional_branch = λ i. false;
  is_direct_control_flow = λ i. false;
  branch_taken_pc = λ i. 0;
  branch_not_taken_pc = λ i. 0;
  following_pc = λ i. 0;
  lift = λ i pc m. none;
  event_handler = λ k s. s;
  options = record {
    mode = symbolic_exploration;
    join_policy = merge_by_pc;
    opaque_solving = true;
  };
  registers = [];
  state_page = 0;
  global_memory = 1;
}

abbrev start : Cpu
start = record {
  memory = record { heap = []; pages = []; constants = 1 };
  pc = 4096;
  vpc = 0;
  vjmp = false;
  path = [];
  cfg = [];
  vcfg = [];
  path_constraints = [];
  unexplored_paths = [];
  block = 0;
  insert_point = 0;
  blocks = 1;
  terminators = [];
  lifted_count = 0;
}

branching_sound_example : Follows true 4112 (branching host (V.value (const 0 1)) 4112 4100 start)
branching_sound_example =
    branching_sound host true (V.value (const 0 1)) 4112 4100 start
      (record { same_pc = λ k s. refl; same_constraints = λ k s. refl; same_paths = λ k s. refl })
      refl tt

-- An indirect jump to 4096 or 8192.
abbrev target : Value
target = V.value (ite (binary equal (const 0 1) (value 1 1)) (value 64 4096) (value 64 8192))

indirect_sound_example :
    (s' : Cpu) × (indirect host target start ≡ ok (successful, s')) × Follows true 4096 s'
unfolding possible_values simplify
indirect_sound_example =
    indirect_sound host true target start
      (record { same_pc = λ k s. refl; same_constraints = λ k s. refl; same_paths = λ k s. refl })
      refl tt (inr (omega arith, refl))
