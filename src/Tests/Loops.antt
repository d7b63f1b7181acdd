-- ===== src/Tests/Loops.antt =====
-- src/passes/loop_reroll.cpp on short blocks, with a sum for LLVM's hash.
use vexa.Prelude.{
  ℕ, ◌+◌, ◌*◌, ◌≡◌, ◌≢◌, refl, true, false, not, ◌&&◌, List, [], ◌∷◌, some, AllPairs, map, length,
}
use vexa.Passes.LoopReroll.{
  Operand, constant_int, value, Instruction, Hashed, UnrolledLoop, hash_all, find_loop,
  is_dependency, is_defined, dataflow_analysis,
}
use vexa.Passes.LoopReroll.Scanning.{Scan, found, scan_blocks}
use vexa.Passes.LoopReroll.Dataflow.{is_used, dataflow_analysis_sound}
use vexa.Passes.LoopReroll.Markers.{Describes, some_begins, scan_blocks_sound}

abbrev mix : ℕ → ℕ → ℕ
mix h x = h * 7 + x

abbrev instr : ℕ → ℕ → List Operand → Instruction
instr number opcode operands = record {
  number = number;
  opcode = opcode;
  type = 0;
  operands = operands;
  is_terminator = false;
  is_marker = false;
}

-- A call and a sum, twice; then with a product after them, twice.
abbrev growing : List Instruction
growing =
    instr 1 2 (constant_int 3 ∷ [])
    ∷ instr 2 1 []
    ∷ instr 3 2 (constant_int 3 ∷ [])
    ∷ instr 4 5 []
    ∷ instr 5 1 []
    ∷ instr 6 2 (constant_int 3 ∷ [])
    ∷ instr 7 5 []
    ∷ []

-- The blocks that are found have two instructions and three.
mixes_blocks :
    (s : UnrolledLoop mix) × (find_loop mix (instr 0 1 []) growing ≡ some s)
    × (map (λ b. length b.instructions) s.blocks ≡ 2 ∷ 2 ∷ 3 ∷ [])
unfolding find_loop
mixes_blocks = (_, refl, refl)

-- A sum of two values, the second its own.
abbrev two_sums : List Hashed
two_sums =
    hash_all mix (instr 1 2 (value 9 ∷ value 2 ∷ []) ∷ instr 2 2 (value 9 ∷ value 8 ∷ []) ∷ [])

dataflow_analysis_sound_example :
    ((v : ℕ)
      → is_dependency v (dataflow_analysis two_sums)
        ≡ is_used v two_sums && not (is_defined v two_sums))
    × AllPairs (λ d e. d.dependency ≢ e.dependency) (dataflow_analysis two_sums)
dataflow_analysis_sound_example = dataflow_analysis_sound two_sums

abbrev marked : ℕ → Instruction
marked number = record {
  number = number;
  opcode = 1;
  type = 0;
  operands = [];
  is_terminator = false;
  is_marker = true;
}

-- A block with a marker before its terminator, after four pairs of a marker and a sum.
abbrev unrolled : List Instruction
unrolled =
    instr 0 9 []
    ∷ marked 1
    ∷ instr 2 2 []
    ∷ marked 3
    ∷ instr 4 2 []
    ∷ marked 5
    ∷ instr 6 2 []
    ∷ marked 7
    ∷ instr 8 2 []
    ∷ instr 10 4 []
    ∷ []

finds_unrolled :
    (s : UnrolledLoop mix) × (scan_blocks mix (unrolled ∷ []) ≡ some (found s))
    × (length s.blocks ≡ 4)
unfolding scan_blocks
finds_unrolled = (_, refl, refl)

scan_blocks_sound_example :
    (r : Scan mix) × (scan_blocks mix (unrolled ∷ []) ≡ some r)
    × Describes mix (some_begins mix (unrolled ∷ [])) r
scan_blocks_sound_example = scan_blocks_sound mix (unrolled ∷ [])
