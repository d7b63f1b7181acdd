-- ===== src/Tests/Passes.antt =====
-- src/passes and src/ir/pass_manager.cpp on functions of one and two blocks.
use vexa.Prelude.{ℕ, ◌≡◌, ◌<◌, refl, Bool, true, false, List, [], ◌∷◌, some}
use vexa.Passes.StateCleanup.{
  Gep, Function, Slot, store, load, other, rounds, search, scan, is_alive, run,
}
use vexa.Passes.StateCleanup.Search.{is_alive-ends}
use vexa.Passes.StateCleanup.Paths.{trace, is_alive_misses_loops}
use vexa.Passes.StateCleanup.Progress.{instr_count, run_progress, run-instr_count}
use vexa.Passes.Manager.{Pass, run_pipeline}
use vexa.Passes.Manager.Ends.{Shrinks, run_pipeline_ends}

abbrev rax_gep : Gep
rax_gep = record { operation = 1; base = 5; offset = some 8 }

abbrev rax_slot : Slot
rax_slot = record { operation = 1; offset = 8 }

-- A store in the first block, and another in the second before the load.
abbrev two_blocks : Function
two_blocks =
    record { instructions = store (some rax_gep) ∷ other ∷ []; successors = 1 ∷ [] }
    ∷ record { instructions = store (some rax_gep) ∷ load (some rax_gep) ∷ []; successors = [] }
    ∷ []

is_alive-ends_example :
    (r : Bool) × (search (rounds two_blocks) two_blocks rax_slot ((0, other ∷ []) ∷ []) [] false
      ≡ some r)
    × (is_alive two_blocks rax_slot 0 (other ∷ []) ≡ r)
is_alive-ends_example = is_alive-ends two_blocks rax_slot 0 (other ∷ [])

-- An entry block and a block that jumps to itself.
abbrev one_loop : Function
one_loop =
    record { instructions = other ∷ []; successors = 1 ∷ [] }
    ∷ record { instructions = load (some rax_gep) ∷ store (some rax_gep) ∷ []; successors = 1 ∷ [] }
    ∷ []

is_alive_misses_loops_example :
    (is_alive one_loop rax_slot 1 [] ≡ false) × (scan rax_slot (trace one_loop (1 ∷ [])) ≡ true)
unfolding scan
is_alive_misses_loops_example =
    is_alive_misses_loops one_loop rax_slot 1 (load (some rax_gep) ∷ []) (some rax_gep) refl refl
      refl

run_progress_example :
    ((run 5 0 two_blocks).1 ≡ true → instr_count (run 5 0 two_blocks).0 < 4)
    × ((run 5 0 two_blocks).1 ≡ false → (run 5 0 two_blocks).0 ≡ two_blocks)
run_progress_example = run_progress 5 0 two_blocks

-- The run does erase the first store.
run_erases : (run 5 0 two_blocks).1 ≡ true
unfolding run
run_erases = refl

-- The pass that the manager repeats, and one that runs once.
abbrev state_cleanup : Pass Function
state_cleanup = record { run = run 5 0; is_recursive = true; did_run = false }

abbrev report_change : Pass Function
report_change = record { run = λ f. (f, true); is_recursive = false; did_run = false }

state_cleanup-Shrinks : Shrinks instr_count state_cleanup
state_cleanup-Shrinks recursive f = (run-instr_count 5 0 f, (run_progress 5 0 f).0)

run_pipeline_ends_example :
    (fuel : ℕ) × (r : List (Pass Function) × Function) × (run_pipeline fuel
        (state_cleanup ∷ report_change ∷ [])
        two_blocks
      ≡ some r)
run_pipeline_ends_example =
    run_pipeline_ends instr_count (state_cleanup ∷ report_change ∷ []) two_blocks
      (state_cleanup-Shrinks, ((λ e. cc), tt))
