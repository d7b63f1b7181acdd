-- ===== src/Engine/Optimize.antt =====
-- src/engine/engine.cpp, `optimize`: the pipeline of passes. LLVM's passes are parameters, and so is
-- what each pass of the repository makes of a function.
use vexa.Prelude.{ℕ, Bool, true, false, List, [], Option, if◌then◌else◌}
use vexa.Passes.Manager.{Pass, add_pass, run_pipeline}

-- The options that `optimize` reads.
pub record Options : Type 0 where
  pub loop_reroll : Bool
  pub constant_propagation : Bool
  pub state_cleanup : Bool

-- What the passes make of a function; two of them say whether they changed it.
pub record Passes (F : Type 0) : Type 0 where
  pub simplify_cfg_and_dce : F → F
  pub loop_reroll : F → F × Bool
  pub constant_propagation : F → F
  pub state2alloca : F → F
  pub oz : F → F
  pub state_cleanup : F → F × Bool
  pub memory_scalarizer : F → F

module _ {F : Type 0} where
  -- A pass that is run again, and one that is not.
  abbrev pub recursive : (F → F × Bool) → Pass F
  recursive run = record { run = run; is_recursive = true; did_run = false }

  abbrev pub once : (F → F × Bool) → Pass F
  once run = record { run = run; is_recursive = false; did_run = false }

  -- `run` that returns the same answer for every function.
  abbrev pub always : Bool → (F → F) → F → F × Bool
  always answer run f = (run f, answer)

  abbrev pub add_if : Bool → List (Pass F) → Pass F → List (Pass F)
  add_if b ps p = if b then add_pass ps p else ps

  unfoldable pub pipeline_of : Passes F → Options → List (Pass F)
  pipeline_of P o =
      let first = add_pass [] (recursive (always false P.simplify_cfg_and_dce)) in
      let rerolled = add_if o.loop_reroll first (recursive P.loop_reroll) in
      let propagated =
        add_if o.constant_propagation rerolled (once (always true P.constant_propagation)) in
      let local = add_pass propagated (once (always true P.state2alloca)) in
      let optimized = add_pass local (recursive (always false P.oz)) in
      let cleaned = add_if o.state_cleanup optimized (recursive P.state_cleanup) in
      add_pass cleaned (once (always true P.memory_scalarizer))

  -- `optimize`, for `fuel` rounds of the pass manager at most.
  unfoldable pub optimize : ℕ → Passes F → Options → F → Option (List (Pass F) × F)
  unfolding pipeline_of run_pipeline
  optimize fuel P o f = run_pipeline fuel (pipeline_of P o) f
