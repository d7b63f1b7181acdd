-- ===== src/Passes/Manager.antt =====
-- src/ir/pass_manager.cpp and include/vexa/ir/pass_manager.hpp: the loop over the pipeline.
-- A pass is its two methods; LLVM's functions are a parameter, and so are the passes that only
-- call LLVM.
pub mod Ends
use vexa.Prelude.{
  ℕ, zero, suc, ◌+◌, Bool, true, false, not, ◌&&◌, List, [], ◌∷◌, ◌++◌, Option, none, some,
  if◌then◌else◌,
}

-- `vexa::ir::pass`
pub record Pass (F : Type 0) : Type 0 where
  pub run : F → F × Bool
  pub is_recursive : Bool
  pub did_run : Bool

module _ {F : Type 0} where
  -- `add_pass`
  abbrev pub add_pass : List (Pass F) → Pass F → List (Pass F)
  add_pass pipeline p = pipeline ++ p ∷ []

  -- `!pass->is_recursive() && pass->did_run`
  abbrev pub is_skipped : Pass F → Bool
  is_skipped p = not p.is_recursive && p.did_run

  abbrev pub keep : Pass F → List (Pass F) × F × Bool → List (Pass F) × F × Bool
  keep p (ps, f, repeat) = (p ∷ ps, f, repeat)

  abbrev pub mark_run : Pass F → Pass F
  mark_run p = record p { did_run = true }

  -- One round: the passes, the function, and whether to start over.
  unfoldable pub run_round : List (Pass F) → F → List (Pass F) × F × Bool
  run_round [] f = ([], f, false)
  run_round (p ∷ ps) f =
      let skipped = keep p (run_round ps f) in
      let changed : List (Pass F) × F × Bool = (mark_run p ∷ ps, (p.run f).0, true) in
      let unchanged = keep (mark_run p) (run_round ps (p.run f).0) in
      if is_skipped p then skipped else if (p.run f).1 then changed else unchanged

  -- `run`, for `fuel` rounds at most.
  unfoldable pub run_pipeline : ℕ → List (Pass F) → F → Option (List (Pass F) × F)
  unfolding run_round
  run_pipeline zero ps f = none
  run_pipeline (suc fuel) ps f =
      let (ps', f', repeat) = run_round ps f in
      let again = run_pipeline fuel ps' f' in if repeat then again else some (ps', f')
