-- ===== src/Passes/LoopReroll/Scanning.antt =====
-- src/passes/loop_reroll.cpp: the scan of a function for the markers of unrolled loops.
use vexa.Prelude.{ℕ, not, ◌||◌, List, [], ◌∷◌, Option, none, some, ltb, if◌then◌else◌}
use vexa.Passes.LoopReroll.{
  Instruction, Dataflow, Block, UnrolledLoop, dependency_analysis, phi_analysis, find_loop,
}

module _ (hash_combine : ℕ → ℕ → ℕ) where
  -- How the scan for markers ends: with a loop, with none, or at a null pointer.
  pub data Scan : Type 0 where
    found : UnrolledLoop hash_combine → Scan
    nothing : Scan
    crash : Scan

  -- What follows a search from a marker.
  abbrev pub after_search : Option (UnrolledLoop hash_combine) → Option Scan → Option Scan
  after_search none rest = none
  after_search (some s) rest = if ltb 3 s.iteration_count then some (found s) else rest

  -- The backward loop over the instructions; the one before a marker must not be a marker.
  unfoldable pub scan : List Instruction → Option Scan
  unfolding find_loop
  scan [] = some nothing
  scan (i ∷ []) = if i.is_terminator || not i.is_marker then some nothing else some crash
  scan (i ∷ p ∷ l) =
      let rest = scan (p ∷ l) in
      if i.is_terminator || not i.is_marker
      then rest
      else if p.is_marker
      then rest
      else after_search (find_loop hash_combine i (p ∷ l)) rest

  -- The last instruction is passed over.
  unfoldable pub scan_block : List Instruction → Option Scan
  unfolding scan
  scan_block [] = some nothing
  scan_block (i ∷ l) = scan l

  abbrev pub or_next : Option Scan → Option Scan → Option Scan
  or_next (some nothing) rest = rest
  or_next r rest = r

  unfoldable pub scan_blocks : List (List Instruction) → Option Scan
  unfolding scan_block
  scan_blocks [] = some nothing
  scan_blocks (b ∷ bs) = let rest = scan_blocks bs in or_next (scan_block b) rest

  -- `phi_s`, from the last two blocks.
  unfoldable pub phis_of : List Block → Option Dataflow
  unfolding dependency_analysis phi_analysis
  phis_of [] = none
  phis_of (b ∷ []) = none
  phis_of (b ∷ c ∷ []) =
      some (phi_analysis c.dataflow (dependency_analysis b.dataflow c.instructions))
  phis_of (b ∷ c ∷ d ∷ bs) = phis_of (c ∷ d ∷ bs)
