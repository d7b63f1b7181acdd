-- ===== src/Tests.antt =====
-- Concrete runs of the model, over the solver of Terms/Trees.antt.
mod Values
mod Pages
mod Instructions
mod Binaries
mod Paths
mod Passes
mod Constants
mod Files
mod Folds
mod Loops
mod Moves
mod Registers
mod Reads
mod Lookups
mod Scalars
use vexa.Terms.{Bitwuzla}
use vexa.Terms.Trees.{trees}

-- The solver that the runs use.
instance abbrev pub solver : Bitwuzla
solver = trees
