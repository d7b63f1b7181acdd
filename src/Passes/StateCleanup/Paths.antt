-- ===== src/Passes/StateCleanup/Paths.antt =====
-- src/passes/state_cleanup.cpp: what the search says of the paths after a store.
use vexa.Prelude.{
  contains, ℕ, zero, suc, ◌+◌, ◌≡◌, ◌≢◌, inl, inr, refl, sym, ap, ◌∙◌, Bool, true, false, List, [],
  ◌∷◌, ◌++◌, Option, none, some, ◌==◌, arith, Bool-cases,
}
use vexa.Passes.StateCleanup.{
  Gep, Function, Instruction, store, load, other, Slot, block_at, begins, pending, scan, search,
  is_alive, same_slot,
}
use vexa.Passes.StateCleanup.Search.{is_alive-ends}

abbrev pub instructions_of : Function → ℕ → List Instruction
instructions_of f c = (block_at f c).instructions

abbrev pub successors_of : Function → ℕ → List ℕ
successors_of f c = (block_at f c).successors

-- The blocks that paths from `starts` reach outside `visited`.
data Walk (f : Function) (visited : List ℕ) (starts : List ℕ) : ℕ → Type 0 where
  here : (c : ℕ) → contains c starts ≡ true → contains c visited ≡ false → Walk f visited starts c
  next :
      (c d : ℕ)
      → Walk f visited starts c
      → contains d (successors_of f c) ≡ true
      → contains d visited ≡ false
      → Walk f visited starts d

-- A path through the blocks from one of `starts` on, which does not come back to `b`.
abbrev pub IsPath : Function → ℕ → List ℕ → List ℕ → Type 0
IsPath f b starts [] = Unit
IsPath f b starts (c ∷ path) =
    (contains c starts ≡ true) × (c ≢ b) × IsPath f b (successors_of f c) path

-- The instructions that run along a path.
abbrev pub trace : Function → List ℕ → List Instruction
trace f [] = []
trace f (c ∷ path) = instructions_of f c ++ trace f path

scan-append_true : (s : Slot) (l m : List Instruction) → scan s l ≡ true → scan s (l ++ m) ≡ true
unfolding scan
scan-append_true s [] m h = cc
scan-append_true s (store p ∷ l) m h = elim (Bool-cases (same_slot s p)) [
  | inl e ↦ ground (arith, e, h)
  | inr e ↦ rw e (scan-append_true s l m (rw e at h))
]
scan-append_true s (load p ∷ l) m h = elim (Bool-cases (same_slot s p)) [
  | inl e ↦ rw e refl
  | inr e ↦ rw e (scan-append_true s l m (rw e at h))
]
scan-append_true s (other ∷ l) m h = scan-append_true s l m h

-- The search takes nothing from a block that it has visited.
search-visited :
    (fuel : ℕ) (f : Function) (s : Slot) (b : ℕ) (rest : List Instruction) (r : Bool)
    → search fuel f s ((b, rest) ∷ []) (b ∷ []) false ≡ some r
    → r ≡ false
unfolding search
search-visited zero f s b rest r h = cc
search-visited (suc zero) f s b rest r h =
    let seen : (b == b) ≡ true = ground arith in let out : none ≡ some r = rw seen at h in cc
search-visited (suc (suc fuel)) f s b rest r h =
    let seen : (b == b) ≡ true = ground arith in let last : some false ≡ some r = rw seen at h in cc

-- Where a block is its own only successor, reads a slot first and stores at its end, the search
-- says for that slot that the store is dead, although the next round of the loop reads the slot: the
-- search does not look again at a block that it has looked at from the store on.
pub is_alive_misses_loops :
    (f : Function) (s : Slot) (b : ℕ) (before : List Instruction) (p : Option Gep)
    → instructions_of f b ≡ before ++ store p ∷ []
    → successors_of f b ≡ b ∷ []
    → scan s before ≡ true
    → (is_alive f s b [] ≡ false) × (scan s (trace f (b ∷ [])) ≡ true)
unfolding search
is_alive_misses_loops f s b before p body again h =
    let (r, e, same) = is_alive-ends f s b [] in
    let next = (b, instructions_of f b) ∷ [] in
    let found : search (pending 0 f [] + 1) f s next (b ∷ []) false ≡ some r =
      ap (λ q. search (pending 0 f [] + 1) f s (begins f q) (b ∷ []) false) (sym again) ∙ e in
    (
      same ∙ search-visited (pending 0 f [] + 1) f s b (instructions_of f b) r found,
      rw body (
          scan-append_true s (before ++ store p ∷ []) []
            (scan-append_true s before (store p ∷ []) h)),
    )
