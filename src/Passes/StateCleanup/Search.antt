-- ===== src/Passes/StateCleanup/Search.antt =====
-- src/passes/state_cleanup.cpp: the rounds of the search for a load of the slot.
use vexa.Prelude.{
  contains, ℕ, zero, suc, ◌+◌, ◌<◌, ◌≡◌, refl, ap, Bool, false, ◌||◌, List, [], ◌∷◌, ◌++◌, some,
  arith, length, length-append, get_elem?, Bool-cases, inl, inr,
}
use vexa.Passes.StateCleanup.{
  Function, Instruction, is_alive, or_alive, Slot, Iterator, block_at, or_no_block, begins, pending,
  rounds, scan, search,
}

length-begins : (f : Function) (cs : List ℕ) → length (begins f cs) ≡ length cs
length-begins f [] = refl
length-begins f (c ∷ cs) = omega (arith, length-begins f cs)

-- Visiting a block that comes before all of these changes nothing.
pending-before :
    (i : ℕ) (f : Function) (b : ℕ) (visited : List ℕ)
    → b < i
    → pending i f (b ∷ visited) ≡ pending i f visited
pending-before i [] b visited h = refl
pending-before i (k ∷ f) b visited h =
    ground (arith, pending-before (i + 1) f b visited (omega arith))

-- Visiting a new block takes its successors out of the sum.
pending-visit :
    (i : ℕ) (f : Function) (b : ℕ) (visited : List ℕ)
    → contains (i + b) visited ≡ false
    → pending i f ((i + b) ∷ visited) + length (or_no_block (get_elem? f b)).successors
      ≡ pending i f visited
pending-visit i [] b visited new = omega arith
pending-visit i (k ∷ f) zero visited new =
    let e : i + 0 ≡ i = omega arith in
    rw e (ground (arith, rw e at new, pending-before (i + 1) f i visited (omega arith)))
pending-visit i (k ∷ f) (suc b) visited new =
    let e : i + suc b ≡ i + 1 + b = omega arith in
    rw e (ground (arith, pending-visit (i + 1) f b visited (rw e at new)))

-- The search ends within as many rounds as there are iterators in the queue and successors of
-- blocks not visited yet.
pub search-ends :
    (fuel : ℕ) (f : Function) (s : Slot) (queue : List Iterator) (visited : List ℕ) (alive : Bool)
    → length queue + pending 0 f visited < fuel
    → (r : Bool) × (search fuel f s queue visited alive ≡ some r)
unfolding search
search-ends zero f s queue visited alive h = absurd (omega arith)
search-ends (suc fuel) f s [] visited alive h = (alive, refl)
search-ends (suc fuel) f s ((b, rest) ∷ queue) visited alive h =
    elim (Bool-cases (contains b visited)) [
      | inl seen ↦ rw seen (search-ends fuel f s queue visited alive (omega arith))
      | inr new ↦
          let next = begins f (block_at f b).successors in
          let e : 0 + b ≡ b = omega arith in
          let drop = rw e at (pending-visit 0 f b visited (rw e new)) in
          rw new (
            search-ends fuel f s (queue ++ next) (b ∷ visited) (alive || scan s rest) (
              omega
                (arith, length-append queue next, length-begins f (block_at f b).successors, drop)))
    ]

-- The search for one store always ends.
pub is_alive-ends :
    (f : Function) (s : Slot) (b : ℕ) (rest : List Instruction)
    → (r : Bool) × (search (rounds f) f s ((b, rest) ∷ []) [] false ≡ some r)
      × (is_alive f s b rest ≡ r)
unfolding is_alive
is_alive-ends f s b rest =
    let (r, e) = search-ends (rounds f) f s ((b, rest) ∷ []) [] false (omega arith) in
    (r, e, ap or_alive e)
