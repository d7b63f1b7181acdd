-- ===== src/Passes/LoopReroll/Markers.antt =====
-- src/passes/loop_reroll.cpp: the scan for the markers of unrolled loops.
use vexa.Prelude.{
  ℕ, ◌≤◌, ◌≡◌, ◌∙◌, sym, refl, Bool, true, false, not, ◌&&◌, ◌||◌, List, [], ◌∷◌, Option, none,
  some, ◌==◌, ltb, if◌then◌else◌, arith, length, inl, inr, Bool-cases, All,
}
use vexa.Passes.LoopReroll.{
  Instruction, Hashed, Dataflow, Block, dependency_analysis, is_accessed_at, phi_analysis,
  is_defined, find_loop,
}
use vexa.Passes.LoopReroll.Scanning.{
  Scan, found, nothing, crash, after_search, scan, scan_block, or_next, scan_blocks, phis_of,
}
use vexa.Passes.LoopReroll.Matches.{IsFound, find_loop_sound}

-- Whether a value that is read at an index is defined by the instructions.
abbrev pub is_carried : ℕ → Dataflow → List Hashed → Bool
is_carried index [] l = false
is_carried index (d ∷ ds) l =
    ((d.accessed_by_index == index) && is_defined d.dependency l) || is_carried index ds l

is_accessed_at-dependency_analysis :
    (index : ℕ) (ds : Dataflow) (l : List Hashed)
    → is_accessed_at index (dependency_analysis ds l) ≡ is_carried index ds l
unfolding dependency_analysis
is_accessed_at-dependency_analysis index [] l = refl
is_accessed_at-dependency_analysis index (d ∷ ds) l =
    let rest = is_accessed_at-dependency_analysis index ds l in
    elim (Bool-cases (is_defined d.dependency l)) [
      | inl defined ↦ ground (arith, defined, rest)
      | inr absent ↦ ground (arith, absent, rest)
    ]

phi_analysis-carried :
    (ds flow : Dataflow) (l : List Hashed)
    → All
        (λ d. is_carried d.accessed_by_index flow l ≡ true)
        (phi_analysis ds (dependency_analysis flow l))
unfolding phi_analysis
phi_analysis-carried [] flow l = tt
phi_analysis-carried (d ∷ ds) flow l =
    let index = d.accessed_by_index in
    elim (Bool-cases (is_accessed_at index (dependency_analysis flow l))) [
      | inl here ↦ rw here (
          (
            sym (is_accessed_at-dependency_analysis index flow l) ∙ here,
            phi_analysis-carried ds flow l,
          ))
      | inr away ↦ rw away (phi_analysis-carried ds flow l)
    ]

-- The phis are read where the iteration before reads a value of the last block.
abbrev pub ArePhis : List Block → Dataflow → Type 0
ArePhis [] phis = ⊥
ArePhis (b ∷ []) phis = ⊥
ArePhis (b ∷ c ∷ []) phis =
    All (λ d. is_carried d.accessed_by_index b.dataflow c.instructions ≡ true) phis
ArePhis (b ∷ c ∷ d ∷ bs) phis = ArePhis (c ∷ d ∷ bs) phis

module _ (hash_combine : ℕ → ℕ → ℕ) where
  phis_of-ArePhis :
      (bs : List Block)
      → 2 ≤ length bs
      → (phis : Dataflow) × (phis_of hash_combine bs ≡ some phis) × ArePhis bs phis
  unfolding phis_of
  phis_of-ArePhis [] h = absurd (omega (arith, h))
  phis_of-ArePhis (b ∷ []) h = absurd (omega (arith, h))
  phis_of-ArePhis (b ∷ c ∷ []) h =
      (_, refl, phi_analysis-carried c.dataflow b.dataflow c.instructions)
  phis_of-ArePhis (b ∷ c ∷ d ∷ bs) h = phis_of-ArePhis (c ∷ d ∷ bs) (omega arith)

  -- What a result of the scan says, where `crashes` is whether it may meet a null pointer.
  abbrev pub Describes : Bool → Scan hash_combine → Type 0
  Describes crashes (found s) =
      IsFound hash_combine s
      × (4 ≤ length s.blocks)
      × ((phis : Dataflow) × (phis_of hash_combine s.blocks ≡ some phis) × ArePhis s.blocks phis)
  Describes crashes nothing = Unit
  Describes crashes crash = crashes ≡ true

  abbrev pub Ends : Bool → Option (Scan hash_combine) → Type 0
  Ends crashes none = ⊥
  Ends crashes (some r) = Describes crashes r

  Describes-weaken :
      (b c : Bool) (r : Scan hash_combine) → (b ≡ true → c ≡ true) → Describes b r → Describes c r
  Describes-weaken b c (found s) f h = h
  Describes-weaken b c nothing f h = tt
  Describes-weaken b c crash f h = f h

  Ends-after_search :
      (b : Bool) (marker : Instruction) (l : List Instruction) (rest : Option (Scan hash_combine))
      → Ends b rest
      → Ends b (after_search hash_combine (find_loop hash_combine marker l) rest)
  Ends-after_search b marker l rest h =
      let (s, e, k) = find_loop_sound hash_combine marker l in
      elim (Bool-cases (ltb 3 s.iteration_count)) [
        | inl many ↦
            let enough : 4 ≤ length s.blocks = ground (arith, many, k.counted) in
            rw (e, many) (k, enough, phis_of-ArePhis s.blocks (omega (arith, enough)))
        | inr few ↦ rw (e, few) h
      ]

  Ends-tests :
      (b skip twice : Bool) (rest searched : Option (Scan hash_combine))
      → Ends b rest
      → Ends b searched
      → Ends b (if skip then rest else if twice then rest else searched)
  Ends-tests b true twice rest searched h k = h
  Ends-tests b false true rest searched h k = h
  Ends-tests b false false rest searched h k = k

  -- Whether the last instruction of the list is a marker.
  abbrev pub begins : List Instruction → Bool
  begins [] = false
  begins (i ∷ []) = not i.is_terminator && i.is_marker
  begins (i ∷ p ∷ l) = begins (p ∷ l)

  abbrev pub block_begins : List Instruction → Bool
  block_begins [] = false
  block_begins (i ∷ l) = begins l

  abbrev pub some_begins : List (List Instruction) → Bool
  some_begins [] = false
  some_begins (b ∷ bs) = block_begins b || some_begins bs

  Ends-scan : (l : List Instruction) → Ends (begins l) (scan hash_combine l)
  unfolding scan
  Ends-scan [] = tt
  Ends-scan (i ∷ []) = elim (Bool-cases (i.is_terminator || not i.is_marker)) [
    | inl other ↦ rw other tt
    | inr marker ↦ rw marker (ground (arith, marker))
  ]
  Ends-scan (i ∷ p ∷ l) =
      Ends-tests (begins (p ∷ l)) (i.is_terminator || not i.is_marker) p.is_marker _ _
        (Ends-scan (p ∷ l)) (Ends-after_search (begins (p ∷ l)) i (p ∷ l) _ (Ends-scan (p ∷ l)))

  Ends-scan_block : (l : List Instruction) → Ends (block_begins l) (scan_block hash_combine l)
  unfolding scan_block
  Ends-scan_block [] = tt
  Ends-scan_block (i ∷ l) = Ends-scan l

  Ends-or_next :
      (b c : Bool) (r rest : Option (Scan hash_combine))
      → Ends b r
      → Ends c rest
      → Ends (b || c) (or_next hash_combine r rest)
  Ends-or_next b c none rest h k = h
  Ends-or_next b c (some (found s)) rest h k = h
  Ends-or_next b c (some crash) rest h k = ground (arith, h)
  Ends-or_next b c (some nothing) none h k = k
  Ends-or_next b c (some nothing) (some r) h k =
      Describes-weaken c (b || c) r (λ e. ground (arith, e)) k

  Ends-result :
      (b : Bool) (r : Option (Scan hash_combine))
      → Ends b r
      → (x : Scan hash_combine) × (r ≡ some x) × Describes b x
  Ends-result b none h = absurd h
  Ends-result b (some x) h = (x, refl, h)

  Ends-scan_blocks :
      (bs : List (List Instruction)) → Ends (some_begins bs) (scan_blocks hash_combine bs)
  unfolding scan_blocks
  Ends-scan_blocks [] = tt
  Ends-scan_blocks (b ∷ bs) =
      Ends-or_next (block_begins b) (some_begins bs) _ _ (Ends-scan_block b) (Ends-scan_blocks bs)

  -- The scan of a function ends. It meets a null pointer only where a block begins with a marker. A
  -- loop that it gives has at least four blocks, linked as the search leaves them, and phis from the
  -- last two blocks, each read at an index at which the iteration before reads a value of the last.
  pub scan_blocks_sound :
      (bs : List (List Instruction))
      → (r : Scan hash_combine) × (scan_blocks hash_combine bs ≡ some r)
        × Describes (some_begins bs) r
  scan_blocks_sound bs = Ends-result (some_begins bs) _ (Ends-scan_blocks bs)
