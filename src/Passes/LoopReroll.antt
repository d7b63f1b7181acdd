-- ===== src/Passes/LoopReroll.antt =====
-- src/passes/loop_reroll.cpp: the hashes and the dataflow of instructions, and the search for a
-- repeated pattern. LLVM's `hash_combine` is a parameter. The search goes backwards through a
-- block, so its lists have the last instruction first.
pub mod Dataflow
pub mod Matches
pub mod Scanning
pub mod Markers
use vexa.Prelude.{
  ℕ, zero, suc, ◌+◌, ◌*◌, ◌-◌, Bool, true, false, not, ◌&&◌, ◌||◌, List, [], ◌∷◌, ◌++◌, Option,
  none, some, ◌==◌, ltb, if◌then◌else◌, length,
}

-- An operand: an integer constant, another constant, or a value by its number.
pub data Operand : Type 0 where
  constant_int : ℕ → Operand
  constant : Operand
  value : ℕ → Operand

-- `llvm::Instruction`: its number as a value, and what the pass reads.
pub record Instruction : Type 0 where
  pub number : ℕ
  pub opcode : ℕ
  pub type : ℕ
  pub operands : List Operand
  pub is_terminator : Bool
  pub is_marker : Bool

-- `instruction_t`
pub record Hashed : Type 0 where
  pub value : Instruction
  pub hash : ℕ

-- `dependency_t`
pub record Dependency : Type 0 where
  pub dependency : ℕ
  pub access_instr : Instruction
  pub accessed_by_index : ℕ

abbrev pub Dataflow : Type 0
Dataflow = List Dependency

-- `block_t`
pub record Block : Type 0 where
  pub instructions : List Hashed
  pub dataflow : Dataflow

abbrev pub take : ℕ → List Instruction → List Instruction
take zero l = []
take (suc n) [] = []
take (suc n) (i ∷ l) = i ∷ take n l

abbrev pub drop : ℕ → List Instruction → List Instruction
drop zero l = l
drop (suc n) [] = []
drop (suc n) (i ∷ l) = drop n l

-- Whether a value is one of the instructions.
abbrev pub is_defined : ℕ → List Hashed → Bool
is_defined v [] = false
is_defined v (i ∷ l) = (i.value.number == v) || is_defined v l

-- Whether a value is one of the dependencies.
abbrev pub is_dependency : ℕ → Dataflow → Bool
is_dependency v [] = false
is_dependency v (d ∷ l) = (d.dependency == v) || is_dependency v l

-- The loop body for one operand of the instruction `i` at `index`.
unfoldable pub add_dependency : List Hashed → Instruction → ℕ → Operand → Dataflow → Dataflow
add_dependency block i index (constant_int n) ds = ds
add_dependency block i index constant ds = ds
add_dependency block i index (value v) ds =
    if is_defined v block || is_dependency v ds
    then ds
    else ds ++ record { dependency = v; access_instr = i; accessed_by_index = index } ∷ []

unfoldable pub add_dependencies : List Hashed → Instruction → ℕ → List Operand → Dataflow → Dataflow
unfolding add_dependency
add_dependencies block i index [] ds = ds
add_dependencies block i index (o ∷ os) ds =
    add_dependencies block i index os (add_dependency block i index o ds)

-- The loop of `dataflow_analysis` over the instructions from `index` on.
unfoldable pub analyse : List Hashed → ℕ → List Hashed → Dataflow → Dataflow
unfolding add_dependencies
analyse block index [] ds = ds
analyse block index (i ∷ l) ds =
    analyse block (suc index) l (add_dependencies block i.value index i.value.operands ds)

unfoldable pub dataflow_analysis : List Hashed → Dataflow
unfolding analyse
dataflow_analysis block = analyse block 0 block []

-- `dependency_analysis`
unfoldable pub dependency_analysis : Dataflow → List Hashed → Dataflow
dependency_analysis [] block = []
dependency_analysis (d ∷ ds) block =
    let rest = dependency_analysis ds block in
    if is_defined d.dependency block then d ∷ rest else rest

abbrev pub is_accessed_at : ℕ → Dataflow → Bool
is_accessed_at index [] = false
is_accessed_at index (d ∷ ds) = (d.accessed_by_index == index) || is_accessed_at index ds

-- `phi_analysis`
unfoldable pub phi_analysis : Dataflow → Dataflow → Dataflow
phi_analysis [] flow = []
phi_analysis (d ∷ ds) flow =
    let rest = phi_analysis ds flow in
    if is_accessed_at d.accessed_by_index flow then d ∷ rest else rest

module _ (hash_combine : ℕ → ℕ → ℕ) where
  abbrev pub hash_operand : ℕ → Operand → ℕ
  hash_operand h (constant_int n) = hash_combine h n
  hash_operand h constant = hash_combine h 3735929054
  hash_operand h (value v) = hash_combine h 3735929054

  unfoldable pub hash_operands : ℕ → List Operand → ℕ
  hash_operands h [] = h
  hash_operands h (o ∷ os) = hash_operands (hash_operand h o) os

  unfoldable pub hash_instruction : Instruction → Hashed
  unfolding hash_operands
  hash_instruction i = record {
    value = i;
    hash = hash_operands (hash_combine (hash_combine 0 i.opcode) i.type) i.operands;
  }

  abbrev pub hash_all : List Instruction → List Hashed
  hash_all [] = []
  hash_all (i ∷ l) = hash_instruction i ∷ hash_all l

  -- The loop of `hash_instructions`, from number `i` on.
  unfoldable pub hash_from : ℕ → ℕ → List Hashed → ℕ
  hash_from h i [] = h
  hash_from h i (x ∷ l) = hash_from (hash_combine (hash_combine h x.hash) i) (suc i) l

  unfoldable pub hash_instructions : List Hashed → ℕ
  unfolding hash_from
  hash_instructions l = hash_from 0 0 l

  unfoldable pub hash_dependency : Dependency → ℕ
  unfolding hash_instruction
  hash_dependency d =
      hash_combine (hash_combine 0 (hash_instruction d.access_instr).hash) d.accessed_by_index

  -- `dataflow_t::operator==`
  unfoldable pub same_dataflow : Dataflow → Dataflow → Bool
  unfolding hash_dependency
  same_dataflow [] [] = true
  same_dataflow [] (e ∷ es) = false
  same_dataflow (d ∷ ds) [] = false
  same_dataflow (d ∷ ds) (e ∷ es) = (hash_dependency d == hash_dependency e) && same_dataflow ds es

  -- `search_hash == hash && dataflow == inst_dataflow`
  unfoldable pub is_match : List Hashed → List Hashed → Bool
  unfolding hash_instructions dataflow_analysis same_dataflow
  is_match body next =
      (hash_instructions body == hash_instructions next)
      && same_dataflow (dataflow_analysis body) (dataflow_analysis next)

  -- `unrolled_loop_t`; its body is the pattern that is searched for.
  pub record UnrolledLoop : Type 0 where
    pub iteration_count : ℕ
    pub body : List Hashed
    pub entry : List Hashed
    pub blocks : List Block

  abbrev pub block_of : List Hashed → Block
  block_of l = record { instructions = l; dataflow = dataflow_analysis l }

  -- `loop.blocks` where the next instructions match.
  abbrev pub blocks_with : List Block → List Hashed → List Hashed → List Block
  blocks_with [] body next = block_of body ∷ block_of next ∷ []
  blocks_with (b ∷ bs) body next = (b ∷ bs) ++ block_of next ∷ []

  abbrev pub add_iteration : List Hashed → UnrolledLoop → UnrolledLoop
  add_iteration next s = record s {
    iteration_count = suc s.iteration_count;
    body = next;
    blocks = blocks_with s.blocks s.body next;
  }

  -- The instructions up to the first whose hash differs from the pattern's.
  unfoldable pub common_prefix : List Hashed → List Hashed → List Hashed
  common_prefix [] body = []
  common_prefix (i ∷ l) [] = []
  common_prefix (i ∷ l) (b ∷ body) = if i.hash == b.hash then i ∷ common_prefix l body else []

  -- The loop of the search over the instructions that are left, on fuel.
  unfoldable pub search : ℕ → List Instruction → UnrolledLoop → Option UnrolledLoop
  unfolding is_match hash_instruction common_prefix
  search zero l s = none
  search (suc fuel) [] s = some s
  search (suc fuel) (i ∷ l) s =
      let next = hash_all (take (length s.body) (i ∷ l)) in
      let matched = search fuel (drop (length next) (i ∷ l)) (add_iteration next s) in
      let extended = search fuel l (record s { body = s.body ++ hash_instruction i ∷ [] }) in
      if ltb 512 (length s.body)
      then some s
      else if is_match s.body next
      then matched
      else if ltb 3 s.iteration_count
      then some (record s { entry = common_prefix next s.body })
      else extended

  -- The search from a marker, with the instructions before it.
  unfoldable pub find_loop : Instruction → List Instruction → Option UnrolledLoop
  unfolding search
  find_loop marker l =
      search (suc (length l)) l (record {
        iteration_count = 1;
        body = hash_instruction marker ∷ [];
        entry = [];
        blocks = [];
      })
