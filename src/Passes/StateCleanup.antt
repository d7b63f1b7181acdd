-- ===== src/Passes/StateCleanup.antt =====
-- src/passes/state_cleanup.cpp: erasing the stores to the CPU state that no load reads.
-- A function is the list of its blocks; an instruction is what the pass reads of it.
pub mod Search
pub mod Paths
pub mod Progress
use vexa.Prelude.{
  ℕ, zero, suc, ◌+◌, Bool, true, false, not, ◌&&◌, ◌||◌, List, [], ◌∷◌, ◌++◌, Option, none, some,
  ◌==◌, if◌then◌else◌, length, get_elem?, set, map, contains,
}

-- A GEP: what `isSameOperationAs` compares, its first operand, and its offset, if it is constant.
pub record Gep : Type 0 where
  pub operation : ℕ
  pub base : ℕ
  pub offset : Option ℕ

-- A store and a load have their pointer operand, where it is a GEP.
pub data Instruction : Type 0 where
  store load : Option Gep → Instruction
  other : Instruction

pub record BasicBlock : Type 0 where
  pub instructions : List Instruction
  pub successors : List ℕ

abbrev pub Function : Type 0
Function = List BasicBlock

abbrev pub no_block : BasicBlock
no_block = record { instructions = []; successors = [] }

abbrev pub or_no_block : Option BasicBlock → BasicBlock
or_no_block none = no_block
or_no_block (some b) = b

abbrev pub block_at : Function → ℕ → BasicBlock
block_at f i = or_no_block (get_elem? f i)

-- The address of the store that is looked at.
pub record Slot : Type 0 where
  pub operation : ℕ
  pub offset : ℕ

-- `isSameOperationAs` and equal offsets.
unfoldable pub same_slot : Slot → Option Gep → Bool
same_slot s none = false
same_slot s (some g) = elim g.offset [
  | none ↦ false
  | some o ↦ (g.operation == s.operation) && (s.offset == o)
]

-- The loop over the instructions: whether a load is met before the slot is overwritten.
unfoldable pub scan : Slot → List Instruction → Bool
unfolding same_slot
scan s [] = false
scan s (store p ∷ l) = let rest = scan s l in if same_slot s p then false else rest
scan s (load p ∷ l) = let rest = scan s l in if same_slot s p then true else rest
scan s (other ∷ l) = scan s l

-- An iterator: its block and the instructions from it on.
abbrev pub Iterator : Type 0
Iterator = ℕ × List Instruction

-- `succ->begin()` of each successor.
abbrev pub begins : Function → List ℕ → List Iterator
begins f [] = []
begins f (c ∷ cs) = (c, (block_at f c).instructions) ∷ begins f cs

-- The loop over the queue, on fuel; `none` where the fuel runs out.
unfoldable pub search : ℕ → Function → Slot → List Iterator → List ℕ → Bool → Option Bool
unfolding scan
search zero f s queue visited is_alive = none
search (suc fuel) f s [] visited is_alive = some is_alive
search (suc fuel) f s ((b, rest) ∷ queue) visited is_alive =
    let skipped = search fuel f s queue visited is_alive in
    let entered =
      search fuel f s (queue ++ begins f (block_at f b).successors) (b ∷ visited)
        (is_alive || scan s rest) in
    if contains b visited then skipped else entered

-- The successors of the blocks that are not visited, from block `i` on.
abbrev pub pending : ℕ → Function → List ℕ → ℕ
pending i [] visited = 0
pending i (b ∷ f) visited =
    (if contains i visited then 0 else length b.successors) + pending (i + 1) f visited

-- Enough rounds for one store.
abbrev pub rounds : Function → ℕ
rounds f = suc (pending 0 f [] + 1)

abbrev pub or_alive : Option Bool → Bool
or_alive none = true
or_alive (some alive) = alive

-- Whether a store to the slot in block `b`, before `rest`, is read later.
unfoldable pub is_alive : Function → Slot → ℕ → List Instruction → Bool
unfolding search
is_alive f s b rest = or_alive (search (rounds f) f s ((b, rest) ∷ []) [] false)

-- The slot of a store to the state other than the return register.
unfoldable pub state_slot : ℕ → ℕ → Option Gep → Option Slot
state_slot state_ptr return_offset none = none
state_slot state_ptr return_offset (some g) = elim g.offset [
  | none ↦ none
  | some o ↦
      if (g.base == state_ptr) && not (o == return_offset)
      then some (record { operation = g.operation; offset = o })
      else none
]

-- Whether the instruction before `rest` is a dead store.
unfoldable pub is_dead : Function → ℕ → ℕ → ℕ → Instruction → List Instruction → Bool
unfolding is_alive state_slot
is_dead f state_ptr return_offset b (store p) rest = elim (state_slot state_ptr return_offset p) [
  | none ↦ false
  | some s ↦ not (is_alive f s b rest)
]
is_dead f state_ptr return_offset b (load p) rest = false
is_dead f state_ptr return_offset b other rest = false

-- The block with its dead stores erased; all are found before any is erased.
unfoldable pub erase_dead : Function → ℕ → ℕ → ℕ → List Instruction → List Instruction
unfolding is_dead
erase_dead f state_ptr return_offset b [] = []
erase_dead f state_ptr return_offset b (i ∷ rest) =
    let rest' = erase_dead f state_ptr return_offset b rest in
    if is_dead f state_ptr return_offset b i rest then rest' else i ∷ rest'

-- Whether `dead_stores` has an element at the end of the loop.
unfoldable pub has_dead : Function → ℕ → ℕ → ℕ → List Instruction → Bool
unfolding is_dead
has_dead f state_ptr return_offset b [] = false
has_dead f state_ptr return_offset b (i ∷ rest) =
    is_dead f state_ptr return_offset b i rest || has_dead f state_ptr return_offset b rest

-- One round of the loop over the blocks; the flag is `changed_smth`.
unfoldable pub clean_block : ℕ → ℕ → ℕ → Function × Bool → Function × Bool
unfolding erase_dead has_dead
clean_block state_ptr return_offset b (f, changed) =
    let l = (block_at f b).instructions in
    (
      set f b (record (block_at f b) { instructions = erase_dead f state_ptr return_offset b l }),
      changed || has_dead f state_ptr return_offset b l,
    )

-- The loop over the blocks from block `b` on, `left` of them.
unfoldable pub clean_blocks : ℕ → ℕ → ℕ → ℕ → Function × Bool → Function × Bool
unfolding clean_block
clean_blocks zero state_ptr return_offset b f = f
clean_blocks (suc left) state_ptr return_offset b f =
    clean_blocks left state_ptr return_offset (b + 1) (clean_block state_ptr return_offset b f)

-- The pass: the function, and whether something was erased.
unfoldable pub run : ℕ → ℕ → Function → Function × Bool
unfolding clean_blocks
run state_ptr return_offset f = clean_blocks (length f) state_ptr return_offset 0 (f, false)
