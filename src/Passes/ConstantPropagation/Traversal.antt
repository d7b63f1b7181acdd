-- ===== src/Passes/ConstantPropagation/Traversal.antt =====
-- src/passes/constant_propagation_memory.cpp: the walk over the memory accesses from one root,
-- with its stack of frames. An access has its children with it; a frame has the children that are
-- left, for `next_child`.
pub mod Reference
pub mod Known
pub mod Tracks
pub mod Judged
pub mod Sound
use vexa.Prelude.{
  ℕ, zero, suc, ◌+◌, Bool, true, false, not, ◌&&◌, ◌||◌, List, [], ◌∷◌, Option, none, some, leb,
  if◌then◌else◌, length,
}
use vexa.Passes.ConstantPropagation.ByteSafety.{
  ConcreteMemoryAccess, State, set_range_safety, rollback,
}
use vexa.Passes.ConstantPropagation.Values.{
  LlvmValue, instruction, Instr, Cache, all_safe, and_then, is_safe_value, depth,
}

-- A store that is a memory definition.
pub record Store : Type 0 where
  pub in_loop : Bool
  pub predecessors : ℕ
  pub pointer : LlvmValue
  pub value : LlvmValue
  pub access : ConcreteMemoryAccess

mutual
  -- A memory access: its number, the loads that it defines, its store, where it is one to a known
  -- address, and the definitions that follow it.
  pub data Access : Type 0 where
    access : ℕ → List ℕ → Option Store → Children → Access

  pub data Children : Type 0 where
    last : Children
    child : Access → Children → Children

abbrev pub number : Access → ℕ
number (access d loads s cs) = d

abbrev pub loads_of : Access → List ℕ
loads_of (access d loads s cs) = loads

abbrev pub store_of : Access → Option Store
store_of (access d loads s cs) = s

abbrev pub children_of : Access → Children
children_of (access d loads s cs) = cs

-- The state after a definition.
unfoldable pub define : State → ℕ → Option Store → Bool → State
unfolding set_range_safety
define st d none safe = record st { active_generation = d; default_byte_safety = false }
define st d (some s) safe = set_range_safety st s.access.address safe s.access.size 0

-- A test on values at `depth` has a result for every value.
abbrev pub settled : Cache → Option (Bool × Cache) → Bool × Cache
settled c none = (false, c)
settled c (some r) = r

module _ (f : List Instr) where
  -- The loop over the loads of an access.
  unfoldable pub judge_loads : State → ℕ → List ℕ → Cache → Cache
  unfolding is_safe_value
  judge_loads st active [] c = c
  judge_loads st active (l ∷ ls) c =
      judge_loads st active ls (settled c (is_safe_value (depth f) f st active (instruction l) c)).1

  -- `store_is_safe`
  unfoldable pub store_is_safe : State → ℕ → Store → Cache → Bool × Cache
  unfolding is_safe_value
  store_is_safe st active s c =
      if not s.in_loop && leb s.predecessors 1
      then settled c (all_safe (is_safe_value (depth f) f st active) (s.pointer ∷ s.value ∷ []) c)
      else (false, c)

  abbrev pub judge_store : State → ℕ → Option Store → Cache → Bool × Cache
  judge_store st active none c = (false, c)
  judge_store st active (some s) c = store_is_safe st active s c

-- `traversal_frame`
pub record Frame : Type 0 where
  pub access : Access
  pub left : Children
  pub rollback_checkpoint : ℕ
  pub previous_generation : ℕ
  pub previous_default_safety : Bool
  pub entered : Bool

-- The frame of a definition that is entered from `st`.
abbrev pub frame_from : State → Access → Frame
frame_from st a = record {
  access = a;
  left = children_of a;
  rollback_checkpoint = length st.undo_log;
  previous_generation = st.active_generation;
  previous_default_safety = st.default_byte_safety;
  entered = false;
}

-- The end of a frame.
abbrev pub leave : Frame → State → State
leave fr st = record (rollback fr.rollback_checkpoint st) {
  active_generation = fr.previous_generation;
  default_byte_safety = fr.previous_default_safety;
}

-- The stack, the variables and the cache.
abbrev pub Walk : Type 0
Walk = List Frame × State × Cache

-- The variables where the walk starts from a root.
abbrev pub initial : ℕ → Bool → State
initial root is_live_on_entry = record {
  byte_safety = λ a. none;
  undo_log = [];
  active_generation = root;
  default_byte_safety = is_live_on_entry;
}

module _ (f : List Instr) where
  -- The rest of a round: the next child, or the end of the frame.
  abbrev pub advance : Children → Frame → List Frame → State → Cache → Walk
  advance last fr stack st c = (stack, leave fr st, c)
  advance (child a cs) fr stack st c =
      let (safe, c') = judge_store f st (number fr.access) (store_of a) c in
      (
        frame_from st a ∷ record fr { left = cs; entered = true } ∷ stack,
        define st (number a) (store_of a) safe,
        c',
      )

  -- One round with the frame on top of the stack.
  unfoldable pub round : Frame → List Frame → State → Cache → Walk
  unfolding judge_loads store_is_safe define
  round fr stack st c =
      let entered = judge_loads f st (number fr.access) (loads_of fr.access) c in
      advance fr.left fr stack st (if fr.entered then c else entered)

  -- The loop `while (!stack.empty())`; `none` where the fuel runs out.
  unfoldable pub walk : ℕ → List Frame → State → Cache → Option (State × Cache)
  unfolding round
  walk zero stack st c = none
  walk (suc fuel) [] st c = some (st, c)
  walk (suc fuel) (fr ∷ stack) st c =
      let (stack', st', c') = round fr stack st c in walk fuel stack' st' c'

  -- The walk from one root.
  unfoldable pub walk_root : ℕ → Access → Bool → Cache → Option (State × Cache)
  unfolding walk
  walk_root fuel root is_live_on_entry c =
      let st = initial (number root) is_live_on_entry in walk fuel (frame_from st root ∷ []) st c

-- The rounds that the walk takes for the children that are left, before `n` more.
abbrev pub rounds : Children → ℕ → ℕ
rounds last n = suc n
rounds (child (access d loads s kids) cs) n = suc (rounds kids (rounds cs n))

abbrev pub with_cache : Option (State × Cache) → (Cache → Option Cache) → Option Cache
with_cache none next = none
with_cache (some (st, c)) next = next c

module _ (f : List Instr) where
  -- The loop over the roots, each with whether it is the live-on-entry definition; every walk has
  -- the rounds that it needs.
  unfoldable pub walk_roots : List (Access × Bool) → Cache → Option Cache
  unfolding walk_root
  walk_roots [] c = some c
  walk_roots ((root, live) ∷ roots) c =
      with_cache (walk_root f (rounds (children_of root) 1) root live c) (walk_roots roots)
