-- ===== src/Passes/ConstantPropagation/ByteSafety.antt =====
-- src/passes/constant_propagation_memory.cpp: the byte-safety map and its undo log, the functions
-- `range_is_safe`, `set_byte_safety` and `rollback`. A page and a memory access are numbers; a
-- null access is 0.
pub mod Restore
pub mod Range
use vexa.Prelude.{
  ℕ, zero, suc, ◌+◌, ◌%◌, ◌^◌, Bool, true, false, ◌&&◌, List, [], ◌∷◌, Option, none, some, ◌==◌,
  ltb, if◌then◌else◌, length,
}
use vexa.Memory.{u64}

pub record MemoryAddress : Type 0 where
  pub page : ℕ
  pub offset : ℕ

abbrev pub same_address : MemoryAddress → MemoryAddress → Bool
same_address a b = (a.page == b.page) && (a.offset == b.offset)

pub record ConcreteMemoryAccess : Type 0 where
  pub address : MemoryAddress
  pub size : ℕ

pub record ByteState : Type 0 where
  pub generation : ℕ
  pub safe : Bool

pub record UndoRecord : Type 0 where
  pub address : MemoryAddress
  pub existed : Bool
  pub old_state : ByteState

-- The map: what `find` gives for each address.
abbrev pub ByteMap : Type 0
ByteMap = MemoryAddress → Option ByteState

abbrev pub insert_or_assign : MemoryAddress → ByteState → ByteMap → ByteMap
insert_or_assign a s m = λ x. if same_address x a then some s else m x

abbrev pub erase : MemoryAddress → ByteMap → ByteMap
erase a m = λ x. if same_address x a then none else m x

-- The variables of the traversal that the functions capture; the log has its last record first.
pub record State : Type 0 where
  pub byte_safety : ByteMap
  pub undo_log : List UndoRecord
  pub active_generation : ℕ
  pub default_byte_safety : Bool

abbrev pub bool_eq : Bool → Bool → Bool
bool_eq true b = b
bool_eq false true = false
bool_eq false false = true

-- `byte != byte_safety.end() && byte->second.generation == active_generation`
abbrev pub has_current_state : State → Option ByteState → Bool
has_current_state st none = false
has_current_state st (some b) = b.generation == st.active_generation

abbrev pub state_or_null : Option ByteState → ByteState
state_or_null none = record { generation = 0; safe = false }
state_or_null (some b) = b

abbrev pub exists : Option ByteState → Bool
exists none = false
exists (some b) = true

-- Whether the byte at an address is safe.
unfoldable pub is_safe_byte : State → MemoryAddress → Bool
is_safe_byte st a =
    let byte = st.byte_safety a in
    if has_current_state st byte then (state_or_null byte).safe else st.default_byte_safety

-- The loop of `range_is_safe`, `left` bytes of it from `offset` on.
unfoldable pub range_is_safe : State → MemoryAddress → ℕ → ℕ → Bool
unfolding is_safe_byte
range_is_safe st base zero offset = true
range_is_safe st base (suc left) offset =
    let rest = range_is_safe st base left (offset + 1) in
    if is_safe_byte st (record { page = base.page; offset = u64 (base.offset + offset) })
    then rest
    else false

-- What the log keeps of a byte.
abbrev pub undo_of : State → MemoryAddress → UndoRecord
undo_of st a = record {
  address = a;
  existed = exists (st.byte_safety a);
  old_state = state_or_null (st.byte_safety a);
}

abbrev pub byte_state : State → Bool → ByteState
byte_state st safe = record { generation = st.active_generation; safe = safe }

unfoldable pub set_byte_safety : State → MemoryAddress → Bool → State
unfolding is_safe_byte
set_byte_safety st a safe =
    let byte_safety' : ByteMap =
      if bool_eq safe st.default_byte_safety
      then erase a st.byte_safety
      else insert_or_assign a (byte_state st safe) st.byte_safety in
    if bool_eq (is_safe_byte st a) safe
    then st
    else record st { byte_safety = byte_safety'; undo_log = undo_of st a ∷ st.undo_log }

-- The loop over the bytes of a store, which stops where the address wraps around.
unfoldable pub set_range_safety : State → MemoryAddress → Bool → ℕ → ℕ → State
unfolding set_byte_safety
set_range_safety st base safe zero offset = st
set_range_safety st base safe (suc left) offset =
    let byte_offset = u64 (base.offset + offset) in
    let rest =
      set_range_safety (set_byte_safety st (record { page = base.page; offset = byte_offset }) safe)
        base safe left (offset + 1) in
    if ltb byte_offset base.offset then st else rest

abbrev pub undo_write : UndoRecord → ByteMap → ByteMap
undo_write u m = if u.existed then insert_or_assign u.address u.old_state m else erase u.address m

-- The map and the log after the loop of `rollback`.
unfoldable pub roll : ℕ → List UndoRecord → ByteMap → List UndoRecord × ByteMap
roll checkpoint [] m = ([], m)
roll checkpoint (u ∷ us) m =
    let rest = roll checkpoint us (undo_write u m) in
    if ltb checkpoint (length (u ∷ us)) then rest else (u ∷ us, m)

unfoldable pub rollback : ℕ → State → State
unfolding roll
rollback checkpoint st =
    let (undo_log', m) = roll checkpoint st.undo_log st.byte_safety in
    record st { byte_safety = m; undo_log = undo_log' }
