-- ===== src/Passes/StateToAlloca.antt =====
-- src/passes/state2alloca.cpp: local variables for the registers of the state. A pointer into the
-- state is its offset; a run of the function is the sequence of its loads and stores up to a `ret`.
pub mod Memory
pub mod Copies
pub mod Pointers
pub mod Bytes
pub mod Writes
pub mod Runs
use vexa.Prelude.{
  ℕ, zero, suc, ◌+◌, ◌-◌, ◌^◌, ◌%◌, Bool, true, false, ◌&&◌, List, [], ◌∷◌, Option, none, some,
  ◌==◌, leb, ltb, if◌then◌else◌, length,
}

-- `remill::Register`: its offset and size, in bytes, and for a part of a register its parent.
pub data Register : Type 0 where
  root : ℕ → ℕ → Register
  sub : ℕ → ℕ → Register → Register

abbrev pub offset_of : Register → ℕ
offset_of (root o n) = o
offset_of (sub o n p) = o

-- `while (found_r->parent)`
abbrev pub root_of : Register → Register
root_of (root o n) = root o n
root_of (sub o n p) = root_of p

-- The callback of `sub_to_parent`, from the parent that is found so far.
abbrev pub find_parent : ℕ → Option Register → List Register → Option Register
find_parent o parent [] = parent
find_parent o parent (r ∷ rs) =
    find_parent o (if o == offset_of r then some (root_of r) else parent) rs

unfoldable pub sub_to_parent : ℕ → List Register → Option Register
sub_to_parent o rs = find_parent (o % 2 ^ 32) none rs

-- An entry of `offset_to_alloca`, whose keys are of 32 bits, with the size of the local variable's
-- type.
pub record Alloca : Type 0 where
  pub key : ℕ
  pub size : ℕ

-- The entry for an offset, which is cut to the 32 bits of a key.
abbrev pub new_entry : ℕ → ℕ → Alloca
new_entry o n = record { key = o % 2 ^ 32; size = n }

-- `offset_to_alloca[key] = alloca`
abbrev pub insert : Alloca → List Alloca → List Alloca
insert a [] = a ∷ []
insert a (b ∷ bs) = if b.key == a.key then a ∷ bs else b ∷ insert a bs

-- `offset_to_alloca.find(offset)`, where the offset is cut to the 32 bits of a key.
abbrev pub find : ℕ → List Alloca → Option Alloca
find o [] = none
find o (a ∷ allocas) = if a.key == o % 2 ^ 32 then some a else find o allocas

abbrev pub create_alloca : Register → List Alloca → List Alloca
create_alloca (root o n) allocas = insert (new_entry o n) allocas
create_alloca (sub o n p) allocas = allocas

abbrev pub create_allocas : List Register → List Alloca → List Alloca
create_allocas [] allocas = allocas
create_allocas (r ∷ rs) allocas = create_allocas rs (create_alloca r allocas)

abbrev pub slot : Alloca
slot = record { key = 2080; size = 4 }

unfoldable pub offset_to_alloca : List Register → List Alloca
offset_to_alloca rs = create_allocas rs (slot ∷ [])

-- The pointer operand of an access: a GEP of the state with a constant offset, another pointer into
-- the state, or an address in the local variable of a key.
pub data Pointer : Type 0 where
  state_gep : ℕ → Pointer
  state : ℕ → Pointer
  alloca : ℕ → ℕ → Pointer

-- The 64-bit difference of two offsets.
abbrev pub minus64 : ℕ → ℕ → ℕ
minus64 a b = if leb b a then a - b else 2 ^ 64 + a - b

-- The pointer for a GEP whose offset is that of a part of `parent_r`, with the local variable of
-- `parent_r` where there is one.
abbrev pub into_alloca : ℕ → Register → Option Alloca → Pointer
into_alloca o parent_r none = state_gep o
into_alloca o parent_r (some a) = alloca a.key (minus64 o (offset_of parent_r))

abbrev pub into_parent : ℕ → List Alloca → Option Register → Pointer
into_parent o allocas none = state_gep o
into_parent o allocas (some r) = into_alloca o r (find (offset_of r) allocas)

-- The loop body for a GEP at a constant offset.
abbrev pub replace_gep : ℕ → List Alloca → List Register → Option Alloca → Pointer
replace_gep o allocas rs (some a) = alloca a.key 0
replace_gep o allocas rs none = into_parent o allocas (sub_to_parent o rs)

-- What the pass makes of a pointer.
unfoldable pub replace : List Register → Pointer → Pointer
unfolding sub_to_parent offset_to_alloca
replace rs (state_gep o) = replace_gep o (offset_to_alloca rs) rs (find o (offset_to_alloca rs))
replace rs (state o) = state o
replace rs (alloca k d) = alloca k d

-- The loads and stores of a run, each load with what follows its bytes.
pub data Code : Type 0 where
  ret : Code
  load : Pointer → ℕ → (List ℕ → Code) → Code
  store : Pointer → List ℕ → Code → Code

-- Replacing all uses of the GEPs.
unfoldable pub replace_pointers : List Register → Code → Code
unfolding replace
replace_pointers rs ret = ret
replace_pointers rs (load p n f) = load (replace rs p) n (λ l. replace_pointers rs (f l))
replace_pointers rs (store p l c) = store (replace rs p) l (replace_pointers rs c)
