-- ===== src/Passes/ConstantPropagation/Traversal/Known.antt =====
-- src/passes/constant_propagation_memory.cpp: what it means that a value is known, without the map
-- of bytes, the cache and the walk.
use vexa.Prelude.{
  ℕ, ◌+◌, ◌^◌, ◌<◌, ◌≤◌, ◌≡◌, ◌⊎◌, Bool, true, false, List, ◌∷◌, Option, none, some, get_elem?, leb,
  contains,
}
use vexa.Memory.{u64}
use vexa.Passes.ConstantPropagation.ByteSafety.{MemoryAddress, ConcreteMemoryAccess}
use vexa.Passes.ConstantPropagation.ByteSafety.Range.{in_range}
use vexa.Passes.ConstantPropagation.Values.{
  LlvmValue, constant, argument, instruction, Instr, load, operands,
}
use vexa.Passes.ConstantPropagation.Traversal.{
  Access, access, Children, last, child, Store, store_of, number, children_of,
}

abbrev pub IsChild : Access → Children → Type 0
IsChild a last = ⊥
IsChild a (child b cs) = (a ≡ b) ⊎ IsChild a cs

-- The fields of a store are of 64 bits.
abbrev pub IsBounded : Option Store → Type 0
IsBounded none = Unit
IsBounded (some s) = (s.access.address.offset < 2 ^ 64) × (s.access.size ≤ 2 ^ 64)

unfoldable mutual
  -- No memory access has the number of one above it, of which `seen` are the numbers.
  pub IsTree : List ℕ → Access → Type 0
  IsTree seen (access d loads s cs) =
      (contains d seen ≡ false) × IsBounded s × AreTrees (d ∷ seen) cs

  pub AreTrees : List ℕ → Children → Type 0
  AreTrees seen last = Unit
  AreTrees seen (child a cs) = IsTree seen a × AreTrees seen cs

module _ (f : List Instr) (roots : List (Access × Bool)) where
  -- The memory accesses of the trees.
  pub data Within : Access → Type 0 where
    root : (i : ℕ) (a : Access) (live : Bool) → get_elem? roots i ≡ some (a, live) → Within a
    below : (a b : Access) → Within a → IsChild b (children_of a) → Within b

  mutual
    -- A value that is computed from constants, arguments and loads of known bytes, outside loops and
    -- phis.
    pub data Known : LlvmValue → Type 0 where
      known_constant : Known constant
      known_argument : Known argument
      known_operands :
          (i n : ℕ) (vs : List LlvmValue)
          → get_elem? f i
            ≡ some
                (record { in_loop = false; is_phi = false; predecessors = n; kind = operands vs })
          → ((j : ℕ) (v : LlvmValue) → get_elem? vs j ≡ some v → Known v)
          → Known (instruction i)
      known_load :
          (i n : ℕ) (p : LlvmValue) (r : ConcreteMemoryAccess) (a : Access)
          → get_elem? f i
            ≡ some (record {
              in_loop = false;
              is_phi = false;
              predecessors = n;
              kind = load p (some r) (some (number a));
            })
          → Within a
          → Known p
          → ((j : ℕ)
              → j < r.size
              → KnownAt a (record { page = r.address.page; offset = u64 (r.address.offset + j) }))
          → Known (instruction i)

    -- A byte of which the memory access `a` leaves what is known: one of a live memory on entry, or
    -- of a store of a known value to a known pointer outside loops, that no store in between meets.
    -- No byte is known after a definition that is no store to a known address.
    pub data KnownAt : Access → MemoryAddress → Type 0 where
      on_entry :
          (i : ℕ) (a : Access) (x : MemoryAddress)
          → get_elem? roots i ≡ some (a, true)
          → KnownAt a x
      stored :
          (b : Access) (s : Store) (x : MemoryAddress)
          → Within b
          → store_of b ≡ some s
          → s.in_loop ≡ false
          → leb s.predecessors 1 ≡ true
          → Known s.pointer
          → Known s.value
          → in_range x s.access.address s.access.size 0 ≡ true
          → KnownAt b x
      kept :
          (a b : Access) (s : Store) (x : MemoryAddress)
          → KnownAt a x
          → IsChild b (children_of a)
          → store_of b ≡ some s
          → in_range x s.access.address s.access.size 0 ≡ false
          → KnownAt b x
