-- ===== src/Passes/MemoryScalarizer.antt =====
-- src/passes/memory_scalarizer.cpp: the loads and stores of single bytes that replace a wide load or
-- store. The instructions that the pass builds are terms; what LLVM says they compute is `eval` and
-- `exec`. A pointer is an address, and memory gives the byte at each.
pub mod Bytes
pub mod Join
use Prim.Native.Nat.{bit_or}
use vexa.Prelude.{
  ℕ, zero, suc, ◌+◌, ◌*◌, ◌/◌, ◌%◌, ◌^◌, ◌-◌, Bool, true, false, List, [], ◌∷◌, ◌++◌, ◌==◌, ltb,
  if◌then◌else◌,
}
use vexa.Memory.{u64}

-- A value: the stored one, a byte loaded at an 8-bit index from the pointer, or an instruction.
pub data Term : Type 0 where
  stored_value : Term
  load_byte : ℕ → Term
  trunc8 : Term → Term
  lshr shl : Term → ℕ → Term
  zext : Term → Term
  or : Term → Term → Term

-- A store of a byte at an 8-bit index from the pointer.
pub record ByteStore : Type 0 where
  pub byte : Term
  pub index : ℕ

abbrev pub u8 : ℕ → ℕ
u8 n = n % 2 ^ 8

-- The body of the loop over the bytes of a store.
abbrev pub store_byte : ℕ → ByteStore
store_byte zero = record { byte = trunc8 stored_value; index = 0 }
store_byte (suc i) = record { byte = trunc8 (lshr stored_value (suc i * 8)); index = suc i }

unfoldable pub store_bytes : ℕ → ℕ → List ByteStore
store_bytes zero i = []
store_bytes (suc left) i = store_byte i ∷ store_bytes left (suc i)

-- The stores for a value of `size` bytes: `size_in_bytes` is a `uint8_t`.
unfoldable pub scalarize_store : ℕ → List ByteStore
unfolding store_bytes
scalarize_store size = store_bytes (u8 size) 0

-- The value after the first `n` rounds of the loop over the bytes of a load; null is the byte 0.
unfoldable pub load_bytes : ℕ → Term
load_bytes zero = load_byte 0
load_bytes (suc zero) = zext (load_byte 0)
load_bytes (suc (suc i)) = or (load_bytes (suc i)) (shl (zext (load_byte (suc i))) (suc i * 8))

unfoldable pub scalarize_load : ℕ → Term
unfolding load_bytes
scalarize_load size = load_bytes (u8 size)

abbrev pub Bytes : Type 0
Bytes = ℕ → ℕ

-- The address of an index, which the GEP extends by its sign.
abbrev pub gep : ℕ → ℕ → ℕ
gep pointer i = u64 (pointer + (if ltb i 128 then i else 2 ^ 64 + i - 256))

-- The value of a term of an instruction of `width` bits.
abbrev pub eval : ℕ → Bytes → ℕ → ℕ → Term → ℕ
eval width mem pointer v stored_value = v
eval width mem pointer v (load_byte i) = mem (gep pointer i)
eval width mem pointer v (trunc8 t) = eval width mem pointer v t % 2 ^ 8
eval width mem pointer v (lshr t n) = eval width mem pointer v t / 2 ^ n
eval width mem pointer v (shl t n) = eval width mem pointer v t * 2 ^ n % 2 ^ width
eval width mem pointer v (zext t) = eval width mem pointer v t
eval width mem pointer v (or s t) = bit_or (eval width mem pointer v s) (eval width mem pointer v t)

abbrev pub write : Bytes → ℕ → ℕ → Bytes
write mem a b = λ x. if x == a then b else mem x

-- The memory after the stores.
unfoldable pub exec : ℕ → ℕ → ℕ → List ByteStore → Bytes → Bytes
exec width pointer v [] mem = mem
exec width pointer v (s ∷ ss) mem =
    exec width pointer v ss (write mem (gep pointer s.index) (eval width mem pointer v s.byte))
