-- ===== src/Passes/StateToAlloca/Memory.antt =====
-- src/passes/state2alloca.cpp: the bytes of the state and of the local variables, and the copies
-- between them.
use vexa.Prelude.{
  ℕ, zero, suc, ◌+◌, ◌-◌, Bool, ◌&&◌, List, [], ◌∷◌, ◌==◌, leb, ltb, if◌then◌else◌, length,
}
use vexa.Passes.StateToAlloca.{
  Register, root, sub, Alloca, new_entry, slot, offset_to_alloca, Pointer, state_gep, state, alloca,
  Code, ret, load, store, replace_pointers,
}

-- The bytes of the state and those of the local variable of each key.
pub record Memory : Type 0 where
  pub state_bytes : ℕ → ℕ
  pub local_bytes : ℕ → ℕ → ℕ

-- Whether an address is one of `n` from `first` on.
abbrev pub is_in : ℕ → ℕ → ℕ → Bool
is_in first n x = leb first x && ltb x (first + n)

-- `bytes` with `n` of them from `first` on taken from `source`.
abbrev pub put : ℕ → ℕ → (ℕ → ℕ) → (ℕ → ℕ) → ℕ → ℕ
put first n source bytes x = if is_in first n x then source (x - first) else bytes x

abbrev pub put_local : ℕ → (ℕ → ℕ) → (ℕ → ℕ → ℕ) → ℕ → ℕ → ℕ
put_local key bytes locals k = if k == key then bytes else locals k

-- Stores the bytes of the state from `o` on in a local variable.
unfoldable pub copy_in : ℕ → Alloca → Memory → Memory
copy_in o a m = record m {
  local_bytes =
      put_local a.key (put 0 a.size (λ i. m.state_bytes (o + i)) (m.local_bytes a.key))
        m.local_bytes;
}

-- Stores the bytes of a local variable in the state.
unfoldable pub copy_out : Alloca → Memory → Memory
copy_out a m = record m { state_bytes = put a.key a.size (m.local_bytes a.key) m.state_bytes }

abbrev pub init_alloca : Register → Memory → Memory
init_alloca (root o n) m = copy_in o (new_entry o n) m
init_alloca (sub o n p) m = m

unfoldable pub init_allocas : List Register → Memory → Memory
unfolding copy_in
init_allocas [] m = m
init_allocas (r ∷ rs) m = init_allocas rs (init_alloca r m)

-- The copies before a `ret`.
unfoldable pub copy_all_out : List Alloca → Memory → Memory
unfolding copy_out
copy_all_out [] m = m
copy_all_out (a ∷ l) m = copy_all_out l (copy_out a m)

-- The `n` bytes from `first` on.
abbrev pub bytes_from : (ℕ → ℕ) → ℕ → ℕ → List ℕ
bytes_from bytes first zero = []
bytes_from bytes first (suc n) = bytes first ∷ bytes_from bytes (suc first) n

abbrev pub byte_at : List ℕ → ℕ → ℕ
byte_at [] i = 0
byte_at (x ∷ l) zero = x
byte_at (x ∷ l) (suc i) = byte_at l i

abbrev pub read : Memory → Pointer → ℕ → List ℕ
read m (state_gep o) n = bytes_from m.state_bytes o n
read m (state o) n = bytes_from m.state_bytes o n
read m (alloca k d) n = bytes_from (m.local_bytes k) d n

abbrev pub write : Pointer → List ℕ → Memory → Memory
write (state_gep o) l m = record m { state_bytes = put o (length l) (byte_at l) m.state_bytes }
write (state o) l m = record m { state_bytes = put o (length l) (byte_at l) m.state_bytes }
write (alloca k d) l m = record m {
  local_bytes = put_local k (put d (length l) (byte_at l) (m.local_bytes k)) m.local_bytes;
}

unfoldable pub run : Code → Memory → Memory
run ret m = m
run (load p n f) m = run (f (read m p n)) m
run (store p l c) m = run c (write p l m)

-- The function that the pass leaves: the copies of the new entry block, the old code with its
-- pointers replaced, and before the `ret` the copies of the map's entries, in the order in which
-- the map gives them.
unfoldable pub run_with_allocas :
    (List Alloca → List Alloca) → List Register → Code → Memory → Memory
unfolding init_allocas run copy_all_out offset_to_alloca replace_pointers
run_with_allocas entries rs c m =
    copy_all_out (entries (offset_to_alloca rs))
      (run (replace_pointers rs c) (init_allocas rs (copy_in slot.key slot m)))
