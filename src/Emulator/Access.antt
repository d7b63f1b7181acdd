-- ===== src/Emulator/Access.antt =====
-- src/arch/emulator.cpp, `write_memory` and `read_memory`, with `get_page` and `calculate_pointer`
-- of src/arch/arch.cpp: an access through an address that the solver may resolve.
pub mod Merge
pub mod Reads
use vexa.Prelude.{
  ℕ, ◌-◌, ◌/◌, ◌^◌, Bool, true, false, ◌||◌, List, [], ◌∷◌, Result, ok, ◌>>=◌, ltb, leb,
  if◌then◌else◌,
}
use vexa.Terms.{Bitwuzla, Answer}
use vexa.Value.{
  Value, value, as_uint64, is_concrete, simplify, operate, plus, eq, ite, possible_values,
}
use vexa.Memory.Heap.{Memory, Pointer, read, write}

-- `stack_size`
abbrev pub stack_size : ℕ
stack_size = 32768

module _ ⦃B : Bitwuzla⦄ where
  open B use {Term, Env, size}

  -- `stack_ptr` and `mem_ptr`
  pub record Bases : Type 0 where
    pub stack_ptr : Pointer
    pub mem_ptr : Pointer

  -- As a signed number, the address lies within half a stack of zero.
  unfoldable pub get_page : Bases → Value → Result Pointer
  get_page b v = do
    addr ← as_uint64 v
    ok (
        if ltb addr (stack_size / 2) || leb (2 ^ 64 - stack_size / 2) addr
        then b.stack_ptr
        else b.mem_ptr)

  unfoldable pub calculate_pointer : Bases → Value → Result Pointer
  unfolding get_page
  calculate_pointer b addr = do page ← get_page b addr; ok (operate plus page.0 addr, page.1)

  unfoldable pub is_unsat : Answer Env → Bool
  is_unsat Answer.unsat = true
  is_unsat _ = false

  -- The loop of `write_memory`.
  unfoldable pub write_each : Bases → Value → Value → List Term → Memory → Result Memory
  unfolding calculate_pointer
  write_each b addr v [] m = ok m
  write_each b addr v (a ∷ addresses) m = do
    curr_ptr ← calculate_pointer b (value a)
    let (old_val, m') = read m curr_ptr (size v.term)
    let updated_val = ite (operate eq addr (value a)) v old_val
    write_each b addr v addresses (write m' curr_ptr updated_val)

  -- The solver's addresses, and whether there are no others.
  unfoldable pub write_memory : Bases → List Term → Pointer → Value → Memory → Result Memory
  unfolding write_each is_unsat
  write_memory b constraints (address, page) v m =
      let addr = simplify address in
      let (addresses, result) = possible_values addr constraints in
      if is_concrete addr then ok (write m (addr, page) v) else elim addresses [
        | [] ↦ ok (write m (addr, page) v)
        | ◌∷◌ a rest ↦ elim rest [
          | [] ↦ calculate_pointer b (value a) >>= λ ptr. ok (write m ptr v)
          | ◌∷◌ a' others ↦
              if is_unsat result
              then write_each b addr v (a ∷ a' ∷ others) m
              else ok (write m (addr, page) v)
        ]
      ]

  -- The loop of `read_memory`, with the value so far.
  unfoldable pub read_each :
      Bases → Value → ℕ → List Term → Value → Memory → Result (Value × Memory)
  unfolding calculate_pointer
  read_each b addr bits [] final_sym m = ok (final_sym, m)
  read_each b addr bits (a ∷ addresses) final_sym m = do
    curr_ptr ← calculate_pointer b (value a)
    let (curr_sym, m') = read m curr_ptr bits
    read_each b addr bits addresses (ite (operate eq addr (value a)) curr_sym final_sym) m'

  -- A read through a symbolic address, with its possible values.
  unfoldable pub read_among :
      Bases → Pointer → ℕ → Answer Env → List Term → Memory → Result (Value × Memory)
  unfolding read_each is_unsat
  read_among b (addr, page) bits result [] m = ok (read m (addr, page) bits)
  read_among b (addr, page) bits result (a ∷ []) m =
      calculate_pointer b (value a) >>= λ ptr. ok (read m ptr bits)
  read_among b (addr, page) bits result (a ∷ a' ∷ others) m =
      if is_unsat result
      then (do
        first_ptr ← calculate_pointer b (value a)
        let (first, m') = read m first_ptr bits
        read_each b addr bits (a' ∷ others) first m')
      else ok (read m (addr, page) bits)

  unfoldable pub read_memory : Bases → List Term → Pointer → ℕ → Memory → Result (Value × Memory)
  unfolding read_among
  read_memory b constraints (address, page) bits m =
      let addr = simplify address in
      let (addresses, result) = possible_values addr constraints in
      if is_concrete addr
      then ok (read m (addr, page) bits)
      else read_among b (addr, page) bits result addresses m
