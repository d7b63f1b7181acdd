-- ===== src/Cpu/Registers.antt =====
-- src/arch/arch.cpp: the registers of the CPU, which stand in the page of remill's state.
pub mod Bytes
pub mod Store
use vexa.Prelude.{
  ℕ, suc, ◌+◌, ◌*◌, Bool, true, false, List, [], ◌∷◌, Option, none, some, Result, ok, throw, ◌>>=◌,
  if◌then◌else◌, Dict, find,
}
use vexa.Terms.{Bitwuzla}
use vexa.Value.{Value, concrete, symbolic}
use vexa.Memory.Heap.{Memory, Pointer, read, write}
use vexa.Cpu.{Register}

-- `registers[r]`; a register that is missing is a null pointer, or fails the assertion.
abbrev pub or_null {ℓ} : {A : Type ℓ} → Option A → Result A
or_null none = throw
or_null (some r) = ok r

unfoldable pub get_register : Dict Register → ℕ → Result Register
get_register registers r = or_null (find registers r)

module _ ⦃B : Bitwuzla⦄ where
  abbrev pub register_ptr : ℕ → Register → Pointer
  register_ptr state_page r = (concrete r.offset 64, state_page)

  -- A register that is no part of another starts as a new symbol.
  unfoldable pub init_register : ℕ → Register → Memory → Memory
  init_register state_page r m =
      if r.has_parent
      then m
      else write (record m { constants = suc m.constants }) (register_ptr state_page r)
          (symbolic m.constants (r.size * 8))

  unfoldable pub init_registers : ℕ → List Register → Memory → Memory
  unfolding init_register
  init_registers state_page [] m = m
  init_registers state_page (r ∷ rs) m = init_registers state_page rs (init_register state_page r m)

  unfoldable pub read_register : ℕ → Dict Register → ℕ → Memory → Result (Value × Memory)
  unfolding get_register
  read_register state_page registers r m = do
    reg ← get_register registers r
    ok (read m (register_ptr state_page reg) (reg.size * 8))

  unfoldable pub write_register : ℕ → Dict Register → ℕ → Value → Memory → Result Memory
  unfolding get_register
  write_register state_page registers r v m = do
    reg ← get_register registers r
    ok (write m (register_ptr state_page reg) v)
