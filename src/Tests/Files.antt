-- ===== src/Tests/Files.antt =====
-- src/arch/arch.cpp: a register file of two registers.
use vexa.Prelude.{
  ℕ, ◌+◌, ◌<◌, ◌≡◌, ◌≢◌, find, refl, true, false, [], ◌∷◌, some, ok, inr, arith, Dict,
}
use vexa.Terms.Trees.{value}
use vexa.Value.{Value}
use vexa.Value as V
use vexa.Memory.{new_page, write_page, u64}
use vexa.Memory.Digits.{digit}
use vexa.Memory.Write.{write_page_sound}
use vexa.Emulator.Access.Merge.{IsWfHeap}
use vexa.Memory.Cells.{new_page-IsWf, byte_at, IsWf}
use vexa.Memory.Heap.{Memory, store_page}
use vexa.Cpu.{Register}
use vexa.Cpu.Registers.{write_register}
use vexa.Cpu.Registers.Store.{Gives, write_register-read_register}
use vexa.Tests.{solver}

abbrev registers : Dict Register
registers =
    (3, record { offset = 2216; size = 8; has_parent = false })
    ∷ (4, record { offset = 2232; size = 8; has_parent = false })
    ∷ []

abbrev word : Value
word = V.value (value 64 77)

-- The register 3 stands at 77.
abbrev memory : Memory
memory =
    store_page (record { heap = new_page ∷ []; pages = 0 ∷ []; constants = 1 }) 0
      (write_page 2216 word new_page)

abbrev other_word : Value
other_word = V.value (value 64 5)

stands :
    ((j : ℕ)
      → j < 8
      → byte_at true (write_page 2216 word new_page) (u64 (2216 + j)) ≡ some (digit 77 j))
    × ((a : ℕ)
        → ((j : ℕ) → j < 8 → u64 (2216 + j) ≢ a)
        → byte_at true (write_page 2216 word new_page) a ≡ byte_at true new_page a)
    × IsWf (write_page 2216 word new_page)
stands = write_page_sound true 8 2216 word new_page (omega arith) refl new_page-IsWf

write_register-read_register_example :
    (m' : Memory) × (write_register 0 registers 4 other_word memory ≡ ok m')
    × Gives true 0 registers m' 4 5
    × Gives true 0 registers m' 3 77
    × IsWfHeap m'
unfolding find
write_register-read_register_example =
    write_register-read_register true 0 registers memory 4
      (record { offset = 2232; size = 8; has_parent = false }) other_word 3 77
      (record { offset = 2216; size = 8; has_parent = false }) refl refl
      (record { nonempty = omega arith; small = omega arith; low = omega arith })
      (record { nonempty = omega arith; small = omega arith; low = omega arith })
      (inr (omega arith)) refl (omega arith) (stands.2, tt) ((λ j h. stands.0 j h), omega arith)
