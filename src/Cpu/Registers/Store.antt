-- ===== src/Cpu/Registers/Store.antt =====
-- src/arch/arch.cpp: `read_register` after `write_register`.
use vexa.Prelude.{
  ℕ, suc, ◌+◌, ◌-◌, ◌*◌, ◌^◌, ◌<◌, ◌≤◌, ◌≡◌, ◌≢◌, ◌⊎◌, inl, inr, refl, sym, ◌∙◌, ap, some, ok,
  arith, length, Dict, find,
}
use vexa.Terms.{Bitwuzla}
use vexa.Value.{Value}
use vexa.Memory.{u64}
use vexa.Memory.Heap.{Memory, page_at, read, write}
use vexa.Emulator.Access.Merge.{IsWfHeap}
use vexa.Cpu.{Register}
use vexa.Cpu.Registers.{get_register, register_ptr, read_register, write_register}
use vexa.Cpu.Registers.Bytes.{HasBytes, read-HasBytes, write-HasBytes}

-- A register of 1 to 255 bytes below the end of the address space.
pub record IsRegister (r : Register) : Type 0 where
  pub nonempty : 0 < r.size
  pub small : r.size < 256
  pub low : r.offset + r.size ≤ 2 ^ 64

abbrev pub Apart : Register → Register → Type 0
Apart r r' = (r.offset + r.size ≤ r'.offset) ⊎ (r'.offset + r'.size ≤ r.offset)

Apart-u64 :
    (r r' : Register) (j k : ℕ)
    → IsRegister r
    → IsRegister r'
    → Apart r r'
    → j < r.size
    → k < r'.size
    → u64 (r.offset + j) ≢ u64 (r'.offset + k)
Apart-u64 r r' j k h h' (inl before) lj lk = λ e. omega (arith, h.low, h'.low, before, lj, lk, e)
Apart-u64 r r' j k h h' (inr after) lj lk = λ e. omega (arith, h.low, h'.low, after, lj, lk, e)

module _ ⦃B : Bitwuzla⦄ where
  open B use {Env, eval, size, eval_lt}

  -- A register reads as a number in the runs of an assignment.
  abbrev pub Reads : Env → ℕ → Memory → Register → ℕ → Type 0
  Reads ρ state_page m r x =
      HasBytes ρ (page_at m state_page) r.offset r.size x × (x < 2 ^ (8 * r.size))

  -- `read_register` gives a value that is the number in the runs of an assignment.
  abbrev pub Gives : Env → ℕ → Dict Register → Memory → ℕ → ℕ → Type 0
  Gives ρ state_page registers m k x =
      (v : Value) × (m' : Memory) × (read_register state_page registers k m ≡ ok (v, m'))
      × (eval ρ v.term ≡ x)

  read-Reads :
      (ρ : Env) (state_page : ℕ) (m : Memory) (r : Register) (x : ℕ)
      → IsRegister r
      → IsWfHeap m
      → Reads ρ state_page m r x
      → eval ρ (read m (register_ptr state_page r) (r.size * 8)).0.term ≡ x
  read-Reads ρ state_page m r x is wf (h, bound) =
      let n = r.size - 1 in
      let whole : suc n ≡ r.size = omega (arith, is.nonempty) in
      let bits : 8 * suc n ≡ r.size * 8 = omega (arith, is.nonempty) in
      ap (λ b. eval ρ (read m (register_ptr state_page r) b).0.term) (sym bits)
      ∙ read-HasBytes ρ m state_page n r.offset x (omega (arith, is.low, is.nonempty)) wf
          (λ j l. h j (omega (arith, l, whole))) (rw whole bound)

  read_register-Gives :
      (ρ : Env) (state_page : ℕ) (registers : Dict Register) (m : Memory) (k x : ℕ) (r : Register)
      → find registers k ≡ some r
      → IsRegister r
      → IsWfHeap m
      → Reads ρ state_page m r x
      → Gives ρ state_page registers m k x
  unfolding read_register get_register
  read_register-Gives ρ state_page registers m k x r found is wf h =
      rw found ((_, _, refl, read-Reads ρ state_page m r x is wf h))

  write_register-Gives :
      (ρ : Env) (state_page : ℕ) (registers : Dict Register) (m : Memory) (k : ℕ) (r : Register)
      (v : Value)
      → find registers k ≡ some r
      → IsRegister r
      → size v.term ≡ 8 * r.size
      → state_page < length m.heap
      → IsWfHeap m
      → (m' : Memory) × (write_register state_page registers k v m ≡ ok m')
        × Gives ρ state_page registers m' k (eval ρ v.term)
        × ((k' x : ℕ) (r' : Register)
            → find registers k' ≡ some r'
            → IsRegister r'
            → Apart r r'
            → Reads ρ state_page m r' x
            → Gives ρ state_page registers m' k' x)
        × IsWfHeap m'
  unfolding write_register get_register
  write_register-Gives ρ state_page registers m k r v found is width there wf =
      let n = r.size - 1 in
      let whole : suc n ≡ r.size = omega (arith, is.nonempty) in
      let m' = write m (register_ptr state_page r) v in
      let (puts, keeps, wf') =
        write-HasBytes ρ m state_page n r.offset v (omega (arith, is.low, is.nonempty)) there wf
          (omega (arith, is.small, whole)) (omega (arith, width, whole)) in
      let reads : Reads ρ state_page m' r (eval ρ v.term) =
        ((λ j l. puts j (omega (arith, l, whole))), rw (← width) (eval_lt ρ v.term)) in
      let others : (r' : Register) (x : ℕ)
          → IsRegister r'
          → Apart r r'
          → Reads ρ state_page m r' x
          → Reads ρ state_page m' r' x =
        λ r' x is' apart old. (
          (λ j l.
              keeps r'.offset r'.size x
                (λ a b la lb. Apart-u64 r r' a b is is' apart (omega (arith, la, whole)) lb) old.0 j
                l),
          old.1,
        ) in
      rw found (
        (
          m',
          refl,
          read_register-Gives ρ state_page registers m' k (eval ρ v.term) r found is wf' reads,
          λ k' x r' found' is' apart old.
              read_register-Gives ρ state_page registers m' k' x r' found' is' wf'
                (others r' x is' apart old),
          wf',
        ))

  -- Writing a value of a register's size succeeds and keeps the pages well formed. Then, for the
  -- assignment, reading that register gives the value, and reading one that has no byte in common
  -- with it gives the number at which it stood before.
  pub write_register-read_register :
      (ρ : Env) (state_page : ℕ) (registers : Dict Register) (m : Memory) (k : ℕ) (r : Register)
      (v : Value) (k' x : ℕ) (r' : Register)
      → find registers k ≡ some r
      → find registers k' ≡ some r'
      → IsRegister r
      → IsRegister r'
      → Apart r r'
      → size v.term ≡ 8 * r.size
      → state_page < length m.heap
      → IsWfHeap m
      → Reads ρ state_page m r' x
      → (m' : Memory) × (write_register state_page registers k v m ≡ ok m')
        × Gives ρ state_page registers m' k (eval ρ v.term)
        × Gives ρ state_page registers m' k' x
        × IsWfHeap m'
  write_register-read_register ρ state_page registers m k r v k' x r' found found' is is' apart
        width there wf old =
      let (m', e, gives, others, wf') =
        write_register-Gives ρ state_page registers m k r v found is width there wf in
      (m', e, gives, others k' x r' found' is' apart old, wf')
