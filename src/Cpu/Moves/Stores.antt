-- ===== src/Cpu/Moves/Stores.antt =====
-- src/arch/arch.cpp, `handle_conditional_moves`: the paths on which a conditional move goes on.
use vexa.Prelude.{ℕ, ◌≡◌, ◌⊎◌, true, some, Result, ok, ◌>>=◌, ◌==◌, if◌then◌else◌, Any}
use vexa.Terms.{Bitwuzla}
use vexa.Value.{Value, concrete, simplify, is_concrete}
use vexa.Memory.Heap as Heap
use vexa.Memory.Heap.{Memory, Pointer, page_at, write}
use vexa.Emulator.Access.{Bases, write_memory}
use vexa.Cpu.{Snapshot, Cpu, take_snapshot}
use vexa.Cpu.Moves.{Stored}
use vexa.Cpu.Moves.Choices.{evaluate}

module _ ⦃B : Bitwuzla⦄ where
  open B use {Term, Env, eval, size}

  -- A memory with the pages of another and their storage.
  abbrev pub SamePages : Memory → Memory → Type 0
  SamePages m later =
      (later.pages ≡ m.pages)
      × ((j : ℕ) → Any (λ k. k ≡ j) m.pages → (page_at later j).memory ≡ (page_at m j).memory)

  -- The side of an environment.
  abbrev pub side_of : Env → Value → Value → Value → Value
  side_of ρ c true_val false_val = if eval ρ c.term == 0 then false_val else true_val

  module _ (b : Bases) (ptr : Value) (page : ℕ) where
    abbrev pub target : Pointer
    target = (simplify ptr, page)

    -- The state `s'`, or a path that it saves, goes on from `s` with `x` stored.
    abbrev pub GoesOn : Cpu → ℕ → Value → Cpu → Type 0
    GoesOn s next_pc x s' =
        ((m : Memory) × SamePages s.memory m
          × (s'.memory ≡ write m target x)
          × (s'.path_constraints ≡ s.path_constraints)
          × (s'.pc ≡ s.pc))
        ⊎ Any
            (λ (ss : Snapshot).
              (ss.pc ≡ next_pc)
              × (ss.mem_ss ≡ Heap.take_snapshot (write s.memory target x))
              × (ss.path_constraints ≡ s.path_constraints))
            s'.unexplored_paths

    module _ (has_page : ptr.page ≡ some page) (known : is_concrete (simplify ptr) ≡ true) where
      returned : Memory → Result (Value × Memory)
      returned m = ok (concrete 0 64, m)

      store_in : Cpu → Result Memory → Result Cpu
      store_in s r = (r >>= returned) >>= λ r. ok (record s { memory = r.1 })

      store_through : Cpu → Value → Result Pointer → Result Cpu
      store_through s v r =
          (r >>= λ p. write_memory b s.path_constraints p v s.memory >>= returned) >>= λ r.
          ok (record s { memory = r.1 })

  -- What a conditional move must do: for every environment, a path goes on with a value stored that
  -- there is the value of the move.
  abbrev pub KeepsMove : Bases → Value → ℕ → Stored → ℕ → Cpu → Cpu → Type 0
  KeepsMove b ptr page e next_pc s s' =
      (x : Value) × (evaluate e ≡ ok x)
      × ((ρ : Env)
          → (y : Value) × (eval ρ y.term ≡ eval ρ x.term)
            × (size y.term ≡ size x.term)
            × GoesOn b ptr page s next_pc y s')
