-- ===== src/Tests/Registers.antt =====
-- src/passes/state2alloca.cpp on three registers, a root with two parts.
use vexa.Prelude.{◌+◌, ◌^◌, ◌≡◌, refl, List, [], ◌∷◌, arith, inl}
use vexa.Passes.StateToAlloca.{
  Register, root, sub, state_gep, alloca, Code, ret, load, store, replace, offset_to_alloca,
}
use vexa.Passes.StateToAlloca.Memory.{Memory, run, run_with_allocas}
use vexa.Passes.StateToAlloca.Runs.{run_with_allocas_sound}

abbrev rax : Register
rax = root 2216 8

abbrev registers : List Register
registers = rax ∷ sub 2216 4 rax ∷ sub 2217 1 rax ∷ []

-- The second byte of a register is set, and its first two go to memory that is no register.
abbrev sets_high_byte : Code
sets_high_byte =
    store (state_gep 2217) (7 ∷ [])
      (load (state_gep 2216) 2 (λ l. store (state_gep 3000) (9 ∷ []) ret))

abbrev zeros : Memory
zeros = record { state_bytes = λ x. 0; local_bytes = λ k i. 1 }

replaces_part : replace registers (state_gep 2217) ≡ alloca 2216 1
unfolding replace
replaces_part = refl

-- The third byte of the register is no register: its pointer stays.
keeps_third_byte : replace registers (state_gep 2218) ≡ state_gep 2218
unfolding replace
keeps_third_byte = refl

-- An offset above the keys' 32 bits is taken for the one with the same low bits.
cuts_offset : replace registers (state_gep (2 ^ 32 + 2080)) ≡ alloca 2080 0
unfolding replace offset_to_alloca
cuts_offset = refl

run_with_allocas_sound_example :
    (run_with_allocas (λ l. l) registers sets_high_byte zeros).state_bytes 2217
    ≡ (run sets_high_byte zeros).state_bytes 2217
unfolding replace offset_to_alloca
run_with_allocas_sound_example =
    run_with_allocas_sound registers (omega arith, (omega arith, (omega arith, tt)))
      (omega arith, (omega arith, (omega arith, tt))) ((inl (omega arith), tt), (tt, tt)) (λ l. l)
      (λ P l. (λ h. h, λ h. h)) sets_high_byte zeros
      (
        (omega arith, omega arith),
        ((omega arith, omega arith), (λ l. ((λ x low high. ground (arith, low, high)), tt))),
      )
      2217
