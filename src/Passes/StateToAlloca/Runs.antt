-- ===== src/Passes/StateToAlloca/Runs.antt =====
-- src/passes/state2alloca.cpp: runs with local variables, beside runs without them.
use vexa.Prelude.{
  ℕ, ◌≡◌, ◌⊎◌, ◌↔◌, inl, inr, sym, ap, refl, true, false, List, [], ◌∷◌, arith, Bool-cases, All,
  AllPairs, length,
}
use mathlib.Core.Path.{subst}
use vexa.Passes.StateToAlloca.{
  Register, Alloca, slot, offset_to_alloca, state_gep, state, alloca, replace, Code, ret, load,
  store, replace_pointers,
}
use vexa.Passes.StateToAlloca.Memory.{
  Memory, is_in, copy_in, init_allocas, bytes_from, write, run, run_with_allocas,
}
use vexa.Passes.StateToAlloca.Copies.{IsNarrow, is_copied, copy_all_out-state, copies_in}
use vexa.Passes.StateToAlloca.Pointers.{StartsIn, Apart, AllFit, Denotes-replace}
use vexa.Passes.StateToAlloca.Bytes.{Sim, read-Sim}
use vexa.Passes.StateToAlloca.Writes.{write-Sim}

copied-All :
    (x : ℕ) (l : List Alloca) → is_copied l x ≡ false → All (λ a. is_in a.key a.size x ≡ false) l
copied-All x [] h = tt
copied-All x (a ∷ l) h = (ground (arith, h), copied-All x l (ground (arith, h)))

All-copied :
    (x : ℕ) (l : List Alloca) → All (λ a. is_in a.key a.size x ≡ false) l → is_copied l x ≡ false
All-copied x [] h = refl
All-copied x (a ∷ l) h = rw h.0 (All-copied x l h.1)

module _ (rs : List Register) (narrow : All IsNarrow rs) (parts : All StartsIn rs)
    (apart : AllPairs Apart (offset_to_alloca rs)) where
  abbrev l : List Alloca
  l = offset_to_alloca rs

  -- The two runs keep the relation.
  run-Sim :
      (c : Code) (s m : Memory)
      → AllFit rs c
      → Sim l s.state_bytes m
      → Sim l (run c s).state_bytes (run (replace_pointers rs c) m)
  unfolding run replace_pointers
  run-Sim ret s m fit sim = sim
  run-Sim (load (state_gep o) n f) s m fit sim =
      let got = bytes_from s.state_bytes o n in
      let same =
        read-Sim l s.state_bytes m o n (replace rs (state_gep o)) sim
          (Denotes-replace o n rs parts fit.0) fit.0 in
      subst (λ v. Sim l (run (f got) s).state_bytes (run (replace_pointers rs (f v)) m)) (sym same)
        (run-Sim (f got) s m (fit.1 got) sim)
  run-Sim (load (state o) n f) s m fit sim =
      let got = bytes_from s.state_bytes o n in
      let same = read-Sim l s.state_bytes m o n (state o) sim refl fit.0 in
      subst (λ v. Sim l (run (f got) s).state_bytes (run (replace_pointers rs (f v)) m)) (sym same)
        (run-Sim (f got) s m (fit.1 got) sim)
  run-Sim (load (alloca k d) n f) s m fit sim = absurd fit.0
  run-Sim (store (state_gep o) bytes c) s m fit sim =
      run-Sim c (write (state_gep o) bytes s) (write (replace rs (state_gep o)) bytes m) fit.1 (
        write-Sim l s.state_bytes m o (replace rs (state_gep o)) bytes apart
          (Denotes-replace o (length bytes) rs parts fit.0) fit.0 sim)
  run-Sim (store (state o) bytes c) s m fit sim =
      run-Sim c (write (state o) bytes s) (write (state o) bytes m) fit.1
        (write-Sim l s.state_bytes m o (state o) bytes apart refl fit.0 sim)
  run-Sim (store (alloca k d) bytes c) s m fit sim = absurd fit.0

  copied_or_right :
      (entries : List Alloca → List Alloca)
      → ((P : Alloca → Type 0) (l : List Alloca) → All P (entries l) ↔ All P l)
      → (x u v : ℕ) → (is_copied l x ≡ false → u ≡ v)
      → (is_copied (entries l) x ≡ true) ⊎ (u ≡ v)
  copied_or_right entries visits x u v h = elim (Bool-cases (is_copied (entries l) x)) [
    | inl here ↦ inl here
    | inr away ↦ inr (
        h (
          All-copied x l
            ((visits (λ a. is_in a.key a.size x ≡ false) l).0 (copied-All x (entries l) away))))
  ]

  -- Where the map gives its entries in any order, the registers' offsets fit its keys of 32 bits, each
  -- register begins no later than its parts, the local variables stand for different bytes and each
  -- access stays, at an offset of 32 bits, in the one that its pointer is replaced with or meets none,
  -- the function with local variables leaves the state as the old one.
  pub run_with_allocas_sound :
      (entries : List Alloca → List Alloca)
      → ((P : Alloca → Type 0) (l : List Alloca) → All P (entries l) ↔ All P l)
      → (c : Code) (m : Memory) → AllFit rs c
      → (x : ℕ) → (run_with_allocas entries rs c m).state_bytes x ≡ (run c m).state_bytes x
  unfolding run_with_allocas
  run_with_allocas_sound entries visits c m fit x =
      let (holds, same) = copies_in rs m narrow in
      let start : Sim l m.state_bytes (init_allocas rs (copy_in slot.key slot m)) = record {
        holds = holds;
        outside = λ x away. ap (λ f. f x) same;
      } in
      let sim = run-Sim c m (init_allocas rs (copy_in slot.key slot m)) fit start in
      copy_all_out-state (run c m).state_bytes (entries l) _ x ((visits _ l).1 sim.holds)
        (copied_or_right entries visits x _ _ (sim.outside x))
