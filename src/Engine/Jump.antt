-- ===== src/Engine/Jump.antt =====
-- src/engine/engine.cpp, `patch`: the jump at the patched address.
use vexa.Prelude.{
  ℕ, ◌+◌, ◌-◌, ◌*◌, ◌/◌, ◌^◌, ◌<◌, ◌≤◌, ◌≡◌, ◌⊎◌, inl, inr, refl, ap, ◌∙◌, true, false, List, [],
  ◌∷◌, Option, none, some, arith, ltb, ◌==◌, if◌then◌else◌,
}
use vexa.Memory.{u8, u64}
use vexa.Engine.Object.{jmp_bytes, sub64, u32}

-- The processor's sum.
abbrev pub land : ℕ → ℕ → ℕ
land pc rel =
    if ltb rel (2 ^ 31) then u64 (pc + 5 + rel) else u64 (pc + 5 + (2 ^ 64 - 2 ^ 32) + rel)

-- What the processor does with `E9 rel32` at `pc`: the next instruction's address and the signed
-- displacement.
pub run_jmp : ℕ → List ℕ → Option ℕ
run_jmp pc (op ∷ b0 ∷ b1 ∷ b2 ∷ b3 ∷ []) =
    let rel = b0 + b1 * 2 ^ 8 + b2 * 2 ^ 16 + b3 * 2 ^ 24 in
    if op == 233 then some (land pc rel) else none
run_jmp pc _ = none

join_bytes_lem :
    (r : ℕ)
    → r < 2 ^ 32
    → u8 r + u8 (r / 2 ^ 8) * 2 ^ 8 + u8 (r / 2 ^ 16) * 2 ^ 16 + u8 (r / 2 ^ 24) * 2 ^ 24 ≡ r
join_bytes_lem r h = omega arith

land_near :
    (target va d : ℕ)
    → target < 2 ^ 64
    → d ≡ sub64 target (va + 5)
    → (d < 2 ^ 31) ⊎ (2 ^ 64 - 2 ^ 31 ≤ d)
    → land va (u32 d) ≡ target
land_near target va d small e (inl h) =
    let low : ltb (u32 d) (2 ^ 31) ≡ true = ground arith in rw low (omega arith)
land_near target va d small e (inr h) =
    let high : ltb (u32 d) (2 ^ 31) ≡ false = ground arith in rw high (omega arith)

-- The jump that `patch` writes at `va` goes to the new code, if that lies less than 2 ^ 31 bytes
-- after the end of the jump, or at most 2 ^ 31 bytes before it, in 64-bit arithmetic.
pub jmp_bytes_sound :
    (target va : ℕ)
    → target < 2 ^ 64
    → (sub64 target (va + 5) < 2 ^ 31) ⊎ (2 ^ 64 - 2 ^ 31 ≤ sub64 target (va + 5))
    → run_jmp va (jmp_bytes target va) ≡ some target
unfolding run_jmp jmp_bytes
jmp_bytes_sound target va small near =
    let d = sub64 target (va + 5) in
    ap (λ r. some (land va r)) (join_bytes_lem (u32 d) (omega arith))
    ∙ ap some (land_near target va d small refl near)
