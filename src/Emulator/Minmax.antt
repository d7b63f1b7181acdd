-- ===== src/Emulator/Minmax.antt =====
-- src/arch/emulator.cpp, `handle_llvm_intrinsics`: umax, usub.sat and abs.
use native.Mathlib.Nat.{mod-eq_of_lt, add-mod_right}
use Prim.Native.Nat.{max}
use vexa.Prelude.{
  ℕ, ◌+◌, ◌-◌, ◌%◌, ◌^◌, ◌<◌, ◌≤◌, ◌≡◌, ◌∙◌, true, ok, if◌then◌else◌, arith, pow-pos,
}
use vexa.Terms.{Bitwuzla}
use vexa.Terms.Denote.{flag, is_negative, bv_ult, bv_uge, bv_sub, bv_slt}
use vexa.Value.{Value, value, operate}
use vexa.Memory.{u8}
use vexa.Emulator.Intrinsics.{
  handle_llvm_intrinsics, umax, usub_sat, abs, umax_term, usub_sat_term, abs_term,
}

sub-wrap : (w a b : ℕ) → a < 2 ^ w → b ≤ a → (a + 2 ^ w - b) % 2 ^ w ≡ a - b
sub-wrap w a b h p =
    let e : a + 2 ^ w - b ≡ a - b + 2 ^ w = omega arith in
    rw e (add-mod_right (a - b) (2 ^ w) ∙ mod-eq_of_lt (omega arith))

negate-lt : (w x : ℕ) → x < 2 ^ w → 0 < x → (0 + 2 ^ w - x) % 2 ^ w ≡ 2 ^ w - x
negate-lt w x h p =
    let e : 0 + 2 ^ w - x ≡ 2 ^ w - x = omega arith in rw e (mod-eq_of_lt (omega arith))

module _ ⦃B : Bitwuzla⦄ where
  open B use {
    Env, eval, eval_lt, size, eval-mk_binary, size-mk_binary, is_bool-mk_binary, size-mk_bv_value,
    eval-mk_bv_value, eval-mk_ite, size-mk_ite, mk_ite, mk_bv_value, mk_binary,
  }

  -- Of two operands of the result's width, below 256 bits, umax returns the larger.
  pub umax_sound :
      (ρ : Env) (a b c : Value) (w : ℕ)
      → w < 256
      → size a.term ≡ w
      → size b.term ≡ w
      → (v : Value) × (handle_llvm_intrinsics umax a b c w ≡ ok v)
        × (eval ρ v.term ≡ max (eval ρ a.term) (eval ρ b.term))
  unfolding handle_llvm_intrinsics operate
  umax_sound ρ a b c w small ea eb =
      let k = mk_binary bv_uge a.term b.term in
      let u : u8 w ≡ w = mod-eq_of_lt small in
      (
        value (umax_term a b),
        ground (arith, size-mk_ite k a.term b.term),
        ground (
          arith,
          eval-mk_ite ρ k a.term b.term,
          is_bool-mk_binary bv_uge a.term b.term,
          eval-mk_binary ρ bv_uge a.term b.term,
        ),
      )

  -- Of two operands of the result's width, below 256 bits, usub.sat returns the difference, or
  -- zero where it would be negative.
  pub usub_sat_sound :
      (ρ : Env) (a b c : Value) (w : ℕ)
      → w < 256
      → size a.term ≡ w
      → size b.term ≡ w
      → (v : Value) × (handle_llvm_intrinsics usub_sat a b c w ≡ ok v)
        × (eval ρ v.term ≡ eval ρ a.term - eval ρ b.term)
  unfolding handle_llvm_intrinsics operate
  usub_sat_sound ρ a b c w small ea eb =
      let k = mk_binary bv_ult a.term b.term in
      let d = mk_binary bv_sub a.term b.term in
      let u : u8 w ≡ w = mod-eq_of_lt small in
      let z = mk_bv_value (u8 w) 0 in
      let diff : (eval ρ b.term ≤ eval ρ a.term) → eval ρ d ≡ eval ρ a.term - eval ρ b.term = λ h.
        eval-mk_binary ρ bv_sub a.term b.term (ground arith)
        ∙ sub-wrap (size a.term) (eval ρ a.term) (eval ρ b.term) (eval_lt ρ a.term) h in
      (
        value (usub_sat_term (u8 w) a b),
        ground (arith, size-mk_ite k z d, size-mk_bv_value (u8 w) 0),
        ground (
          arith,
          diff,
          eval-mk_ite ρ k z d,
          is_bool-mk_binary bv_ult a.term b.term,
          eval-mk_binary ρ bv_ult a.term b.term,
          size-mk_bv_value (u8 w) 0,
          size-mk_binary bv_sub a.term b.term,
          eval-mk_bv_value ρ (u8 w) 0 (pow-pos (u8 w)),
        ),
      )

  -- `abs` returns the distance of the operand, read in two's complement, from zero; the least
  -- number, which has no positive counterpart, stays as it is.
  pub abs_sound :
      (ρ : Env) (a b c : Value) (w : ℕ)
      → 0 < w
      → size a.term ≡ w
      → (v : Value) × (handle_llvm_intrinsics abs a b c w ≡ ok v)
        × (eval ρ v.term
            ≡ (if is_negative w (eval ρ a.term) then 2 ^ w - eval ρ a.term else eval ρ a.term))
  unfolding handle_llvm_intrinsics operate
  abs_sound ρ a b c w pos ea =
      let t = a.term in
      let x = eval ρ t in
      let z = mk_bv_value (size t) 0 in
      let k = mk_binary bv_slt t z in
      let d = mk_binary bv_sub z t in
      let zero_value = eval-mk_bv_value ρ (size t) 0 (pow-pos (size t)) in
      let width = size-mk_bv_value (size t) 0 in
      let test : eval ρ k ≡ flag (is_negative (size t) x) =
        eval-mk_binary ρ bv_slt t z (ground arith)
        ∙ rw zero_value (ground (arith, pow-pos (size t - 1))) in
      let diff : is_negative (size t) x ≡ true → eval ρ d ≡ 2 ^ size t - x = λ h.
        eval-mk_binary ρ bv_sub z t (ground arith)
        ∙ rw (width, zero_value)
            (negate-lt (size t) x (eval_lt ρ t) (ground (arith, pow-pos (size t - 1)))) in
      (
        value (abs_term t),
        ground (arith, size-mk_ite k d t, size-mk_binary bv_sub z t, width),
        rw (← ea) (
            ground (
              arith,
              test,
              diff,
              eval-mk_ite ρ k d t,
              is_bool-mk_binary bv_slt t z,
              size-mk_binary bv_sub z t,
              width,
            )),
      )
