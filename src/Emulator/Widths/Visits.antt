-- ===== src/Emulator/Widths/Visits.antt =====
-- src/arch/emulator.cpp: the width of what an instruction gives.
use vexa.Prelude.{ℕ, ◌-◌, ◌<◌, ◌≡◌, refl, ◌∙◌, Result, ok, throw, ◌>>=◌, ◌==◌, arith}
use vexa.Terms.{Bitwuzla}
use vexa.Value.{Value, value, operate, ite, as_expr_bool}
use vexa.Emulator.{
  Opcode, visit_binary_operator, compare_values, visit_icmp_inst, visit_zext_inst, visit_sext_inst,
  visit_trunc_inst, visit_select_inst,
}
use vexa.Emulator.Widths.{
  Sized, Sized-vexa_assert, ValueInst, binary_operator, icmp_inst, select_inst,
  extract_element_inst, intrinsic_inst, freeze_inst, unsupported_inst, visit, type_width,
  IsWellTyped, zext_inst, sext_inst, trunc_inst,
}
use vexa.Emulator.Widths.Elements.{Sized-extract_element_inst}
use vexa.Emulator.Widths.Calls.{Sized-intrinsic}

module _ ⦃B : Bitwuzla⦄ where
  open B use {
    Term, size, mk_const, mk_ite, mk_bv_value, mk_binary, mk_extract, mk_zero_extend,
    size-mk_binary, size-mk_ite, size-mk_bv_value, size-mk_const, size-mk_extract,
    size-mk_zero_extend, size-mk_sign_extend,
  }

  Sized-binary_operator :
      (op : Opcode) (lhs rhs : Value) → Sized (size lhs.term) (visit_binary_operator op lhs rhs)
  unfolding visit_binary_operator operate
  Sized-binary_operator Opcode.add lhs rhs = size-mk_binary _ lhs.term rhs.term
  Sized-binary_operator Opcode.sub lhs rhs = size-mk_binary _ lhs.term rhs.term
  Sized-binary_operator Opcode.mul lhs rhs = size-mk_binary _ lhs.term rhs.term
  Sized-binary_operator Opcode.udiv lhs rhs = size-mk_binary _ lhs.term rhs.term
  Sized-binary_operator Opcode.urem lhs rhs = size-mk_binary _ lhs.term rhs.term
  Sized-binary_operator Opcode.sdiv lhs rhs = size-mk_binary _ lhs.term rhs.term
  Sized-binary_operator Opcode.srem lhs rhs = size-mk_binary _ lhs.term rhs.term
  Sized-binary_operator Opcode.and lhs rhs = size-mk_binary _ lhs.term rhs.term
  Sized-binary_operator Opcode.or lhs rhs = size-mk_binary _ lhs.term rhs.term
  Sized-binary_operator Opcode.xor lhs rhs = size-mk_binary _ lhs.term rhs.term
  Sized-binary_operator Opcode.shl lhs rhs = size-mk_binary _ lhs.term rhs.term
  Sized-binary_operator Opcode.lshr lhs rhs = size-mk_binary _ lhs.term rhs.term
  Sized-binary_operator Opcode.ashr lhs rhs = size-mk_binary _ lhs.term rhs.term
  Sized-binary_operator Opcode.unsupported lhs rhs = tt

  Sized-icmp_bit :
      (r : Result Value)
      → Sized 1 (r >>= λ expr. ok (value (mk_ite expr.term (mk_bv_value 1 1) (mk_bv_value 1 0))))
  Sized-icmp_bit throw = tt
  Sized-icmp_bit (ok v) =
      size-mk_ite v.term (mk_bv_value 1 1) (mk_bv_value 1 0) ∙ size-mk_bv_value 1 1

  Sized-zext_inst :
      (source dest : ℕ) (src : Value) → source < dest → Sized dest (visit_zext_inst source dest src)
  unfolding visit_zext_inst
  Sized-zext_inst source dest src h =
      Sized-vexa_assert dest (size src.term == source) _
        (λ e. ground (arith, e, h, size-mk_zero_extend (dest - size src.term) src.term))

  Sized-sext_inst :
      (source dest : ℕ) (src : Value) → source < dest → Sized dest (visit_sext_inst source dest src)
  unfolding visit_sext_inst
  Sized-sext_inst source dest src h =
      Sized-vexa_assert dest (size src.term == source) _
        (λ e. ground (arith, e, h, size-mk_sign_extend (dest - size src.term) src.term))

  Sized-trunc_inst :
      (source dest : ℕ) (src : Value)
      → (0 < dest) × (dest < source)
      → Sized dest (visit_trunc_inst source dest src)
  unfolding visit_trunc_inst
  Sized-trunc_inst source dest src h = Sized-vexa_assert dest (size src.term == source) _ (λ e.
      ground (
        arith,
        e,
        h.0,
        h.1,
        size-mk_extract (dest - 1) 0 src.term (omega arith) (ground (arith, e, h.0, h.1)),
      ))

  pub Sized-select_inst :
      (cond lhs rhs : Value) → size (visit_select_inst cond lhs rhs).term ≡ size lhs.term
  unfolding visit_select_inst ite
  Sized-select_inst cond lhs rhs = size-mk_ite (as_expr_bool cond) lhs.term rhs.term

  -- An instruction whose operands have the widths that LLVM asks for gives a value of the width of
  -- its type, where the emulator does not throw. Intrinsics are of less than 256 bits.
  pub visit_sound : (i : ValueInst) → IsWellTyped i → Sized (type_width i) (visit i)
  unfolding visit_icmp_inst
  visit_sound (binary_operator op lhs rhs) h = Sized-binary_operator op lhs rhs
  visit_sound (icmp_inst p lhs rhs) h = Sized-icmp_bit (compare_values p lhs rhs)
  visit_sound (zext_inst source dest src) h = Sized-zext_inst source dest src h
  visit_sound (sext_inst source dest src) h = Sized-sext_inst source dest src h
  visit_sound (trunc_inst source dest src) h = Sized-trunc_inst source dest src h
  visit_sound (select_inst cond lhs rhs) h = Sized-select_inst cond lhs rhs
  visit_sound (extract_element_inst constants width count vector index) h =
      Sized-extract_element_inst constants width count vector index
  visit_sound (intrinsic_inst i a b c width) h = Sized-intrinsic i a b c width h
  visit_sound (freeze_inst v) h = refl
  visit_sound unsupported_inst h = tt
