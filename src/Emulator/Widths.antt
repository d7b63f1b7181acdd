-- ===== src/Emulator/Widths.antt =====
-- src/arch/emulator.cpp: the widths of the values that the instructions make.
pub mod Elements
pub mod Calls
pub mod Visits
use vexa.Prelude.{
  ℕ, zero, suc, ◌+◌, ◌-◌, ◌*◌, ◌^◌, ◌%◌, ◌≤◌, ◌<◌, ◌≡◌, refl, ◌∙◌, sym, ap, Bool, true, false,
  Result, ok, throw, ◌>>=◌, ◌>>◌, vexa_assert, ltb, ◌==◌, if◌then◌else◌, arith, digit-lt,
}
use vexa.Terms.{Bitwuzla}
use vexa.Terms.Denote.{bv_add}
use vexa.Value.{
  Value, Operator, value, concrete, is_concrete, as_uint64, operate, extract, zext, sext, ite,
  as_expr_bool,
}
use vexa.Memory.{u8}
use vexa.Emulator.{
  Opcode, Predicate, visit_binary_operator, compare_values, visit_icmp_inst, visit_zext_inst,
  visit_sext_inst, visit_trunc_inst, visit_select_inst, select_elements, extract_known,
  extract_unknown, visit_extract_element_inst,
}
use vexa.Emulator.Intrinsics.{
  Intrinsic, ctpop, fshl, fshr, bswap, cttz, ctlz, umax, usub_sat, abs, lifetime_start,
  lifetime_end, unimplemented, handle_llvm_intrinsics, wide_bit, add_bits, ctpop_term,
}

module _ ⦃B : Bitwuzla⦄ where
  open B use {
    Term, size, mk_const, mk_ite, mk_bv_value, mk_binary, mk_extract, mk_zero_extend,
    size-mk_binary, size-mk_ite, size-mk_bv_value, size-mk_const, size-mk_extract,
    size-mk_zero_extend, size-mk_sign_extend,
  }

  -- A value of `w` bits, where the operation does not throw.
  abbrev pub Sized : ℕ → Result Value → Type 0
  Sized w throw = Unit
  Sized w (ok v) = size v.term ≡ w

  pub Sized-vexa_assert :
      (w : ℕ) (b : Bool) (r : Result Value) → (b ≡ true → Sized w r) → Sized w (vexa_assert b >> r)
  Sized-vexa_assert w false r h = tt
  Sized-vexa_assert w true r h = h refl

  -- An instruction that makes a value, with the values of its operands and, where its type is not
  -- theirs, the widths of its types.
  pub data ValueInst : Type 0 where
    binary_operator : Opcode → Value → Value → ValueInst
    icmp_inst : Predicate → Value → Value → ValueInst
    zext_inst sext_inst trunc_inst : ℕ → ℕ → Value → ValueInst
    select_inst : Value → Value → Value → ValueInst
    extract_element_inst : ℕ → ℕ → ℕ → Value → Value → ValueInst
    intrinsic_inst : Intrinsic → Value → Value → Value → ℕ → ValueInst
    freeze_inst : Value → ValueInst
    unsupported_inst : ValueInst

  abbrev pub visit : ValueInst → Result Value
  visit (binary_operator op lhs rhs) = visit_binary_operator op lhs rhs
  visit (icmp_inst p lhs rhs) = visit_icmp_inst p lhs rhs
  visit (zext_inst source dest src) = visit_zext_inst source dest src
  visit (sext_inst source dest src) = visit_sext_inst source dest src
  visit (trunc_inst source dest src) = visit_trunc_inst source dest src
  visit (select_inst cond lhs rhs) = ok (visit_select_inst cond lhs rhs)
  visit (extract_element_inst constants width count vector index) =
      visit_extract_element_inst constants width count vector index
  visit (intrinsic_inst i a b c width) = handle_llvm_intrinsics i a b c width
  visit (freeze_inst v) = ok v
  visit unsupported_inst = throw

  -- The width of the instruction's type; a call that makes none gets 64 bits.
  abbrev pub intrinsic_width : Intrinsic → ℕ → ℕ
  intrinsic_width lifetime_start width = 64
  intrinsic_width lifetime_end width = 64
  intrinsic_width i width = width

  abbrev pub type_width : ValueInst → ℕ
  type_width (binary_operator op lhs rhs) = size lhs.term
  type_width (icmp_inst p lhs rhs) = 1
  type_width (zext_inst source dest src) = dest
  type_width (sext_inst source dest src) = dest
  type_width (trunc_inst source dest src) = dest
  type_width (select_inst cond lhs rhs) = size lhs.term
  type_width (extract_element_inst constants width count vector index) = width
  type_width (intrinsic_inst i a b c width) = intrinsic_width i width
  type_width (freeze_inst v) = size v.term
  type_width unsupported_inst = 0

  abbrev pub IsTypedIntrinsic : Intrinsic → Value → ℕ → Type 0
  IsTypedIntrinsic lifetime_start a width = Unit
  IsTypedIntrinsic lifetime_end a width = Unit
  IsTypedIntrinsic i a width = (width < 256) × (size a.term ≡ width)

  -- LLVM's rules on the widths of operands; the first operand of an intrinsic has its width, which
  -- is less than 256.
  abbrev pub IsWellTyped : ValueInst → Type 0
  IsWellTyped (binary_operator op lhs rhs) = size lhs.term ≡ size rhs.term
  IsWellTyped (icmp_inst p lhs rhs) = size lhs.term ≡ size rhs.term
  IsWellTyped (zext_inst source dest src) = source < dest
  IsWellTyped (sext_inst source dest src) = source < dest
  IsWellTyped (trunc_inst source dest src) = (0 < dest) × (dest < source)
  IsWellTyped (select_inst cond lhs rhs) = size lhs.term ≡ size rhs.term
  IsWellTyped (extract_element_inst constants width count vector index) = Unit
  IsWellTyped (intrinsic_inst i a b c width) = IsTypedIntrinsic i a width
  IsWellTyped (freeze_inst v) = Unit
  IsWellTyped unsupported_inst = Unit
