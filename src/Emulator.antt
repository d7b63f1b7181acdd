-- ===== src/Emulator.antt =====
-- src/arch/emulator.cpp: what the emulator computes for LLVM instructions that only make values.
-- An instruction is its opcode or predicate with the values of its operands and, where the code
-- reads the result type, that width.
pub mod Intrinsics
pub mod Compare
pub mod Access
pub mod Bits
pub mod Minmax
pub mod Zeros
pub mod Widths
pub mod Pointers
use vexa.Prelude.{
  ℕ, zero, suc, ◌+◌, ◌-◌, ◌*◌, ◌^◌, Bool, true, false, ◌&&◌, Result, ok, throw, ◌>>=◌, ◌>>◌,
  vexa_assert, ltb, ◌==◌, if◌then◌else◌,
}
use vexa.Terms.{Bitwuzla}
use vexa.Value.{
  Value, Operator, value, concrete, is_concrete, as_uint64, operate, extract, zext, sext, ite,
}

-- `llvm::Instruction::BinaryOps`; `unsupported` stands for the floating-point ones.
pub data Opcode : Type 0 where
  add sub mul udiv urem sdiv srem and or xor shl lshr ashr unsupported : Opcode

-- `llvm::CmpInst::Predicate`; `unsupported` stands for the floating-point ones.
pub data Predicate : Type 0 where
  eq ne ugt uge ult ule sgt sge slt sle unsupported : Predicate

module _ ⦃B : Bitwuzla⦄ where
  open B use {Term, size, mk_ite, mk_bv_value, mk_const}

  unfoldable pub visit_binary_operator : Opcode → Value → Value → Result Value
  visit_binary_operator Opcode.add lhs rhs = ok (operate Operator.plus lhs rhs)
  visit_binary_operator Opcode.sub lhs rhs = ok (operate Operator.minus lhs rhs)
  visit_binary_operator Opcode.mul lhs rhs = ok (operate Operator.times lhs rhs)
  visit_binary_operator Opcode.udiv lhs rhs = ok (operate Operator.udiv lhs rhs)
  visit_binary_operator Opcode.urem lhs rhs = ok (operate Operator.urem lhs rhs)
  visit_binary_operator Opcode.sdiv lhs rhs = ok (operate Operator.divide lhs rhs)
  visit_binary_operator Opcode.srem lhs rhs = ok (operate Operator.remainder lhs rhs)
  visit_binary_operator Opcode.and lhs rhs = ok (operate Operator.and lhs rhs)
  visit_binary_operator Opcode.or lhs rhs = ok (operate Operator.or lhs rhs)
  visit_binary_operator Opcode.xor lhs rhs = ok (operate Operator.xor lhs rhs)
  visit_binary_operator Opcode.shl lhs rhs = ok (operate Operator.shift_left lhs rhs)
  visit_binary_operator Opcode.lshr lhs rhs = ok (operate Operator.lshr lhs rhs)
  visit_binary_operator Opcode.ashr lhs rhs = ok (operate Operator.shift_right lhs rhs)
  visit_binary_operator Opcode.unsupported lhs rhs = throw

  unfoldable pub compare_values : Predicate → Value → Value → Result Value
  compare_values Predicate.eq lhs rhs = ok (operate Operator.eq lhs rhs)
  compare_values Predicate.ne lhs rhs = ok (operate Operator.ne lhs rhs)
  compare_values Predicate.ugt lhs rhs = ok (operate Operator.ugt lhs rhs)
  compare_values Predicate.uge lhs rhs = ok (operate Operator.uge lhs rhs)
  compare_values Predicate.ult lhs rhs = ok (operate Operator.ult lhs rhs)
  compare_values Predicate.ule lhs rhs = ok (operate Operator.ule lhs rhs)
  compare_values Predicate.sgt lhs rhs = ok (operate Operator.gt lhs rhs)
  compare_values Predicate.sge lhs rhs = ok (operate Operator.ge lhs rhs)
  compare_values Predicate.slt lhs rhs = ok (operate Operator.lt lhs rhs)
  compare_values Predicate.sle lhs rhs = ok (operate Operator.le lhs rhs)
  compare_values Predicate.unsupported lhs rhs = throw

  unfoldable pub visit_icmp_inst : Predicate → Value → Value → Result Value
  unfolding compare_values
  visit_icmp_inst p lhs rhs = do
    expr ← compare_values p lhs rhs
    ok (value (mk_ite expr.term (mk_bv_value 1 1) (mk_bv_value 1 0)))

  -- The widths of the source and of the destination type come first.
  unfoldable pub visit_zext_inst : ℕ → ℕ → Value → Result Value
  visit_zext_inst source_width dest_width src = do
    vexa_assert (size src.term == source_width)
    ok (zext (dest_width - size src.term) src)

  unfoldable pub visit_sext_inst : ℕ → ℕ → Value → Result Value
  visit_sext_inst source_width dest_width src = do
    vexa_assert (size src.term == source_width)
    ok (sext (dest_width - size src.term) src)

  unfoldable pub visit_trunc_inst : ℕ → ℕ → Value → Result Value
  visit_trunc_inst source_width dest_width src = do
    vexa_assert (size src.term == source_width)
    ok (extract (dest_width - 1) 0 src)

  unfoldable pub visit_select_inst : Value → Value → Value → Value
  visit_select_inst cond lhs rhs = ite cond lhs rhs

  -- The loop of `visitExtractElementInst`, with the rounds left.
  pub select_elements : ℕ → ℕ → ℕ → Value → Value → Term → Term
  select_elements zero i element_bit_width vector index result = result
  select_elements (suc left) i element_bit_width vector index result =
      let low_bit = i * element_bit_width in
      let element = extract (low_bit + element_bit_width - 1) low_bit vector in
      let expected_index = concrete i (size index.term) in
      select_elements left (i + 1) element_bit_width vector index
        (mk_ite (operate Operator.eq index expected_index).term element.term result)

  -- The branch of a concrete index.
  unfoldable pub extract_known : ℕ → ℕ → Value → Value → Result Value
  unfolding as_uint64
  extract_known element_bit_width element_count vector index = do
    element_index ← as_uint64 index
    vexa_assert (ltb element_index element_count)
    let low_bit = element_index * element_bit_width
    ok (extract (low_bit + element_bit_width - 1) low_bit vector)

  -- The branch of a symbolic index: an out-of-range index gives the poison symbol.
  unfoldable pub extract_unknown : ℕ → ℕ → ℕ → Value → Value → Result Value
  unfolding select_elements
  extract_unknown constants element_bit_width element_count vector index =
      let representable = if ltb (size index.term) 64 then 2 ^ size index.term else element_count in
      let rounds = if ltb representable element_count then representable else element_count in
      let poison = mk_const constants element_bit_width in
      ok (value (select_elements rounds 0 element_bit_width vector index poison))

  -- The count of the constants made so far, the width of an element, the count of elements.
  unfoldable pub visit_extract_element_inst : ℕ → ℕ → ℕ → Value → Value → Result Value
  unfolding extract_known extract_unknown
  visit_extract_element_inst constants element_bit_width element_count vector index = do
    vexa_assert (ltb 0 element_bit_width)
    vexa_assert (size vector.term == element_bit_width * element_count)
    if is_concrete index
        then extract_known element_bit_width element_count vector index
        else extract_unknown constants element_bit_width element_count vector index
