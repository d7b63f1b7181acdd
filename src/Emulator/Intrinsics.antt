-- ===== src/Emulator/Intrinsics.antt =====
-- src/arch/emulator.cpp, `handle_llvm_intrinsics`: bit counting, funnel shifts, byte swap, and the
-- arithmetic intrinsics, as solver terms.
use vexa.Prelude.{
  ℕ, zero, suc, ◌+◌, ◌-◌, ◌*◌, ◌/◌, ◌%◌, Result, ok, throw, ◌>>◌, vexa_assert, ltb, ◌==◌,
}
use vexa.Terms.{Bitwuzla}
use vexa.Terms.Denote.{bv_add, bv_sub, bv_urem, bv_concat, bv_shl, bv_shr, bv_slt, equal}
use vexa.Value.{Value, value, concrete, operate}
use vexa.Value.Operator.{uge, ult, minus}
use vexa.Memory.{u8}

pub data Intrinsic : Type 0 where
  ctpop fshl fshr bswap cttz ctlz umax usub_sat abs lifetime_start lifetime_end : Intrinsic
  unimplemented : Intrinsic

module _ ⦃B : Bitwuzla⦄ where
  open B use {Term, size, mk_binary, mk_ite, mk_extract, mk_zero_extend, mk_bv_value}

  -- The bit `i`, extended to the result's width.
  unfoldable pub wide_bit : ℕ → Term → ℕ → Term
  wide_bit dst_bit_width x i = mk_zero_extend (dst_bit_width - 1) (mk_extract i i x)

  unfoldable pub add_bits : ℕ → ℕ → ℕ → Term → Term → Term
  unfolding wide_bit
  add_bits zero i dst_bit_width x total = total
  add_bits (suc left) i dst_bit_width x total =
      add_bits left (i + 1) dst_bit_width x (mk_binary bv_add total (wide_bit dst_bit_width x i))

  unfoldable pub ctpop_term : ℕ → Term → Term
  unfolding add_bits wide_bit
  ctpop_term dst_bit_width x =
      add_bits (u8 (size x) - 1) 1 dst_bit_width x (wide_bit dst_bit_width x 0)

  -- x above y
  unfoldable pub funnel : Term → Term → Term
  funnel x y = mk_binary bv_concat x y

  unfoldable pub funnel_shift : Term → Term → Term
  funnel_shift x s =
      let bit_width = u8 (size x) in
      let s_mod = mk_binary bv_urem s (mk_bv_value (size s) bit_width) in
      mk_zero_extend bit_width s_mod

  unfoldable pub fshl_term : Term → Term → Term → Term
  unfolding funnel funnel_shift
  fshl_term x y s =
      let bit_width = u8 (size x) in
      mk_extract (2 * bit_width - 1) bit_width (mk_binary bv_shl (funnel x y) (funnel_shift x s))

  unfoldable pub fshr_term : Term → Term → Term → Term
  unfolding funnel funnel_shift
  fshr_term x y s =
      let bit_width = u8 (size x) in
      mk_extract (bit_width - 1) 0 (mk_binary bv_shr (funnel x y) (funnel_shift x s))

  -- The loop of bswap at bit 8 * i.
  unfoldable pub append_bytes : ℕ → ℕ → Term → Term → Term
  append_bytes zero i x result = result
  append_bytes (suc left) i x result =
      append_bytes left (i + 1) x (mk_binary bv_concat result (mk_extract (8 * i + 7) (8 * i) x))

  unfoldable pub bswap_term : Term → Term
  unfolding append_bytes
  bswap_term x = append_bytes (size x / 8 - 1) 1 x (mk_extract 7 0 x)

  -- `current_bit == 1 ? current_idx : result`
  unfoldable pub pick_bit : ℕ → Term → ℕ → ℕ → Term → Term
  pick_bit dst_bit_width x i index result =
      mk_ite (mk_binary equal (mk_extract i i x) (mk_bv_value 1 1))
        (mk_bv_value dst_bit_width index) result

  -- The bits from i - 1 down to 0.
  unfoldable pub pick_down : ℕ → ℕ → Term → Term → Term
  unfolding pick_bit
  pick_down zero dst_bit_width x result = result
  pick_down (suc i) dst_bit_width x result =
      pick_down i dst_bit_width x (pick_bit dst_bit_width x i i result)

  unfoldable pub cttz_term : ℕ → Term → Term
  unfolding pick_down
  cttz_term dst_bit_width x =
      pick_down (size x) dst_bit_width x (mk_bv_value dst_bit_width (size x))

  -- The bits from i up, `left` of them.
  unfoldable pub pick_up : ℕ → ℕ → ℕ → Term → Term → Term
  unfolding pick_bit
  pick_up zero i dst_bit_width x result = result
  pick_up (suc left) i dst_bit_width x result =
      pick_up left (i + 1) dst_bit_width x (pick_bit dst_bit_width x i (size x - 1 - i) result)

  unfoldable pub ctlz_term : ℕ → Term → Term
  unfolding pick_up
  ctlz_term dst_bit_width x =
      pick_up (size x) 0 dst_bit_width x (mk_bv_value dst_bit_width (size x))

  unfoldable pub umax_term : Value → Value → Term
  umax_term src0 src1 = mk_ite (operate uge src0 src1).term src0.term src1.term

  unfoldable pub usub_sat_term : ℕ → Value → Value → Term
  usub_sat_term dst_bit_width src0 src1 =
      mk_ite (operate ult src0 src1).term (mk_bv_value dst_bit_width 0)
        (operate minus src0 src1).term

  unfoldable pub abs_term : Term → Term
  abs_term x =
      let zero_term = mk_bv_value (size x) 0 in
      mk_ite (mk_binary bv_slt x zero_term) (mk_binary bv_sub zero_term x) x

  -- The operands that the intrinsic does not have are not read; then the result's width.
  unfoldable pub handle_llvm_intrinsics : Intrinsic → Value → Value → Value → ℕ → Result Value
  unfolding ctpop_term fshl_term fshr_term bswap_term cttz_term ctlz_term umax_term usub_sat_term
      abs_term
  handle_llvm_intrinsics ctpop a b c width = do
    vexa_assert (ltb 0 (u8 width))
    ok (value (ctpop_term (u8 width) a.term))
  handle_llvm_intrinsics fshl a b c width = do
    let result = fshl_term a.term b.term c.term
    vexa_assert (u8 width == size result)
    ok (value result)
  handle_llvm_intrinsics fshr a b c width = do
    let result = fshr_term a.term b.term c.term
    vexa_assert (u8 width == size result)
    ok (value result)
  handle_llvm_intrinsics bswap a b c width = do
    vexa_assert (size a.term % 8 == 0)
    let result = bswap_term a.term
    vexa_assert (u8 width == size result)
    ok (value result)
  handle_llvm_intrinsics cttz a b c width = do
    vexa_assert (ltb 0 (u8 width))
    let result = cttz_term (u8 width) a.term
    vexa_assert (u8 width == size result)
    ok (value result)
  handle_llvm_intrinsics ctlz a b c width = do
    vexa_assert (ltb 0 (u8 width))
    let result = ctlz_term (u8 width) a.term
    vexa_assert (u8 width == size result)
    ok (value result)
  handle_llvm_intrinsics umax a b c width = do
    vexa_assert (size b.term == u8 (size a.term))
    let result = umax_term a b
    vexa_assert (u8 width == u8 (size a.term))
    vexa_assert (u8 width == size result)
    ok (value result)
  handle_llvm_intrinsics usub_sat a b c width = do
    vexa_assert (u8 width == u8 (size a.term))
    let result = usub_sat_term (u8 width) a b
    vexa_assert (u8 width == size result)
    ok (value result)
  handle_llvm_intrinsics abs a b c width = do
    vexa_assert (ltb 0 (size a.term))
    vexa_assert (width == size a.term)
    let result = abs_term a.term
    vexa_assert (width == size result)
    ok (value result)
  handle_llvm_intrinsics lifetime_start a b c width = ok (concrete 0 64)
  handle_llvm_intrinsics lifetime_end a b c width = ok (concrete 0 64)
  handle_llvm_intrinsics unimplemented a b c width = throw
