-- ===== src/Emulator/Widths/Calls.antt =====
-- src/arch/emulator.cpp: the widths of the values of the intrinsics.
use vexa.Prelude.{
  ℕ, zero, suc, ◌+◌, ◌-◌, ◌%◌, ◌<◌, ◌≡◌, refl, ◌∙◌, ap, ok, ◌>>◌, vexa_assert, ltb, ◌==◌, arith,
}
use vexa.Terms.{Bitwuzla}
use vexa.Terms.Denote.{bv_add}
use vexa.Value.{Value, value}
use vexa.Memory.{u8}
use vexa.Emulator.Intrinsics.{
  Intrinsic, ctpop, fshl, fshr, bswap, cttz, ctlz, umax, usub_sat, abs, lifetime_start,
  lifetime_end, unimplemented, handle_llvm_intrinsics, wide_bit, add_bits, ctpop_term, bswap_term,
  cttz_term, ctlz_term, umax_term, usub_sat_term, abs_term,
}
use vexa.Emulator.Widths.{Sized, Sized-vexa_assert, intrinsic_width, IsTypedIntrinsic}

module _ ⦃B : Bitwuzla⦄ where
  open B use {
    Term, size, mk_const, mk_ite, mk_bv_value, mk_binary, mk_extract, mk_zero_extend,
    size-mk_binary, size-mk_ite, size-mk_bv_value, size-mk_const, size-mk_extract,
    size-mk_zero_extend, size-mk_sign_extend,
  }

  -- The assertion on the result's width that closes most of the intrinsics.
  Sized-checked :
      (width : ℕ) (result : Term)
      → width < 256
      → Sized width (vexa_assert (u8 width == size result) >> ok (value result))
  Sized-checked width result h =
      Sized-vexa_assert width (u8 width == size result) _ (λ e. ground (arith, h, e))

  Sized-same :
      (width : ℕ) (result : Term)
      → Sized width (vexa_assert (width == size result) >> ok (value result))
  Sized-same width result =
      Sized-vexa_assert width (width == size result) _ (λ e. ground (arith, e))

  size-wide_bit :
      (width i : ℕ) (x : Term) → 0 < width → i < size x → size (wide_bit width x i) ≡ width
  unfolding wide_bit
  size-wide_bit width i x pos h =
      size-mk_zero_extend (width - 1) (mk_extract i i x)
      ∙ (ap (λ n. n + (width - 1)) (size-mk_extract i i x (omega arith) h) ∙ omega (arith, pos))

  size-add_bits :
      (left i width : ℕ) (x total : Term) → size (add_bits left i width x total) ≡ size total
  unfolding add_bits
  size-add_bits zero i width x total = refl
  size-add_bits (suc left) i width x total =
      size-add_bits left (i + 1) width x _ ∙ size-mk_binary bv_add total (wide_bit width x i)

  pub Sized-intrinsic :
      (i : Intrinsic) (a b c : Value) (width : ℕ)
      → IsTypedIntrinsic i a width
      → Sized (intrinsic_width i width) (handle_llvm_intrinsics i a b c width)
  unfolding handle_llvm_intrinsics ctpop_term
  Sized-intrinsic ctpop a b c width h = Sized-vexa_assert width (ltb 0 (u8 width)) _ (λ pos.
      let short : u8 width ≡ width = omega (arith, h.0) in
      size-add_bits (u8 (size a.term) - 1) 1 (u8 width) a.term (wide_bit (u8 width) a.term 0)
      ∙ (size-wide_bit (u8 width) 0 a.term (ground (arith, pos)) (ground (arith, pos, short, h.1))
          ∙ short))
  Sized-intrinsic fshl a b c width h = Sized-checked width _ h.0
  Sized-intrinsic fshr a b c width h = Sized-checked width _ h.0
  Sized-intrinsic bswap a b c width h =
      Sized-vexa_assert width (size a.term % 8 == 0) _
        (λ f. Sized-checked width (bswap_term a.term) h.0)
  Sized-intrinsic cttz a b c width h =
      Sized-vexa_assert width (ltb 0 (u8 width)) _
        (λ f. Sized-checked width (cttz_term (u8 width) a.term) h.0)
  Sized-intrinsic ctlz a b c width h =
      Sized-vexa_assert width (ltb 0 (u8 width)) _
        (λ f. Sized-checked width (ctlz_term (u8 width) a.term) h.0)
  Sized-intrinsic umax a b c width h =
      Sized-vexa_assert width (size b.term == u8 (size a.term)) _ (λ f.
        Sized-vexa_assert width (u8 width == u8 (size a.term)) _
          (λ g. Sized-checked width (umax_term a b) h.0))
  Sized-intrinsic usub_sat a b c width h =
      Sized-vexa_assert width (u8 width == u8 (size a.term)) _
        (λ f. Sized-checked width (usub_sat_term (u8 width) a b) h.0)
  Sized-intrinsic abs a b c width h = Sized-vexa_assert width (ltb 0 (size a.term)) _ (λ f.
      Sized-vexa_assert width (width == size a.term) _ (λ g. Sized-same width (abs_term a.term)))
  Sized-intrinsic lifetime_start a b c width h = size-mk_bv_value 64 0
  Sized-intrinsic lifetime_end a b c width h = size-mk_bv_value 64 0
  Sized-intrinsic unimplemented a b c width h = tt
