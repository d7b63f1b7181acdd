-- ===== src/Emulator/Widths/Elements.antt =====
-- src/arch/emulator.cpp: the width of the value of `visitExtractElementInst`.
use vexa.Prelude.{
  ℕ, zero, suc, ◌+◌, ◌-◌, ◌*◌, ◌^◌, ◌≤◌, ◌<◌, ◌≡◌, ◌∙◌, Bool, true, false, Result, ok, throw, ◌>>=◌,
  ltb, ◌==◌, if◌then◌else◌, arith, digit-lt,
}
use vexa.Terms.{Bitwuzla}
use vexa.Value.{Value, is_concrete, as_uint64, extract}
use vexa.Emulator.{select_elements, extract_known, extract_unknown, visit_extract_element_inst}
use vexa.Emulator.Widths.{Sized, Sized-vexa_assert}

module _ ⦃B : Bitwuzla⦄ where
  open B use {
    Term, size, mk_const, mk_ite, mk_bv_value, mk_binary, mk_extract, mk_zero_extend,
    size-mk_binary, size-mk_ite, size-mk_bv_value, size-mk_const, size-mk_extract,
    size-mk_zero_extend, size-mk_sign_extend,
  }

  size-element :
      (width i count : ℕ) (vector : Value)
      → 0 < width
      → size vector.term ≡ width * count
      → i < count
      → size (extract (i * width + width - 1) (i * width) vector).term ≡ width
  size-element width i count vector pos total lt =
      let room : i * width + (width - 1) < width * count =
        digit-lt i (width - 1) width count lt (omega (arith, pos)) in
      let high : i * width + width - 1 < size vector.term = omega (arith, pos, total, room) in
      size-mk_extract (i * width + width - 1) (i * width) vector.term (omega (arith, pos)) high
      ∙ omega (arith, pos)

  size-select_elements :
      (left i width count : ℕ) (vector index : Value) (result : Term)
      → 0 < width
      → size vector.term ≡ width * count
      → i + left ≤ count
      → size result ≡ width
      → size (select_elements left i width vector index result) ≡ width
  unfolding select_elements
  size-select_elements zero i width count vector index result pos total lt h = h
  size-select_elements (suc left) i width count vector index result pos total lt h =
      size-select_elements left (i + 1) width count vector index _ pos total (omega (arith, lt))
        (size-mk_ite _ _ result ∙ size-element width i count vector pos total (omega (arith, lt)))

  fewer : (n count : ℕ) → 0 + (if ltb n count then n else count) ≤ count
  fewer n count = ground arith

  Sized-bind :
      (w : ℕ) (r : Result ℕ) (next : ℕ → Result Value)
      → ((n : ℕ) → Sized w (next n))
      → Sized w (r >>= next)
  Sized-bind w throw next h = tt
  Sized-bind w (ok n) next h = h n

  Sized-either :
      (w : ℕ) (b : Bool) (r r' : Result Value)
      → Sized w r
      → Sized w r'
      → Sized w (if b then r else r')
  Sized-either w true r r' h k = h
  Sized-either w false r r' h k = k

  Sized-extract_known :
      (width count : ℕ) (vector index : Value)
      → 0 < width
      → size vector.term ≡ width * count
      → Sized width (extract_known width count vector index)
  unfolding extract_known
  Sized-extract_known width count vector index pos total =
      Sized-bind width (as_uint64 index) _ (λ i.
        Sized-vexa_assert width (ltb i count) _
          (λ lt. size-element width i count vector pos total (ground (arith, lt))))

  Sized-extract_unknown :
      (constants width count : ℕ) (vector index : Value)
      → 0 < width
      → size vector.term ≡ width * count
      → Sized width (extract_unknown constants width count vector index)
  unfolding extract_unknown
  Sized-extract_unknown constants width count vector index pos total =
      size-select_elements _ 0 width count vector index (mk_const constants width) pos total
        (fewer (if ltb (size index.term) 64 then 2 ^ size index.term else count) count)
        (size-mk_const constants width)

  pub Sized-extract_element_inst :
      (constants width count : ℕ) (vector index : Value)
      → Sized width (visit_extract_element_inst constants width count vector index)
  unfolding visit_extract_element_inst
  Sized-extract_element_inst constants width count vector index =
      Sized-vexa_assert width (ltb 0 width) _ (λ pos.
        Sized-vexa_assert width (size vector.term == width * count) _ (λ total.
          Sized-either width (is_concrete index) _ _
            (Sized-extract_known width count vector index (ground (arith, pos))
              (ground (arith, total)))
            (Sized-extract_unknown constants width count vector index (ground (arith, pos))
              (ground (arith, total)))))
