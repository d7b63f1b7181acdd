-- ===== src/Emulator/Zeros.antt =====
-- src/arch/emulator.cpp, `handle_llvm_intrinsics`: what `cttz` counts.
use native.Mathlib.Nat.{mod-eq_of_lt}
use vexa.Prelude.{
  ℕ, zero, suc, ◌^◌, ◌<◌, ◌≤◌, ◌≡◌, ◌∙◌, ok, ◌==◌, if◌then◌else◌, arith, Bool-cases, inl, inr,
}
use vexa.Terms.{Bitwuzla}
use vexa.Terms.Denote.{equal}
use vexa.Value.{Value, value}
use vexa.Memory.{u8}
use vexa.Emulator.Bits.{bit, lt-pow, eval-extract_bit}
use vexa.Emulator.Intrinsics.{handle_llvm_intrinsics, cttz, pick_bit, pick_down, cttz_term}

-- `v` is the lowest bit from `i` up that is set in the `w` bits of `x`, or `w` where none is.
pub record IsLowest (x w i v : ℕ) : Type 0 where
  pub above : i ≤ v
  pub below : v ≤ w
  pub clear : (j : ℕ) → i ≤ j → j < v → bit x j ≡ 0
  pub is_set : v < w → bit x v ≡ 1

IsLowest-width : (x n w v : ℕ) → n ≡ w → IsLowest x n 0 v → IsLowest x w 0 v
IsLowest-width x n w v e h = rw (← e) h

IsLowest-step :
    (x w i v : ℕ) → i < w → IsLowest x w (suc i) v → IsLowest x w i (if bit x i == 1 then i else v)
IsLowest-step x w i v low h = elim (Bool-cases (bit x i == 1)) [
  | inl e ↦
      let one : bit x i ≡ 1 = ground arith in
      rw e (record {
        above = omega arith;
        below = omega arith;
        clear = λ j p q. absurd (omega (arith, p, q));
        is_set = λ _. one;
      })
  | inr e ↦
      let none_ : bit x i ≡ 0 = ground arith in
      rw e (record {
        above = omega (arith, h.above);
        below = h.below;
        clear = λ j p q. elim (Bool-cases (i == j)) [
          | inl same ↦ let k : j ≡ i = ground arith in rw k none_
          | inr other ↦ h.clear j (ground arith) q
        ];
        is_set = h.is_set;
      })
]

module _ ⦃B : Bitwuzla⦄ where
  open B use {
    Term, Env, eval, eval_lt, size, eval-mk_binary, is_bool-mk_binary, size-mk_bv_value,
    eval-mk_bv_value, eval-mk_ite, size-mk_ite, mk_extract, mk_binary, mk_bv_value, mk_ite,
  }

  eval-pick_bit :
      (ρ : Env) (d : ℕ) (x : Term) (i : ℕ) (r : Term)
      → i < size x
      → i < 2 ^ d
      → size r ≡ d
      → (eval ρ (pick_bit d x i i r) ≡ (if bit (eval ρ x) i == 1 then i else eval ρ r))
        × (size (pick_bit d x i i r) ≡ d)
  unfolding pick_bit
  eval-pick_bit ρ d x i r low small width =
      let (b, one) = eval-extract_bit ρ x i low in
      let t = mk_extract i i x in
      let u = mk_bv_value 1 1 in
      let k = mk_binary equal t u in
      let v = mk_bv_value d i in
      let eu : eval ρ u ≡ 1 = eval-mk_bv_value ρ 1 1 (omega arith) in
      let su = size-mk_bv_value 1 1 in
      let ev = eval-mk_bv_value ρ d i small in
      let sv = size-mk_bv_value d i in
      (
        ground (
          arith,
          b,
          one,
          eu,
          su,
          ev,
          sv,
          eval-mk_binary ρ equal t u,
          is_bool-mk_binary equal t u,
          eval-mk_ite ρ k v r,
        ),
        size-mk_ite k v r ∙ sv,
      )

  eval-pick_down :
      (ρ : Env) (i d : ℕ) (x r : Term)
      → i ≤ size x
      → size x < 2 ^ d
      → size r ≡ d
      → IsLowest (eval ρ x) (size x) i (eval ρ r)
      → IsLowest (eval ρ x) (size x) 0 (eval ρ (pick_down i d x r)) × (size (pick_down i d x r) ≡ d)
  unfolding pick_down
  eval-pick_down ρ zero d x r fits small width h = (h, width)
  eval-pick_down ρ (suc i) d x r fits small width h =
      let (e, width') = eval-pick_bit ρ d x i r (omega arith) (omega arith) width in
      eval-pick_down ρ i d x (pick_bit d x i i r) (omega arith) small width'
        (rw e (IsLowest-step (eval ρ x) (size x) i (eval ρ r) (omega arith) h))

  -- On an operand of the result's width, below 256 bits, cttz returns the place of the lowest bit
  -- that is set, or the width where none is.
  pub cttz_sound :
      (ρ : Env) (a b c : Value) (w : ℕ)
      → 0 < w
      → w < 256
      → size a.term ≡ w
      → (v : Value) × (handle_llvm_intrinsics cttz a b c w ≡ ok v)
        × IsLowest (eval ρ a.term) w 0 (eval ρ v.term)
  unfolding handle_llvm_intrinsics cttz_term
  cttz_sound ρ a b c w pos small ea =
      let u : u8 w ≡ w = mod-eq_of_lt small in
      let n = size a.term in
      let fits : n < 2 ^ u8 w = rw (u, ea) (lt-pow w) in
      let start : eval ρ (mk_bv_value (u8 w) n) ≡ n = eval-mk_bv_value ρ (u8 w) n fits in
      let (lowest, width) =
        eval-pick_down ρ n (u8 w) a.term (mk_bv_value (u8 w) n) (omega arith) fits
          (size-mk_bv_value (u8 w) n)
          (rw start (record {
            above = omega arith;
            below = omega arith;
            clear = λ j p q. absurd (omega (arith, p, q));
            is_set = λ q. absurd (omega (arith, q));
          })) in
      (value (cttz_term (u8 w) a.term), ground (arith, width), IsLowest-width _ n w _ ea lowest)
