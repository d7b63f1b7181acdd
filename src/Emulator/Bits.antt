-- ===== src/Emulator/Bits.antt =====
-- src/arch/emulator.cpp, `handle_llvm_intrinsics`: what `ctpop` counts.
use native.Mathlib.Nat.{mod-eq_of_lt, mod-add-mod, pow-suc}
use vexa.Prelude.{
  ℕ, zero, suc, ◌+◌, ◌-◌, ◌/◌, ◌%◌, ◌^◌, ◌<◌, ◌≤◌, ◌≡◌, refl, ◌∙◌, ap, sym, ok, arith,
}
use vexa.Terms.{Bitwuzla}
use vexa.Terms.Denote.{wrap, bv_add}
use vexa.Value.{Value, value}
use vexa.Memory.{u8}
use vexa.Emulator.Intrinsics.{handle_llvm_intrinsics, ctpop, wide_bit, add_bits, ctpop_term}

abbrev pub bit : ℕ → ℕ → ℕ
bit x i = x / 2 ^ i % 2

-- The number of the bits below `n` that are set.
pub count_set : ℕ → ℕ → ℕ
count_set x zero = 0
count_set x (suc n) = bit x n + count_set x n

-- The same from bit `i` up.
count_up : ℕ → ℕ → ℕ → ℕ
count_up x i zero = 0
count_up x i (suc left) = bit x i + count_up x (i + 1) left

count_up_lem : (x i left : ℕ) → count_set x i + count_up x i left ≡ count_set x (i + left)
unfolding count_set count_up
count_up_lem x i zero = let e : i + 0 ≡ i = omega arith in rw e (omega arith)
count_up_lem x i (suc left) =
    let e : i + suc left ≡ i + 1 + left = omega arith in
    let next : i + 1 ≡ suc i = omega arith in
    let rest = count_up_lem x (i + 1) left in rw e (omega (arith, rest, ap (count_set x) next))

count_set-one : (x : ℕ) → count_set x 1 ≡ bit x 0
unfolding count_set
count_set-one x = omega arith

count_set-le : (x n : ℕ) → count_set x n ≤ n
unfolding count_set
count_set-le x zero = omega arith
count_set-le x (suc n) = omega (arith, count_set-le x n)

pub lt-pow : (n : ℕ) → n < 2 ^ n
lt-pow zero = omega arith
lt-pow (suc n) = omega (arith, lt-pow n, pow-suc 2 n)

module _ ⦃B : Bitwuzla⦄ where
  open B use {
    Term, Env, eval, eval_lt, size, eval-mk_binary, size-mk_binary, is_bool-mk_binary,
    size-mk_bv_value, eval-mk_bv_value, eval-mk_ite, size-mk_ite, eval-mk_extract, size-mk_extract,
    mk_extract, mk_binary, mk_bv_value, mk_ite, eval-mk_zero_extend, size-mk_zero_extend,
  }

  pub eval-extract_bit :
      (ρ : Env) (x : Term) (i : ℕ)
      → i < size x
      → (eval ρ (mk_extract i i x) ≡ bit (eval ρ x) i) × (size (mk_extract i i x) ≡ 1)
  eval-extract_bit ρ x i h =
      let one : i + 1 - i ≡ 1 = omega arith in
      (
        eval-mk_extract ρ i i x (omega arith) h ∙ rw one refl,
        size-mk_extract i i x (omega arith) h ∙ one,
      )

  eval-wide_bit :
      (ρ : Env) (d : ℕ) (x : Term) (i : ℕ)
      → 0 < d
      → i < size x
      → (eval ρ (wide_bit d x i) ≡ bit (eval ρ x) i) × (size (wide_bit d x i) ≡ d)
  unfolding wide_bit
  eval-wide_bit ρ d x i pos h =
      let (e, one) = eval-extract_bit ρ x i h in
      (
        eval-mk_zero_extend ρ (d - 1) (mk_extract i i x) ∙ e,
        omega (arith, size-mk_zero_extend (d - 1) (mk_extract i i x), one),
      )

  eval-add_bits :
      (ρ : Env) (left i d : ℕ) (x total : Term)
      → 0 < d
      → i + left ≤ size x
      → size total ≡ d
      → eval ρ (add_bits left i d x total) ≡ wrap d (eval ρ total + count_up (eval ρ x) i left)
  unfolding add_bits count_up
  eval-add_bits ρ zero i d x total pos fits width =
      let e : eval ρ total + 0 ≡ eval ρ total = omega arith in
      let small : eval ρ total < 2 ^ d = rw width at (eval_lt ρ total) in rw (e, mod-eq_of_lt small)
  eval-add_bits ρ (suc left) i d x total pos fits width =
      let (e, w) = eval-wide_bit ρ d x i pos (omega arith) in
      let b = wide_bit d x i in
      let sum = mk_binary bv_add total b in
      let wide : size sum ≡ d = size-mk_binary bv_add total b ∙ width in
      let added : eval ρ sum ≡ wrap d (eval ρ total + bit (eval ρ x) i) =
        eval-mk_binary ρ bv_add total b (ground arith) ∙ rw (width, e) refl in
      let count = count_up (eval ρ x) (i + 1) left in
      let e2 : eval ρ total + (bit (eval ρ x) i + count) ≡ eval ρ total + bit (eval ρ x) i + count =
        omega arith in
      eval-add_bits ρ left (i + 1) d x sum pos (omega arith) wide
      ∙ rw (added, e2) (mod-add-mod (eval ρ total + bit (eval ρ x) i) (2 ^ d) count)

  -- On an operand of the result's width, below 256 bits, ctpop returns the number of the bits that
  -- are set.
  pub ctpop_sound :
      (ρ : Env) (a b c : Value) (w : ℕ)
      → 0 < w
      → w < 256
      → size a.term ≡ w
      → (v : Value) × (handle_llvm_intrinsics ctpop a b c w ≡ ok v)
        × (eval ρ v.term ≡ count_set (eval ρ a.term) w)
  unfolding handle_llvm_intrinsics
  ctpop_sound ρ a b c w pos small ea =
      let u : u8 w ≡ w = mod-eq_of_lt small in
      let x = eval ρ a.term in
      let (e, width) = eval-wide_bit ρ w a.term 0 pos (omega arith) in
      let sum = eval-add_bits ρ (w - 1) 1 w a.term (wide_bit w a.term 0) pos (omega arith) width in
      let all : bit x 0 + count_up x 1 (w - 1) ≡ count_set x w =
        (let k : 1 + (w - 1) ≡ w = omega arith in
          ap (λ n. n + count_up x 1 (w - 1)) (sym (count_set-one x))
          ∙ count_up_lem x 1 (w - 1)
          ∙ ap (count_set x) k) in
      let bound : count_set x w < 2 ^ w = omega (arith, count_set-le x w, lt-pow w) in
      (
        value (ctpop_term (u8 w) a.term),
        ground arith,
        rw (u, ea, u) (sum ∙ rw (e, all) (mod-eq_of_lt bound)),
      )
