-- ===== src/Emulator/Compare.antt =====
-- src/arch/emulator.cpp, `visitICmpInst`: the comparisons, beside their meaning in LLVM.
use native.Mathlib.Nat.{pow-suc}
use vexa.Prelude.{
  ℕ, suc, ◌+◌, ◌-◌, ◌^◌, ◌<◌, ◌≡◌, ◌≢◌, refl, ◌∙◌, ap, Bool, true, false, not, Result, ok, ltb, leb,
  ◌==◌, if◌then◌else◌, arith,
}
use vexa.Terms.{Bitwuzla}
use vexa.Terms.Denote.{flag, is_negative, signed_lt, denote_binary, Binary, sizes_fit}
use vexa.Terms.Denote.{
  equal, distinct, bv_slt, bv_sle, bv_sgt, bv_sge, bv_ult, bv_ule, bv_ugt, bv_uge,
}
use vexa.Value.{Value, value, operate}
use vexa.Emulator.{Predicate, visit_icmp_inst}

-- The place of a two's complement number among the integers of its width, counted from the least.
abbrev pub signed_rank : ℕ → ℕ → ℕ
signed_rank w a = if is_negative w a then a - 2 ^ (w - 1) else a + 2 ^ (w - 1)

-- What LLVM says of the comparison of two numbers of w bits.
abbrev pub llvm_icmp : Predicate → ℕ → ℕ → ℕ → Bool
llvm_icmp Predicate.eq w a b = a == b
llvm_icmp Predicate.ne w a b = not (a == b)
llvm_icmp Predicate.ugt w a b = ltb b a
llvm_icmp Predicate.uge w a b = leb b a
llvm_icmp Predicate.ult w a b = ltb a b
llvm_icmp Predicate.ule w a b = leb a b
llvm_icmp Predicate.sgt w a b = ltb (signed_rank w b) (signed_rank w a)
llvm_icmp Predicate.sge w a b = leb (signed_rank w b) (signed_rank w a)
llvm_icmp Predicate.slt w a b = ltb (signed_rank w a) (signed_rank w b)
llvm_icmp Predicate.sle w a b = leb (signed_rank w a) (signed_rank w b)
llvm_icmp Predicate.unsupported w a b = false

pub half_pow : (w : ℕ) → 0 < w → 2 ^ w ≡ 2 ^ (w - 1) + 2 ^ (w - 1)
half_pow w h =
    let e : w ≡ suc (w - 1) = omega arith in
    ap (λ (k : ℕ). 2 ^ k) e ∙ omega (arith, pow-suc 2 (w - 1))

signed_lt-rank :
    (w a b : ℕ)
    → 0 < w
    → a < 2 ^ w
    → b < 2 ^ w
    → signed_lt w a b ≡ ltb (signed_rank w a) (signed_rank w b)
signed_lt-rank w a b h p q = ground (arith, half_pow w h)

module _ ⦃B : Bitwuzla⦄ where
  open B use {
    Env, eval, eval_lt, size, eval-mk_binary, is_bool-mk_binary, size-mk_bv_value, eval-mk_bv_value,
    eval-mk_ite, size-mk_ite, mk_ite, mk_bv_value, mk_binary,
  }

  -- The one-bit value of a Boolean term.
  pub eval-bit :
      (ρ : Env) (k : Binary) (lhs rhs : Value) (b : Bool)
      → size lhs.term ≡ size rhs.term
      → sizes_fit k (size lhs.term) (size rhs.term) ≡ true
      → B.is_bool (mk_binary k lhs.term rhs.term) ≡ true
      → denote_binary k (size lhs.term) (size rhs.term) (eval ρ lhs.term) (eval ρ rhs.term) ≡ flag b
      → (eval ρ (mk_ite (mk_binary k lhs.term rhs.term) (mk_bv_value 1 1) (mk_bv_value 1 0))
          ≡ flag b)
        × (size (mk_ite (mk_binary k lhs.term rhs.term) (mk_bv_value 1 1) (mk_bv_value 1 0)) ≡ 1)
  eval-bit ρ k lhs rhs b same fits bool e = ground (
    arith,
    eval-mk_binary ρ k lhs.term rhs.term,
    eval-mk_ite ρ (mk_binary k lhs.term rhs.term) (mk_bv_value 1 1) (mk_bv_value 1 0),
    size-mk_ite (mk_binary k lhs.term rhs.term) (mk_bv_value 1 1) (mk_bv_value 1 0),
    size-mk_bv_value 1 1,
    size-mk_bv_value 1 0,
    eval-mk_bv_value ρ 1 1 (omega arith),
    eval-mk_bv_value ρ 1 0 (omega arith),
  )

  abbrev IsBit : Env → Result Value → Bool → Type 0
  IsBit ρ r b = (v : Value) × (r ≡ ok v) × (eval ρ v.term ≡ flag b) × (size v.term ≡ 1)

  module _ (ρ : Env) (lhs rhs : Value) (pos : 0 < size lhs.term)
      (same : size lhs.term ≡ size rhs.term) where
    icmp-IsBit :
        (k : Binary) (b : Bool)
        → sizes_fit k (size lhs.term) (size rhs.term) ≡ true
        → B.is_bool (mk_binary k lhs.term rhs.term) ≡ true
        → denote_binary k (size lhs.term) (size rhs.term) (eval ρ lhs.term) (eval ρ rhs.term)
          ≡ flag b
        → IsBit ρ
            (ok
              (value (mk_ite (mk_binary k lhs.term rhs.term) (mk_bv_value 1 1) (mk_bv_value 1 0))))
            b
    icmp-IsBit k b fits bool e =
        let (bit, one) = eval-bit ρ k lhs rhs b same fits bool e in (_, refl, bit, one)

    rank :
        signed_lt (size lhs.term) (eval ρ lhs.term) (eval ρ rhs.term)
        ≡ ltb
            (signed_rank (size lhs.term) (eval ρ lhs.term))
            (signed_rank (size lhs.term) (eval ρ rhs.term))
    rank = signed_lt-rank _ _ _ pos (eval_lt ρ lhs.term) (rw same (eval_lt ρ rhs.term))

    rank_swapped :
        signed_lt (size lhs.term) (eval ρ rhs.term) (eval ρ lhs.term)
        ≡ ltb
            (signed_rank (size lhs.term) (eval ρ rhs.term))
            (signed_rank (size lhs.term) (eval ρ lhs.term))
    rank_swapped = signed_lt-rank _ _ _ pos (rw same (eval_lt ρ rhs.term)) (eval_lt ρ lhs.term)

  not-ltb : (a b : ℕ) → not (ltb a b) ≡ leb b a
  not-ltb a b = ground arith

  -- On two operands of one width, `visitICmpInst` returns one bit, which is set exactly if LLVM's
  -- comparison of their values holds; the predicate is one of the integer ones.
  pub visit_icmp_inst_sound :
      (ρ : Env) (p : Predicate) (lhs rhs : Value)
      → 0 < size lhs.term
      → size lhs.term ≡ size rhs.term
      → p ≢ Predicate.unsupported
      → (v : Value) × (visit_icmp_inst p lhs rhs ≡ ok v)
        × (eval ρ v.term ≡ flag (llvm_icmp p (size lhs.term) (eval ρ lhs.term) (eval ρ rhs.term)))
        × (size v.term ≡ 1)
  unfolding visit_icmp_inst operate
  visit_icmp_inst_sound ρ Predicate.eq l r pos same known =
      icmp-IsBit ρ l r pos same equal _ (ground arith) (is_bool-mk_binary equal _ _) refl
  visit_icmp_inst_sound ρ Predicate.ne l r pos same known =
      icmp-IsBit ρ l r pos same distinct _ (ground arith) (is_bool-mk_binary distinct _ _) refl
  visit_icmp_inst_sound ρ Predicate.ugt l r pos same known =
      icmp-IsBit ρ l r pos same bv_ugt _ (ground arith) (is_bool-mk_binary bv_ugt _ _) refl
  visit_icmp_inst_sound ρ Predicate.uge l r pos same known =
      icmp-IsBit ρ l r pos same bv_uge _ (ground arith) (is_bool-mk_binary bv_uge _ _) refl
  visit_icmp_inst_sound ρ Predicate.ult l r pos same known =
      icmp-IsBit ρ l r pos same bv_ult _ (ground arith) (is_bool-mk_binary bv_ult _ _) refl
  visit_icmp_inst_sound ρ Predicate.ule l r pos same known =
      icmp-IsBit ρ l r pos same bv_ule _ (ground arith) (is_bool-mk_binary bv_ule _ _) refl
  visit_icmp_inst_sound ρ Predicate.sgt l r pos same known =
      icmp-IsBit ρ l r pos same bv_sgt _ (ground arith) (is_bool-mk_binary bv_sgt _ _)
        (ap flag (rank_swapped ρ l r pos same))
  visit_icmp_inst_sound ρ Predicate.sge l r pos same known =
      icmp-IsBit ρ l r pos same bv_sge _ (ground arith) (is_bool-mk_binary bv_sge _ _)
        (ap (λ b. flag (not b)) (rank ρ l r pos same) ∙ ap flag (not-ltb _ _))
  visit_icmp_inst_sound ρ Predicate.slt l r pos same known =
      icmp-IsBit ρ l r pos same bv_slt _ (ground arith) (is_bool-mk_binary bv_slt _ _)
        (ap flag (rank ρ l r pos same))
  visit_icmp_inst_sound ρ Predicate.sle l r pos same known =
      icmp-IsBit ρ l r pos same bv_sle _ (ground arith) (is_bool-mk_binary bv_sle _ _)
        (ap (λ b. flag (not b)) (rank_swapped ρ l r pos same) ∙ ap flag (not-ltb _ _))
  visit_icmp_inst_sound ρ Predicate.unsupported l r pos same known = absurd (known refl)
