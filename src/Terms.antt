-- ===== src/Terms.antt =====
-- Bitwuzla, the SMT solver behind every `vexa::value` (include/vexa/value/value.hpp), as an
-- interface: terms with their sorts, the term manager's constructors, and the solver's queries.
-- The laws are the semantics of SMT-LIB bit-vectors and the documented meaning of the queries.
-- Nothing here is code of the repository: every definition of it takes a `Bitwuzla`.
pub mod Denote
pub mod Trees
use vexa.Prelude.{
  ℕ, ◌+◌, ◌-◌, ◌/◌, ◌%◌, ◌^◌, ◌<◌, ◌≤◌, ◌≡◌, ◌≢◌, Bool, true, false, List, ◌==◌, if◌then◌else◌, All,
}
use Denote.{Unary, Binary, bool_not, wrap, denote_unary, denote_binary, sign_extend}
use Denote.{size_unary, size_binary, is_comparison, sizes_fit}

-- `bw::Result`; a SAT answer carries the model that `get_value` then reads.
pub data Answer (Env : Type 0) : Type 0 where
  sat : Env → Answer Env
  unsat unknown : Answer Env

pub record Bitwuzla : Type 1 where
  pub Term : Type 0
  -- an assignment of the constants
  pub Env : Type 0
  -- the value of a term; a Boolean is 0 or 1
  pub eval : Env → Term → ℕ
  -- `sort().bv_size()`; a Boolean counts as one bit
  pub size : Term → ℕ
  pub is_bool : Term → Bool
  pub is_value : Term → Bool
  -- `value<std::string>(10)`, as the number that it prints
  pub value_of : Term → ℕ
  pub term_eq : Term → Term → Bool
  -- `mk_const(sort, name)` makes a new constant at each call: the count of calls tells them apart.
  pub mk_const : ℕ → ℕ → Term
  -- `mk_bv_value_uint64(sort, n)`, and `mk_bv_one`, `mk_bv_zero`: the width, then the number
  pub mk_bv_value : ℕ → ℕ → Term
  pub mk_unary : Unary → Term → Term
  pub mk_binary : Binary → Term → Term → Term
  pub mk_ite : Term → Term → Term → Term
  -- high bit, low bit
  pub mk_extract : ℕ → ℕ → Term → Term
  pub mk_zero_extend : ℕ → Term → Term
  pub mk_sign_extend : ℕ → Term → Term
  -- the solver
  pub check_sat : List Term → Answer Env
  pub get_value : Env → Term → Term
  pub simplify : Term → Term
  pub eval_lt : (ρ : Env) (t : Term) → eval ρ t < 2 ^ size t
  pub eval-value : (ρ : Env) (t : Term) → is_value t ≡ true → eval ρ t ≡ value_of t
  pub term_eq_sound : (a b : Term) → term_eq a b ≡ true → a ≡ b
  pub size-mk_const : (i w : ℕ) → size (mk_const i w) ≡ w
  pub size-mk_bv_value : (w n : ℕ) → size (mk_bv_value w n) ≡ w
  pub is_value-mk_bv_value : (w n : ℕ) → is_value (mk_bv_value w n) ≡ true
  pub is_bool-mk_bv_value : (w n : ℕ) → is_bool (mk_bv_value w n) ≡ false
  pub eval-mk_bv_value : (ρ : Env) (w n : ℕ) → n < 2 ^ w → eval ρ (mk_bv_value w n) ≡ n
  pub size-mk_unary : (k : Unary) (a : Term) → size (mk_unary k a) ≡ size_unary k (size a)
  pub is_bool-mk_not : (a : Term) → is_bool (mk_unary bool_not a) ≡ true
  pub eval-mk_unary :
      (ρ : Env) (k : Unary) (a : Term) → eval ρ (mk_unary k a) ≡ denote_unary k (size a) (eval ρ a)
  pub size-mk_binary :
      (k : Binary) (a b : Term) → size (mk_binary k a b) ≡ size_binary k (size a) (size b)
  pub is_bool-mk_binary : (k : Binary) (a b : Term) → is_bool (mk_binary k a b) ≡ is_comparison k
  pub eval-mk_binary :
      (ρ : Env) (k : Binary) (a b : Term)
      → sizes_fit k (size a) (size b) ≡ true
      → eval ρ (mk_binary k a b) ≡ denote_binary k (size a) (size b) (eval ρ a) (eval ρ b)
  pub size-mk_ite : (c a b : Term) → size (mk_ite c a b) ≡ size a
  pub eval-mk_ite :
      (ρ : Env) (c a b : Term)
      → is_bool c ≡ true
      → size a ≡ size b
      → eval ρ (mk_ite c a b) ≡ (if eval ρ c == 0 then eval ρ b else eval ρ a)
  pub size-mk_extract :
      (high low : ℕ) (a : Term)
      → low ≤ high
      → high < size a
      → size (mk_extract high low a) ≡ high + 1 - low
  pub eval-mk_extract :
      (ρ : Env) (high low : ℕ) (a : Term)
      → low ≤ high
      → high < size a
      → eval ρ (mk_extract high low a) ≡ wrap (high + 1 - low) (eval ρ a / 2 ^ low)
  pub size-mk_zero_extend : (n : ℕ) (a : Term) → size (mk_zero_extend n a) ≡ size a + n
  pub eval-mk_zero_extend : (ρ : Env) (n : ℕ) (a : Term) → eval ρ (mk_zero_extend n a) ≡ eval ρ a
  pub size-mk_sign_extend : (n : ℕ) (a : Term) → size (mk_sign_extend n a) ≡ size a + n
  pub eval-mk_sign_extend :
      (ρ : Env) (n : ℕ) (a : Term) → eval ρ (mk_sign_extend n a) ≡ sign_extend (size a) n (eval ρ a)
  pub check_sat-sat :
      (l : List Term) (ρ : Env) → check_sat l ≡ Answer.sat ρ → All (λ t. eval ρ t ≢ 0) l
  pub check_sat-unsat :
      (l : List Term) (ρ : Env) → check_sat l ≡ Answer.unsat → ¬ (All (λ t. eval ρ t ≢ 0) l)
  pub size-get_value : (ρ : Env) (t : Term) → size (get_value ρ t) ≡ size t
  pub is_value-get_value : (ρ : Env) (t : Term) → is_value (get_value ρ t) ≡ true
  pub eval-get_value : (ρ σ : Env) (t : Term) → eval σ (get_value ρ t) ≡ eval ρ t
  pub size-simplify : (t : Term) → size (simplify t) ≡ size t
  pub is_bool-simplify : (t : Term) → is_bool (simplify t) ≡ is_bool t
  pub eval-simplify : (ρ : Env) (t : Term) → eval ρ (simplify t) ≡ eval ρ t
