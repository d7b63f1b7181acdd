-- ===== src/Value.antt =====
-- src/value/value.cpp and src/symex/symex.cpp: symbolic values over solver terms.
-- A `vexa::value` is immutable here: `simplify` returns the simplified value where the source
-- updates the object in place, with a term of the same meaning.
pub mod Simplify
pub mod Possible
use vexa.Prelude.{
  ℕ, zero, suc, ◌%◌, ◌^◌, Bool, true, false, not, List, [], ◌∷◌, ◌++◌, Option, none, some, Result,
  ok, throw, leb, if◌then◌else◌,
}
use vexa.Terms.{Bitwuzla, Answer}
use vexa.Terms.Denote.{Unary, Binary, bool_not, bv_neg, bv_not}
use vexa.Terms.Denote.{
  bv_add, bv_sub, bv_mul, bv_sdiv, bv_srem, bv_udiv, bv_urem, bv_and, bv_or, bv_xor, bv_shl, bv_shr,
  bv_ashr, bv_concat, equal, distinct, bv_slt, bv_sle, bv_sgt, bv_sge, bv_ult, bv_ule, bv_ugt,
  bv_uge,
}

-- the operators and named methods of `vexa::value` that take one more value
pub data Operator : Type 0 where
  plus minus times divide remainder and or xor shift_left shift_right : Operator
  eq ne lt le gt ge udiv urem lshr ult ule ugt uge concat : Operator

abbrev pub kind_of : Operator → Binary
kind_of plus = bv_add
kind_of minus = bv_sub
kind_of times = bv_mul
kind_of divide = bv_sdiv
kind_of remainder = bv_srem
kind_of and = bv_and
kind_of or = bv_or
kind_of xor = bv_xor
kind_of shift_left = bv_shl
kind_of shift_right = bv_ashr
kind_of eq = equal
kind_of ne = distinct
kind_of lt = bv_slt
kind_of le = bv_sle
kind_of gt = bv_sgt
kind_of ge = bv_sge
kind_of udiv = bv_udiv
kind_of urem = bv_urem
kind_of lshr = bv_shr
kind_of ult = bv_ult
kind_of ule = bv_ule
kind_of ugt = bv_ugt
kind_of uge = bv_uge
kind_of concat = bv_concat

module _ ⦃B : Bitwuzla⦄ where
  open B use {
    Term, Env, size, is_bool, is_value, value_of, mk_const, mk_bv_value, mk_unary, mk_binary,
    mk_ite, mk_extract, mk_zero_extend, mk_sign_extend, check_sat, get_value,
  }

  -- A value of kind `pointer` has the page that it points into.
  pub record Value : Type 0 where
    pub term : Term
    pub simplified : Bool
    pub page : Option ℕ

  -- `symex::value(bw::Term)`
  abbrev pub value : Term → Value
  value e = record { term = e; simplified = is_value e; page = none }

  -- `symex::symbolic`: the count of the constants made so far, and the width
  abbrev pub symbolic : ℕ → ℕ → Value
  symbolic i w = value (mk_const i w)

  -- `symex::concrete(val, size)`
  abbrev pub concrete : ℕ → ℕ → Value
  concrete n w = value (mk_bv_value w n)

  -- `symex::pointer(value, page)`
  abbrev pub pointer : Value → ℕ → Value
  pointer v p = record v { page = some p }

  abbrev pub is_concrete : Value → Bool
  is_concrete v = is_value v.term

  abbrev pub is_symbolic : Value → Bool
  is_symbolic v = not (is_value v.term)

  -- the static `as_uint64(term)`: a value wider than 64 bits is cut
  abbrev pub term_as_uint64 : Term → ℕ
  term_as_uint64 t = if leb (size t) 64 then value_of t else value_of t % 2 ^ 64

  unfoldable pub as_uint64 : Value → Result ℕ
  as_uint64 v = if is_concrete v then ok (term_as_uint64 v.term) else throw

  unfoldable pub as_expr_bool : Value → Term
  as_expr_bool v =
      if is_bool v.term then v.term else mk_binary equal v.term (mk_bv_value (size v.term) 1)

  abbrev pub unary : Unary → Value → Value
  unary op v = value (mk_unary op v.term)

  abbrev pub binary : Binary → Value → Value → Value
  binary op v rhs = value (mk_binary op v.term rhs.term)

  -- `lhs op rhs`, or `lhs->method(rhs)`
  unfoldable pub operate : Operator → Value → Value → Value
  operate op lhs rhs = binary (kind_of op) lhs rhs

  -- `!v`, `-v`, `~v`
  unfoldable pub logical_not : Value → Value
  unfolding as_expr_bool
  logical_not v = value (mk_unary bool_not (as_expr_bool v))

  unfoldable pub negative : Value → Value
  negative v = unary bv_neg v

  unfoldable pub bitwise_not : Value → Value
  bitwise_not v = unary bv_not v

  abbrev pub extract : ℕ → ℕ → Value → Value
  extract high low v = value (mk_extract high low v.term)

  abbrev pub zext : ℕ → Value → Value
  zext amount v = value (mk_zero_extend amount v.term)

  abbrev pub sext : ℕ → Value → Value
  sext amount v = value (mk_sign_extend amount v.term)

  unfoldable pub ite : Value → Value → Value → Value
  unfolding as_expr_bool
  ite c then_value else_value = value (mk_ite (as_expr_bool c) then_value.term else_value.term)

  -- `simplify()`
  unfoldable pub simplify : Value → Value
  simplify v = if v.simplified then v else record v { term = B.simplify v.term; simplified = true }

  -- `simplify(constraints)`: the only value that the constraints leave, if they leave one.
  unfoldable pub simplify_under : Value → List Term → Value
  unfolding simplify
  simplify_under v constraints =
      let v' = simplify v in
      if is_concrete v' then v' else elim (check_sat constraints) [
        | Answer.sat m ↦
            let candidate = get_value m v'.term in
            elim (check_sat (constraints ++ mk_binary distinct v'.term candidate ∷ [])) [
              | Answer.unsat ↦ value candidate
              | _ ↦ v'
            ]
        | _ ↦ v'
      ]

  -- The loop of `possible_values`, with the rounds left: the assumptions and the solved values.
  unfoldable pub solve_values : ℕ → Term → List Term → List Term → List Term × List Term
  solve_values zero t assumptions solved = (assumptions, solved)
  solve_values (suc rounds) t assumptions solved = elim (check_sat assumptions) [
    | Answer.sat m ↦
        let evaluated = get_value m t in
        solve_values rounds t (assumptions ++ mk_binary distinct t evaluated ∷ [])
          (solved ++ evaluated ∷ [])
    | _ ↦ (assumptions, solved)
  ]

  abbrev pub max_values : ℕ
  max_values = 20

  -- The values, and the answer to the last query: UNSAT where there is no further value.
  unfoldable pub possible_values : Value → List Term → List Term × Answer Env
  unfolding solve_values
  possible_values v constraints =
      let (assumptions, solved) = solve_values max_values v.term constraints [] in
      (solved, check_sat assumptions)
