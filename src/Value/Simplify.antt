-- ===== src/Value/Simplify.antt =====
-- src/value/value.cpp: what `simplify`, with and without constraints, and `ite` compute.
use vexa.Prelude.{
  ℕ, ◌^◌, ◌≡◌, ◌≢◌, ◌⊎◌, inl, inr, refl, ap, true, List, [], ◌∷◌, ◌++◌, ◌==◌, if◌then◌else◌, All,
  arith, Bool-cases,
}
use vexa.Terms.{Bitwuzla, Answer}
use vexa.Terms.Denote.{distinct, equal}
use vexa.Value.{Value, is_concrete, simplify, simplify_under, as_expr_bool, ite}

module _ ⦃B : Bitwuzla⦄ where
  open B use {
    Term, Env, eval, size, is_bool, is_value, mk_binary, mk_bv_value, check_sat, get_value,
    eval-simplify, size-simplify, eval-mk_binary, size-get_value, eval-get_value, check_sat-unsat,
    check_sat-sat, is_bool-mk_binary, eval-mk_bv_value, size-mk_bv_value, eval_lt, eval-mk_ite,
    is_bool-simplify,
  }

  pub Answer-cases :
      (a : Answer Env)
      → ((m : Env) × (a ≡ Answer.sat m)) ⊎ (a ≡ Answer.unsat) ⊎ (a ≡ Answer.unknown)
  Answer-cases (Answer.sat m) = inl (m, refl)
  Answer-cases Answer.unsat = inr (inl refl)
  Answer-cases Answer.unknown = inr (inr refl)

  -- The assignment meets the constraints.
  abbrev pub Meets : Env → List Term → Type 0
  Meets ρ constraints = All (λ t. eval ρ t ≢ 0) constraints

  pub Meets-append : (ρ : Env) (xs ys : List Term) → Meets ρ xs → Meets ρ ys → Meets ρ (xs ++ ys)
  Meets-append ρ [] ys p q = q
  Meets-append ρ (x ∷ xs) ys p q = (p.0, Meets-append ρ xs ys p.1 q)

  pub Meets-left : (ρ : Env) (xs ys : List Term) → Meets ρ (xs ++ ys) → Meets ρ xs
  Meets-left ρ [] ys p = tt
  Meets-left ρ (x ∷ xs) ys p = (p.0, Meets-left ρ xs ys p.1)

  pub Meets-right : (ρ : Env) (xs ys : List Term) → Meets ρ (xs ++ ys) → Meets ρ ys
  Meets-right ρ [] ys p = p
  Meets-right ρ (x ∷ xs) ys p = Meets-right ρ xs ys p.1

  pub eval-distinct :
      (ρ m : Env) (t : Term)
      → eval ρ (mk_binary distinct t (get_value m t)) ≡ (if eval ρ t == eval m t then 0 else 1)
  eval-distinct ρ m t =
      ground (
        arith,
        eval-mk_binary ρ distinct t (get_value m t),
        size-get_value m t,
        eval-get_value m ρ t,
      )

  pub eval-simplify_value : (ρ : Env) (v : Value) → eval ρ (simplify v).term ≡ eval ρ v.term
  unfolding simplify
  eval-simplify_value ρ v = ground (arith, eval-simplify ρ v.term)

  pub size-simplify_value : (v : Value) → size (simplify v).term ≡ size v.term
  unfolding simplify
  size-simplify_value v = ground (arith, size-simplify v.term)

  pub page-simplify_value : (v : Value) → (simplify v).page ≡ v.page
  unfolding simplify
  page-simplify_value v = ground arith

  -- If excluding the value under `m` leaves nothing, the term has that value.
  pub only_value :
      (ρ m : Env) (t : Term) (constraints : List Term)
      → Meets ρ constraints
      → check_sat (constraints ++ mk_binary distinct t (get_value m t) ∷ []) ≡ Answer.unsat
      → eval ρ t ≡ eval m t
  only_value ρ m t constraints meets none_left = elim (Bool-cases (eval ρ t == eval m t)) [
    | inl same ↦ ground arith
    | inr differs ↦
        let excluded : eval ρ (mk_binary distinct t (get_value m t)) ≢ 0 =
          ground (arith, eval-distinct ρ m t) in
        absurd (check_sat-unsat _ ρ none_left (Meets-append ρ constraints _ meets (excluded, tt)))
  ]

  -- Under an assignment that meets the constraints, `simplify(constraints)` keeps the value and
  -- the width of the term.
  pub simplify_under_sound :
      (ρ : Env) (v : Value) (constraints : List Term)
      → Meets ρ constraints
      → (eval ρ (simplify_under v constraints).term ≡ eval ρ v.term)
        × (size (simplify_under v constraints).term ≡ size v.term)
  unfolding simplify_under
  simplify_under_sound ρ v constraints meets =
      let kept = eval-simplify_value ρ v in
      let width = size-simplify_value v in
      let t = (simplify v).term in
      elim (Bool-cases (is_concrete (simplify v))) [
        | inl known ↦ rw known (kept, width)
        | inr open_ ↦ elim (Answer-cases (check_sat constraints)) [
          | inl (m, e) ↦
              let only = only_value ρ m t constraints meets in
              ground (arith, only, eval-get_value m ρ t, size-get_value m t)
          | inr other ↦ ground arith
        ]
      ]

  -- As a Boolean, a value of one bit is that bit.
  pub eval-as_expr_bool :
      (ρ : Env) (v : Value)
      → size v.term ≡ 1
      → (is_bool (as_expr_bool v) ≡ true) × (eval ρ (as_expr_bool v) ≡ eval ρ v.term)
  unfolding as_expr_bool
  eval-as_expr_bool ρ v one = ground (
    arith,
    is_bool-mk_binary equal v.term (mk_bv_value (size v.term) 1),
    eval-mk_binary ρ equal v.term (mk_bv_value (size v.term) 1),
    size-mk_bv_value (size v.term) 1,
    eval-mk_bv_value ρ (size v.term) 1,
    eval_lt ρ v.term,
    ap (λ (n : ℕ). 2 ^ n) one,
  )

  -- `cond->ite(a, b)` is the value of one of the two.
  pub ite_sound :
      (ρ : Env) (c a b : Value)
      → size c.term ≡ 1
      → size a.term ≡ size b.term
      → eval ρ (ite c a b).term ≡ (if eval ρ c.term == 0 then eval ρ b.term else eval ρ a.term)
  unfolding ite
  ite_sound ρ c a b one same =
      ground (arith, eval-mk_ite ρ (as_expr_bool c) a.term b.term, eval-as_expr_bool ρ c one)
