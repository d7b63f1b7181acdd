-- ===== src/Value/Possible.antt =====
-- src/value/value.cpp, `possible_values`: the enumeration of the values that a term can take.
use vexa.Prelude.{
  ℕ, zero, suc, ◌+◌, ◌≤◌, ◌≡◌, ◌≢◌, ◌⊎◌, inl, inr, sym, true, List, [], ◌∷◌, ◌++◌, ◌==◌, All, Any,
  AllPairs, All-append, Any-append_left, Any-append_right, AllPairs-snoc, arith, Bool-cases, length,
  length-append,
}
use vexa.Terms.{Bitwuzla, Answer}
use vexa.Terms.Denote.{distinct}
use vexa.Value.{Value, solve_values, possible_values, max_values}
use vexa.Value.Simplify.{Meets, Meets-append, Meets-left, Meets-right, eval-distinct, Answer-cases}

module _ ⦃B : Bitwuzla⦄ where
  open B use {
    Term, Env, eval, size, is_value, value_of, mk_binary, check_sat, get_value, size-get_value,
    eval-get_value, is_value-get_value, check_sat-unsat, check_sat-sat, eval-value,
  }

  abbrev pub Taken : Env → Term → List Term → Type 0
  Taken ρ t solved = Any (λ c. eval ρ t ≡ eval ρ c) solved

  -- Either the assumptions still allow the assignment, or its value is already listed.
  solve_values_complete :
      (ρ : Env) (t : Term) (rounds : ℕ) (assumptions solved : List Term)
      → Taken ρ t solved ⊎ Meets ρ assumptions
      → let r = solve_values rounds t assumptions solved in Taken ρ t r.1 ⊎ Meets ρ r.0
  unfolding solve_values
  solve_values_complete ρ t zero assumptions solved h = h
  solve_values_complete ρ t (suc rounds) assumptions solved h =
      elim (Answer-cases (check_sat assumptions)) [
        | inl (m, e) ↦
            let next = get_value m t in
            let split : Taken ρ t (solved ++ next ∷ [])
                ⊎ Meets ρ (assumptions ++ mk_binary distinct t next ∷ []) =
              elim h [
                | inl old ↦ inl (Any-append_left _ solved (next ∷ []) old)
                | inr meets ↦ elim (Bool-cases (eval ρ t == eval m t)) [
                  | inl same ↦ inl (
                      Any-append_right _ solved (next ∷ [])
                        (inl (ground (arith, eval-get_value m ρ t))))
                  | inr differs ↦
                      inr (
                        Meets-append ρ assumptions _ meets
                          (ground (arith, eval-distinct ρ m t), tt))
                ]
              ] in
            rw (e, solve_values) (solve_values_complete ρ t rounds _ (solved ++ next ∷ []) split)
        | inr (inl e) ↦ rw (e, solve_values) h
        | inr (inr e) ↦ rw (e, solve_values) h
      ]

  -- Where `possible_values` ends with UNSAT, every value that the term takes under the
  -- constraints is in its list.
  pub possible_values_complete :
      (ρ : Env) (v : Value) (constraints : List Term)
      → Meets ρ constraints
      → (possible_values v constraints).1 ≡ Answer.unsat
      → Taken ρ v.term (possible_values v constraints).0
  unfolding possible_values
  possible_values_complete ρ v constraints meets none_left =
      elim (solve_values_complete ρ v.term max_values constraints [] (inr meets)) [
        | inl taken ↦ taken
        | inr more ↦ absurd (check_sat-unsat _ ρ none_left more)
      ]

  -- A listed term is a value, of the width of `t`, that `t` takes under the constraints.
  abbrev pub IsAttained : Term → List Term → Term → Type 0
  IsAttained t constraints c =
      (m : Env) × Meets m constraints
      × (is_value c ≡ true)
      × (size c ≡ size t)
      × (eval m t ≡ value_of c)

  abbrev pub Differ : Term → Term → Type 0
  Differ a b = value_of a ≢ value_of b

  record IsSolved (t : Term) (constraints assumptions solved : List Term) : Type 0 where
    attained : All (IsAttained t constraints) solved
    differ : AllPairs Differ solved
    extends : (m : Env) → Meets m assumptions → Meets m constraints
    excludes : (m : Env) → Meets m assumptions → All (λ c. value_of c ≢ eval m t) solved

  All-excludes :
      (m : Env) (t : Term) (next : Term) (solved : List Term)
      → value_of next ≡ eval m t
      → All (λ c. value_of c ≢ eval m t) solved
      → All (λ c. Differ c next) solved
  All-excludes m t next [] e h = tt
  All-excludes m t next (c ∷ solved) e h = (rw e h.0, All-excludes m t next solved e h.1)

  IsSolved-next :
      (t : Term) (constraints assumptions solved : List Term) (m : Env)
      → Meets m assumptions
      → value_of (get_value m t) ≡ eval m t
      → IsSolved t constraints assumptions solved
      → IsSolved t constraints
          (assumptions ++ mk_binary distinct t (get_value m t) ∷ [])
          (solved ++ get_value m t ∷ [])
  IsSolved-next t constraints assumptions solved m meets known h =
      let next = get_value m t in
      record {
        attained =
            All-append _ solved (next ∷ []) h.attained
              ((m, h.extends m meets, is_value-get_value m t, size-get_value m t, sym known), tt);
        differ =
            AllPairs-snoc Differ solved next h.differ
              (All-excludes m t next solved known (h.excludes m meets));
        extends = λ ρ p. h.extends ρ (Meets-left ρ assumptions _ p);
        excludes = λ ρ p.
            All-append _ solved (next ∷ []) (h.excludes ρ (Meets-left ρ assumptions _ p)) (
              (let apart = (Meets-right ρ assumptions _ p).0 in
                  ground (arith, eval-distinct ρ m t)),
              tt,
            );
      }

  solve_values-IsSolved :
      (t : Term) (constraints : List Term) (rounds : ℕ) (assumptions solved : List Term)
      → IsSolved t constraints assumptions solved
      → let r = solve_values rounds t assumptions solved in
        IsSolved t constraints r.0 r.1 × (length r.1 ≤ length solved + rounds)
  unfolding solve_values
  solve_values-IsSolved t constraints zero assumptions solved h = (h, omega arith)
  solve_values-IsSolved t constraints (suc rounds) assumptions solved h =
      elim (Answer-cases (check_sat assumptions)) [
        | inl (m, e) ↦
            let next = get_value m t in
            let meets = check_sat-sat assumptions m e in
            let known : value_of next ≡ eval m t =
              ground (arith, eval-get_value m m t, eval-value m next, is_value-get_value m t) in
            let h' = IsSolved-next t constraints assumptions solved m meets known h in
            let rest = solve_values-IsSolved t constraints rounds _ (solved ++ next ∷ []) h' in
            rw (e, solve_values) (rest.0, omega (arith, rest.1, length-append solved (next ∷ [])))
        | inr (inl e) ↦ rw (e, solve_values) (h, omega arith)
        | inr (inr e) ↦ rw (e, solve_values) (h, omega arith)
      ]

  -- Every listed value is taken under the constraints, no two are equal, and there are at most
  -- twenty.
  pub possible_values_sound :
      (v : Value) (constraints : List Term)
      → All (IsAttained v.term constraints) (possible_values v constraints).0
        × AllPairs Differ (possible_values v constraints).0
        × (length (possible_values v constraints).0 ≤ 20)
  unfolding possible_values
  possible_values_sound v constraints =
      let start : IsSolved v.term constraints constraints [] = record {
        attained = tt;
        differ = tt;
        extends = λ m h. h;
        excludes = λ m h. tt;
      } in
      let (s, n) = solve_values-IsSolved v.term constraints max_values constraints [] start in
      (s.attained, s.differ, n)
