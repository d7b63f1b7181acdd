-- ===== src/Cpu/Forks.antt =====
-- src/arch/arch.cpp, `branching` and `opaque_solver`: the paths that an input takes.
use vexa.Prelude.{
  ℕ, zero, suc, ◌≡◌, ◌≢◌, ◌⊎◌, inl, inr, refl, sym, ◌∙◌, Bool, true, false, List, [], ◌∷◌, ◌++◌,
  Option, none, some, ◌==◌, if◌then◌else◌, arith, Any, Bool-cases,
}
use vexa.Terms.{Bitwuzla}
use vexa.Terms.Denote.{flag, bool_not}
use vexa.Value.{Value, as_expr_bool, logical_not, simplify, is_concrete, term_as_uint64}
use vexa.Value.Simplify.{
  Meets, Meets-append, eval-as_expr_bool, eval-simplify_value, size-simplify_value,
}
use vexa.Cpu.{EventKind, Snapshot, Cpu, is_taken, opaque_solver, take_snapshot, restore_snapshot}
use vexa.Cpu.Paths.{
  Host, branching, take_branch, fall_through, fork, save_fallthrough, solve_cpu_context, branch_on,
}

module _ ⦃B : Bitwuzla⦄ where
  open B use {
    Term, Env, eval, eval-value, eval_lt, size, is_bool, value_of, is_bool-mk_not, eval-mk_unary,
    mk_unary, size-mk_unary,
  }

  eval-logical_not :
      (ρ : Env) (v : Value)
      → size v.term ≡ 1
      → eval ρ (logical_not v).term ≡ flag (eval ρ v.term == 0)
  unfolding logical_not
  eval-logical_not ρ v one =
      let (_, e) = eval-as_expr_bool ρ v one in
      eval-mk_unary ρ bool_not (as_expr_bool v) ∙ rw e refl

  -- The state explores `pc` under `ρ`, now or in a saved path.
  abbrev pub Follows : Env → ℕ → Cpu → Type 0
  Follows ρ pc s =
      ((s.pc ≡ pc) × Meets ρ s.path_constraints)
      ⊎ Any (λ (ss : Snapshot). (ss.pc ≡ pc) × Meets ρ ss.path_constraints) s.unexplored_paths

  -- The user's callbacks change neither the program counter nor the paths.
  pub record HandlerKeeps (H : Host) : Type 0 where
    pub same_pc : (k : EventKind) (s : Cpu) → (H.event_handler k s).pc ≡ s.pc
    pub same_constraints :
        (k : EventKind) (s : Cpu) → (H.event_handler k s).path_constraints ≡ s.path_constraints
    pub same_paths :
        (k : EventKind) (s : Cpu) → (H.event_handler k s).unexplored_paths ≡ s.unexplored_paths

  pub Follows-event_handler :
      (H : Host) (k : EventKind) (ρ : Env) (pc : ℕ) (s : Cpu)
      → HandlerKeeps H
      → Follows ρ pc s
      → Follows ρ pc (H.event_handler k s)
  Follows-event_handler H k ρ pc s keeps f =
      rw (keeps.same_pc k s, keeps.same_constraints k s, keeps.same_paths k s) f

  Meets-snoc :
      (ρ : Env) (constraints : List Term) (e : Term)
      → Meets ρ constraints
      → eval ρ e ≢ 0
      → Meets ρ (constraints ++ e ∷ [])
  Meets-snoc ρ constraints e meets h = Meets-append ρ constraints (e ∷ []) meets (h, tt)

  -- Where `ρ` goes.
  abbrev pub destination : Env → Value → ℕ → ℕ → ℕ
  destination ρ condition jump_pc fallthrough_pc =
      if eval ρ condition.term == 0 then fallthrough_pc else jump_pc

  fork-Follows :
      (H : Host) (ρ : Env) (c : Value) (jump_pc fallthrough_pc : ℕ) (s : Cpu)
      → size c.term ≡ 1
      → Meets ρ s.path_constraints
      → Follows ρ (destination ρ c jump_pc fallthrough_pc) (fork H c jump_pc fallthrough_pc s)
  unfolding fork save_fallthrough solve_cpu_context restore_snapshot take_snapshot
  fork-Follows H ρ c jump_pc fallthrough_pc s one meets =
      let no = eval-logical_not ρ c one in
      let (_, set_) = eval-as_expr_bool ρ c one in
      elim (Bool-cases (eval ρ c.term == 0)) [
        | inl zero_ ↦ rw zero_ (
            inr (
              inl (
                refl,
                Meets-snoc ρ s.path_constraints (logical_not c).term meets
                    (λ h. ground (arith, no, h, zero_)),
              )))
        | inr other ↦ rw other (
            inl (
              refl,
              Meets-snoc ρ s.path_constraints (as_expr_bool c) meets
                  (λ h. ground (arith, set_, h, other)),
            ))
      ]

  take_branch-Follows :
      (H : Host) (ρ : Env) (c : Value) (jump_pc : ℕ) (s : Cpu)
      → HandlerKeeps H
      → size c.term ≡ 1
      → Meets ρ s.path_constraints
      → eval ρ c.term ≢ 0
      → Follows ρ jump_pc (take_branch H c jump_pc s)
  unfolding take_branch
  take_branch-Follows H ρ c jump_pc s keeps one meets taken =
      let (_, set_) = eval-as_expr_bool ρ c one in
      Follows-event_handler H _ ρ jump_pc _ keeps (
        inl (
          refl,
          Meets-snoc ρ s.path_constraints (as_expr_bool c) meets (λ h. taken (sym set_ ∙ h)),
        ))

  fall_through-Follows :
      (H : Host) (ρ : Env) (c : Value) (pc : ℕ) (s : Cpu)
      → HandlerKeeps H
      → size c.term ≡ 1
      → Meets ρ s.path_constraints
      → eval ρ c.term ≡ 0
      → Follows ρ pc (fall_through H c pc s)
  unfolding fall_through
  fall_through-Follows H ρ c pc s keeps one meets not_taken =
      let no = eval-logical_not ρ c one in
      Follows-event_handler H _ ρ pc _ keeps (
        inl (
          refl,
          Meets-snoc ρ s.path_constraints (logical_not c).term meets
              (λ h. ground (arith, no, h, not_taken)),
        ))

  -- An answer is the condition's value under every assignment.
  abbrev pub IsAnswer : Value → Option Bool → Type 0
  IsAnswer c none = Unit
  IsAnswer c (some true) = (ρ : Env) → eval ρ c.term ≢ 0
  IsAnswer c (some false) = (ρ : Env) → eval ρ c.term ≡ 0

  is_taken-IsAnswer :
      (c : Value) (n : ℕ) → ((ρ : Env) → eval ρ c.term ≡ n) → IsAnswer c (some (is_taken n))
  is_taken-IsAnswer c zero h = h
  is_taken-IsAnswer c (suc n) h = λ ρ e. ground (arith, h ρ, e)

  answer_lem :
      (c : Value) (b : Bool)
      → size c.term ≡ 1
      → is_concrete c ≡ b
      → IsAnswer c (if b then some (is_taken (term_as_uint64 c.term)) else none)
  answer_lem c false one e = tt
  answer_lem c true one e =
      let whole : term_as_uint64 c.term ≡ value_of c.term = ground (arith, one) in
      is_taken-IsAnswer c (term_as_uint64 c.term) (λ ρ. eval-value ρ c.term e ∙ sym whole)

  pub opaque_solver_sound :
      (c : Value)
      → size c.term ≡ 1
      → let (c', solved) = opaque_solver c in
        ((ρ : Env) → eval ρ c'.term ≡ eval ρ c.term) × (size c'.term ≡ 1) × IsAnswer c' solved
  unfolding opaque_solver
  opaque_solver_sound c one =
      let width : size (simplify c).term ≡ 1 = size-simplify_value c ∙ one in
      (
        λ ρ. eval-simplify_value ρ c,
        width,
        answer_lem (simplify c) (is_concrete (simplify c)) width refl,
      )

  -- What `branching` does with an answer of the opaque solver.
  answered-Follows :
      (H : Host) (ρ : Env) (c : Value) (solved : Option Bool) (jump_pc fallthrough_pc : ℕ) (s : Cpu)
      → HandlerKeeps H
      → size c.term ≡ 1
      → IsAnswer c solved
      → Meets ρ s.path_constraints
      → Follows ρ
          (destination ρ c jump_pc fallthrough_pc)
          (branch_on H solved c jump_pc fallthrough_pc s)
  unfolding branch_on
  answered-Follows H ρ c none j f s keeps one answer meets =
      Follows-event_handler H _ ρ (destination ρ c j f) _ keeps (fork-Follows H ρ c j f s one meets)
  answered-Follows H ρ c (some true) j f s keeps one answer meets =
      let e : destination ρ c j f ≡ j = ground (arith, answer ρ) in
      rw e (take_branch-Follows H ρ c j s keeps one meets (answer ρ))
  answered-Follows H ρ c (some false) j f s keeps one answer meets =
      let e : destination ρ c j f ≡ f = ground (arith, answer ρ) in
      rw e (fall_through-Follows H ρ c f s keeps one meets (answer ρ))

  -- Where callbacks change neither the program counter nor the paths, and the condition has one
  -- bit: for every assignment that meets the path constraints, after `branching` the side that the
  -- condition takes there is the current path or a saved one, under constraints that the
  -- assignment meets, whether the branch forked or was solved as an opaque predicate.
  pub branching_sound :
      (H : Host) (ρ : Env) (c : Value) (jump_pc fallthrough_pc : ℕ) (s : Cpu)
      → HandlerKeeps H
      → size c.term ≡ 1
      → Meets ρ s.path_constraints
      → Follows ρ (destination ρ c jump_pc fallthrough_pc) (branching H c jump_pc fallthrough_pc s)
  unfolding branching
  branching_sound H ρ c j f s keeps one meets =
      let (same, width, answer) = opaque_solver_sound c one in
      elim (Bool-cases H.options.opaque_solving) [
        | inl on ↦
            rw (on, ← same ρ)
              (answered-Follows H ρ (opaque_solver c).0 (opaque_solver c).1 j f s keeps width answer
                meets)
        | inr off ↦ rw off (answered-Follows H ρ c none j f s keeps one tt meets)
      ]
