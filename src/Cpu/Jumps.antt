-- ===== src/Cpu/Jumps.antt =====
-- src/arch/arch.cpp, `lift_instruction`: an indirect jump.
use vexa.Prelude.{
  ◌^◌, ◌<◌, ◌≤◌, ◌≡◌, ◌⊎◌, inl, inr, refl, sym, ◌∙◌, true, List, [], ◌∷◌, ok, arith, All,
  Bool-cases, length,
}
use vexa.Terms.{Bitwuzla, Answer}
use vexa.Terms.Denote.{flag}
use vexa.Value.{Value, simplify, is_concrete, term_as_uint64, possible_values, concrete}
use vexa.Value.Simplify.{Meets, eval-simplify_value, size-simplify_value}
use vexa.Value.Possible.{Taken, IsAttained, possible_values_complete, possible_values_sound}
use vexa.Emulator.{Predicate}
use vexa.Emulator.Compare.{llvm_icmp, visit_icmp_inst_sound}
use vexa.Cpu.{Cpu, indirect_jump}
use vexa.Cpu.Paths.{Host, branching}
use vexa.Cpu.Forks.{Follows, HandlerKeeps, Follows-event_handler, branching_sound, destination}
use vexa.Cpu.Lift.{successful, indirect, jump_to_solved}

module _ ⦃B : Bitwuzla⦄ where
  open B use {
    Term, Env, eval, eval-value, eval_lt, size, is_value, value_of, mk_bv_value, size-mk_bv_value,
    eval-mk_bv_value,
  }

  -- A value of 64 bits or less, as its number.
  term_as_uint64-eval :
      (ρ : Env) (t : Term) → is_value t ≡ true → size t ≤ 64 → term_as_uint64 t ≡ eval ρ t
  term_as_uint64-eval ρ t known h =
      let whole : term_as_uint64 t ≡ value_of t = ground arith in whole ∙ sym (eval-value ρ t known)

  -- Of the two solved addresses, the comparison picks the one that is taken.
  destination_lem :
      (ρ : Env) (next v : Value) (a b : Term)
      → size next.term ≡ 64
      → (is_value a ≡ true) × (size a ≡ 64)
      → (is_value b ≡ true) × (size b ≡ 64)
      → eval ρ v.term
        ≡ flag (
            llvm_icmp Predicate.eq
              (size next.term)
              (eval ρ next.term)
              (eval ρ (concrete (term_as_uint64 a) 64).term))
      → Taken ρ next.term (a ∷ b ∷ [])
      → destination ρ v (term_as_uint64 a) (term_as_uint64 b) ≡ eval ρ next.term
  destination_lem ρ next v a b wide known known' e taken =
      let ea = term_as_uint64-eval ρ a known.0 (omega (arith, known.1)) in
      let eb = term_as_uint64-eval ρ b known'.0 (omega (arith, known'.1)) in
      let small : eval ρ a < 2 ^ 64 = rw known.1 at (eval_lt ρ a) in
      let n : eval ρ (concrete (term_as_uint64 a) 64).term ≡ term_as_uint64 a =
        eval-mk_bv_value ρ 64 (term_as_uint64 a) (omega (arith, ea, small)) in
      ground (arith, ea, eb, n, e, taken)

  jump_to_solved-Follows :
      (H : Host) (ρ : Env) (next : Value) (addrs : List Term) (s : Cpu)
      → HandlerKeeps H
      → size next.term ≡ 64
      → Meets ρ s.path_constraints
      → All (λ a. (is_value a ≡ true) × (size a ≡ 64)) addrs
      → length addrs ≤ 2
      → Taken ρ next.term addrs
      → (s' : Cpu) × (jump_to_solved H next addrs s ≡ ok (successful, s'))
        × Follows ρ (eval ρ next.term) s'
  unfolding jump_to_solved
  jump_to_solved-Follows H ρ next [] s keeps wide meets known few taken = absurd taken
  jump_to_solved-Follows H ρ next (a ∷ []) s keeps wide meets known few (inl e) =
      let ea = term_as_uint64-eval ρ a known.0.0 (omega (arith, known.0.1)) in
      (record s { pc = term_as_uint64 a }, refl, inl (ea ∙ sym e, meets))
  jump_to_solved-Follows H ρ next (a ∷ []) s keeps wide meets known few (inr none_left) =
      absurd none_left
  jump_to_solved-Follows H ρ next (a ∷ b ∷ []) s keeps wide meets known few taken =
      let target = concrete (term_as_uint64 a) 64 in
      let same : size next.term ≡ size target.term =
        wide ∙ sym (size-mk_bv_value 64 (term_as_uint64 a)) in
      let (v, e, bit_, one) =
        visit_icmp_inst_sound ρ Predicate.eq next target (omega (arith, wide)) same (λ h. cc) in
      let d = destination_lem ρ next v a b wide known.0 known.1.0 bit_ taken in
      let follows = branching_sound H ρ v (term_as_uint64 a) (term_as_uint64 b) s keeps one meets in
      (branching H v (term_as_uint64 a) (term_as_uint64 b) s, rw e refl, rw d at follows)
  jump_to_solved-Follows H ρ next (a ∷ b ∷ c ∷ l) s keeps wide meets known few taken =
      absurd (omega (arith, few))

  IsAttained-known :
      (t : Term) (constraints solved : List Term)
      → size t ≡ 64
      → All (IsAttained t constraints) solved
      → All (λ a. (is_value a ≡ true) × (size a ≡ 64)) solved
  IsAttained-known t constraints [] wide h = tt
  IsAttained-known t constraints (a ∷ l) wide h =
      let (_, _, known, width, _) = h.0 in
      ((known, width ∙ wide), IsAttained-known t constraints l wide h.1)

  -- Where callbacks change neither the program counter nor the paths, an indirect jump whose target
  -- is concrete, or has at most two values under the path constraints of which the solver proves
  -- that there is no other, succeeds; and for every assignment that meets the path constraints, the
  -- address that the target has there is explored, on the current path or a saved one.
  pub indirect_sound :
      (H : Host) (ρ : Env) (next : Value) (s : Cpu)
      → HandlerKeeps H
      → size next.term ≡ 64
      → Meets ρ s.path_constraints
      → (is_concrete (simplify next) ≡ true)
        ⊎ ((length (possible_values (simplify next) s.path_constraints).0 ≤ 2)
            × ((possible_values (simplify next) s.path_constraints).1 ≡ Answer.unsat))
      → (s' : Cpu) × (indirect H next s ≡ ok (successful, s')) × Follows ρ (eval ρ next.term) s'
  unfolding indirect
  indirect_sound H ρ next s keeps wide meets solved =
      let t = simplify next in
      let width : size t.term ≡ 64 = size-simplify_value next ∙ wide in
      let same = eval-simplify_value ρ next in
      elim (Bool-cases (is_concrete t)) [
        | inl known ↦
            let e = term_as_uint64-eval ρ t.term known (omega (arith, width)) in
            let s' : Cpu = record s { pc = term_as_uint64 t.term } in
            (
              H.event_handler indirect_jump s',
              rw known refl,
              Follows-event_handler H indirect_jump ρ (eval ρ next.term) s' keeps
                  (inl (e ∙ same, meets)),
            )
        | inr open_ ↦ elim solved [
          | inl known ↦ absurd (ground (arith, open_, known))
          | inr (few, all_) ↦
              let addrs = (possible_values t s.path_constraints).0 in
              let known =
                IsAttained-known t.term s.path_constraints addrs width
                  (possible_values_sound t s.path_constraints).0 in
              let (s', e, follows) =
                jump_to_solved-Follows H ρ t addrs s keeps width meets known few
                  (possible_values_complete ρ t s.path_constraints meets all_) in
              (s', rw open_ e, rw same at follows)
        ]
      ]
