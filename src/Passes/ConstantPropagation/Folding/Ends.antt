-- ===== src/Passes/ConstantPropagation/Folding/Ends.antt =====
-- src/passes/constant_propagation.cpp: the rounds of the worklist of `propagate_ssa_values`,
-- counted by the uses in the function.
use vexa.Prelude.{
  ℕ, zero, suc, ◌+◌, ◌≤◌, ◌<◌, ◌≡◌, ◌∙◌, ap, refl, Bool, true, false, ◌||◌, List, [], ◌∷◌, ◌++◌,
  Option, none, some, ◌==◌, length, length-append, get_elem?, map, contains, arith, inl, inr,
  Bool-cases,
}
use vexa.Terms.{Bitwuzla}
use vexa.Passes.ConstantPropagation.Folding.{
  Operand, constant, undefined, result, other, replace_operand, uses_in, remove, FoldInstr,
  replace_all_uses, collect_instruction_users, Folder, enqueue, enqueue_all, fold_value_at, fold,
  fold_if, process, round, go_on, propagate,
}

-- The operands that are instructions.
abbrev pub result_count : List Operand → ℕ
result_count [] = 0
result_count (constant m ∷ os) = result_count os
result_count (undefined ∷ os) = result_count os
result_count (result j ∷ os) = suc (result_count os)
result_count (other m ∷ os) = result_count os

result_count-map :
    (i n k : ℕ) (os : List Operand)
    → result_count (map (replace_operand i n) os) + length (uses_in i k os) ≡ result_count os
result_count-map i n k [] = refl
result_count-map i n k (constant m ∷ os) = result_count-map i n k os
result_count-map i n k (undefined ∷ os) = result_count-map i n k os
result_count-map i n k (result j ∷ os) = elim (Bool-cases (j == i)) [
  | inl same ↦ rw same (omega (arith, result_count-map i n k os))
  | inr differs ↦ rw differs (omega (arith, result_count-map i n k os))
]
result_count-map i n k (other m ∷ os) = result_count-map i n k os

module _ ⦃B : Bitwuzla⦄ where
  abbrev pub use_count : List FoldInstr → ℕ
  use_count [] = 0
  use_count (p ∷ f) = result_count p.operands + use_count f

  use_count-replace_all_uses :
      (i n k : ℕ) (f : List FoldInstr)
      → use_count (replace_all_uses i n f) + length (collect_instruction_users i k f) ≡ use_count f
  use_count-replace_all_uses i n k [] = refl
  use_count-replace_all_uses i n k (p ∷ f) = omega (
    arith,
    length-append (uses_in i k p.operands) (collect_instruction_users i (suc k) f),
    result_count-map i n k p.operands,
    use_count-replace_all_uses i n (suc k) f,
  )

  -- What enqueueing changes.
  pub record Enqueued (more : ℕ) (s s' : Folder) : Type 0 where
    pub function_kept : s'.function ≡ s.function
    pub dead_kept : s'.dead_values ≡ s.dead_values
    pub folded_kept : s'.folded ≡ s.folded
    pub grows : length s'.worklist ≤ length s.worklist + more

  enqueue-Enqueued : (i : ℕ) (s : Folder) → Enqueued 1 s (enqueue i s)
  unfolding enqueue
  enqueue-Enqueued i s = elim (Bool-cases (contains i s.folded || contains i s.queued)) [
    | inl known ↦
        rw known (record {
          function_kept = refl;
          dead_kept = refl;
          folded_kept = refl;
          grows = omega arith;
        })
    | inr new ↦ rw new (record {
      function_kept = refl;
      dead_kept = refl;
      folded_kept = refl;
      grows = omega (arith, length-append s.worklist (i ∷ []));
    })
  ]

  pub enqueue_all-Enqueued : (is : List ℕ) (s : Folder) → Enqueued (length is) s (enqueue_all is s)
  unfolding enqueue_all
  enqueue_all-Enqueued [] s = record {
    function_kept = refl;
    dead_kept = refl;
    folded_kept = refl;
    grows = omega arith;
  }
  enqueue_all-Enqueued (i ∷ is) s =
      let first = enqueue-Enqueued i s in
      let rest = enqueue_all-Enqueued is (enqueue i s) in
      record {
        function_kept = rest.function_kept ∙ first.function_kept;
        dead_kept = rest.dead_kept ∙ first.dead_kept;
        folded_kept = rest.folded_kept ∙ first.folded_kept;
        grows = omega (arith, rest.grows, first.grows);
      }

  abbrev pub left : Folder → ℕ
  left s = length s.worklist + use_count s.function

  left-fold : (i n : ℕ) (s : Folder) → left (fold i n s) ≤ left s
  unfolding fold
  left-fold i n s =
      let users = collect_instruction_users i 0 s.function in
      let replaced : Folder = record s {
        folded = i ∷ s.folded;
        function = replace_all_uses i n s.function;
        dead_values = s.dead_values ++ i ∷ [];
      } in
      let e = enqueue_all-Enqueued users replaced in
      omega
        (arith, e.grows, ap use_count e.function_kept, use_count-replace_all_uses i n 0 s.function)

  left-fold_if :
      (seen : Bool) (i : ℕ) (n : Option ℕ) (s : Folder) → left (fold_if seen i n s) ≤ left s
  left-fold_if true i n s = omega arith
  left-fold_if false i none s = omega arith
  left-fold_if false i (some n) s = left-fold i n s

  pub propagate-ends :
      (fuel : ℕ) (queue : List ℕ) (s : Folder)
      → s.worklist ≡ queue
      → left s < fuel
      → (s' : Folder) × (propagate fuel s ≡ some s')
  unfolding propagate process
  propagate-ends zero queue s e h = absurd (omega (arith, h))
  propagate-ends (suc fuel) [] s e h = (s, ap (λ q. go_on (round q s) s (propagate fuel)) e)
  propagate-ends (suc fuel) (i ∷ rest) s e h =
      let popped : Folder = record s { worklist = rest; queued = remove i s.queued } in
      let s' = process i popped in
      let less =
        left-fold_if (contains i s.folded) i (fold_value_at (get_elem? s.function i)) popped in
      let (r, done) =
        propagate-ends fuel s'.worklist s' refl (omega (arith, less, h, ap length e)) in
      (r, ap (λ q. go_on (round q s) s (propagate fuel)) e ∙ done)
