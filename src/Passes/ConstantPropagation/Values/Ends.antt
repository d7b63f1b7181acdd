-- ===== src/Passes/ConstantPropagation/Values/Ends.antt =====
-- src/passes/constant_propagation_memory.cpp: the calls of `is_safe_value` inside each other,
-- counted by the instructions that are not marked.
use vexa.Prelude.{
  ℕ, zero, suc, ◌+◌, ◌≤◌, ◌<◌, ◌≡◌, ap, refl, Bool, true, false, ◌&&◌, ◌||◌, List, [], ◌∷◌, Option,
  none, some, length, get_elem?, arith, inl, inr, Bool-cases, ◌==◌,
}
use vexa.Passes.ConstantPropagation.ByteSafety.{State}
use vexa.Passes.ConstantPropagation.Values.{
  LlvmValue, constant, argument, instruction, Instr, Kind, load, operands, memory, Cache, Safety,
  visiting, put, safety, judge, judge_instr, all_safe, and_then, may_load, access_is_safe,
  cached_or, record_safety, is_safe_value, depth, Test, and_next, is_safe,
}

abbrev one_if_none : Option Safety → ℕ
one_if_none none = 1
one_if_none (some s) = 0

-- The first `n` instructions that have no entry.
abbrev unmarked : ℕ → Cache → ℕ
unmarked zero c = 0
unmarked (suc n) c = one_if_none (c n) + unmarked n c

unmarked-put : (n i : ℕ) (s : Safety) (c : Cache) → unmarked n (put i s c) ≤ unmarked n c
unmarked-put zero i s c = omega arith
unmarked-put (suc n) i s c = elim (Bool-cases (n == i)) [
  | inl same ↦ rw same (omega (arith, unmarked-put n i s c))
  | inr other ↦ rw other (omega (arith, unmarked-put n i s c))
]

unmarked-put_lt :
    (n i : ℕ) (s : Safety) (c : Cache) → i < n → c i ≡ none → unmarked n (put i s c) < unmarked n c
unmarked-put_lt zero i s c h e = absurd (omega (arith, h))
unmarked-put_lt (suc n) i s c h e = elim (Bool-cases (n == i)) [
  | inl same ↦
      let p : i ≡ n = ground arith in rw (same, rw p at e) (omega (arith, unmarked-put n i s c))
  | inr other ↦ rw other (omega (arith, unmarked-put_lt n i s c (ground (arith, other, h)) e))
]

get_elem?-lt {ℓ} :
    {A : Type ℓ} (xs : List A) (i : ℕ) (x : A) → get_elem? xs i ≡ some x → i < length xs
get_elem?-lt [] i x h = cc
get_elem?-lt (y ∷ xs) zero x h = omega arith
get_elem?-lt (y ∷ xs) (suc i) x h = omega (arith, get_elem?-lt xs i x h)

-- The two tests end with the same result, which leaves no more unmarked than `c` does.
record Agree (n : ℕ) (c : Cache) (o o' : Option (Bool × Cache)) : Type 0 where
  result : Bool × Cache
  first_ends : o ≡ some result
  second_ends : o' ≡ some result
  fewer : unmarked n result.1 ≤ unmarked n c

-- Two tests agree on the caches with at most `m` unmarked.
abbrev AgreeBelow : ℕ → ℕ → Test → Test → Type 0
AgreeBelow n m t t' = (v : LlvmValue) (c : Cache) → unmarked n c ≤ m → Agree n c (t v c) (t' v c)

Agree-refl : (n : ℕ) (b : Bool) (c : Cache) → Agree n c (some (b, c)) (some (b, c))
Agree-refl n b c = record {
  result = (b, c);
  first_ends = refl;
  second_ends = refl;
  fewer = omega arith;
}

module _ (n m : ℕ) (t t' : Test) (h : AgreeBelow n m t t') where
  and_next-Agree :
      (b : Bool) (c c' : Cache) (next next' : Cache → Option (Bool × Cache))
      → unmarked n c' ≤ unmarked n c
      → Agree n c' (next c') (next' c')
      → Agree n c (and_next (some (b, c')) next) (and_next (some (b, c')) next')
  and_next-Agree true c c' next next' le r = record {
    result = r.result;
    first_ends = r.first_ends;
    second_ends = r.second_ends;
    fewer = omega (arith, r.fewer, le);
  }
  and_next-Agree false c c' next next' le r = record {
    result = (false, c');
    first_ends = refl;
    second_ends = refl;
    fewer = le;
  }

  all_safe-Agree :
      (vs : List LlvmValue) (c : Cache)
      → unmarked n c ≤ m
      → Agree n c (all_safe t vs c) (all_safe t' vs c)
  all_safe-Agree [] c hc = Agree-refl n true c
  all_safe-Agree (v ∷ vs) c hc =
      let first = h v c hc in
      let (b, c') = first.result in
      let rest = all_safe-Agree vs c' (omega (arith, hc, first.fewer)) in
      rw (first.first_ends, first.second_ends)
        (and_next-Agree b c c' (all_safe t vs) (all_safe t' vs) first.fewer rest)

  judge-Agree :
      (st : State) (active : ℕ) (skip : Bool) (preds : ℕ) (k : Kind) (c : Cache)
      → unmarked n c ≤ m
      → Agree n c (judge t st active skip preds k c) (judge t' st active skip preds k c)
  unfolding judge
  judge-Agree st active true preds k c hc = Agree-refl n false c
  judge-Agree st active false preds (load p r o) c hc =
      let first = h p c hc in
      elim (Bool-cases (may_load st active preds r o)) [
        | inl may ↦ rw may (record {
          result = (first.result.0 && access_is_safe st r, first.result.1);
          first_ends = ap (λ x. and_then x (access_is_safe st r)) first.first_ends;
          second_ends = ap (λ x. and_then x (access_is_safe st r)) first.second_ends;
          fewer = first.fewer;
        })
        | inr off ↦ rw off (Agree-refl n false c)
      ]
  judge-Agree st active false preds memory c hc = Agree-refl n false c
  judge-Agree st active false preds (operands vs) c hc = all_safe-Agree vs c hc

record_safety-Agree :
    (n i : ℕ) (c c' : Cache) (o o' : Option (Bool × Cache))
    → Agree n c' o o'
    → unmarked n c' ≤ unmarked n c
    → Agree n c (record_safety i o) (record_safety i o')
record_safety-Agree n i c c' o o' h le = record {
  result = (h.result.0, put i (safety h.result.0) h.result.1);
  first_ends = ap (record_safety i) h.first_ends;
  second_ends = ap (record_safety i) h.second_ends;
  fewer = omega (arith, unmarked-put n i (safety h.result.0) h.result.1, h.fewer, le);
}

module _ (f : List Instr) (st : State) (active : ℕ) where
  cached_or-Agree :
      (n i : ℕ) (c : Cache) (s : Option Safety) (o : Option Instr) (t t' : Test)
      → unmarked (length f) c ≤ n
      → ((m : ℕ) → m < n → AgreeBelow (length f) m t t')
      → c i ≡ s
      → get_elem? f i ≡ o
      → Agree
          (length f)
          c
          (cached_or s i c (judge_instr t st active o))
          (cached_or s i c (judge_instr t' st active o))
  cached_or-Agree n i c (some s) o t t' hf h e eo = Agree-refl (length f) (is_safe s) c
  cached_or-Agree n i c none none t t' hf h e eo =
      record_safety-Agree (length f) i c (put i visiting c) _ _
        (Agree-refl (length f) false (put i visiting c)) (unmarked-put (length f) i visiting c)
  cached_or-Agree n i c none (some r) t t' hf h e eo =
      let less = unmarked-put_lt (length f) i visiting c (get_elem?-lt f i r eo) e in
      let m = unmarked (length f) (put i visiting c) in
      record_safety-Agree (length f) i c (put i visiting c) _ _
        (judge-Agree (length f) m t t' (h m (omega (arith, less, hf))) st active
          (r.in_loop || r.is_phi) r.predecessors r.kind (put i visiting c) (omega arith))
        (omega (arith, less))

  is_safe_value-AgreeBelow :
      (fuel fuel' m : ℕ)
      → m < fuel
      → m < fuel'
      → AgreeBelow (length f) m (is_safe_value fuel f st active) (is_safe_value fuel' f st active)
  unfolding is_safe_value
  is_safe_value-AgreeBelow zero fuel' m hm hm' v c hc = absurd (omega (arith, hm))
  is_safe_value-AgreeBelow (suc fuel) zero m hm hm' v c hc = absurd (omega (arith, hm'))
  is_safe_value-AgreeBelow (suc fuel) (suc fuel') m hm hm' constant c hc =
      Agree-refl (length f) true c
  is_safe_value-AgreeBelow (suc fuel) (suc fuel') m hm hm' argument c hc =
      Agree-refl (length f) true c
  is_safe_value-AgreeBelow (suc fuel) (suc fuel') m hm hm' (instruction i) c hc =
      cached_or-Agree m i c (c i) (get_elem? f i) (is_safe_value fuel f st active)
        (is_safe_value fuel' f st active) hc
        (λ k hk.
          is_safe_value-AgreeBelow fuel fuel' k (omega (arith, hk, hm)) (omega (arith, hk, hm')))
        refl refl

one_if_none-le : (o : Option Safety) → one_if_none o ≤ 1
one_if_none-le none = omega arith
one_if_none-le (some s) = omega arith

unmarked-le : (n : ℕ) (c : Cache) → unmarked n c ≤ n
unmarked-le zero c = omega arith
unmarked-le (suc n) c = omega (arith, one_if_none-le (c n), unmarked-le n c)

-- The test on values ends, from every value and every cache and whatever the operands of the
-- instructions are, cycles included: `depth` calls inside each other are enough for a result, and any
-- larger fuel gives the same one.
pub is_safe_value-ends :
    (f : List Instr) (st : State) (active : ℕ) (v : LlvmValue) (c : Cache) (fuel : ℕ)
    → depth f ≤ fuel
    → (r : Bool × Cache) × (is_safe_value (depth f) f st active v c ≡ some r)
      × (is_safe_value fuel f st active v c ≡ some r)
is_safe_value-ends f st active v c fuel h =
    let both =
      is_safe_value-AgreeBelow f st active (depth f) fuel (length f) (omega arith)
        (omega (arith, h)) v c (unmarked-le (length f) c) in
    (both.result, both.first_ends, both.second_ends)
