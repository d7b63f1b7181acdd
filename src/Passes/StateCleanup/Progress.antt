-- ===== src/Passes/StateCleanup/Progress.antt =====
-- src/passes/state_cleanup.cpp: the number of instructions before and after a run.
use vexa.Prelude.{
  ℕ, zero, suc, ◌+◌, ◌<◌, ◌≤◌, ◌≡◌, ◌∙◌, ◌⊎◌, ap, refl, Bool, true, false, List, [], ◌∷◌, arith,
  length, get_elem?, set, Bool-cases, inl, inr,
}
use vexa.Passes.StateCleanup.{
  Function, BasicBlock, Instruction, or_no_block, block_at, is_dead, has_dead, erase_dead,
  clean_block, clean_blocks, run,
}

-- The instructions of a function.
abbrev pub instr_count : Function → ℕ
instr_count [] = 0
instr_count (b ∷ f) = length b.instructions + instr_count f

-- From `f` with the flag `c` to `f'` with the flag `c'`: nothing changes where the flag stays unset,
-- and the function is smaller where the flag comes on.
record Step (f : Function) (c : Bool) (r : Function × Bool) : Type 0 where
  shrink : instr_count r.0 ≤ instr_count f
  smaller : r.1 ≡ true → (c ≡ true) ⊎ (instr_count r.0 < instr_count f)
  same : r.1 ≡ false → (c ≡ false) × (r.0 ≡ f)

length-erase_dead :
    (f : Function) (state_ptr return_offset b : ℕ) (l : List Instruction)
    → length (erase_dead f state_ptr return_offset b l) ≤ length l
unfolding erase_dead
length-erase_dead f p r b [] = omega arith
length-erase_dead f p r b (i ∷ l) = elim (Bool-cases (is_dead f p r b i l)) [
  | inl e ↦ rw e (omega (arith, length-erase_dead f p r b l))
  | inr e ↦ rw e (omega (arith, length-erase_dead f p r b l))
]

erase_dead_smaller :
    (f : Function) (state_ptr return_offset b : ℕ) (l : List Instruction)
    → has_dead f state_ptr return_offset b l ≡ true
    → length (erase_dead f state_ptr return_offset b l) < length l
unfolding erase_dead has_dead
erase_dead_smaller f p r b [] h = cc
erase_dead_smaller f p r b (i ∷ l) h = elim (Bool-cases (is_dead f p r b i l)) [
  | inl e ↦ rw e (omega (arith, length-erase_dead f p r b l))
  | inr e ↦ rw e (omega (arith, erase_dead_smaller f p r b l (rw e at h)))
]

erase_dead_same :
    (f : Function) (state_ptr return_offset b : ℕ) (l : List Instruction)
    → has_dead f state_ptr return_offset b l ≡ false
    → erase_dead f state_ptr return_offset b l ≡ l
unfolding erase_dead has_dead
erase_dead_same f p r b [] h = refl
erase_dead_same f p r b (i ∷ l) h = elim (Bool-cases (is_dead f p r b i l)) [
  | inl e ↦ absurd (ground (arith, e, h))
  | inr e ↦ rw e (ap (λ m. i ∷ m) (erase_dead_same f p r b l (rw e at h)))
]

instr_count-set :
    (f : Function) (i : ℕ) (b : BasicBlock)
    → length b.instructions < length (or_no_block (get_elem? f i)).instructions
    → instr_count (set f i b) < instr_count f
instr_count-set [] i b h = absurd (omega (arith, h))
instr_count-set (c ∷ f) zero b h = omega (arith, h)
instr_count-set (c ∷ f) (suc i) b h = omega (arith, instr_count-set f i b h)

set_same : (f : Function) (i : ℕ) → set f i (or_no_block (get_elem? f i)) ≡ f
set_same [] i = refl
set_same (c ∷ f) zero = refl
set_same (c ∷ f) (suc i) = ap (λ g. c ∷ g) (set_same f i)

clean_block-Step :
    (state_ptr return_offset b : ℕ) (f : Function) (c : Bool)
    → Step f c (clean_block state_ptr return_offset b (f, c))
unfolding clean_block
clean_block-Step p r b f c = elim (Bool-cases (has_dead f p r b (block_at f b).instructions)) [
  | inl dead ↦
      let less =
        instr_count-set f b _ (erase_dead_smaller f p r b (block_at f b).instructions dead) in
      record {
        shrink = omega (arith, less);
        smaller = λ _. inr less;
        same = λ h. absurd (ground (arith, dead, h));
      }
  | inr none_dead ↦
      let id =
        ap (λ l. set f b (record (block_at f b) { instructions = l }))
          (erase_dead_same f p r b (block_at f b).instructions none_dead)
        ∙ set_same f b in
      record {
        shrink = omega (arith, ap instr_count id);
        smaller = λ h. inl (ground (arith, none_dead, h));
        same = λ h. (ground (arith, none_dead, h), id);
      }
]

Step-trans :
    {f : Function} {c : Bool} {m r : Function × Bool} → Step f c m → Step m.0 m.1 r → Step f c r
Step-trans s t = record {
  shrink = omega (arith, s.shrink, t.shrink);
  smaller = λ h. elim (t.smaller h) [
    | inl on ↦ elim (s.smaller on) [ inl a ↦ inl a | inr b ↦ inr (omega (arith, b, t.shrink)) ]
    | inr b ↦ inr (omega (arith, b, s.shrink))
  ];
  same = λ h. let (off, e) = t.same h in let (off', e') = s.same off in (off', e ∙ e');
}

clean_blocks-Step :
    (left state_ptr return_offset b : ℕ) (f : Function) (c : Bool)
    → Step f c (clean_blocks left state_ptr return_offset b (f, c))
unfolding clean_blocks
clean_blocks-Step zero p r b f c = record {
  shrink = omega arith;
  smaller = λ h. inl h;
  same = λ h. (h, refl);
}
clean_blocks-Step (suc left) p r b f c =
    let m = clean_block p r b (f, c) in
    Step-trans (clean_block-Step p r b f c) (clean_blocks-Step left p r (b + 1) m.0 m.1)

-- A run of the pass that reports no change leaves the function as it was; one that reports a
-- change leaves fewer instructions.
pub run_progress :
    (state_ptr return_offset : ℕ) (f : Function)
    → let (f', changed) = run state_ptr return_offset f in
      (changed ≡ true → instr_count f' < instr_count f) × (changed ≡ false → f' ≡ f)
unfolding run
run_progress p r f =
    let s = clean_blocks-Step (length f) p r 0 f false in
    (λ h. elim (s.smaller h) [ inl on ↦ cc | inr less ↦ less ], λ h. (s.same h).1)

-- A run never adds an instruction.
pub run-instr_count :
    (state_ptr return_offset : ℕ) (f : Function)
    → instr_count (run state_ptr return_offset f).0 ≤ instr_count f
unfolding run
run-instr_count p r f = (clean_blocks-Step (length f) p r 0 f false).shrink
