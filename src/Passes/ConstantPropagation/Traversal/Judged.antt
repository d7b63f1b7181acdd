-- ===== src/Passes/ConstantPropagation/Traversal/Judged.antt =====
-- src/passes/constant_propagation_memory.cpp: `is_safe_value` and known values.
use mathlib.Core.Option.{some-injective}
use vexa.Prelude.{
  ℕ, zero, suc, ◌+◌, ◌≡◌, ◌∙◌, ap, ap₂, refl, Bool, true, false, ◌||◌, List, [], ◌∷◌, Option, none,
  some, get_elem?, arith, inl, inr, Bool-cases, ◌==◌,
}
use vexa.Memory.{u64}
use vexa.Passes.ConstantPropagation.ByteSafety.{ConcreteMemoryAccess, State, range_is_safe}
use vexa.Passes.ConstantPropagation.ByteSafety.Range.{range_is_safe_iff}
use vexa.Passes.ConstantPropagation.Values.{
  LlvmValue, constant, argument, instruction, Instr, Kind, load, operands, memory, Cache, Safety,
  safe, unsafe, visiting, put, safety, Test, and_next, and_then, judge, judge_instr, all_safe,
  may_load, access_is_safe, cached_or, record_safety, is_safe_value,
}
use vexa.Passes.ConstantPropagation.Traversal.{Access, number, settled}
use vexa.Passes.ConstantPropagation.Traversal.Known.{
  Known, known_constant, known_argument, known_operands, known_load,
}
use vexa.Passes.ConstantPropagation.Traversal.Tracks.{Tracks}

visiting≢safe : ¬ (some visiting ≡ some safe)
visiting≢safe e = cc

safety_safe : (b : Bool) → some (safety b) ≡ some safe → b ≡ true
safety_safe true e = refl
safety_safe false e = cc

module _ (f : List Instr) (roots : List (Access × Bool)) where
  -- Every instruction that the cache calls safe is known.
  abbrev pub Justified : Cache → Type 0
  Justified c = (i : ℕ) → c i ≡ some safe → Known f roots (instruction i)

  -- The result of a test leaves a justified cache, and where it is true, `K` holds.
  abbrev pub Judged : Type 0 → Option (Bool × Cache) → Type 0
  Judged K none = Unit
  Judged K (some (b, c)) = Justified c × (b ≡ true → K)

  -- What a test on values has to satisfy.
  abbrev pub IsSoundTest : Test → Type 0
  IsSoundTest test = (v : LlvmValue) (c : Cache) → Justified c → Judged (Known f roots v) (test v c)

  Judged-map : (K L : Type 0) (o : Option (Bool × Cache)) → (K → L) → Judged K o → Judged L o
  Judged-map K L none g h = tt
  Judged-map K L (some (b, c)) g (hc, h) = (hc, λ e. g (h e))

  Judged-and_next :
      (K L : Type 0) (o : Option (Bool × Cache)) (next : Cache → Option (Bool × Cache))
      → Judged K o
      → ((c : Cache) → Justified c → K → Judged L (next c))
      → Judged L (and_next o next)
  Judged-and_next K L none next h g = tt
  Judged-and_next K L (some (true, c)) next (hc, k) g = g c hc (k refl)
  Judged-and_next K L (some (false, c)) next (hc, k) g = (hc, λ e. cc)

  Judged-and_then :
      (K : Type 0) (o : Option (Bool × Cache)) (d : Bool)
      → Judged K o
      → Judged (K × (d ≡ true)) (and_then o d)
  Judged-and_then K none d h = tt
  Judged-and_then K (some (true, c)) d (hc, k) = (hc, λ e. (k refl, e))
  Judged-and_then K (some (false, c)) d (hc, k) = (hc, λ e. cc)

  pub Judged-settled :
      (K : Type 0) (c : Cache) (o : Option (Bool × Cache))
      → Justified c
      → Judged K o
      → Justified (settled c o).1 × ((settled c o).0 ≡ true → K)
  Judged-settled K c none hc h = (hc, λ e. cc)
  Judged-settled K c (some (b, c')) hc h = h

  abbrev pub AllKnown : List LlvmValue → Type 0
  AllKnown vs = (j : ℕ) (v : LlvmValue) → get_elem? vs j ≡ some v → Known f roots v

  all_known :
      (w : LlvmValue) (vs : List LlvmValue) → Known f roots w → AllKnown vs → AllKnown (w ∷ vs)
  all_known w vs hw h zero v e = rw (← some-injective w v e) hw
  all_known w vs hw h (suc j) v e = h j v e

  pub all_safe_sound :
      (test : Test) (vs : List LlvmValue) (c : Cache)
      → IsSoundTest test
      → Justified c
      → Judged (AllKnown vs) (all_safe test vs c)
  all_safe_sound test [] c ht hc = (hc, λ _ j v e. cc)
  all_safe_sound test (w ∷ vs) c ht hc =
      Judged-and_next (Known f roots w) (AllKnown (w ∷ vs)) (test w c) (all_safe test vs)
        (ht w c hc)
        (λ c' hc' hw.
          Judged-map (AllKnown vs) (AllKnown (w ∷ vs)) (all_safe test vs c') (all_known w vs hw)
            (all_safe_sound test vs c' ht hc'))

  may_load_lem :
      (st : State) (active n : ℕ) (r : Option ConcreteMemoryAccess) (o : Option ℕ)
      → may_load st active n r o ≡ true
      → (a : ConcreteMemoryAccess) × (r ≡ some a) × (o ≡ some active)
  may_load_lem st active n none o h = cc
  may_load_lem st active n (some a) none h = cc
  may_load_lem st active n (some a) (some o) h =
      let e : o ≡ active = ground arith in (a, refl, ap some e)

  Justified-put-visiting : (c : Cache) (i : ℕ) → Justified c → Justified (put i visiting c)
  Justified-put-visiting c i h j e = elim (Bool-cases (j == i)) [
    | inl same ↦ absurd (visiting≢safe (rw same at e))
    | inr other ↦ h j (rw other at e)
  ]

  put-Justified :
      (i : ℕ) (b : Bool) (c : Cache)
      → Justified c
      → (b ≡ true → Known f roots (instruction i))
      → Justified (put i (safety b) c)
  put-Justified i b c h k j e = elim (Bool-cases (j == i)) [
    | inl same ↦ let p : j ≡ i = ground arith in rw p (k (safety_safe b (rw same at e)))
    | inr other ↦ h j (rw other at e)
  ]

  Judged-record_safety :
      (i : ℕ) (o : Option (Bool × Cache))
      → Judged (Known f roots (instruction i)) o
      → Judged (Known f roots (instruction i)) (record_safety i o)
  Judged-record_safety i none h = tt
  Judged-record_safety i (some (b, c)) (hc, k) = (put-Justified i b c hc k, k)

  module _ (gens : List ℕ) (a : Access) (st : State) (here : Tracks f roots gens a st) where
    load_known :
        (i n : ℕ) (p : LlvmValue) (r : Option ConcreteMemoryAccess) (o : Option ℕ)
        → get_elem? f i
          ≡ some (record { in_loop = false; is_phi = false; predecessors = n; kind = load p r o })
        → may_load st (number a) n r o ≡ true
        → Known f roots p
        → access_is_safe st r ≡ true
        → Known f roots (instruction i)
    load_known i n p r o e may hp checked =
        let (r', er, eo) = may_load_lem st (number a) n r o may in
        let bytes_safe : range_is_safe st r'.address r'.size 0 ≡ true = rw er at checked in
        known_load i n p r' a
          (e
            ∙ ap₂
                (λ r o.
                  some (record {
                    in_loop = false;
                    is_phi = false;
                    predecessors = n;
                    kind = load p r o;
                  }))
                er eo)
          here.within hp
          (λ j lt.
            here.known (record { page = r'.address.page; offset = u64 (r'.address.offset + j) })
              (omega arith)
              ((range_is_safe_iff st r'.address r'.size 0).0 bytes_safe j (omega arith)
                (omega (arith, lt))))

    judge_sound :
        (test : Test) (i : ℕ) (in_loop is_phi : Bool) (n : ℕ) (k : Kind) (c : Cache)
        → IsSoundTest test
        → get_elem? f i
          ≡ some (record { in_loop = in_loop; is_phi = is_phi; predecessors = n; kind = k })
        → Justified c
        → Judged
            (Known f roots (instruction i))
            (judge test st (number a) (in_loop || is_phi) n k c)
    unfolding judge
    judge_sound test i true is_phi n k c ht e hc = (hc, λ e. cc)
    judge_sound test i false true n k c ht e hc = (hc, λ e. cc)
    judge_sound test i false false n (load p r o) c ht e hc =
        elim (Bool-cases (may_load st (number a) n r o)) [
          | inl may ↦ rw may (
              Judged-map (Known f roots p × (access_is_safe st r ≡ true))
                (Known f roots (instruction i)) (and_then (test p c) (access_is_safe st r))
                (λ h. load_known i n p r o e may h.0 h.1)
                (Judged-and_then (Known f roots p) (test p c) (access_is_safe st r) (ht p c hc)))
          | inr off ↦ rw off (hc, λ e. cc)
        ]
    judge_sound test i false false n memory c ht e hc = (hc, λ e. cc)
    judge_sound test i false false n (operands vs) c ht e hc =
        Judged-map (AllKnown vs) (Known f roots (instruction i)) (all_safe test vs c)
          (known_operands i n vs e) (all_safe_sound test vs c ht hc)

    judge_instr_sound :
        (test : Test) (i : ℕ) (o : Option Instr) (c : Cache)
        → IsSoundTest test
        → get_elem? f i ≡ o
        → Justified c
        → Judged (Known f roots (instruction i)) (judge_instr test st (number a) o c)
    judge_instr_sound test i none c ht e hc = (hc, λ e. cc)
    judge_instr_sound test i (some r) c ht e hc =
        judge_sound test i r.in_loop r.is_phi r.predecessors r.kind c ht e hc

    cached_or_sound :
        (i : ℕ) (s : Option Safety) (c : Cache) (test : Cache → Option (Bool × Cache))
        → ((c' : Cache) → Justified c' → Judged (Known f roots (instruction i)) (test c'))
        → c i ≡ s
        → Justified c
        → Judged (Known f roots (instruction i)) (cached_or s i c test)
    cached_or_sound i none c test h e hc =
        Judged-record_safety i (test (put i visiting c))
          (h (put i visiting c) (Justified-put-visiting c i hc))
    cached_or_sound i (some visiting) c test h e hc = (hc, λ ok. cc)
    cached_or_sound i (some safe) c test h e hc = (hc, λ ok. hc i e)
    cached_or_sound i (some unsafe) c test h e hc = (hc, λ ok. cc)

    -- The test on values, where the map of bytes is right.
    pub is_safe_value-IsSoundTest : (fuel : ℕ) → IsSoundTest (is_safe_value fuel f st (number a))
    unfolding is_safe_value
    is_safe_value-IsSoundTest zero v c hc = tt
    is_safe_value-IsSoundTest (suc fuel) constant c hc = (hc, λ _. known_constant)
    is_safe_value-IsSoundTest (suc fuel) argument c hc = (hc, λ _. known_argument)
    is_safe_value-IsSoundTest (suc fuel) (instruction i) c hc =
        cached_or_sound i (c i) c
          (judge_instr (is_safe_value fuel f st (number a)) st (number a) (get_elem? f i))
          (λ c' hc'.
            judge_instr_sound (is_safe_value fuel f st (number a)) i (get_elem? f i) c'
              (is_safe_value-IsSoundTest fuel) refl hc')
          refl hc
