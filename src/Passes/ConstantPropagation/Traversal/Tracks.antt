-- ===== src/Passes/ConstantPropagation/Traversal/Tracks.antt =====
-- src/passes/constant_propagation_memory.cpp: the map of bytes and known bytes, through the
-- generations of the definitions on a path.
use mathlib.Core.Option.{some-injective}
use vexa.Prelude.{
  ℕ, zero, suc, ◌+◌, ◌^◌, ◌<◌, ◌≡◌, ◌∙◌, sym, refl, Bool, true, false, List, [], ◌∷◌, Option, none,
  some, get_elem?, leb, ltb, ◌==◌, if◌then◌else◌, contains, arith, inl, inr, Bool-cases,
  Option-cases,
}
use vexa.Memory.{u64}
use vexa.Passes.ConstantPropagation.ByteSafety.{
  MemoryAddress, same_address, ByteState, State, bool_eq, is_safe_byte, set_byte_safety,
  set_range_safety,
}
use vexa.Passes.ConstantPropagation.ByteSafety.Range.{in_range, set_range_safety_sound}
use vexa.Passes.ConstantPropagation.Values.{Instr}
use vexa.Passes.ConstantPropagation.Traversal.{
  Access, Store, store_of, number, children_of, define, initial,
}
use vexa.Passes.ConstantPropagation.Traversal.Known.{
  IsChild, IsBounded, Within, root, below, Known, KnownAt, on_entry, stored, kept,
}

-- The generations of the map are among those of the path.
record Recent (gens : List ℕ) (st : State) : Type 0 where
  active : contains st.active_generation gens ≡ true
  entries :
      (x : MemoryAddress) (e : ByteState)
      → st.byte_safety x ≡ some e
      → contains e.generation gens ≡ true

set_byte_safety-Recent :
    (gens : List ℕ) (st : State) (a : MemoryAddress) (safe : Bool)
    → Recent gens st
    → Recent gens (set_byte_safety st a safe)
unfolding set_byte_safety
set_byte_safety-Recent gens st a safe h = elim (Bool-cases (bool_eq (is_safe_byte st a) safe)) [
  | inl same ↦ rw same h
  | inr new ↦ elim (Bool-cases (bool_eq safe st.default_byte_safety)) [
    | inl plain ↦
        rw (new, plain)
          (record {
            active = h.active;
            entries = λ x e found. elim (Bool-cases (same_address x a)) [
              | inl here ↦ let gone : none ≡ some e = rw here at found in cc
              | inr there ↦ h.entries x e (rw there at found)
            ];
          })
    | inr other ↦
        rw (new, other)
          (record {
            active = h.active;
            entries = λ x e found. elim (Bool-cases (same_address x a)) [
              | inl here ↦ rw (← some-injective _ e (rw here at found)) h.active
              | inr there ↦ h.entries x e (rw there at found)
            ];
          })
  ]
]

set_range_safety-Recent :
    (gens : List ℕ) (st : State) (base : MemoryAddress) (safe : Bool) (left offset : ℕ)
    → Recent gens st
    → Recent gens (set_range_safety st base safe left offset)
unfolding set_range_safety
set_range_safety-Recent gens st base safe zero offset h = h
set_range_safety-Recent gens st base safe (suc left) offset h =
    let a : MemoryAddress = record { page = base.page; offset = u64 (base.offset + offset) } in
    elim (Bool-cases (ltb (u64 (base.offset + offset)) base.offset)) [
      | inl wrapped ↦ rw wrapped h
      | inr on ↦ rw on (
          set_range_safety-Recent gens (set_byte_safety st a safe) base safe left (offset + 1)
            (set_byte_safety-Recent gens st a safe h))
    ]

Recent-more : (d : ℕ) (gens : List ℕ) (st : State) → Recent gens st → Recent (d ∷ gens) st
Recent-more d gens st h = record {
  active = ground (arith, h.active);
  entries = λ x e found. let old = h.entries x e found in ground (arith, old);
}

-- No byte is safe in a new generation.
is_safe_byte-new :
    (d : ℕ) (gens : List ℕ) (st : State) (x : MemoryAddress)
    → Recent gens st
    → contains d gens ≡ false
    → is_safe_byte (record st { active_generation = d; default_byte_safety = false }) x ≡ false
unfolding is_safe_byte
is_safe_byte-new d gens st x h new = elim (Option-cases (st.byte_safety x)) [
  | inl missing ↦ rw missing refl
  | inr (e, found) ↦ elim (Bool-cases (e.generation == d)) [
    | inl same ↦
        let p : e.generation ≡ d = ground (arith, same) in
        let old : contains d gens ≡ true = rw p at (h.entries x e found) in cc
    | inr other ↦ rw (found, other) refl
  ]
]

module _ (f : List Instr) (roots : List (Access × Bool)) where
  -- What makes a store safe.
  pub record SafeStore (s : Store) : Type 0 where
    pub outside : s.in_loop ≡ false
    pub joined : leb s.predecessors 1 ≡ true
    pub pointer : Known f roots s.pointer
    pub value : Known f roots s.value

  -- The state at a memory access, with the numbers of the path to it.
  pub record Tracks (gens : List ℕ) (a : Access) (st : State) : Type 0 where
    pub within : Within f roots a
    pub known :
        (x : MemoryAddress) → x.offset < 2 ^ 64 → is_safe_byte st x ≡ true → KnownAt f roots a x
    recent : Recent gens st

  pub Tracks-initial :
      (i : ℕ) (a : Access) (live : Bool)
      → get_elem? roots i ≡ some (a, live)
      → Tracks (number a ∷ []) a (initial (number a) live)
  unfolding is_safe_byte
  Tracks-initial i a true e = record {
    within = root i a true e;
    known = λ x small h. on_entry i a x e;
    recent = record { active = ground arith; entries = λ x s found. cc };
  }
  Tracks-initial i a false e = record {
    within = root i a false e;
    known = λ x small h. cc;
    recent = record { active = ground arith; entries = λ x s found. cc };
  }

  KnownAt-store :
      (gens : List ℕ) (a b : Access) (st : State) (s : Store) (safe : Bool) (x : MemoryAddress)
      → Tracks gens a st
      → IsChild b (children_of a)
      → store_of b ≡ some s
      → (safe ≡ true → SafeStore s)
      → x.offset < 2 ^ 64
      → (if in_range x s.access.address s.access.size 0 then safe else is_safe_byte st x) ≡ true
      → KnownAt f roots b x
  KnownAt-store gens a b st s safe x h c e ok small set =
      elim (Bool-cases (in_range x s.access.address s.access.size 0)) [
        | inl here ↦
            let t = ok (rw here at set) in
            stored b s x (below a b h.within c) e t.outside t.joined t.pointer t.value here
        | inr there ↦ kept a b s x (h.known x small (rw there at set)) c e there
      ]

  Tracks-define_at :
      (gens : List ℕ) (a b : Access) (st : State) (o : Option Store) (safe : Bool)
      → Tracks gens a st
      → IsChild b (children_of a)
      → contains (number b) gens ≡ false
      → store_of b ≡ o
      → IsBounded o
      → (safe ≡ true → (s : Store) → o ≡ some s → SafeStore s)
      → Tracks (number b ∷ gens) b (define st (number b) o safe)
  unfolding define
  Tracks-define_at gens a b st none safe h c new e bounded ok = record {
    within = below a b h.within c;
    known = λ x small set.
        let unsafe = is_safe_byte-new (number b) gens st x h.recent new in cc (unsafe, set);
    recent = record {
      active = ground arith;
      entries = λ x s found. let old = h.recent.entries x s found in ground (arith, old);
    };
  }
  Tracks-define_at gens a b st (some s) safe h c new e (low, size) ok = record {
    within = below a b h.within c;
    known = λ x small set.
        let law =
          set_range_safety_sound st s.access.address x safe s.access.size 0 low
            (omega (arith, size)) small in
        KnownAt-store gens a b st s safe x h c e (λ safe. ok safe s refl) small (sym law ∙ set);
    recent =
        Recent-more (number b) gens (set_range_safety st s.access.address safe s.access.size 0)
          (set_range_safety-Recent gens st s.access.address safe s.access.size 0 h.recent);
  }

  -- The state after a definition.
  pub Tracks-define :
      (gens : List ℕ) (a b : Access) (st : State) (safe : Bool)
      → Tracks gens a st
      → IsChild b (children_of a)
      → contains (number b) gens ≡ false
      → IsBounded (store_of b)
      → (safe ≡ true → (s : Store) → store_of b ≡ some s → SafeStore s)
      → Tracks (number b ∷ gens) b (define st (number b) (store_of b) safe)
  Tracks-define gens a b st safe h c new bounded ok =
      Tracks-define_at gens a b st (store_of b) safe h c new refl bounded ok
