-- ===== src/Passes/ConstantPropagation/Traversal/Sound.antt =====
-- src/passes/constant_propagation_memory.cpp: the walks from all roots and known values.
use mathlib.Core.Option.{some-injective}
use vexa.Prelude.{
  ℕ, suc, ◌≡◌, refl, Bool, true, false, not, ◌&&◌, List, [], ◌∷◌, Option, none, some, leb,
  get_elem?, arith, inl, inr, Bool-cases, All, contains,
}
use vexa.Passes.ConstantPropagation.ByteSafety.{State}
use vexa.Passes.ConstantPropagation.Values.{
  instruction, Instr, Cache, safe, all_safe, is_safe_value, depth,
}
use vexa.Passes.ConstantPropagation.Traversal.{
  Access, access, Children, last, child, Store, store_of, number, children_of, initial, settled,
  judge_loads, judge_store, store_is_safe, walk_roots, define,
}
use vexa.Passes.ConstantPropagation.Traversal.Reference.{visit, visit_all, walk_root-visit}
use vexa.Passes.ConstantPropagation.Traversal.Known.{Known, IsChild, IsTree, AreTrees, IsBounded}
use vexa.Passes.ConstantPropagation.Traversal.Tracks.{
  SafeStore, Tracks, Tracks-initial, Tracks-define,
}
use vexa.Passes.ConstantPropagation.Traversal.Judged.{
  Justified, Judged-settled, AllKnown, all_safe_sound, is_safe_value-IsSoundTest,
}

module _ (f : List Instr) (roots : List (Access × Bool)) where
  judge_loads-Justified :
      (gens : List ℕ) (a : Access) (st : State) (ls : List ℕ) (c : Cache)
      → Tracks f roots gens a st
      → Justified f roots c
      → Justified f roots (judge_loads f st (number a) ls c)
  unfolding judge_loads
  judge_loads-Justified gens a st [] c ha hc = hc
  judge_loads-Justified gens a st (l ∷ ls) c ha hc =
      let o = is_safe_value (depth f) f st (number a) (instruction l) c in
      judge_loads-Justified gens a st ls (settled c o).1 ha
        (Judged-settled f roots (Known f roots (instruction l)) c o hc
          (is_safe_value-IsSoundTest f roots gens a st ha (depth f) (instruction l) c hc)).0

  store_is_safe_sound :
      (gens : List ℕ) (a : Access) (st : State) (s : Store) (c : Cache)
      → Tracks f roots gens a st
      → Justified f roots c
      → Justified f roots (store_is_safe f st (number a) s c).1
        × ((store_is_safe f st (number a) s c).0 ≡ true → SafeStore f roots s)
  unfolding store_is_safe
  store_is_safe_sound gens a st s c ha hc =
      elim (Bool-cases (not s.in_loop && leb s.predecessors 1)) [
        | inl may ↦
            let vs = s.pointer ∷ s.value ∷ [] in
            let o = all_safe (is_safe_value (depth f) f st (number a)) vs c in
            let (hc', known) = Judged-settled f roots (AllKnown f roots vs) c o hc (
              all_safe_sound f roots (is_safe_value (depth f) f st (number a)) vs c
                (is_safe_value-IsSoundTest f roots gens a st ha (depth f)) hc) in
            rw may (
              hc',
              λ ok. record {
                outside = ground arith;
                joined = ground arith;
                pointer = known ok 0 s.pointer refl;
                value = known ok 1 s.value refl;
              },
            )
        | inr off ↦ rw off (hc, λ e. cc)
      ]

  judge_store_sound :
      (gens : List ℕ) (a : Access) (st : State) (o : Option Store) (c : Cache)
      → Tracks f roots gens a st
      → Justified f roots c
      → Justified f roots (judge_store f st (number a) o c).1
        × ((judge_store f st (number a) o c).0 ≡ true
            → (s : Store) → o ≡ some s
            → SafeStore f roots s)
  judge_store_sound gens a st none c ha hc = (hc, λ e. cc)
  judge_store_sound gens a st (some s) c ha hc =
      let (hc', h) = store_is_safe_sound gens a st s c ha hc in
      (hc', λ ok t e. rw (← some-injective s t e) (h ok))

  IsTree-parts :
      (gens : List ℕ) (a : Access)
      → IsTree gens a
      → (contains (number a) gens ≡ false)
        × IsBounded (store_of a)
        × AreTrees (number a ∷ gens) (children_of a)
  unfolding IsTree
  IsTree-parts gens (access d loads s cs) h = h

  mutual
    unfolding visit IsTree

    visit-Justified :
        (gens : List ℕ) (st : State) (a : Access) (c : Cache)
        → AreTrees gens (children_of a)
        → Tracks f roots gens a st
        → Justified f roots c
        → Justified f roots (visit f st a c)
    visit-Justified gens st (access d loads s cs) c trees ha hc =
        visit_all-Justified gens st (access d loads s cs) cs (judge_loads f st d loads c) trees ha
          (λ b h. h) (judge_loads-Justified gens (access d loads s cs) st loads c ha hc)

    visit_all-Justified :
        (gens : List ℕ) (st : State) (a : Access) (cs : Children) (c : Cache)
        → AreTrees gens cs
        → Tracks f roots gens a st
        → ((b : Access) → IsChild b cs → IsChild b (children_of a))
        → Justified f roots c
        → Justified f roots (visit_all f st (number a) cs c)
    visit_all-Justified gens st a last c trees ha hcs hc = hc
    visit_all-Justified gens st a (child b cs) c trees ha hcs hc =
        let (hc', ok_store) = judge_store_sound gens a st (store_of b) c ha hc in
        let (new, bounded, below) = IsTree-parts gens b trees.0 in
        let safe_store = (judge_store f st (number a) (store_of b) c).0 in
        let hb =
          Tracks-define f roots gens a b st safe_store ha (hcs b (inl refl)) new bounded ok_store in
        visit_all-Justified gens st a cs _ trees.1 ha (λ d h. hcs d (inr h))
          (visit-Justified (number b ∷ gens) (define st (number b) (store_of b) safe_store) b _
            below hb hc')

  walk_roots-Justified :
      (left : List (Access × Bool)) (c : Cache)
      → All (λ r. IsTree [] r.0) left
      → ((i : ℕ) (r : Access × Bool)
          → get_elem? left i ≡ some r
          → (j : ℕ) × (get_elem? roots j ≡ some r))
      → Justified f roots c
      → (c' : Cache) × (walk_roots f left c ≡ some c') × Justified f roots c'
  unfolding walk_roots
  walk_roots-Justified [] c trees h hc = (c, refl, hc)
  walk_roots-Justified ((root, live) ∷ left) c trees h hc =
      let (j, e) = h 0 (root, live) refl in
      let st = initial (number root) live in
      let (new, bounded, below) = IsTree-parts [] root trees.0 in
      let (c', e', hc') =
        walk_roots-Justified left (visit f st root c) trees.1 (λ i. h (suc i))
          (visit-Justified (number root ∷ []) st root c below (Tracks-initial f roots j root live e)
            hc) in
      (c', rw (walk_root-visit f root live c) e', hc')

-- Where no memory access has the number of one above it in the trees and the fields of the stores
-- are of 64 bits, the walks from all roots end, and every instruction that they call safe is known:
-- it is computed, outside loops and phis, from constants, arguments and loads of known bytes. A byte
-- is known at a memory access where it is one of the live memory on entry, or of a store of a known
-- value to a known pointer outside loops, that no store on the path from there meets; on that path
-- there is no definition but stores to known addresses.
pub walk_roots_sound :
    (f : List Instr) (roots : List (Access × Bool))
    → All (λ r. IsTree [] r.0) roots
    → (c : Cache) × (walk_roots f roots (λ i. none) ≡ some c)
      × ((i : ℕ) → c i ≡ some safe → Known f roots (instruction i))
walk_roots_sound f roots trees =
    walk_roots-Justified f roots roots (λ i. none) trees (λ i r e. (i, e)) (λ i e. cc)
