-- ===== src/Passes/ConstantPropagation/Traversal/Reference.antt =====
-- src/passes/constant_propagation_memory.cpp: the walk with its stack and its undo log, beside a
-- recursion over the tree of accesses, which has neither.
use vexa.Prelude.{
  ℕ, ◌≡◌, ◌∙◌, ap, refl, Bool, true, false, List, [], ◌∷◌, Option, none, some, if◌then◌else◌,
  length,
}
use vexa.Passes.ConstantPropagation.ByteSafety.{UndoRecord, ByteMap, State, roll, rollback}
use vexa.Passes.ConstantPropagation.ByteSafety.Restore.{Ahead-refl, Ahead-set_range_safety}
use vexa.Passes.ConstantPropagation.Values.{Instr, Cache}
use vexa.Passes.ConstantPropagation.Traversal.{
  Access, access, Children, last, child, number, store_of, loads_of, children_of, Store, define,
  judge_loads, judge_store, Frame, frame_from, leave, walk, walk_root, initial, rounds,
}

-- A log and a map with the rest of a state.
abbrev restored : State → List UndoRecord × ByteMap → State
restored st r = record st { undo_log = r.0; byte_safety = r.1 }

-- Leaving the frame of a definition restores the state in which it was entered.
leave-define :
    (st : State) (a : Access) (d : ℕ) (s : Option Store) (safe : Bool)
    → leave (frame_from st a) (define st d s safe) ≡ st
unfolding define rollback
leave-define st a d none safe = ap (restored st) (Ahead-refl st).back
leave-define st a d (some s) safe =
    ap (restored st)
      (Ahead-set_range_safety st st s.access.address safe s.access.size 0 (Ahead-refl st)).back

module _ (f : List Instr) where
  -- The accesses below one, `d`, that has the state `st`: each with the state after the
  -- definitions on its path, which is passed down and not restored.
  unfoldable mutual
    pub visit : State → Access → Cache → Cache
    visit st (access d loads s cs) c = visit_all st d cs (judge_loads f st d loads c)

    pub visit_all : State → ℕ → Children → Cache → Cache
    visit_all st d last c = c
    visit_all st d (child a cs) c =
        let (safe, c') = judge_store f st d (store_of a) c in
        visit_all st d cs (visit (define st (number a) (store_of a) safe) a c')

  walk-rounds :
      (cs : Children) (n : ℕ) (a : Access) (ck g : ℕ) (d e : Bool) (stack : List Frame) (st : State)
      (c : Cache)
      → let fr : Frame = record {
        access = a;
        left = cs;
        rollback_checkpoint = ck;
        previous_generation = g;
        previous_default_safety = d;
        entered = e;
      } in
        walk f (rounds cs n) (fr ∷ stack) st c
        ≡ walk f n stack (leave fr st) (
            visit_all st
              (number a)
              cs
              (if e then c else judge_loads f st (number a) (loads_of a) c))
  unfolding walk visit
  walk-rounds last n a ck g d e stack st c = refl
  walk-rounds (child (access k loads s kids) cs) n a ck g d e stack st c =
      let before = if e then c else judge_loads f st (number a) (loads_of a) c in
      let (safe, c') = judge_store f st (number a) s before in
      let fr : Frame = record {
        access = a;
        left = cs;
        rollback_checkpoint = ck;
        previous_generation = g;
        previous_default_safety = d;
        entered = true;
      } in
      let kid : Access = access k loads s kids in
      walk-rounds kids (rounds cs n) kid (length st.undo_log) st.active_generation
        st.default_byte_safety false (fr ∷ stack) (define st k s safe) c'
      ∙ ap (λ st'. walk f (rounds cs n) (fr ∷ stack) st' (visit (define st k s safe) kid c'))
          (leave-define st kid k s safe)
      ∙ walk-rounds cs n a ck g d true stack st (visit (define st k s safe) kid c')

-- The walk from a root ends, its cache is the one that the recursion over the tree of accesses
-- gives, and the map and the log are empty again.
pub walk_root-visit :
    (f : List Instr) (root : Access) (is_live_on_entry : Bool) (c : Cache)
    → walk_root f (rounds (children_of root) 1) root is_live_on_entry c
      ≡ some (
        initial (number root) is_live_on_entry,
        visit f (initial (number root) is_live_on_entry) root c,
      )
unfolding walk_root walk visit rollback roll
walk_root-visit f (access d loads s cs) is_live_on_entry c =
    walk-rounds f cs 1 (access d loads s cs) 0 d is_live_on_entry false []
      (initial d is_live_on_entry) c
