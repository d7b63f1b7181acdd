-- ===== src/Cpu/Lift.antt =====
-- src/arch/arch.cpp: `CFG_recovery`, `process_instruction`, `lift_instruction` and the loop of `run`.
-- Forking at conditional moves (the option FORK_AT_CMOVS) is off.
use vexa.Prelude.{
  ℕ, zero, suc, ◌+◌, ◌*◌, ◌/◌, ◌^◌, ◌-◌, Bool, true, false, List, [], ◌∷◌, Option, none, some,
  Result, ok, throw, ◌>>=◌, if◌then◌else◌, find, insert_or_assign, try_emplace, ◌==◌,
}
use vexa.Terms.{Bitwuzla}
use vexa.Value.{Value, is_concrete, term_as_uint64, simplify, possible_values, concrete}
use vexa.Memory.{MemPage, page_find, u64, u8}
use vexa.Memory.Heap.{page_at}
use vexa.Emulator.{Predicate, visit_icmp_inst}
use vexa.Cpu.{
  symbolic_exploration, cfg_recovery, vcfg_recovery, merge_by_pc, specialize_by_path, direct_jump,
  indirect_jump, instruction_lift, br, unreachable, ret, Cpu, restore_snapshot, terminate,
}
use vexa.Cpu.Paths.{Host, Lifted, branching}

-- `internal_lifter_status`
pub data Status : Type 0 where
  successful explore_other_paths function_ended : Status

abbrev or_throw {ℓ} : {A : Type ℓ} → Option A → Result A
or_throw none = throw
or_throw (some a) = ok a

module _ ⦃B : Bitwuzla⦄ where
  open B use {Term, is_value}

  -- Whether `run` goes on, and with what state.
  pub data Outcome : Type 0 where
    running finished : Cpu → Outcome

  -- The bytes at the program counter, `left` of them at most.
  unfoldable pub fetch : ℕ → ℕ → MemPage → List ℕ
  fetch zero pc p = []
  fetch (suc left) pc p =
      let rest = fetch left (pc + 1) p in
      elim (page_find p (u64 pc)) [
        | none ↦ []
        | some c ↦
            if is_value c.original_val.term
            then u8 (term_as_uint64 c.original_val.term / 2 ^ (c.which_byte * 8)) ∷ rest
            else []
      ]

  -- The edge to a block that is there already.
  abbrev pub join : ℕ → Cpu → Cpu
  join b s = terminate (br b) s

  module _ (H : Host) where
    open H use {
      Instruction, decode, is_control_flow, is_conditional_branch, is_direct_control_flow,
      branch_taken_pc, branch_not_taken_pc, following_pc, lift, event_handler, options,
      global_memory,
    }

    -- `CFG_recovery`: whether the edge is rebuilt, and the state.
    unfoldable pub recover_cfg : Cpu → Bool × Cpu
    recover_cfg s = elim options.mode [
      | cfg_recovery ↦ elim options.join_policy [
        | specialize_by_path ↦ elim (find s.path s.vpc) [
          | some lifted ↦ (true, record (join lifted s) { vjmp = false })
          | none ↦ (false, s)
        ]
        | merge_by_pc ↦ elim (find s.cfg s.pc) [
          | some lifted ↦ (true, join lifted s)
          | none ↦ (false, s)
        ]
      ]
      | vcfg_recovery ↦
          if s.vjmp
          then elim options.join_policy [
            | specialize_by_path ↦ elim (find s.path s.vpc) [
              | some lifted ↦ (true, record (join lifted s) { vjmp = false })
              | none ↦ (false, record s { vjmp = false })
            ]
            | merge_by_pc ↦ elim (find s.vcfg s.vpc) [
              | some lifted ↦ (true, record (join lifted s) { vjmp = false })
              | none ↦ (false, record s { vjmp = false })
            ]
          ]
          else (false, s)
      | symbolic_exploration ↦ (false, s)
    ]

    -- `save the lifted block`
    unfoldable pub save_block : Cpu → Cpu
    save_block s = elim options.mode [
      | cfg_recovery ↦ elim options.join_policy [
        | specialize_by_path ↦ record s { path = insert_or_assign s.path s.pc s.block }
        | merge_by_pc ↦ record s { cfg = insert_or_assign s.cfg s.pc s.block }
      ]
      | vcfg_recovery ↦ elim options.join_policy [
        | specialize_by_path ↦ record s { path = try_emplace s.path s.vpc s.block }
        | merge_by_pc ↦ record s { vcfg = try_emplace s.vcfg s.vpc s.block }
      ]
      | symbolic_exploration ↦ s
    ]

    -- The solved addresses of an indirect jump.
    unfoldable pub jump_to_solved : Value → List Term → Cpu → Result (Status × Cpu)
    jump_to_solved next (a ∷ []) s = ok (successful, record s { pc = term_as_uint64 a })
    jump_to_solved next (a ∷ b ∷ []) s = do
      cond ← visit_icmp_inst Predicate.eq next (concrete (term_as_uint64 a) 64)
      ok (successful, branching H cond (term_as_uint64 a) (term_as_uint64 b) s)
    jump_to_solved next _ s = ok (explore_other_paths, s)

    unfoldable pub indirect : Value → Cpu → Result (Status × Cpu)
    unfolding jump_to_solved
    indirect next_value s =
        let next = simplify next_value in
        if is_concrete next
        then ok
            (successful, event_handler indirect_jump (record s { pc = term_as_uint64 next.term }))
        else jump_to_solved next (possible_values next s.path_constraints).0 s

    unfoldable pub control_flow : Instruction → Lifted → Cpu → Result (Status × Cpu)
    unfolding indirect
    control_flow inst l s =
        if is_control_flow inst
        then if is_conditional_branch inst
          then (do
            cond ← or_throw l.condition
            ok (successful, branching H cond (branch_taken_pc inst) (branch_not_taken_pc inst) s))
          else if is_direct_control_flow inst
          then ok (successful, event_handler direct_jump (record s { pc = branch_taken_pc inst }))
          else (do next ← or_throw l.next_pc; indirect next s)
        else ok (successful, record s { pc = following_pc inst })

    -- The new block of the instruction.
    unfoldable pub open_block : Cpu → Cpu
    open_block s = record (terminate (br s.blocks) s) {
      block = s.blocks;
      insert_point = s.blocks;
      blocks = s.blocks + 1;
    }

    unfoldable pub lift_instruction : Instruction → Cpu → Result (Status × Cpu)
    unfolding open_block save_block control_flow
    lift_instruction inst s =
        let s' = event_handler instruction_lift (open_block s) in
        elim (lift inst s'.pc s'.memory) [
          | none ↦ ok (explore_other_paths, record (terminate unreachable s') { pc = 2 ^ 64 - 1 })
          | some l ↦ control_flow inst l (save_block (record s' { memory = l.memory }))
        ]

    -- What is left of `process_instruction` once no edge is rebuilt.
    unfoldable pub lift_at : Cpu → Result (Status × Cpu)
    unfolding fetch lift_instruction
    lift_at s = elim (decode s.pc (fetch 15 s.pc (page_at s.memory global_memory))) [
      | none ↦ ok (explore_other_paths, s)
      | some inst ↦ lift_instruction inst s >>= λ r.
          ok (r.0, record r.1 { lifted_count = suc r.1.lifted_count })
    ]

    unfoldable pub process_instruction : Cpu → Result (Status × Cpu)
    unfolding recover_cfg lift_at
    process_instruction s =
        let (rebuilt, s') = recover_cfg s in
        if s.pc == 0
        then ok (function_ended, s)
        else if rebuilt
        then ok (explore_other_paths, s')
        else lift_at s'

    -- The next path, or the end.
    unfoldable pub explore : Cpu → Outcome
    explore s = elim s.unexplored_paths [
      | [] ↦ finished s
      | ◌∷◌ path paths ↦ running (restore_snapshot (record s { unexplored_paths = paths }) path)
    ]

    -- One round of the loop of `run`.
    unfoldable pub run_step : Cpu → Result Outcome
    unfolding process_instruction explore
    run_step s = process_instruction s >>= λ r. ok (elim r.0 [
      | function_ended ↦ explore (terminate ret r.1)
      | explore_other_paths ↦ explore r.1
      | successful ↦ running r.1
    ])

    -- The loop, for `fuel` rounds at most.
    unfoldable pub run : ℕ → Cpu → Result Outcome
    unfolding run_step
    run zero s = ok (running s)
    run (suc fuel) s =
        run_step s >>= λ o. elim o [ finished s' ↦ ok (finished s') | running s' ↦ run fuel s' ]
