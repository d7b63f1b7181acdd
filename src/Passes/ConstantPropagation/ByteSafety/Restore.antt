-- ===== src/Passes/ConstantPropagation/ByteSafety/Restore.antt =====
-- src/passes/constant_propagation_memory.cpp: the byte-safety map after a write and after rolling
-- back.
use vexa.Prelude.{
  ℕ, zero, suc, ◌+◌, ◌≤◌, ◌≡◌, ◌∙◌, sym, ap, ap₂, refl, Bool, true, false, List, [], ◌∷◌, Option,
  none, some, ◌==◌, ltb, if◌then◌else◌, length, arith, inl, inr, Bool-cases,
}
use vexa.Memory.{u64}
use vexa.Passes.ConstantPropagation.ByteSafety.{
  MemoryAddress, same_address, ByteState, UndoRecord, ByteMap, State, bool_eq, state_or_null,
  exists, undo_of, is_safe_byte, set_byte_safety, set_range_safety, undo_write, roll,
}

same_address-eq : (a b : MemoryAddress) → same_address a b ≡ true → a ≡ b
same_address-eq a b h =
    let p : a.page ≡ b.page = ground arith in
    let o : a.offset ≡ b.offset = ground arith in ap₂ (λ p o. record { page = p; offset = o }) p o

same_address_refl : (a : MemoryAddress) → same_address a a ≡ true
same_address_refl a = ground arith

bool_eq-eq : (a b : Bool) → bool_eq a b ≡ true → a ≡ b
bool_eq-eq true b h = sym h
bool_eq-eq false true h = cc
bool_eq-eq false false h = refl

same_generation : (g : ℕ) → (g == g) ≡ true
same_generation g = ground arith

-- After a write to a byte, that byte has the written safety and every other byte keeps its own.
pub set_byte_safety-is_safe_byte :
    (st : State) (a x : MemoryAddress) (safe : Bool)
    → is_safe_byte (set_byte_safety st a safe) x
      ≡ (if same_address x a then safe else is_safe_byte st x)
unfolding set_byte_safety is_safe_byte
set_byte_safety-is_safe_byte st a x safe = elim (Bool-cases (same_address x a)) [
  | inl same ↦
      let e : x ≡ a = same_address-eq x a same in
      elim (Bool-cases (bool_eq (is_safe_byte st a) safe)) [
        | inl kept ↦
            rw (same, kept) (ap (is_safe_byte st) e ∙ bool_eq-eq (is_safe_byte st a) safe kept)
        | inr new ↦ elim (Bool-cases (bool_eq safe st.default_byte_safety)) [
          | inl d ↦ rw (same, new, d, same) (sym (bool_eq-eq safe st.default_byte_safety d))
          | inr d ↦ rw (same, new, d, same, same_generation st.active_generation) refl
        ]
      ]
  | inr other ↦ elim (Bool-cases (bool_eq (is_safe_byte st a) safe)) [
    | inl kept ↦ rw (other, kept) refl
    | inr new ↦ elim (Bool-cases (bool_eq safe st.default_byte_safety)) [
      | inl d ↦ rw (other, new, d, other) refl
      | inr d ↦ rw (other, new, d, other) refl
    ]
  ]
]

restored :
    (st : State) (a x : MemoryAddress) (m : ByteMap) (old : Option ByteState)
    → (same_address x a ≡ false → m x ≡ st.byte_safety x)
    → st.byte_safety a ≡ old
    → undo_write (record { address = a; existed = exists old; old_state = state_or_null old }) m x
      ≡ st.byte_safety x
restored st a x m none h e = elim (Bool-cases (same_address x a)) [
  | inl same ↦ rw same (sym (ap st.byte_safety (same_address-eq x a same) ∙ e))
  | inr other ↦ rw other (h other)
]
restored st a x m (some b) h e = elim (Bool-cases (same_address x a)) [
  | inl same ↦ rw same (sym (ap st.byte_safety (same_address-eq x a same) ∙ e))
  | inr other ↦ rw other (h other)
]

-- Undoing a write to `a` restores the map, whatever the write made of `a`.
undo_write-undo_of :
    (st : State) (a : MemoryAddress) (m : ByteMap)
    → ((x : MemoryAddress) → same_address x a ≡ false → m x ≡ st.byte_safety x)
    → undo_write (undo_of st a) m ≡ st.byte_safety
undo_write-undo_of st a m h = λ i x. restored st a x m (st.byte_safety a) (h x) refl i

-- `st` comes after `st0`: its log goes on from the older one, and rolling it back restores that
-- state's map and log.
pub record Ahead (st0 st : State) : Type 0 where
  pub longer : length st0.undo_log ≤ length st.undo_log
  pub back : roll (length st0.undo_log) st.undo_log st.byte_safety ≡ (st0.undo_log, st0.byte_safety)

roll-length : (l : List UndoRecord) (m : ByteMap) → roll (length l) l m ≡ (l, m)
unfolding roll
roll-length [] m = refl
roll-length (u ∷ us) m =
    let e : ltb (length (u ∷ us)) (length (u ∷ us)) ≡ false = ground arith in rw e refl

pub Ahead-refl : (st : State) → Ahead st st
Ahead-refl st = record { longer = omega arith; back = roll-length st.undo_log st.byte_safety }

roll-undo_of :
    (n : ℕ) (st : State) (a : MemoryAddress) (m : ByteMap)
    → n ≤ length st.undo_log
    → ((x : MemoryAddress) → same_address x a ≡ false → m x ≡ st.byte_safety x)
    → roll n (undo_of st a ∷ st.undo_log) m ≡ roll n st.undo_log st.byte_safety
unfolding roll
roll-undo_of n st a m h same =
    let e : ltb n (suc (length st.undo_log)) ≡ true = ground arith in
    rw e (ap (roll n st.undo_log) (undo_write-undo_of st a m same))

Ahead-set_byte_safety :
    (st0 st : State) (a : MemoryAddress) (safe : Bool)
    → Ahead st0 st
    → Ahead st0 (set_byte_safety st a safe)
unfolding set_byte_safety
Ahead-set_byte_safety st0 st a safe h = elim (Bool-cases (bool_eq (is_safe_byte st a) safe)) [
  | inl kept ↦ rw kept h
  | inr new ↦ elim (Bool-cases (bool_eq safe st.default_byte_safety)) [
    | inl d ↦
        rw (new, d)
          (record {
            longer = omega (arith, h.longer);
            back = roll-undo_of (length st0.undo_log) st a _ h.longer (λ x e. rw e refl) ∙ h.back;
          })
    | inr d ↦
        rw (new, d)
          (record {
            longer = omega (arith, h.longer);
            back = roll-undo_of (length st0.undo_log) st a _ h.longer (λ x e. rw e refl) ∙ h.back;
          })
  ]
]

pub Ahead-set_range_safety :
    (st0 st : State) (base : MemoryAddress) (safe : Bool) (left offset : ℕ)
    → Ahead st0 st
    → Ahead st0 (set_range_safety st base safe left offset)
unfolding set_range_safety
Ahead-set_range_safety st0 st base safe zero offset h = h
Ahead-set_range_safety st0 st base safe (suc left) offset h =
    let a : MemoryAddress = record { page = base.page; offset = u64 (base.offset + offset) } in
    elim (Bool-cases (ltb (u64 (base.offset + offset)) base.offset)) [
      | inl wrapped ↦ rw wrapped h
      | inr on ↦ rw on (
          Ahead-set_range_safety st0 (set_byte_safety st a safe) base safe left (offset + 1)
            (Ahead-set_byte_safety st0 st a safe h))
    ]
