-- ===== src/Passes/ConstantPropagation/ByteSafety/Range.antt =====
-- src/passes/constant_propagation_memory.cpp: the bytes that a store makes safe or unsafe.
use vexa.Prelude.{
  ℕ, zero, suc, ◌+◌, ◌^◌, ◌<◌, ◌≤◌, ◌≡◌, ◌↔◌, ◌∙◌, refl, Bool, true, false, ◌&&◌, ◌||◌, ltb, leb,
  ◌==◌, if◌then◌else◌, arith, inl, inr, Bool-cases,
}
use vexa.Memory.{u64}
use vexa.Passes.ConstantPropagation.ByteSafety.{
  MemoryAddress, same_address, State, is_safe_byte, set_byte_safety, set_range_safety,
  range_is_safe,
}
use vexa.Passes.ConstantPropagation.ByteSafety.Restore.{set_byte_safety-is_safe_byte}

-- An address among `left` bytes from `offset` after `base` on.
abbrev pub in_range : MemoryAddress → MemoryAddress → ℕ → ℕ → Bool
in_range x base left offset =
    (x.page == base.page)
    && leb (base.offset + offset) x.offset
    && ltb x.offset (base.offset + offset + left)

in_range-suc :
    (x base : MemoryAddress) (left offset o : ℕ)
    → o ≡ base.offset + offset
    → in_range x base (suc left) offset
      ≡ in_range x base left (offset + 1)
        || same_address x (record { page = base.page; offset = o })
in_range-suc x base left offset o h = ground arith

either :
    (a b c safe old new : Bool)
    → c ≡ a || b
    → new ≡ (if b then safe else old)
    → (if a then safe else new) ≡ (if c then safe else old)
either true b c safe old new h k = rw h refl
either false b c safe old new h k = rw h k

-- The bytes of a store get its safety, up to the end of the address space, and every other byte
-- keeps its own.
pub set_range_safety_sound :
    (st : State) (base x : MemoryAddress) (safe : Bool) (left offset : ℕ)
    → base.offset < 2 ^ 64
    → offset + left ≤ 2 ^ 64
    → x.offset < 2 ^ 64
    → is_safe_byte (set_range_safety st base safe left offset) x
      ≡ (if in_range x base left offset then safe else is_safe_byte st x)
unfolding set_range_safety
set_range_safety_sound st base x safe zero offset hb hl hx =
    let e : in_range x base 0 offset ≡ false = ground arith in rw e refl
set_range_safety_sound st base x safe (suc left) offset hb hl hx =
    let a : MemoryAddress = record { page = base.page; offset = u64 (base.offset + offset) } in
    elim (Bool-cases (ltb (u64 (base.offset + offset)) base.offset)) [
      | inl wrapped ↦
          let e : in_range x base (suc left) offset ≡ false = ground arith in rw (wrapped, e) refl
      | inr on ↦
          let ih =
            set_range_safety_sound (set_byte_safety st a safe) base x safe left (offset + 1) hb
              (omega (arith, hl)) hx in
          let plain : u64 (base.offset + offset) ≡ base.offset + offset = ground arith in
          rw on (
            ih
            ∙ either (in_range x base left (offset + 1)) (same_address x a)
                (in_range x base (suc left) offset) safe (is_safe_byte st x)
                (is_safe_byte (set_byte_safety st a safe) x)
                (in_range-suc x base left offset (u64 (base.offset + offset)) plain)
                (set_byte_safety-is_safe_byte st a x safe))
    ]

-- `range_is_safe` holds where each byte of the access is safe, and only there.
pub range_is_safe_iff :
    (st : State) (base : MemoryAddress) (left offset : ℕ)
    → (range_is_safe st base left offset ≡ true) ↔ (
        (i : ℕ)
        → offset ≤ i
        → i < offset + left
        → is_safe_byte st (record { page = base.page; offset = u64 (base.offset + i) }) ≡ true)
unfolding range_is_safe
range_is_safe_iff st base zero offset = (λ _ i h k. absurd (omega (arith, h, k)), λ _. refl)
range_is_safe_iff st base (suc left) offset =
    let ih = range_is_safe_iff st base left (offset + 1) in
    let b = is_safe_byte st (record { page = base.page; offset = u64 (base.offset + offset) }) in
    (
      λ h i lo hi. elim (Bool-cases b) [
        | inl safe ↦ elim (Bool-cases (offset == i)) [
          | inl same ↦ let e : i ≡ offset = ground arith in rw e safe
          | inr other ↦ ih.0 (rw safe at h) i (ground (arith, other, lo)) (omega (arith, hi))
        ]
        | inr bad ↦ absurd (ground (arith, bad, h))
      ],
      λ all.
          rw (all offset (omega arith) (omega arith))
            (ih.1 (λ i lo hi. all i (omega (arith, lo)) (omega (arith, hi)))),
    )

-- A load of bytes that a store has just written is safe where the store is, for a load inside the
-- store, neither of which goes past the end of the address space.
pub range_is_safe-set_range_safety :
    (st : State) (base a : MemoryAddress) (size left : ℕ)
    → base.offset + size ≤ 2 ^ 64
    → a.page ≡ base.page
    → base.offset ≤ a.offset
    → a.offset + left ≤ base.offset + size
    → range_is_safe (set_range_safety st base true size 0) a left 0 ≡ true
range_is_safe-set_range_safety st base a size left hs hp lo hi =
    (range_is_safe_iff (set_range_safety st base true size 0) a left 0).1 (λ i ge lt.
      let plain : u64 (a.offset + i) ≡ a.offset + i = ground arith in
      let x : MemoryAddress = record { page = a.page; offset = u64 (a.offset + i) } in
      let inside : in_range x base size 0 ≡ true = ground (arith, plain, hp, lo, hi, lt) in
      set_range_safety_sound st base x true size 0 (omega (arith, hs, lo, hi, lt))
        (omega (arith, hs)) (omega (arith, plain, hi, lt, hs))
      ∙ rw inside refl)
