-- ===== src/Passes/StateToAlloca/Copies.antt =====
-- src/passes/state2alloca.cpp: what the copies between the state and the local variables keep.
use mathlib.Core.Path.{subst}
use vexa.Prelude.{
  ℕ, ◌+◌, ◌%◌, ◌^◌, ◌-◌, ◌<◌, ◌≡◌, ◌⊎◌, inl, inr, ◌∙◌, sym, ap, refl, Bool, true, false, ◌||◌, List,
  [], ◌∷◌, ◌==◌, arith, Bool-cases, All,
}
use vexa.Passes.StateToAlloca.{
  Register, offset_of, root, sub, Alloca, insert, create_allocas, slot, offset_to_alloca,
}
use vexa.Passes.StateToAlloca.Memory.{
  Memory, is_in, put, copy_in, copy_out, init_allocas, copy_all_out,
}

-- The offset of the register fits the keys of the map.
abbrev pub IsNarrow : Register → Type 0
IsNarrow r = offset_of r < 2 ^ 32

-- Whether a byte of the state is in a local variable.
abbrev pub is_copied : List Alloca → ℕ → Bool
is_copied [] x = false
is_copied (a ∷ l) x = is_in a.key a.size x || is_copied l x

-- The bytes of a local variable are those of the state `s`.
abbrev pub Holds : (ℕ → ℕ) → Memory → Alloca → Type 0
Holds s m a = (i : ℕ) → i < a.size → m.local_bytes a.key i ≡ s (a.key + i)

put-right :
    (s : ℕ → ℕ) (a : Alloca) (l : List Alloca) (m : Memory) (x : ℕ)
    → Holds s m a
    → (is_copied (a ∷ l) x ≡ true) ⊎ (m.state_bytes x ≡ s x)
    → (is_copied l x ≡ true) ⊎ (put a.key a.size (m.local_bytes a.key) m.state_bytes x ≡ s x)
put-right s a l m x h k = elim (Bool-cases (is_in a.key a.size x)) [
  | inl here ↦
      let e : a.key + (x - a.key) ≡ x = ground (arith, here) in
      inr (rw here (h (x - a.key) (ground (arith, here)) ∙ ap s e))
  | inr away ↦ elim k [ inl e ↦ inl (ground (arith, away, e)) | inr e ↦ inr (rw away e) ]
]

pub copy_all_out-state :
    (s : ℕ → ℕ) (l : List Alloca) (m : Memory) (x : ℕ)
    → All (Holds s m) l
    → (is_copied l x ≡ true) ⊎ (m.state_bytes x ≡ s x)
    → (copy_all_out l m).state_bytes x ≡ s x
unfolding copy_all_out copy_out
copy_all_out-state s [] m x h (inl e) = ground (arith, e)
copy_all_out-state s [] m x h (inr e) = e
copy_all_out-state s (a ∷ l) m x h k =
    copy_all_out-state s l (copy_out a m) x h.1 (put-right s a l m x h.0 k)

copy_in-Holds :
    (a b : Alloca) (m : Memory)
    → (i : ℕ)
    → ((b.key ≡ a.key) × (i < a.size)) ⊎ (m.local_bytes b.key i ≡ m.state_bytes (b.key + i))
    → (copy_in a.key a m).local_bytes b.key i ≡ m.state_bytes (b.key + i)
unfolding copy_in
copy_in-Holds a b m i h = elim (Bool-cases (b.key == a.key)) [
  | inl same ↦
      let e : b.key ≡ a.key = ground (arith, same) in
      elim (Bool-cases (is_in 0 a.size i)) [
        | inl here ↦ rw (same, here) (ap m.state_bytes (omega (arith, e)))
        | inr away ↦ elim h [
          | inl (k, l) ↦ absurd (ground (arith, away, l))
          | inr q ↦ rw (same, away) (ap (λ k. m.local_bytes k i) (sym e) ∙ q)
        ]
      ]
  | inr other ↦ elim h [ inl e ↦ absurd (ground (arith, other, e)) | inr e ↦ rw other e ]
]

copy_in-All :
    (a : Alloca) (l : List Alloca) (m : Memory)
    → All (Holds m.state_bytes m) l
    → All (Holds m.state_bytes (copy_in a.key a m)) l
copy_in-All a [] m h = tt
copy_in-All a (b ∷ l) m h =
    ((λ i lt. copy_in-Holds a b m i (inr (h.0 i lt))), copy_in-All a l m h.1)

insert-All :
    (P : Alloca → Type 0) (a : Alloca) (l : List Alloca) → P a → All P l → All P (insert a l)
insert-All P a [] h k = (h, tt)
insert-All P a (b ∷ l) h k = elim (Bool-cases (b.key == a.key)) [
  | inl same ↦ rw same (h, k.1)
  | inr other ↦ rw other (k.0, insert-All P a l h k.1)
]

copy_in-insert :
    (a : Alloca) (l : List Alloca) (m : Memory)
    → All (Holds m.state_bytes m) l
    → All (Holds m.state_bytes (copy_in a.key a m)) (insert a l)
copy_in-insert a l m h =
    insert-All (Holds m.state_bytes (copy_in a.key a m)) a l
      (λ i lt. copy_in-Holds a a m i (inl (refl, lt))) (copy_in-All a l m h)

-- The local variables get the bytes of the state, which stays as it is.
init_allocas-All :
    (rs : List Register) (l : List Alloca) (m : Memory)
    → All IsNarrow rs
    → All (Holds m.state_bytes m) l
    → All (Holds m.state_bytes (init_allocas rs m)) (create_allocas rs l)
      × ((init_allocas rs m).state_bytes ≡ m.state_bytes)
unfolding init_allocas copy_in
init_allocas-All [] l m narrow h = (h, refl)
init_allocas-All (root o n ∷ rs) l m narrow h =
    let a : Alloca = record { key = o; size = n } in
    let same : o % 2 ^ 32 ≡ o = omega (arith, narrow.0) in
    subst
      (λ k.
        let b : Alloca = record { key = k; size = n } in
        All (Holds m.state_bytes (init_allocas rs (copy_in o b m))) (create_allocas rs (insert b l))
        × ((init_allocas rs (copy_in o b m)).state_bytes ≡ m.state_bytes))
      (sym same)
      (init_allocas-All rs (insert a l) (copy_in a.key a m) narrow.1 (copy_in-insert a l m h))
init_allocas-All (sub o n p ∷ rs) l m narrow h = init_allocas-All rs l m narrow.1 h

-- What the entry block leaves.
pub copies_in :
    (rs : List Register) (m : Memory)
    → All IsNarrow rs
    → All (Holds m.state_bytes (init_allocas rs (copy_in slot.key slot m))) (offset_to_alloca rs)
      × ((init_allocas rs (copy_in slot.key slot m)).state_bytes ≡ m.state_bytes)
unfolding offset_to_alloca copy_in
copies_in rs m narrow =
    init_allocas-All rs (slot ∷ []) (copy_in slot.key slot m) narrow (copy_in-insert slot [] m tt)
