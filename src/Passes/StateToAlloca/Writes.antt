-- ===== src/Passes/StateToAlloca/Writes.antt =====
-- src/passes/state2alloca.cpp: writes to the state and to the local variables.
use vexa.Prelude.{
  ℕ, ◌+◌, ◌-◌, ◌%◌, ◌^◌, ◌≡◌, inl, inr, ap, true, List, [], ◌∷◌, Option, none, some, ◌==◌,
  if◌then◌else◌, arith, Bool-cases, All, AllPairs, length,
}
use vexa.Passes.StateToAlloca.{Alloca, find, Pointer, state_gep, state, alloca}
use vexa.Passes.StateToAlloca.Memory.{Memory, is_in, put, byte_at, write}
use vexa.Passes.StateToAlloca.Copies.{is_copied, Holds}
use vexa.Passes.StateToAlloca.Pointers.{
  Apart, Stays, Avoids, FitsIn, Found, Found-map₂, Found-find, Alone, find-Alone, Denotes, All-true,
}
use vexa.Passes.StateToAlloca.Bytes.{Sim, Holds-write_all, write_outside}

abbrev Among : List Alloca → Alloca → Type 0
Among l a = (x : ℕ) → is_in a.key a.size x ≡ true → is_copied l x ≡ true

find-Among : (k : ℕ) (l : List Alloca) → Found (Among l) (find k l)
find-Among k [] = tt
find-Among k (b ∷ l) = elim (Bool-cases (b.key == k % 2 ^ 32)) [
  | inl same ↦ rw same (λ x e. ground (arith, e))
  | inr other ↦ rw other (
      Found-map₂ (Among l) (Among l) (Among (b ∷ l)) (find k l) (λ a p q x e. ground (arith, p x e))
        (find-Among k l) (find-Among k l))
]

write_local-Sim :
    (l : List Alloca) (s : ℕ → ℕ) (m : Memory) (o k d : ℕ) (bytes : List ℕ) (f : Option Alloca)
    → k + d ≡ o
    → Stays o (length bytes) f
    → Found (λ a. (a.key ≡ k) × Unit) f
    → Found (Alone k l) f
    → Found (Among l) f
    → Sim l s m
    → Sim l (put o (length bytes) (byte_at bytes) s) (write (alloca k d) bytes m)
write_local-Sim l s m o k d bytes none e fits key alone among sim = absurd fits
write_local-Sim l s m o k d bytes (some a) e fits key alone among sim = record {
  holds = Holds-write_all s m o k d bytes a l e key.0 fits alone sim.holds;
  outside =
      write_outside s (byte_at bytes) m l o (length bytes) a (omega (arith, e, key.0)) fits among
        sim.outside;
}

-- A write to the state that avoids the local variables.
Holds-put_all :
    (s bytes : ℕ → ℕ) (m : Memory) (o n : ℕ) (l : List Alloca)
    → Avoids l o n
    → All (Holds s m) l
    → All (Holds (put o n bytes s) m) l
Holds-put_all s bytes m o n [] avoids h = tt
Holds-put_all s bytes m o n (b ∷ l) avoids h = (
  (λ i lt. elim (Bool-cases (is_in o n (b.key + i))) [
    | inl here ↦
        let missed = avoids (b.key + i) (ground (arith, here)) (ground (arith, here)) in
        absurd (ground (arith, missed, lt))
    | inr there ↦ rw there (h.0 i lt)
  ]),
  Holds-put_all s bytes m o n l
      (λ x low high. let missed = avoids x low high in ground (arith, missed)) h.1,
)

write_state-Sim :
    (l : List Alloca) (s : ℕ → ℕ) (m : Memory) (o p : ℕ) (bytes : List ℕ)
    → p ≡ o
    → Avoids l o (length bytes)
    → Sim l s m
    → Sim l (put o (length bytes) (byte_at bytes) s) (write (state p) bytes m)
write_state-Sim l s m o p bytes e avoids sim = record {
  holds = Holds-put_all s (byte_at bytes) m o (length bytes) l avoids sim.holds;
  outside = λ x away. rw e (
      ap (λ v. if is_in o (length bytes) x then byte_at bytes (x - o) else v) (sim.outside x away));
}

pub write-Sim :
    (l : List Alloca) (s : ℕ → ℕ) (m : Memory) (o : ℕ) (q : Pointer) (bytes : List ℕ)
    → AllPairs Apart l
    → Denotes o q
    → FitsIn l o (length bytes) q
    → Sim l s m
    → Sim l (put o (length bytes) (byte_at bytes) s) (write q bytes m)
write-Sim l s m o (state_gep p) bytes apart e h sim = write_state-Sim l s m o p bytes e h sim
write-Sim l s m o (state p) bytes apart e h sim = write_state-Sim l s m o p bytes e h sim
write-Sim l s m o (alloca k d) bytes apart e h sim =
    let narrow : k ≡ k % 2 ^ 32 = omega (arith, e, h.0) in
    write_local-Sim l s m o k d bytes (find k l) e h.1
      (Found-find (λ a. Unit) k k l narrow (All-true l)) (find-Alone k l narrow apart)
      (find-Among k l) sim
