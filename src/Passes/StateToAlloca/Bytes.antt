-- ===== src/Passes/StateToAlloca/Bytes.antt =====
-- src/passes/state2alloca.cpp: reads and writes with local variables.
use vexa.Prelude.{
  ℕ, zero, suc, ◌+◌, ◌-◌, ◌%◌, ◌^◌, ◌≤◌, ◌<◌, ◌≡◌, ◌⊎◌, inl, inr, ◌∙◌, sym, ap, refl, true, false,
  List, [], ◌∷◌, Option, none, some, ◌==◌, if◌then◌else◌, arith, Bool-cases, All, length,
}
use vexa.Passes.StateToAlloca.{Alloca, find, Pointer, state_gep, state, alloca}
use vexa.Passes.StateToAlloca.Memory.{
  Memory, is_in, put, put_local, bytes_from, byte_at, read, write,
}
use vexa.Passes.StateToAlloca.Copies.{is_copied, Holds}
use vexa.Passes.StateToAlloca.Pointers.{
  Apart, Stays, Avoids, FitsIn, Found, Found-find, Alone, Denotes,
}

-- The local variables have their bytes of the state `s`, the state in memory all the others.
pub record Sim (l : List Alloca) (s : ℕ → ℕ) (m : Memory) : Type 0 where
  pub holds : All (Holds s m) l
  pub outside : (x : ℕ) → is_copied l x ≡ false → m.state_bytes x ≡ s x

bytes_from_equal :
    (f g : ℕ → ℕ) (d o n : ℕ)
    → ((j : ℕ) → j < n → f (d + j) ≡ g (o + j))
    → bytes_from f d n ≡ bytes_from g o n
bytes_from_equal f g d o zero h = refl
bytes_from_equal f g d o (suc n) h =
    let first : f d ≡ g o = ap f (omega arith) ∙ h 0 (omega arith) ∙ ap g (omega arith) in
    let rest =
      bytes_from_equal f g (suc d) (suc o) n
        (λ j lt. ap f (omega arith) ∙ h (suc j) (omega (arith, lt)) ∙ ap g (omega arith)) in
    cc (first, rest)

read_local :
    (s : ℕ → ℕ) (m : Memory) (o n k d : ℕ) (f : Option Alloca)
    → k + d ≡ o
    → Stays o n f
    → Found (λ a. (a.key ≡ k) × Holds s m a) f
    → bytes_from (m.local_bytes k) d n ≡ bytes_from s o n
read_local s m o n k d none e h q = absurd h
read_local s m o n k d (some a) e h q = bytes_from_equal (m.local_bytes k) s d o n (λ j lt.
    let same : a.key + (d + j) ≡ o + j = omega (arith, e, q.0) in
    ap (λ x. m.local_bytes x (d + j)) (sym q.0)
    ∙ q.1 (d + j) (omega (arith, e, h, q.0, lt))
    ∙ ap s same)

read_state :
    (l : List Alloca) (s : ℕ → ℕ) (m : Memory) (o n p : ℕ)
    → Sim l s m
    → p ≡ o
    → Avoids l o n
    → bytes_from m.state_bytes p n ≡ bytes_from s o n
read_state l s m o n p sim e h = bytes_from_equal m.state_bytes s p o n (λ j lt.
    ap (λ x. m.state_bytes (x + j)) e
    ∙ sim.outside (o + j) (h (o + j) (omega arith) (omega (arith, lt))))

pub read-Sim :
    (l : List Alloca) (s : ℕ → ℕ) (m : Memory) (o n : ℕ) (q : Pointer)
    → Sim l s m
    → Denotes o q
    → FitsIn l o n q
    → read m q n ≡ bytes_from s o n
read-Sim l s m o n (state_gep p) sim e h = read_state l s m o n p sim e h
read-Sim l s m o n (state p) sim e h = read_state l s m o n p sim e h
read-Sim l s m o n (alloca k d) sim e h =
    let narrow : k ≡ k % 2 ^ 32 = omega (arith, e, h.0) in
    read_local s m o n k d (find k l) e h.1 (Found-find (Holds s m) k k l narrow sim.holds)

-- A byte of a local variable that is at `i` in it and a write of `n` bytes at `d` in that of `k`.
Holds-put_same :
    (s bytes : ℕ → ℕ) (m : Memory) (o n k d : ℕ) (b : Alloca)
    → k + d ≡ o
    → b.key ≡ k
    → Holds s m b
    → (i : ℕ) → i < b.size
    → put d n bytes (m.local_bytes k) i ≡ put o n bytes s (b.key + i)
Holds-put_same s bytes m o n k d b e same h i lt =
    let old : m.local_bytes k i ≡ s (b.key + i) = ap (λ x. m.local_bytes x i) (sym same) ∙ h i lt in
    let test : is_in o n (b.key + i) ≡ is_in d n i = ground (arith, e, same) in
    let place : (b.key + i) - o ≡ i - d = omega (arith, e, same) in
    rw (test, place) (ap (λ x. if is_in d n i then bytes (i - d) else x) old)

-- A byte of a local variable that a write of `n` bytes at `o` does not meet.
Holds-put_other :
    (s bytes : ℕ → ℕ) (o n : ℕ) (v x : ℕ) → (x < o) ⊎ (o + n ≤ x) → v ≡ s x → v ≡ put o n bytes s x
Holds-put_other s bytes o n v x (inl h) e =
    let away : is_in o n x ≡ false = ground (arith, h) in rw away e
Holds-put_other s bytes o n v x (inr h) e =
    let away : is_in o n x ≡ false = ground (arith, h) in rw away e

Holds-write_local :
    (s bytes : ℕ → ℕ) (m : Memory) (o n k d : ℕ) (a b : Alloca)
    → k + d ≡ o
    → a.key ≡ k
    → o + n ≤ a.key + a.size
    → (b.key ≡ k) ⊎ Apart a b
    → Holds s m b
    → (i : ℕ) → i < b.size
    → put_local k (put d n bytes (m.local_bytes k)) m.local_bytes b.key i
      ≡ put o n bytes s (b.key + i)
Holds-write_local s bytes m o n k d a b e found fits apart h i lt = elim (Bool-cases (b.key == k)) [
  | inl same ↦ rw same (Holds-put_same s bytes m o n k d b e (ground (arith, same)) h i lt)
  | inr other ↦
      let place : (b.key + i < o) ⊎ (o + n ≤ b.key + i) = elim apart [
        | inl key ↦ absurd (ground (arith, key, other))
        | inr (inl before) ↦ inr (omega (arith, before, fits))
        | inr (inr after) ↦ inl (omega (arith, after, e, found, lt))
      ] in
      rw other (Holds-put_other s bytes o n (m.local_bytes b.key i) (b.key + i) place (h i lt))
]

pub Holds-write_all :
    (s : ℕ → ℕ) (m : Memory) (o k d : ℕ) (bytes : List ℕ) (a : Alloca) (l : List Alloca)
    → k + d ≡ o
    → a.key ≡ k
    → o + length bytes ≤ a.key + a.size
    → Alone k l a
    → All (Holds s m) l
    → All (Holds (put o (length bytes) (byte_at bytes) s) (write (alloca k d) bytes m)) l
Holds-write_all s m o k d bytes a [] e found fits apart h = tt
Holds-write_all s m o k d bytes a (b ∷ l) e found fits apart h = (
  Holds-write_local s (byte_at bytes) m o (length bytes) k d a b e found fits apart.0 h.0,
  Holds-write_all s m o k d bytes a l e found fits apart.1 h.1,
)

-- A write inside a local variable meets none of the other bytes of the state.
pub write_outside :
    (s bytes : ℕ → ℕ) (m : Memory) (l : List Alloca) (o n : ℕ) (a : Alloca)
    → a.key ≤ o
    → o + n ≤ a.key + a.size
    → ((x : ℕ) → is_in a.key a.size x ≡ true → is_copied l x ≡ true)
    → ((x : ℕ) → is_copied l x ≡ false → m.state_bytes x ≡ s x)
    → (x : ℕ) → is_copied l x ≡ false
    → m.state_bytes x ≡ put o n bytes s x
write_outside s bytes m l o n a low high among h x away = elim (Bool-cases (is_in o n x)) [
  | inl here ↦ absurd (ground (arith, among x (ground (arith, here, low, high)), away))
  | inr there ↦ rw there (h x away)
]
