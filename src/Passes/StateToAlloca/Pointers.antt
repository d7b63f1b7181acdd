-- ===== src/Passes/StateToAlloca/Pointers.antt =====
-- src/passes/state2alloca.cpp: what a replaced pointer points to.
use vexa.Prelude.{
  ℕ, ◌+◌, ◌^◌, ◌%◌, ◌≤◌, ◌<◌, ◌≡◌, ◌⊎◌, inl, inr, refl, false, List, [], ◌∷◌, Option, none, some,
  ◌==◌, if◌then◌else◌, arith, Bool-cases, All, AllPairs, length,
}
use vexa.Passes.StateToAlloca.{
  Register, offset_of, root_of, find_parent, sub_to_parent, Alloca, find, offset_to_alloca, Pointer,
  state_gep, state, alloca, into_alloca, into_parent, replace_gep, replace, Code, ret, load, store,
}
use vexa.Passes.StateToAlloca.Copies.{is_copied}

-- A part begins no earlier than its register.
abbrev pub StartsIn : Register → Type 0
StartsIn r = offset_of (root_of r) ≤ offset_of r

-- Two local variables that stand for different bytes.
abbrev pub Apart : Alloca → Alloca → Type 0
Apart a b = (a.key + a.size ≤ b.key) ⊎ (b.key + b.size ≤ a.key)

abbrev pub start : Pointer → ℕ
start (state_gep o) = o
start (state o) = o
start (alloca k d) = d

abbrev pub Stays : ℕ → ℕ → Option Alloca → Type 0
Stays o n none = ⊥
Stays o n (some a) = o + n ≤ a.key + a.size

-- No byte of an access has a local variable.
abbrev pub Avoids : List Alloca → ℕ → ℕ → Type 0
Avoids l o n = (x : ℕ) → o ≤ x → x < o + n → is_copied l x ≡ false

-- An access stays in the local variable that its pointer is replaced with, at an offset of 32 bits,
-- or meets none of them.
abbrev pub FitsIn : List Alloca → ℕ → ℕ → Pointer → Type 0
FitsIn l o n (state_gep p) = Avoids l o n
FitsIn l o n (state p) = Avoids l o n
FitsIn l o n (alloca k d) = (o < 2 ^ 32) × Stays o n (find k l)

-- The old code has no pointer to a local variable.
abbrev pub Fits : List Register → Pointer → ℕ → Type 0
Fits rs (state_gep o) n = FitsIn (offset_to_alloca rs) o n (replace rs (state_gep o))
Fits rs (state o) n = Avoids (offset_to_alloca rs) o n
Fits rs (alloca k d) n = ⊥

abbrev pub AllFit : List Register → Code → Type 0
AllFit rs ret = Unit
AllFit rs (load p n f) = Fits rs p n × ((l : List ℕ) → AllFit rs (f l))
AllFit rs (store p l c) = Fits rs p (length l) × AllFit rs c

abbrev AtMost : ℕ → Option Register → Type 0
AtMost o none = Unit
AtMost o (some r) = offset_of r ≤ o

AtMost-parent :
    (o : ℕ) (q : Register) (parent : Option Register)
    → StartsIn q
    → AtMost o parent
    → AtMost o (if o == offset_of q then some (root_of q) else parent)
AtMost-parent o q parent h k = elim (Bool-cases (o == offset_of q)) [
  | inl same ↦ rw same (ground (arith, same, h))
  | inr other ↦ rw other k
]

AtMost-find_parent :
    (o : ℕ) (rs : List Register) (parent : Option Register)
    → All StartsIn rs
    → AtMost o parent
    → AtMost o (find_parent o parent rs)
AtMost-find_parent o [] parent h k = k
AtMost-find_parent o (q ∷ rs) parent h k =
    AtMost-find_parent o rs _ h.1 (AtMost-parent o q parent h.0 k)

AtMost-sub_to_parent :
    (o : ℕ) (rs : List Register) → All StartsIn rs → AtMost (o % 2 ^ 32) (sub_to_parent o rs)
unfolding sub_to_parent
AtMost-sub_to_parent o rs h = AtMost-find_parent (o % 2 ^ 32) rs none h tt

abbrev pub Found : (Alloca → Type 0) → Option Alloca → Type 0
Found P none = Unit
Found P (some a) = P a

pub Found-map₂ :
    (P Q R : Alloca → Type 0) (r : Option Alloca)
    → ((a : Alloca) → P a → Q a → R a)
    → Found P r
    → Found Q r
    → Found R r
Found-map₂ P Q R none f p q = tt
Found-map₂ P Q R (some a) f p q = f a p q

pub Found-find :
    (P : Alloca → Type 0) (k o : ℕ) (l : List Alloca)
    → k ≡ o % 2 ^ 32
    → All P l
    → Found (λ a. (a.key ≡ k) × P a) (find o l)
Found-find P k o [] e h = tt
Found-find P k o (b ∷ l) e h = elim (Bool-cases (b.key == o % 2 ^ 32)) [
  | inl same ↦ rw same (ground (arith, same, e), h.0)
  | inr other ↦ rw other (Found-find P k o l e h.1)
]

-- The others stand for other bytes.
abbrev pub Alone : ℕ → List Alloca → Alloca → Type 0
Alone k l a = All (λ b. (b.key ≡ k) ⊎ Apart a b) l

All-Apart : (k : ℕ) (a : Alloca) (l : List Alloca) → All (Apart a) l → Alone k l a
All-Apart k a [] h = tt
All-Apart k a (b ∷ l) h = (inr h.0, All-Apart k a l h.1)

Apart-sym : (a b : Alloca) → Apart a b → Apart b a
Apart-sym a b (inl h) = inr h
Apart-sym a b (inr h) = inl h

pub find-Alone :
    (k : ℕ) (l : List Alloca) → k ≡ k % 2 ^ 32 → AllPairs Apart l → Found (Alone k l) (find k l)
find-Alone k [] e h = tt
find-Alone k (b ∷ l) e h = elim (Bool-cases (b.key == k % 2 ^ 32)) [
  | inl same ↦ rw same (inl (ground (arith, same, e)), All-Apart k b l h.0)
  | inr other ↦ rw other (
      Found-map₂ (Alone k l) (λ a. (a.key ≡ k) × Apart b a) (Alone k (b ∷ l)) (find k l)
        (λ a p q. (inr (Apart-sym b a q.1), p)) (find-Alone k l e h.1)
        (Found-find (Apart b) k k l e h.0))
]

-- What a pointer that replaces the one to byte `o` of the state points to.
abbrev pub Denotes : ℕ → Pointer → Type 0
Denotes o (state_gep p) = p ≡ o
Denotes o (state p) = p ≡ o
Denotes o (alloca k d) = k + d ≡ o

Denotes-into_alloca :
    (o : ℕ) (r : Register) (f : Option Alloca)
    → offset_of r ≤ o
    → Found (λ a. (a.key ≡ offset_of r) × Unit) f
    → Denotes o (into_alloca o r f)
Denotes-into_alloca o r none h k = refl
Denotes-into_alloca o r (some a) h k = ground (arith, h, k.0)

pub All-true : (l : List Alloca) → All {0, 0} (λ a. Unit) l
All-true [] = tt
All-true (a ∷ l) = (tt, All-true l)

Denotes-into_parent :
    (o : ℕ) (l : List Alloca) (parent : Option Register)
    → AtMost (o % 2 ^ 32) parent
    → Denotes o (into_parent o l parent)
Denotes-into_parent o l none h = refl
Denotes-into_parent o l (some r) h =
    let narrow : offset_of r ≡ offset_of r % 2 ^ 32 = omega (arith, h) in
    Denotes-into_alloca o r (find (offset_of r) l) (omega (arith, h))
      (Found-find (λ a. Unit) (offset_of r) (offset_of r) l narrow (All-true l))

Denotes-replace_gep :
    (o n : ℕ) (l : List Alloca) (rs : List Register) (f : Option Alloca)
    → All StartsIn rs
    → FitsIn l o n (replace_gep o l rs f)
    → Found (λ a. (a.key ≡ o % 2 ^ 32) × Unit) f
    → Denotes o (replace_gep o l rs f)
Denotes-replace_gep o n l rs none h fits k =
    Denotes-into_parent o l (sub_to_parent o rs) (AtMost-sub_to_parent o rs h)
Denotes-replace_gep o n l rs (some a) h fits k = omega (arith, k.0, fits.0)

pub Denotes-replace :
    (o n : ℕ) (rs : List Register)
    → All StartsIn rs
    → FitsIn (offset_to_alloca rs) o n (replace rs (state_gep o))
    → Denotes o (replace rs (state_gep o))
unfolding replace
Denotes-replace o n rs h fits =
    let l = offset_to_alloca rs in
    Denotes-replace_gep o n l rs (find o l) h fits
      (Found-find (λ a. Unit) (o % 2 ^ 32) o l refl (All-true l))
