-- ===== src/Emulator/Access/Merge.antt =====
-- src/arch/emulator.cpp, the loop of `read_memory`: the value that the comparisons of the address
-- select.
use vexa.Prelude.{
  ℕ, zero, suc, ◌*◌, ◌≡◌, ◌≢◌, ◌⊎◌, ◌∙◌, sym, ap, refl, Bool, true, false, List, [], ◌∷◌, ◌==◌,
  if◌then◌else◌, get_elem?, set, Result, ok, throw, >>=-eq-ok, arith, inl, inr, Bool-cases, All,
}
use vexa.Terms.{Bitwuzla}
use vexa.Terms.Denote.{equal, flag}
use vexa.Value.{Value, value, simplify, is_concrete, term_as_uint64, operate, eq, ite}
use vexa.Value.Simplify.{ite_sound}
use vexa.Memory.{MemPage, reading}
use vexa.Memory.Cells.{IsWf, new_page-IsWf}
use vexa.Memory.Read.{read_page_sound}
use vexa.Memory.Heap.{Memory, Pointer, or_new, page_at, read}
use vexa.Emulator.Access.{Bases, calculate_pointer, read_each}

flag_lem : (b : Bool) (x y : ℕ) → (if flag b == 0 then x else y) ≡ (if b then y else x)
flag_lem true x y = refl
flag_lem false x y = refl

module _ ⦃B : Bitwuzla⦄ where
  open B use {
    Term, Env, is_value, eval, size, size-mk_const, size-mk_binary, size-mk_ite, eval-mk_binary,
  }

  -- Every page of the heap is well formed.
  abbrev pub IsWfHeap : Memory → Type 0
  IsWfHeap m = All IsWf m.heap

  pub All-or_new : (heap : List MemPage) (i : ℕ) → All IsWf heap → IsWf (or_new (get_elem? heap i))
  All-or_new [] i h = new_page-IsWf
  All-or_new (p ∷ ps) zero h = h.0
  All-or_new (p ∷ ps) (suc i) h = All-or_new ps i h.1

  pub All-set :
      (heap : List MemPage) (i : ℕ) (p : MemPage) → All IsWf heap → IsWf p → All IsWf (set heap i p)
  All-set [] i p h k = tt
  All-set (q ∷ ps) zero p h k = (k, h.1)
  All-set (q ∷ ps) (suc i) p h k = (h.0, All-set ps i p h.1 k)

  -- A read of whole bytes gives l many bits and keeps the heap well formed.
  pub read-IsWfHeap :
      (ρ : Env) (m : Memory) (p : Pointer) (n : ℕ)
      → IsWfHeap m
      → (size (read m p (8 * suc n)).0.term ≡ 8 * suc n) × IsWfHeap (read m p (8 * suc n)).1
  unfolding read
  read-IsWfHeap ρ m (addr, i) n wf = elim (Bool-cases (is_concrete (simplify addr))) [
    | inl known ↦
        let (_, width, keeps, _, _) =
          read_page_sound ρ n (term_as_uint64 (simplify addr).term)
            (reading (page_at m i) m.constants) (All-or_new m.heap i wf) in
        rw known (width, All-set m.heap i _ wf keeps.wf)
    | inr unknown ↦ rw unknown (size-mk_const m.constants (8 * suc n), wf)
  ]

  -- `w` is what `read` gives at the address `a` of the list, after the reads at the addresses before.
  pub data ReadAt (b : Bases) (bits : ℕ) : List Term → Memory → Term → Value → Type 0 where
    here :
        (a : Term) (rest : List Term) (m : Memory) (p : Pointer)
        → calculate_pointer b (value a) ≡ ok p
        → ReadAt b bits (a ∷ rest) m a (read m p bits).0
    later :
        (a : Term) (rest : List Term) (m : Memory) (p : Pointer) (a' : Term) (w : Value)
        → calculate_pointer b (value a) ≡ ok p
        → ReadAt b bits rest (read m p bits).1 a' w
        → ReadAt b bits (a ∷ rest) m a' w

  pub eval-merged :
      (ρ : Env) (addr : Value) (a : Term) (new old : Value)
      → size a ≡ size addr.term
      → size new.term ≡ size old.term
      → eval ρ (ite (operate eq addr (value a)) new old).term
        ≡ (if eval ρ addr.term == eval ρ a then eval ρ new.term else eval ρ old.term)
  unfolding operate
  eval-merged ρ addr a new old width same =
      let fit : (size addr.term == size a) ≡ true = ground (arith, width) in
      let e = eval-mk_binary ρ equal addr.term a fit in
      let c = operate eq addr (value a) in
      ite_sound ρ c new old (size-mk_binary equal addr.term a) same
      ∙ ap (λ n. if n == 0 then eval ρ old.term else eval ρ new.term) e
      ∙ flag_lem (eval ρ addr.term == eval ρ a) (eval ρ old.term) (eval ρ new.term)

  -- The value is that of a read at an address which the pointer takes in the run.
  pub record ReadsThere (ρ : Env) (b : Bases) (bits : ℕ) (addr : Value) (l : List Term) (m : Memory)
      (v : Value) : Type 0 where
    pub place : Term
    pub found : Value
    pub read_at : ReadAt b bits l m place found
    pub taken : eval ρ place ≡ eval ρ addr.term
    pub same : eval ρ v.term ≡ eval ρ found.term

  pub later_there :
      (ρ : Env) (b : Bases) (bits : ℕ) (addr : Value) (a : Term) (l : List Term) (m : Memory)
      (p : Pointer) (v : Value)
      → calculate_pointer b (value a) ≡ ok p
      → ReadsThere ρ b bits addr l (read m p bits).1 v
      → ReadsThere ρ b bits addr (a ∷ l) m v
  later_there ρ b bits addr a l m p v e r = record {
    place = r.place;
    found = r.found;
    read_at = later a l m p r.place r.found e r.read_at;
    taken = r.taken;
    same = r.same;
  }

  abbrev pub value_or : Value → Result (Value × Memory) → Value
  value_or v throw = v
  value_or v (ok r) = r.0

  pub read_each_lem :
      (ρ : Env) (b : Bases) (n : ℕ) (addr : Value) (l : List Term) (final v : Value) (m m' : Memory)
      → IsWfHeap m
      → All (λ a. size a ≡ size addr.term) l
      → size final.term ≡ 8 * suc n
      → read_each b addr (8 * suc n) l final m ≡ ok (v, m')
      → ReadsThere ρ b (8 * suc n) addr l m v
        ⊎ (All (λ a. eval ρ a ≢ eval ρ addr.term) l × (eval ρ v.term ≡ eval ρ final.term))
  unfolding read_each ite
  read_each_lem ρ b n addr [] final v m m' wf widths w h =
      inr (tt, ap (λ r. eval ρ (value_or final r).term) (sym h))
  read_each_lem ρ b n addr (a ∷ l) final v m m' wf widths w h =
      let (p, e, rest) = >>=-eq-ok (calculate_pointer b (value a)) _ h in
      let (wn, wf') = read-IsWfHeap ρ m p n wf in
      let new = (read m p (8 * suc n)).0 in
      let merged = ite (operate eq addr (value a)) new final in
      let value_of_merged = eval-merged ρ addr a new final widths.0 (wn ∙ sym w) in
      let merged_width : size merged.term ≡ size new.term = size-mk_ite _ new.term final.term in
      elim (read_each_lem ρ b n addr l merged v (read m p (8 * suc n)).1 m' wf' widths.1
        (merged_width ∙ wn) rest) [
          | inl there ↦ inl (later_there ρ b (8 * suc n) addr a l m p v e there)
          | inr (none_later, kept) ↦ elim (Bool-cases (eval ρ addr.term == eval ρ a)) [
            | inl match ↦ inl (record {
              place = a;
              found = new;
              read_at = here a l m p e;
              taken = ground arith;
              same = kept ∙ value_of_merged ∙ rw match refl;
            })
            | inr off ↦ inr (
              (λ q. absurd (ground (arith, q, off)), none_later),
              kept ∙ value_of_merged ∙ rw off refl,
            )
          ]
        ]
