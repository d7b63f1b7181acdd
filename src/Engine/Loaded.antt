-- ===== src/Engine/Loaded.antt =====
-- src/engine/engine.cpp, `map_binary`: the bytes of the page after a binary is mapped.
use vexa.Prelude.{
  ℕ, zero, suc, ◌+◌, ◌^◌, ◌<◌, ◌≤◌, ◌≡◌, ◌≢◌, ◌⊎◌, inl, inr, refl, ◌∙◌, ap, Bool, true, List, [],
  ◌∷◌, none, some, ◌==◌, if◌then◌else◌, arith, length, get_elem?, All, Bool-cases, find, find-empty,
  insert_or_assign, find-insert_or_assign,
}
use vexa.Terms.{Bitwuzla}
use vexa.Value.{Value, concrete}
use vexa.Memory.{MemPage, page_initialize, page_find, page_write, cell, u64}
use vexa.Memory.Cells.{IsWf, IsCell-cell, byte_at, cell_byte, found_byte, page_find-page_write}
use vexa.Memory.Digits.{digit}
use vexa.Memory.Read.{or_zero}
use vexa.Engine.Mapping.{write_from, zero_fill}

-- Initial bytes are not hidden by later writes.
abbrev pub Loads : ⦃B : Bitwuzla⦄ → MemPage → Type 0
Loads p = (p.sealed ≡ true) ⊎ (p.memory ≡ [])

module _ ⦃B : Bitwuzla⦄ where
  open B use {Env, eval, size-mk_bv_value, eval-mk_bv_value}

  abbrev initial : MemPage → ℕ → Value → MemPage
  initial p a v = record p { initial_memory = insert_or_assign p.initial_memory a (cell v 1 0) }

  page_initialize-cases :
      (p : MemPage) (a : ℕ) (v : Value)
      → Loads p
      → ((p.sealed ≡ true) × (page_initialize p a v ≡ page_write p a (cell v 1 0)))
        ⊎ ((p.memory ≡ []) × (page_initialize p a v ≡ initial p a v))
  unfolding page_initialize
  page_initialize-cases p a v h = elim (Bool-cases p.sealed) [
    | inl e ↦ inl (e, ap (λ (b : Bool). if b then page_write p a (cell v 1 0) else initial p a v) e)
    | inr e ↦ elim h [
      | inl e' ↦ absurd (ground (arith, e, e'))
      | inr empty ↦
          inr (empty, ap (λ (b : Bool). if b then page_write p a (cell v 1 0) else initial p a v) e)
    ]
  ]

  page_initialize-Loads :
      (p : MemPage) (a : ℕ) (v : Value) → Loads p → Loads (page_initialize p a v)
  unfolding page_write
  page_initialize-Loads p a v h = elim (page_initialize-cases p a v h) [
    | inl (sealed, e) ↦ inl (ap (λ (q : MemPage). q.sealed) e ∙ sealed)
    | inr (empty, e) ↦ inr (ap (λ (q : MemPage). q.memory) e ∙ empty)
  ]

  page_find-initial :
      (p : MemPage) (a : ℕ) (v : Value) (b : ℕ)
      → p.memory ≡ []
      → page_find (initial p a v) b ≡ (if a == b then some (cell v 1 0) else page_find p b)
  unfolding page_find
  page_find-initial p a v b h =
      let e : find p.memory b ≡ none = ap (λ m. find m b) h ∙ find-empty b in
      ground (arith, e, find-insert_or_assign p.initial_memory a (cell v 1 0) b)

  page_find-page_initialize :
      (p : MemPage) (a : ℕ) (v : Value) (b : ℕ)
      → Loads p
      → page_find (page_initialize p a v) b ≡ (if a == b then some (cell v 1 0) else page_find p b)
  page_find-page_initialize p a v b h = elim (page_initialize-cases p a v h) [
    | inl (sealed, e) ↦ ap (λ q. page_find q b) e ∙ page_find-page_write p a (cell v 1 0) b
    | inr (empty, e) ↦ ap (λ q. page_find q b) e ∙ page_find-initial p a v b empty
  ]

  -- `p'` is `p` with the `n` bytes f 0, f 1, ... from address `base` on.
  pub record Sets (ρ : Env) (base n : ℕ) (f : ℕ → ℕ) (p p' : MemPage) : Type 0 where
    pub inside : (k : ℕ) → k < n → byte_at ρ p' (u64 (base + k)) ≡ some (f k)
    pub outside : (a : ℕ) → ((k : ℕ) → k < n → u64 (base + k) ≢ a) → byte_at ρ p' a ≡ byte_at ρ p a
    pub loads : Loads p'
    pub wf : IsWf p → IsWf p'

  -- One byte at `base + i`.
  initialize_one :
      (ρ : Env) (p : MemPage) (a b : ℕ)
      → b < 256
      → Loads p
      → ((c : ℕ)
          → byte_at ρ (page_initialize p a (concrete b 8)) c
            ≡ (if a == c then some b else byte_at ρ p c))
        × (IsWf p → IsWf (page_initialize p a (concrete b 8)))
  initialize_one ρ p a b small h = (
    λ c.
        let v : cell_byte ρ (cell (concrete b 8) 1 0) ≡ b =
          ap (λ x. digit x 0) (eval-mk_bv_value ρ 8 b small) ∙ omega arith in
        ap (found_byte ρ) (page_find-page_initialize p a (concrete b 8) c h) ∙ ground (arith, v),
    λ wf c d e.
        let one = IsCell-cell (concrete b 8) 1 0 (omega arith) (size-mk_bv_value 8 b) in
        ground (arith, page_find-page_initialize p a (concrete b 8) c h, wf c d, one),
  )

  Sets-none : (ρ : Env) (base : ℕ) (f : ℕ → ℕ) (p : MemPage) → Loads p → Sets ρ base 0 f p p
  Sets-none ρ base f p h = record {
    inside = λ k none_left. elim none_left [ ];
    outside = λ a h. refl;
    loads = h;
    wf = λ w. w;
  }

  address_ne : (base k : ℕ) → suc k < 2 ^ 64 → u64 (base + 1 + k) ≢ u64 base
  address_ne base k h e = omega arith

  -- One byte before the others.
  Sets-first :
      (ρ : Env) (base n b : ℕ) (f g : ℕ → ℕ) (p p' : MemPage)
      → suc n ≤ 2 ^ 64
      → b < 256
      → g 0 ≡ b
      → ((k : ℕ) → g (suc k) ≡ f k)
      → Loads p
      → Sets ρ (base + 1) n f (page_initialize p (u64 base) (concrete b 8)) p'
      → Sets ρ base (suc n) g p p'
  Sets-first ρ base n b f g p p' fits small first next h others =
      let (one, wf) = initialize_one ρ p (u64 base) b small h in
      let start : byte_at ρ p' (u64 base) ≡ some b =
        others.outside (u64 base) (λ k low. address_ne base k (omega arith))
        ∙ one (u64 base)
        ∙ ground arith in
      record {
        inside = λ k low.
            elim k as (λ k. k < suc n → byte_at ρ p' (u64 (base + k)) ≡ some (g k)) [
              | zero ↦ λ low. let e : base + 0 ≡ base = omega arith in rw (e, first) start
              | suc j ↦ λ low.
                  let e : base + suc j ≡ base + 1 + j = omega arith in
                  rw (e, next j) (others.inside j (omega arith))
            ]
              low;
        outside = λ a avoid.
            let ne : u64 base ≢ a =
              (let e : base + 0 ≡ base = omega arith in rw e at (avoid 0 (omega arith))) in
            others.outside a (λ k low.
              let e : base + suc k ≡ base + 1 + k = omega arith in
              rw e at (avoid (suc k) (omega arith)))
            ∙ one a
            ∙ ground arith;
        loads = others.loads;
        wf = λ w. others.wf (wf w);
      }

  pub write_from-Sets :
      (ρ : Env) (address i : ℕ) (bs : List ℕ) (p : MemPage)
      → length bs ≤ 2 ^ 64
      → All (λ b. b < 256) bs
      → Loads p
      → Sets ρ
          (address + i)
          (length bs)
          (λ k. or_zero (get_elem? bs k))
          p
          (write_from address i bs p)
  unfolding write_from
  write_from-Sets ρ address i [] p fits small h = Sets-none ρ (address + i) _ p h
  write_from-Sets ρ address i (b ∷ bs) p fits small h =
      let p1 = page_initialize p (u64 (address + i)) (concrete b 8) in
      let others =
        write_from-Sets ρ address (i + 1) bs p1 (omega arith) small.1
          (page_initialize-Loads p _ _ h) in
      let e : address + (i + 1) ≡ address + i + 1 = omega arith in
      Sets-first ρ (address + i) (length bs) b (λ k. or_zero (get_elem? bs k)) _ p _ fits small.0
        refl (λ k. refl) h (rw e at others)

  pub zero_fill-Sets :
      (ρ : Env) (left address offset : ℕ) (p : MemPage)
      → left ≤ 2 ^ 64
      → Loads p
      → Sets ρ (address + offset) left (λ _. 0) p (zero_fill left address offset p)
  unfolding zero_fill
  zero_fill-Sets ρ zero address offset p fits h = Sets-none ρ (address + offset) _ p h
  zero_fill-Sets ρ (suc left) address offset p fits h =
      let p1 = page_initialize p (u64 (address + offset)) (concrete 0 8) in
      let others =
        zero_fill-Sets ρ left address (offset + 1) p1 (omega arith)
          (page_initialize-Loads p _ _ h) in
      let e : address + (offset + 1) ≡ address + offset + 1 = omega arith in
      Sets-first ρ (address + offset) left 0 (λ _. 0) _ p _ fits (omega arith) refl (λ k. refl) h
        (rw e at others)
