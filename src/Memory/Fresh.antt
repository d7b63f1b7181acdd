-- ===== src/Memory/Fresh.antt =====
-- src/memory/memory.cpp: the symbols that reads make of bytes that were never written.
use vexa.Prelude.{
  ℕ, ◌<◌, ◌≡◌, ◌≤◌, ◌⊎◌, sym, ◌∙◌, ap, Option, none, some, arith, Option-cases, inl, inr,
}
use vexa.Terms.{Bitwuzla}
use vexa.Value.{symbolic}
use vexa.Memory.{MemPage, MemCell, Reading, cell, page_find}
use vexa.Memory.Cells.{IsWf, Extends}

module _ ⦃B : Bitwuzla⦄ where
  -- The page has no cell for the byte.
  abbrev pub IsMissing : MemPage → ℕ → Type 0
  IsMissing p a = page_find p a ≡ none

  -- The cell of a byte that was never written.
  abbrev pub uninit_cell : ℕ → MemCell
  uninit_cell n = cell (symbolic n 8) 1 0

  -- What a read leaves behind: a well-formed page that knows all that it knew. Where a byte is new,
  -- it is the symbol of 8 bits with its `number`, which no symbol had before the read, and no other
  -- new byte has.
  pub record Keeps (s s' : Reading) : Type 0 where
    pub wf : IsWf s'.page
    pub extends : Extends s.page s'.page
    pub counts : s.constants ≤ s'.constants
    pub number_of : ℕ → ℕ
    pub filled :
        (a : ℕ)
        → IsMissing s.page a
        → IsMissing s'.page a
          ⊎ ((page_find s'.page a ≡ some (uninit_cell (number_of a)))
              × (s.constants ≤ number_of a)
              × (number_of a < s'.constants))
    pub distinct :
        (a b : ℕ) (c d : MemCell)
        → IsMissing s.page a
        → IsMissing s.page b
        → page_find s'.page a ≡ some c
        → page_find s'.page b ≡ some d
        → number_of a ≡ number_of b
        → a ≡ b

  pub Keeps-refl : (s : Reading) → IsWf s.page → Keeps s s
  Keeps-refl s wf = record {
    wf = wf;
    extends = λ b d e. e;
    counts = omega arith;
    number_of = λ a. 0;
    filled = λ a h. inl h;
    distinct = λ a b c d h k e e' same. cc (h, e);
  }

  abbrev pick : Option MemCell → ℕ → ℕ → ℕ
  pick none late early = late
  pick (some c) late early = early

  module _ (s t u : Reading) (first : Keeps s t) (second : Keeps t u) where
    abbrev number_in : ℕ → ℕ
    number_in a = pick (page_find t.page a) (second.number_of a) (first.number_of a)

    number_in-late : (a : ℕ) → IsMissing t.page a → number_in a ≡ second.number_of a
    number_in-late a h = ap (λ o. pick o (second.number_of a) (first.number_of a)) h

    number_in-early :
        (a : ℕ) (c : MemCell) → page_find t.page a ≡ some c → number_in a ≡ first.number_of a
    number_in-early a c h = ap (λ o. pick o (second.number_of a) (first.number_of a)) h

    -- The numbers of the first read are below those of the second.
    early-late :
        (a b : ℕ) (c d : MemCell)
        → IsMissing s.page a
        → page_find t.page a ≡ some c
        → IsMissing t.page b
        → page_find u.page b ≡ some d
        → first.number_of a < second.number_of b
    early-late a b c d h e k e' = elim (first.filled a h) [
      | inl missing ↦ cc (missing, e)
      | inr (_, _, below) ↦ elim (second.filled b k) [
        | inl missing ↦ cc (missing, e')
        | inr (_, above, _) ↦ omega (arith, below, above)
      ]
    ]

    Keeps-filled :
        (a : ℕ)
        → IsMissing s.page a
        → IsMissing u.page a
          ⊎ ((page_find u.page a ≡ some (uninit_cell (number_in a)))
              × (s.constants ≤ number_in a)
              × (number_in a < u.constants))
    Keeps-filled a h = elim (first.filled a h) [
      | inl missing ↦ elim (second.filled a missing) [
        | inl still ↦ inl still
        | inr (found, low, high) ↦
            let e = number_in-late a missing in
            rw e (inr (found, omega (arith, low, first.counts), high))
      ]
      | inr (found, low, high) ↦
          let e = number_in-early a _ found in
          rw e (inr (second.extends a _ found, low, omega (arith, high, second.counts)))
    ]

    Keeps-distinct :
        (a b : ℕ) (c d : MemCell)
        → IsMissing s.page a
        → IsMissing s.page b
        → page_find u.page a ≡ some c
        → page_find u.page b ≡ some d
        → number_in a ≡ number_in b
        → a ≡ b
    Keeps-distinct a b c d h k e e' same = elim (Option-cases (page_find t.page a)) [
      | inl late ↦ elim (Option-cases (page_find t.page b)) [
        | inl late' ↦
            second.distinct a b c d late late' e e'
              (sym (number_in-late a late) ∙ same ∙ number_in-late b late')
        | inr (x, early) ↦
            let less = early-late b a x c k early late e in
            absurd (omega (arith, less, same, number_in-late a late, number_in-early b x early))
      ]
      | inr (x, early) ↦ elim (Option-cases (page_find t.page b)) [
        | inl late ↦
            let less = early-late a b x d h early late e' in
            absurd (omega (arith, less, same, number_in-late b late, number_in-early a x early))
        | inr (y, early') ↦
            first.distinct a b x y h k early early'
              (sym (number_in-early a x early) ∙ same ∙ number_in-early b y early')
      ]
    ]

    pub Keeps-trans : Keeps s u
    Keeps-trans = record {
      wf = second.wf;
      extends = λ b d e. second.extends b d (first.extends b d e);
      counts = omega (arith, first.counts, second.counts);
      number_of = number_in;
      filled = Keeps-filled;
      distinct = Keeps-distinct;
    }
