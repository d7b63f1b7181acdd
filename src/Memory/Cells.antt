-- ===== src/Memory/Cells.antt =====
-- src/memory/memory.cpp: the byte that a cell stands for, and well-formed cells and pages.
use vexa.Prelude.{
  ℕ, ◌*◌, ◌<◌, ◌≡◌, refl, Option, none, some, ◌==◌, if◌then◌else◌, arith, find-empty,
  find-insert_or_assign,
}
use vexa.Terms.{Bitwuzla}
use vexa.Value.{Value}
use vexa.Memory.{MemCell, MemPage, new_page, cell, page_find, page_write}
use vexa.Memory.Digits.{digit}

module _ ⦃B : Bitwuzla⦄ where
  open B use {Env, eval, size, size-mk_const}

  abbrev pub cell_byte : Env → MemCell → ℕ
  cell_byte ρ c = digit (eval ρ c.original_val.term) c.which_byte

  -- The cell is one byte of its value, and nothing is cached in it.
  pub record IsCell (c : MemCell) : Type 0 where
    pub in_value : c.which_byte < c.total_size
    pub width : size c.original_val.term ≡ 8 * c.total_size
    pub not_cached : c.extracted_cache ≡ none

  pub IsCell-cell :
      (v : Value) (total which : ℕ)
      → which < total
      → size v.term ≡ 8 * total
      → IsCell (cell v total which)
  IsCell-cell v total which p q = record { in_value = p; width = q; not_cached = refl }

  abbrev pub IsWf : MemPage → Type 0
  IsWf p = (a : ℕ) (c : MemCell) → page_find p a ≡ some c → IsCell c

  -- What is known of `q` is what is known of `p`, and perhaps more.
  abbrev pub Extends : MemPage → MemPage → Type 0
  Extends p q = (a : ℕ) (c : MemCell) → page_find p a ≡ some c → page_find q a ≡ some c

  abbrev pub found_byte : Env → Option MemCell → Option ℕ
  found_byte ρ none = none
  found_byte ρ (some c) = some (cell_byte ρ c)

  -- The byte at an address, where the page has one.
  abbrev pub byte_at : Env → MemPage → ℕ → Option ℕ
  byte_at ρ p a = found_byte ρ (page_find p a)

  pub page_find-page_write :
      (p : MemPage) (a : ℕ) (c : MemCell) (b : ℕ)
      → page_find (page_write p a c) b ≡ (if a == b then some c else page_find p b)
  unfolding page_find page_write
  page_find-page_write p a c b = ground (arith, find-insert_or_assign p.memory a c b)

  pub page_write-IsWf :
      (p : MemPage) (a : ℕ) (c : MemCell) → IsCell c → IsWf p → IsWf (page_write p a c)
  page_write-IsWf p a c hc h b d e = ground (arith, page_find-page_write p a c b, h b d)

  pub new_page-IsWf : IsWf new_page
  unfolding page_find
  new_page-IsWf a c h = let e = find-empty {V = MemCell} a in ground (arith, e, h)
