-- ===== src/Engine/Mapping.antt =====
-- src/engine/engine.cpp, `write_memory` and `map_binary`: a binary's bytes in the page of the
-- global memory. LIEF parses the file: its segments and sections are records here.
use vexa.Prelude.{
  ℕ, zero, suc, ◌+◌, ◌-◌, ◌%◌, ◌^◌, List, [], ◌∷◌, Option, none, some, Result, ok, throw, ltb, leb,
  if◌then◌else◌, length,
}
use vexa.Terms.{Bitwuzla}
use vexa.Value.{concrete}
use vexa.Memory.{MemPage, page_initialize, u64}

-- `int size = content.size()`, as the `uint64_t` that it becomes.
abbrev pub to_int : ℕ → ℕ
to_int n = let m = n % 2 ^ 32 in if ltb m (2 ^ 31) then m else m + (2 ^ 64 - 2 ^ 32)

-- `LIEF::ELF::Segment`
pub record Segment : Type 0 where
  pub virtual_size : ℕ
  pub virtual_address : ℕ
  pub content : List ℕ

-- `LIEF::PE::Section`
pub record PeSection : Type 0 where
  pub virtual_address : ℕ
  pub content : List ℕ

-- What `vexa::binary` says of the file: the parsed segments, the image base and the sections, or
-- the raw data; a pointer that is null is `none`.
pub data Binary : Type 0 where
  elf : Option (List Segment) → Binary
  pe : Option (ℕ × List PeSection) → Binary
  raw : List ℕ → Binary
  unknown : Binary

module _ ⦃B : Bitwuzla⦄ where
  -- The loop of `write_memory` from byte `i` on.
  unfoldable pub write_from : ℕ → ℕ → List ℕ → MemPage → MemPage
  write_from address i [] p = p
  write_from address i (b ∷ bs) p =
      write_from address (i + 1) bs (page_initialize p (u64 (address + i)) (concrete b 8))

  unfoldable pub write_memory : ℕ → List ℕ → MemPage → MemPage
  unfolding write_from
  write_memory address buffer p = write_from address 0 buffer p

  -- The loop over the offsets from `offset` on, `left` of them.
  unfoldable pub zero_fill : ℕ → ℕ → ℕ → MemPage → MemPage
  zero_fill zero address offset p = p
  zero_fill (suc left) address offset p =
      zero_fill left address (offset + 1)
        (page_initialize p (u64 (address + offset)) (concrete 0 8))

  unfoldable pub map_segment : Segment → MemPage → MemPage
  unfolding write_memory zero_fill
  map_segment s p =
      let size = to_int (length s.content) in
      let written = write_memory s.virtual_address s.content p in
      let filled = zero_fill (s.virtual_size - size) s.virtual_address size written in
      if leb s.virtual_size size then written else filled

  unfoldable pub map_segments : List Segment → MemPage → MemPage
  unfolding map_segment
  map_segments [] p = p
  map_segments (s ∷ ss) p = map_segments ss (map_segment s p)

  unfoldable pub map_sections : ℕ → List PeSection → MemPage → MemPage
  unfolding write_memory
  map_sections imagebase [] p = p
  map_sections imagebase (s ∷ ss) p = map_sections imagebase ss (elim s.content [
    | [] ↦ p
    | ◌∷◌ _ _ ↦ write_memory (u64 (imagebase + s.virtual_address)) s.content p
  ])

  unfoldable pub map_binary : Binary → MemPage → Result MemPage
  unfolding map_segments map_sections write_memory
  map_binary (elf none) p = throw
  map_binary (elf (some segments)) p = ok (map_segments segments p)
  map_binary (pe none) p = throw
  map_binary (pe (some (imagebase, sections))) p = ok (map_sections imagebase sections p)
  map_binary (raw data_) p = ok (write_memory 0 data_ p)
  map_binary unknown p = throw
