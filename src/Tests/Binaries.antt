-- ===== src/Tests/Binaries.antt =====
-- src/engine/engine.cpp at small binaries.
use vexa.Prelude.{
  ℕ, ◌-◌, ◌^◌, ◌≡◌, refl, true, false, List, [], ◌∷◌, some, ok, inr, arith, All, length, find,
}
use vexa.Memory.{MemPage, new_page}
use vexa.Memory.Cells.{IsWf, byte_at}
use vexa.Engine.Mapping.{Segment, elf, map_binary}
use vexa.Engine.Segments.{IsMapped, Misses, map_binary_elf_sound}
use vexa.Engine.Object.{
  Section, Relocation, Placement, x86_64_pc32, fix_relocations, patch_offset, jmp_bytes,
}
use vexa.Engine.Relocations.{IsFixed, Avoids, byte_of, fix_relocations_sound}
use vexa.Engine.Patch.{Patch, finish, finish_sound}
use vexa.Engine.Jump.{run_jmp, jmp_bytes_sound}
use vexa.Tests.{solver}

abbrev segment : Segment
segment = record { virtual_size = 3; virtual_address = 64; content = 7 ∷ 8 ∷ [] }

map_binary_elf_sound_example :
    (p' : MemPage) × (map_binary (elf (some (segment ∷ []))) new_page ≡ ok p')
    × All (IsMapped true p') (segment ∷ [])
    × ((a : ℕ) → All (Misses a) (segment ∷ []) → byte_at true p' a ≡ byte_at true new_page a)
    × (IsWf new_page → IsWf p')
map_binary_elf_sound_example =
    map_binary_elf_sound true (segment ∷ []) new_page
      (
        record {
          fits_int = omega arith;
          fits = omega arith;
          bytes = (omega arith, (omega arith, tt));
        },
        tt,
      )
      (tt, tt) (inr refl)

abbrev text : Section
text = record {
  index = some 1;
  alignment = 16;
  nobits = false;
  alloc = true;
  size = 5;
  content = 1 ∷ 2 ∷ 3 ∷ 4 ∷ 5 ∷ [];
}

abbrev bss : Section
bss = record { index = some 2; alignment = 8; nobits = true; alloc = true; size = 2; content = [] }

abbrev call : Relocation
call = record {
  has_symbol = true;
  has_section = true;
  section = some 1;
  kind = x86_64_pc32;
  address = 1;
  addend = 2 ^ 64 - 4;
  is_image_base = false;
  symbol_section = 2;
  symbol_value = 0;
}

abbrev placement : Placement
placement = record { new_section_rva = 4096; image_base = 0; shift_offset = 0 }

abbrev offsets : List (ℕ × ℕ)
offsets = (1, 0) ∷ (2, 8) ∷ []

abbrev code : List ℕ
code = 232 ∷ 0 ∷ 0 ∷ 0 ∷ 0 ∷ 195 ∷ []

fix_relocations_sound_example :
    (l' : List ℕ) × (fix_relocations offsets placement (call ∷ []) code ≡ ok l')
    × All (IsFixed offsets placement l') (call ∷ [])
    × (length l' ≡ 6)
    × ((i : ℕ) → All (Avoids offsets i) (call ∷ []) → byte_of l' i ≡ byte_of code i)
unfolding patch_offset find
fix_relocations_sound_example =
    fix_relocations_sound offsets placement (call ∷ []) code (λ at h. ground (arith, h), tt)
      (tt, tt)

jmp_bytes_sound_example : run_jmp 8192 (jmp_bytes 4096 8192) ≡ some 4096
jmp_bytes_sound_example = jmp_bytes_sound 4096 8192 (omega arith) (inr (omega arith))

finish_sound_example :
    (r : Patch) × (finish
        (record { content = code; section_offsets = offsets })
        (call ∷ [])
        (1, 0)
        (placement, 8192)
      ≡ ok r)
    × All (IsFixed offsets placement r.content) (call ∷ [])
    × (length r.content ≡ 6)
    × ((i : ℕ) → All (Avoids offsets i) (call ∷ []) → byte_of r.content i ≡ byte_of code i)
    × (run_jmp r.address r.jump ≡ some 4096)
unfolding patch_offset find
finish_sound_example =
    finish_sound (record { content = code; section_offsets = offsets }) (call ∷ []) 1 0 0 8192
      placement (λ at h. ground (arith, h), tt) (tt, tt) refl (inr (omega arith))
