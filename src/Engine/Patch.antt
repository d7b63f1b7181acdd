-- ===== src/Engine/Patch.antt =====
-- src/engine/engine.cpp, `patch`: from the object file to the new segment and the jump.
use vexa.Prelude.{
  ℕ, ◌+◌, ◌-◌, ◌^◌, ◌<◌, ◌≤◌, ◌≡◌, ◌⊎◌, refl, Bool, true, false, List, Option, none, some, Result,
  ok, throw, ◌>>=◌, if◌then◌else◌, arith, find, All, AllPairs, length,
}
use vexa.Memory.{u64}
use vexa.Engine.Object.{
  Section, Code, lay_out, Relocation, Placement, fix_relocations, jmp_bytes, sub64, u16,
}
use vexa.Engine.Relocations.{Fits, Disjoint, IsFixed, Avoids, byte_of, fix_relocations_sound}
use vexa.Engine.Jump.{run_jmp, jmp_bytes_sound}

-- What `patch` reads of the object file: whether it is one, `.text`, the other sections in their
-- order, the relocations, and the section index and the value of the symbol `vexa_entry`.
pub record ObjectFile : Type 0 where
  pub is_object : Bool
  pub text_section : Option Section
  pub sections : List Section
  pub relocations : List Relocation
  pub entry_symbol : Option (ℕ × ℕ)

-- The binary to patch: whether an ELF file is position-independent, and the image base.
pub data Target : Type 0 where
  elf : Bool → ℕ → Target
  pe : ℕ → Target
  unsupported : Target

-- Where the new segment's content, the jump's address and its bytes go.
pub record Patch : Type 0 where
  pub content : List ℕ
  pub address : ℕ
  pub jump : List ℕ

abbrev pub or_throw {ℓ} : {A : Type ℓ} → Option A → Result A
or_throw none = throw
or_throw (some a) = ok a

-- `image_base`, `shift_offset` and the shifted `va`, and the new code's address. LIEF gives the
-- virtual address of the new segment or section, `placed`; for a PE file it is relative.
unfoldable pub place : Target → ℕ → ℕ → Result (Placement × ℕ)
place (elf true imagebase) placed va =
    ok (record { new_section_rva = placed; image_base = 0; shift_offset = 4096 }, u64 (va + 4096))
place (elf false imagebase) placed va =
    ok (record { new_section_rva = placed; image_base = imagebase; shift_offset = 0 }, va)
place (pe imagebase) placed va = ok (
  record { new_section_rva = u64 (imagebase + placed); image_base = imagebase; shift_offset = 0 },
  va,
)
place unsupported placed va = throw

-- The part of each branch after the new segment is added.
unfoldable pub finish : Code → List Relocation → ℕ × ℕ → Placement × ℕ → Result Patch
finish c relocations (section_idx, value) (placement, va) = do
  relocated ← fix_relocations c.section_offsets placement relocations c.content
  offset ← or_throw (find c.section_offsets (u16 section_idx))
  let new_func_va = u64 (placement.new_section_rva + offset + value)
  ok (record { content = relocated; address = va; jump = jmp_bytes new_func_va va })

-- `add_segment` is LIEF's choice of an address for the code.
unfoldable pub patch : (List ℕ → ℕ) → ObjectFile → Target → ℕ → Result Patch
unfolding place finish
patch add_segment object target va =
    if object.is_object
    then (do
      text_section ← or_throw object.text_section
      code ← lay_out text_section object.sections
      entry ← or_throw object.entry_symbol
      placed ← place target (add_segment code.content) va
      finish code object.relocations entry placed)
    else throw

-- With the code laid out and the relocations as `fix_relocations` wants them, the branch succeeds
-- where the entry symbol's section is laid out. The segment then holds the relocated code: its fields
-- satisfy their ABI equations, and it is the code at every byte that is in no field. The jump at the patched address goes to the entry symbol, if that is in reach of a 32-bit jump.
pub finish_sound :
    (c : Code) (rs : List Relocation) (section_idx value offset va : ℕ) (p : Placement)
    → All (Fits c.section_offsets (length c.content)) rs
    → AllPairs (Disjoint c.section_offsets) rs
    → find c.section_offsets (u16 section_idx) ≡ some offset
    → let target = u64 (p.new_section_rva + offset + value) in
      (sub64 target (va + 5) < 2 ^ 31) ⊎ (2 ^ 64 - 2 ^ 31 ≤ sub64 target (va + 5))
      → (r : Patch) × (finish c rs (section_idx, value) (p, va) ≡ ok r)
        × All (IsFixed c.section_offsets p r.content) rs
        × (length r.content ≡ length c.content)
        × ((i : ℕ)
            → All (Avoids c.section_offsets i) rs
            → byte_of r.content i ≡ byte_of c.content i)
        × (run_jmp r.address r.jump ≡ some target)
unfolding finish
finish_sound c rs section_idx value offset va p fits apart e near =
    let (l', done_, fixed, same, outside) =
      fix_relocations_sound c.section_offsets p rs c.content fits apart in
    let target = u64 (p.new_section_rva + offset + value) in
    (
      record { content = l'; address = va; jump = jmp_bytes target va },
      rw (done_, e) refl,
      fixed,
      same,
      outside,
      jmp_bytes_sound target va (omega arith) near,
    )
