-- ===== src/Engine/Object.antt =====
-- src/engine/engine.cpp, `patch` and `fix_relocations`: the sections of an object file laid out in
-- one buffer, their relocations, and the jump to the new code. LIEF parses the files and places
-- the new segment: what the code reads of its objects is a record here.
use vexa.Prelude.{
  ℕ, zero, suc, ◌+◌, ◌-◌, ◌/◌, ◌%◌, ◌^◌, Bool, not, List, [], ◌∷◌, ◌++◌, Option, none, some, Result,
  ok, throw, ◌>>=◌, ltb, if◌then◌else◌, length, set, Dict, find, try_emplace,
}
use vexa.Memory.{u8, u64}
use vexa.Memory.Digits.{digit}

-- `static_cast<uint16_t>`, the key of `section_offsets`.
abbrev pub u16 : ℕ → ℕ
u16 n = n % 2 ^ 16

-- `static_cast<int32_t>` and `static_cast<uint32_t>`, as the 32 bits that they keep.
abbrev pub u32 : ℕ → ℕ
u32 n = n % 2 ^ 32

-- `a - b` on `uint64_t`.
abbrev pub sub64 : ℕ → ℕ → ℕ
sub64 a b = u64 (a + 2 ^ 64 - u64 b)

-- `LIEF::ELF::Section`, with its index in the file.
pub record Section : Type 0 where
  pub index : Option ℕ
  pub alignment : ℕ
  -- of type NOBITS
  pub nobits : Bool
  -- has the flag ALLOC
  pub alloc : Bool
  pub size : ℕ
  pub content : List ℕ

-- `code_content` and `section_offsets`
pub record Code : Type 0 where
  pub content : List ℕ
  pub section_offsets : Dict ℕ

unfoldable pub zeros : ℕ → List ℕ
zeros zero = []
zeros (suc n) = 0 ∷ zeros n

abbrev pub alignment_of : Section → ℕ
alignment_of s = if ltb s.alignment 1 then 1 else s.alignment

-- What the buffer gets for the section.
unfoldable pub body : Section → List ℕ
unfolding zeros
body s = if s.nobits then zeros s.size else s.content

-- `VEXA_ASSERT(section_idx)` and the value as a key.
abbrev pub section_idx : Option ℕ → Result ℕ
section_idx none = throw
section_idx (some i) = ok (u16 i)

-- The lambda `append_section`.
unfoldable pub append_section : Code → Section → Result Code
unfolding zeros body
append_section c s = do
  let a = alignment_of s
  let padded = c.content ++ zeros ((a - length c.content % a) % a)
  idx ← section_idx s.index
  ok (record {
    content = padded ++ body s;
    section_offsets = try_emplace c.section_offsets idx (length padded);
  })

unfoldable pub append_sections : Code → List Section → Result Code
unfolding append_section
append_sections c [] = ok c
append_sections c (s ∷ ss) = append_section c s >>= λ c'. append_sections c' ss

abbrev pub keep_if : Bool → Section → List Section → List Section
keep_if alloc s ss = if alloc then s ∷ ss else ss

-- The sections other than `.text` that are loaded.
unfoldable pub loaded : List Section → List Section
loaded [] = []
loaded (s ∷ ss) = keep_if s.alloc s (loaded ss)

-- `.text` first, then the others that are loaded.
unfoldable pub lay_out : Section → List Section → Result Code
unfolding append_sections loaded
lay_out text_section others =
    append_sections (record { content = []; section_offsets = [] }) (text_section ∷ loaded others)

-- `LIEF::ELF::Relocation::TYPE`, as far as it is switched on.
pub data RelocationType : Type 0 where
  x86_64_pc32 x86_64_plt32 x86_64_64 x86_64_32 x86_64_32s other : RelocationType

-- `LIEF::ELF::Relocation` with its symbol; the addend is its 64 bits.
pub record Relocation : Type 0 where
  pub has_symbol : Bool
  pub has_section : Bool
  pub section : Option ℕ
  pub kind : RelocationType
  pub address : ℕ
  pub addend : ℕ
  -- The symbol is named IMAGE_BASE.
  pub is_image_base : Bool
  pub symbol_section : ℕ
  pub symbol_value : ℕ

-- `memcpy(&code_content[at], &value, count)`; past the end the source's behaviour is undefined, and
-- nothing is stored here.
unfoldable pub put_bytes : ℕ → ℕ → ℕ → List ℕ → List ℕ
put_bytes zero at x bytes = bytes
put_bytes (suc n) at x bytes = set (put_bytes n at x bytes) (at + n) (digit x n)

-- `new_section_rva`, `image_base` and `shift_offset`
pub record Placement : Type 0 where
  pub new_section_rva : ℕ
  pub image_base : ℕ
  pub shift_offset : ℕ

-- `symbol_va`, where the symbol has one.
unfoldable pub symbol_va : Dict ℕ → Placement → Relocation → Option ℕ
symbol_va offsets p r =
    if r.is_image_base
    then some (u64 (p.image_base + p.shift_offset))
    else elim (find offsets (u16 r.symbol_section)) [
      | none ↦ none
      | some o ↦ some (u64 (p.new_section_rva + o + r.symbol_value))
    ]

-- `patch_offset`, where the relocated section is laid out.
unfoldable pub patch_offset : Dict ℕ → Relocation → Option ℕ
patch_offset offsets r =
    if not r.has_symbol then none else if not r.has_section then none else elim r.section [
      | none ↦ none
      | some i ↦ elim (find offsets (u16 i)) [ none ↦ none | some o ↦ some (u64 (o + r.address)) ]
    ]

-- The switch on the relocation's type.
unfoldable pub apply_relocation : RelocationType → ℕ → ℕ → ℕ → ℕ → List ℕ → Result (List ℕ)
unfolding put_bytes
apply_relocation x86_64_pc32 va addend offset patch_va code =
    ok (put_bytes 4 offset (u32 (sub64 (va + addend) patch_va)) code)
apply_relocation x86_64_plt32 va addend offset patch_va code =
    ok (put_bytes 4 offset (u32 (sub64 (va + addend) patch_va)) code)
apply_relocation x86_64_64 va addend offset patch_va code =
    ok (put_bytes 8 offset (u64 (va + addend)) code)
apply_relocation x86_64_32 va addend offset patch_va code =
    ok (put_bytes 4 offset (u32 (va + addend)) code)
apply_relocation x86_64_32s va addend offset patch_va code =
    ok (put_bytes 4 offset (u32 (va + addend)) code)
apply_relocation other va addend offset patch_va code = throw

-- The rest of a round, once the offset and the symbol's address are looked up.
unfoldable pub fix_at : Option ℕ → Option ℕ → Placement → Relocation → List ℕ → Result (List ℕ)
unfolding apply_relocation
fix_at none _ p r code = ok code
fix_at (some offset) none p r code = ok code
fix_at (some offset) (some va) p r code =
    apply_relocation r.kind va r.addend offset (u64 (p.new_section_rva + offset)) code

-- One round of the loop.
unfoldable pub fix_relocation : Dict ℕ → Placement → Relocation → List ℕ → Result (List ℕ)
unfolding fix_at symbol_va patch_offset
fix_relocation offsets p r code = fix_at (patch_offset offsets r) (symbol_va offsets p r) p r code

unfoldable pub fix_relocations : Dict ℕ → Placement → List Relocation → List ℕ → Result (List ℕ)
unfolding fix_relocation
fix_relocations offsets p [] code = ok code
fix_relocations offsets p (r ∷ rs) code =
    fix_relocation offsets p r code >>= λ code'. fix_relocations offsets p rs code'

-- `jmp rel32` at `va`.
unfoldable pub jmp_bytes : ℕ → ℕ → List ℕ
jmp_bytes new_func_va va =
    let calc_relative = u32 (sub64 new_func_va (va + 5)) in
    233
    ∷ u8 calc_relative
    ∷ u8 (calc_relative / 2 ^ 8)
    ∷ u8 (calc_relative / 2 ^ 16)
    ∷ u8 (calc_relative / 2 ^ 24)
    ∷ []
