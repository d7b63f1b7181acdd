-- ===== src/Tests/Pages.antt =====
-- src/memory/memory.cpp at concrete pages.
use vexa.Prelude.{ℕ, ◌+◌, ◌<◌, ◌≡◌, ◌≢◌, refl, true, [], ◌∷◌, some, Any, arith, map}
use vexa.Terms.Trees.{const, eval, size}
use vexa.Value.{Value}
use vexa.Value as V
use vexa.Memory.{
  MemPage, MemCell, page_find, new_page, cell, reading, read_page, write_page, compose, u64,
}
use vexa.Memory.Cells.{new_page-IsWf, IsWf, IsCell-cell, byte_at, cell_byte}
use vexa.Memory.Digits.{digit, horner}
use vexa.Memory.Compose.{compose_sound}
use vexa.Memory.Write.{write_page_sound}
use vexa.Memory.Read.{read_page_sound, read_page-write_page, little_endian}
use vexa.Memory.Fresh.{Keeps}
use vexa.Memory.Heap.{Memory, page_at, store_page, allocate, take_snapshot, restore_snapshot}
use vexa.Memory.Heap.Snapshots.{restore_snapshot-take_snapshot}
use vexa.Tests.{solver}

-- An unknown word of two bytes.
abbrev word : Value
word = V.value (const 0 16)

abbrev page : MemPage
page = write_page 8 word new_page

page-IsWf : IsWf page
page-IsWf = (write_page_sound true 2 8 word new_page (omega arith) refl new_page-IsWf).2

compose_sound_example :
    (eval true (compose 16 (cell word 2 0) (cell word 2 1 ∷ [])).term
      ≡ horner 0 (map (cell_byte true) (cell word 2 0 ∷ cell word 2 1 ∷ [])))
    × (size (compose 16 (cell word 2 0) (cell word 2 1 ∷ [])).term ≡ 16)
compose_sound_example =
    compose_sound true 1 (cell word 2 0) (cell word 2 1 ∷ []) refl
      (IsCell-cell word 2 0 (omega arith) refl) (IsCell-cell word 2 1 (omega arith) refl, tt)

write_page_sound_example :
    ((j : ℕ) → j < 2 → byte_at true page (u64 (8 + j)) ≡ some (digit (eval true word.term) j))
    × ((a : ℕ)
        → ((j : ℕ) → j < 2 → u64 (8 + j) ≢ a)
        → byte_at true page a ≡ byte_at true new_page a)
    × IsWf page
write_page_sound_example = write_page_sound true 2 8 word new_page (omega arith) refl new_page-IsWf

read_page_sound_example :
    let (v, s) = read_page 9 24 (reading page 1) in
    (eval true v.term ≡ little_endian true s.page 9 3)
    × (size v.term ≡ 24)
    × Keeps (reading page 1) s
    × ((j : ℕ) → j < 3 → (c : MemCell) × (page_find s.page (u64 (9 + j)) ≡ some c))
    × ((a : ℕ) → ((j : ℕ) → j < 3 → u64 (9 + j) ≢ a) → page_find s.page a ≡ page_find page a)
read_page_sound_example = read_page_sound true 2 9 (reading page 1) page-IsWf

read_page-write_page_example :
    eval true (read_page 9 16 (reading (write_page 9 word page) 1)).0.term ≡ eval true word.term
read_page-write_page_example =
    read_page-write_page true 1 9 1 word page (omega arith) refl page-IsWf

abbrev memory : Memory
memory = (allocate (record { heap = []; pages = []; constants = 0 })).1

abbrev later : Memory
later = store_page memory 0 page

restore_snapshot-take_snapshot_example :
    let r = restore_snapshot later (take_snapshot memory) in
    (r.pages ≡ memory.pages)
    × (Any (λ k. k ≡ 0) memory.pages → (page_at r 0).memory ≡ (page_at memory 0).memory)
    × (¬ Any (λ k. k ≡ 0) memory.pages → page_at r 0 ≡ page_at later 0)
    × ((page_at r 0).initial_memory ≡ (page_at later 0).initial_memory)
    × ((page_at r 0).sealed ≡ (page_at later 0).sealed)
unfolding allocate
restore_snapshot-take_snapshot_example =
    restore_snapshot-take_snapshot memory later 0 (omega arith, tt)
