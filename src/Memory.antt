-- ===== src/Memory.antt =====
-- src/memory/memory.cpp and include/vexa/memory/memory.hpp: byte-addressed pages of symbolic
-- values. A page is named by its index in `heap`, as the source names it by a shared pointer.
-- The storage of a page is a value here: the source copies it on a write where a snapshot shares it.
pub mod Cells
pub mod Digits
pub mod Compose
pub mod Write
pub mod Fresh
pub mod Read
pub mod Heap
use vexa.Prelude.{
  ℕ, zero, suc, ◌+◌, ◌-◌, ◌*◌, ◌/◌, ◌%◌, ◌^◌, Bool, true, false, ◌&&◌, List, [], ◌∷◌, ◌++◌, Option,
  none, some, Result, ok, throw, ◌>>=◌, ◌==◌, if◌then◌else◌, length, get_elem?, set, Dict, find,
  insert_or_assign,
}
use vexa.Terms.{Bitwuzla}
use vexa.Value.{Value, symbolic, is_concrete, as_uint64, simplify, extract, operate, concat}

abbrev pub u64 : ℕ → ℕ
u64 n = n % 2 ^ 64

abbrev pub u8 : ℕ → ℕ
u8 n = n % 2 ^ 8

module _ ⦃B : Bitwuzla⦄ where
  open B use {size, term_eq}

  pub record MemCell : Type 0 where
    pub original_val : Value
    -- in bytes
    pub total_size : ℕ
    pub which_byte : ℕ
    pub extracted_cache : Option Value

  pub record MemPage : Type 0 where
    pub initial_memory : Dict MemCell
    pub memory : Dict MemCell
    pub sealed : Bool

  abbrev pub cell : Value → ℕ → ℕ → MemCell
  cell v total which = record {
    original_val = v;
    total_size = total;
    which_byte = which;
    extracted_cache = none;
  }

  abbrev pub new_page : MemPage
  new_page = record { initial_memory = []; memory = []; sealed = false }

  unfoldable pub page_find : MemPage → ℕ → Option MemCell
  page_find p a = elim (find p.memory a) [ some c ↦ some c | none ↦ find p.initial_memory a ]

  unfoldable pub page_write : MemPage → ℕ → MemCell → MemPage
  page_write p a c = record p { memory = insert_or_assign p.memory a c }

  unfoldable pub page_initialize : MemPage → ℕ → Value → MemPage
  unfolding page_write
  page_initialize p a v =
      if p.sealed
      then page_write p a (cell v 1 0)
      else record p { initial_memory = insert_or_assign p.initial_memory a (cell v 1 0) }

  abbrev pub page_seal : MemPage → MemPage
  page_seal p = record p { sealed = true }

  -- The loop of `memory::write`: the rounds left, the byte's number, the base and the size.
  pub write_bytes : ℕ → ℕ → ℕ → ℕ → Value → MemPage → MemPage
  write_bytes zero i base byte_size v p = p
  write_bytes (suc left) i base byte_size v p =
      write_bytes left (i + 1) base byte_size v (page_write p (u64 (base + i)) (cell v byte_size i))

  -- `memory::write` at a concrete address. The size is cut to a `uint8_t`.
  pub write_page : ℕ → Value → MemPage → MemPage
  unfolding write_bytes
  write_page base v p =
      let byte_size = u8 (size v.term / 8) in write_bytes byte_size 0 base byte_size (simplify v) p

  -- A page with the count of the constants made so far.
  pub record Reading : Type 0 where
    pub page : MemPage
    pub constants : ℕ

  abbrev pub reading : MemPage → ℕ → Reading
  reading p n = record { page = p; constants = n }

  -- The lambda `read_byte`: a byte that was never written becomes a new symbol, and stays it.
  pub read_byte : Reading → ℕ → MemCell × Reading
  read_byte s a = elim (page_find s.page a) [
    | some c ↦ (c, s)
    | none ↦
        let uninit_cell = cell (symbolic s.constants 8) 1 0 in
        (
          uninit_cell,
          record { page = page_write s.page a uninit_cell; constants = suc s.constants },
        )
  ]

  -- The bytes at base + count - 1 down to base.
  pub read_down : ℕ → ℕ → Reading → List MemCell × Reading
  read_down zero base s = ([], s)
  read_down (suc j) base s =
      let (c, s') = read_byte s (u64 (base + j)) in
      let (cs, s'') = read_down j base s' in (c ∷ cs, s'')

  abbrev pub can_merge : MemCell → List MemCell → Bool
  can_merge last [] = true
  can_merge last (c ∷ cs) =
      term_eq c.original_val.term last.original_val.term
      && (c.total_size == last.total_size)
      && can_merge last cs

  abbrev pub are_aligned : MemCell → ℕ → List MemCell → Bool
  are_aligned last i [] = true
  are_aligned last i (c ∷ cs) = (c.which_byte + i == last.which_byte) && are_aligned last (i + 1) cs

  abbrev pub back : MemCell → List MemCell → MemCell
  back c [] = c
  back c (c' ∷ cs) = back c' cs

  pub extract_byte : MemCell → Value
  extract_byte c = elim c.extracted_cache [
    | some v ↦ v
    | none ↦ extract (c.which_byte * 8 + 7) (c.which_byte * 8) c.original_val
  ]

  pub concat_rest : Value → List MemCell → Value
  concat_rest v [] = v
  concat_rest v (c ∷ cs) = concat_rest (operate concat v (extract_byte c)) cs

  -- The value of `size` bits that the bytes `last ∷ rest` make, the highest byte first.
  pub compose : ℕ → MemCell → List MemCell → Value
  unfolding concat_rest extract_byte
  compose bits last rest =
      let byte_size = bits / 8 in
      let cells : List MemCell = elim byte_size [ zero ↦ [] | suc _ ↦ last ∷ rest ] in
      let merged = can_merge last cells && are_aligned last 0 cells in
      let low_bit = (back last rest).which_byte * 8 in
      if merged && (byte_size == last.total_size)
      then last.original_val
      else if merged
      then extract (low_bit + bits - 1) low_bit last.original_val
      else concat_rest (extract (last.which_byte * 8 + 7) (last.which_byte * 8) last.original_val)
          rest

  -- `memory::read` at a concrete address.
  pub read_page : ℕ → ℕ → Reading → Value × Reading
  read_page base bits s =
      let byte_size = bits / 8 in
      let (last, s') = read_byte s (u64 (base + 2 ^ 64 + byte_size - 1)) in
      let (rest, s'') = read_down (byte_size - 1) base s' in (compose bits last rest, s'')
