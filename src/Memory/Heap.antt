-- ===== src/Memory/Heap.antt =====
-- src/memory/memory.cpp: the class `memory` over all of its pages, and its snapshots.
-- `heap` holds every page ever allocated, which the pointers keep alive; `pages` names those that
-- the class lists.
pub mod Snapshots
use vexa.Prelude.{
  ℕ, suc, ◌+◌, Bool, true, false, List, [], ◌∷◌, ◌++◌, Option, none, some, if◌then◌else◌, length,
  get_elem?, set, Dict, map,
}
use vexa.Terms.{Bitwuzla}
use vexa.Value.{Value, symbolic, is_concrete, term_as_uint64, simplify}
use vexa.Memory.{MemPage, MemCell, Reading, new_page, reading, write_page, read_page}

module _ ⦃B : Bitwuzla⦄ where
  open B use {size}

  pub record Memory : Type 0 where
    pub heap : List MemPage
    pub pages : List ℕ
    -- the count of the constants made so far
    pub constants : ℕ

  -- A `vexa::pointer`: its value and the page that it points into.
  abbrev pub Pointer : Type 0
  Pointer = Value × ℕ

  abbrev pub or_new : Option MemPage → MemPage
  or_new none = new_page
  or_new (some p) = p

  abbrev pub page_at : Memory → ℕ → MemPage
  page_at m i = or_new (get_elem? m.heap i)

  abbrev pub store_page : Memory → ℕ → MemPage → Memory
  store_page m i p = record m { heap = set m.heap i p }

  unfoldable pub allocate : Memory → ℕ × Memory
  allocate m =
      let i = length m.heap in
      (i, record m { heap = m.heap ++ new_page ∷ []; pages = m.pages ++ i ∷ [] })

  -- A write through a symbolic address does nothing.
  unfoldable pub write : Memory → Pointer → Value → Memory
  write m (addr, i) v =
      let a = simplify addr in
      if is_concrete a
      then store_page m i (write_page (term_as_uint64 a.term) v (page_at m i))
      else m

  -- A read through a symbolic address gives a new symbol.
  unfoldable pub read : Memory → Pointer → ℕ → Value × Memory
  read m (addr, i) bits =
      let a = simplify addr in
      if is_concrete a
      then (let (v, s) =
            read_page (term_as_uint64 a.term) bits (reading (page_at m i) m.constants) in
          (v, record m { heap = set m.heap i s.page; constants = s.constants }))
      else (symbolic m.constants bits, record m { constants = suc m.constants })

  -- a page and its storage
  abbrev pub PageState : Type 0
  PageState = ℕ × Dict MemCell

  pub page_states : Memory → List ℕ → List PageState
  page_states m [] = []
  page_states m (i ∷ pages) = (i, (page_at m i).memory) ∷ page_states m pages

  unfoldable pub take_snapshot : Memory → List PageState
  unfolding page_states
  take_snapshot m = page_states m m.pages

  pub restore_pages : List PageState → Memory → Memory
  restore_pages [] m = m
  restore_pages ((i, storage) ∷ ss) m =
      restore_pages ss (store_page m i (record (page_at m i) { memory = storage }))

  pub page_names : List PageState → List ℕ
  page_names [] = []
  page_names ((i, _) ∷ ss) = i ∷ page_names ss

  unfoldable pub restore_snapshot : Memory → List PageState → Memory
  unfolding restore_pages page_names
  restore_snapshot m ss = restore_pages ss (record m { pages = page_names ss })
