-- ===== src/Emulator/Pointers.antt =====
-- src/arch/emulator.cpp: the instructions on pointers. A pointer is a value with a page.
use vexa.Prelude.{ℕ, Option, none, some, List, Result, ok, throw, ◌>>=◌}
use vexa.Terms.{Bitwuzla}
use vexa.Value.{Value, concrete, pointer, simplify, operate, plus}
use vexa.Memory.Heap.{Memory, Pointer, allocate}
use vexa.Emulator.Access.{Bases, write_memory, read_memory}

module _ ⦃B : Bitwuzla⦄ where
  open B use {Term}

  -- `dyn_cast<vexa::pointer>`: a value that is no pointer has no page.
  abbrev pub page_of : Value → Option ℕ → Result Pointer
  page_of v none = throw
  page_of v (some p) = ok (v, p)

  abbrev pub pointer_of : Value → Result Pointer
  pointer_of v = page_of v v.page

  unfoldable pub visit_alloca_inst : Memory → Memory × Value
  visit_alloca_inst m = let (page, m') = allocate m in (m', pointer (concrete 0 64) page)

  -- The offset, where it is constant.
  unfoldable pub visit_get_element_ptr_inst : Option ℕ → Value → Result Value
  visit_get_element_ptr_inst none v = throw
  visit_get_element_ptr_inst (some offset) v = do
    ptr ← pointer_of v
    ok (pointer (operate plus v (concrete offset 64)) ptr.1)

  unfoldable pub visit_store_inst :
      Bases → List Term → Value → Value → Memory → Result (Value × Memory)
  visit_store_inst b constraints v val m = do
    ptr ← pointer_of v
    m' ← write_memory b constraints ptr val m
    ok (concrete 0 64, m')

  unfoldable pub visit_load_inst : Bases → List Term → Value → ℕ → Memory → Result (Value × Memory)
  visit_load_inst b constraints v bits m = do
    ptr ← pointer_of (simplify v)
    read_memory b constraints ptr bits m
