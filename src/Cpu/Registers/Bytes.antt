-- ===== src/Cpu/Registers/Bytes.antt =====
-- src/memory/memory.cpp at a concrete address of a page, as the registers use it.
use native.Mathlib.Nat.{mod-eq_of_lt}
use vexa.Prelude.{
  ℕ, suc, ◌+◌, ◌*◌, ◌^◌, ◌<◌, ◌≡◌, ◌≢◌, inl, inr, refl, sym, ◌∙◌, ap, some, arith, length,
}
use vexa.Terms.{Bitwuzla}
use vexa.Value.{Value, concrete, simplify, term_as_uint64}
use vexa.Memory.{MemPage, u64, reading, read_page, write_page}
use vexa.Memory.Digits.{digit, number-digit, number_ext}
use vexa.Memory.Cells.{byte_at, IsWf}
use vexa.Memory.Read.{or_zero, little_endian, read_page_sound, Extends-byte_at}
use vexa.Memory.Write.{write_page_sound}
use vexa.Memory.Heap.{Memory, page_at, store_page, read, write}
use vexa.Memory.Heap.Snapshots.{page_at-store_page}
use vexa.Emulator.Access.Merge.{IsWfHeap, All-or_new, All-set}

module _ ⦃B : Bitwuzla⦄ where
  open B use {
    Env, eval, size, eval-value, value_of, is_value-mk_bv_value, size-mk_bv_value, eval-mk_bv_value,
    mk_bv_value,
  }

  simplify-concrete : (n : ℕ) → simplify (concrete n 64) ≡ concrete n 64
  unfolding simplify
  simplify-concrete n = rw (is_value-mk_bv_value 64 n) refl

  address_of-concrete : (ρ : Env) (n : ℕ) → n < 2 ^ 64 → term_as_uint64 (mk_bv_value 64 n) ≡ n
  address_of-concrete ρ n h =
      let printed : value_of (mk_bv_value 64 n) ≡ n =
        sym (eval-value ρ (mk_bv_value 64 n) (is_value-mk_bv_value 64 n))
        ∙ eval-mk_bv_value ρ 64 n h in
      ground (arith, printed, size-mk_bv_value 64 n)

  write-concrete :
      (ρ : Env) (m : Memory) (i n : ℕ) (v : Value)
      → n < 2 ^ 64
      → write m (concrete n 64, i) v ≡ store_page m i (write_page n v (page_at m i))
  unfolding write
  write-concrete ρ m i n v h =
      rw (simplify-concrete n, is_value-mk_bv_value 64 n)
        (ap (λ a. store_page m i (write_page a v (page_at m i))) (address_of-concrete ρ n h))

  -- The bytes of a page from `base` on are those of a number.
  abbrev pub HasBytes : Env → MemPage → ℕ → ℕ → ℕ → Type 0
  HasBytes ρ p base n x = (j : ℕ) → j < n → byte_at ρ p (u64 (base + j)) ≡ some (digit x j)

  read_page-HasBytes :
      (ρ : Env) (n base constants x : ℕ) (p : MemPage)
      → IsWf p
      → HasBytes ρ p base (suc n) x
      → x < 2 ^ (8 * suc n)
      → eval ρ (read_page base (8 * suc n) (reading p constants)).0.term ≡ x
  unfolding little_endian
  read_page-HasBytes ρ n base constants x p wf h bound =
      let s = reading p constants in
      let s' = (read_page base (8 * suc n) s).1 in
      let (value, _, keeps, _, _) = read_page_sound ρ n base s wf in
      let bytes : (j : ℕ) → j < suc n → or_zero (byte_at ρ s'.page (u64 (base + j))) ≡ digit x j =
        λ j l. ap or_zero (Extends-byte_at ρ p s'.page _ _ keeps.extends (h j l)) in
      value ∙ number_ext _ (digit x) (suc n) bytes ∙ number-digit x (suc n) ∙ mod-eq_of_lt bound

  pub read-HasBytes :
      (ρ : Env) (m : Memory) (i n base x : ℕ)
      → base < 2 ^ 64
      → IsWfHeap m
      → HasBytes ρ (page_at m i) base (suc n) x
      → x < 2 ^ (8 * suc n)
      → eval ρ (read m (concrete base 64, i) (8 * suc n)).0.term ≡ x
  unfolding read
  read-HasBytes ρ m i n base x low wf h bound =
      rw (simplify-concrete base, is_value-mk_bv_value 64 base)
        (ap (λ a. eval ρ (read_page a (8 * suc n) (reading (page_at m i) m.constants)).0.term)
            (address_of-concrete ρ base low)
          ∙ read_page-HasBytes ρ n base m.constants x (page_at m i) (All-or_new m.heap i wf) h
              bound)

  page_at-write :
      (ρ : Env) (m : Memory) (i base : ℕ) (v : Value)
      → base < 2 ^ 64
      → i < length m.heap
      → page_at (write m (concrete base 64, i) v) i ≡ write_page base v (page_at m i)
  page_at-write ρ m i base v low there =
      ap (λ k. page_at k i) (write-concrete ρ m i base v low)
      ∙ (elim (page_at-store_page m i i (write_page base v (page_at m i)) there) [
        | inl (same, e) ↦ e
        | inr (other, e) ↦ absurd (other refl)
      ])

  -- A write of the whole bytes of a value at a base gives them to the page, and keeps those of a
  -- number that stands elsewhere.
  pub write-HasBytes :
      (ρ : Env) (m : Memory) (i n base : ℕ) (v : Value)
      → base < 2 ^ 64
      → i < length m.heap
      → IsWfHeap m
      → suc n < 256
      → size v.term ≡ 8 * suc n
      → HasBytes ρ (page_at (write m (concrete base 64, i) v) i) base (suc n) (eval ρ v.term)
        × ((base' n' x : ℕ)
            → ((j k : ℕ) → j < suc n → k < n' → u64 (base + j) ≢ u64 (base' + k))
            → HasBytes ρ (page_at m i) base' n' x
            → HasBytes ρ (page_at (write m (concrete base 64, i) v) i) base' n' x)
        × IsWfHeap (write m (concrete base 64, i) v)
  write-HasBytes ρ m i n base v low there wf small width =
      let (puts, keeps, wf') =
        write_page_sound ρ (suc n) base v (page_at m i) small width (All-or_new m.heap i wf) in
      let page = page_at-write ρ m i base v low there in
      (
        λ j h. ap (λ p. byte_at ρ p (u64 (base + j))) page ∙ puts j h,
        λ base' n' x apart old k h.
            ap (λ p. byte_at ρ p (u64 (base' + k))) page
            ∙ keeps (u64 (base' + k)) (λ j l. apart j k l h)
            ∙ old k h,
        rw (write-concrete ρ m i base v low)
            (All-set m.heap i (write_page base v (page_at m i)) wf wf'),
      )
