-- ===== src/Memory/Write.antt =====
-- src/memory/memory.cpp, `memory::write` at a concrete address: which bytes change, and to what.
use vexa.Prelude.{
  ℕ, zero, suc, ◌+◌, ◌*◌, ◌/◌, ◌<◌, ◌≤◌, ◌≡◌, ◌≢◌, refl, ap, ◌∙◌, some, arith, ◌==◌, Bool-cases,
  inl, inr, ==_iff,
}
use vexa.Terms.{Bitwuzla}
use vexa.Value.{Value, simplify}
use vexa.Value.Simplify.{eval-simplify_value, size-simplify_value}
use vexa.Memory.{MemPage, u64, u8, cell, page_find, page_write, write_bytes, write_page}
use vexa.Memory.Cells.{
  IsWf, IsCell-cell, byte_at, found_byte, page_find-page_write, page_write-IsWf,
}
use vexa.Memory.Digits.{digit}

module _ ⦃B : Bitwuzla⦄ where
  open B use {Env, eval, size}

  page_find-write_bytes_out :
      (left i base n : ℕ) (v : Value) (p : MemPage) (a : ℕ)
      → ((j : ℕ) → i ≤ j → j < i + left → u64 (base + j) ≢ a)
      → page_find (write_bytes left i base n v p) a ≡ page_find p a
  unfolding write_bytes
  page_find-write_bytes_out zero i base n v p a h = refl
  page_find-write_bytes_out (suc left) i base n v p a h =
      let rest =
        page_find-write_bytes_out left (i + 1) base n v (page_write p (u64 (base + i)) (cell v n i))
          a (λ j lo hi. h j (omega arith) (omega arith)) in
      let apart = h i (omega arith) (omega arith) in
      ground (arith, rest, page_find-page_write p (u64 (base + i)) (cell v n i) a)

  page_find-write_bytes_in :
      (left i base n : ℕ) (v : Value) (p : MemPage) (j : ℕ)
      → i ≤ j
      → j < i + left
      → i + left ≤ 256
      → page_find (write_bytes left i base n v p) (u64 (base + j)) ≡ some (cell v n j)
  unfolding write_bytes
  page_find-write_bytes_in zero i base n v p j lo hi fits = absurd (omega arith)
  page_find-write_bytes_in (suc left) i base n v p j lo hi fits =
      let p' = page_write p (u64 (base + i)) (cell v n i) in
      elim (Bool-cases (i == j)) [
        | inl now ↦
            let e : i ≡ j = (==_iff i j).0 now in
            let untouched =
              page_find-write_bytes_out left (i + 1) base n v p' (u64 (base + j))
                (λ k lo' hi' clash. omega arith) in
            ground (
              arith,
              untouched,
              page_find-page_write p (u64 (base + i)) (cell v n i) (u64 (base + j)),
              ap (λ (t : ℕ). u64 (base + t)) e,
            )
        | inr later ↦
            page_find-write_bytes_in left (i + 1) base n v p' j (ground arith) (omega arith)
              (omega arith)
      ]

  write_bytes-IsWf :
      (left i base n : ℕ) (v : Value) (p : MemPage)
      → i + left ≤ n
      → size v.term ≡ 8 * n
      → IsWf p
      → IsWf (write_bytes left i base n v p)
  unfolding write_bytes
  write_bytes-IsWf zero i base n v p fits width h = h
  write_bytes-IsWf (suc left) i base n v p fits width h =
      write_bytes-IsWf left (i + 1) base n v _ (omega arith) width
        (page_write-IsWf p (u64 (base + i)) (cell v n i) (IsCell-cell v n i (omega arith) width) h)

  byte_size-exact : (n : ℕ) (v : Value) → n < 256 → size v.term ≡ 8 * n → u8 (size v.term / 8) ≡ n
  byte_size-exact n v small width = rw width (omega arith)

  -- Writing a value of n bytes puts byte j of it at base + j, wrapping at 64 bits, changes no
  -- other byte, and leaves the page well formed.
  pub write_page_sound :
      (ρ : Env) (n base : ℕ) (v : Value) (p : MemPage)
      → n < 256
      → size v.term ≡ 8 * n
      → IsWf p
      → ((j : ℕ)
          → j < n
          → byte_at ρ (write_page base v p) (u64 (base + j)) ≡ some (digit (eval ρ v.term) j))
        × ((a : ℕ)
            → ((j : ℕ) → j < n → u64 (base + j) ≢ a)
            → byte_at ρ (write_page base v p) a ≡ byte_at ρ p a)
        × IsWf (write_page base v p)
  unfolding write_page
  write_page_sound ρ n base v p small width wf =
      let e = byte_size-exact n v small width in
      let v' = simplify v in
      (
        λ j h. rw e (
            ap (found_byte ρ)
              (page_find-write_bytes_in n 0 base n v' p j (omega arith) (omega arith) (omega arith))
            ∙ rw (eval-simplify_value ρ v)),
        λ a h. rw e (
            ap (found_byte ρ)
              (page_find-write_bytes_out n 0 base n v' p a (λ j lo hi. h j (omega arith)))),
        rw e (
            write_bytes-IsWf n 0 base n v' p (omega arith)
              (omega (arith, size-simplify_value v, width)) wf),
      )
