-- ===== src/Memory/Read.antt =====
-- src/memory/memory.cpp, `memory::read` at a concrete address, of any page and after a write.
use native.Mathlib.Nat.{mod-eq_of_lt}
use vexa.Prelude.{
  ℕ, zero, suc, ◌+◌, ◌-◌, ◌*◌, ◌/◌, ◌^◌, ◌<◌, ◌≡◌, ◌≢◌, ◌==◌, Bool-cases, refl, sym, ◌∙◌, ap, ap₂,
  Option, none, some, List, ◌∷◌, arith, All, map, length, Option-cases, inl, inr,
}
use vexa.Terms.{Bitwuzla}
use vexa.Value.{Value, symbolic}
use vexa.Memory.{
  MemPage, MemCell, Reading, u64, page_find, page_write, read_byte, read_down, read_page,
  write_page, compose, reading,
}
use vexa.Memory.Cells.{
  IsWf, IsCell, IsCell-cell, Extends, cell_byte, byte_at, found_byte, page_find-page_write,
  page_write-IsWf,
}
use vexa.Memory.Digits.{
  digit, number, number-digit, number_ext, horner, descending, horner-descending,
}
use vexa.Memory.Fresh.{Keeps, Keeps-refl, Keeps-trans, uninit_cell}
use vexa.Memory.Compose.{compose_sound}
use vexa.Memory.Write.{write_page_sound}

abbrev pub or_zero : Option ℕ → ℕ
or_zero none = 0
or_zero (some b) = b

module _ ⦃B : Bitwuzla⦄ where
  open B use {Env, eval, size, size-mk_const, eval_lt}

  -- The little-endian number of the n bytes at `base`, wrapping at 64 bits.
  unfoldable pub little_endian : Env → MemPage → ℕ → ℕ → ℕ
  little_endian ρ p base n = number (λ j. or_zero (byte_at ρ p (u64 (base + j)))) n

  record ReadsByte (s : Reading) (a : ℕ) (c : MemCell) (s' : Reading) : Type 0 where
    keeps : Keeps s s'
    is_cell : IsCell c
    found : page_find s'.page a ≡ some c
    others : (b : ℕ) → a ≢ b → page_find s'.page b ≡ page_find s.page b

  read_byte-ReadsByte :
      (s : Reading) (a : ℕ) → IsWf s.page → ReadsByte s a (read_byte s a).0 (read_byte s a).1
  unfolding read_byte
  read_byte-ReadsByte s a wf = elim (Option-cases (page_find s.page a)) [
    | inl missing ↦
        let c = uninit_cell s.constants in
        let h =
          IsCell-cell (symbolic s.constants 8) 1 0 (omega arith)
            (omega (arith, size-mk_const s.constants 8)) in
        let law = page_find-page_write s.page a c in
        rw (missing, read_byte)
          (record {
            keeps = record {
              wf = page_write-IsWf s.page a c h wf;
              extends = λ b d e. ground (arith, law b);
              counts = omega arith;
              number_of = λ b. s.constants;
              filled = λ b k. elim (Bool-cases (a == b)) [
                | inl same ↦
                    let e : page_find (page_write s.page a c) b ≡ some c =
                      ground (arith, law b, same) in
                    inr (e, omega arith, omega arith)
                | inr other ↦ inl (ground (arith, law b, other, k))
              ];
              distinct = λ x y d e h' k f g same.
                  let here : a ≡ x = ground (arith, law x, h', f) in
                  let there : a ≡ y = ground (arith, law y, k, g) in sym here ∙ there;
            };
            is_cell = h;
            found = ground (arith, law a);
            others = λ b ne. ground (arith, law b, ne);
          })
    | inr (c, e) ↦
        rw (e, read_byte)
          (record { keeps = Keeps-refl s wf; is_cell = wf a c e; found = e; others = λ b ne. refl })
  ]

  record ReadsDown (ρ : Env) (n base : ℕ) (s : Reading) (cs : List MemCell) (s' : Reading)
      : Type 0 where
    keeps : Keeps s s'
    cells : All IsCell cs
    count : length cs ≡ n
    present : (j : ℕ) → j < n → (c : MemCell) × (page_find s'.page (u64 (base + j)) ≡ some c)
    others :
        (a : ℕ) → ((j : ℕ) → j < n → u64 (base + j) ≢ a) → page_find s'.page a ≡ page_find s.page a
    bytes : map (cell_byte ρ) cs ≡ descending (λ j. or_zero (byte_at ρ s'.page (u64 (base + j)))) n

  read_down-ReadsDown :
      (ρ : Env) (n base : ℕ) (s : Reading)
      → IsWf s.page
      → ReadsDown ρ n base s (read_down n base s).0 (read_down n base s).1
  unfolding read_down
  read_down-ReadsDown ρ zero base s wf = record {
    keeps = Keeps-refl s wf;
    cells = tt;
    count = refl;
    present = λ j h. absurd (omega (arith, h));
    others = λ a h. refl;
    bytes = refl;
  }
  read_down-ReadsDown ρ (suc n) base s wf =
      let a = u64 (base + n) in
      let s' = (read_byte s a).1 in
      let first = read_byte-ReadsByte s a wf in
      let rest = read_down-ReadsDown ρ n base s' first.keeps.wf in
      let there = rest.keeps.extends a _ first.found in
      record {
        keeps = Keeps-trans s s' (read_down n base s').1 first.keeps rest.keeps;
        cells = (first.is_cell, rest.cells);
        present = λ j h. elim (Bool-cases (j == n)) [
          | inl same ↦
              let e : j ≡ n = ground (arith, same) in
              (
                (read_byte s a).0,
                ap (λ i. page_find (read_down n base s').1.page (u64 (base + i))) e ∙ there,
              )
          | inr differs ↦ rest.present j (ground (arith, differs, h))
        ];
        others = λ b away.
            rest.others b (λ j h. away j (omega (arith, h)))
            ∙ first.others b (away n (omega arith));
        count = ap suc rest.count;
        bytes = ap₂ ◌∷◌ (sym (ap (λ o. or_zero (found_byte ρ o)) there)) rest.bytes;
      }

  -- The read with the address of the highest byte, and the count of the others.
  abbrev read_from : ℕ → ℕ → Reading → ℕ → ℕ → Value × Reading
  read_from base bits s a k =
      let (last, s') = read_byte s a in
      let (rest, s'') = read_down k base s' in (compose bits last rest, s'')

  -- `read_page` at a whole number of bytes.
  read_page_lem :
      (m base : ℕ) (s : Reading)
      → read_page base (8 * suc m) s ≡ (
          let (last, s') = read_byte s (u64 (base + m)) in
          let (rest, s'') = read_down m base s' in (compose (8 * suc m) last rest, s''))
  unfolding read_page
  read_page_lem m base s =
      ap₂ (read_from base (8 * suc m) s)
        (let e : u64 (base + 2 ^ 64 + 8 * suc m / 8 - 1) ≡ u64 (base + m) = omega arith in e)
        (let e : 8 * suc m / 8 - 1 ≡ m = omega arith in e)

  -- A read of m + 1 bytes returns the little-endian number of the page's bytes, in as many bits. The
  -- page is well formed, has all of these bytes, and keeps the cells that it had and what it was at
  -- the other addresses; each of the bytes that was never written has become a new symbol of 8 bits,
  -- no two of them the same.
  pub read_page_sound :
      (ρ : Env) (m base : ℕ) (s : Reading)
      → IsWf s.page
      → let (v, s') = read_page base (8 * suc m) s in
        (eval ρ v.term ≡ little_endian ρ s'.page base (suc m))
        × (size v.term ≡ 8 * suc m)
        × Keeps s s'
        × ((j : ℕ) → j < suc m → (c : MemCell) × (page_find s'.page (u64 (base + j)) ≡ some c))
        × ((a : ℕ)
            → ((j : ℕ) → j < suc m → u64 (base + j) ≢ a)
            → page_find s'.page a ≡ page_find s.page a)
  unfolding little_endian read_down
  read_page_sound ρ m base s wf =
      let s' = (read_byte s (u64 (base + m))).1 in
      let last = (read_byte s (u64 (base + m))).0 in
      let rest = (read_down m base s').0 in
      let s'' = (read_down m base s').1 in
      let f : ℕ → ℕ = λ j. or_zero (byte_at ρ s''.page (u64 (base + j))) in
      let down = read_down-ReadsDown ρ (suc m) base s wf in
      let count : length rest ≡ m = omega (arith, down.count) in
      let made = compose_sound ρ m last rest count down.cells.0 down.cells.1 in
      rw (read_page_lem m base s) (
        made.0 ∙ ap (horner 0) down.bytes ∙ horner-descending f (suc m) 0 ∙ omega arith,
        made.1,
        down.keeps,
        down.present,
        down.others,
      )

  pub Extends-byte_at :
      (ρ : Env) (p q : MemPage) (a b : ℕ)
      → Extends p q
      → byte_at ρ p a ≡ some b
      → byte_at ρ q a ≡ some b
  Extends-byte_at ρ p q a b h e = elim (Option-cases (page_find p a)) [
    | inl missing ↦ cc (ap (found_byte ρ) missing)
    | inr (c, found) ↦ ap (found_byte ρ) (h a c found) ∙ sym (ap (found_byte ρ) found) ∙ e
  ]

  -- A value of m + 1 bytes that is written and read back at one address is the value.
  pub read_page-write_page :
      (ρ : Env) (m base constants : ℕ) (v : Value) (p : MemPage)
      → suc m < 256
      → size v.term ≡ 8 * suc m
      → IsWf p
      → eval ρ (read_page base (8 * suc m) (reading (write_page base v p) constants)).0.term
        ≡ eval ρ v.term
  unfolding little_endian
  read_page-write_page ρ m base constants v p small width wf =
      let x = eval ρ v.term in
      let p' = write_page base v p in
      let (put, _, wf') = write_page_sound ρ (suc m) base v p small width wf in
      let s = reading p' constants in
      let s' = (read_page base (8 * suc m) s).1 in
      let (value, _, keeps, _, _) = read_page_sound ρ m base s wf' in
      let bytes : (j : ℕ) → j < suc m → or_zero (byte_at ρ s'.page (u64 (base + j))) ≡ digit x j =
        λ j h. ap or_zero (Extends-byte_at ρ p' s'.page _ _ keeps.extends (put j h)) in
      let bound : x < 2 ^ (8 * suc m) = rw width at (eval_lt ρ v.term) in
      value ∙ number_ext _ (digit x) (suc m) bytes ∙ number-digit x (suc m) ∙ mod-eq_of_lt bound
