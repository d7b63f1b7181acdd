-- ===== src/Memory/Compose.antt =====
-- src/memory/memory.cpp, `memory::read`: the three branches on which a value is made of cells.
use native.Mathlib.Nat.{mod-eq_of_lt, div-one, mod-one}
use vexa.Prelude.{
  ℕ, suc, ◌+◌, ◌-◌, ◌*◌, ◌/◌, ◌%◌, ◌^◌, ◌<◌, ◌≤◌, ◌≡◌, refl, sym, ◌∙◌, ap, Bool, true, ◌&&◌, List,
  [], ◌∷◌, ◌==◌, if◌then◌else◌, arith, All, map, length, Bool-cases, inl, inr, ==_iff,
}
use vexa.Terms.{Bitwuzla}
use vexa.Terms.Denote.{bv_concat}
use vexa.Value.{Value, extract, operate, concat}
use vexa.Memory.{MemCell, can_merge, are_aligned, back, extract_byte, concat_rest, compose}
use vexa.Memory.Cells.{cell_byte, IsCell}
use vexa.Memory.Digits.{horner, digit_step}

module _ ⦃B : Bitwuzla⦄ where
  open B use {
    Env, eval, size, eval-mk_extract, size-mk_extract, eval-mk_binary, size-mk_binary,
    term_eq_sound, eval_lt,
  }

  eval-extract_cell :
      (ρ : Env) (c : MemCell)
      → IsCell c
      → let v = extract (c.which_byte * 8 + 7) (c.which_byte * 8) c.original_val in
        (eval ρ v.term ≡ cell_byte ρ c) × (size v.term ≡ 8)
  eval-extract_cell ρ c h =
      let high = c.which_byte * 8 + 7 in
      let low = c.which_byte * 8 in
      let t = c.original_val.term in
      let fits : high < size t = omega (arith, h.in_value, h.width) in
      let e = eval-mk_extract ρ high low t (omega arith) fits in
      let w = size-mk_extract high low t (omega arith) fits in
      let eight : high + 1 - low ≡ 8 = omega arith in
      let order : low ≡ 8 * c.which_byte = omega arith in (e ∙ rw (eight, order) refl, w ∙ eight)

  eval-extract_byte :
      (ρ : Env) (c : MemCell)
      → IsCell c
      → (eval ρ (extract_byte c).term ≡ cell_byte ρ c) × (size (extract_byte c).term ≡ 8)
  unfolding extract_byte
  eval-extract_byte ρ c h = rw h.not_cached (eval-extract_cell ρ c h)

  -- Concatenating the bytes of the cells below `v`.
  eval-concat_rest :
      (ρ : Env) (v : Value) (cells : List MemCell)
      → All IsCell cells
      → (eval ρ (concat_rest v cells).term ≡ horner (eval ρ v.term) (map (cell_byte ρ) cells))
        × (size (concat_rest v cells).term ≡ size v.term + 8 * length cells)
  unfolding concat_rest operate
  eval-concat_rest ρ v [] h = (refl, omega arith)
  eval-concat_rest ρ v (c ∷ cells) h =
      let (byte, width) = eval-extract_byte ρ c h.0 in
      let joined = operate concat v (extract_byte c) in
      let (rest, total) = eval-concat_rest ρ joined cells h.1 in
      let e : eval ρ joined.term ≡ eval ρ v.term * 256 + cell_byte ρ c =
        eval-mk_binary ρ bv_concat v.term (extract_byte c).term refl ∙ rw (byte, width) refl in
      let s = size-mk_binary bv_concat v.term (extract_byte c).term in
      (rest ∙ ap (λ a. horner a (map (cell_byte ρ) cells)) e, omega (arith, total, s, width))

  merged_step :
      (ρ : Env) (last c : MemCell) (acc k : ℕ)
      → let x = eval ρ last.original_val.term in
        c.original_val.term ≡ last.original_val.term
        → acc ≡ x / 2 ^ (8 * suc c.which_byte) % 2 ^ (8 * k)
        → acc * 256 + cell_byte ρ c ≡ x / 2 ^ (8 * c.which_byte) % 2 ^ (8 * suc k)
  merged_step ρ last c acc k same e =
      rw (e, same) (digit_step (eval ρ last.original_val.term) c.which_byte k)

  same_term :
      (last c : MemCell) (cells : List MemCell)
      → can_merge last (c ∷ cells) ≡ true
      → (c.original_val.term ≡ last.original_val.term) × (can_merge last cells ≡ true)
  same_term last c cells h =
      ground (arith, term_eq_sound c.original_val.term last.original_val.term)

  -- Cells that are consecutive bytes of one value, going down, are that part of the value.
  horner-aligned :
      (ρ : Env) (last c : MemCell) (cells : List MemCell) (i acc k : ℕ)
      → let x = eval ρ last.original_val.term in
        can_merge last (c ∷ cells) ≡ true
        → are_aligned last i (c ∷ cells) ≡ true
        → acc ≡ x / 2 ^ (8 * suc c.which_byte) % 2 ^ (8 * k)
        → horner acc (map (cell_byte ρ) (c ∷ cells))
          ≡ x / 2 ^ (8 * (back c cells).which_byte) % 2 ^ (8 * (k + suc (length cells)))
  horner-aligned ρ last c [] i acc k merge align e =
      let one : k + 1 ≡ suc k = omega arith in
      rw one (merged_step ρ last c acc k (same_term last c [] merge).0 e)
  horner-aligned ρ last c (c' ∷ cells) i acc k merge align e =
      let x = eval ρ last.original_val.term in
      let (same, merge') = same_term last c (c' ∷ cells) merge in
      let next : c.which_byte ≡ suc c'.which_byte = ground arith in
      let align' : are_aligned last (i + 1) (c' ∷ cells) ≡ true = ground arith in
      let count : k + suc (suc (length cells)) ≡ suc k + suc (length cells) = omega arith in
      let step = merged_step ρ last c acc k same e in
      rw count (
        horner-aligned ρ last c' cells (i + 1) (acc * 256 + cell_byte ρ c) (suc k) merge' align'
          (step ∙ ap (λ (w : ℕ). x / 2 ^ (8 * w) % 2 ^ (8 * suc k)) next))

  back-aligned :
      (last c : MemCell) (cells : List MemCell) (i : ℕ)
      → are_aligned last i (c ∷ cells) ≡ true
      → (back c cells).which_byte + (i + length cells) ≡ last.which_byte
  back-aligned last c [] i h = ground arith
  back-aligned last c (c' ∷ cells) i h =
      let rest : are_aligned last (i + 1) (c' ∷ cells) ≡ true = ground arith in
      omega (arith, back-aligned last c' cells (i + 1) rest)

  -- The whole value, or a part of it, where the cells are consecutive bytes of one value.
  module _ (ρ : Env) (m : ℕ) (last : MemCell) (rest : List MemCell) (count : length rest ≡ m)
      (wf : IsCell last) (merge : can_merge last (last ∷ rest) ≡ true)
      (align : are_aligned last 0 (last ∷ rest) ≡ true) where
    abbrev x : ℕ
    x = eval ρ last.original_val.term

    abbrev low : ℕ
    low = (back last rest).which_byte

    low-add : low + m ≡ last.which_byte
    low-add = omega (arith, back-aligned last last rest 0 align)

    horner-part : horner 0 (map (cell_byte ρ) (last ∷ rest)) ≡ x / 2 ^ (8 * low) % 2 ^ (8 * suc m)
    horner-part =
        let none_yet = sym (mod-one (x / 2 ^ (8 * suc last.which_byte))) in
        let n : 0 + suc (length rest) ≡ suc m = omega arith in
        rw n at (horner-aligned ρ last last rest 0 0 0 merge align none_yet)

    whole :
        suc m ≡ last.total_size
        → (x ≡ horner 0 (map (cell_byte ρ) (last ∷ rest)))
          × (size last.original_val.term ≡ 8 * suc m)
    whole full =
        let bottom : low ≡ 0 = omega (arith, low-add, wf.in_value) in
        let width : size last.original_val.term ≡ 8 * suc m = omega (arith, wf.width) in
        let small : x < 2 ^ (8 * suc m) = rw width at (eval_lt ρ last.original_val.term) in
        let part : horner 0 (map (cell_byte ρ) (last ∷ rest)) ≡ x / 1 % 2 ^ (8 * suc m) =
          rw bottom at horner-part in
        (sym (part ∙ rw (div-one x) (mod-eq_of_lt small)), width)

    part :
        let high_bit = low * 8 + 8 * suc m - 1 in
        let v = extract high_bit (low * 8) last.original_val in
        (eval ρ v.term ≡ horner 0 (map (cell_byte ρ) (last ∷ rest))) × (size v.term ≡ 8 * suc m)
    part =
        let high_bit : ℕ = low * 8 + 8 * suc m - 1 in
        let t = last.original_val.term in
        let fits : high_bit < size t = omega (arith, low-add, wf.in_value, wf.width) in
        let order : low * 8 ≤ high_bit = omega arith in
        let bits : high_bit + 1 - low * 8 ≡ 8 * suc m = omega arith in
        let swap : low * 8 ≡ 8 * low = omega arith in
        let e = eval-mk_extract ρ high_bit (low * 8) t order fits in
        let w = size-mk_extract high_bit (low * 8) t order fits in
        (e ∙ rw (bits, swap) (sym horner-part), w ∙ bits)

  abbrev is_merged : MemCell → List MemCell → Bool
  is_merged last rest = can_merge last (last ∷ rest) && are_aligned last 0 (last ∷ rest)

  -- `compose` at a whole number of bytes.
  compose_lem :
      (m : ℕ) (last : MemCell) (rest : List MemCell)
      → let low_bit = (back last rest).which_byte * 8 in
        let highest = extract (last.which_byte * 8 + 7) (last.which_byte * 8) last.original_val in
        compose (8 * suc m) last rest ≡ (
          if is_merged last rest
          then if suc m == last.total_size
            then last.original_val
            else extract (low_bit + 8 * suc m - 1) low_bit last.original_val
          else concat_rest highest rest)
  unfolding compose
  compose_lem m last rest =
      let bytes : 8 * suc m / 8 ≡ suc m = omega arith in
      elim (Bool-cases (is_merged last rest)) [
        | inl merged ↦ rw (bytes, merged) refl
        | inr apart ↦ rw (bytes, apart) refl
      ]

  -- On every branch `compose` has the cells' bytes, the first cell's highest, and as many bits.
  pub compose_sound :
      (ρ : Env) (m : ℕ) (last : MemCell) (rest : List MemCell)
      → length rest ≡ m
      → IsCell last
      → All IsCell rest
      → (eval ρ (compose (8 * suc m) last rest).term ≡ horner 0 (map (cell_byte ρ) (last ∷ rest)))
        × (size (compose (8 * suc m) last rest).term ≡ 8 * suc m)
  compose_sound ρ m last rest count wf rest_wf =
      let highest = extract (last.which_byte * 8 + 7) (last.which_byte * 8) last.original_val in
      let (first, eight) = eval-extract_cell ρ last wf in
      let (joined, width) = eval-concat_rest ρ highest rest rest_wf in
      rw (compose_lem m last rest) (elim (Bool-cases (is_merged last rest)) [
        | inl merged ↦
            let merge : can_merge last (last ∷ rest) ≡ true = ground arith in
            let align : are_aligned last 0 (last ∷ rest) ≡ true = ground arith in
            rw merged (elim (Bool-cases (suc m == last.total_size)) [
              | inl full ↦ rw full (whole ρ m last rest count wf merge align ((==_iff _ _).0 full))
              | inr partial ↦ rw partial (part ρ m last rest count wf merge align)
            ])
        | inr apart ↦ rw apart (
          joined ∙ ap (λ a. horner a (map (cell_byte ρ) rest)) (first ∙ omega arith),
          omega (arith, width, eight),
        )
      ])
