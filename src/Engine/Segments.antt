-- ===== src/Engine/Segments.antt =====
-- src/engine/engine.cpp, `map_binary`: the segments of an ELF file.
use native.Mathlib.Nat.{mod-eq_of_lt}
use vexa.Prelude.{
  ℕ, suc, ◌+◌, ◌-◌, ◌^◌, ◌<◌, ◌≤◌, ◌≡◌, ◌≢◌, inl, inr, refl, sym, ◌∙◌, ap, List, [], ◌∷◌, some, ok,
  ltb, leb, if◌then◌else◌, arith, length, get_elem?, All, AllPairs, Bool-cases,
}
use vexa.Terms.{Bitwuzla}
use vexa.Memory.{MemPage, u64}
use vexa.Memory.Cells.{IsWf, byte_at}
use vexa.Memory.Read.{or_zero}
use vexa.Engine.Mapping.{
  to_int, Segment, elf, write_from, write_memory, map_segment, map_segments, map_binary,
}
use vexa.Engine.Loaded.{Loads, Sets, write_from-Sets, zero_fill-Sets}

-- The bytes that the segment takes in the memory.
abbrev pub extent : Segment → ℕ
extent s = if leb s.virtual_size (length s.content) then length s.content else s.virtual_size

-- Its content, then zeros.
abbrev pub image : Segment → ℕ → ℕ
image s k = or_zero (get_elem? s.content k)

-- The size fits an `int`, the extent the address space, and the content is bytes.
pub record IsSegment (s : Segment) : Type 0 where
  pub fits_int : length s.content < 2 ^ 31
  pub fits : extent s ≤ 2 ^ 64
  pub bytes : All (λ b. b < 256) s.content

-- They share no address.
abbrev pub DisjointSegments : Segment → Segment → Type 0
DisjointSegments s t =
    (k j : ℕ)
    → k < extent s
    → j < extent t
    → u64 (s.virtual_address + k) ≢ u64 (t.virtual_address + j)

get_elem?-past : (l : List ℕ) (k : ℕ) → or_zero (get_elem? l (length l + k)) ≡ 0
get_elem?-past [] k = refl
get_elem?-past (x ∷ l) k =
    let e : suc (length l) + k ≡ suc (length l + k) = omega arith in rw e (get_elem?-past l k)

module _ ⦃B : Bitwuzla⦄ where
  open B use {Env}

  Sets-append :
      (ρ : Env) (base n m : ℕ) (f g : ℕ → ℕ) (p q r : MemPage)
      → n + m ≤ 2 ^ 64
      → ((k : ℕ) → k < m → f (n + k) ≡ g k)
      → Sets ρ base n f p q
      → Sets ρ (base + n) m g q r
      → Sets ρ base (n + m) f p r
  Sets-append ρ base n m f g p q r fits same first second = record {
    inside = λ k low. elim (Bool-cases (ltb k n)) [
      | inl below ↦
          let h : k < n = ground arith in
          second.outside (u64 (base + k)) (λ j hj e. omega arith) ∙ first.inside k h
      | inr above ↦
          let e : base + k ≡ base + n + (k - n) = ground arith in
          let e' : n + (k - n) ≡ k = ground arith in
          let h : k - n < m = ground arith in
          rw e (second.inside (k - n) h ∙ ap some (sym (same (k - n) h) ∙ ap f e'))
    ];
    outside = λ a avoid.
        second.outside a (λ k h.
          let e : base + n + k ≡ base + (n + k) = omega arith in rw e (avoid (n + k) (omega arith)))
        ∙ first.outside a (λ k h. avoid k (omega arith));
    loads = second.loads;
    wf = λ w. second.wf (first.wf w);
  }

  map_segment-Sets :
      (ρ : Env) (s : Segment) (p : MemPage)
      → IsSegment s
      → Loads p
      → Sets ρ s.virtual_address (extent s) (image s) p (map_segment s p)
  unfolding map_segment write_memory
  map_segment-Sets ρ s p ok_ h =
      let n = length s.content in
      let size : to_int n ≡ n =
        (let e = mod-eq_of_lt {n = n} {m = 2 ^ 32} (omega (arith, ok_.fits_int)) in
          ground (arith, e, ok_.fits_int)) in
      let base : s.virtual_address + 0 ≡ s.virtual_address = omega arith in
      let short : n ≤ 2 ^ 64 = omega (arith, ok_.fits_int) in
      let written =
        rw base at (write_from-Sets ρ s.virtual_address 0 s.content p short ok_.bytes h) in
      elim (Bool-cases (leb s.virtual_size n)) [
        | inl less ↦ rw (size, less) written
        | inr more ↦
            let e : n + (s.virtual_size - n) ≡ s.virtual_size = ground arith in
            let wide : n + (s.virtual_size - n) ≤ 2 ^ 64 = ground (arith, ok_.fits) in
            let filled =
              zero_fill-Sets ρ (s.virtual_size - n) s.virtual_address n
                (write_from s.virtual_address 0 s.content p) (omega arith) written.loads in
            rw (size, more)
              (rw e at (
                Sets-append ρ s.virtual_address n (s.virtual_size - n) (image s) (λ _. 0) p _ _ wide
                  (λ k low. get_elem?-past s.content k) written filled))
      ]

  -- The segment's content and zeros stand in the page.
  abbrev pub IsMapped : Env → MemPage → Segment → Type 0
  IsMapped ρ p s =
      (k : ℕ) → k < extent s → byte_at ρ p (u64 (s.virtual_address + k)) ≡ some (image s k)

  -- The address is not in the segment.
  abbrev pub Misses : ℕ → Segment → Type 0
  Misses a s = (k : ℕ) → k < extent s → u64 (s.virtual_address + k) ≢ a

  All-Misses :
      (s : Segment) (k : ℕ) (ss : List Segment)
      → k < extent s
      → All (DisjointSegments s) ss
      → All (Misses (u64 (s.virtual_address + k))) ss
  All-Misses s k [] low apart = tt
  All-Misses s k (t ∷ ss) low apart =
      (λ j h e. apart.0 k j low h (sym e), All-Misses s k ss low apart.1)

  map_segments-IsMapped :
      (ρ : Env) (ss : List Segment) (p : MemPage)
      → All IsSegment ss
      → AllPairs DisjointSegments ss
      → Loads p
      → All (IsMapped ρ (map_segments ss p)) ss
        × ((a : ℕ) → All (Misses a) ss → byte_at ρ (map_segments ss p) a ≡ byte_at ρ p a)
        × (IsWf p → IsWf (map_segments ss p))
  unfolding map_segments
  map_segments-IsMapped ρ [] p valid apart h = (tt, λ a m. refl, λ w. w)
  map_segments-IsMapped ρ (s ∷ ss) p valid apart h =
      let one = map_segment-Sets ρ s p valid.0 h in
      let (others, outside, wf) =
        map_segments-IsMapped ρ ss (map_segment s p) valid.1 apart.1 one.loads in
      (
        (λ k low. outside _ (All-Misses s k ss low apart.0) ∙ one.inside k low, others),
        λ a m. outside a m.1 ∙ one.outside a m.0,
        λ w. wf (one.wf w),
      )

  -- Mapping an ELF file whose segments do not overlap, into a page whose initial bytes no later
  -- write hides or that is sealed, succeeds: the page then has the bytes of each segment's file
  -- content at its virtual address, and zeros from there up to its virtual size; bytes at other
  -- addresses stay, and a well-formed page stays well-formed.
  pub map_binary_elf_sound :
      (ρ : Env) (ss : List Segment) (p : MemPage)
      → All IsSegment ss
      → AllPairs DisjointSegments ss
      → Loads p
      → (p' : MemPage) × (map_binary (elf (some ss)) p ≡ ok p')
        × All (IsMapped ρ p') ss
        × ((a : ℕ) → All (Misses a) ss → byte_at ρ p' a ≡ byte_at ρ p a)
        × (IsWf p → IsWf p')
  unfolding map_binary
  map_binary_elf_sound ρ ss p valid apart h =
      let (mapped, outside, wf) = map_segments-IsMapped ρ ss p valid apart h in
      (map_segments ss p, refl, mapped, outside, wf)
