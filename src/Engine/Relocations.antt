-- ===== src/Engine/Relocations.antt =====
-- src/engine/engine.cpp, `fix_relocations`: what each relocation leaves in the buffer.
use mathlib.Core.Option.{some-injective}
use vexa.Prelude.{
  ℕ, zero, suc, ◌+◌, ◌*◌, ◌%◌, ◌^◌, ◌<◌, ◌≤◌, ◌≡◌, ◌≢◌, ◌⊎◌, inl, inr, refl, sym, ◌∙◌, ap,
  Bool-cases, List, [], ◌∷◌, Option, none, some, ok, ◌==◌, arith, length, length-set, set,
  get_elem?, get_elem?-set_self, get_elem?-set_ne, All, AllPairs, Dict, true, false, find,
}
use vexa.Memory.Digits.{digit, number, number-digit, number_ext}
use vexa.Memory.{u64}
use vexa.Engine.Object.{
  RelocationType, x86_64_pc32, x86_64_plt32, x86_64_64, x86_64_32, x86_64_32s, other, Relocation,
  Placement, put_bytes, symbol_va, patch_offset, fix_at, apply_relocation, fix_relocation,
  fix_relocations, u32, sub64, u16,
}

abbrev or_zero : Option ℕ → ℕ
or_zero none = 0
or_zero (some b) = b

-- The little-endian number in the `n` bytes at `at`.
abbrev pub byte_of : List ℕ → ℕ → ℕ
byte_of bytes i = or_zero (get_elem? bytes i)

abbrev pub read_bytes : List ℕ → ℕ → ℕ → ℕ
read_bytes bytes at n = number (λ j. byte_of bytes (at + j)) n

pub length-put_bytes : (n at x : ℕ) (l : List ℕ) → length (put_bytes n at x l) ≡ length l
unfolding put_bytes
length-put_bytes zero at x l = refl
length-put_bytes (suc n) at x l = length-set (put_bytes n at x l) _ _ ∙ length-put_bytes n at x l

byte_of-set_self : (l : List ℕ) (i v : ℕ) → i < length l → byte_of (set l i v) i ≡ v
byte_of-set_self l i v h = ap or_zero (get_elem?-set_self l i v h)

byte_of-set_ne : (l : List ℕ) (i j v : ℕ) → i ≢ j → byte_of (set l i v) j ≡ byte_of l j
byte_of-set_ne l i j v h = ap or_zero (get_elem?-set_ne l i j v h)

byte_of-put_bytes :
    (n at x : ℕ) (l : List ℕ) (j : ℕ)
    → j < n
    → at + n ≤ length l
    → byte_of (put_bytes n at x l) (at + j) ≡ digit x j
unfolding put_bytes
byte_of-put_bytes zero at x l j h fits = elim h [ ]
byte_of-put_bytes (suc n) at x l j h fits = elim (Bool-cases (j == n)) [
  | inl e ↦
      let same : j ≡ n = ground arith in
      rw same (
        byte_of-set_self (put_bytes n at x l) (at + n) (digit x n)
          (omega (arith, length-put_bytes n at x l)))
  | inr e ↦
      let ne : j ≢ n = ground arith in
      byte_of-set_ne (put_bytes n at x l) (at + n) (at + j) (digit x n) (λ k. ne (omega arith))
      ∙ byte_of-put_bytes n at x l j (omega arith) (omega arith)
]

pub byte_of-put_bytes_outside :
    (n at x : ℕ) (l : List ℕ) (i : ℕ)
    → (i < at) ⊎ (at + n ≤ i)
    → byte_of (put_bytes n at x l) i ≡ byte_of l i
unfolding put_bytes
byte_of-put_bytes_outside zero at x l i h = refl
byte_of-put_bytes_outside (suc n) at x l i h =
    byte_of-set_ne (put_bytes n at x l) (at + n) i (digit x n) (λ k. ground arith)
    ∙ byte_of-put_bytes_outside n at x l i (ground arith)

read_bytes-put_bytes :
    (n at x : ℕ) (l : List ℕ)
    → at + n ≤ length l
    → read_bytes (put_bytes n at x l) at n ≡ x % 2 ^ (8 * n)
read_bytes-put_bytes n at x l fits =
    number_ext _ (digit x) n (λ j h. byte_of-put_bytes n at x l j h fits) ∙ number-digit x n

relative_lem : (s patch : ℕ) → (u32 (sub64 s (u64 patch)) + u64 patch) % 2 ^ 32 ≡ s % 2 ^ 32
relative_lem s patch = omega arith

-- The bytes that a relocation of this type takes.
abbrev pub width_of : RelocationType → ℕ
width_of x86_64_64 = 8
width_of _ = 4

-- What the ABI asks of the field at `at`, for S + A and P.
abbrev pub Relocated : RelocationType → ℕ → ℕ → List ℕ → ℕ → Type 0
Relocated x86_64_pc32 target patch_va l at =
    (read_bytes l at 4 + patch_va) % 2 ^ 32 ≡ target % 2 ^ 32
Relocated x86_64_plt32 target patch_va l at =
    (read_bytes l at 4 + patch_va) % 2 ^ 32 ≡ target % 2 ^ 32
Relocated x86_64_64 target patch_va l at = read_bytes l at 8 ≡ target % 2 ^ 64
Relocated x86_64_32 target patch_va l at = read_bytes l at 4 ≡ target % 2 ^ 32
Relocated x86_64_32s target patch_va l at = read_bytes l at 4 ≡ target % 2 ^ 32
Relocated other target patch_va l at = ⊥

-- `l'` has the length of `l`, and its bytes outside the `n` at `at`.
pub record Patched (n at : ℕ) (l l' : List ℕ) : Type 0 where
  pub same_length : length l' ≡ length l
  pub outside : (i : ℕ) → (i < at) ⊎ (at + n ≤ i) → byte_of l' i ≡ byte_of l i

Patched-put_bytes : (n at x : ℕ) (l : List ℕ) → Patched n at l (put_bytes n at x l)
Patched-put_bytes n at x l = record {
  same_length = length-put_bytes n at x l;
  outside = byte_of-put_bytes_outside n at x l;
}

pub apply_relocation_sound :
    (k : RelocationType) (va addend at patch_va : ℕ) (l : List ℕ)
    → k ≢ other
    → at + width_of k ≤ length l
    → (l' : List ℕ) × (apply_relocation k va addend at (u64 patch_va) l ≡ ok l')
      × Relocated k (va + addend) (u64 patch_va) l' at
      × Patched (width_of k) at l l'
unfolding apply_relocation
apply_relocation_sound x86_64_pc32 va addend at p l known fits =
    let x = u32 (sub64 (va + addend) (u64 p)) in
    (
      put_bytes 4 at x l,
      refl,
      rw (read_bytes-put_bytes 4 at x l fits) (omega arith),
      Patched-put_bytes 4 at x l,
    )
apply_relocation_sound x86_64_plt32 va addend at p l known fits =
    let x = u32 (sub64 (va + addend) (u64 p)) in
    (
      put_bytes 4 at x l,
      refl,
      rw (read_bytes-put_bytes 4 at x l fits) (omega arith),
      Patched-put_bytes 4 at x l,
    )
apply_relocation_sound x86_64_64 va addend at p l known fits =
    let x = u64 (va + addend) in
    (
      put_bytes 8 at x l,
      refl,
      read_bytes-put_bytes 8 at x l fits ∙ omega arith,
      Patched-put_bytes 8 at x l,
    )
apply_relocation_sound x86_64_32 va addend at p l known fits =
    let x = u32 (va + addend) in
    (
      put_bytes 4 at x l,
      refl,
      read_bytes-put_bytes 4 at x l fits ∙ omega arith,
      Patched-put_bytes 4 at x l,
    )
apply_relocation_sound x86_64_32s va addend at p l known fits =
    let x = u32 (va + addend) in
    (
      put_bytes 4 at x l,
      refl,
      read_bytes-put_bytes 4 at x l fits ∙ omega arith,
      Patched-put_bytes 4 at x l,
    )
apply_relocation_sound other va addend at p l known fits = absurd (known refl)

-- The relocation is of a type that is handled, and its field stands in a buffer of length `n`.
abbrev pub Fits : Dict ℕ → ℕ → Relocation → Type 0
Fits offsets n r =
    (at : ℕ) → patch_offset offsets r ≡ some at → (r.kind ≢ other) × (at + width_of r.kind ≤ n)

-- Their fields share no byte.
abbrev pub Disjoint : Dict ℕ → Relocation → Relocation → Type 0
Disjoint offsets r s =
    (i j : ℕ)
    → patch_offset offsets r ≡ some i
    → patch_offset offsets s ≡ some j
    → (i + width_of r.kind ≤ j) ⊎ (j + width_of s.kind ≤ i)

-- Its field, where it is applied, holds what the ABI asks.
abbrev IsFixedAt : Dict ℕ → Placement → List ℕ → Relocation → Type 0
IsFixedAt offsets p l r =
    (at va : ℕ)
    → patch_offset offsets r ≡ some at
    → symbol_va offsets p r ≡ some va
    → Relocated r.kind (va + r.addend) (u64 (p.new_section_rva + at)) l at

read_bytes_ext :
    (n at : ℕ) (l l' : List ℕ)
    → ((i : ℕ) → at ≤ i → i < at + n → byte_of l' i ≡ byte_of l i)
    → read_bytes l' at n ≡ read_bytes l at n
read_bytes_ext n at l l' h = number_ext _ _ n (λ j p. h (at + j) (omega arith) (omega arith))

Relocated-ext :
    (k : RelocationType) (target p at : ℕ) (l l' : List ℕ)
    → ((i : ℕ) → at ≤ i → i < at + width_of k → byte_of l' i ≡ byte_of l i)
    → Relocated k target p l at
    → Relocated k target p l' at
Relocated-ext x86_64_pc32 target p at l l' h r = rw (read_bytes_ext 4 at l l' h) r
Relocated-ext x86_64_plt32 target p at l l' h r = rw (read_bytes_ext 4 at l l' h) r
Relocated-ext x86_64_64 target p at l l' h r = read_bytes_ext 8 at l l' h ∙ r
Relocated-ext x86_64_32 target p at l l' h r = read_bytes_ext 4 at l l' h ∙ r
Relocated-ext x86_64_32s target p at l l' h r = read_bytes_ext 4 at l l' h ∙ r
Relocated-ext other target p at l l' h r = r

-- The byte at `i` is not in its field.
abbrev pub Avoids : Dict ℕ → ℕ → Relocation → Type 0
Avoids offsets i r =
    (at : ℕ) → patch_offset offsets r ≡ some at → (i < at) ⊎ (at + width_of r.kind ≤ i)

All-Avoids :
    (offsets : Dict ℕ) (r : Relocation) (rs : List Relocation) (at i : ℕ)
    → patch_offset offsets r ≡ some at
    → All (Disjoint offsets r) rs
    → at ≤ i
    → i < at + width_of r.kind
    → All (Avoids offsets i) rs
All-Avoids offsets r [] at i h apart low high = tt
All-Avoids offsets r (s ∷ rs) at i h apart low high =
    (λ j k. ground (arith, apart.0 at j h k), All-Avoids offsets r rs at i h apart.1 low high)

-- What one round does: it fixes its relocation and changes only the field.
record Round (offsets : Dict ℕ) (p : Placement) (r : Relocation) (l l' : List ℕ) : Type 0 where
  is_fixed : IsFixedAt offsets p l' r
  same_length : length l' ≡ length l
  outside : (i : ℕ) → Avoids offsets i r → byte_of l' i ≡ byte_of l i

fix_at_sound :
    (offsets : Dict ℕ) (p : Placement) (r : Relocation) (l : List ℕ) (o a : Option ℕ)
    → patch_offset offsets r ≡ o
    → symbol_va offsets p r ≡ a
    → Fits offsets (length l) r
    → (l' : List ℕ) × (fix_at o a p r l ≡ ok l') × Round offsets p r l l'
unfolding fix_at
fix_at_sound offsets p r l none a e e' fits =
    let round : Round offsets p r l l = record {
      is_fixed = λ at va h k. ground (arith, e, h);
      same_length = refl;
      outside = λ i h. refl;
    } in
    (l, refl, round)
fix_at_sound offsets p r l (some at) none e e' fits =
    let round : Round offsets p r l l = record {
      is_fixed = λ at va h k. ground (arith, e', k);
      same_length = refl;
      outside = λ i h. refl;
    } in
    (l, refl, round)
fix_at_sound offsets p r l (some at) (some va) e e' fits =
    let (known, inside) = fits at e in
    let (l', result, fixed, patched) =
      apply_relocation_sound r.kind va r.addend at (p.new_section_rva + at) l known inside in
    let round : Round offsets p r l l' = record {
      is_fixed = λ at' va' h k.
          let same : at ≡ at' = some-injective _ _ (sym e ∙ h) in
          let same' : va ≡ va' = some-injective _ _ (sym e' ∙ k) in rw (← same, ← same') fixed;
      same_length = patched.same_length;
      outside = λ i h. patched.outside i (h at e);
    } in
    (l', result, round)

fix_relocation_sound :
    (offsets : Dict ℕ) (p : Placement) (r : Relocation) (l : List ℕ)
    → Fits offsets (length l) r
    → (l' : List ℕ) × (fix_relocation offsets p r l ≡ ok l') × Round offsets p r l l'
unfolding fix_relocation
fix_relocation_sound offsets p r l fits =
    fix_at_sound offsets p r l (patch_offset offsets r) (symbol_va offsets p r) refl refl fits

-- The field stands in a laid out section, at the relocation's address in it.
abbrev pub FieldAt : Dict ℕ → Relocation → ℕ → Type 0
FieldAt offsets r at =
    (r.has_symbol ≡ true)
    × (r.has_section ≡ true)
    × (i o : ℕ) × (r.section ≡ some i)
    × (find offsets (u16 i) ≡ some o)
    × (at ≡ u64 (o + r.address))

-- The symbol's address S: the image base with its shift, or the symbol's value in its section of
-- the new segment.
abbrev pub SymbolAt : Dict ℕ → Placement → Relocation → ℕ → Type 0
SymbolAt offsets p r s =
    ((r.is_image_base ≡ true) × (s ≡ u64 (p.image_base + p.shift_offset)))
    ⊎ ((r.is_image_base ≡ false)
        × (o : ℕ) × (find offsets (u16 r.symbol_section) ≡ some o)
        × (s ≡ u64 (p.new_section_rva + o + r.symbol_value)))

-- Where the section of the field and the symbol have an address, the field holds what the ABI asks
-- for the two.
abbrev pub IsFixed : Dict ℕ → Placement → List ℕ → Relocation → Type 0
IsFixed offsets p l r =
    (at s : ℕ)
    → FieldAt offsets r at
    → SymbolAt offsets p r s
    → Relocated r.kind (s + r.addend) (u64 (p.new_section_rva + at)) l at

patch_offset-FieldAt :
    (offsets : Dict ℕ) (r : Relocation) (at : ℕ)
    → FieldAt offsets r at
    → patch_offset offsets r ≡ some at
unfolding patch_offset
patch_offset-FieldAt offsets r at (symbol, section, i, o, e, found, same) =
    rw (symbol, section, e, found, same) refl

symbol_va-SymbolAt :
    (offsets : Dict ℕ) (p : Placement) (r : Relocation) (s : ℕ)
    → SymbolAt offsets p r s
    → symbol_va offsets p r ≡ some s
unfolding symbol_va
symbol_va-SymbolAt offsets p r s (inl (base, same)) = rw (base, same) refl
symbol_va-SymbolAt offsets p r s (inr (base, o, found, same)) = rw (base, found, same) refl

All-IsFixed :
    (offsets : Dict ℕ) (p : Placement) (l : List ℕ) (rs : List Relocation)
    → All (IsFixedAt offsets p l) rs
    → All (IsFixed offsets p l) rs
All-IsFixed offsets p l [] h = tt
All-IsFixed offsets p l (r ∷ rs) h = (
  λ at s field symbol.
      h.0 at s (patch_offset-FieldAt offsets r at field) (symbol_va-SymbolAt offsets p r s symbol),
  All-IsFixed offsets p l rs h.1,
)

fix_relocations-IsFixedAt :
    (offsets : Dict ℕ) (p : Placement) (rs : List Relocation) (l : List ℕ)
    → All (Fits offsets (length l)) rs
    → AllPairs (Disjoint offsets) rs
    → (l' : List ℕ) × (fix_relocations offsets p rs l ≡ ok l')
      × All (IsFixedAt offsets p l') rs
      × (length l' ≡ length l)
      × ((i : ℕ) → All (Avoids offsets i) rs → byte_of l' i ≡ byte_of l i)
unfolding fix_relocations
fix_relocations-IsFixedAt offsets p [] l fits apart = (l, refl, tt, refl, λ i h. refl)
fix_relocations-IsFixedAt offsets p (r ∷ rs) l fits apart =
    let (l', first, round) = fix_relocation_sound offsets p r l fits.0 in
    let (l'', rest, fixed, same, outside) =
      fix_relocations-IsFixedAt offsets p rs l' (rw round.same_length fits.1) apart.1 in
    (
      l'',
      rw first rest,
      (
        λ at va h k.
            Relocated-ext r.kind _ _ at l' l''
              (λ i low high. outside i (All-Avoids offsets r rs at i h apart.0 low high))
              (round.is_fixed at va h k),
        fixed,
      ),
      same ∙ round.same_length,
      λ i avoid. outside i avoid.1 ∙ round.outside i avoid.0,
    )

-- Where every relocation that applies is of a handled type and has its field inside the buffer, and
-- no two fields overlap, the loop succeeds. In the buffer that it leaves, each field at an address of
-- a laid out section, whose symbol is the image base or has a laid out section, satisfies its ABI
-- equation: S + A - P in 32 bits, S + A in 64, or S + A in 32; the length, and every byte that is in
-- no field, are those of before.
pub fix_relocations_sound :
    (offsets : Dict ℕ) (p : Placement) (rs : List Relocation) (l : List ℕ)
    → All (Fits offsets (length l)) rs
    → AllPairs (Disjoint offsets) rs
    → (l' : List ℕ) × (fix_relocations offsets p rs l ≡ ok l')
      × All (IsFixed offsets p l') rs
      × (length l' ≡ length l)
      × ((i : ℕ) → All (Avoids offsets i) rs → byte_of l' i ≡ byte_of l i)
fix_relocations_sound offsets p rs l fits apart =
    let (l', e, fixed, same, outside) = fix_relocations-IsFixedAt offsets p rs l fits apart in
    (l', e, All-IsFixed offsets p l' rs fixed, same, outside)
