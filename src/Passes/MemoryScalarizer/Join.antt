-- ===== src/Passes/MemoryScalarizer/Join.antt =====
-- src/passes/memory_scalarizer.cpp: the loads of bytes, joined, beside the wide load.
use Prim.Native.Nat.{bit_or, bit_or-bitwise, digits, max}
use native.Mathlib.Nat.{pow-suc, pow-le-pow_right, mod-eq_of_lt, mod-lt}
use vexa.Prelude.{
  ℕ, zero, suc, ◌+◌, ◌*◌, ◌/◌, ◌%◌, ◌^◌, ◌-◌, ◌<◌, ◌≤◌, ◌≡◌, ◌∙◌, sym, ap, ap₂, refl, Bool, true,
  false, ◌&&◌, ltb, leb, if◌then◌else◌, arith, pow-pos, digit-lt,
}
use vexa.Memory.Digits.{digit, number, number-digit, number_ext, pow_bytes}
use vexa.Passes.MemoryScalarizer.{
  load_bytes, scalarize_load, scalarize_store, u8, Bytes, gep, eval, exec,
}
use vexa.Passes.MemoryScalarizer.Bytes.{gep_plain, scalarize_store_sound}

-- `or` of the lowest digits on fuel for the digits of the first number.
abbrev or_digits : ℕ → ℕ → ℕ → ℕ
or_digits fuel r s = digits (λ t. t) max fuel r s

or_digits_zero : (fuel s : ℕ) → or_digits fuel 0 s ≡ s
or_digits_zero zero s = refl
or_digits_zero (suc fuel) s = refl

or_digits_enough :
    (fuel more r s : ℕ) → r ≤ fuel → r ≤ more → or_digits fuel r s ≡ or_digits more r s
or_digits_enough fuel more zero s p q = or_digits_zero fuel s ∙ sym (or_digits_zero more s)
or_digits_enough zero more (suc r) s p q = absurd (omega (arith, p))
or_digits_enough (suc fuel) zero (suc r) s p q = absurd (omega (arith, q))
or_digits_enough (suc fuel) (suc more) (suc r) s p q =
    let rest =
      or_digits_enough fuel more (suc r / 2) (s / 2) (omega (arith, p)) (omega (arith, q)) in
    ap (λ t. t * 2 + max (suc r % 2) (s % 2)) rest

-- The lowest digit of an or, and the rest.
bit_or-halves : (r s : ℕ) → bit_or r s ≡ bit_or (r / 2) (s / 2) * 2 + max (r % 2) (s % 2)
bit_or-halves zero s = simp bit_or-bitwise (omega arith)
bit_or-halves (suc r) s =
    let half = suc r / 2 in
    simp bit_or-bitwise (
      ap (λ t. t * 2 + max (suc r % 2) (s % 2))
        (or_digits_enough r half half (s / 2) (omega arith) (omega arith)))

zero-bit_or : (b : ℕ) → bit_or 0 b ≡ b
zero-bit_or b = simp bit_or-bitwise refl

-- `r | (q << k)` is a sum where `r` has at most `k` bits.
bit_or_low : (k r q : ℕ) → r < 2 ^ k → bit_or r (q * 2 ^ k) ≡ q * 2 ^ k + r
bit_or_low zero r q h = let e : r ≡ 0 = omega (arith, h) in rw e (zero-bit_or (q * 1) ∙ omega arith)
bit_or_low (suc k) r q h =
    let double : 2 ^ suc k ≡ 2 * 2 ^ k = omega (arith, pow-suc 2 k) in
    let wide : q * 2 ^ suc k ≡ 2 * (q * 2 ^ k) = omega (arith, ap (λ (t : ℕ). q * t) double) in
    let half : q * 2 ^ suc k / 2 ≡ q * 2 ^ k = omega (arith, wide) in
    omega (
      arith,
      wide,
      double,
      bit_or-halves r (q * 2 ^ suc k),
      bit_or_low k (r / 2) q (omega (arith, h, double)),
      ap (bit_or (r / 2)) half,
    )

number-lt : (f : ℕ → ℕ) (n : ℕ) → ((i : ℕ) → f i < 256) → number f n < 2 ^ (8 * n)
unfolding number
number-lt f zero h = omega arith
number-lt f (suc n) h =
    omega
      (arith, pow_bytes n, digit-lt (f n) (number f n) (2 ^ (8 * n)) 256 (h n) (number-lt f n h))

-- A byte shifted to its place keeps all its bits.
shift_byte :
    (b k width : ℕ) → b < 256 → 8 * suc k ≤ width → b * 2 ^ (k * 8) % 2 ^ width ≡ b * 2 ^ (8 * k)
shift_byte b k width h w =
    let e : k * 8 ≡ 8 * k = omega arith in
    let fits : 2 ^ (8 * suc k) ≤ 2 ^ width = pow-le-pow_right (omega arith) w in
    rw e (
      mod-eq_of_lt
        (omega (arith, fits, pow_bytes k, digit-lt b 0 (2 ^ (8 * k)) 256 h (pow-pos (8 * k)))))

eval-load_bytes :
    (mem : Bytes) (pointer v width n : ℕ)
    → ((x : ℕ) → mem x < 256)
    → 8 * suc n ≤ width
    → eval width mem pointer v (load_bytes (suc n)) ≡ number (λ i. mem (gep pointer i)) (suc n)
unfolding load_bytes number
eval-load_bytes mem pointer v width zero h w = omega arith
eval-load_bytes mem pointer v width (suc n) h w =
    let below = eval-load_bytes mem pointer v width n h (omega (arith, w)) in
    ap₂ bit_or below (shift_byte (mem (gep pointer (suc n))) (suc n) width (h _) w)
    ∙ bit_or_low (8 * suc n) (number (λ i. mem (gep pointer i)) (suc n)) (mem (gep pointer (suc n)))
        (number-lt (λ i. mem (gep pointer i)) (suc n) (λ i. h _))

-- The joined value of the loads of `size` bytes, of which there is at least one and at most 128, is
-- the little-endian number of the bytes from the pointer on, where they do not go past the end of
-- the address space.
pub scalarize_load_sound :
    (size pointer v : ℕ) (mem : Bytes)
    → ((x : ℕ) → mem x < 256)
    → 0 < size
    → size ≤ 128
    → pointer + size ≤ 2 ^ 64
    → eval (8 * size) mem pointer v (scalarize_load size) ≡ number (λ i. mem (pointer + i)) size
unfolding scalarize_load
scalarize_load_sound zero pointer v mem h pos le room = absurd (omega (arith, pos))
scalarize_load_sound (suc n) pointer v mem h pos le room =
    let whole : u8 (suc n) ≡ suc n = omega (arith, le) in
    ap (λ k. eval (8 * suc n) mem pointer v (load_bytes k)) whole
    ∙ eval-load_bytes mem pointer v (8 * suc n) n h (omega arith)
    ∙ number_ext (λ i. mem (gep pointer i)) (λ i. mem (pointer + i)) (suc n)
        (λ i lt. ap mem (gep_plain pointer i (omega (arith, lt, le)) (omega (arith, lt, room))))

stored_byte : (b : Bool) (v i old : ℕ) → old < 256 → (if b then digit v i else old) < 256
stored_byte true v i old h = mod-lt (v / 2 ^ (8 * i)) (omega arith)
stored_byte false v i old h = h

-- Stored by bytes and loaded by bytes, a value of `size` bytes comes back whole.
pub scalarize_load-scalarize_store :
    (size pointer v w : ℕ) (mem : Bytes)
    → ((x : ℕ) → mem x < 256)
    → 0 < size
    → size ≤ 128
    → pointer + size ≤ 2 ^ 64
    → v < 2 ^ (8 * size)
    → eval
        (8 * size)
        (exec (8 * size) pointer v (scalarize_store size) mem)
        pointer
        w
        (scalarize_load size)
      ≡ v
scalarize_load-scalarize_store size pointer v w mem h pos le room fits =
    let after = exec (8 * size) pointer v (scalarize_store size) mem in
    scalarize_load_sound size pointer w after
      (λ x.
        rw (scalarize_store_sound size pointer v mem x le room)
          (stored_byte (leb pointer x && ltb x (pointer + size)) v (x - pointer) (mem x) (h x)))
      pos le room
    ∙ number_ext (λ i. after (pointer + i)) (digit v) size
        (λ i lt.
          let inside : leb pointer (pointer + i) && ltb (pointer + i) (pointer + size) ≡ true =
            ground (arith, lt) in
          let place : pointer + i - pointer ≡ i = omega arith in
          scalarize_store_sound size pointer v mem (pointer + i) le room ∙ rw (inside, place) refl)
    ∙ number-digit v size
    ∙ mod-eq_of_lt fits
