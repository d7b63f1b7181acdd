-- ===== src/Passes/MemoryScalarizer/Bytes.antt =====
-- src/passes/memory_scalarizer.cpp: the stores of bytes, beside the wide store.
use vexa.Prelude.{
  ℕ, zero, suc, ◌+◌, ◌*◌, ◌/◌, ◌%◌, ◌^◌, ◌-◌, ◌<◌, ◌≤◌, ◌≡◌, ◌∙◌, ap, refl, Bool, true, false, ◌&&◌,
  ◌==◌, ltb, leb, if◌then◌else◌, arith, inl, inr, Bool-cases,
}
use vexa.Memory.Digits.{digit}
use vexa.Passes.MemoryScalarizer.{
  store_byte, store_bytes, scalarize_store, u8, Bytes, gep, eval, write, exec,
}

-- Whether `x` is one of `left` addresses from byte `i` after the pointer on.
abbrev pub is_inside : ℕ → ℕ → ℕ → ℕ → Bool
is_inside pointer i left x = leb (pointer + i) x && ltb x (pointer + i + left)

pub gep_plain : (pointer i : ℕ) → i < 128 → pointer + i < 2 ^ 64 → gep pointer i ≡ pointer + i
gep_plain pointer i h k = let e : ltb i 128 ≡ true = ground arith in rw e (omega (arith, k))

eval-store_byte :
    (width : ℕ) (mem : Bytes) (pointer v i : ℕ)
    → eval width mem pointer v (store_byte i).byte ≡ digit v i
eval-store_byte width mem pointer v zero = ground arith
eval-store_byte width mem pointer v (suc i) =
    let e : suc i * 8 ≡ 8 * suc i = omega arith in ap (λ n. v / 2 ^ n % 256) e

index-store_byte : (i : ℕ) → (store_byte i).index ≡ i
index-store_byte zero = refl
index-store_byte (suc i) = refl

write_step :
    (pointer v i left : ℕ) (mem : Bytes) (x at b : ℕ)
    → at ≡ pointer + i
    → b ≡ digit v i
    → (if is_inside pointer (suc i) left x then digit v (x - pointer) else write mem at b x)
      ≡ (if is_inside pointer i (suc left) x then digit v (x - pointer) else mem x)
write_step pointer v i left mem x at b p q = elim (Bool-cases (x == at)) [
  | inl same ↦
      let inside : is_inside pointer i (suc left) x ≡ true = ground (arith, p) in
      let below : is_inside pointer (suc i) left x ≡ false = ground (arith, p) in
      let e : x - pointer ≡ i = ground (arith, p) in rw (inside, below, same, e) q
  | inr differs ↦
      let e : is_inside pointer (suc i) left x ≡ is_inside pointer i (suc left) x =
        ground (arith, p, differs) in
      rw (e, differs) refl
]

exec-store_bytes :
    (width pointer v : ℕ) (left i : ℕ) (mem : Bytes) (x : ℕ)
    → i + left ≤ 128
    → pointer + i + left ≤ 2 ^ 64
    → exec width pointer v (store_bytes left i) mem x
      ≡ (if is_inside pointer i left x then digit v (x - pointer) else mem x)
unfolding exec store_bytes
exec-store_bytes width pointer v zero i mem x h k =
    let e : is_inside pointer i 0 x ≡ false = ground arith in rw e refl
exec-store_bytes width pointer v (suc left) i mem x h k =
    let at = gep pointer (store_byte i).index in
    let b = eval width mem pointer v (store_byte i).byte in
    let place : at ≡ pointer + i =
      ap (gep pointer) (index-store_byte i)
      ∙ gep_plain pointer i (omega (arith, h)) (omega (arith, k)) in
    exec-store_bytes width pointer v left (suc i) (write mem at b) x (omega (arith, h))
      (omega (arith, k))
    ∙ write_step pointer v i left mem x at b place (eval-store_byte width mem pointer v i)

-- For a pointer to `size` bytes that do not go past the end of the address space, and a value of
-- fewer than 129 bytes, the stores of bytes leave in each of these addresses the byte of the value
-- that the little-endian store of the whole value puts there, and no other address changes.
pub scalarize_store_sound :
    (size pointer v : ℕ) (mem : Bytes) (x : ℕ)
    → size ≤ 128
    → pointer + size ≤ 2 ^ 64
    → exec (8 * size) pointer v (scalarize_store size) mem x
      ≡ (if leb pointer x && ltb x (pointer + size) then digit v (x - pointer) else mem x)
unfolding scalarize_store
scalarize_store_sound size pointer v mem x h k =
    let whole : u8 size ≡ size = omega (arith, h) in
    let plain : pointer + 0 ≡ pointer = omega arith in
    let e =
      exec-store_bytes (8 * size) pointer v size 0 mem x (omega (arith, h)) (omega (arith, k)) in
    ap (λ n. exec (8 * size) pointer v (store_bytes n 0) mem x) whole ∙ (rw plain at e)
