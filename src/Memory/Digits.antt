-- ===== src/Memory/Digits.antt =====
-- Numbers in base 256: a little-endian sum of bytes, and the same from the highest byte down.
use native.Mathlib.Nat.{div-div-eq-div-mul, mod-one}
use vexa.Prelude.{
  ℕ, zero, suc, ◌+◌, ◌*◌, ◌/◌, ◌%◌, ◌^◌, ◌<◌, ◌≡◌, refl, sym, ◌∙◌, ap, List, [], ◌∷◌, arith,
  pow-pos, pow-add, mod-mul_step,
}

-- The byte of number `i`.
abbrev pub digit : ℕ → ℕ → ℕ
digit x i = x / 2 ^ (8 * i) % 256

-- The sum of f i * 256 ^ i for i < n.
unfoldable pub number : (ℕ → ℕ) → ℕ → ℕ
number f zero = 0
number f (suc n) = f n * 2 ^ (8 * n) + number f n

abbrev pub horner : ℕ → List ℕ → ℕ
horner acc [] = acc
horner acc (b ∷ bs) = horner (acc * 256 + b) bs

-- The bytes n - 1 down to 0.
abbrev pub descending : (ℕ → ℕ) → ℕ → List ℕ
descending f zero = []
descending f (suc n) = f n ∷ descending f n

pub pow_bytes : (k : ℕ) → 2 ^ (8 * suc k) ≡ 256 * 2 ^ (8 * k)
pow_bytes k = let e : 8 * suc k ≡ 8 + 8 * k = omega arith in rw e (pow-add 8 (8 * k))

pub horner-descending :
    (f : ℕ → ℕ) (n acc : ℕ) → horner acc (descending f n) ≡ acc * 2 ^ (8 * n) + number f n
unfolding number
horner-descending f zero acc = omega arith
horner-descending f (suc n) acc =
    omega (arith, horner-descending f n (acc * 256 + f n), ap (λ (t : ℕ). acc * t) (pow_bytes n))

-- The bytes of `x` below byte `n`, summed, are `x` cut to `n` bytes.
pub number-digit : (x n : ℕ) → number (digit x) n ≡ x % 2 ^ (8 * n)
unfolding number
number-digit x zero = sym (mod-one x)
number-digit x (suc n) =
    let step = mod-mul_step x (2 ^ (8 * n)) 256 (pow-pos (8 * n)) (omega arith) in
    let e : 2 ^ (8 * n) * 256 ≡ 2 ^ (8 * suc n) = omega (arith, pow_bytes n) in
    omega (arith, number-digit x n, step, ap (λ (t : ℕ). x % t) e)

pub number_ext : (f g : ℕ → ℕ) (n : ℕ) → ((i : ℕ) → i < n → f i ≡ g i) → number f n ≡ number g n
unfolding number
number_ext f g zero h = refl
number_ext f g (suc n) h =
    rw (h n (omega arith))
      (ap (λ t. g n * 2 ^ (8 * n) + t) (number_ext f g n (λ i p. h i (omega arith))))

-- One more byte below the bytes from `w + 1` up.
pub digit_step :
    (x w k : ℕ)
    → x / 2 ^ (8 * suc w) % 2 ^ (8 * k) * 256 + digit x w ≡ x / 2 ^ (8 * w) % 2 ^ (8 * suc k)
digit_step x w k =
    let above : x / 2 ^ (8 * w) / 256 ≡ x / 2 ^ (8 * suc w) =
      div-div-eq-div-mul x (2 ^ (8 * w)) 256 ∙ ap (λ (t : ℕ). x / t) (omega (arith, pow_bytes w)) in
    let step = mod-mul_step (x / 2 ^ (8 * w)) 256 (2 ^ (8 * k)) (omega arith) (pow-pos (8 * k)) in
    rw above at step ∙ ap (λ (t : ℕ). x / 2 ^ (8 * w) % t) (sym (pow_bytes k))
