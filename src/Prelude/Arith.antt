-- ===== src/Prelude/Arith.antt =====
-- Powers, and numbers cut into digits.
use Prim.Native.Nat.{ℕ, zero, suc, ◌+◌, ◌*◌, ◌/◌, ◌%◌, ◌^◌, ◌<◌}
use mathlib.Core.Path.{◌≡◌, sym, ap, ◌∙◌}
use native.Mathlib.Nat.{
  pow-suc, one-le-pow, mod-lt, div-add-mod, add-mul-mod_self_left, mod-eq_of_lt, add-zero,
}
use native.Mathlib.Omega.{arith}

pub pow-pos : (k : ℕ) → 0 < 2 ^ k
pow-pos k = one-le-pow k 2 (omega arith)

pub pow-add : (a b : ℕ) → 2 ^ (a + b) ≡ 2 ^ a * 2 ^ b
pow-add a zero = ground (arith, add-zero a)
pow-add a (suc b) =
    let e : a + suc b ≡ suc (a + b) = omega arith in
    rw e (grind (arith, pow-suc 2 (a + b), pow-suc 2 b, pow-add a b))

pub digit-lt : (h l b m : ℕ) → h < m → l < b → h * b + l < b * m
digit-lt h l b m p q = grind arith

-- The digits of `x` in base `b` above and below its lowest one.
pub mod-mul_step : (x b m : ℕ) → 0 < b → 0 < m → x / b % m * b + x % b ≡ x % (b * m)
mod-mul_step x b m pb pm =
    let q : ℕ = x / b in
    let low : ℕ = q % m * b + x % b in
    let whole : x ≡ low + b * m * (q / m) =
      omega (arith, div-add-mod x b, ap (λ (t : ℕ). t * b) (div-add-mod q m)) in
    let small : low < b * m =
      grind (arith, digit-lt (q % m) (x % b) b m, mod-lt q pm, mod-lt x pb) in
    sym
      (ap (λ t. t % (b * m)) whole ∙ add-mul-mod_self_left low (b * m) (q / m) ∙ mod-eq_of_lt small)
