-- ===== src/Terms/Trees.antt =====
-- A small solver that meets the interface: terms as trees, two assignments of the constants, and
-- queries answered by trying both. It shows that the laws can hold, and runs the examples.
use native.Mathlib.Decide.{ℕ_discrete}
use native.Mathlib.Nat.{mod-lt, mod-eq_of_lt}
use vexa.Prelude.{
  ℕ, ◌+◌, ◌-◌, ◌/◌, ◌^◌, ◌<◌, ◌≤◌, ◌≡◌, ◌≢◌, ◌↔◌, refl, Bool, true, false, List, [], ◌∷◌, ◌==◌,
  if◌then◌else◌, All, not, ◌&&◌, ◌||◌, arith, pow-pos, pow-add, digit-lt,
}
use vexa.Terms.Denote.{
  Unary, Binary, bool_not, wrap, denote_unary, denote_binary, sign_extend, size_unary, size_binary,
  is_comparison, bv_concat,
}
use vexa.Terms.{Bitwuzla, Answer}

pub data Tree : Type 0 where
  const : ℕ → ℕ → Tree
  value : ℕ → ℕ → Tree
  unary : Unary → Tree → Tree
  binary : Binary → Tree → Tree → Tree
  ite : Tree → Tree → Tree → Tree
  extract : ℕ → ℕ → Tree → Tree
  zero_extend sign_extend_by : ℕ → Tree → Tree

unfoldable pub Unary-discrete : Discrete Unary
Unary-discrete = hlevel

unfoldable pub Binary-discrete : Discrete Binary
Binary-discrete = hlevel

unfoldable pub Tree-discrete : Discrete Tree
unfolding Unary-discrete Binary-discrete
Tree-discrete = hlevel (ℕ_discrete, Unary-discrete, Binary-discrete)

unfoldable pub tree_eq : Tree → Tree → Bool
unfolding Tree-discrete
tree_eq a b = elim (Tree-discrete a b) [ yes _ ↦ true | no _ ↦ false ]

pub tree_eq_sound : (a b : Tree) → tree_eq a b ≡ true → a ≡ b
unfolding tree_eq
tree_eq_sound a b h =
    elim (Tree-discrete a b) as (λ d. elim d [ yes _ ↦ true | no _ ↦ false ] ≡ true → a ≡ b) [
      | yes e ↦ λ _. e
      | no _ ↦ λ f. cc
    ]
      h

abbrev pub is_bool : Tree → Bool
is_bool (unary bool_not a) = true
is_bool (binary k a b) = is_comparison k
is_bool (ite c a b) = is_bool a
is_bool _ = false

abbrev pub size : Tree → ℕ
size (const i w) = w
size (value w n) = w
size (unary k a) = size_unary k (size a)
size (binary k a b) = size_binary k (size a) (size b)
size (ite c a b) = size a
size (extract high low a) = high + 1 - low
size (zero_extend n a) = size a + n
size (sign_extend_by n a) = size a + n

-- The second assignment gives each constant the next number.
abbrev pub eval : Bool → Tree → ℕ
eval ρ (const i w) = wrap w (if ρ then i + 1 else i)
eval ρ (value w n) = wrap w n
eval ρ (unary k a) = denote_unary k (size a) (eval ρ a)
eval ρ (binary k a b) = denote_binary k (size a) (size b) (eval ρ a) (eval ρ b)
eval ρ (ite c a b) = if eval ρ c == 0 then wrap (size a) (eval ρ b) else eval ρ a
eval ρ (extract high low a) = wrap (high + 1 - low) (eval ρ a / 2 ^ low)
eval ρ (zero_extend n a) = eval ρ a
eval ρ (sign_extend_by n a) = sign_extend (size a) n (eval ρ a)

denote_unary-lt : (k : Unary) (w a : ℕ) → a < 2 ^ w → denote_unary k w a < 2 ^ size_unary k w
denote_unary-lt bool_not w a h = ground arith
denote_unary-lt _ w a h = ground (arith, pow-pos w)

denote_binary-lt :
    (k : Binary) (w v a b : ℕ)
    → a < 2 ^ w
    → b < 2 ^ v
    → denote_binary k w v a b < 2 ^ size_binary k w v
denote_binary-lt bv_concat w v a b p q = grind (arith, pow-add w v, digit-lt a b (2 ^ v) (2 ^ w))
denote_binary-lt _ w v a b p q = ground (arith, pow-pos w)

pow-le-pow_add : (w n : ℕ) → 2 ^ w ≤ 2 ^ (w + n)
pow-le-pow_add w n = grind (arith, pow-add w n, pow-pos n)

pub eval_lt : (ρ : Bool) (t : Tree) → eval ρ t < 2 ^ size t
eval_lt ρ (const i w) = mod-lt _ (pow-pos w)
eval_lt ρ (value w n) = mod-lt _ (pow-pos w)
eval_lt ρ (unary k a) = denote_unary-lt k (size a) (eval ρ a) (eval_lt ρ a)
eval_lt ρ (binary k a b) =
    denote_binary-lt k (size a) (size b) (eval ρ a) (eval ρ b) (eval_lt ρ a) (eval_lt ρ b)
eval_lt ρ (ite c a b) = ground (arith, eval_lt ρ a, mod-lt (eval ρ b) (pow-pos (size a)))
eval_lt ρ (extract high low a) = mod-lt _ (pow-pos (high + 1 - low))
eval_lt ρ (zero_extend n a) = omega (arith, pow-le-pow_add (size a) n, eval_lt ρ a)
eval_lt ρ (sign_extend_by n a) =
    ground (arith, pow-le-pow_add (size a) n, pow-pos (size a + n), eval_lt ρ a)

pub eval-ite :
    (ρ : Bool) (c a b : Tree)
    → size a ≡ size b
    → eval ρ (ite c a b) ≡ (if eval ρ c == 0 then eval ρ b else eval ρ a)
eval-ite ρ c a b e = rw (e, mod-eq_of_lt (eval_lt ρ b))

-- A query tries the two assignments.
abbrev pub holds : Bool → List Tree → Bool
holds ρ [] = true
holds ρ (t ∷ l) = not (eval ρ t == 0) && holds ρ l

holds_iff : (ρ : Bool) (l : List Tree) → (holds ρ l ≡ true) ↔ All (λ t. eval ρ t ≢ 0) l
holds_iff ρ [] = (λ _. tt, λ _. refl)
holds_iff ρ (t ∷ l) = ground (arith, holds_iff ρ l)

abbrev pub check_sat : List Tree → Answer Bool
check_sat l =
    if holds false l
    then Answer.sat false
    else if holds true l
    then Answer.sat true
    else Answer.unsat

pub check_sat-sat :
    (l : List Tree) (ρ : Bool) → check_sat l ≡ Answer.sat ρ → All (λ t. eval ρ t ≢ 0) l
check_sat-sat l ρ h = (holds_iff ρ l).0 (ground arith)

pub check_sat-unsat :
    (l : List Tree) (ρ : Bool) → check_sat l ≡ Answer.unsat → ¬ (All (λ t. eval ρ t ≢ 0) l)
check_sat-unsat l false h p = ground (arith, (holds_iff false l).1 p)
check_sat-unsat l true h p = ground (arith, (holds_iff true l).1 p)

-- A bit-vector with one value under both assignments becomes that value.
abbrev pub simplify : Tree → Tree
simplify t =
    if is_bool t || not (eval false t == eval true t) then t else value (size t) (eval false t)

pub simplify-keeps :
    (ρ : Bool) (t : Tree)
    → (size (simplify t) ≡ size t)
      × (is_bool (simplify t) ≡ is_bool t)
      × (eval ρ (simplify t) ≡ eval ρ t)
simplify-keeps false t = ground (arith, mod-eq_of_lt (eval_lt false t))
simplify-keeps true t = ground (arith, mod-eq_of_lt (eval_lt false t))

abbrev pub is_value : Tree → Bool
is_value (value w n) = true
is_value _ = false

abbrev pub value_of : Tree → ℕ
value_of (value w n) = wrap w n
value_of _ = 0

pub eval-value : (ρ : Bool) (t : Tree) → is_value t ≡ true → eval ρ t ≡ value_of t
eval-value ρ (value w n) h = refl
eval-value ρ _ h = cc

abbrev pub trees : Bitwuzla
trees = record {
  Term = Tree;
  Env = Bool;
  eval = eval;
  size = size;
  is_bool = is_bool;
  is_value = is_value;
  value_of = value_of;
  term_eq = tree_eq;
  mk_const = const;
  mk_bv_value = value;
  mk_unary = unary;
  mk_binary = binary;
  mk_ite = ite;
  mk_extract = extract;
  mk_zero_extend = zero_extend;
  mk_sign_extend = sign_extend_by;
  check_sat = check_sat;
  get_value = λ ρ t. value (size t) (eval ρ t);
  simplify = simplify;
  eval_lt = eval_lt;
  eval-value = eval-value;
  term_eq_sound = tree_eq_sound;
  size-mk_const = λ i w. refl;
  size-mk_bv_value = λ w n. refl;
  is_value-mk_bv_value = λ w n. refl;
  is_bool-mk_bv_value = λ w n. refl;
  eval-mk_bv_value = λ ρ w n h. mod-eq_of_lt h;
  size-mk_unary = λ k a. refl;
  is_bool-mk_not = λ a. refl;
  eval-mk_unary = λ ρ k a. refl;
  size-mk_binary = λ k a b. refl;
  is_bool-mk_binary = λ k a b. refl;
  eval-mk_binary = λ ρ k a b h. refl;
  size-mk_ite = λ c a b. refl;
  eval-mk_ite = λ ρ c a b h e. eval-ite ρ c a b e;
  size-mk_extract = λ high low a h k. refl;
  eval-mk_extract = λ ρ high low a h k. refl;
  size-mk_zero_extend = λ n a. refl;
  eval-mk_zero_extend = λ ρ n a. refl;
  size-mk_sign_extend = λ n a. refl;
  eval-mk_sign_extend = λ ρ n a. refl;
  check_sat-sat = check_sat-sat;
  check_sat-unsat = check_sat-unsat;
  size-get_value = λ ρ t. refl;
  is_value-get_value = λ ρ t. refl;
  eval-get_value = λ ρ σ t. mod-eq_of_lt (eval_lt ρ t);
  size-simplify = λ t. (simplify-keeps false t).0;
  is_bool-simplify = λ t. (simplify-keeps false t).1;
  eval-simplify = λ ρ t. (simplify-keeps ρ t).2;
}

-- It runs.
runs :
    (trees.check_sat (binary Binary.equal (const 3 8) (value 8 4) ∷ []) ≡ Answer.sat true)
    × (tree_eq (const 3 8) (const 3 8) ≡ true)
    × (tree_eq (const 3 8) (const 4 8) ≡ false)
unfolding tree_eq ℕ_discrete
runs = (refl, refl, refl)
