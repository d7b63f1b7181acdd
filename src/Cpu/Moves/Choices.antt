-- ===== src/Cpu/Moves/Choices.antt =====
-- src/arch/arch.cpp, `handle_conditional_moves`: what the two values of a conditional move are.
use mathlib.Core.Path.{subst}
use vexa.Prelude.{
  ℕ, ◌+◌, ◌-◌, ◌/◌, ◌^◌, ◌≤◌, ◌<◌, ◌≡◌, refl, sym, ◌∙◌, ap, ap₂, Bool, true, false, List, [], ◌∷◌,
  ◌++◌, some, Result, ok, ◌>>=◌, ◌==◌, if◌then◌else◌, arith,
}
use vexa.Terms.{Bitwuzla}
use vexa.Terms.Denote.{bv_and, denote_binary, sign_extend, wrap}
use vexa.Value.{Value, operate}
use vexa.Value.Simplify.{ite_sound}
use vexa.Emulator.{
  Opcode, visit_binary_operator, visit_zext_inst, visit_sext_inst, visit_trunc_inst,
  visit_select_inst,
}
use vexa.Emulator.Widths.Visits.{Sized-select_inst}
use vexa.Cpu.Moves.{
  Cast, zext, sext, trunc, unsupported, Stored, select, cast, and, other, Wrapper, cast_wrapper,
  and_wrapper, Select, peel_select, visit_cast, materialize,
}

module _ ⦃B : Bitwuzla⦄ where
  open B use {
    Env, eval, size, eval-mk_zero_extend, eval-mk_sign_extend, eval-mk_extract, eval-mk_binary,
    size-mk_zero_extend, size-mk_sign_extend, size-mk_extract, size-mk_binary,
  }

  abbrev pub wrappers_of : Stored → List Wrapper
  wrappers_of (select c t f) = []
  wrappers_of (cast k e) = cast_wrapper k ∷ wrappers_of e
  wrappers_of (and e v) = and_wrapper v ∷ wrappers_of e
  wrappers_of (other v) = []

  -- The type of a cast, and what LLVM asks of its widths; the emulator has no other casts.
  abbrev pub IsTypedCast : Cast → ℕ → ℕ → Type 0
  IsTypedCast (zext source dest) w v = (w ≡ source) × (source ≤ dest) × (v ≡ dest)
  IsTypedCast (sext source dest) w v = (w ≡ source) × (source ≤ dest) × (v ≡ dest)
  IsTypedCast (trunc source dest) w v = (w ≡ source) × (0 < dest) × (dest ≤ source) × (v ≡ dest)
  IsTypedCast unsupported w v = ⊥

  -- A select of two values of `w` bits under casts and masks, of `v` bits, by a one-bit condition.
  pub data IsMove (w : ℕ) : Stored → Select → ℕ → Type 0 where
    select_move :
        {c t f : Value}
        → size c.term ≡ 1
        → size t.term ≡ w
        → size f.term ≡ w
        → IsMove w (select c t f) (record { condition = c; true_value = t; false_value = f }) w
    cast_move :
        {k : Cast} {e : Stored} {s : Select} {u v : ℕ}
        → IsTypedCast k u v
        → IsMove w e s u
        → IsMove w (cast k e) s v
    and_move :
        {e : Stored} {m : Value} {s : Select} {v : ℕ}
        → size m.term ≡ v
        → IsMove w e s v
        → IsMove w (and e m) s v

  append_assoc {ℓ} :
      {A : Type ℓ} (xs : List A) (y : A) (zs : List A) → (xs ++ y ∷ []) ++ zs ≡ xs ++ (y ∷ zs)
  append_assoc [] y zs = refl
  append_assoc (x ∷ xs) y zs = ap (λ l. x ∷ l) (append_assoc xs y zs)

  append_nil {ℓ} : {A : Type ℓ} (xs : List A) → xs ≡ xs ++ []
  append_nil [] = refl
  append_nil (x ∷ xs) = ap (λ l. x ∷ l) (append_nil xs)

  pub peel_select-IsMove :
      {w v : ℕ} {e : Stored} {s : Select} (l : List Wrapper)
      → IsMove w e s v
      → peel_select e l ≡ some (l ++ wrappers_of e, s)
  unfolding peel_select
  peel_select-IsMove l (select_move c t f) = ap (λ k. some (k, _)) (append_nil l)
  peel_select-IsMove l (cast_move {k = k} {e = e} {s = s} typed m) =
      peel_select-IsMove (l ++ cast_wrapper k ∷ []) m
      ∙ ap (λ x. some (x, s)) (append_assoc l (cast_wrapper k) (wrappers_of e))
  peel_select-IsMove l (and_move {e = e} {m = mask} {s = s} typed m) =
      peel_select-IsMove (l ++ and_wrapper mask ∷ []) m
      ∙ ap (λ x. some (x, s)) (append_assoc l (and_wrapper mask) (wrappers_of e))

  abbrev cast_meaning : Cast → ℕ → ℕ
  cast_meaning (zext source dest) n = n
  cast_meaning (sext source dest) n = sign_extend source (dest - source) n
  cast_meaning (trunc source dest) n = wrap (dest - 1 + 1 - 0) (n / 2 ^ 0)
  cast_meaning unsupported n = n

  visit_cast_sound :
      (k : Cast) (a : Value) (v : ℕ)
      → IsTypedCast k (size a.term) v
      → (x : Value) × (visit_cast k a ≡ ok x)
        × (size x.term ≡ v)
        × ((ρ : Env) → eval ρ x.term ≡ cast_meaning k (eval ρ a.term))
  unfolding visit_zext_inst visit_sext_inst visit_trunc_inst
  visit_cast_sound (zext source dest) a v (e, le, d) =
      let test : (size a.term == source) ≡ true = ground (arith, e) in
      rw test (
        (
          _,
          refl,
          omega (arith, e, le, d, size-mk_zero_extend (dest - size a.term) a.term),
          λ ρ. eval-mk_zero_extend ρ _ a.term,
        ))
  visit_cast_sound (sext source dest) a v (e, le, d) =
      let test : (size a.term == source) ≡ true = ground (arith, e) in
      rw test (
        _,
        refl,
        omega (arith, e, le, d, size-mk_sign_extend (dest - size a.term) a.term),
        λ ρ. eval-mk_sign_extend ρ _ a.term ∙ ap (λ n. sign_extend n (dest - n) (eval ρ a.term)) e,
      )
  visit_cast_sound (trunc source dest) a v (e, pos, le, d) =
      let test : (size a.term == source) ≡ true = ground (arith, e) in
      let high : dest - 1 < size a.term = omega (arith, e, pos, le) in
      rw test (
        _,
        refl,
        omega (arith, pos, d, size-mk_extract (dest - 1) 0 a.term (omega arith) high),
        λ ρ. eval-mk_extract ρ (dest - 1) 0 a.term (omega arith) high,
      )
  visit_cast_sound unsupported a v h = absurd h

  -- What the wrappers make of the value that is chosen.
  abbrev meaning : Env → Stored → ℕ → ℕ
  meaning ρ (select c t f) n = n
  meaning ρ (cast k e) n = cast_meaning k (meaning ρ e n)
  meaning ρ (and e m) n =
      denote_binary bv_and (size m.term) (size m.term) (meaning ρ e n) (eval ρ m.term)
  meaning ρ (other v) n = n

  materialize_sound :
      {w v : ℕ} {e : Stored} {s : Select} (a : Value)
      → IsMove w e s v
      → size a.term ≡ w
      → (x : Value) × (materialize (wrappers_of e) a ≡ ok x)
        × (size x.term ≡ v)
        × ((ρ : Env) → eval ρ x.term ≡ meaning ρ e (eval ρ a.term))
  unfolding materialize visit_binary_operator operate
  materialize_sound a (select_move c t f) h = (a, refl, h, λ ρ. refl)
  materialize_sound {v = v} a (cast_move {k = k} {u = u} typed m) h =
      let (y, e, same, means) = materialize_sound a m h in
      let (x, e', same', means') =
        visit_cast_sound k y v (subst (λ n. IsTypedCast k n v) (sym same) typed) in
      rw e ((x, e', same', λ ρ. means' ρ ∙ ap (cast_meaning k) (means ρ)))
  materialize_sound {v = v} a (and_move {e = e'} {m = mask} typed m) h =
      let (y, e, same, means) = materialize_sound a m h in
      let fits : (size y.term == size mask.term) ≡ true = ground (arith, same, typed) in
      rw e (
        _,
        refl,
        size-mk_binary bv_and y.term mask.term ∙ same,
        λ ρ.
            eval-mk_binary ρ bv_and y.term mask.term fits
            ∙ ap₂ (λ n x. denote_binary bv_and n (size mask.term) x (eval ρ mask.term))
                (same ∙ sym typed) (means ρ),
      )

  -- What the emulator computes for the stored value.
  abbrev pub evaluate : Stored → Result Value
  evaluate (select c t f) = ok (visit_select_inst c t f)
  evaluate (cast k e) = do v ← evaluate e; visit_cast k v
  evaluate (and e m) = do v ← evaluate e; visit_binary_operator Opcode.and v m
  evaluate (other v) = ok v

  abbrev pub select_value : Select → Value
  select_value s = visit_select_inst s.condition s.true_value s.false_value

  evaluate-IsMove :
      {w v : ℕ} {e : Stored} {s : Select}
      → IsMove w e s v
      → evaluate e ≡ materialize (wrappers_of e) (select_value s)
  unfolding materialize
  evaluate-IsMove (select_move c t f) = refl
  evaluate-IsMove (cast_move {k = k} typed m) = ap (λ r. r >>= visit_cast k) (evaluate-IsMove m)
  evaluate-IsMove (and_move {m = mask} typed m) =
      ap (λ r. r >>= λ v. visit_binary_operator Opcode.and v mask) (evaluate-IsMove m)

  select_sizes :
      {w v : ℕ} {e : Stored} {s : Select}
      → IsMove w e s v
      → (size s.condition.term ≡ 1) × (size s.true_value.term ≡ w) × (size s.false_value.term ≡ w)
  select_sizes (select_move c t f) = (c, t, f)
  select_sizes (cast_move typed m) = select_sizes m
  select_sizes (and_move typed m) = select_sizes m

  -- The values of the move and of its two sides: in each run the first is one of the others.
  pub record Choice (e : Stored) (s : Select) : Type 0 where
    pub moved : Value
    pub true_val : Value
    pub false_val : Value
    pub moved_is : evaluate e ≡ ok moved
    pub true_is : materialize (wrappers_of e) s.true_value ≡ ok true_val
    pub false_is : materialize (wrappers_of e) s.false_value ≡ ok false_val
    pub true_size : size true_val.term ≡ size moved.term
    pub false_size : size false_val.term ≡ size moved.term
    pub one : size s.condition.term ≡ 1
    pub chooses :
        (ρ : Env)
        → eval ρ moved.term
          ≡ (if eval ρ s.condition.term == 0 then eval ρ false_val.term else eval ρ true_val.term)

  either {ℓ} :
      {A : Type ℓ} (g : ℕ → A) (b : Bool) (x y : ℕ)
      → g (if b then x else y) ≡ (if b then g x else g y)
  either g true x y = refl
  either g false x y = refl

  pub IsMove-Choice : {w v : ℕ} {e : Stored} {s : Select} → IsMove w e s v → Choice e s
  unfolding visit_select_inst
  IsMove-Choice {e = e} {s = s} m =
      let (c, t, f) = select_sizes m in
      let (x, ex, sx, mx) =
        materialize_sound (select_value s) m
          (Sized-select_inst s.condition s.true_value s.false_value ∙ t) in
      let (y, ey, sy, my) = materialize_sound s.true_value m t in
      let (z, ez, sz, mz) = materialize_sound s.false_value m f in
      record {
        moved = x;
        true_val = y;
        false_val = z;
        moved_is = evaluate-IsMove m ∙ ex;
        true_is = ey;
        false_is = ez;
        true_size = sy ∙ sym sx;
        false_size = sz ∙ sym sx;
        one = c;
        chooses = λ ρ.
            mx ρ
            ∙ ap (meaning ρ e) (ite_sound ρ s.condition s.true_value s.false_value c (t ∙ sym f))
            ∙ either (meaning ρ e) (eval ρ s.condition.term == 0) (eval ρ s.false_value.term)
                (eval ρ s.true_value.term)
            ∙ ap₂ (λ n k. if eval ρ s.condition.term == 0 then n else k) (sym (mz ρ)) (sym (my ρ));
      }
