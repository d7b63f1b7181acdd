-- ===== src/Passes/Manager/Ends.antt =====
-- src/ir/pass_manager.cpp: the rounds of the loop over the pipeline.
use vexa.Prelude.{
  ℕ, zero, suc, ◌+◌, ◌<◌, ◌≤◌, ◌≡◌, ◌⊎◌, inl, inr, refl, Bool, true, not, ◌&&◌, List, [], ◌∷◌, some,
  if◌then◌else◌, arith, All, Bool-cases,
}
use vexa.Passes.Manager.{Pass, is_skipped, run_round, run_pipeline}

module _ {F : Type 0} (size : F → ℕ) where
  -- A recursive pass makes the function no larger, and smaller where it reports a change.
  abbrev pub Shrinks : Pass F → Type 0
  Shrinks p =
      p.is_recursive ≡ true
      → (f : F) → (size (p.run f).0 ≤ size f) × ((p.run f).1 ≡ true → size (p.run f).0 < size f)

  -- The passes that run once and have not.
  abbrev pub unrun : List (Pass F) → ℕ
  unrun [] = 0
  unrun (p ∷ ps) = (if not p.is_recursive && not p.did_run then 1 else 0) + unrun ps

  -- What a round does to them.
  record Round (ps : List (Pass F)) (f : F) (r : List (Pass F) × F × Bool) : Type 0 where
    shrink : All Shrinks r.0
    fewer : unrun r.0 ≤ unrun ps
    smaller : (unrun r.0 < unrun ps) ⊎ ((size r.1 ≤ size f) × (r.2 ≡ true → size r.1 < size f))

  run_round-Round : (ps : List (Pass F)) (f : F) → All Shrinks ps → Round ps f (run_round ps f)
  unfolding run_round
  run_round-Round [] f h = record {
    shrink = tt;
    fewer = omega arith;
    smaller = inr (omega arith, λ e. cc);
  }
  run_round-Round (p ∷ ps) f h = elim (Bool-cases (is_skipped p)) [
    | inl skip ↦
        let r = run_round-Round ps f h.1 in
        rw skip (record {
          shrink = (h.0, r.shrink);
          fewer = omega (arith, r.fewer);
          smaller = elim r.smaller [ inl a ↦ inl (omega (arith, a)) | inr b ↦ inr b ];
        })
    | inr runs ↦ elim (Bool-cases (p.run f).1) [
      | inl changed ↦
          rw (runs, changed)
            (record {
              shrink = (h.0, h.1);
              fewer = ground arith;
              smaller = elim (Bool-cases p.is_recursive) [
                | inl again ↦ inr ((h.0 again f).0, λ _. (h.0 again f).1 changed)
                | inr once ↦ inl (ground (arith, once, runs))
              ];
            })
      | inr same ↦
          let r = run_round-Round ps (p.run f).0 h.1 in
          rw (runs, same)
            (record {
              shrink = (h.0, r.shrink);
              fewer = ground (arith, r.fewer);
              smaller = elim (Bool-cases p.is_recursive) [
                | inl again ↦ elim r.smaller [
                  | inl a ↦ inl (ground (arith, a, again))
                  | inr b ↦ inr (
                    omega (arith, b.0, (h.0 again f).0),
                    λ e. omega (arith, b.1 e, (h.0 again f).0),
                  )
                ]
                | inr once ↦ inl (ground (arith, once, runs, r.fewer))
              ];
            })
    ]
  ]

  -- The loop ends from here.
  abbrev pub Ends : List (Pass F) → F → Type 0
  Ends ps f = (fuel : ℕ) × (r : List (Pass F) × F) × (run_pipeline fuel ps f ≡ some r)

  -- It ends if it ends after the next round.
  Ends-round :
      (ps : List (Pass F)) (f : F)
      → ((run_round ps f).2 ≡ true → Ends (run_round ps f).0 (run_round ps f).1)
      → Ends ps f
  unfolding run_pipeline
  Ends-round ps f next = elim (Bool-cases (run_round ps f).2) [
    | inl again ↦ let (fuel, r, e) = next again in (suc fuel, r, rw again e)
    | inr last ↦ (1, ((run_round ps f).0, (run_round ps f).1), rw last refl)
  ]

  run_pipeline-Ends :
      (n m : ℕ) (ps : List (Pass F)) (f : F)
      → unrun ps ≤ n
      → size f ≤ m
      → All Shrinks ps
      → Ends ps f
  run_pipeline-Ends zero zero ps f hn hm h =
      let r = run_round-Round ps f h in
      Ends-round ps f
        (λ e. absurd (elim r.smaller [ inl a ↦ omega (arith, a) | inr b ↦ omega (arith, b.1 e) ]))
  run_pipeline-Ends zero (suc m) ps f hn hm h =
      let r = run_round-Round ps f h in
      Ends-round ps f (λ e. elim r.smaller [
        | inl a ↦ absurd (omega (arith, a))
        | inr b ↦
            run_pipeline-Ends zero m (run_round ps f).0 (run_round ps f).1 (omega (arith, r.fewer))
              (omega (arith, b.1 e)) r.shrink
      ])
  run_pipeline-Ends (suc n) zero ps f hn hm h =
      let r = run_round-Round ps f h in
      Ends-round ps f (λ e. elim r.smaller [
        | inl a ↦
            run_pipeline-Ends n (size (run_round ps f).1) (run_round ps f).0 (run_round ps f).1
              (omega (arith, a)) (omega arith) r.shrink
        | inr b ↦ absurd (omega (arith, b.1 e))
      ])
  run_pipeline-Ends (suc n) (suc m) ps f hn hm h =
      let r = run_round-Round ps f h in
      Ends-round ps f (λ e. elim r.smaller [
        | inl a ↦
            run_pipeline-Ends n (size (run_round ps f).1) (run_round ps f).0 (run_round ps f).1
              (omega (arith, a)) (omega arith) r.shrink
        | inr b ↦
            run_pipeline-Ends (suc n) m (run_round ps f).0 (run_round ps f).1
              (omega (arith, r.fewer)) (omega (arith, b.1 e)) r.shrink
      ])

-- The loop over a pipeline ends from every function, where there is a size that no recursive pass
-- makes larger and that each one makes smaller when it reports a change. The passes that run once
-- may do anything.
pub run_pipeline_ends :
    {F : Type 0} (size : F → ℕ) (ps : List (Pass F)) (f : F)
    → All (Shrinks size) ps
    → (fuel : ℕ) × (r : List (Pass F) × F) × (run_pipeline fuel ps f ≡ some r)
run_pipeline_ends size ps f h =
    run_pipeline-Ends size (unrun size ps) (size f) ps f (omega arith) (omega arith) h
