-- ===== src/Passes/LoopReroll/Matches.antt =====
-- src/passes/loop_reroll.cpp: what the blocks of a loop that is found have in common.
use vexa.Prelude.{
  ℕ, zero, suc, ◌≤◌, ◌<◌, ◌≡◌, ◌∙◌, sym, ap, refl, true, List, [], ◌∷◌, ◌++◌, some, ◌==◌, ltb,
  if◌then◌else◌, arith, length, length-append, inl, inr, Bool-cases,
}
use vexa.Passes.LoopReroll.{
  Instruction, Hashed, Block, take, drop, hash_instruction, hash_all, is_match, UnrolledLoop,
  block_of, blocks_with, add_iteration, search, find_loop,
}

append_nil {ℓ} : {A : Type ℓ} (xs : List A) → xs ≡ xs ++ []
append_nil [] = refl
append_nil (x ∷ xs) = ap (λ l. x ∷ l) (append_nil xs)

append_assoc {ℓ} : {A : Type ℓ} (xs ys zs : List A) → (xs ++ ys) ++ zs ≡ xs ++ (ys ++ zs)
append_assoc [] ys zs = refl
append_assoc (x ∷ xs) ys zs = ap (λ l. x ∷ l) (append_assoc xs ys zs)

module _ (hash_combine : ℕ → ℕ → ℕ) where
  -- The next block matches the instructions of a block, or those with more after them.
  abbrev pub Follows : Block → Block → Type 0
  Follows b c =
      (extra : List Hashed) × (is_match hash_combine (b.instructions ++ extra) c.instructions
        ≡ true)

  -- Each block leads to the next, and the last one to the pattern.
  abbrev pub Linked : List Block → List Hashed → Type 0
  Linked [] body = Unit
  Linked (b ∷ []) body = (extra : List Hashed) × (body ≡ b.instructions ++ extra)
  Linked (b ∷ c ∷ bs) body = Follows b c × Linked (c ∷ bs) body

  Linked-extend :
      (bs : List Block) (body extra : List Hashed) → Linked bs body → Linked bs (body ++ extra)
  Linked-extend [] body extra h = tt
  Linked-extend (b ∷ []) body extra (more, e) =
      (more ++ extra, ap (λ l. l ++ extra) e ∙ append_assoc b.instructions more extra)
  Linked-extend (b ∷ c ∷ bs) body extra (f, h) = (f, Linked-extend (c ∷ bs) body extra h)

  Linked-next :
      (b : Block) (bs : List Block) (body next : List Hashed)
      → is_match hash_combine body next ≡ true
      → Linked (b ∷ bs) body
      → Linked ((b ∷ bs) ++ block_of hash_combine next ∷ []) next
  Linked-next b [] body next m (more, e) =
      ((more, sym (ap (λ l. is_match hash_combine l next) e) ∙ m), ([], append_nil next))
  Linked-next b (c ∷ bs) body next m (f, h) = (f, Linked-next c bs body next m h)

  -- The invariant of the search.
  pub record IsFound (s : UnrolledLoop hash_combine) : Type 0 where
    -- one block for each iteration, once there is a second one
    pub counted : s.iteration_count ≡ (if length s.blocks == 0 then 1 else length s.blocks)
    pub linked : Linked s.blocks s.body
    pub short : length s.body ≤ 513
    pub nonempty : 0 < length s.body

  length-take : (n : ℕ) (l : List Instruction) → length (hash_all hash_combine (take n l)) ≤ n
  length-take zero l = omega arith
  length-take (suc n) [] = omega arith
  length-take (suc n) (i ∷ l) = omega (arith, length-take n l)

  take_nonempty :
      (n : ℕ) (i : Instruction) (l : List Instruction)
      → 0 < n
      → 0 < length (hash_all hash_combine (take n (i ∷ l)))
  take_nonempty zero i l h = absurd (omega (arith, h))
  take_nonempty (suc n) i l h = omega arith

  length-drop : (n : ℕ) (l : List Instruction) → length (drop n l) ≤ length l
  length-drop zero l = omega arith
  length-drop (suc n) [] = omega arith
  length-drop (suc n) (i ∷ l) = omega (arith, length-drop n l)

  length-drop_lt :
      (n : ℕ) (i : Instruction) (l : List Instruction)
      → 0 < n
      → length (drop n (i ∷ l)) < suc (length l)
  length-drop_lt zero i l h = absurd (omega (arith, h))
  length-drop_lt (suc n) i l h = omega (arith, length-drop n l)

  IsFound-blocks :
      (bs : List Block) (count : ℕ) (body next : List Hashed)
      → count ≡ (if length bs == 0 then 1 else length bs)
      → is_match hash_combine body next ≡ true
      → Linked bs body
      → (suc count ≡ (
          if length (blocks_with hash_combine bs body next) == 0
          then 1
          else length (blocks_with hash_combine bs body next)))
        × Linked (blocks_with hash_combine bs body next) next
  IsFound-blocks [] count body next e m h = (
    omega (arith, e),
    (
      ([], sym (ap (λ l. is_match hash_combine l next) (append_nil body)) ∙ m),
      ([], append_nil next),
    ),
  )
  IsFound-blocks (b ∷ bs) count body next e m h = (
    ground (arith, e, length-append (b ∷ bs) (block_of hash_combine next ∷ [])),
    Linked-next b bs body next m h,
  )

  IsFound-add_iteration :
      (n : ℕ) (i : Instruction) (l : List Instruction) (s : UnrolledLoop hash_combine)
      → n ≡ length s.body
      → is_match hash_combine s.body (hash_all hash_combine (take n (i ∷ l))) ≡ true
      → IsFound s
      → IsFound (add_iteration hash_combine (hash_all hash_combine (take n (i ∷ l))) s)
  IsFound-add_iteration n i l s e m h =
      let next = hash_all hash_combine (take n (i ∷ l)) in
      let (counted, linked) =
        IsFound-blocks s.blocks s.iteration_count s.body next h.counted m h.linked in
      record {
        counted = counted;
        linked = linked;
        short = omega (arith, length-take n (i ∷ l), e, h.short);
        nonempty = take_nonempty n i l (omega (arith, e, h.nonempty));
      }

  search-IsFound :
      (fuel : ℕ) (l : List Instruction) (s : UnrolledLoop hash_combine)
      → length l < fuel
      → IsFound s
      → (s' : UnrolledLoop hash_combine) × (search hash_combine fuel l s ≡ some s') × IsFound s'
  unfolding search
  search-IsFound zero l s h k = absurd (omega (arith, h))
  search-IsFound (suc fuel) [] s h k = (s, refl, k)
  search-IsFound (suc fuel) (i ∷ l) s h k = elim (Bool-cases (ltb 512 (length s.body))) [
    | inl long ↦ rw long (s, refl, k)
    | inr small ↦
        let next = hash_all hash_combine (take (length s.body) (i ∷ l)) in
        elim (Bool-cases (is_match hash_combine s.body next)) [
          | inl matched ↦
              let fewer =
                length-drop_lt (length next) i l (take_nonempty (length s.body) i l k.nonempty) in
              rw (small, matched)
                (search-IsFound fuel (drop (length next) (i ∷ l))
                  (add_iteration hash_combine next s) (omega (arith, fewer, h))
                  (IsFound-add_iteration (length s.body) i l s refl matched k))
          | inr differs ↦ elim (Bool-cases (ltb 3 s.iteration_count)) [
            | inl enough ↦
                rw (small, differs, enough)
                  (
                    _,
                    refl,
                    record {
                      counted = k.counted;
                      linked = k.linked;
                      short = k.short;
                      nonempty = k.nonempty;
                    },
                  )
            | inr few ↦
                let extra = hash_instruction hash_combine i ∷ [] in
                rw (small, differs, few)
                  (search-IsFound fuel l (record s { body = s.body ++ extra }) (omega (arith, h))
                    (record {
                      counted = k.counted;
                      linked = Linked-extend s.blocks s.body extra k.linked;
                      short = ground (arith, small, length-append s.body extra);
                      nonempty = omega (arith, length-append s.body extra);
                    }))
          ]
        ]
  ]

  -- The search from a marker ends, with a pattern of at most 513 instructions. The number of
  -- iterations is one, or that of the blocks; each block matches, in its hash and its dataflow, the
  -- block found before it, or that block with the instructions that were added to it after a mismatch.
  pub find_loop_sound :
      (marker : Instruction) (l : List Instruction)
      → (s : UnrolledLoop hash_combine) × (find_loop hash_combine marker l ≡ some s) × IsFound s
  unfolding find_loop
  find_loop_sound marker l =
      search-IsFound (suc (length l)) l _ (omega arith)
        (record { counted = refl; linked = tt; short = omega arith; nonempty = omega arith })
