-- ===== src/Memory/Heap/Snapshots.antt =====
-- src/memory/memory.cpp, `take_snapshot` and `restore_snapshot`.
use vexa.Prelude.{
  ℕ, ◌<◌, ◌≡◌, ◌≢◌, ◌⊎◌, refl, ◌∙◌, ap, List, [], ◌∷◌, length, All, Any, arith, length-set,
  get_elem?-set_self, get_elem?-set_ne, Bool-cases, inl, inr, ◌==◌, ==_iff,
}
use vexa.Terms.{Bitwuzla}
use vexa.Memory.{MemPage}
use vexa.Memory.Heap.{
  Memory, page_at, store_page, PageState, page_states, take_snapshot, restore_pages, page_names,
  restore_snapshot, or_new,
}

module _ ⦃B : Bitwuzla⦄ where
  length-restore_pages :
      (ss : List PageState) (m : Memory) → length (restore_pages ss m).heap ≡ length m.heap
  unfolding restore_pages
  length-restore_pages [] m = refl
  length-restore_pages ((i, storage) ∷ ss) m = length-restore_pages ss _ ∙ length-set m.heap i _

  pub page_at-store_page :
      (m : Memory) (i j : ℕ) (p : MemPage)
      → i < length m.heap
      → ((i ≡ j) × (page_at (store_page m i p) j ≡ p))
        ⊎ ((i ≢ j) × (page_at (store_page m i p) j ≡ page_at m j))
  page_at-store_page m i j p h = elim (Bool-cases (i == j)) [
    | inl same ↦
        let e = (==_iff i j).0 same in
        inl (e, rw (← e) (ap or_new (get_elem?-set_self m.heap i p h)))
    | inr other ↦
        let ne : i ≢ j = ground arith in inr (ne, ap or_new (get_elem?-set_ne m.heap i j p ne))
  ]

  AllBelow-store :
      (m : Memory) (i : ℕ) (p : MemPage) (pages : List ℕ)
      → All (λ k. k < length m.heap) pages
      → All (λ k. k < length (store_page m i p).heap) pages
  AllBelow-store m i p pages h = rw (length-set m.heap i p) h

  -- A page that is restored, or has its old storage already, ends with its old storage.
  restored :
      (old : Memory) (pages : List ℕ) (m : Memory) (j : ℕ)
      → All (λ k. k < length m.heap) pages
      → Any (λ k. k ≡ j) pages ⊎ ((page_at m j).memory ≡ (page_at old j).memory)
      → (page_at (restore_pages (page_states old pages) m) j).memory ≡ (page_at old j).memory
  unfolding restore_pages page_states
  restored old [] m j below (inl none_left) = absurd none_left
  restored old [] m j below (inr same) = same
  restored old (i ∷ pages) m j below h =
      let p = record (page_at m i) { memory = (page_at old i).memory } in
      let m' = store_page m i p in
      let below' = AllBelow-store m i p pages below.1 in
      elim (page_at-store_page m i j p below.0) [
        | inl (e, here) ↦
            restored old pages m' j below'
              (inr (ap (λ (q : MemPage). q.memory) here ∙ ap (λ k. (page_at old k).memory) e))
        | inr (ne, other) ↦ restored old pages m' j below' (elim h [
          | inl (inl e) ↦ absurd (ne e)
          | inl (inr later) ↦ inl later
          | inr same ↦ inr (ap (λ (q : MemPage). q.memory) other ∙ same)
        ])
      ]

  -- Restoring changes no other page, and neither the initial bytes nor the seal of any.
  kept :
      (ss : List PageState) (m : Memory) (j : ℕ)
      → All (λ k. k < length m.heap) (page_names ss)
      → ((page_at (restore_pages ss m) j).initial_memory ≡ (page_at m j).initial_memory)
        × ((page_at (restore_pages ss m) j).sealed ≡ (page_at m j).sealed)
        × (¬ Any (λ k. k ≡ j) (page_names ss) → page_at (restore_pages ss m) j ≡ page_at m j)
  unfolding restore_pages page_names
  kept [] m j below = (refl, refl, λ _. refl)
  kept ((i, storage) ∷ ss) m j below =
      let p = record (page_at m i) { memory = storage } in
      let (start, seal, out) =
        kept ss (store_page m i p) j (AllBelow-store m i p (page_names ss) below.1) in
      elim (page_at-store_page m i j p below.0) [
        | inl (e, here) ↦
            let same = ap (page_at m) e in
            (
              start
                  ∙ ap (λ (q : MemPage). q.initial_memory) here
                  ∙ ap (λ (q : MemPage). q.initial_memory) same,
              seal ∙ ap (λ (q : MemPage). q.sealed) here ∙ ap (λ (q : MemPage). q.sealed) same,
              λ h. absurd (h (inl e)),
            )
        | inr (ne, other) ↦ (
          start ∙ ap (λ (q : MemPage). q.initial_memory) other,
          seal ∙ ap (λ (q : MemPage). q.sealed) other,
          λ h. out (λ later. h (inr later)) ∙ other,
        )
      ]

  page_names-page_states : (m : Memory) (pages : List ℕ) → page_names (page_states m pages) ≡ pages
  unfolding page_names page_states
  page_names-page_states m [] = refl
  page_names-page_states m (i ∷ pages) = ap (λ l. i ∷ l) (page_names-page_states m pages)

  pages-restore_pages : (ss : List PageState) (m : Memory) → (restore_pages ss m).pages ≡ m.pages
  unfolding restore_pages
  pages-restore_pages [] m = refl
  pages-restore_pages ((i, storage) ∷ ss) m = pages-restore_pages ss _

  -- Restoring a snapshot of `m`, in a later memory that still has the pages that `m` lists, lists
  -- exactly those pages again and gives each the storage that it had in `m`. Pages made since and
  -- the initial bytes and seals of all pages stay as they are in the later memory.
  pub restore_snapshot-take_snapshot :
      (m later : Memory) (j : ℕ)
      → All (λ k. k < length later.heap) m.pages
      → let r = restore_snapshot later (take_snapshot m) in
        (r.pages ≡ m.pages)
        × (Any (λ k. k ≡ j) m.pages → (page_at r j).memory ≡ (page_at m j).memory)
        × (¬ Any (λ k. k ≡ j) m.pages → page_at r j ≡ page_at later j)
        × ((page_at r j).initial_memory ≡ (page_at later j).initial_memory)
        × ((page_at r j).sealed ≡ (page_at later j).sealed)
  unfolding restore_snapshot take_snapshot
  restore_snapshot-take_snapshot m later j below =
      let ss = page_states m m.pages in
      let names = page_names-page_states m m.pages in
      let start = record later { pages = page_names ss } in
      let (initial, seal, out) = kept ss start j (rw names below) in
      (
        pages-restore_pages ss start ∙ names,
        λ h. restored m m.pages start j below (inl h),
        λ h. out (rw names h),
        initial,
        seal,
      )
