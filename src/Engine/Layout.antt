-- ===== src/Engine/Layout.antt =====
-- src/engine/engine.cpp, `patch`: where the sections stand in the buffer.
use native.Mathlib.Nat.{mod-lt, add-mod-mod, mod-add-mod, mod_self}
use vexa.Prelude.{
  ℕ, ◌+◌, ◌-◌, ◌%◌, ◌<◌, ◌≡◌, ◌≢◌, sym, ◌∙◌, ap, List, ◌++◌, none, some, arith, length, find,
}
use vexa.Engine.Object.{Section, Code, alignment_of, body, u16}

-- The section has the index `i` in its file, and its body stands at its offset, which is aligned.
pub record IsLaidOut (c : Code) (s : Section) : Type 0 where
  pub index : ℕ
  pub has_index : s.index ≡ some index
  pub before : List ℕ
  pub after : List ℕ
  pub placed : c.content ≡ before ++ (body s ++ after)
  pub offset : find c.section_offsets (u16 index) ≡ some (length before)
  pub aligned : length before % alignment_of s ≡ 0

pub padding_lem : (n a : ℕ) → 0 < a → (n + (a - n % a) % a) % a ≡ 0
padding_lem n a h =
    let e : n % a + (a - n % a) ≡ a = omega (arith, mod-lt n h) in
    add-mod-mod n (a - n % a) a ∙ sym (mod-add-mod n a (a - n % a)) ∙ ap (λ k. k % a) e ∙ mod_self a

-- What is laid out stays where it is.
Keeps : Code → Code → Type 0
Keeps c c' = (s : Section) → IsLaidOut c s → IsLaidOut c' s

-- The section has an index, which no section before it has.
abbrev pub HasIndex : Section → Type 0
HasIndex s = (i : ℕ) × (s.index ≡ some i)

-- The keys of the two sections differ.
abbrev pub Apart : Section → Section → Type 0
Apart s t = (i j : ℕ) → s.index ≡ some i → t.index ≡ some j → u16 i ≢ u16 j

-- The section's key is not taken.
abbrev Fresh : Code → Section → Type 0
Fresh c s = (i : ℕ) → s.index ≡ some i → find c.section_offsets (u16 i) ≡ none
