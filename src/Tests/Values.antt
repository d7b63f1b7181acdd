-- ===== src/Tests/Values.antt =====
-- src/value/value.cpp at concrete values: a choice between 4 and 9 by an unknown bit.
use vexa.Prelude.{◌≡◌, ◌≤◌, refl, true, [], ◌∷◌, All, AllPairs, length}
use vexa.Terms.Trees.{Tree, const, value, ite, binary, eval, size}
use vexa.Terms.Denote.{equal}
use vexa.Value.{Value, simplify_under, possible_values}
use vexa.Value as V
use vexa.Value.Simplify.{simplify_under_sound}
use vexa.Value.Possible.{Taken, Differ, IsAttained, possible_values_complete, possible_values_sound}
use vexa.Tests.{solver}

abbrev condition : Tree
condition = binary equal (const 0 1) (value 1 1)

abbrev choice : Value
choice = V.value (ite condition (value 8 4) (value 8 9))

simplify_under_sound_example :
    (eval true (simplify_under choice (condition ∷ [])).term ≡ 4)
    × (size (simplify_under choice (condition ∷ [])).term ≡ 8)
simplify_under_sound_example = simplify_under_sound true choice (condition ∷ []) (λ h. cc, tt)

possible_values_complete_example : Taken true choice.term (possible_values choice []).0
unfolding possible_values
possible_values_complete_example = possible_values_complete true choice [] tt refl

possible_values_sound_example :
    All (IsAttained choice.term []) (possible_values choice []).0
    × AllPairs Differ (possible_values choice []).0
    × (length (possible_values choice []).0 ≤ 20)
possible_values_sound_example = possible_values_sound choice []
