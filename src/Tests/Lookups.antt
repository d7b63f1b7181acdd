-- ===== src/Tests/Lookups.antt =====
-- src/symex/symex.cpp on two values that are no constants.
use vexa.Prelude.{◌≡◌, false, none, ok}
use vexa.Terms.Trees.{value}
use vexa.Value.{Value}
use vexa.Symex.{LlvmValue, Vars, get, set}
use vexa.Symex.Lookup.{get-set}
use vexa.Tests.{solver}

abbrev first : LlvmValue
first = record { number = 1; constant_int = none }

abbrev second : LlvmValue
second = record { number = 2; constant_int = none }

abbrev seven : Value
seven = record { term = value 8 7; simplified = false; page = none }

abbrev no_vars : Vars
no_vars n = none

get-set_example : get (set no_vars first seven) first ≡ ok seven
get-set_example = get-set no_vars first first seven
