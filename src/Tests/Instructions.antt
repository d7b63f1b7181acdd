-- ===== src/Tests/Instructions.antt =====
-- src/arch/emulator.cpp at concrete operands.

use vexa.Prelude.{◌≡◌, refl, true, ok, arith}
use vexa.Terms.Denote.{flag}
use vexa.Terms.Trees.{const, value, eval, size}
use vexa.Value.{Value}
use vexa.Value as V
use vexa.Emulator.{Predicate, visit_icmp_inst}
use vexa.Emulator.Zeros.{IsLowest, cttz_sound}
use vexa.Emulator.Intrinsics.{cttz, handle_llvm_intrinsics, ctpop}
use vexa.Emulator.Compare.{visit_icmp_inst_sound, llvm_icmp}
use vexa.Emulator.Bits.{ctpop_sound, count_set}
use vexa.Emulator.Widths.{Sized, visit, sext_inst}
use vexa.Emulator.Widths.Visits.{visit_sound}
use vexa.Tests.{solver}

abbrev unknown : Value
unknown = V.value (const 0 8)

abbrev known : Value
known = V.value (value 8 200)

visit_icmp_inst_sound_example :
    (v : Value) × (visit_icmp_inst Predicate.slt known unknown ≡ ok v)
    × (eval true v.term ≡ flag (llvm_icmp Predicate.slt 8 200 1))
    × (size v.term ≡ 1)
visit_icmp_inst_sound_example =
    visit_icmp_inst_sound true Predicate.slt known unknown (omega arith) refl (λ h. cc)

ctpop_sound_example :
    (v : Value) × (handle_llvm_intrinsics ctpop known unknown unknown 8 ≡ ok v)
    × (eval true v.term ≡ count_set 200 8)
ctpop_sound_example = ctpop_sound true known unknown unknown 8 (omega arith) (omega arith) refl

cttz_sound_example :
    (v : Value) × (handle_llvm_intrinsics cttz known unknown unknown 8 ≡ ok v)
    × IsLowest 200 8 0 (eval true v.term)
cttz_sound_example = cttz_sound true known unknown unknown 8 (omega arith) (omega arith) refl

visit_sound_example : Sized 16 (visit (sext_inst 8 16 unknown))
visit_sound_example = visit_sound (sext_inst 8 16 unknown) (omega arith)
