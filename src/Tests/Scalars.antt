-- ===== src/Tests/Scalars.antt =====
-- src/passes/memory_scalarizer.cpp on a value of four bytes.
use vexa.Prelude.{ℕ, ◌≡◌, refl, [], arith}
use vexa.Passes.MemoryScalarizer.{Bytes, eval, exec, scalarize_load, scalarize_store}
use vexa.Passes.MemoryScalarizer.Join.{scalarize_load-scalarize_store}

abbrev zeros : Bytes
zeros x = 0

abbrev word : ℕ
word = 3735928559

scalarize_load-scalarize_store_example :
    eval 32 (exec 32 1000 word (scalarize_store 4) zeros) 1000 0 (scalarize_load 4) ≡ word
scalarize_load-scalarize_store_example =
    scalarize_load-scalarize_store 4 1000 word 0 zeros (λ x. omega arith) (omega arith)
      (omega arith) (omega arith) (omega arith)

-- 256 bytes are counted as none.
stores_nothing : scalarize_store 256 ≡ []
unfolding scalarize_store
stores_nothing = refl
