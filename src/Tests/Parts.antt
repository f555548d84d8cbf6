-- ===== src/Tests/Parts.antt =====
-- The theorems on the parts of a bus at small inputs.
use universal_multi_segmente.Prelude.{◌+◌, ◌≡◌, refl, false, [], ◌∷◌, arith, ◌==◌, if◌then◌else◌}
use universal_multi_segmente.Capsule.{Memory, capsule_checksum, capsule_wrap, capsule_validate}
use universal_multi_segmente.Capsule.Integrity.{one_byte_detected}
use universal_multi_segmente.Segments.Turns.{round}
use universal_multi_segmente.Segments.Arena.{ArenaAllocator, alloc_all, Packed, alloc_all-Packed}

-- The bytes 1, 2, 3, … at the addresses from 0 on.
abbrev counting : Memory
counting a = a + 1

-- The byte at address 2 is another one.
abbrev tampered : Memory
tampered a = if a == 2 then 9 else a + 1

checksum_runs : capsule_checksum counting 0 4 ≡ 10
unfolding capsule_checksum
checksum_runs = refl

one_byte_detected_example : capsule_validate tampered (capsule_wrap counting 1000 7 0 4) ≡ false
one_byte_detected_example =
    one_byte_detected counting tampered 1000 7 0 4 2 (omega arith) (ground arith)
      (λ j h ne. ground arith)

round_runs : round 3 1 4 ≡ 1 ∷ 2 ∷ 0 ∷ 1 ∷ []
unfolding round
round_runs = refl

abbrev arena : ArenaAllocator
arena = record { memory = 4096; capacity = 100; offset = 10 }

alloc_all-Packed_example : Packed (4096 + 10) (alloc_all arena (48 ∷ 48 ∷ 24 ∷ [])).0 (4096 + 100)
alloc_all-Packed_example = alloc_all-Packed arena (48 ∷ 48 ∷ 24 ∷ []) (omega arith) (omega arith)
