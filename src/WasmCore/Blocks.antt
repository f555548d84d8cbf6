-- ===== src/WasmCore/Blocks.antt =====
-- What `wasm_malloc` of src/umsbb_wasm_core.c gives.
use universal_multi_segmente.Prelude.{
  ℕ, zero, suc, ◌+◌, ◌-◌, ◌%◌, ◌^◌, ◌≤◌, ◌<◌, ◌≡◌, refl, ap, ◌⊎◌, inl, inr, subst, Option, none,
  some, ◌∷◌, arith, ltb, lt→ltb, ge→ltb, le→leb, add32, Bool-cases, ltb→lt, ltb→ge, replicate,
}
use universal_multi_segmente.Standalone.Bytes.{load}
use universal_multi_segmente.WasmCore.{Heap}
use universal_multi_segmente.WasmCore.Memory.{heap_size, align_size, clear, wasm_malloc}

-- The next free byte is aligned, and in the heap or at its end.
pub record IsHeap (m : Heap) : Type 0 where
  pub aligned : m.heap_pos % 8 ≡ 0
  pub within : m.heap_pos ≤ heap_size

-- What an allocation of `size` bytes may give: a block of the heap behind all that was allocated, at
-- an aligned place, with every byte 0 and every byte before it or behind `heap_pos` as it was; or nothing, if the heap has
-- no room, and no change.
abbrev pub IsAllocation : Heap → ℕ → Option ℕ × Heap → Type 0
IsAllocation m size (none, m') = (heap_size < m.heap_pos + size + 7) × (m' ≡ m)
IsAllocation m size (some ptr, m') =
    (ptr ≡ m.heap_pos)
    × (ptr % 8 ≡ 0)
    × (ptr + size ≤ m'.heap_pos)
    × IsHeap m'
    × (load m'.bytes ptr size ≡ replicate size 0)
    × ((o : ℕ) → (o < ptr) ⊎ (m'.heap_pos ≤ o) → m'.bytes o ≡ m.bytes o)

pub align_size_bounds : (n : ℕ) → n + 7 < 2 ^ 32 → (n ≤ align_size n) × (align_size n ≤ n + 7)
unfolding align_size
align_size_bounds n h = (omega arith, omega arith)

align_size_aligned : (n : ℕ) → align_size n % 8 ≡ 0
unfolding align_size
align_size_aligned n = omega arith

clear-zero :
    (d : ℕ → ℕ) (p size o n : ℕ)
    → p ≤ o
    → o + n ≤ p + size
    → load (clear d p size) o n ≡ replicate n 0
unfolding load clear
clear-zero d p size o zero h k = refl
clear-zero d p size o (suc n) h k =
    rw (le→leb p o h, lt→ltb o (p + size) (omega arith))
      (ap (λ l. 0 ∷ l) (clear-zero d p size (o + 1) n (omega arith) (omega arith)))

clear-outside : (d : ℕ → ℕ) (p size o : ℕ) → (o < p) ⊎ (p + size ≤ o) → clear d p size o ≡ d o
unfolding clear
clear-outside d p size o (inl h) = ground arith
clear-outside d p size o (inr h) = ground arith

-- Of a heap in order, an allocation gives a fresh block of zeros that overlaps no other, or reports
-- that there is no room and changes nothing, for sizes that do not come near 2 ^ 32.
pub wasm_malloc-IsAllocation :
    (m : Heap) (size : ℕ)
    → IsHeap m
    → size < 2 ^ 32 - 2 ^ 24
    → IsAllocation m size (wasm_malloc m size)
unfolding wasm_malloc
wasm_malloc-IsAllocation m size v h =
    let bounds = align_size_bounds size (omega arith) in
    elim (Bool-cases (ltb heap_size (add32 m.heap_pos (align_size size)))) [
      | inl e ↦
          rw e
            (omega (arith, v.within, ltb→lt heap_size (add32 m.heap_pos (align_size size)) e), refl)
      | inr e ↦ rw e (
        refl,
        v.aligned,
        omega (arith, v.within),
        record {
          aligned = omega (arith, v.aligned, v.within, align_size_aligned size);
          within = ltb→ge heap_size (add32 m.heap_pos (align_size size)) e;
        },
        clear-zero m.bytes m.heap_pos (align_size size) m.heap_pos size (omega arith) (omega arith),
        λ o c.
            clear-outside m.bytes m.heap_pos (align_size size) o
              (subst (λ e. (o < m.heap_pos) ⊎ (e ≤ o)) (omega (arith, v.within)) c),
      )
    ]

-- A size within 7 of 2 ^ 32 is rounded to 0.
pub wasm_malloc-wrap :
    (m : Heap) (size : ℕ)
    → IsHeap m
    → 2 ^ 32 ≤ size + 7
    → size < 2 ^ 32
    → (wasm_malloc m size).0 ≡ some m.heap_pos
unfolding wasm_malloc align_size
wasm_malloc-wrap m size v h k =
    rw
      (ge→ltb heap_size (add32 m.heap_pos (add32 size 7 - add32 size 7 % 8))
        (omega (arith, v.within)))
      refl
