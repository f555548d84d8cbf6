-- ===== src/WasmCore/Memory.antt =====
-- `wasm_malloc` of src/umsbb_wasm_core.c: a heap of eight megabytes from which nothing is given back.
use universal_multi_segmente.Prelude.{
  ℕ, ◌+◌, ◌-◌, ◌*◌, ◌%◌, ◌&&◌, Option, none, some, ltb, leb, if◌then◌else◌, add32,
}
use universal_multi_segmente.WasmCore.{alignment, Heap}

abbrev pub heap_size : ℕ
heap_size = 8 * 1024 * 1024

-- `(size + UMSBB_ALIGNMENT - 1) & ~(UMSBB_ALIGNMENT - 1)`: the low three bits of the sum, a 32-bit
-- word, are cleared.
unfoldable pub align_size : ℕ → ℕ
align_size size = let x = add32 size (alignment - 1) in x - x % alignment

-- `memset` of `size` bytes at `ptr` to 0.
unfoldable pub clear : (ℕ → ℕ) → ℕ → ℕ → ℕ → ℕ
clear bytes ptr size o = if leb ptr o && ltb o (ptr + size) then 0 else bytes o

-- The result is the offset of the block.
unfoldable pub wasm_malloc : Heap → ℕ → Option ℕ × Heap
wasm_malloc m size =
    let aligned = align_size size in
    if ltb heap_size (add32 m.heap_pos aligned) then (none, m) else (
      some m.heap_pos,
      record { bytes = clear m.bytes m.heap_pos aligned; heap_pos = add32 m.heap_pos aligned },
    )
