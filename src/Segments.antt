-- ===== src/Segments.antt =====
-- src/segment_ring.c, include/segment_ring.h: the bi-buffers of the segments and whose turn it is.
-- src/arena_allocator.c, include/arena_allocator.h: the arena in which a bus places its capsules.
pub mod Turns
pub mod Arena
use universal_multi_segmente.Prelude.{
  ℕ, zero, suc, ◌%◌, Option, none, some, List, [], ◌∷◌, ltb, ◌==◌, if◌then◌else◌, add_size,
}
use universal_multi_segmente.BiBuffer
use universal_multi_segmente.BiBuffer.{BiBuffer}

abbrev pub max_agents : ℕ
max_agents = 16

-- `buffers` are the initialised ones of the array's 16, so `active_count` is their number.
pub record SegmentRing : Type 0 where
  pub buffers : List BiBuffer
  pub active_count : ℕ
  pub current_index : ℕ

pub init_buffers : ℕ → ℕ → List BiBuffer
init_buffers zero cap = []
init_buffers (suc n) cap = BiBuffer.init cap ∷ init_buffers n cap

unfoldable pub segment_ring_init : ℕ → ℕ → SegmentRing
unfolding init_buffers
segment_ring_init agent_count buffer_cap =
    let n = if ltb max_agents agent_count then max_agents else agent_count in
    record { buffers = init_buffers n buffer_cap; active_count = n; current_index = 0 }

-- The index of the buffer whose address is returned. `none` is the division by zero of a ring
-- with no active buffer.
unfoldable pub segment_ring_next : SegmentRing → Option (ℕ × SegmentRing)
segment_ring_next r =
    if r.active_count == 0
    then none
    else some
        (r.current_index, record r { current_index = add_size r.current_index 1 % r.active_count })

unfoldable pub segment_ring_reset : SegmentRing → SegmentRing
segment_ring_reset r = record r { current_index = 0 }
