-- ===== src/WasmCore/Buffers.antt =====
-- Creating and destroying buffers in src/umsbb_wasm_core.c. A call is in the stages that its early
-- returns mark.
use universal_multi_segmente.Prelude.{
  ℕ, zero, suc, ◌+◌, ◌-◌, ◌^◌, Bool, true, false, not, ◌||◌, Option, none, some, List, [], ◌∷◌,
  ◌++◌, ltb, leb, ◌==◌, if◌then◌else◌, get_or, set, replicate,
}
use universal_multi_segmente.WasmCore.{
  max_buffers, max_segments, ErrorCode, success, invalid_params, invalid_buffer, memory_allocation,
  system_not_initialized, Answer, number, code, Segment, Stats, Buffer, Heap, System,
}
use universal_multi_segmente.WasmCore.Memory.{wasm_malloc}

-- The first test of most calls. A buffer's id, an `int`, comes as its 32 bits.
unfoldable pub is_rejected : System → ℕ → Bool
is_rejected y id = not y.initialized || leb (2 ^ 31) id || leb max_buffers id

-- A pointer of `g_buffers` to an initialised buffer.
unfoldable pub active_buffer : Option Buffer → Option Buffer
active_buffer none = none
active_buffer (some b) = if b.is_initialized then some b else none

unfoldable pub init_system : System → ErrorCode × System
init_system y =
    if y.initialized
    then (success, y)
    else (success, record y { buffers = replicate max_buffers none; initialized = true })

unfoldable pub destroy_found : System → ℕ → Option Buffer → ErrorCode × System
destroy_found y id none = (invalid_buffer, y)
destroy_found y id (some b) = (success, record y { buffers = set y.buffers id none })

unfoldable pub destroy_buffer : System → ℕ → ErrorCode × System
destroy_buffer y id =
    if is_rejected y id then (invalid_params, y) else destroy_found y id (get_or y.buffers id none)

unfoldable pub destroy_present : System → ℕ → Option Buffer → System
destroy_present y i none = y
destroy_present y i (some b) = (destroy_buffer y i).1

-- The loop of `umsbb_shutdown_system`, with the rounds that are left and `i`.
unfoldable pub destroy_from : ℕ → ℕ → System → System
destroy_from zero i y = y
destroy_from (suc n) i y = destroy_from n (i + 1) (destroy_present y i (get_or y.buffers i none))

unfoldable pub shutdown_system : System → ErrorCode × System
shutdown_system y =
    if not y.initialized
    then (system_not_initialized, y)
    else (success, record (destroy_from max_buffers 0 y) { initialized = false })

-- The loop that finds a free slot, with the slots that are left and `i`.
unfoldable pub first_free : List (Option Buffer) → ℕ → Option ℕ
first_free [] i = none
first_free (none ∷ bs) i = some i
first_free (some b ∷ bs) i = first_free bs (i + 1)

abbrev pub empty_segment : Segment
empty_segment = record { base = 0; write_pos = 0; read_pos = 0; capacity = 0; message_count = 0 }

-- One round of the loop that allocates the segments, with what the later rounds come to.
unfoldable pub add_segment :
    ℕ → Option ℕ → Heap → Option (List Segment) × Heap → Option (List Segment) × Heap
add_segment size none m rest = (none, m)
add_segment size (some ptr) m (none, m') = (none, m')
add_segment size (some ptr) m (some ss, m') =
    (some (record empty_segment { base = ptr; capacity = size } ∷ ss), m')

unfoldable pub allocate_segments : ℕ → Heap → ℕ → Option (List Segment) × Heap
allocate_segments zero m size = (some [], m)
allocate_segments (suc n) m size =
    let (block, m') = wasm_malloc m size in add_segment size block m' (allocate_segments n m' size)

abbrev no_stats : Stats
no_stats = record {
  total_messages_written = 0;
  total_messages_read = 0;
  total_bytes_written = 0;
  total_bytes_read = 0;
  pending_messages = 0;
  active_segments = 0;
  peak_pending_messages = 0;
}

unfoldable pub new_buffer : ℕ → ℕ → List Segment → Buffer
new_buffer segment_size num_segments segments = record {
  segments = segments ++ replicate (max_segments - num_segments) empty_segment;
  current_write_segment = 0;
  current_read_segment = 0;
  segment_size = segment_size;
  num_segments = num_segments;
  stats = no_stats;
  is_initialized = true;
}

-- The bytes of `umsbb_buffer_t`.
abbrev pub buffer_struct_size : ℕ
buffer_struct_size = 240

unfoldable pub create_filled : System → ℕ → ℕ → ℕ → Option (List Segment) × Heap → Answer × System
create_filled y id segment_size num_segments (none, m) =
    (code memory_allocation, record y { heap = m })
create_filled y id segment_size num_segments (some ss, m) = (
  number id,
  record y {
    buffers = set y.buffers id (some (new_buffer segment_size num_segments ss));
    heap = m;
  },
)

unfoldable pub create_allocated : System → ℕ → ℕ → ℕ → Option ℕ × Heap → Answer × System
create_allocated y id segment_size num_segments (none, m) = (code memory_allocation, y)
create_allocated y id segment_size num_segments (some ptr, m) =
    create_filled y id segment_size num_segments (allocate_segments num_segments m segment_size)

unfoldable pub create_at : System → ℕ → ℕ → Option ℕ → Answer × System
create_at y segment_size num_segments none = (code memory_allocation, y)
create_at y segment_size num_segments (some id) =
    create_allocated y id segment_size num_segments (wasm_malloc y.heap buffer_struct_size)

unfoldable pub create_buffer : System → ℕ → ℕ → Answer × System
create_buffer y segment_size num_segments =
    if not y.initialized
    then (code system_not_initialized, y)
    else if segment_size == 0 || num_segments == 0 || ltb max_segments num_segments
    then (code invalid_params, y)
    else create_at y segment_size num_segments (first_free y.buffers 0)
