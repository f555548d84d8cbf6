-- ===== src/Standalone/Registry.antt =====
-- The registry of src/umsbb_complete_core.c: creating and destroying buffers, lines 197 to 204, 254 to
-- 343, 502 to 569 and 603 to 737.
use universal_multi_segmente.Prelude.{
  ℕ, zero, suc, ◌+◌, ◌*◌, ◌/◌, ◌^◌, Bool, true, ◌&&◌, ◌||◌, Option, none, some, List, [], ◌∷◌, ltb,
  leb, ◌==◌, if◌then◌else◌, add32, sub32, update,
}
use universal_multi_segmente.Standalone.{
  ErrorCode, success, invalid_params, invalid_handle, max_message_size, segment_count, max_buffers,
  magic_number, Segment, Buffer, System,
}
use universal_multi_segmente.Standalone.Bytes.{align_size}
use universal_multi_segmente.Standalone.Messages.{find_buffer, write_message}

-- The loop of `umsbb_get_next_handle`, with the rounds that it may still make: the handle, which is
-- also the value that `g_next_handle` is left with.
unfoldable pub next_handle_from : ℕ → ℕ → Option ℕ
next_handle_from zero n = none
next_handle_from (suc rounds) n =
    let handle = add32 n 1 in
    let rest = next_handle_from rounds handle in
    if handle == 0 || leb max_buffers handle then rest else some handle

-- A 32-bit counter comes round in 2 ^ 32 rounds.
unfoldable pub get_next_handle : ℕ → Option ℕ
get_next_handle n = next_handle_from (2 ^ 32) n

-- `umsbb_init_segment`, where neither pointer is null and the size is not 0.
unfoldable pub init_segment : ℕ → (ℕ → ℕ) → ℕ → Segment
init_segment id memory size = record {
  read_pos = 0;
  write_pos = 0;
  message_count = 0;
  active = true;
  bytes = memory;
  size = size;
  segment_id = id;
}

-- The loop over the segments, with the rounds that are left and `i`.
unfoldable pub init_segments : ℕ → ℕ → (ℕ → ℕ) → ℕ → List Segment
init_segments zero i memory size = []
init_segments (suc n) i memory size =
    init_segment i (λ o. memory (i * size + o)) size ∷ init_segments n (i + 1) memory size

unfoldable pub new_buffer : ℕ → ℕ → (ℕ → ℕ) → Buffer
new_buffer handle size_mb memory =
    let total_size = size_mb * 1024 * 1024 in
    let segment_size = align_size (total_size / segment_count) in
    record {
      magic = magic_number;
      handle = handle;
      size_mb = size_mb;
      total_size = total_size;
      segments = init_segments segment_count 0 memory segment_size;
      total_messages_written = 0;
      total_messages_read = 0;
      total_bytes_written = 0;
      total_bytes_read = 0;
      write_operations = 0;
      read_operations = 0;
      failed_writes = 0;
      failed_reads = 0;
      max_message_size = max_message_size;
      segment_size = segment_size;
      active_segments = segment_count;
      initialized = true;
      last_write_time = 0;
      last_read_time = 0;
      peak_pending_messages = 0;
      current_pending_messages = 0;
    }

-- The result is 0 on failure. Whether each of the two `malloc`s gives a block, and the bytes that the
-- aligned block holds, are arguments. That the loop of handles ends is a theorem.
unfoldable pub create_buffer : System → Bool → Bool → (ℕ → ℕ) → ℕ → ℕ × System
create_buffer y struct_allocated block_allocated memory size_mb =
    if ltb size_mb 1 || ltb 64 size_mb
    then (0, y)
    else if struct_allocated && block_allocated
    then (elim (get_next_handle y.next_handle) [
      | none ↦ (0, y)
      | some handle ↦ (
        handle,
        record y {
          buffers = update y.buffers handle (some (new_buffer handle size_mb memory));
          next_handle = handle;
          active_buffers = add32 y.active_buffers 1;
        },
      )
    ])
    else (0, y)

-- The buffer's block is freed, so what is stored in it before is not modelled.
unfoldable pub destroy_buffer : System → ℕ → ErrorCode × System
destroy_buffer y handle =
    if handle == 0 || leb max_buffers handle then (invalid_handle, y) else elim (y.buffers handle) [
      | none ↦ (invalid_handle, y)
      | some b ↦ (
        success,
        record y {
          buffers = update y.buffers handle none;
          active_buffers = sub32 y.active_buffers 1;
        },
      )
    ]

-- The counter behind the clock is not reset.
unfoldable pub init_system : System → System
init_system y = record y { buffers = λ _. none; next_handle = 1; active_buffers = 0 }

-- The loop of `umsbb_shutdown_system`, with the rounds that are left and `i`.
pub shutdown_from : System → ℕ → ℕ → System
shutdown_from y zero i = y
shutdown_from y (suc n) i =
    let y' : System = elim (y.buffers i) [ none ↦ y | some b ↦ (destroy_buffer y i).1 ] in
    shutdown_from y' n (i + 1)

unfoldable pub shutdown_system : System → System
shutdown_system y = shutdown_from y 255 1

-- A result other than success becomes the last one.
abbrev pub last_error : ErrorCode → ErrorCode → ErrorCode
last_error success last = last
last_error result last = result

-- The loop of `umsbb_write_multiple_messages`, with `last_result`.
pub write_each : System → ℕ → List (List ℕ) → ErrorCode → ErrorCode × System
write_each y handle [] last = (last, y)
write_each y handle (bytes ∷ rest) last =
    let (result, y') = write_message y handle bytes in
    write_each y' handle rest (last_error result last)

unfoldable pub write_multiple_messages : System → ℕ → List (List ℕ) → ErrorCode × System
write_multiple_messages y handle [] = (invalid_params, y)
write_multiple_messages y handle (bytes ∷ rest) = write_each y handle (bytes ∷ rest) success

pub record Stats : Type 0 where
  pub total_written : ℕ
  pub total_read : ℕ
  pub bytes_written : ℕ
  pub bytes_read : ℕ
  pub pending_messages : ℕ
  pub active_segments : ℕ
  pub failed_writes : ℕ
  pub failed_reads : ℕ

unfoldable pub get_comprehensive_stats : System → ℕ → Stats
get_comprehensive_stats y handle = elim (find_buffer y handle) [
  | none ↦ record {
    total_written = 0;
    total_read = 0;
    bytes_written = 0;
    bytes_read = 0;
    pending_messages = 0;
    active_segments = 0;
    failed_writes = 0;
    failed_reads = 0;
  }
  | some b ↦ record {
    total_written = b.total_messages_written;
    total_read = b.total_messages_read;
    bytes_written = b.total_bytes_written;
    bytes_read = b.total_bytes_read;
    pending_messages = b.current_pending_messages;
    active_segments = b.active_segments;
    failed_writes = b.failed_writes;
    failed_reads = b.failed_reads;
  }
]
