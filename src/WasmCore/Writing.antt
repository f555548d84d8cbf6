-- ===== src/WasmCore/Writing.antt =====
-- `umsbb_write_message` of src/umsbb_wasm_core.c. The bytes at `data` and their number come as one
-- list; a null pointer, which is answered as a size of 0 is, comes as the empty list.
use universal_multi_segmente.Prelude.{
  ℕ, ◌+◌, ◌%◌, Bool, ◌||◌, Option, none, some, List, ltb, ◌==◌, if◌then◌else◌, add_size, add32,
  length, get_or, set,
}
use universal_multi_segmente.Standalone.Bytes.{store}
use universal_multi_segmente.WasmCore.{
  max_message_size, header_size, ErrorCode, success, invalid_params, invalid_buffer, MessageHeader,
  Segment, Stats, Buffer, System,
}
use universal_multi_segmente.WasmCore.Words.{encode, message_header}
use universal_multi_segmente.WasmCore.Buffers.{is_rejected, active_buffer, empty_segment}

abbrev pub segment_at : Buffer → ℕ → Segment
segment_at b i = get_or b.segments i empty_segment

unfoldable pub is_full : Segment → ℕ → Bool
is_full s total_size = ltb s.capacity (add32 s.write_pos total_size)

abbrev pub reset_segment : Segment → Segment
reset_segment s = record s { write_pos = 0; read_pos = 0; message_count = 0 }

-- The next segment is taken, and reset if it is full too.
unfoldable pub take_next : Buffer → ℕ → Buffer
take_next b total_size =
    let i = add32 b.current_write_segment 1 % b.num_segments in
    let s = segment_at b i in
    if is_full s total_size
    then record b { segments = set b.segments i (reset_segment s); current_write_segment = i }
    else record b { current_write_segment = i }

-- The buffer with the segment that is written to as its current one.
unfoldable pub find_space : Buffer → ℕ → Buffer
find_space b total_size =
    if is_full (segment_at b b.current_write_segment) total_size then take_next b total_size else b

-- The two `memcpy`.
unfoldable pub copy_message : (ℕ → ℕ) → ℕ → MessageHeader → List ℕ → ℕ → ℕ
copy_message bytes ptr header message =
    store (store bytes ptr (encode header)) (ptr + header_size) message

unfoldable pub count_write : Stats → ℕ → Stats
count_write t size =
    let pending = add32 t.pending_messages 1 in
    record t {
      total_messages_written = add_size t.total_messages_written 1;
      total_bytes_written = add_size t.total_bytes_written size;
      pending_messages = pending;
      peak_pending_messages =
          if ltb t.peak_pending_messages pending then pending else t.peak_pending_messages;
    }

abbrev pub extended : Segment → ℕ → Segment
extended s total_size = record s {
  write_pos = add32 s.write_pos total_size;
  message_count = add32 s.message_count 1;
}

-- The writing of a message to the current segment.
unfoldable pub append : Buffer → (ℕ → ℕ) → ℕ → List ℕ → Buffer × (ℕ → ℕ)
append b bytes time message =
    let i = b.current_write_segment in
    let s = segment_at b i in
    (
      record b {
        segments = set b.segments i (extended s (header_size + length message));
        stats = count_write b.stats (length message);
      },
      copy_message bytes (s.base + s.write_pos) (message_header time message) message,
    )

-- `umsbb_write_message` with the buffer, the bytes of the heap and the time.
unfoldable pub write_buffer : Buffer → (ℕ → ℕ) → ℕ → List ℕ → Buffer × (ℕ → ℕ)
write_buffer b bytes time message =
    append (find_space b (header_size + length message)) bytes time message

unfoldable pub put : System → ℕ → Buffer × (ℕ → ℕ) → ℕ → System
put y id (b, bytes) time = record y {
  buffers = set y.buffers id (some b);
  heap = record (y.heap) { bytes = bytes };
  counter = time;
}

unfoldable pub write_found : System → ℕ → List ℕ → Option Buffer → ErrorCode × System
write_found y id message none = (invalid_buffer, y)
write_found y id message (some b) =
    let time = add_size y.counter 1 in
    (success, put y id (write_buffer b y.heap.bytes time message) time)

unfoldable pub write_message : System → ℕ → List ℕ → ErrorCode × System
write_message y id message =
    if is_rejected y id || length message == 0 || ltb max_message_size (length message)
    then (invalid_params, y)
    else write_found y id message (active_buffer (get_or y.buffers id none))
