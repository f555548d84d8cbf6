-- ===== src/WasmCore/Reading.antt =====
-- `umsbb_read_message` of src/umsbb_wasm_core.c. A null `output_buffer`, which is answered as a
-- `max_size` of 0 is, comes as that. A result has the bytes that are copied to `output_buffer`.
use universal_multi_segmente.Prelude.{
  ℕ, zero, suc, ◌+◌, ◌%◌, Bool, ◌&&◌, ◌||◌, Option, none, some, List, [], ltb, leb, ◌==◌,
  if◌then◌else◌, add_size, add32, sub32, get_or, set,
}
use universal_multi_segmente.Standalone.Bytes.{load}
use universal_multi_segmente.WasmCore.{
  header_size, invalid_params, buffer_empty, invalid_buffer, message_too_large, Answer, number,
  code, MessageHeader, Segment, Stats, Buffer, System,
}
use universal_multi_segmente.WasmCore.Words.{decode, calculate_checksum}
use universal_multi_segmente.WasmCore.Buffers.{is_rejected, active_buffer}
use universal_multi_segmente.WasmCore.Writing.{segment_at, put}

unfoldable pub is_drained : Segment → Bool
is_drained s = leb s.write_pos s.read_pos || s.message_count == 0

-- The loop over the segments, with the rounds that are left and `i`.
unfoldable pub next_filled : ℕ → ℕ → Buffer → Option ℕ
next_filled zero i b = none
next_filled (suc n) i b =
    let idx = add32 b.current_read_segment i % b.num_segments in
    let s = segment_at b idx in
    if ltb 0 s.message_count && ltb s.read_pos s.write_pos
    then some idx
    else next_filled n (i + 1) b

unfoldable pub with_read_segment : Buffer → Option ℕ → Buffer
with_read_segment b none = b
with_read_segment b (some i) = record b { current_read_segment = i }

-- The buffer with the segment that is read as its current one.
unfoldable pub find_filled : Buffer → Buffer
find_filled b =
    if is_drained (segment_at b b.current_read_segment)
    then with_read_segment b (next_filled b.num_segments 0 b)
    else b

unfoldable pub count_read : Stats → ℕ → Stats
count_read t size = record t {
  total_messages_read = add_size t.total_messages_read 1;
  total_bytes_read = add_size t.total_bytes_read size;
  pending_messages = sub32 t.pending_messages 1;
}

abbrev pub advanced : Segment → ℕ → Segment
advanced s size = record s {
  read_pos = add32 s.read_pos (add32 header_size size);
  message_count = sub32 s.message_count 1;
}

-- `umsbb_read_message` with the header and the bytes behind it.
unfoldable pub read_checked : Buffer → MessageHeader → List ℕ → Answer × List ℕ × Buffer
read_checked b header message =
    if calculate_checksum message == header.checksum
    then (let i = b.current_read_segment in
        (
          number header.size,
          message,
          record b {
            segments = set b.segments i (advanced (segment_at b i) header.size);
            stats = count_read b.stats header.size;
          },
        ))
    else (code invalid_params, message, b)

unfoldable pub read_header : Buffer → (ℕ → ℕ) → ℕ → MessageHeader → ℕ → Answer × List ℕ × Buffer
read_header b bytes ptr header max_size =
    if ltb max_size header.size
    then (code message_too_large, [], b)
    else read_checked b header (load bytes (ptr + header_size) header.size)

-- The reading of a message from the current segment.
unfoldable pub read_current : Buffer → (ℕ → ℕ) → ℕ → Answer × List ℕ × Buffer
read_current b bytes max_size =
    let s = segment_at b b.current_read_segment in
    if is_drained s || ltb s.write_pos (add32 s.read_pos header_size)
    then (code buffer_empty, [], b)
    else read_header b bytes (s.base + s.read_pos)
        (decode (load bytes (s.base + s.read_pos) header_size)) max_size

-- `umsbb_read_message` with the buffer and the bytes of the heap.
unfoldable pub read_buffer : Buffer → (ℕ → ℕ) → ℕ → Answer × List ℕ × Buffer
read_buffer b bytes max_size = read_current (find_filled b) bytes max_size

unfoldable pub read_found : System → ℕ → ℕ → Option Buffer → Answer × List ℕ × System
read_found y id max_size none = (code invalid_buffer, [], y)
read_found y id max_size (some b) =
    let (answer, message, b') = read_buffer b y.heap.bytes max_size in
    (answer, message, put y id (b', y.heap.bytes) y.counter)

unfoldable pub read_message : System → ℕ → ℕ → Answer × List ℕ × System
read_message y id max_size =
    if is_rejected y id || max_size == 0
    then (code invalid_params, [], y)
    else read_found y id max_size (active_buffer (get_or y.buffers id none))
