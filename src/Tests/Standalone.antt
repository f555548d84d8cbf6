-- ===== src/Tests/Standalone.antt =====
-- The theorems on the standalone core at small segments and at a buffer of 1 MB.
use universal_multi_segmente.Prelude.{
  ℕ, ◌^◌, ◌<◌, ◌≡◌, refl, true, false, none, some, List, [], ◌∷◌, arith,
}
use universal_multi_segmente.Standalone.{
  success, corrupted_data, max_message_size, MessageHeader, Segment, Buffer, System,
}
use universal_multi_segmente.Standalone.Bytes.{decode, from_bytes, load, take, drop}
use universal_multi_segmente.Standalone.Messages.{
  stride, append_message, is_full, select_write_segment, least_pending, write_buffer, read_segment,
  read_buffer, write_message, read_message, no_output, fail_read,
}
use universal_multi_segmente.Standalone.Registry.{create_buffer, get_next_handle}
use universal_multi_segmente.Standalone.Handles.{get_next_handle_lem}
use universal_multi_segmente.Standalone.Stored.{IsMessage}
use universal_multi_segmente.Standalone.Queue.{IsQueue}
use universal_multi_segmente.Standalone.Queues.{Queues, write_buffer-push}
use universal_multi_segmente.Standalone.Reading.{pop, IsRead, read_buffer-pop}
use universal_multi_segmente.Standalone.Accounting.{
  IsCounted, write, read, messages_in, used, used-IsCounted,
}
use universal_multi_segmente.Standalone.Wrapping.{IsWrapping, wrap_strands}
use universal_multi_segmente.Standalone.Delivery.{create-write-read}

abbrev zeros : ℕ → ℕ
zeros o = 0

abbrev message : List ℕ
message = 5 ∷ 6 ∷ 7 ∷ []

message-IsMessage : IsMessage message
message-IsMessage = record { nonempty = omega arith; short = omega arith }

abbrev fresh_system : System
fresh_system = record { buffers = λ _. none; next_handle = 1; active_buffers = 0; counter = 0 }

abbrev segment : ℕ → Segment
segment i = record {
  read_pos = 0;
  write_pos = 0;
  message_count = 0;
  active = true;
  bytes = zeros;
  size = 1024;
  segment_id = i;
}

segment-IsQueue : (i : ℕ) → IsQueue (segment i) []
segment-IsQueue i = record {
  stored = refl;
  counted = refl;
  within = omega arith;
  small = omega arith;
  active = refl;
}

abbrev buffer : Buffer
buffer = record {
  magic = 0x554d5342;
  handle = 2;
  size_mb = 1;
  total_size = 2048;
  segments = segment 0 ∷ segment 1 ∷ [];
  total_messages_written = 0;
  total_messages_read = 0;
  total_bytes_written = 0;
  total_bytes_read = 0;
  write_operations = 0;
  read_operations = 0;
  failed_writes = 0;
  failed_reads = 0;
  max_message_size = 65536;
  segment_size = 1024;
  active_segments = 2;
  initialized = true;
  last_write_time = 0;
  last_read_time = 0;
  peak_pending_messages = 0;
  current_pending_messages = 0;
}

buffer-Queues : Queues buffer.segments ([] ∷ [] ∷ [])
buffer-Queues = (segment-IsQueue 0, (segment-IsQueue 1, tt))

selects_first : select_write_segment buffer.segments ≡ 0
unfolding select_write_segment least_pending
selects_first = refl

stride_of_message : stride 3 ≡ 128
unfolding stride universal_multi_segmente.Standalone.Bytes.align_size
stride_of_message = refl

create-write-read_example :
    let (handle, y1) = create_buffer fresh_system true true zeros 1 in
    let (code, y2) = write_message y1 handle message in
    let (code', out, y3) = read_message y2 handle 65536 in
    (code ≡ success) × (code' ≡ success) × (out ≡ record { copied = message; actual_size = some 3 })
create-write-read_example =
    create-write-read fresh_system zeros 1 65536 message (omega arith) (omega arith) (omega arith)
      message-IsMessage (omega arith)

write_buffer-push_example :
    let (code, b', counter') = write_buffer buffer 0 message in
    (code ≡ success) × Queues b'.segments ((message ∷ []) ∷ [] ∷ [])
write_buffer-push_example =
    write_buffer-push buffer 0 message 0 (segment 0) ([] ∷ [] ∷ []) [] buffer-Queues selects_first
      refl refl message-IsMessage (omega (arith, stride_of_message))

read_buffer-pop_example :
    let b = (write_buffer buffer 0 message).1 in
    IsRead b 1 (pop ((message ∷ []) ∷ [] ∷ [])) (read_buffer b 1 65536)
read_buffer-pop_example =
    read_buffer-pop (write_buffer buffer 0 message).1 1 65536 (message ∷ []) ([] ∷ []) (omega arith)
      write_buffer-push_example.1

-- After handle 255 the search comes round to 1.
get_next_handle_lem_example : get_next_handle 255 ≡ some 1
get_next_handle_lem_example = get_next_handle_lem 255 (omega arith)

used-IsCounted_example : IsCounted (used buffer 0 (write message ∷ read 65536 ∷ read 10 ∷ []))
unfolding messages_in
used-IsCounted_example =
    used-IsCounted buffer 0 (write message ∷ read 65536 ∷ read 10 ∷ [])
      (record { balance = refl; pending = refl })

abbrev drained : Segment
drained = record {
  read_pos = 960;
  write_pos = 960;
  message_count = 0;
  active = true;
  bytes = zeros;
  size = 1024;
  segment_id = 0;
}

abbrev header : MessageHeader
header = record {
  magic = 0x554d5342;
  size = 3;
  sequence = 9;
  timestamp = 20;
  checksum = 4998;
  flags = 0;
}

drained-IsWrapping : IsWrapping drained message
unfolding decode from_bytes load take drop
drained-IsWrapping = record {
  message = message-IsMessage;
  drained = refl;
  count = refl;
  size_fits = omega arith;
  position_fits = omega arith;
  no_room = omega (arith, stride_of_message);
  before = omega (arith, stride_of_message);
  offset = omega arith;
  stale = omega arith;
}

wrap_strands_example :
    let s' = append_message drained header message in
    (is_full drained (stride 3) ≡ false)
    × ((b : Buffer) (counter i buffer_size : ℕ)
        → read_segment b counter i s' buffer_size
          ≡ (corrupted_data, no_output, fail_read b, counter))
    × ((n : ℕ) → n < 2 ^ 31 → is_full s' n ≡ true)
wrap_strands_example = wrap_strands drained message header drained-IsWrapping
