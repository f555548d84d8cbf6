-- ===== src/Tests/WasmCore.antt =====
-- The theorems on src/umsbb_wasm_core.c at concrete states.
use universal_multi_segmente.Prelude.{
  ℕ, zero, suc, ◌+◌, ◌≤◌, ◌<◌, ◌≡◌, ◌≢◌, refl, inl, inr, true, sym, subst, ◌∙◌, ◌-◌, ◌^◌, some,
  List, [], ◌∷◌, arith, update, length, replicate,
}
use mathlib.Core.Option.{some-injective}
use universal_multi_segmente.Standalone.Bytes.{load}
use universal_multi_segmente.WasmCore.{
  max_message_size, header_size, success, Answer, number, code, Segment, Buffer, System, start,
}
use universal_multi_segmente.WasmCore.Words.{message_header}
use universal_multi_segmente.WasmCore.Buffers.{
  create_at, create_allocated, create_filled, allocate_segments, add_segment, init_system,
  create_buffer, first_free, new_buffer, empty_segment,
}
use universal_multi_segmente.WasmCore.Writing.{copy_message, write_buffer, write_message}
use universal_multi_segmente.WasmCore.Reading.{read_message}
use universal_multi_segmente.WasmCore.Checksums.{Bytes, IsMessage}
use universal_multi_segmente.WasmCore.Stored.{IsQueue, extended-IsQueue}
use universal_multi_segmente.WasmCore.Layout.{Messages, at, ClearOf, Holds, IsBuffer}
use universal_multi_segmente.WasmCore.Pushing.{next_index}
use universal_multi_segmente.WasmCore.Invariant.{slot, IsSystem}
use universal_multi_segmente.WasmCore.Memory.{align_size, wasm_malloc}
use universal_multi_segmente.WasmCore.Slots.{IsCreated, create_buffer-IsCreated}
use universal_multi_segmente.WasmCore.Writes.{IsWritten, write_message-IsWritten}
use universal_multi_segmente.WasmCore.Reads.{IsTaken, read_message-IsTaken}
use universal_multi_segmente.WasmCore.Runs.{
  Reach, begin, call, init, create, read, Reach-IsSystem, blank-IsSystem,
}
use universal_multi_segmente.WasmCore.Delivery.{write-read}
use universal_multi_segmente.WasmCore.Faults.{
  held_messages, write_buffer_discards, write_buffer_overruns,
}
use universal_multi_segmente.WasmCore.Unbacked.{unbacked, create_buffer-unbacked}

abbrev message : List ℕ
message = 5 ∷ 6 ∷ 7 ∷ []

message-Bytes : Bytes message
message-Bytes = omega arith

message-IsMessage : IsMessage message
message-IsMessage = record { nonempty = omega arith; short = omega arith; bytes = message-Bytes }

abbrev segment : ℕ → ℕ → Segment
segment base capacity = record empty_segment { base = base; capacity = capacity }

segment-IsQueue :
    (d : ℕ → ℕ) (base capacity : ℕ) → capacity < 1024 → IsQueue d (segment base capacity) []
segment-IsQueue d base capacity h = record {
  stored = refl;
  counted = refl;
  within = omega arith;
  small = omega arith;
}

-- Segments of 10 and of 24 bytes. A message of three bytes takes 19.
abbrev buffer : Segment → Buffer
buffer s = record {
  segments = segment 0 10 ∷ s ∷ [];
  current_write_segment = 0;
  current_read_segment = 0;
  segment_size = 24;
  num_segments = 2;
  stats = record {
    total_messages_written = 1;
    total_messages_read = 0;
    total_bytes_written = 3;
    total_bytes_read = 0;
    pending_messages = 1;
    active_segments = 0;
    peak_pending_messages = 1;
  };
  is_initialized = true;
}

buffer-IsBuffer : (s : Segment) → IsBuffer (buffer s)
buffer-IsBuffer s = record {
  writes = omega arith;
  reads = omega arith;
  present = omega arith;
  few = omega arith;
}

blank-ClearOf : (s : Segment) → ClearOf (segment 0 0) s × ClearOf s (segment 0 0)
blank-ClearOf s = (inl (omega arith), inr (omega arith))

buffer-apart :
    (s : Segment)
    → s.base ≡ 16
    → (i j : ℕ) → i ≢ j
    → ClearOf (at (buffer s).segments i) (at (buffer s).segments j)
buffer-apart s e zero zero n = absurd (n refl)
buffer-apart s e zero (suc zero) n = inl (omega arith)
buffer-apart s e zero (suc (suc j)) n = (blank-ClearOf (segment 0 10)).1
buffer-apart s e (suc zero) zero n = inr (omega arith)
buffer-apart s e (suc zero) (suc zero) n = absurd (n refl)
buffer-apart s e (suc zero) (suc (suc j)) n = (blank-ClearOf s).1
buffer-apart s e (suc (suc i)) j n = (blank-ClearOf (at (buffer s).segments j)).0

abbrev in_second : Messages → ℕ → Messages
in_second q zero = []
in_second q (suc zero) = q
in_second q (suc (suc i)) = []

buffer-Holds :
    (d : ℕ → ℕ) (s : Segment) (q : Messages)
    → s.base ≡ 16
    → IsQueue d s q
    → Holds (buffer s).segments d (in_second q)
buffer-Holds d s q e v = record { queues = queues; apart = buffer-apart s e }
  where
    queues : (i : ℕ) → IsQueue d (at (buffer s).segments i) (in_second q i)
    queues zero = segment-IsQueue d 0 10 (omega arith)
    queues (suc zero) = v
    queues (suc (suc i)) = segment-IsQueue d 0 0 (omega arith)

abbrev zeros : ℕ → ℕ
zeros o = 0

abbrev filled : Segment
filled = record { base = 16; write_pos = 19; read_pos = 0; capacity = 24; message_count = 1 }

filled_bytes : ℕ → ℕ
filled_bytes = copy_message zeros 16 (message_header 1 message) message

filled-IsQueue : IsQueue filled_bytes filled (message ∷ [])
unfolding filled_bytes
filled-IsQueue =
    extended-IsQueue (segment-IsQueue zeros 16 24 (omega arith)) 1 message (omega arith)
      message-IsMessage (omega arith)

write_buffer_discards_example :
    let b = buffer filled in
    let (b', d') = write_buffer b filled_bytes 2 message in
    let s = at b'.segments 1 in
    (s.message_count ≡ 1)
    × (s.read_pos ≡ 0)
    × (load d' (s.base + header_size) 3 ≡ message)
    × (b'.stats.pending_messages ≡ held_messages b'.segments + (at b.segments 1).message_count)
write_buffer_discards_example =
    write_buffer_discards (buffer filled) filled_bytes 2 message (in_second (message ∷ []))
      (buffer-Holds filled_bytes filled (message ∷ []) refl filled-IsQueue) (buffer-IsBuffer filled)
      message-IsMessage refl refl (unfold held_messages in refl)
      (unfold held_messages in omega arith)

write_buffer_overruns_example :
    let (b', d') = write_buffer (buffer (segment 16 10)) zeros 2 message in
    let s = at b'.segments 1 in
    (s.base ≡ 16)
    × (s.capacity ≡ 10)
    × (s.write_pos ≡ 19)
    × (s.capacity < s.write_pos)
    × (load d' (s.base + header_size) 3 ≡ message)
write_buffer_overruns_example =
    write_buffer_overruns (buffer (segment 16 10)) zeros 2 message (in_second [])
      (buffer-Holds zeros (segment 16 10) [] refl (segment-IsQueue zeros 16 10 (omega arith)))
      (buffer-IsBuffer (segment 16 10)) message-IsMessage refl (omega arith)

abbrev no_queues : ℕ → ℕ → Messages
no_queues id i = []

abbrev idle : System
idle = record start { initialized = true }

idle-IsSystem : IsSystem idle no_queues
idle-IsSystem = blank-IsSystem idle (record { aligned = refl; within = omega arith }) refl

idle_creates : IsCreated idle no_queues (create_buffer idle 64 2)
idle_creates = create_buffer-IsCreated idle no_queues 64 2 idle-IsSystem (omega arith)

-- A system with one buffer of two segments of 64 bytes, and nothing in it.
system : System
system = (create_buffer idle 64 2).1

small : Buffer
small = new_buffer 64 2 (segment 240 64 ∷ segment 304 64 ∷ [])

system_slot : slot system.buffers 0 ≡ some small
unfolding system small create_buffer create_at create_allocated create_filled first_free
    allocate_segments add_segment wasm_malloc align_size
system_slot = refl

system_initialized : system.initialized ≡ true
unfolding system create_buffer create_at create_allocated create_filled first_free allocate_segments
    add_segment wasm_malloc align_size
system_initialized = refl

system_id : (create_buffer idle 64 2).0 ≡ number 0
unfolding create_buffer create_at create_allocated create_filled first_free allocate_segments
    add_segment wasm_malloc align_size
system_id = refl

number-injective : (a b : ℕ) → number a ≡ number b → a ≡ b
number-injective a b e = cc

system-IsSystem : IsSystem system (update no_queues 0 (λ i. []))
unfolding system
system-IsSystem = of (create_buffer idle 64 2) system_id idle_creates
  where
    of :
        (r : Answer × System)
        → r.0 ≡ number 0
        → IsCreated idle no_queues r
        → IsSystem r.1 (update no_queues 0 (λ i. []))
    of (number id, y) e c =
        subst (λ k. IsSystem y (update no_queues k (λ i. []))) (number-injective id 0 e) c.2
    of (code x, y) e c = cc

abbrev queues : ℕ → ℕ → Messages
queues = update no_queues 0 (λ i. [])

small_fits : header_size + length message ≤ (at small.segments (next_index small)).capacity
unfolding small new_buffer
small_fits = omega arith

fits :
    (b : Buffer)
    → slot system.buffers 0 ≡ some b
    → header_size + length message ≤ (at b.segments (next_index b)).capacity
fits b e =
    subst (λ x. header_size + length message ≤ (at x.segments (next_index x)).capacity)
      (some-injective small b (sym system_slot ∙ e)) small_fits

write_message-IsWritten_example : IsWritten system queues 0 message (write_message system 0 message)
write_message-IsWritten_example =
    write_message-IsWritten system queues 0 message system-IsSystem message-Bytes fits

read_message-IsTaken_example : IsTaken system queues 0 (read_message system 0 max_message_size)
read_message-IsTaken_example =
    read_message-IsTaken system queues 0 max_message_size system-IsSystem (omega arith)

write-read_example :
    let (result, y') = write_message system 0 message in
    let (answer, copied, y'') = read_message y' 0 max_message_size in
    (result ≡ success) × (answer ≡ number 3) × (copied ≡ message)
write-read_example =
    write-read system queues 0 max_message_size small message system-IsSystem system_initialized
      system_slot (λ i. refl) message-IsMessage small_fits (omega arith)

-- The program starts, is initialised, gets a buffer, and is read.
used : Reach (read_message (create_buffer (init_system start).1 64 2).1 0 max_message_size).2
used =
    call (call (call begin (init start)) (create (init_system start).1 64 2 (omega arith)))
      (read (create_buffer (init_system start).1 64 2).1 0 max_message_size (omega arith))

Reach-IsSystem_example :
    (qs : ℕ → ℕ → Messages) × IsSystem
      (read_message (create_buffer (init_system start).1 64 2).1 0 max_message_size).2
      qs
Reach-IsSystem_example = Reach-IsSystem used

create_buffer-unbacked_example :
    let (answer, y') = create_buffer idle (2 ^ 32 - 1) 2 in
    (answer ≡ number 0)
    × ((base : ℕ) × (slot y'.buffers 0
          ≡ some (new_buffer (2 ^ 32 - 1) 2 (replicate 2 (unbacked base (2 ^ 32 - 1))))))
create_buffer-unbacked_example =
    create_buffer-unbacked idle (2 ^ 32 - 1) 2 0 refl (omega arith) (omega arith) (omega arith)
      (omega arith) (unfold first_free in refl) (omega arith) (omega arith)
