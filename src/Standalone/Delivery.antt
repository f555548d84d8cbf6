-- ===== src/Standalone/Delivery.antt =====
-- A message through the whole of src/umsbb_complete_core.c: creating a buffer, writing and reading.
use universal_multi_segmente.Prelude.{
  ℕ, zero, suc, ◌+◌, ◌*◌, ◌/◌, ◌^◌, ◌≤◌, ◌<◌, ◌≡◌, refl, true, some, List, [], ◌∷◌, arith, length,
  get_elem?, replicate,
}
use universal_multi_segmente.Standalone.{success, max_message_size, segment_count, Buffer, System}
use universal_multi_segmente.Standalone.Bytes.{align_size}
use universal_multi_segmente.Standalone.Messages.{
  select_write_segment, least_pending, write_buffer, write_message, put, read_message,
}
use universal_multi_segmente.Standalone.Registry.{
  init_segment, init_segments, new_buffer, create_buffer,
}
use universal_multi_segmente.Standalone.Stored.{IsMessage, stride_bounds}
use universal_multi_segmente.Standalone.Queue.{IsQueue}
use universal_multi_segmente.Standalone.Queues.{Queues, write_buffer-push}
use universal_multi_segmente.Standalone.Reading.{pop, read_buffer-pop}
use universal_multi_segmente.Standalone.Handles.{
  next_after, next_after-positive, next_after-small, register, create_buffer-grants,
}
use universal_multi_segmente.Standalone.Registered.{
  write_message-IsRegistered, read_message-IsRegistered, write-IsRegistered, register-IsRegistered,
}

init_segment-IsQueue :
    (i : ℕ) (memory : ℕ → ℕ) (size : ℕ) → size < 2 ^ 31 → IsQueue (init_segment i memory size) []
unfolding init_segment
init_segment-IsQueue i memory size h = record {
  stored = refl;
  counted = refl;
  within = omega arith;
  small = h;
  active = refl;
}

init_segments-Queues :
    (n i : ℕ) (memory : ℕ → ℕ) (size : ℕ)
    → size < 2 ^ 31
    → Queues (init_segments n i memory size) (replicate n [])
unfolding init_segments
init_segments-Queues zero i memory size h = tt
init_segments-Queues (suc n) i memory size h =
    (init_segment-IsQueue i _ size h, init_segments-Queues n (i + 1) memory size h)

abbrev segment_size : ℕ → ℕ
segment_size size_mb = align_size (size_mb * 1024 * 1024 / segment_count)

segment_size_bounds :
    (size_mb : ℕ)
    → 1 ≤ size_mb
    → size_mb ≤ 64
    → (131072 ≤ segment_size size_mb) × (segment_size size_mb < 2 ^ 31)
unfolding align_size
segment_size_bounds size_mb lo hi = (omega arith, omega arith)

module _ (handle size_mb : ℕ) (memory : ℕ → ℕ) (lo : 1 ≤ size_mb) (hi : size_mb ≤ 64) where
  fresh : Buffer
  fresh = new_buffer handle size_mb memory

  fresh-Queues : Queues fresh.segments (replicate 8 [])
  unfolding fresh new_buffer
  fresh-Queues =
      init_segments-Queues 8 0 memory (segment_size size_mb) (segment_size_bounds size_mb lo hi).1

  fresh_selected : select_write_segment fresh.segments ≡ 0
  unfolding fresh new_buffer init_segments init_segment select_write_segment least_pending
  fresh_selected = refl

  fresh_segment :
      get_elem? fresh.segments 0
      ≡ some (init_segment 0 (λ o. memory (0 * segment_size size_mb + o)) (segment_size size_mb))
  unfolding fresh new_buffer init_segments
  fresh_segment = refl

  -- The first write to a fresh buffer.
  fresh_write :
      (counter : ℕ) (m : List ℕ)
      → IsMessage m
      → let (code, b, counter') = write_buffer fresh counter m in
        (code ≡ success) × Queues b.segments ((m ∷ []) ∷ replicate 7 [])
  fresh_write counter m v =
      write_buffer-push fresh counter m 0
        (init_segment 0 (λ o. memory (0 * segment_size size_mb + o)) (segment_size size_mb))
        (replicate 8 []) [] fresh-Queues fresh_selected fresh_segment refl v
        (unfold init_segment in
          omega
            (arith, segment_size_bounds size_mb lo hi, stride_bounds (length m) v.short, v.short))

-- In a system whose last handle is a 32-bit number, a message of 1 to 65,536 bytes that is written
-- to a new buffer of 1 to 64 MB is what a read with room for the longest message then gives, with
-- its size.
pub create-write-read :
    (y : System) (memory : ℕ → ℕ) (size_mb buffer_size : ℕ) (m : List ℕ)
    → y.next_handle < 2 ^ 32
    → 1 ≤ size_mb
    → size_mb ≤ 64
    → IsMessage m
    → max_message_size ≤ buffer_size
    → let (handle, y1) = create_buffer y true true memory size_mb in
      let (code, y2) = write_message y1 handle m in
      let (code', out, y3) = read_message y2 handle buffer_size in
      (code ≡ success)
      × (code' ≡ success)
      × (out ≡ record { copied = m; actual_size = some (length m) })
unfolding fresh pop
create-write-read y memory size_mb buffer_size m n lo hi v k =
    let handle = next_after y.next_handle in
    let b = new_buffer handle size_mb memory in
    let r1 =
      register-IsRegistered y handle size_mb memory (next_after-positive y.next_handle)
        (next_after-small y.next_handle) in
    let w = fresh_write handle size_mb memory lo hi y.counter m v in
    let r2 = write-IsRegistered r1 y.counter m in
    let b2 = (write_buffer b y.counter m).1 in
    let time = (put (register y handle b) handle b2 (write_buffer b y.counter m).2).counter in
    let r = read_buffer-pop b2 time buffer_size (m ∷ []) (replicate 7 []) k w.1 in
    rw (create_buffer-grants y memory size_mb n lo hi) (
      rw (write_message-IsRegistered m r1 v)
        (rw (read_message-IsRegistered buffer_size r2 (omega (arith, k))) (w.0, r.0, r.1)))
