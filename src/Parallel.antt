-- ===== src/Parallel.antt =====
-- include/parallel_throughput_engine.h: the rings by which work goes from producers to worker threads,
-- whole calls and their single accesses to shared memory.
pub mod Engine
pub mod Front
pub mod Masks
pub mod Interleaving
pub mod Fifo
pub mod Race
pub mod Answers
use Prim.Native.Nat.{bit_and}
use universal_multi_segmente.Prelude.{
  ℕ, Bool, true, false, Option, none, some, ltb, ◌==◌, if◌then◌else◌, add_size, sub_size, update,
}

-- `address` is the pointer `data`.
pub record WorkItem : Type 0 where
  pub message_id : ℕ
  pub lane_id : ℕ
  pub priority : ℕ
  pub size : ℕ
  pub address : ℕ
  pub timestamp : ℕ
  pub language_id : ℕ
  pub status : ℕ

pub record RingBuffer : Type 0 where
  pub head : ℕ
  pub tail : ℕ
  pub capacity : ℕ
  pub mask : ℕ
  pub items : ℕ → WorkItem

abbrev pub ring_buffer_size : ℕ
ring_buffer_size = 4096

unfoldable pub parallel_ring_buffer_push : RingBuffer → WorkItem → Bool × RingBuffer
parallel_ring_buffer_push r item =
    let next_tail = add_size r.tail 1 in
    if ltb r.capacity (sub_size next_tail r.head)
    then (false, r)
    else (true, record r { items = update r.items (bit_and r.tail r.mask) item; tail = next_tail })

unfoldable pub parallel_ring_buffer_pop : RingBuffer → Option WorkItem × RingBuffer
parallel_ring_buffer_pop r =
    if r.head == r.tail
    then (none, r)
    else (some (r.items (bit_and r.head r.mask)), record r { head = add_size r.head 1 })

-- A push between its accesses: nothing read; the tail read and the test passed; the item written.
pub data Producer : Type 0 where
  idle : Producer
  claimed : ℕ → Producer
  written : ℕ → Producer

-- A pop between its accesses: nothing read; the head read and the test passed; the item copied.
pub data Consumer : Type 0 where
  idle : Consumer
  loaded : ℕ → Consumer
  copied : ℕ → WorkItem → Consumer

-- The two loads of a push and its test.
unfoldable pub claim_slot : RingBuffer → Producer
claim_slot r =
    if ltb r.capacity (sub_size (add_size r.tail 1) r.head) then Producer.idle else claimed r.tail

unfoldable pub write_item : RingBuffer → ℕ → WorkItem → RingBuffer
write_item r tail item = record r { items = update r.items (bit_and tail r.mask) item }

unfoldable pub publish : RingBuffer → ℕ → RingBuffer
publish r tail = record r { tail = add_size tail 1 }

-- The two loads of a pop and its test.
unfoldable pub load_head : RingBuffer → Consumer
load_head r = if r.head == r.tail then Consumer.idle else loaded r.head

unfoldable pub copy_item : RingBuffer → ℕ → Consumer
copy_item r head = copied head (r.items (bit_and head r.mask))

unfoldable pub free_slot : RingBuffer → ℕ → RingBuffer
free_slot r head = record r { head = add_size head 1 }
