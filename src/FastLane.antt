-- ===== src/FastLane.antt =====
-- src/fast_lane.c and include/fast_lane.h: four lanes, each a ring of slots of one size. The latencies,
-- which are doubles, and what is derived from them have no field. Allocation succeeds.
pub mod Routing
pub mod Slots
use universal_multi_segmente.Prelude.{
  ℕ, ◌+◌, ◌*◌, ◌%◌, Bool, true, false, ◌&&◌, ◌||◌, Option, none, some, List, [], ◌∷◌, ltb, leb,
  ◌==◌, if◌then◌else◌, add_size, sub_size, add32, sub32, length,
}
use universal_multi_segmente.Standalone.Bytes.{store, load, from_bytes}

pub data LaneType : Type 0 where
  express bulk priority streaming : LaneType

-- `bytes` gives the byte at each offset of the ring buffer.
pub record FastLane : Type 0 where
  pub head : ℕ
  pub tail : ℕ
  pub message_count : ℕ
  pub bytes_transferred : ℕ
  pub type : LaneType
  pub rank : ℕ
  pub capacity : ℕ
  pub gpu_preferred : Bool
  pub bytes : ℕ → ℕ
  pub slot_size : ℕ
  pub total_messages : ℕ
  pub total_bytes : ℕ

abbrev pub lane_capacity : LaneType → ℕ
lane_capacity express = 1024
lane_capacity bulk = 8192
lane_capacity priority = 512
lane_capacity streaming = 16384

abbrev pub lane_slot_size : LaneType → ℕ
lane_slot_size express = 256
lane_slot_size bulk = 64 * 1024
lane_slot_size priority = 1024
lane_slot_size streaming = 4096

-- The field `priority`.
abbrev pub lane_rank : LaneType → ℕ
lane_rank express = 3
lane_rank bulk = 1
lane_rank priority = 4
lane_rank streaming = 2

abbrev pub lane_gpu_preferred : LaneType → Bool
lane_gpu_preferred express = false
lane_gpu_preferred bulk = true
lane_gpu_preferred priority = false
lane_gpu_preferred streaming = true

-- A lane as `fast_lane_init` leaves it.
unfoldable pub init_lane : LaneType → FastLane
init_lane t = record {
  head = 0;
  tail = 0;
  message_count = 0;
  bytes_transferred = 0;
  type = t;
  rank = lane_rank t;
  capacity = lane_capacity t;
  gpu_preferred = lane_gpu_preferred t;
  bytes = λ o. 0;
  slot_size = lane_slot_size t;
  total_messages = 0;
  total_bytes = 0;
}

unfoldable pub select_optimal : ℕ → ℕ → Bool → LaneType
select_optimal message_size rank latency_critical =
    if leb 3 rank
    then priority
    else if latency_critical && leb message_size 256
    then express
    else if leb 4096 message_size
    then bulk
    else streaming

-- The wait for a slot. The list has the values of the tail that its loop reads until the time is up;
-- other threads may move the tail between them.
unfoldable pub is_free : ℕ → ℕ → List ℕ → Bool
is_free slot_index capacity [] = false
is_free slot_index capacity (tail ∷ tails) =
    if leb capacity (sub_size slot_index tail) then is_free slot_index capacity tails else true

-- The message is copied to a slot and counted.
unfoldable pub fill_slot : FastLane → ℕ → List ℕ → FastLane
fill_slot l slot_index message = record l {
  bytes = store l.bytes (slot_index * l.slot_size) message;
  message_count = add32 l.message_count 1;
  bytes_transferred = add_size l.bytes_transferred (length message);
  total_messages = add_size l.total_messages 1;
  total_bytes = add_size l.total_bytes (length message);
}

-- `fast_lane_submit` on its lane; the head has moved even where the wait fails.
unfoldable pub submit : FastLane → List ℕ → List ℕ → Bool × FastLane
submit l tails message =
    if length message == 0 || ltb l.slot_size (length message)
    then (false, l)
    else (let slot_index = l.head % l.capacity in
        let moved = record l { head = add_size l.head 1 } in
        if is_free slot_index l.capacity tails
        then (true, fill_slot moved slot_index message)
        else (false, moved))

-- `fast_lane_drain` with the size that stands in the slot. The result is the block, where `malloc`
-- gives one, and `*size` is its length, or 0.
unfoldable pub drain_sized : FastLane → Bool → ℕ → ℕ → Option (List ℕ) × FastLane
drain_sized l allocated offset message_size =
    if message_size == 0 || ltb (sub_size l.slot_size 4) message_size
    then (none, record l { tail = add_size l.tail 1 })
    else if allocated
    then (
      some (load l.bytes (offset + 4) message_size),
      record l { tail = add_size l.tail 1; message_count = sub32 l.message_count 1 },
    )
    else (none, l)

-- `fast_lane_drain` on its lane.
unfoldable pub drain : FastLane → Bool → Option (List ℕ) × FastLane
drain l allocated =
    if leb l.head l.tail
    then (none, l)
    else (let offset = l.tail % l.capacity * l.slot_size in
        drain_sized l allocated offset (from_bytes (load l.bytes offset 4)))
