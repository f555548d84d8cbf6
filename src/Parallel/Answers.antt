-- ===== src/Parallel/Answers.antt =====
-- What `umsbb_submit_to` of src/umsbb_parallel_impl.c answers where the parallel engine is on.
use universal_multi_segmente.Prelude.{
  ℕ, ◌%◌, ◌^◌, ◌≤◌, ◌<◌, ◌≡◌, refl, ◌≢◌, ◌⊎◌, inl, inr, Bool, true, false, ◌||◌, some, arith, ltb,
  ◌==◌, Bool-cases, add_size, sub_size, set, update,
}
use Prim.Native.Nat.{bit_and}
use universal_multi_segmente.Parallel.{WorkItem, RingBuffer, parallel_ring_buffer_push}
use universal_multi_segmente.Parallel.Engine.{
  Engine, ring_at, parallel_submit_work, submit_item, count_push, is_refused,
}
use universal_multi_segmente.Parallel.Front.{
  ParallelBus, submit_to, submit_counted, submit_parallel, submit_with, count_submitted, compared,
  count_language,
}

-- The item of one call of `parallel_submit_work`.
abbrev pub offered_item : Engine → ℕ → ℕ → ℕ → ℕ → ℕ → ℕ → WorkItem
offered_item e lane_id address size priority language_id now = record {
  message_id = e.total_messages;
  lane_id = lane_id;
  priority = priority;
  size = size;
  address = address;
  timestamp = now;
  language_id = language_id;
  status = 0;
}

-- The places of a ring in use with one item more.
abbrev pub next_depth : RingBuffer → ℕ
next_depth r = sub_size (add_size r.tail 1) r.head

-- The engine with the item in the ring.
abbrev pub accepted_engine : Engine → ℕ → WorkItem → Engine
accepted_engine e lane_id item =
    let r = ring_at e lane_id in
    record e {
      lane_queues = set e.lane_queues lane_id (record r {
        items = update r.items (bit_and r.tail r.mask) item;
        tail = add_size r.tail 1;
      });
      total_messages = add_size e.total_messages 1;
      total_bytes = add_size e.total_bytes item.size;
    }

-- The engine that has counted the item as an error.
abbrev pub refused_engine : Engine → Engine
refused_engine e = record e {
  total_messages = add_size e.total_messages 1;
  total_errors = add_size e.total_errors 1;
}

submit_item-accepts :
    (e : Engine) (lane_id : ℕ) (item : WorkItem)
    → next_depth (ring_at e lane_id) ≤ (ring_at e lane_id).capacity
    → submit_item e lane_id item ≡ (true, accepted_engine e lane_id item)
unfolding submit_item parallel_ring_buffer_push count_push
submit_item-accepts e lane_id item h =
    let r = ring_at e lane_id in
    let f : ltb r.capacity (next_depth r) ≡ false = ground arith in rw f refl

submit_item-refuses :
    (e : Engine) (lane_id : ℕ) (item : WorkItem)
    → (ring_at e lane_id).capacity < next_depth (ring_at e lane_id)
    → submit_item e lane_id item ≡ (false, refused_engine e)
unfolding submit_item parallel_ring_buffer_push count_push
submit_item-refuses e lane_id item h =
    let r = ring_at e lane_id in
    let f : ltb r.capacity (next_depth r) ≡ true = ground arith in rw f refl

-- The bus that has counted the call, with the engine that it leaves.
abbrev pub counted_bus : ParallelBus → Engine → ParallelBus
counted_bus b e = record b { engine = some e; total_operations = add_size b.total_operations 1 }

-- The same with the accepted message counted again, as one of the language 0.
abbrev pub recounted_bus : ParallelBus → Engine → ParallelBus
recounted_bus b e = record b {
  engine = some e;
  total_operations = add_size (add_size b.total_operations 1) 1;
  language_performance_stats = count_language b.language_performance_stats 0;
}

submit_to-submits :
    (b : ParallelBus) (e : Engine) (lane_index address size now : ℕ) (answer : Bool) (e' : Engine)
    → b.engine ≡ some e
    → lane_index < e.num_lanes
    → e.num_lanes ≤ 2 ^ 32
    → address ≢ 0
    → size ≢ 0
    → size < 2 ^ 32
    → submit_item e lane_index (offered_item e lane_index address size 100 0 now) ≡ (answer, e')
    → submit_to b lane_index address size now
      ≡ compared (count_submitted (counted_bus b e) 0 (answer, e'))
unfolding submit_to submit_counted submit_parallel submit_with parallel_submit_work
submit_to-submits b e lane_index address size now answer e' on inside few at some_bytes short
      pushed =
    let f : (address == 0 || size == 0) ≡ false = ground arith in
    let g : (address == 0) ≡ false = ground arith in
    let k : is_refused e lane_index address size ≡ false = ground arith in
    let i : lane_index % 2 ^ 32 ≡ lane_index = omega arith in
    let j : size % 2 ^ 32 ≡ size = omega arith in rw (f, on, i, j, k, g, pushed) refl

-- With the engine on, a message that the lane's ring has room for goes into the ring and is answered
-- false, and one that it has no room for goes nowhere and is answered true.
pub submit_to-inverts :
    (b : ParallelBus) (e : Engine) (lane_index address size now : ℕ)
    → b.engine ≡ some e
    → lane_index < e.num_lanes
    → e.num_lanes ≤ 2 ^ 32
    → address ≢ 0
    → size ≢ 0
    → size < 2 ^ 32
    → let r = ring_at e lane_index in
      let item = offered_item e lane_index address size 100 0 now in
      ((next_depth r ≤ r.capacity)
        × (submit_to b lane_index address size now
            ≡ (false, recounted_bus b (accepted_engine e lane_index item))))
      ⊎ ((r.capacity < next_depth r)
          × (submit_to b lane_index address size now ≡ (true, counted_bus b (refused_engine e))))
unfolding compared count_submitted
submit_to-inverts b e lane_index address size now on inside few at some_bytes short =
    let r = ring_at e lane_index in
    let item = offered_item e lane_index address size 100 0 now in
    elim (Bool-cases (ltb r.capacity (next_depth r))) [
      | inl f ↦
          let full : r.capacity < next_depth r = ground arith in
          inr (
            full,
            submit_to-submits b e lane_index address size now false (refused_engine e) on inside few
                at some_bytes short (submit_item-refuses e lane_index item full),
          )
      | inr f ↦
          let room : next_depth r ≤ r.capacity = ground arith in
          inl (
            room,
            submit_to-submits b e lane_index address size now true
                (accepted_engine e lane_index item) on inside few at some_bytes short
                (submit_item-accepts e lane_index item room),
          )
    ]
