-- ===== src/Parallel/Engine.antt =====
-- src/parallel_throughput_engine.c: the engine, one ring for each of four lanes. The threads themselves
-- are the platform's; what a worker does with a ring is `parallel_ring_buffer_pop`.
use universal_multi_segmente.Prelude.{
  ℕ, zero, suc, ◌+◌, ◌-◌, ◌/◌, ◌%◌, ◌^◌, Bool, true, false, ◌||◌, Option, none, some, List, [], ◌∷◌,
  ltb, leb, ◌==◌, if◌then◌else◌, add_size, sub_size, length, get_or, set, replicate,
}
use universal_multi_segmente.Parallel.{
  WorkItem, RingBuffer, ring_buffer_size, parallel_ring_buffer_push,
}

pub data ThroughputStrategy : Type 0 where
  latency_optimized bandwidth_optimized balanced adaptive : ThroughputStrategy

abbrev pub max_worker_threads : ℕ
max_worker_threads = 16

abbrev pub default_batch_size : ℕ
default_batch_size = 128

-- `work_queue` is the index of the ring that the worker takes from, 0 where the pointer is null, and
-- `running` says that it has a thread.
pub record Worker : Type 0 where
  pub thread_id : ℕ
  pub cpu_core : ℕ
  pub active : Bool
  pub messages_processed : ℕ
  pub bytes_processed : ℕ
  pub work_queue : ℕ
  pub running : Bool

pub record Engine : Type 0 where
  pub num_workers : ℕ
  pub num_lanes : ℕ
  pub workers : List Worker
  pub lane_queues : List RingBuffer
  pub total_messages : ℕ
  pub total_bytes : ℕ
  pub total_errors : ℕ
  pub load_balance_strategy : ThroughputStrategy
  pub numa_aware : Bool
  pub cpu_affinity_enabled : Bool
  pub batch_size : ℕ
  pub prefetch_distance : ℕ

abbrev pub blank_item : WorkItem
blank_item = record {
  message_id = 0;
  lane_id = 0;
  priority = 0;
  size = 0;
  address = 0;
  timestamp = 0;
  language_id = 0;
  status = 0;
}

abbrev pub empty_ring : RingBuffer
empty_ring = record {
  head = 0;
  tail = 0;
  capacity = ring_buffer_size;
  mask = ring_buffer_size - 1;
  items = λ i. blank_item;
}

abbrev pub blank_worker : Worker
blank_worker = record {
  thread_id = 0;
  cpu_core = 0;
  active = false;
  messages_processed = 0;
  bytes_processed = 0;
  work_queue = 0;
  running = false;
}

-- The loop that sets the workers up, with the rounds that are left, `i`, and the zeroed workers behind
-- it.
unfoldable pub init_workers : ℕ → ℕ → List Worker → List Worker
init_workers zero i rest = rest
init_workers (suc n) i rest =
    record blank_worker { thread_id = i; cpu_core = i % 16; work_queue = i % 4 }
    ∷ init_workers n (i + 1) rest

unfoldable pub new_engine : ℕ → ThroughputStrategy → Engine
new_engine num_workers strategy = record {
  num_workers = num_workers;
  num_lanes = 4;
  workers = init_workers num_workers 0 (replicate (max_worker_threads - num_workers) blank_worker);
  lane_queues = replicate 4 empty_ring;
  total_messages = 0;
  total_bytes = 0;
  total_errors = 0;
  load_balance_strategy = strategy;
  numa_aware = false;
  cpu_affinity_enabled = false;
  batch_size = default_batch_size;
  prefetch_distance = 8;
}

-- `allocated` says that all four rings are.
unfoldable pub parallel_engine_init : ℕ → ThroughputStrategy → Bool → Option Engine
parallel_engine_init num_workers strategy allocated =
    if num_workers == 0 || ltb max_worker_threads num_workers
    then none
    else if allocated
    then some (new_engine num_workers strategy)
    else none

abbrev pub start_worker : Worker → Worker
start_worker w = record w { active = true; running = true }

-- The loop of the start, over the first `n` workers.
unfoldable pub start_first : ℕ → List Worker → List Worker
start_first zero ws = ws
start_first (suc n) [] = []
start_first (suc n) (w ∷ ws) = start_worker w ∷ start_first n ws

-- Every thread is created and has set its mark.
unfoldable pub parallel_engine_start : Engine → Engine
parallel_engine_start e = record e { workers = start_first e.num_workers e.workers }

abbrev pub stop_worker : Worker → Worker
stop_worker w = record w { active = false; running = false }

-- The loops over the first `n` workers.
unfoldable pub stop_first : ℕ → List Worker → List Worker
stop_first zero ws = ws
stop_first (suc n) [] = []
stop_first (suc n) (w ∷ ws) = stop_worker w ∷ stop_first n ws

unfoldable pub parallel_engine_stop : Engine → Engine
parallel_engine_stop e = record e { workers = stop_first e.num_workers e.workers }

-- A call of `parallel_submit_work` once its guards are passed.
unfoldable pub count_push : Engine → ℕ → ℕ → Bool × RingBuffer → Bool × Engine
count_push e lane_id size (true, r) = (
  true,
  record e { lane_queues = set e.lane_queues lane_id r; total_bytes = add_size e.total_bytes size },
)
count_push e lane_id size (false, r) =
    (false, record e { total_errors = add_size e.total_errors 1 })

abbrev pub ring_at : Engine → ℕ → RingBuffer
ring_at e lane_id = get_or e.lane_queues lane_id empty_ring

unfoldable pub submit_item : Engine → ℕ → WorkItem → Bool × Engine
submit_item e lane_id item =
    count_push (record e { total_messages = add_size e.total_messages 1 }) lane_id item.size
      (parallel_ring_buffer_push (ring_at e lane_id) item)

abbrev pub is_refused : Engine → ℕ → ℕ → ℕ → Bool
is_refused e lane_id address size = leb e.num_lanes lane_id || address == 0 || size == 0

-- The answer is true for 0 and false for -1.
unfoldable pub parallel_submit_work : Engine → ℕ → ℕ → ℕ → ℕ → ℕ → ℕ → Bool × Engine
parallel_submit_work e lane_id address size priority language_id now =
    if is_refused e lane_id address size
    then (false, e)
    else submit_item e lane_id (record {
      message_id = e.total_messages;
      lane_id = lane_id;
      priority = priority;
      size = size;
      address = address;
      timestamp = now;
      language_id = language_id;
      status = 0;
    })

abbrev pub stamped : WorkItem → ℕ → ℕ → ℕ → WorkItem
stamped item message_id lane_id now = record item {
  message_id = message_id;
  lane_id = lane_id;
  timestamp = now;
  status = 0;
}

-- The loop over the batch, with what was submitted so far.
unfoldable pub submit_each : Engine → ℕ → List WorkItem → ℕ → ℕ → ℕ × Engine
submit_each e lane_id [] now submitted = (submitted, e)
submit_each e lane_id (item ∷ items) now submitted =
    let (pushed, e') = submit_item e lane_id (stamped item e.total_messages lane_id now) in
    let rest = submit_each e' lane_id items now (submitted + 1) in
    if pushed then rest else (submitted, e')

-- The answer is none for -1. The clock reads `now` throughout.
unfoldable pub parallel_submit_batch : Engine → ℕ → List WorkItem → ℕ → Option ℕ × Engine
parallel_submit_batch e lane_id items now =
    if leb e.num_lanes lane_id || length items == 0
    then (none, e)
    else (let (submitted, e') = submit_each e lane_id items now 0 in (some submitted, e'))

-- The loop of `parallel_get_performance`, over the first `n` workers.
unfoldable pub processed : ℕ → List Worker → ℕ × ℕ → ℕ × ℕ
processed zero ws sums = sums
processed (suc n) [] sums = sums
processed (suc n) (w ∷ ws) (messages, bytes) =
    processed n ws (add_size messages w.messages_processed, add_size bytes w.bytes_processed)

-- The fields of the profile that are not fixed.
unfoldable pub parallel_get_performance : Engine → ℕ × ℕ
parallel_get_performance e =
    let (messages, bytes) = processed e.num_workers e.workers (0, 0) in
    (messages % 2 ^ 32, bytes / 1000000 % 2 ^ 32)

unfoldable pub parallel_get_queue_depth : Engine → ℕ → ℕ
parallel_get_queue_depth e lane_id =
    if leb e.num_lanes lane_id
    then 0
    else (let r = ring_at e lane_id in sub_size r.tail r.head % 2 ^ 32)

unfoldable pub parallel_adjust_workers : Engine → ℕ → Bool × Engine
parallel_adjust_workers e new_count =
    if new_count == 0 || ltb max_worker_threads new_count
    then (false, e)
    else (true, record e { num_workers = new_count })

unfoldable pub strategy_batch_size : ThroughputStrategy → ℕ
strategy_batch_size latency_optimized = 32
strategy_batch_size bandwidth_optimized = 256
strategy_batch_size balanced = 128
strategy_batch_size adaptive = 64

unfoldable pub parallel_set_strategy : Engine → ThroughputStrategy → Engine
parallel_set_strategy e strategy = record e {
  load_balance_strategy = strategy;
  batch_size = strategy_batch_size strategy;
}

unfoldable pub parallel_tune_batch_size : Engine → ℕ → Bool × Engine
parallel_tune_batch_size e new_size =
    if new_size == 0 then (false, e) else (true, record e { batch_size = new_size })

unfoldable pub parallel_enable_numa_awareness : Engine → Engine
parallel_enable_numa_awareness e = record e { numa_aware = true }

unfoldable pub parallel_set_cpu_affinity : Engine → ℕ → ℕ → Bool × Engine
parallel_set_cpu_affinity e worker_id cpu_core =
    if leb e.num_workers worker_id then (false, e) else (
      true,
      record e {
        workers =
            set e.workers worker_id
              (record (get_or e.workers worker_id blank_worker) { cpu_core = cpu_core });
        cpu_affinity_enabled = true;
      },
    )
