-- ===== src/Parallel/Front.antt =====
-- src/umsbb_parallel_impl.c: the bus that hands its messages to the parallel engine. Whether the
-- engine's rings are allocated and its threads started is an argument; a null pointer is 0. What the
-- code marks as a mock with a fixed answer is left out, and so are the metrics, which are doubles.
use universal_multi_segmente.Prelude.{
  ℕ, ◌%◌, ◌^◌, Bool, true, false, not, ◌&&◌, ◌||◌, Option, none, some, List, [], ◌∷◌, ltb, ◌==◌,
  if◌then◌else◌, add_size, add32, mul32, length, get_or, set, replicate,
}
use universal_multi_segmente.Parallel.Engine.{
  ThroughputStrategy, balanced, Engine, parallel_engine_init, parallel_engine_start,
  parallel_submit_work, parallel_adjust_workers, parallel_tune_batch_size,
}

abbrev pub lang_count : ℕ
lang_count = 6

-- The engine is none before it is enabled and after it is destroyed, when its struct is all zero.
pub record ParallelBus : Type 0 where
  pub buffer_capacity : ℕ
  pub segment_count : ℕ
  pub engine : Option Engine
  pub worker_thread_count : ℕ
  pub current_strategy : ThroughputStrategy
  pub language_performance_stats : List ℕ
  pub total_operations : ℕ
  pub last_update_time : ℕ

unfoldable pub parallel_bus_init : ℕ → ℕ → ℕ → ParallelBus
parallel_bus_init buffer_capacity segment_count now = record {
  buffer_capacity = buffer_capacity;
  segment_count = segment_count;
  engine = none;
  worker_thread_count = 0;
  current_strategy = balanced;
  language_performance_stats = replicate lang_count 0;
  total_operations = 0;
  last_update_time = now;
}

unfoldable pub enabled :
    ParallelBus → ℕ → ThroughputStrategy → Bool → Option Engine → Bool × ParallelBus
enabled b worker_count strategy started none = (false, b)
enabled b worker_count strategy started (some e) =
    if started
    then (
      true,
      record b {
        engine = some (parallel_engine_start e);
        worker_thread_count = worker_count;
        current_strategy = strategy;
      },
    )
    else (false, b)

unfoldable pub enable_from :
    ParallelBus → ℕ → ThroughputStrategy → Bool → Bool → Option Engine → Bool × ParallelBus
enable_from b worker_count strategy allocated started (some e) = (false, b)
enable_from b worker_count strategy allocated started none =
    enabled b worker_count strategy started (parallel_engine_init worker_count strategy allocated)

unfoldable pub enable_parallel_processing :
    ParallelBus → ℕ → ThroughputStrategy → Bool → Bool → Bool × ParallelBus
enable_parallel_processing b worker_count strategy allocated started =
    enable_from b worker_count strategy allocated started b.engine

unfoldable pub disable_from : ParallelBus → Option Engine → ParallelBus
disable_from b none = b
disable_from b (some e) = record b { engine = none; worker_thread_count = 0 }

unfoldable pub disable_parallel_processing : ParallelBus → ParallelBus
disable_parallel_processing b = disable_from b b.engine

abbrev pub count_language : List ℕ → ℕ → List ℕ
count_language stats id =
    if ltb id lang_count then set stats id (add_size (get_or stats id 0) 1) else stats

-- `umsbb_submit_parallel` with the engine's answer.
unfoldable pub count_submitted : ParallelBus → ℕ → Bool × Engine → Bool × ParallelBus
count_submitted b language_id (true, e) = (
  true,
  record b {
    engine = some e;
    total_operations = add_size b.total_operations 1;
    language_performance_stats = count_language b.language_performance_stats language_id;
  },
)
count_submitted b language_id (false, e) = (false, record b { engine = some e })

unfoldable pub submit_with :
    ParallelBus → Option Engine → ℕ → ℕ → ℕ → ℕ → ℕ → ℕ → Bool × ParallelBus
submit_with b none lane_id address size priority language_id now = (false, b)
submit_with b (some e) lane_id address size priority language_id now =
    if address == 0
    then (false, b)
    else count_submitted b language_id
        (parallel_submit_work e lane_id address size priority language_id now)

unfoldable pub submit_parallel : ParallelBus → ℕ → ℕ → ℕ → ℕ → ℕ → ℕ → Bool × ParallelBus
submit_parallel b lane_id address size priority language_id now =
    submit_with b b.engine lane_id address size priority language_id now

-- `umsbb_submit_parallel(...) == 0`, where the call returns a bool.
unfoldable pub compared : Bool × ParallelBus → Bool × ParallelBus
compared (accepted, b) = (not accepted, b)

unfoldable pub submit_counted : ParallelBus → Option Engine → ℕ → ℕ → ℕ → ℕ → Bool × ParallelBus
submit_counted b none lane_index address size now = (true, b)
submit_counted b (some e) lane_index address size now =
    compared (submit_parallel b (lane_index % 2 ^ 32) address (size % 2 ^ 32) 100 0 now)

-- `umsbb_submit_to`.
unfoldable pub submit_to : ParallelBus → ℕ → ℕ → ℕ → ℕ → Bool × ParallelBus
submit_to b lane_index address size now =
    if address == 0 || size == 0
    then (false, b)
    else submit_counted (record b { total_operations = add_size b.total_operations 1 }) b.engine
        lane_index address size now

-- The fields of a message that its submission reads.
pub record MultilangMessage : Type 0 where
  pub address : ℕ
  pub size : ℕ
  pub priority : ℕ
  pub source_lang : ℕ

unfoldable pub batch_lane : MultilangMessage → ℕ
batch_lane msg = if ltb 8192 msg.size then 1 else if ltb 150 msg.priority then 2 else 3

-- The loop of `umsbb_submit_batch_parallel`, with the messages that are left and `successful`.
unfoldable pub submit_all : ParallelBus → List MultilangMessage → ℕ → ℕ → ℕ × ParallelBus
submit_all b [] now successful = (successful, b)
submit_all b (msg ∷ msgs) now successful =
    let (accepted, b') =
      submit_parallel b (batch_lane msg) msg.address (msg.size % 2 ^ 32) msg.priority
        msg.source_lang now in
    submit_all b' msgs now (if accepted then add32 successful 1 else successful)

unfoldable pub batch_with :
    ParallelBus → Option Engine → List MultilangMessage → ℕ → Bool × ParallelBus
batch_with b none msgs now = (false, b)
batch_with b (some e) msgs now =
    if length msgs == 0
    then (false, b)
    else (let (successful, b') = submit_all b msgs now 0 in (successful == length msgs, b'))

unfoldable pub submit_batch_parallel : ParallelBus → List MultilangMessage → ℕ → Bool × ParallelBus
submit_batch_parallel b msgs now = batch_with b b.engine msgs now

unfoldable pub active_workers : ParallelBus → Option Engine → ℕ
active_workers b none = 0
active_workers b (some e) = b.worker_thread_count

unfoldable pub get_active_workers : ParallelBus → ℕ
get_active_workers b = active_workers b b.engine

unfoldable pub tune_with : ParallelBus → Option Engine → ℕ → ℕ → Bool × ParallelBus
tune_with b none new_worker_count new_batch_size = (false, b)
tune_with b (some e) new_worker_count new_batch_size =
    let (adjusted, e') = parallel_adjust_workers e new_worker_count in
    let (tuned, e'') = parallel_tune_batch_size e' new_batch_size in
    (
      adjusted && tuned,
      record b {
        engine = some e'';
        worker_thread_count = if adjusted then new_worker_count else b.worker_thread_count;
      },
    )

unfoldable pub tune_parallel_performance : ParallelBus → ℕ → ℕ → Bool × ParallelBus
tune_parallel_performance b new_worker_count new_batch_size =
    tune_with b b.engine new_worker_count new_batch_size

-- `umsbb_submit`, which ignores the answer.
unfoldable pub submit_first : ParallelBus → ℕ → ℕ → ℕ → ParallelBus
submit_first b address size now = (submit_to b 0 address size now).1

unfoldable pub get_optimal_segments : ParallelBus → ℕ
get_optimal_segments b = mul32 b.segment_count 2

unfoldable pub scale_segments : ParallelBus → ℕ → ParallelBus
scale_segments b new_count = record b { segment_count = new_count }

-- `umsbb_fast_lane_submit`.
unfoldable pub submit_fast : ParallelBus → ℕ → ℕ → ℕ → ℕ → ℕ → Bool × ParallelBus
submit_fast b lane address size priority now =
    if address == 0
    then (false, b)
    else submit_parallel b lane address (size % 2 ^ 32) priority 0 now
